-- ===== src/Recorder/Exporter/Series/Live.antt =====
-- io-bilive-recorder/metrics.go: the series of the rooms follow the versions of the rooms.
use focot_services.Prelude.{
  if◌then◌else◌, Bool-cases, is_yes, contains, Text, ℕ, ◌≡◌, refl, sym, ap, ◌∙◌, inl, inr, Bool,
  true, false, ◌||◌, Option, none, some, List, [], ◌∷◌, ◌++◌, map, append-nil, arith,
}
use focot_services.Prelude.Int.{ℤ}
use focot_services.Recorder.Exporter.{
  Gauge, room_info, collector, room_lookup, room_insert, room_series, Call, set, Exporter,
  label_values, gauge_value, info_calls, same_labels, update_info, update_room, values_of,
}
use focot_services.Recorder.Exporter.Series.{
  gauge_dec, live_after, live_after-append, live_after-set,
}
use focot_services.Prelude.Results.{ok, ◌>>=◌, ok-Passed, ok_mapped}
use focot_services.Recorder.Rooms.{Room}
use focot_services.Recorder.Exporter.Series.Maps.{same_room, room_lookup-insert, room_series_dec}

abbrev pub is_some {ℓ} : {A : Type ℓ} → Option A → Bool
is_some none = false
is_some (some _) = true

pub unmanaged : contains gauge_dec collector room_info ≡ false
unfolding gauge_dec
unmanaged = refl

pub managed :
    (g : Gauge) → contains gauge_dec collector g ≡ true → is_yes (gauge_dec room_info g) ≡ false
managed g h = elim (gauge_dec room_info g) as (λ d. is_yes d ≡ false) [
  | yes e ↦
      let is : true ≡ false = sym h ∙ ap (contains gauge_dec collector) (sym e) ∙ unmanaged in cc
  | no n ↦ refl
]

-- What a step does to the version of a room.
abbrev pub stay : Text → ℤ → Option ℕ → Option ℕ
stay n r v = v

abbrev pub updated : Text → ℕ → ℤ → Text → ℤ → Option ℕ → Option ℕ
updated node now room n r v = if same_room node room n r then some now else v

module _ (Float : Type 0) (of_int : ℤ → Float) where
  -- Whether a gauge shows a room of a node.
  unfoldable pub shows : Gauge → Text → ℤ → Exporter Float of_int → Bool
  shows g n r e = live_after Float of_int false g (room_series n r) e.calls

  abbrev pub version : Text → ℤ → Exporter Float of_int → Option ℕ
  version n r e = room_lookup n r e.room_versions

  -- Every gauge of the collector shows exactly the rooms that have a version.
  unfoldable pub IsExact : Exporter Float of_int → Type 0
  IsExact e =
      (g : Gauge)
      → contains gauge_dec collector g ≡ true
      → (n : Text) (r : ℤ) → shows g n r e ≡ is_some (version n r e)

  -- A step that keeps this, and what it does to the versions.
  pub record Moved (f : Text → ℤ → Option ℕ → Option ℕ) (e e' : Exporter Float of_int)
      : Type 0 where
    pub exact : IsExact e → IsExact e'
    pub versions : (n : Text) (r : ℤ) → version n r e' ≡ f n r (version n r e)

  -- Calls for the room info leave the gauges of the collector alone.
  info_calls_silent :
      (b : Bool) (g : Gauge) (vs values : List Text) (old : Option (List Text))
      → contains gauge_dec collector g ≡ true
      → live_after Float of_int b g vs (info_calls Float of_int values old) ≡ b
  unfolding info_calls
  info_calls_silent b g vs values none h = ground (arith, managed g h)
  info_calls_silent b g vs values (some old) h = ground (arith, managed g h)

  pub values_of_silent :
      (b : Bool) (g : Gauge) (vs : List Text) (labels : List (ℤ × List Text))
      → contains gauge_dec collector g ≡ true
      → live_after Float of_int b g vs (values_of Float of_int labels) ≡ b
  values_of_silent b g vs [] h = refl
  values_of_silent b g vs ((_, old) ∷ labels) h =
      ground (arith, managed g h, values_of_silent b g vs labels h)

  -- Calls that a gauge of the collector does not see.
  pub Moved-stay :
      (e e' : Exporter Float of_int) (cs : List (Call Float of_int))
      → e'.calls ≡ e.calls ++ cs
      → e'.room_versions ≡ e.room_versions
      → ((b : Bool) (g : Gauge) (vs : List Text)
          → contains gauge_dec collector g ≡ true
          → live_after Float of_int b g vs cs ≡ b)
      → Moved stay e e'
  unfolding shows IsExact
  Moved-stay e e' cs calls same silent = record {
    exact = λ x g hg n r.
        rw (calls, same, live_after-append Float of_int false g (room_series n r) e.calls cs)
          (silent _ g (room_series n r) hg ∙ x g hg n r);
    versions = λ n r. rw same refl;
  }

  update_info-Moved :
      (node : Text) (r : Room Float) (e e' : Exporter Float of_int)
      → update_info Float of_int node r e ≡ ok e'
      → Moved stay e e'
  unfolding update_info
  update_info-Moved node r e e' h =
      let values = label_values Float of_int node r in
      let old = room_lookup node r.room_id e.room_labels in
      elim (Bool-cases (same_labels Float of_int values old)) as (λ _. Moved stay e e') [
        | inl same ↦
            let is : ok e ≡ ok e' = rw (update_info, same) at h in
            let eq : e ≡ e' = cc in
            Moved-stay e e' [] (rw eq (sym (append-nil _))) (rw eq refl) (λ _ _ _ _. refl)
        | inr new ↦
            let (labels, stored) =
              ok_mapped (room_insert node r.room_id values e.room_labels)
                (λ l. record e {
                  room_labels = l;
                  calls = e.calls ++ info_calls Float of_int values old;
                })
                e' (rw (update_info, new) at h) in
            Moved-stay e e' (info_calls Float of_int values old) (ap (λ x. x.calls) (sym stored.1))
              (ap (λ x. x.room_versions) (sym stored.1))
              (λ b g vs. info_calls_silent b g vs values old)
      ]

  pub update_room-Moved :
      (node : Text) (now : ℕ) (r : Room Float) (e e' : Exporter Float of_int)
      → update_room Float of_int node now r e ≡ ok e'
      → Moved (updated node now r.room_id) e e'
  unfolding update_room shows IsExact
  update_room-Moved node now r e e' h =
      let gauges =
        map (λ g. set g (room_series node r.room_id) (gauge_value Float of_int g r)) collector in
      let p =
        ok-Passed (update_info Float of_int node r e)
          (λ f. room_insert node r.room_id now f.room_versions >>= λ v.
            ok (record f { room_versions = v; calls = f.calls ++ gauges }))
          e' h in
      let (v, stored) =
        ok_mapped (room_insert node r.room_id now p.value.room_versions)
          (λ v. record p.value { room_versions = v; calls = p.value.calls ++ gauges }) e'
          p.onward in
      let info = update_info-Moved node r e p.value p.reached in
      let law = λ (n : Text) (q : ℤ).
        room_lookup-insert node r.room_id now p.value.room_versions v n q stored.0 in
      rw (← stored.1) (record {
        exact = λ x g hg n q.
            rw
              (
                live_after-append Float of_int false g (room_series n q) p.value.calls gauges,
                live_after-set Float of_int (shows g n q p.value) g (room_series n q)
                    (room_series node r.room_id) (λ g. gauge_value Float of_int g r) collector,
                room_series_dec node r.room_id n q,
                hg,
                law n q,
                info.exact x g hg n q,
              )
              (grow (same_room node r.room_id n q) (version n q p.value));
        versions = λ n q. rw (law n q, info.versions n q) refl;
      })
    where
      grow : (b : Bool) (o : Option ℕ) → (is_some o || b) ≡ is_some (if b then some now else o)
      grow true none = refl
      grow true (some v) = refl
      grow false none = refl
      grow false (some v) = refl
