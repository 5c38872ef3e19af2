-- ===== src/Recorder/Exporter/Series/Sweep.antt =====
-- io-bilive-recorder/metrics.go: one message of `updateMetrics`, from the first room to the sweep.
use focot_services.Prelude.{
  ◌==◌, if◌then◌else◌, Bool-cases, is_yes, contains, Text, text_dec, ℕ, ◌≡◌, refl, ap, ◌∙◌, inl,
  inr, Bool, true, false, not, ◌&&◌, Option, none, some, List, [], ◌∷◌, ◌++◌, map, arith,
}
use focot_services.Prelude.Int.{ℤ, ℤ_discrete}
use focot_services.Prelude.Results.{ok, ok-Passed}
use focot_services.Recorder.Rooms.{Room}
use focot_services.Recorder.Exporter.{
  collector, rooms_of, room_delete, room_series, delete_values, Exporter, update_room, update_rooms,
  values_of, clean_info, clean_rooms,
}
use focot_services.Recorder.Exporter.Series.{live_after-append, live_after-delete}
use focot_services.Recorder.Exporter.Series.Maps.{
  same_room, room_lookup-delete, room_series_dec, same_room-cases,
}
use focot_services.Recorder.Exporter.Series.Live.{
  is_some, stay, updated, shows, version, IsExact, Moved, values_of_silent, Moved-stay,
  update_room-Moved,
}

-- The versions after the rooms of an update, and after the sweep.
abbrev pub refreshed : Text → ℕ → List ℤ → Text → ℤ → Option ℕ → Option ℕ
refreshed node now rooms n r v =
    if is_yes (text_dec node n) && contains ℤ_discrete rooms r then some now else v

abbrev pub swept : Text → ℕ → List ℤ → Text → ℤ → Option ℕ → Option ℕ
swept node now rooms n r none = none
swept node now rooms n r (some v) =
    if is_yes (text_dec node n) && contains ℤ_discrete rooms r && not (v == now)
    then none
    else some v

-- A sweep passes over a room that has no version, or this one.
swept_skip :
    (node : Text) (now : ℕ) (room : ℤ) (rooms : List ℤ) (at : Text → ℤ → Option ℕ) (o : Option ℕ)
    → at node room ≡ o
    → elim o [ none ↦ true | some v ↦ v == now ] ≡ true
    → (n : Text) (q : ℤ)
    → swept node now rooms n q (at n q) ≡ swept node now (room ∷ rooms) n q (at n q)
swept_skip node now room rooms at none is h n q = ground (arith, same_room-cases node room n q)
swept_skip node now room rooms at (some v) is h n q = ground (arith, same_room-cases node room n q)

swept_drop :
    (node : Text) (now : ℕ) (room : ℤ) (rooms : List ℤ) (at : Text → ℤ → Option ℕ) (v : ℕ)
    → at node room ≡ some v
    → (v == now) ≡ false
    → (n : Text) (q : ℤ)
    → swept node now rooms n q (if same_room node room n q then none else at n q)
      ≡ swept node now (room ∷ rooms) n q (at n q)
swept_drop node now room rooms at v is h n q = ground (arith, same_room-cases node room n q)

module _ (Float : Type 0) (of_int : ℤ → Float) where
  abbrev pub ids : List (Room Float) → List ℤ
  ids [] = []
  ids (r ∷ rooms) = r.room_id ∷ ids rooms

  pub Moved-then :
      (f g : Text → ℤ → Option ℕ → Option ℕ) (e e' e'' : Exporter Float of_int)
      → Moved Float of_int f e e'
      → Moved Float of_int g e' e''
      → Moved Float of_int (λ n r v. g n r (f n r v)) e e''
  Moved-then f g e e' e'' one two = record {
    exact = λ x. two.exact (one.exact x);
    versions = λ n r. two.versions n r ∙ ap (g n r) (one.versions n r);
  }

  -- Another account of the same versions.
  pub Moved-as :
      (f g : Text → ℤ → Option ℕ → Option ℕ) (e e' : Exporter Float of_int)
      → ((n : Text) (r : ℤ)
          → f n r (version Float of_int n r e) ≡ g n r (version Float of_int n r e))
      → Moved Float of_int f e e'
      → Moved Float of_int g e e'
  Moved-as f g e e' same m = record { exact = m.exact; versions = λ n r. m.versions n r ∙ same n r }

  pub update_rooms-Moved :
      (node : Text) (now : ℕ) (rooms : List (Room Float)) (e e' : Exporter Float of_int)
      → update_rooms Float of_int node now rooms e ≡ ok e'
      → Moved Float of_int (refreshed node now (ids rooms)) e e'
  unfolding update_rooms
  update_rooms-Moved node now [] e e' h =
      Moved-as stay (refreshed node now []) e e' (λ n r. ground arith)
        (rw (← (let is : e ≡ e' = cc in is)) (record { exact = λ x. x; versions = λ _ _. refl }))
  update_rooms-Moved node now (r ∷ rooms) e e' h =
      let p =
        ok-Passed (update_room Float of_int node now r e) (update_rooms Float of_int node now rooms)
          e' h in
      let one = update_room-Moved Float of_int node now r e p.value p.reached in
      let more = update_rooms-Moved node now rooms p.value e' p.onward in
      Moved-as _ (refreshed node now (ids (r ∷ rooms))) e e' (λ n q. ground arith)
        (Moved-then (updated node now r.room_id) (refreshed node now (ids rooms)) e p.value e' one
          more)

  pub clean_info-Moved :
      (node : Text) (rooms : List (Room Float)) (e : Exporter Float of_int)
      → Moved Float of_int stay e (clean_info Float of_int node rooms e)
  unfolding clean_info
  clean_info-Moved node [] e =
      let labels = rooms_of node e.room_labels in
      Moved-stay Float of_int e _ (values_of Float of_int labels) refl refl
        (λ b g vs. values_of_silent Float of_int b g vs labels)
  clean_info-Moved node (r ∷ rooms) e = record { exact = λ x. x; versions = λ _ _. refl }

  -- One room is swept.
  drop-Moved :
      (node : Text) (now : ℕ) (room : ℤ) (e : Exporter Float of_int)
      → Moved Float of_int
          (λ n r v. if same_room node room n r then none else v)
          e
          (record e {
            room_versions = room_delete node room e.room_versions;
            calls = e.calls ++ map (λ g. delete_values g (room_series node room)) collector;
          })
  unfolding shows IsExact
  drop-Moved node now room e =
      let law = λ (n : Text) (q : ℤ). room_lookup-delete node room e.room_versions n q in
      record {
        exact = λ x g hg n q.
            rw
              (
                live_after-append Float of_int false g (room_series n q) e.calls
                    (map (λ g. delete_values g (room_series node room)) collector),
                live_after-delete Float of_int (shows Float of_int g n q e) g (room_series n q)
                    (room_series node room) collector,
                room_series_dec node room n q,
                hg,
                law n q,
                x g hg n q,
              )
              (shrink (same_room node room n q) (version Float of_int n q e));
        versions = law;
      }
    where
      shrink : (b : Bool) (o : Option ℕ) → (is_some o && not b) ≡ is_some (if b then none else o)
      shrink true none = refl
      shrink true (some v) = refl
      shrink false none = refl
      shrink false (some v) = refl

  pub clean_rooms-Moved :
      (node : Text) (now : ℕ) (rooms : List ℤ) (e : Exporter Float of_int)
      → Moved Float of_int (swept node now rooms) e (clean_rooms Float of_int node now rooms e)
  unfolding clean_rooms
  clean_rooms-Moved node now [] e =
      Moved-as stay (swept node now []) e e (λ n r. ground arith)
        (record { exact = λ x. x; versions = λ _ _. refl })
  clean_rooms-Moved node now (room ∷ rooms) e =
      on_version (version Float of_int node room e) refl (λ f. clean_rooms-Moved node now rooms f)
    where
      on_version :
          (o : Option ℕ)
          → version Float of_int node room e ≡ o
          → ((f : Exporter Float of_int)
              → Moved Float of_int
                  (swept node now rooms)
                  f
                  (clean_rooms Float of_int node now rooms f))
          → Moved Float of_int
              (swept node now (room ∷ rooms))
              e
              (clean_rooms Float of_int node now (room ∷ rooms) e)
      on_version none is rest =
          rw (clean_rooms, is)
            (Moved-as (swept node now rooms) (swept node now (room ∷ rooms)) e _
              (swept_skip node now room rooms (λ n q. version Float of_int n q e) none is refl)
              (rest e))
      on_version (some v) is rest =
          elim (Bool-cases (v == now))
            as (λ _.
              Moved Float of_int (swept node now (room ∷ rooms)) e
                (clean_rooms Float of_int node now (room ∷ rooms) e)) [
                  | inl fresh ↦
                      rw (clean_rooms, is, fresh)
                        (Moved-as (swept node now rooms) (swept node now (room ∷ rooms)) e _
                          (swept_skip node now room rooms (λ n q. version Float of_int n q e)
                            (some v) is fresh)
                          (rest e))
                  | inr old ↦
                      rw (clean_rooms, is, old)
                        (Moved-as _ (swept node now (room ∷ rooms)) e _
                          (swept_drop node now room rooms (λ n q. version Float of_int n q e) v is
                            old)
                          (Moved-then _ (swept node now rooms) e _ _ (drop-Moved node now room e)
                            (rest _)))
                ]
