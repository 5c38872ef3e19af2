-- ===== src/Recorder/Exporter/Series/Shown.antt =====
-- io-bilive-recorder/metrics.go: what the parts of `updateMetrics` do to the values of a room.
use focot_services.Prelude.{
  ◌==◌, if◌then◌else◌, Bool-cases, is_yes, contains, Text, ℕ, ◌≡◌, refl, sym, ap, ◌∙◌, inl, inr,
  true, false, Option, none, some, List, [], ◌∷◌, ◌++◌, map, arith,
}
use focot_services.Prelude.Int.{ℤ, ℤ_discrete}
use focot_services.Prelude.Results.{ok, ◌>>=◌, ok-Passed, ok_mapped, value_or}
use focot_services.Recorder.Rooms.{Room}
use focot_services.Recorder.Exporter.{
  Gauge, collector, room_lookup, room_insert, rooms_of, room_series, Call, set, delete_values,
  Exporter, label_values, gauge_value, info_calls, same_labels, update_info, update_room,
  update_rooms, values_of, clean_info, clean_rooms,
}
use focot_services.Recorder.Exporter.Series.{gauge_dec}
use focot_services.Recorder.Exporter.Series.Maps.{same_room, room_lookup-delete, room_series_dec}
use focot_services.Recorder.Exporter.Series.Values.{
  value_after, value_after-append, value_after-set, value_after-delete, info_calls-value,
  values_of-value, shown,
}
use focot_services.Recorder.Exporter.Series.Live.{version}

module _ (Float : Type 0) (of_int : ℤ → Float) where
  -- The last report of a room.
  abbrev pub last_report : ℤ → List (Room Float) → Option (Room Float) → Option (Room Float)
  last_report q [] before = before
  last_report q (r ∷ rooms) before =
      last_report q rooms (if is_yes (ℤ_discrete r.room_id q) then some r else before)

  -- What a gauge shows by a report, or else showed before.
  abbrev pub reported : Gauge → Option (Room Float) → Option Float → Option Float
  reported g none before = before
  reported g (some r) before = some (gauge_value Float of_int g r)

  shown-silent :
      (g : Gauge) (n : Text) (q : ℤ) (e e' : Exporter Float of_int) (cs : List (Call Float of_int))
      → e'.calls ≡ e.calls ++ cs
      → ((o : Option Float) → value_after Float of_int o g (room_series n q) cs ≡ o)
      → shown Float of_int g n q e' ≡ shown Float of_int g n q e
  unfolding shown
  shown-silent g n q e e' cs calls silent =
      ap (value_after Float of_int none g (room_series n q)) calls
      ∙ value_after-append Float of_int none g (room_series n q) e.calls cs
      ∙ silent _

  shown-update_info :
      (node : Text) (r : Room Float) (e e' : Exporter Float of_int) (g : Gauge) (n : Text) (q : ℤ)
      → contains gauge_dec collector g ≡ true
      → update_info Float of_int node r e ≡ ok e'
      → shown Float of_int g n q e' ≡ shown Float of_int g n q e
  unfolding update_info
  shown-update_info node r e e' g n q hg h =
      let values = label_values Float of_int node r in
      let old = room_lookup node r.room_id e.room_labels in
      elim (Bool-cases (same_labels Float of_int values old)) [
        | inl same ↦
            let is : ok e ≡ ok e' = rw (update_info, same) at h in
            ap (shown Float of_int g n q) (sym (ap (value_or e) is))
        | inr new ↦
            let (labels, stored) =
              ok_mapped (room_insert node r.room_id values e.room_labels)
                (λ l. record e {
                  room_labels = l;
                  calls = e.calls ++ info_calls Float of_int values old;
                })
                e' (rw (update_info, new) at h) in
            shown-silent g n q e e' (info_calls Float of_int values old)
              (ap (λ x. x.calls) (sym stored.1))
              (λ o. info_calls-value Float of_int o g (room_series n q) values old hg)
      ]

  shown-update_room :
      (node : Text) (now : ℕ) (r : Room Float) (e e' : Exporter Float of_int) (g : Gauge) (q : ℤ)
      → contains gauge_dec collector g ≡ true
      → update_room Float of_int node now r e ≡ ok e'
      → shown Float of_int g node q e' ≡ (
          if is_yes (ℤ_discrete r.room_id q)
          then some (gauge_value Float of_int g r)
          else shown Float of_int g node q e)
  unfolding update_room shown
  shown-update_room node now r e e' g q hg h =
      let gauges =
        map (λ g. set g (room_series node r.room_id) (gauge_value Float of_int g r)) collector in
      let p =
        ok-Passed (update_info Float of_int node r e)
          (λ f. room_insert node r.room_id now f.room_versions >>= λ v.
            ok (record f { room_versions = v; calls = f.calls ++ gauges }))
          e' h in
      let (v, stored) =
        ok_mapped (room_insert node r.room_id now p.value.room_versions)
          (λ v. record p.value { room_versions = v; calls = p.value.calls ++ gauges }) e'
          p.onward in
      rw (← stored.1) (
        value_after-append Float of_int none g (room_series node q) p.value.calls gauges
        ∙ value_after-set Float of_int (shown Float of_int g node q p.value) g (room_series node q)
            (room_series node r.room_id) (λ g. gauge_value Float of_int g r) collector
        ∙ rw
            (
              hg,
              room_series_dec node r.room_id node q,
              shown-update_info node r e p.value g node q hg p.reached,
            )
            (ground arith))

  pub shown-update_rooms :
      (node : Text) (now : ℕ) (rooms : List (Room Float)) (e e' : Exporter Float of_int) (g : Gauge)
      (q : ℤ) (before : Option (Room Float)) (o : Option Float)
      → contains gauge_dec collector g ≡ true
      → update_rooms Float of_int node now rooms e ≡ ok e'
      → shown Float of_int g node q e ≡ reported g before o
      → shown Float of_int g node q e' ≡ reported g (last_report q rooms before) o
  unfolding update_rooms
  shown-update_rooms node now [] e e' g q before o hg h start =
      ap (shown Float of_int g node q) (sym (ap (value_or e) h)) ∙ start
  shown-update_rooms node now (r ∷ rooms) e e' g q before o hg h start =
      let p =
        ok-Passed (update_room Float of_int node now r e) (update_rooms Float of_int node now rooms)
          e' h in
      let one = shown-update_room node now r e p.value g q hg p.reached in
      shown-update_rooms node now rooms p.value e' g q
        (if is_yes (ℤ_discrete r.room_id q) then some r else before) o hg p.onward
        (one
          ∙ elim (ℤ_discrete r.room_id q)
              as (λ d.
                (if is_yes d
                  then some (gauge_value Float of_int g r)
                  else shown Float of_int g node q e)
                ≡ reported g (if is_yes d then some r else before) o) [
                  | yes _ ↦ refl
                  | no _ ↦ start
                ])

  -- A sweep leaves a room alone whose version is that of the message.
  pub shown-clean_rooms :
      (node : Text) (now : ℕ) (rooms : List ℤ) (e : Exporter Float of_int) (g : Gauge) (q : ℤ)
      → version Float of_int node q e ≡ some now
      → shown Float of_int g node q (clean_rooms Float of_int node now rooms e)
        ≡ shown Float of_int g node q e
  unfolding clean_rooms
  shown-clean_rooms node now [] e g q is = refl
  shown-clean_rooms node now (room ∷ rooms) e g q is =
      on_version (version Float of_int node room e) refl
        (λ f. shown-clean_rooms node now rooms f g q)
    where
      on_version :
          (o : Option ℕ)
          → version Float of_int node room e ≡ o
          → ((f : Exporter Float of_int)
              → version Float of_int node q f ≡ some now
              → shown Float of_int g node q (clean_rooms Float of_int node now rooms f)
                ≡ shown Float of_int g node q f)
          → shown Float of_int g node q (clean_rooms Float of_int node now (room ∷ rooms) e)
            ≡ shown Float of_int g node q e
      on_version none at rest = rw (clean_rooms, at) (rest e is)
      on_version (some v) at rest = elim (Bool-cases (v == now)) [
        | inl fresh ↦ rw (clean_rooms, at, fresh) (rest e is)
        | inr old ↦
            let other : is_yes (ℤ_discrete room q) ≡ false =
              elim (ℤ_discrete room q) as (λ d. is_yes d ≡ false) [
                | yes p ↦ absurd (
                    let same : some v ≡ some now =
                      sym at ∙ ap (λ k. version Float of_int node k e) p ∙ is in
                    let eq : v ≡ now = cc in ground arith)
                | no _ ↦ refl
              ] in
            let off : same_room node room node q ≡ false = ground (arith, other) in
            rw (clean_rooms, at, old)
              (rest _ (room_lookup-delete node room e.room_versions node q ∙ rw off is)
                ∙ shown-silent g node q e _
                    (map (λ g. delete_values g (room_series node room)) collector) refl
                    (λ o.
                      value_after-delete Float of_int o g (room_series node q)
                        (room_series node room) collector (room_series_dec node room node q ∙ off)))
      ]

  pub shown-clean_info :
      (node : Text) (rooms : List (Room Float)) (e : Exporter Float of_int) (g : Gauge) (q : ℤ)
      → contains gauge_dec collector g ≡ true
      → shown Float of_int g node q (clean_info Float of_int node rooms e)
        ≡ shown Float of_int g node q e
  unfolding clean_info
  shown-clean_info node [] e g q hg =
      shown-silent g node q e _ (values_of Float of_int (rooms_of node e.room_labels)) refl (λ o.
        values_of-value Float of_int o g (room_series node q) (rooms_of node e.room_labels) hg)
  shown-clean_info node (r ∷ rooms) e g q hg = refl
