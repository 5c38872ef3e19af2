-- ===== src/Recorder/Exporter/Registry/Fitting.antt =====
-- io-bilive-recorder/metrics.go: every call of `updateMetrics` has the labels of its metric.
use focot_services.Prelude.{
  ◌==◌, Bool-cases, Option-cases, All, All-append, keys, Text, ℕ, ◌≡◌, refl, inl, inr, Bool, true,
  some, List, [], ◌∷◌, ◌++◌, map,
}
use focot_services.Prelude.Int.{ℤ}
use focot_services.Prelude.Results.{ok, ◌>>=◌, ok-Passed, ok_mapped}
use focot_services.Recorder.Rooms.{Room, Metrics}
use focot_services.Recorder.Exporter.{
  Gauge, collector, room_lookup, room_insert, rooms_of, room_series, observe, set, Exporter,
  label_values, gauge_value, info_calls, same_labels, update_info, update_room, update_rooms,
  clean_info, clean_rooms, update_metrics,
}
use focot_services.Recorder.Exporter.Run.{start, run_updates}
use focot_services.Recorder.Exporter.Run.Totals.{AreKnown, run_updates_taken}
use focot_services.Recorder.Exporter.Registry.{
  request_duration, label_names, Registry, init_metrics, fits,
}
use focot_services.Recorder.Exporter.Registry.Held.{
  collector-IsRoomGauge, AllValues-room_insert, rooms_of-AllValues, room_lookup-IsInfo,
  make_maps-AllValues, IsFitting, IsLabelled, set-IsFitting, delete-IsFitting, values_of-IsFitting,
  info_calls-IsFitting,
}
use focot_services.Recorder.Exporter.Registry.Labels.{
  registered, TakesNew, init_metrics-registered, registered-has_labels,
}

module _ (Float : Type 0) (of_int : ℤ → Float) where
  update_info-IsLabelled :
      (node : Text) (r : Room Float) (e e' : Exporter Float of_int)
      → update_info Float of_int node r e ≡ ok e'
      → IsLabelled Float of_int e
      → IsLabelled Float of_int e'
  unfolding update_info label_values
  update_info-IsLabelled node r e e' h l =
      let values = label_values Float of_int node r in
      let old = room_lookup node r.room_id e.room_labels in
      elim (Bool-cases (same_labels Float of_int values old)) [
        | inl same ↦
            let is : ok e ≡ ok e' = rw (update_info, same) at h in
            let eq : e ≡ e' = cc in rw (← eq) l
        | inr new ↦
            let (labels, stored) =
              ok_mapped (room_insert node r.room_id values e.room_labels)
                (λ l. record e {
                  room_labels = l;
                  calls = e.calls ++ info_calls Float of_int values old;
                })
                e' (rw (update_info, new) at h) in
            rw (← stored.1) (record {
              held =
                  AllValues-room_insert node r.room_id values e.room_labels labels stored.0 refl
                    l.held;
              fitting = All-append (IsFitting Float of_int) e.calls _ l.fitting (
                  info_calls-IsFitting Float of_int values old refl
                    (λ vs found. room_lookup-IsInfo node r.room_id e.room_labels vs l.held found));
            })
      ]

  update_room-IsLabelled :
      (node : Text) (now : ℕ) (r : Room Float) (e e' : Exporter Float of_int)
      → update_room Float of_int node now r e ≡ ok e'
      → IsLabelled Float of_int e
      → IsLabelled Float of_int e'
  unfolding update_room
  update_room-IsLabelled node now r e e' h l =
      let value = λ (g : Gauge). gauge_value Float of_int g r in
      let gauges = map (λ g. set g (room_series node r.room_id) (value g)) collector in
      let p =
        ok-Passed (update_info Float of_int node r e)
          (λ f. room_insert node r.room_id now f.room_versions >>= λ v.
            ok (record f { room_versions = v; calls = f.calls ++ gauges }))
          e' h in
      let (v, stored) =
        ok_mapped (room_insert node r.room_id now p.value.room_versions)
          (λ v. record p.value { room_versions = v; calls = p.value.calls ++ gauges }) e'
          p.onward in
      let l' = update_info-IsLabelled node r e p.value p.reached l in
      rw (← stored.1) (record {
        held = l'.held;
        fitting =
            All-append (IsFitting Float of_int) p.value.calls gauges l'.fitting
              (set-IsFitting Float of_int node r.room_id value collector collector-IsRoomGauge);
      })

  update_rooms-IsLabelled :
      (node : Text) (now : ℕ) (rooms : List (Room Float)) (e e' : Exporter Float of_int)
      → update_rooms Float of_int node now rooms e ≡ ok e'
      → IsLabelled Float of_int e
      → IsLabelled Float of_int e'
  unfolding update_rooms
  update_rooms-IsLabelled node now [] e e' h l = let same : e ≡ e' = cc in rw (← same) l
  update_rooms-IsLabelled node now (r ∷ rooms) e e' h l =
      let p =
        ok-Passed (update_room Float of_int node now r e) (update_rooms Float of_int node now rooms)
          e' h in
      update_rooms-IsLabelled node now rooms p.value e' p.onward
        (update_room-IsLabelled node now r e p.value p.reached l)

  clean_info-IsLabelled :
      (node : Text) (rooms : List (Room Float)) (e : Exporter Float of_int)
      → IsLabelled Float of_int e
      → IsLabelled Float of_int (clean_info Float of_int node rooms e)
  unfolding clean_info
  clean_info-IsLabelled node [] e l = record {
    held = l.held;
    fitting = All-append (IsFitting Float of_int) e.calls _ l.fitting (
        values_of-IsFitting Float of_int (rooms_of node e.room_labels)
          (rooms_of-AllValues node e.room_labels l.held));
  }
  clean_info-IsLabelled node (r ∷ rooms) e l = l

  clean_rooms-IsLabelled :
      (node : Text) (now : ℕ) (rooms : List ℤ) (e : Exporter Float of_int)
      → IsLabelled Float of_int e
      → IsLabelled Float of_int (clean_rooms Float of_int node now rooms e)
  unfolding clean_rooms
  clean_rooms-IsLabelled node now [] e l = l
  clean_rooms-IsLabelled node now (room ∷ rooms) e l =
      elim (Option-cases (room_lookup node room e.room_versions))
        as (λ _. IsLabelled Float of_int (clean_rooms Float of_int node now (room ∷ rooms) e)) [
          | inl is ↦ rw (clean_rooms, is) (clean_rooms-IsLabelled node now rooms e l)
          | inr (v, is) ↦
              elim (Bool-cases (v == now))
                as (λ _.
                  IsLabelled Float of_int (clean_rooms Float of_int node now (room ∷ rooms) e)) [
                    | inl fresh ↦
                        rw (clean_rooms, is, fresh) (clean_rooms-IsLabelled node now rooms e l)
                    | inr old ↦
                        rw (clean_rooms, is, old)
                          (clean_rooms-IsLabelled node now rooms _ (record {
                            held = l.held;
                            fitting = All-append (IsFitting Float of_int) e.calls _ l.fitting (
                                delete-IsFitting Float of_int node room collector
                                  collector-IsRoomGauge);
                          }))
                  ]
        ]

  update_metrics-IsLabelled :
      (now : ℕ) (m : Metrics Float) (e e' : Exporter Float of_int)
      → update_metrics Float of_int now m e ≡ ok e'
      → IsLabelled Float of_int e
      → IsLabelled Float of_int e'
  unfolding update_metrics fits label_names
  update_metrics-IsLabelled now m e e' h l =
      let observed = record e { calls = e.calls ++ observe m.node_name m.request_duration ∷ [] } in
      let cleaned = λ (f : Exporter Float of_int). clean_info Float of_int m.node_name m.rooms f in
      let swept = λ (f : Exporter Float of_int).
        clean_rooms Float of_int m.node_name now
          (keys (rooms_of m.node_name (cleaned f).room_versions)) (cleaned f) in
      let (f, went) =
        ok_mapped (update_rooms Float of_int m.node_name now m.rooms observed) swept e' h in
      rw (← went.1) (
        clean_rooms-IsLabelled m.node_name now _ (cleaned f) (
          clean_info-IsLabelled m.node_name m.rooms f (
            update_rooms-IsLabelled m.node_name now m.rooms observed f went.0 (record {
              held = l.held;
              fitting =
                  All-append (IsFitting Float of_int) e.calls _ l.fitting
                    (registered-has_labels request_duration (m.node_name ∷ []) refl, tt);
            }))))

  run_updates-IsLabelled :
      (messages : List (ℕ × Metrics Float)) (e e' : Exporter Float of_int)
      → run_updates Float of_int messages e ≡ ok e'
      → IsLabelled Float of_int e
      → IsLabelled Float of_int e'
  unfolding run_updates
  run_updates-IsLabelled [] e e' h l = let same : e ≡ e' = cc in rw (← same) l
  run_updates-IsLabelled ((now, m) ∷ messages) e e' h l =
      let p =
        ok-Passed (update_metrics Float of_int now m e) (run_updates Float of_int messages) e' h in
      run_updates-IsLabelled messages p.value e' p.onward
        (update_metrics-IsLabelled now m e p.value p.reached l)

  -- Where the library takes every metric of a new name and labels that are told apart, `initMetrics`
  -- registers all its metrics; and from the start of the exporter on, whatever messages of configured
  -- nodes come, it takes them without a panic, and every call that it makes has as many values as its
  -- metric was registered with labels.
  pub run_updates-fits :
      (takes : Registry → Text → List Text → Bool)
      → TakesNew takes
      → (nodes : List Text) (messages : List (ℕ × Metrics Float))
      → AreKnown Float of_int nodes messages
      → (registry : Registry) × (e' : Exporter Float of_int) × (init_metrics takes ≡ some registry)
        × (run_updates Float of_int messages (start Float of_int nodes) ≡ ok e')
        × All (λ c. fits Float of_int registry c ≡ true) e'.calls
  unfolding start
  run_updates-fits takes law nodes messages known =
      let (e', taken) = run_updates_taken Float of_int nodes messages known in
      let l =
        run_updates-IsLabelled messages (start Float of_int nodes) e' taken
          (record { held = make_maps-AllValues nodes [] tt; fitting = tt }) in
      (registered, e', init_metrics-registered takes law, taken, l.fitting)
