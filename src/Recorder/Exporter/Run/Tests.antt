-- ===== src/Recorder/Exporter/Run/Tests.antt =====
-- io-bilive-recorder/metrics.go: two nodes that report to an exporter that has just started.
use focot_services.Prelude.{
  All, contains, keys, Text, codes, text_dec, ℕ, ◌≡◌, refl, Bool, true, false, not, ◌||◌, none,
  some, List, [], ◌∷◌, arith,
}
use focot_services.Prelude.Int.{ℤ, pos, pos_part, ℤ_discrete}
use focot_services.Prelude.Results.{ok, err, nil_map_write}
use focot_services.Recorder.Rooms.{Room, Metrics}
use focot_services.Recorder.Examples.{room_at}
use focot_services.Recorder.Exporter.{
  Gauge, recording, collector, texts_dec, room_insert, set, Exporter, update_info, update_room,
  update_rooms, update_metrics,
}
use focot_services.Recorder.Exporter.Run.{make_maps, start, run_updates}
use focot_services.Recorder.Exporter.Registry.{
  gauge, metric_name, label_names, Registry, register, register_all, init_metrics, fits,
}
use focot_services.Recorder.Exporter.Registry.Labels.{repeats, TakesNew}
use focot_services.Recorder.Exporter.Registry.Fitting.{run_updates-fits}
use focot_services.Recorder.Exporter.Run.Latest.{last_rooms, run_updates-latest}
use focot_services.Recorder.Exporter.Series.{gauge_dec}
use focot_services.Recorder.Exporter.Series.Live.{shows}

abbrev report : Text → List (Room ℕ) → Metrics ℕ
report node rooms = record { node_name = node; request_duration = 3; rooms = rooms }

-- The first node has a room, then another one; the second goes offline.
abbrev messages : List (ℕ × Metrics ℕ)
messages =
    (1, report (codes "m") (room_at (pos 4) ∷ []))
    ∷ (2, report (codes "n") (room_at (pos 4) ∷ []))
    ∷ (5, report (codes "m") (room_at (pos 6) ∷ []))
    ∷ (7, report (codes "n") [])
    ∷ []

run_updates-latest_example :
    (e' : Exporter ℕ pos_part) × (run_updates ℕ pos_part messages
        (start ℕ pos_part (codes "m" ∷ codes "n" ∷ []))
      ≡ ok e')
    × ((g : Gauge)
        → contains gauge_dec collector g ≡ true
        → (n : Text) (r : ℤ)
        → shows ℕ pos_part g n r e' ≡ contains ℤ_discrete (last_rooms ℕ pos_part n messages []) r)
unfolding text_dec
run_updates-latest_example =
    run_updates-latest ℕ pos_part (codes "m" ∷ codes "n" ∷ []) messages
      (refl, (refl, (refl, (refl, tt)))) (omega arith)

-- A library that takes just the metrics of new names whose labels are told apart.
abbrev takes_new : Registry → Text → List Text → Bool
takes_new registry name names = not (contains text_dec (keys registry) name || repeats names)

takes_new-TakesNew : TakesNew takes_new
takes_new-TakesNew registry name names new apart = ground arith

run_updates-fits_example :
    (registry : Registry) × (e' : Exporter ℕ pos_part) × (init_metrics takes_new ≡ some registry)
    × (run_updates ℕ pos_part messages (start ℕ pos_part (codes "m" ∷ codes "n" ∷ [])) ≡ ok e')
    × All (λ c. fits ℕ pos_part registry c ≡ true) e'.calls
unfolding text_dec
run_updates-fits_example =
    run_updates-fits ℕ pos_part takes_new takes_new-TakesNew (codes "m" ∷ codes "n" ∷ []) messages
      (refl, (refl, (refl, (refl, tt))))

-- A gauge that is set with a label too few does not fit, and a metric is registered once.
one_label :
    elim (init_metrics takes_new) [
      | none ↦ true
      | some registry ↦ fits ℕ pos_part registry (set recording (codes "m" ∷ []) 1)
    ]
    ≡ false
unfolding init_metrics register_all register metric_name label_names fits text_dec
one_label = refl

registered_twice : register_all takes_new (gauge recording ∷ gauge recording ∷ []) [] ≡ none
unfolding register_all register metric_name label_names text_dec
registered_twice = refl

-- A message of a node that is not configured ends the process.
unknown_node :
    run_updates ℕ pos_part
      ((1, report (codes "x") (room_at (pos 4) ∷ [])) ∷ [])
      (start ℕ pos_part (codes "m" ∷ []))
    ≡ err nil_map_write
unfolding run_updates start make_maps update_metrics update_rooms update_room update_info
    room_insert texts_dec text_dec
unknown_node = refl
