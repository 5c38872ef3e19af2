-- ===== src/Recorder/Exporter/Series/Tests.antt =====
-- A node that reports one room, and then another one in its place.
use focot_services.Prelude.{
  All, Text, codes, text_dec, ℕ, ◌≡◌, refl, ◌≢◌, false, some, [], ◌∷◌, arith,
}
use focot_services.Prelude.Int.{ℤ, pos, pos_part, ℤ_discrete}
use focot_services.Prelude.Results.{Result, ok, err, Fault}
use focot_services.Recorder.Examples.{room_at}
use focot_services.Recorder.Rooms.{Metrics}
use focot_services.Recorder.Exporter.{
  Gauge, texts_dec, room_lookup, room_insert, Exporter, label_values, update_info, update_room,
  update_rooms, clean_info, clean_rooms, update_metrics,
}
use focot_services.Recorder.Exporter.Series.Live.{shows, version, IsExact}
use focot_services.Recorder.Exporter.Series.Values.{shown}
use focot_services.Recorder.Exporter.Series.Offline.{info_shown, offline, update_metrics-offline}
use focot_services.Recorder.Exporter.Series.Updates.{readings, update_metrics_values}

abbrev report : ℤ → Metrics ℕ
report id = record { node_name = codes "n"; request_duration = 3; rooms = room_at id ∷ [] }

abbrev started : Exporter ℕ pos_part
started = record {
  room_versions = (codes "n", []) ∷ [];
  room_labels = (codes "n", []) ∷ [];
  calls = [];
}

abbrev taken : Result Fault (Exporter ℕ pos_part) → Exporter ℕ pos_part
taken (ok e) = e
taken (err _) = started

first : Exporter ℕ pos_part
first = taken (update_metrics ℕ pos_part 1 (report (pos 4)) started)

second : Exporter ℕ pos_part
second = taken (update_metrics ℕ pos_part 2 (report (pos 5)) first)

started-IsExact : IsExact ℕ pos_part started
unfolding IsExact shows
started-IsExact g hg n r = ground arith

first_taken : update_metrics ℕ pos_part 1 (report (pos 4)) started ≡ ok first
unfolding first update_metrics update_rooms update_room update_info room_insert texts_dec text_dec
    ℤ_discrete
first_taken = refl

second_taken : update_metrics ℕ pos_part 2 (report (pos 5)) first ≡ ok second
unfolding first second update_metrics update_rooms update_room update_info room_insert texts_dec
    text_dec ℤ_discrete
second_taken = refl

first_versions : first.room_versions ≡ (codes "n", (pos 4, 1) ∷ []) ∷ []
unfolding first update_metrics update_rooms update_room update_info room_insert texts_dec text_dec
    ℤ_discrete clean_rooms clean_info
first_versions = refl

first_fresh : (n : Text) (r : ℤ) → version ℕ pos_part n r first ≢ some 2
first_fresh n r = rw first_versions (ground arith)

update_metrics_values_example :
    All
      (λ (p : Gauge × ℕ). shown ℕ pos_part p.0 (codes "n") (pos 4) first ≡ some p.1)
      (readings ℕ pos_part (room_at (pos 4)))
unfolding ℤ_discrete
update_metrics_values_example =
    update_metrics_values ℕ pos_part 1 (report (pos 4)) started first (pos 4) (room_at (pos 4))
      first_taken refl

-- The node of `first` goes offline.
gone : Exporter ℕ pos_part
gone = taken (update_metrics ℕ pos_part 2 (offline ℕ pos_part (codes "n") 9) first)

gone_taken : update_metrics ℕ pos_part 2 (offline ℕ pos_part (codes "n") 9) first ≡ ok gone
unfolding gone update_metrics update_rooms
gone_taken = refl

first_labels :
    room_lookup (codes "n") (pos 4) first.room_labels
    ≡ some (label_values ℕ pos_part (codes "n") (room_at (pos 4)))
unfolding first update_metrics update_rooms update_room update_info room_insert texts_dec text_dec
    ℤ_discrete clean_rooms clean_info
first_labels = refl

update_metrics-offline_example :
    (info_shown ℕ pos_part (label_values ℕ pos_part (codes "n") (room_at (pos 4))) gone ≡ false)
    × (update_info ℕ pos_part (codes "n") (room_at (pos 4)) gone ≡ ok gone)
update_metrics-offline_example =
    update_metrics-offline ℕ pos_part 2 9 (codes "n") (room_at (pos 4)) first gone first_labels
      gone_taken
