-- ===== src/Recorder/Exporter/Run.antt =====
-- io-bilive-recorder/metrics.go: `Start` of the exporter, and the loop of `updateMetrics` over the
-- messages that come with their times. The registration of the gauges is left out.
mod Latest
pub mod Totals
mod Tests
use focot_services.Prelude.{insert, Text, text_dec, ℕ, List, [], ◌∷◌}
use focot_services.Prelude.Int.{ℤ}
use focot_services.Prelude.Results.{Result, ok, ◌>>=◌, ◌>>◌, Fault}
use focot_services.Recorder.Rooms.{Metrics}
use focot_services.Recorder.Exporter.{RoomMap, Exporter, update_metrics}

-- `m[node] = make(...)` for each configured node.
unfoldable pub make_maps : {V : Type 0} → List Text → RoomMap V → RoomMap V
make_maps [] m = m
make_maps (node ∷ nodes) m = make_maps nodes (insert text_dec node [] m)

module _ (Float : Type 0) (of_int : ℤ → Float) where
  -- `Start`, for the nodes in `Recorders`.
  unfoldable pub start : List Text → Exporter Float of_int
  unfolding make_maps
  start nodes = record {
    room_versions = make_maps nodes [];
    room_labels = make_maps nodes [];
    calls = [];
  }

  -- The loop of `updateMetrics`.
  unfoldable pub run_updates :
      List (ℕ × Metrics Float) → Exporter Float of_int → Result Fault (Exporter Float of_int)
  run_updates [] e = ok e
  run_updates ((now, m) ∷ messages) e = do
    e' ← update_metrics Float of_int now m e
    run_updates messages e'
