-- ===== src/Recorder/Exporter/Registry.antt =====
-- io-bilive-recorder/metrics.go: `initMetrics`, with the names of the metrics and of their labels.
-- Whether the Prometheus library takes a metric, at what is registered already, is a parameter.
pub mod Labels
mod Held
pub mod Fitting
use focot_services.Prelude.{
  ◌==◌, if◌then◌else◌, length, lookup, Text, codes, text_dec, Bool, false, Option, none, some, List,
  [], ◌∷◌, ◌++◌, map,
}
use focot_services.Prelude.Int.{ℤ}
use focot_services.Recorder.Exporter.{
  Gauge, room_info, auto_record, recording, streaming, danmaku_connected, session_duration,
  total_input_bytes, current_file_size, session_max_timestamp, file_max_timestamp,
  network_bytes_downloaded, disk_bytes_written, network_mbps, disk_mbps, collector, Call, observe,
  set, delete_values,
}

-- The metrics: `mRequestDuration`, and the gauges.
pub data Metric : Type 0 where
  request_duration : Metric
  gauge : Gauge → Metric

-- `Name` in the options of each metric.
unfoldable pub metric_name : Metric → Text
metric_name request_duration = codes "blive_request_duration"
metric_name (gauge room_info) = codes "blive_recorder_room_info"
metric_name (gauge auto_record) = codes "blive_recorder_auto_record"
metric_name (gauge recording) = codes "blive_recorder_recording"
metric_name (gauge streaming) = codes "blive_recorder_streaming"
metric_name (gauge danmaku_connected) = codes "blive_recorder_danmaku_connected"
metric_name (gauge session_duration) = codes "blive_recorder_session_duration"
metric_name (gauge total_input_bytes) = codes "blive_recorder_total_input_bytes"
metric_name (gauge current_file_size) = codes "blive_recorder_current_file_size"
metric_name (gauge session_max_timestamp) = codes "blive_recorder_session_max_timestamp"
metric_name (gauge file_max_timestamp) = codes "blive_recorder_file_max_timestamp"
metric_name (gauge network_bytes_downloaded) = codes "blive_recorder_network_bytes_downloaded"
metric_name (gauge disk_bytes_written) = codes "blive_recorder_disk_bytes_written"
metric_name (gauge network_mbps) = codes "blive_recorder_network_mbps"
metric_name (gauge disk_mbps) = codes "blive_recorder_disk_mbps"

-- `MetricsLabelNames`
abbrev pub metrics_label_names : List Text
metrics_label_names = codes "node_id" ∷ codes "room_id" ∷ []

-- `MetricsRoomLabelNames`: the tags of the fields of `RoomMetricsLabel`, in their order.
abbrev pub metrics_room_label_names : List Text
metrics_room_label_names =
    codes "node_id"
    ∷ codes "room_id"
    ∷ codes "name"
    ∷ codes "title"
    ∷ codes "area_name_parent"
    ∷ codes "area_name_child"
    ∷ codes "stream_host"
    ∷ codes "host_lookup"
    ∷ codes "recording"
    ∷ codes "streaming"
    ∷ codes "danmaku_connected"
    ∷ []

-- The labels that each metric is made with.
unfoldable pub label_names : Metric → List Text
label_names request_duration = codes "node_id" ∷ []
label_names (gauge room_info) = metrics_room_label_names
label_names (gauge _) = metrics_label_names

-- The metrics that are registered: their names, with their labels.
abbrev pub Registry : Type 0
Registry = List (Text × List Text)

-- `Register` and `MustRegister`: a metric that the library does not take ends the process.
unfoldable pub register : (Registry → Text → List Text → Bool) → Metric → Registry → Option Registry
unfolding metric_name label_names
register takes m registry =
    if takes registry (metric_name m) (label_names m)
    then some (registry ++ (metric_name m, label_names m) ∷ [])
    else none

unfoldable pub register_all :
    (Registry → Text → List Text → Bool) → List Metric → Registry → Option Registry
unfolding register
register_all takes [] registry = some registry
register_all takes (m ∷ metrics) registry = elim (register takes m registry) [
  | none ↦ none
  | some registry' ↦ register_all takes metrics registry'
]

-- `initMetrics`: the two metrics that stand for themselves, and the collector.
unfoldable pub init_metrics : (Registry → Text → List Text → Bool) → Option Registry
unfolding register_all
init_metrics takes =
    register_all takes (gauge room_info ∷ request_duration ∷ map gauge collector) []

-- Whether a metric is registered with as many labels as there are values.
abbrev pub has_labels : Registry → Metric → List Text → Bool
has_labels registry m values = elim (lookup text_dec (metric_name m) registry) [
  | none ↦ false
  | some names ↦ length names == length values
]

module _ (Float : Type 0) (of_int : ℤ → Float) where
  -- Whether a call has as many values as its metric has labels: otherwise `WithLabelValues` panics,
  -- and `DeleteLabelValues` deletes nothing.
  unfoldable pub fits : Registry → Call Float of_int → Bool
  fits registry (observe node _) = has_labels registry request_duration (node ∷ [])
  fits registry (set g values _) = has_labels registry (gauge g) values
  fits registry (delete_values g values) = has_labels registry (gauge g) values
