-- ===== src/Recorder/Exporter/Registry/Labels.antt =====
-- io-bilive-recorder/metrics.go: what `initMetrics` registers.
use focot_services.Prelude.{
  length, contains, keys, lookup, Text, text_dec, ◌≡◌, refl, ap, ◌∙◌, Bool, true, false, not, ◌&&◌,
  ◌||◌, some, List, [], ◌∷◌, ◌++◌, map, append_assoc, append-nil, arith,
}
use focot_services.Recorder.Exporter.{
  room_info, auto_record, recording, streaming, danmaku_connected, session_duration,
  total_input_bytes, current_file_size, session_max_timestamp, file_max_timestamp,
  network_bytes_downloaded, disk_bytes_written, network_mbps, disk_mbps, collector,
}
use focot_services.Recorder.Exporter.Registry.{
  Metric, request_duration, gauge, metric_name, label_names, Registry, register, register_all,
  init_metrics, has_labels,
}

-- The metrics in the order in which they are registered, and what is registered then.
abbrev pub metrics : List Metric
metrics = gauge room_info ∷ request_duration ∷ map gauge collector

abbrev pub registered : Registry
registered = map (λ m. (metric_name m, label_names m)) metrics

abbrev pub repeats : List Text → Bool
repeats [] = false
repeats (x ∷ xs) = contains text_dec xs x || repeats xs

-- The library takes a metric of a new name, whose labels are told apart.
abbrev pub TakesNew : (Registry → Text → List Text → Bool) → Type 0
TakesNew takes =
    (registry : Registry) (name : Text) (names : List Text)
    → contains text_dec (keys registry) name ≡ false
    → repeats names ≡ false
    → takes registry name names ≡ true

-- Whether metrics can be registered one after the other.
abbrev are_new : List Metric → Registry → Bool
are_new [] registry = true
are_new (m ∷ ms) registry =
    not (contains text_dec (keys registry) (metric_name m))
    && not (repeats (label_names m))
    && are_new ms (registry ++ (metric_name m, label_names m) ∷ [])

register_all_new :
    (takes : Registry → Text → List Text → Bool)
    → TakesNew takes
    → (ms : List Metric) (registry : Registry) → are_new ms registry ≡ true
    → register_all takes ms registry
      ≡ some (registry ++ map (λ m. (metric_name m, label_names m)) ms)
unfolding register_all register
register_all_new takes law [] registry h = rw (append-nil registry) refl
register_all_new takes law (m ∷ ms) registry h =
    let entry : Text × List Text = (metric_name m, label_names m) in
    let first = law registry (metric_name m) (label_names m) (ground arith) (ground arith) in
    rw (register_all, register, first)
      (register_all_new takes law ms (registry ++ entry ∷ []) (ground arith)
        ∙ ap some (append_assoc registry (entry ∷ []) _))

metrics_new : are_new metrics [] ≡ true
unfolding metric_name label_names text_dec
metrics_new = refl

pub init_metrics-registered :
    (takes : Registry → Text → List Text → Bool)
    → TakesNew takes
    → init_metrics takes ≡ some registered
unfolding init_metrics
init_metrics-registered takes law = register_all_new takes law metrics [] metrics_new

lookup-registered : (m : Metric) → lookup text_dec (metric_name m) registered ≡ some (label_names m)
unfolding metric_name label_names text_dec
lookup-registered request_duration = refl
lookup-registered (gauge room_info) = refl
lookup-registered (gauge auto_record) = refl
lookup-registered (gauge recording) = refl
lookup-registered (gauge streaming) = refl
lookup-registered (gauge danmaku_connected) = refl
lookup-registered (gauge session_duration) = refl
lookup-registered (gauge total_input_bytes) = refl
lookup-registered (gauge current_file_size) = refl
lookup-registered (gauge session_max_timestamp) = refl
lookup-registered (gauge file_max_timestamp) = refl
lookup-registered (gauge network_bytes_downloaded) = refl
lookup-registered (gauge disk_bytes_written) = refl
lookup-registered (gauge network_mbps) = refl
lookup-registered (gauge disk_mbps) = refl

pub registered-has_labels :
    (m : Metric) (values : List Text)
    → length (label_names m) ≡ length values
    → has_labels registered m values ≡ true
registered-has_labels m values h = rw (has_labels, lookup-registered m) (ground (arith, h))
