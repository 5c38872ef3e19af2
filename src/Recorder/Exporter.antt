-- ===== src/Recorder/Exporter.antt =====
-- io-bilive-recorder/metrics.go: `updateMetrics`. A call of the Prometheus library is recorded as a
-- value; floating point and the clock are parameters.
mod Series
mod Run
mod Registry
use focot_services.Prelude.{
  ◌==◌, if◌then◌else◌, is_yes, keys, lookup, insert, delete, Text, codes, text_dec, ℕ, Bool, false,
  Option, none, some, List, [], ◌∷◌, ◌++◌, map,
}
use focot_services.Prelude.Int.{ℤ, pos, ℤ_discrete, itoa}
use focot_services.Prelude.Results.{Result, ok, err, ◌>>=◌, ◌>>◌, Fault, nil_map_write}
use focot_services.Recorder.Rooms.{Room, Metrics}

-- `mRoomInfo`, and the gauges of a room.
pub data Gauge : Type 0 where
  room_info auto_record recording streaming danmaku_connected session_duration : Gauge
  total_input_bytes current_file_size session_max_timestamp file_max_timestamp : Gauge
  network_bytes_downloaded disk_bytes_written network_mbps disk_mbps : Gauge

-- `collector`: the gauges that the room collector manages.
abbrev pub collector : List Gauge
collector =
    auto_record ∷ recording ∷ streaming ∷ danmaku_connected ∷ session_duration ∷ total_input_bytes
    ∷ current_file_size ∷ session_max_timestamp ∷ file_max_timestamp ∷ network_bytes_downloaded
    ∷ disk_bytes_written ∷ network_mbps ∷ disk_mbps ∷ []

unfoldable pub texts_dec : Discrete (List Text)
unfolding text_dec
texts_dec = hlevel text_dec

-- Maps of a node's rooms.
abbrev pub RoomMap : Type 0 → Type 0
RoomMap V = List (Text × List (ℤ × V))

module _ {V : Type 0} where
  -- `v, ok := m[node][room]`
  abbrev pub room_lookup : Text → ℤ → RoomMap V → Option V
  room_lookup node room m = elim (lookup text_dec node m) [
    | none ↦ none
    | some rooms ↦ lookup ℤ_discrete room rooms
  ]

  -- `m[node][room] = v`, which panics at a node that has no map.
  pub room_insert : Text → ℤ → V → RoomMap V → Result Fault (RoomMap V)
  room_insert node room v m = elim (lookup text_dec node m) [
    | none ↦ err nil_map_write
    | some rooms ↦ ok (insert text_dec node (insert ℤ_discrete room v rooms) m)
  ]

  -- `range m[node]`
  abbrev pub rooms_of : Text → RoomMap V → List (ℤ × V)
  rooms_of node m = elim (lookup text_dec node m) [ none ↦ [] | some rooms ↦ rooms ]

  -- `delete(m[node], room)`
  pub room_delete : Text → ℤ → RoomMap V → RoomMap V
  room_delete node room m = elim (lookup text_dec node m) [
    | none ↦ m
    | some rooms ↦ insert text_dec node (delete ℤ_discrete room rooms) m
  ]

-- `withValues`
abbrev pub room_series : Text → ℤ → List Text
room_series node room = node ∷ itoa room ∷ []

abbrev pub flag : Bool → Text
flag b = if b then codes "1" else codes "0"

module _ (Float : Type 0) (of_int : ℤ → Float) where
  pub data Call : Type 0 where
    observe : Text → ℕ → Call
    set : Gauge → List Text → Float → Call
    delete_values : Gauge → List Text → Call

  pub record Exporter : Type 0 where
    pub room_versions : RoomMap ℕ
    pub room_labels : RoomMap (List Text)
    pub calls : List Call

  -- `RoomMetricsLabel.Values`: the fields in their order.
  pub label_values : Text → Room Float → List Text
  label_values node r =
      node
      ∷ itoa r.room_id
      ∷ r.name
      ∷ r.title
      ∷ r.area_name_parent
      ∷ r.area_name_child
      ∷ r.io_stats.stream_host
      ∷ r.io_stats.host_lookup
      ∷ flag r.recording
      ∷ flag r.streaming
      ∷ flag r.danmaku_connected
      ∷ []

  abbrev pub of_bool : Bool → Float
  of_bool b = of_int (if b then pos 1 else pos 0)

  -- What the gauges of a room are set to.
  pub gauge_value : Gauge → Room Float → Float
  gauge_value room_info r = of_int (pos 1)
  gauge_value auto_record r = of_bool r.auto_record
  gauge_value recording r = of_bool r.recording
  gauge_value streaming r = of_bool r.streaming
  gauge_value danmaku_connected r = of_bool r.danmaku_connected
  gauge_value session_duration r = r.stats.session_duration
  gauge_value total_input_bytes r = of_int r.stats.total_input_bytes
  gauge_value current_file_size r = of_int r.stats.current_file_size
  gauge_value session_max_timestamp r = of_int r.stats.session_max_timestamp
  gauge_value file_max_timestamp r = of_int r.stats.file_max_timestamp
  gauge_value network_bytes_downloaded r = of_int r.io_stats.network_bytes_downloaded
  gauge_value disk_bytes_written r = of_int r.io_stats.disk_bytes_written
  gauge_value network_mbps r = r.io_stats.network_mbps
  gauge_value disk_mbps r = elim r.io_stats.disk_mbps [ none ↦ of_int (pos 0) | some v ↦ v ]

  -- The calls for the room info, where its labels are new or have changed.
  pub info_calls : List Text → Option (List Text) → List Call
  info_calls values none = set room_info values (of_int (pos 1)) ∷ []
  info_calls values (some old) =
      delete_values room_info old ∷ set room_info values (of_int (pos 1)) ∷ []

  -- Whether the labels are those of before: `slice.Equal`.
  abbrev pub same_labels : List Text → Option (List Text) → Bool
  same_labels values none = false
  same_labels values (some old) = is_yes (texts_dec values old)

  pub update_info : Text → Room Float → Exporter → Result Fault Exporter
  unfolding room_insert info_calls
  update_info node r e =
      let values = label_values node r in
      let old = room_lookup node r.room_id e.room_labels in
      if same_labels values old then ok e else (do
        labels ← room_insert node r.room_id values e.room_labels
        ok (record e { room_labels = labels; calls = e.calls ++ info_calls values old }))

  -- One room of an update.
  pub update_room : Text → ℕ → Room Float → Exporter → Result Fault Exporter
  unfolding update_info
  update_room node now r e = do
    e' ← update_info node r e
    versions ← room_insert node r.room_id now e'.room_versions
    let gauges = map (λ g. set g (room_series node r.room_id) (gauge_value g r)) collector
    ok (record e' { room_versions = versions; calls = e'.calls ++ gauges })

  pub update_rooms : Text → ℕ → List (Room Float) → Exporter → Result Fault Exporter
  update_rooms node now [] e = ok e
  update_rooms node now (r ∷ rooms) e = do
    e' ← update_room node now r e
    update_rooms node now rooms e'

  abbrev pub values_of : List (ℤ × List Text) → List Call
  values_of [] = []
  values_of ((_, old) ∷ labels) = delete_values room_info old ∷ values_of labels

  -- "clean room info", for a node with no rooms. The labels stay in the map.
  pub clean_info : Text → List (Room Float) → Exporter → Exporter
  clean_info node [] e = record e { calls = e.calls ++ values_of (rooms_of node e.room_labels) }
  clean_info node (r ∷ rooms) e = e

  -- "clean room metrics": the rooms whose version is not that of this update.
  pub clean_rooms : Text → ℕ → List ℤ → Exporter → Exporter
  unfolding room_delete
  clean_rooms node now [] e = e
  clean_rooms node now (room ∷ rooms) e =
      let rest = λ (f : Exporter). clean_rooms node now rooms f in
      elim (room_lookup node room e.room_versions) [
        | none ↦ rest e
        | some v ↦
            if v == now
            then rest e
            else rest (record e {
              room_versions = room_delete node room e.room_versions;
              calls = e.calls ++ map (λ g. delete_values g (room_series node room)) collector;
            })
      ]

  -- One message of `UpdateChan`.
  pub update_metrics : ℕ → Metrics Float → Exporter → Result Fault Exporter
  unfolding update_rooms clean_info clean_rooms
  update_metrics now m e = do
    let observed = record e { calls = e.calls ++ observe m.node_name m.request_duration ∷ [] }
    e' ← update_rooms m.node_name now m.rooms observed
    let cleaned = clean_info m.node_name m.rooms e'
    ok (clean_rooms m.node_name now (keys (rooms_of m.node_name cleaned.room_versions)) cleaned)
