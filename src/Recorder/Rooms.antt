-- ===== src/Recorder/Rooms.antt =====
-- io-bilive-recorder/model.go: the rooms that a recording node reports. Numbers in floating point,
-- and times in text, are parameters: a value of type `any` is its number, if it holds one.
use focot_services.Prelude.{Text, ℕ, Bool, Option, List}
use focot_services.Prelude.Int.{ℤ}

module _ (Float : Type 0) where
  -- `BiliveRecorderStats`
  pub record Stats : Type 0 where
    pub session_duration : Float
    pub total_input_bytes : ℤ
    pub total_output_bytes : ℤ
    pub current_file_size : ℤ
    pub session_max_timestamp : ℤ
    pub file_max_timestamp : ℤ
    pub added_duration : Float
    pub passed_time : Float
    pub duration_ratio : Option Float
    pub input_video_bytes : ℤ
    pub input_audio_bytes : ℤ
    pub output_video_frames : ℤ
    pub output_audio_frames : ℤ
    pub output_video_bytes : ℤ
    pub output_audio_bytes : ℤ
    pub total_input_video_bytes : ℤ
    pub total_input_audio_bytes : ℤ
    pub total_output_video_frames : ℤ
    pub total_output_audio_frames : ℤ
    pub total_output_video_bytes : ℤ
    pub total_output_audio_bytes : ℤ

  -- `BiliveRecorderIOStats`
  pub record IoStats : Type 0 where
    pub stream_host : Text
    pub host_lookup : Text
    pub start_time : Text
    pub end_time : Text
    pub duration : Float
    pub network_bytes_downloaded : ℤ
    pub network_mbps : Float
    pub disk_write_duration : Float
    pub disk_bytes_written : ℤ
    pub disk_mbps : Option Float

  -- `BiliveRecorderRecord`; the time of the record is not set but for a history.
  pub record Room : Type 0 where
    pub record_time : Option ℕ
    pub object_id : Text
    pub room_id : ℤ
    pub auto_record : Bool
    pub short_id : ℤ
    pub name : Text
    pub title : Text
    pub area_name_parent : Text
    pub area_name_child : Text
    pub recording : Bool
    pub streaming : Bool
    pub danmaku_connected : Bool
    pub auto_record_for_this_session : Bool
    pub stats : Stats
    pub io_stats : IoStats

  -- `BiliveRecorderMetrics`; the rooms are nil where a sync failed.
  pub record Metrics : Type 0 where
    pub node_name : Text
    pub request_duration : ℕ
    pub rooms : List Room
