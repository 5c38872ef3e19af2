-- ===== src/Recorder/Examples.antt =====
-- A room whose numbers are counts, for the tests of the recorder.
use focot_services.Prelude.{ℕ, true, none, []}
use focot_services.Prelude.Int.{ℤ, pos}
use focot_services.Recorder.Rooms.{Stats, IoStats, Room}

abbrev pub no_stats : Stats ℕ
no_stats = record {
  session_duration = 0;
  total_input_bytes = pos 7;
  total_output_bytes = pos 0;
  current_file_size = pos 0;
  session_max_timestamp = pos 0;
  file_max_timestamp = pos 0;
  added_duration = 0;
  passed_time = 0;
  duration_ratio = none;
  input_video_bytes = pos 0;
  input_audio_bytes = pos 0;
  output_video_frames = pos 0;
  output_audio_frames = pos 0;
  output_video_bytes = pos 0;
  output_audio_bytes = pos 0;
  total_input_video_bytes = pos 0;
  total_input_audio_bytes = pos 0;
  total_output_video_frames = pos 0;
  total_output_audio_frames = pos 0;
  total_output_video_bytes = pos 0;
  total_output_audio_bytes = pos 0;
}

abbrev pub no_io : IoStats ℕ
no_io = record {
  stream_host = [];
  host_lookup = [];
  start_time = [];
  end_time = [];
  duration = 0;
  network_bytes_downloaded = pos 0;
  network_mbps = 0;
  disk_write_duration = 0;
  disk_bytes_written = pos 0;
  disk_mbps = none;
}

abbrev pub room_at : ℤ → Room ℕ
room_at id = record {
  record_time = none;
  object_id = [];
  room_id = id;
  auto_record = true;
  short_id = pos 0;
  name = [];
  title = [];
  area_name_parent = [];
  area_name_child = [];
  recording = true;
  streaming = true;
  danmaku_connected = true;
  auto_record_for_this_session = true;
  stats = no_stats;
  io_stats = no_io;
}
