-- ===== src/Recorder/Sync/Tests.antt =====
-- A request whose answer has one room, on the hundredth count.
use focot_services.Prelude.{All, Text, codes, ℕ, ◌≡◌, refl, true, false, none, some, List, [], ◌∷◌}
use focot_services.Prelude.Int.{pos}
use focot_services.Prelude.Results.{ok, err, nil_dereference}
use focot_services.Recorder.Examples.{room_at}
use focot_services.Recorder.Cdn.{Cdn}
use focot_services.Recorder.Sync.Ticks.{
  Syncer, init_statuses, do_sync, Met, ticks, IsServed, ticks-IsServed,
}
use focot_services.Recorder.Sync.{
  TaskStatus, init_status, Answer, no_answer, rooms_read, Stream, read_rooms, do_request,
}

abbrev counted : TaskStatus
counted = record init_status { counter = 99; tracer = true; task_ctx = true; client = true }

abbrev stream : Stream ℕ
stream = record {
  stream_name = codes "blive";
  marshal_room = λ r. some (1 ∷ []);
  marshal_ids = λ ids. 2 ∷ [];
  accepts = λ subject bytes. true;
}

abbrev unknown : Cdn
unknown = record { bcdn = none; bcdn_regions = none }

abbrev rooms : Answer ℕ
rooms = rooms_read (some (room_at (pos 5)) ∷ [])

-- Two nodes, one of which does not answer the second request.
abbrev nodes : List (Text × Text)
nodes = (codes "n", codes "http://n") ∷ (codes "m", codes "http://m") ∷ []

abbrev idle_syncer : Syncer
idle_syncer = record { recorders = nodes; task_status = []; sync_started = false }

abbrev first_started : Syncer
first_started = record idle_syncer {
  task_status = (codes "n", init_status) ∷ (codes "m", init_status) ∷ [];
}

abbrev answered : Text → Met ℕ
answered server = record { cdn = unknown; answer = rooms; duration = 1; time = 2 }

abbrev silent : Text → Met ℕ
silent server = record { cdn = unknown; answer = no_answer; duration = 1; time = 3 }

ticks-IsServed_example :
    (t : Syncer) × (ticks ℕ stream (answered ∷ silent ∷ []) first_started ≡ ok t)
    × All (IsServed ℕ stream 2 nodes) t.task_status
ticks-IsServed_example =
    ticks-IsServed ℕ stream (answered ∷ silent ∷ []) idle_syncer first_started
      ((λ server. ((λ e. cc), tt)), ((λ server. tt), tt)) (unfold do_sync init_statuses in refl)

-- A null among the rooms.
null_room :
    do_request ℕ stream unknown (codes "n") (rooms_read (none ∷ [])) 1 2 counted
    ≡ err nil_dereference
unfolding do_request read_rooms
null_room = refl
