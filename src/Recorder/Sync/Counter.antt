-- ===== src/Recorder/Sync/Counter.antt =====
-- io-bilive-recorder/dataSync.go: what is true of the status of a node between two requests.
use focot_services.Prelude.{
  ltb, leb, Bool-cases, All, Text, ℕ, ◌+◌, ◌%◌, ◌<◌, ◌≡◌, refl, ◌≢◌, inl, inr, true, false, Option,
  none, some, List, [], ◌∷◌, arith,
}
use focot_services.Prelude.Results.{ok}
use focot_services.Recorder.Rooms.{Room}
use focot_services.Recorder.Sync.{
  TaskStatus, finish, begin, Answer, no_answer, unreadable, rooms_read, Sent, Stream, read_rooms,
  with_hosts, set_states, Reported, publish_room, report_room, report_rooms, started, on_rooms,
  do_request,
}
use focot_services.Recorder.Cdn.{Cdn}

-- Between two requests: the node is free, fewer than 100 requests are counted, and there is a span
-- and its context exactly while some are.
abbrev pub IsIdle : TaskStatus → Type 0
IsIdle s =
    (s.counter < 100) × (s.padding ≡ false) × (s.tracer ≡ ltb 0 s.counter) × (s.task_ctx ≡ s.tracer)

-- While a request runs.
abbrev pub IsBusy : ℕ → TaskStatus → Type 0
IsBusy n s = (s.counter ≡ n) × (s.tracer ≡ true) × (s.task_ctx ≡ true)

finish-IsIdle :
    (n : ℕ) (s : TaskStatus)
    → n < 100
    → IsBusy n s
    → IsIdle (finish s) × ((finish s).counter ≡ (n + 1) % 100)
unfolding finish
finish-IsIdle n s small busy = elim (Bool-cases (leb 100 (s.counter + 1))) [
  | inl full ↦ rw (finish, full) ((ground arith, refl, refl, refl), ground arith)
  | inr more ↦ rw (finish, more) ((ground arith, refl, ground arith, ground arith), ground arith)
]

begin-IsBusy : (s : TaskStatus) → IsIdle s → IsBusy s.counter (begin s)
unfolding begin
begin-IsBusy s idle = ground arith

module _ (Float : Type 0) where
  pub report_room-status :
      (st : Stream Float) (server : Text) (time : ℕ) (r : Room Float) (p : Reported Float)
      → (report_room Float st server time r p).status ≡ set_states Float r p.status
  unfolding report_room publish_room
  report_room-status st server time r p = ground arith

  report_rooms-IsBusy :
      (st : Stream Float) (server : Text) (time n : ℕ) (rooms : List (Room Float))
      (p : Reported Float)
      → IsBusy n p.status
      → IsBusy n (report_rooms Float st server time rooms p).status
  unfolding report_rooms report_room publish_room set_states
  report_rooms-IsBusy st server time n [] p busy = busy
  report_rooms-IsBusy st server time n (r ∷ rooms) p busy =
      report_rooms-IsBusy st server time n rooms (report_room Float st server time r p)
        (rw (report_room-status st server time r p) busy)

  -- No room of an answer is null.
  abbrev pub HasRooms : Answer Float → Type 0
  HasRooms (rooms_read read) = All (λ r. r ≢ none) read
  HasRooms other = Unit

  read_rooms-ok :
      (read : List (Option (Room Float)))
      → All (λ r. r ≢ none) read
      → (rooms : List (Room Float)) × (read_rooms Float read ≡ ok rooms)
  unfolding read_rooms
  read_rooms-ok [] h = ([], refl)
  read_rooms-ok (none ∷ read) h = absurd (h.0 refl)
  read_rooms-ok (some r ∷ read) h =
      let (rooms, e) = read_rooms-ok read h.1 in (r ∷ rooms, rw e refl)

  -- Between two requests a node is free, fewer than 100 requests are counted, and a span is open
  -- exactly while some are: a request keeps this whatever its answer, unless a room in it is null,
  -- and counts one more, from 99 back to 0.
  pub do_request-IsIdle :
      (st : Stream Float) (cdn : Cdn) (server : Text) (answer : Answer Float) (duration time : ℕ)
      (s : TaskStatus)
      → IsIdle s
      → HasRooms answer
      → (t : TaskStatus) × (sent : List (Sent Float)) × (do_request Float st cdn server answer
            duration time s
          ≡ ok (t, sent))
        × IsIdle t
        × (t.counter ≡ (s.counter + 1) % 100)
  unfolding do_request on_rooms
  do_request-IsIdle st cdn server no_answer duration time s idle h =
      let more =
        finish-IsIdle s.counter (record (begin s) { conn_warn = true }) idle.0
          (begin-IsBusy s idle) in
      (_, _, refl, more.0, more.1)
  do_request-IsIdle st cdn server unreadable duration time s idle h =
      let more = finish-IsIdle s.counter (begin s) idle.0 (begin-IsBusy s idle) in
      (_, _, refl, more.0, more.1)
  do_request-IsIdle st cdn server (rooms_read read) duration time s idle h =
      let (there, e) = read_rooms-ok read h in
      let rooms = with_hosts Float cdn there in
      let p = started Float server duration rooms s in
      let more =
        finish-IsIdle s.counter (report_rooms Float st server time rooms p).status idle.0
          (report_rooms-IsBusy st server time s.counter rooms p (begin-IsBusy s idle)) in
      let (t, sent) = on_rooms Float st cdn server there duration time s in
      (t, sent, rw (do_request, e) refl, more.0, more.1)
