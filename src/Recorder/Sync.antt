-- ===== src/Recorder/Sync.antt =====
-- io-bilive-recorder/dataSync.go: the sync of the recording nodes. A session, a span and a context
-- are whether the field is not nil, and traces and logs are left out. The clock, JSON and what the
-- stream accepts are parameters.
pub mod Counter
pub mod Messages
mod Ticks
mod Tests
use focot_services.Prelude.{
  leb, if◌then◌else◌, lookup, insert, Text, codes, text_dec, ℕ, ◌+◌, Bool, true, false, not, Option,
  none, some, List, [], ◌∷◌, ◌++◌,
}
use focot_services.Prelude.Int.{ℤ, ℤ_discrete, itoa}
use focot_services.Prelude.Results.{Result, ok, err, ◌>>=◌, ◌>>◌, Fault, nil_dereference}
use focot_services.Recorder.Rooms.{Room, Metrics}
use focot_services.Recorder.Cdn.{isp_name, DomainInfo, Cdn, bcdn_lookup_batch}

-- `taskStatus`
pub record TaskStatus : Type 0 where
  pub padding : Bool
  pub client : Bool
  pub streaming_state : List (ℤ × Bool)
  pub recording_state : List (ℤ × Bool)
  pub conn_warn : Bool
  pub counter : ℕ
  pub tracer : Bool
  pub task_ctx : Bool

-- The status of each node that `doSync` starts with.
abbrev pub init_status : TaskStatus
init_status = record {
  padding = false;
  client = false;
  streaming_state = [];
  recording_state = [];
  conn_warn = false;
  counter = 0;
  tracer = false;
  task_ctx = false;
}

-- The rest of `dataSync.go` asks `BCdnLookupBatch` for the name of the ISP.
pub isp_of : DomainInfo → Text
isp_of info = elim (lookup text_dec info.region_info.isp isp_name) [
  | none ↦ info.region_info.isp
  | some name ↦ name
]

-- `streamingState[room] = state`, where it is not that already.
pub set_state : ℤ → Bool → List (ℤ × Bool) → List (ℤ × Bool)
set_state room state states = elim (lookup ℤ_discrete room states) [
  | none ↦ insert ℤ_discrete room state states
  | some old ↦ if same old state then states else insert ℤ_discrete room state states
]
  where
    same : Bool → Bool → Bool
    same true b = b
    same false b = not b

-- A tick of `doSync`: the nodes to ask, with their addresses.
pub on_tick : List (Text × Text) → List (Text × TaskStatus) → List (Text × Text)
on_tick recorders [] = []
on_tick recorders ((server, status) ∷ rest) =
    let more = on_tick recorders rest in
    if status.padding
    then more
    else elim (lookup text_dec server recorders) [ none ↦ more | some url ↦ (server, url) ∷ more ]

-- The deferred function of `doRequest`.
pub finish : TaskStatus → TaskStatus
finish s =
    let counter = s.counter + 1 in
    if leb 100 counter
    then record s { counter = 0; tracer = false; task_ctx = false; padding = false }
    else record s { counter = counter; padding = false }

-- Its start, with a new span and a new session where there is none.
pub begin : TaskStatus → TaskStatus
begin s = record s {
  padding = true;
  client = true;
  tracer = true;
  task_ctx = if s.tracer then s.task_ctx else true;
}

module _ (Float : Type 0) where
  -- The answer of a node to the request for its rooms, where a room may be null.
  pub data Answer : Type 0 where
    no_answer unreadable : Answer
    rooms_read : List (Option (Room Float)) → Answer

  -- What is sent: to the exporter's channel, or to the stream.
  pub data Sent : Type 0 where
    update_sent : Metrics Float → Sent
    published : Text → List ℕ → Sent

  -- JSON, and whether the stream accepts a message.
  pub record Stream : Type 0 where
    pub stream_name : Text
    pub marshal_room : Room Float → Option (List ℕ)
    pub marshal_ids : List ℤ → List ℕ
    pub accepts : Text → List ℕ → Bool

  -- The loop that builds `lookupList` reads a field of each room, and panics at one that is null:
  -- behind it all the rooms are there.
  pub read_rooms : List (Option (Room Float)) → Result Fault (List (Room Float))
  read_rooms [] = ok []
  read_rooms (none ∷ rooms) = err nil_dereference
  read_rooms (some r ∷ rooms) = do rest ← read_rooms rooms; ok (r ∷ rest)

  abbrev pub stream_hosts : List (Room Float) → List Text
  stream_hosts [] = []
  stream_hosts (r ∷ rooms) = r.io_stats.stream_host ∷ stream_hosts rooms

  -- A room with the name of its host, if its domain is known.
  pub name_host : Option DomainInfo → Room Float → Room Float
  unfolding isp_of
  name_host none r = r
  name_host (some info) r = record r {
    io_stats = record r.io_stats {
      host_lookup = info.region_info.region_name ++ b'-' ∷ isp_of info;
    };
  }

  abbrev pub name_hosts : List (Option DomainInfo) → List (Room Float) → List (Room Float)
  name_hosts (info ∷ infos) (r ∷ rooms) = name_host info r ∷ name_hosts infos rooms
  name_hosts [] rooms = rooms
  name_hosts (info ∷ infos) [] = []

  -- The lookups of the stream's hosts.
  pub with_hosts : Cdn → List (Room Float) → List (Room Float)
  unfolding name_host
  with_hosts cdn rooms = name_hosts (bcdn_lookup_batch cdn (stream_hosts rooms)) rooms

  -- The states of a room.
  pub set_states : Room Float → TaskStatus → TaskStatus
  unfolding set_state
  set_states r s = record s {
    streaming_state = set_state r.room_id r.streaming s.streaming_state;
    recording_state = set_state r.room_id r.recording s.recording_state;
  }

  -- What the loop over the rooms builds up.
  pub record Reported : Type 0 where
    pub status : TaskStatus
    pub room_id_list : List ℤ
    pub updated : ℕ
    pub update_error : ℕ
    pub sent : List Sent

  abbrev pub history_subject : Text → Text → ℤ → Text
  history_subject stream server room = stream ++ codes ".history." ++ server ++ b'.' ∷ itoa room

  -- A room that is recording, once its number is noted.
  pub publish_room : Stream → Text → Room Float → Reported → Reported
  publish_room st server r p = elim (st.marshal_room r) [
    | none ↦ record p { update_error = p.update_error + 1 }
    | some bytes ↦
        let subject = history_subject st.stream_name server r.room_id in
        let sent = p.sent ++ published subject bytes ∷ [] in
        if st.accepts subject bytes
        then record p { sent = sent; updated = p.updated + 1 }
        else record p { sent = sent; update_error = p.update_error + 1 }
  ]

  -- One room of the loop.
  pub report_room : Stream → Text → ℕ → Room Float → Reported → Reported
  unfolding set_states publish_room
  report_room st server time r p =
      let q = record p { status = set_states r p.status } in
      if r.recording
      then publish_room st server (record r { record_time = some time })
          (record q { room_id_list = q.room_id_list ++ r.room_id ∷ [] })
      else q

  pub report_rooms : Stream → Text → ℕ → List (Room Float) → Reported → Reported
  report_rooms st server time [] p = p
  report_rooms st server time (r ∷ rooms) p =
      report_rooms st server time rooms (report_room st server time r p)

  abbrev pub update_of : Text → ℕ → List (Room Float) → Metrics Float
  update_of server duration rooms = record {
    node_name = server;
    request_duration = duration;
    rooms = rooms;
  }

  -- Where the loop over the rooms starts: the connection is there again.
  abbrev pub started : Text → ℕ → List (Room Float) → TaskStatus → Reported
  started server duration rooms s = record {
    status = record (begin s) { conn_warn = false };
    room_id_list = [];
    updated = 0;
    update_error = 0;
    sent = update_sent (update_of server duration rooms) ∷ [];
  }

  -- What follows the loop of the lookups.
  pub on_rooms :
      Stream → Cdn → Text → List (Room Float) → ℕ → ℕ → TaskStatus → TaskStatus × List Sent
  unfolding finish with_hosts report_rooms
  on_rooms st cdn server read duration time s =
      let rooms = with_hosts cdn read in
      let p = report_rooms st server time rooms (started server duration rooms s) in
      let subject = st.stream_name ++ codes ".rooms." ++ server in
      (finish p.status, p.sent ++ published subject (st.marshal_ids p.room_id_list) ∷ [])

  -- `doRequest`, whose panic ends the process.
  pub do_request :
      Stream → Cdn → Text → Answer → ℕ → ℕ → TaskStatus → Result Fault (TaskStatus × List Sent)
  unfolding begin finish read_rooms on_rooms
  do_request st cdn server no_answer duration time s = ok (
    finish (record (begin s) { conn_warn = true }),
    update_sent (update_of server duration []) ∷ [],
  )
  do_request st cdn server unreadable duration time s =
      ok (finish (begin s), update_sent (update_of server duration []) ∷ [])
  do_request st cdn server (rooms_read read) duration time s = do
    rooms ← read_rooms read
    ok (on_rooms st cdn server rooms duration time s)
