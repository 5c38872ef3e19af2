-- ===== src/Recorder/Sync/Ticks.antt =====
-- io-bilive-recorder/dataSync.go: `doSync`, from its start on. The requests of a tick end before the
-- next tick here; what an answer, its times and the domains are is given for each tick and node.
use focot_services.Prelude.{
  if◌then◌else◌, Bool-cases, Option-cases, length, All, contains, keys, lookup, contains-keys, Text,
  text_dec, ℕ, suc, ◌+◌, ◌%◌, ◌≡◌, refl, ◌∙◌, inl, inr, Bool, true, false, Option, none, some, List,
  [], ◌∷◌, arith,
}
use focot_services.Prelude.Results.{Result, ok, ◌>>=◌, Fault}
use focot_services.Recorder.Cdn.{Cdn}
use focot_services.Recorder.Sync.{TaskStatus, init_status, Answer, Stream, do_request}
use focot_services.Recorder.Sync.Counter.{IsIdle, HasRooms, do_request-IsIdle}

-- The fields of `DataSyncer` that `doSync` keeps.
pub record Syncer : Type 0 where
  pub recorders : List (Text × Text)
  pub task_status : List (Text × TaskStatus)
  pub sync_started : Bool

-- "Init task status"
unfoldable pub init_statuses : List (Text × Text) → List (Text × TaskStatus)
init_statuses [] = []
init_statuses ((server, _) ∷ rest) = (server, init_status) ∷ init_statuses rest

-- The start of `doSync`, before its loop: `none` where it returns at once.
unfoldable pub do_sync : Syncer → Option Syncer
unfolding init_statuses
do_sync s =
    if s.sync_started then none else some (record s { task_status = init_statuses s.recorders })

-- Its end, when the context is done.
pub end_sync : Syncer → Syncer
end_sync s = record s { sync_started = false }

-- What is behind a start.
abbrev started_of : Syncer → Syncer
started_of s = record s { task_status = init_statuses s.recorders }

do_sync_inv : (s s' : Syncer) → do_sync s ≡ some s' → (s.sync_started ≡ false) × (s' ≡ started_of s)
unfolding do_sync
do_sync_inv s s' h = elim (Bool-cases s.sync_started) [
  | inl running ↦ absurd (ground arith)
  | inr free ↦ (free, ground arith)
]

-- What a request meets: the domains, the answer of the node, the duration and the time.
pub record Met (Float : Type 0) : Type 0 where
  pub cdn : Cdn
  pub answer : Answer Float
  pub duration : ℕ
  pub time : ℕ

module _ (Float : Type 0) (st : Stream Float) where
  -- A node at a tick: it is asked unless a request is pending or its address is unknown.
  pub tick_node :
      List (Text × Text) → (Text → Met Float) → Text → TaskStatus → Result Fault TaskStatus
  tick_node recorders met server status =
      if status.padding then ok status else elim (lookup text_dec server recorders) [
        | none ↦ ok status
        | some url ↦ (do
          let m = met server
          (t, sent) ← do_request Float st m.cdn server m.answer m.duration m.time status
          ok t)
      ]

  -- "case <-ticker.C"
  pub tick_all :
      List (Text × Text)
      → (Text → Met Float)
      → List (Text × TaskStatus)
      → Result Fault (List (Text × TaskStatus))
  unfolding tick_node
  tick_all recorders met [] = ok []
  tick_all recorders met ((server, status) ∷ rest) = do
    t ← tick_node recorders met server status
    more ← tick_all recorders met rest
    ok ((server, t) ∷ more)

  -- The loop over the ticks.
  pub ticks : List (Text → Met Float) → Syncer → Result Fault Syncer
  unfolding tick_all
  ticks [] s = ok s
  ticks (met ∷ later) s = do
    statuses ← tick_all s.recorders met s.task_status
    ticks later (record s { task_status = statuses })

  -- What is true of each node behind `n` ticks.
  abbrev pub IsServed : ℕ → List (Text × Text) → Text × TaskStatus → Type 0
  IsServed n recorders p =
      (contains text_dec (keys recorders) p.0 ≡ true) × IsIdle p.1 × (p.1.counter ≡ n % 100)

  -- At no tick a room of an answer is null.
  abbrev pub HaveRooms : List (Text → Met Float) → Type 0
  HaveRooms = All (λ (met : Text → Met Float). (server : Text) → HasRooms Float (met server).answer)

  init_statuses-IsServed :
      (rest recorders : List (Text × Text))
      → ((k : Text)
          → contains text_dec (keys rest) k ≡ true
          → contains text_dec (keys recorders) k ≡ true)
      → All (IsServed 0 recorders) (init_statuses rest)
  unfolding init_statuses
  init_statuses-IsServed [] recorders within = tt
  init_statuses-IsServed ((server, url) ∷ rest) recorders within = (
    (within server (ground arith), (omega arith, refl, refl, refl), refl),
    init_statuses-IsServed rest recorders (λ k h. within k (ground arith)),
  )

  tick_node-IsServed :
      (n : ℕ) (recorders : List (Text × Text)) (met : Text → Met Float) (server : Text)
      (status : TaskStatus)
      → HasRooms Float (met server).answer
      → IsServed n recorders (server, status)
      → (t : TaskStatus) × (tick_node recorders met server status ≡ ok t)
        × IsServed (suc n) recorders (server, t)
  unfolding tick_node
  tick_node-IsServed n recorders met server status there (known, idle, counted) =
      elim (Option-cases (lookup text_dec server recorders)) [
        | inl missing ↦ absurd (ground (arith, contains-keys text_dec server recorders))
        | inr (url, found) ↦
            let m = met server in
            let (t, sent, went, kept, more) =
              do_request-IsIdle Float st m.cdn server m.answer m.duration m.time status idle
                there in
            (t, rw (tick_node, idle.1, found, went) refl, (known, kept, more ∙ ground arith))
      ]

  tick_all-IsServed :
      (n : ℕ) (recorders : List (Text × Text)) (met : Text → Met Float)
      (statuses : List (Text × TaskStatus))
      → ((server : Text) → HasRooms Float (met server).answer)
      → All (IsServed n recorders) statuses
      → (after : List (Text × TaskStatus)) × (tick_all recorders met statuses ≡ ok after)
        × All (IsServed (suc n) recorders) after
  unfolding tick_all
  tick_all-IsServed n recorders met [] there h = ([], refl, tt)
  tick_all-IsServed n recorders met ((server, status) ∷ rest) there h =
      let (t, went, served) = tick_node-IsServed n recorders met server status (there server) h.0 in
      let (more, followed, all) = tick_all-IsServed n recorders met rest there h.1 in
      ((server, t) ∷ more, rw (tick_all, went, followed) refl, (served, all))

  ticks-kept :
      (n : ℕ) (later : List (Text → Met Float)) (k : ℕ) (s : Syncer)
      → n + length later ≡ k
      → HaveRooms later
      → All (IsServed n s.recorders) s.task_status
      → (t : Syncer) × (ticks later s ≡ ok t) × All (IsServed k s.recorders) t.task_status
  unfolding ticks
  ticks-kept n [] k s e there h = let same : n ≡ k = omega arith in rw (← same) (s, refl, h)
  ticks-kept n (met ∷ later) k s e there h =
      let (statuses, went, served) = tick_all-IsServed n s.recorders met s.task_status there.0 h in
      let (t, followed, all) =
        ticks-kept (suc n) later k (record s { task_status = statuses }) (omega arith) there.1
          served in
      (t, rw (ticks, went) followed, all)

  -- From the start of `doSync` on, where the requests of a tick end before the next one: whatever the
  -- nodes answer, with no null among the rooms, any ticks go through without a panic; behind them each
  -- node is a configured one and free, it has counted all the ticks, modulo 100, and a span is open
  -- exactly while its count is not 0.
  pub ticks-IsServed :
      (later : List (Text → Met Float)) (s s' : Syncer)
      → HaveRooms later
      → do_sync s ≡ some s'
      → (t : Syncer) × (ticks later s' ≡ ok t)
        × All (IsServed (length later) s.recorders) t.task_status
  unfolding do_sync
  ticks-IsServed later s s' there start =
      let (free, is) = do_sync_inv s s' start in
      rw is (
        ticks-kept 0 later (length later) (started_of s) (omega arith) there
          (init_statuses-IsServed s.recorders s.recorders (λ k h. h)))

-- `doSync` does not see that a sync runs already: it starts again, and forgets the status of every
-- node.
pub do_sync-again :
    (s s' : Syncer)
    → do_sync s ≡ some s'
    → do_sync s' ≡ some (record s' { task_status = init_statuses s.recorders })
unfolding do_sync
do_sync-again s s' start = let (free, is) = do_sync_inv s s' start in ground arith
