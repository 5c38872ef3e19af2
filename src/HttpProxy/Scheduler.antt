-- ===== src/HttpProxy/Scheduler.antt =====
-- client-http-proxy/task.go: the task scheduler as a step relation between its goroutine, those that
-- add tasks, and the shutdown. A `JobFunc` is a number that names it.
mod Runs
mod Tests
use focot_services.Prelude.{
  if◌then◌else◌, length, ℕ, ◌<◌, ◌≡◌, Bool, true, false, List, [], ◌∷◌, ◌++◌,
}
use focot_services.Prelude.Int.{ℤ}

pub record Task : Type 0 where
  pub job_func : ℕ
  pub qos : ℤ

-- Where `scheduler` stands: at its `select`, at the tick behind a task taken, at `LastRunTick` and
-- at its tick, at `LastRun`, and behind `Stop`.
pub data Phase : Type 0 where
  selecting : Phase
  ticking : Task → Phase
  last_run_tick : Phase
  last_ticking : Task → Phase
  last_run stopped : Phase

-- `limited` says that there is a ticker. `started` has the tasks whose function was called, as a
-- goroutine or not, and `added` those that `AddTask` has sent.
pub record Scheduler : Type 0 where
  pub limited : Bool
  pub phase : Phase
  pub task_queue : List Task
  pub cancelled : Bool
  pub started : List Task
  pub added : List Task

-- `Start`
pub new_scheduler : Bool → Scheduler
new_scheduler limited = record {
  limited = limited;
  phase = selecting;
  task_queue = [];
  cancelled = false;
  started = [];
  added = [];
}

abbrev pub queue_size : ℕ
queue_size = 8192

pub data Step (s t : Scheduler) : Type 0 where
  add_task :
      (x : Task)
      → length s.task_queue < queue_size
      → t ≡ record s { task_queue = s.task_queue ++ x ∷ []; added = s.added ++ x ∷ [] }
      → Step s t
  cancel : t ≡ record s { cancelled = true } → Step s t
  take_limited :
      (x : Task) (xs : List Task)
      → s.limited ≡ true
      → s.phase ≡ selecting
      → s.task_queue ≡ x ∷ xs
      → t ≡ record s { phase = ticking x; task_queue = xs }
      → Step s t
  tick :
      (x : Task)
      → s.phase ≡ ticking x
      → t ≡ record s { phase = selecting; started = s.started ++ x ∷ [] }
      → Step s t
  take_unlimited :
      (x : Task) (xs : List Task)
      → s.limited ≡ false
      → s.phase ≡ selecting
      → s.task_queue ≡ x ∷ xs
      → t ≡ record s { task_queue = xs; started = s.started ++ x ∷ [] }
      → Step s t
  leave :
      s.phase ≡ selecting
      → s.cancelled ≡ true
      → t ≡ record s { phase = if s.limited then last_run_tick else last_run }
      → Step s t
  -- `getTaskNow`
  get_task :
      (x : Task) (xs : List Task)
      → s.phase ≡ last_run_tick
      → s.task_queue ≡ x ∷ xs
      → t ≡ record s { phase = last_ticking x; task_queue = xs }
      → Step s t
  get_none :
      s.phase ≡ last_run_tick → s.task_queue ≡ [] → t ≡ record s { phase = stopped } → Step s t
  last_tick :
      (x : Task)
      → s.phase ≡ last_ticking x
      → t ≡ record s { phase = last_run_tick; started = s.started ++ x ∷ [] }
      → Step s t
  -- The channel is never closed, so the loop over it has no other step.
  range_task :
      (x : Task) (xs : List Task)
      → s.phase ≡ last_run
      → s.task_queue ≡ x ∷ xs
      → t ≡ record s { task_queue = xs; started = s.started ++ x ∷ [] }
      → Step s t

-- The states behind any number of steps.
pub data Steps (s : Scheduler) : Scheduler → Type 0 where
  here : Steps s s
  step : {t u : Scheduler} → Steps s t → Step t u → Steps s u
