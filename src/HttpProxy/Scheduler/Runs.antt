-- ===== src/HttpProxy/Scheduler/Runs.antt =====
-- What holds behind every run of the scheduler, and its shutdown.
use focot_services.Prelude.{
  ◌≡◌, refl, sym, ◌∙◌, ◌≢◌, Bool, true, false, List, [], ◌∷◌, ◌++◌, append_assoc, append-nil, arith,
}
use focot_services.HttpProxy.Scheduler.{
  Task, Phase, selecting, ticking, last_run_tick, last_ticking, last_run, stopped, Scheduler,
  new_scheduler, Step, add_task, cancel, take_limited, tick, take_unlimited, leave, get_task,
  get_none, last_tick, range_task, Steps, here, step,
}

-- The task that the scheduler has taken and not yet started.
abbrev pub held : Phase → List Task
held selecting = []
held (ticking x) = x ∷ []
held last_run_tick = []
held (last_ticking x) = x ∷ []
held last_run = []
held stopped = []

abbrev is_drained : Bool → Phase → Bool
is_drained limited stopped = limited
is_drained limited last_run_tick = limited
is_drained limited (last_ticking _) = limited
is_drained limited p = true

-- Tasks are started in the order in which they came, each once; none is lost. Only a scheduler with
-- a ticker comes to an end.
pub record IsFifo (s : Scheduler) : Type 0 where
  pub in_order : s.started ++ (held s.phase ++ s.task_queue) ≡ s.added
  pub ended : is_drained s.limited s.phase ≡ true

Step-IsFifo : {s t : Scheduler} → IsFifo s → Step s t → IsFifo t
Step-IsFifo {s} {t} w (add_task x room e) = record {
  in_order = grind (arith, append_assoc);
  ended = ground arith;
}
Step-IsFifo {s} {t} w (cancel e) = record { in_order = ground arith; ended = ground arith }
Step-IsFifo {s} {t} w (take_limited x xs l p q e) = record {
  in_order = grind (arith, append_assoc);
  ended = ground arith;
}
Step-IsFifo {s} {t} w (tick x p e) = record {
  in_order = grind (arith, append_assoc);
  ended = ground arith;
}
Step-IsFifo {s} {t} w (take_unlimited x xs l p q e) = record {
  in_order = grind (arith, append_assoc);
  ended = ground arith;
}
Step-IsFifo {s} {t} w (leave p c e) = record { in_order = ground arith; ended = ground arith }
Step-IsFifo {s} {t} w (get_task x xs p q e) = record {
  in_order = grind (arith, append_assoc);
  ended = ground arith;
}
Step-IsFifo {s} {t} w (get_none p q e) = record { in_order = ground arith; ended = ground arith }
Step-IsFifo {s} {t} w (last_tick x p e) = record {
  in_order = grind (arith, append_assoc);
  ended = ground arith;
}
Step-IsFifo {s} {t} w (range_task x xs p q e) = record {
  in_order = grind (arith, append_assoc);
  ended = ground arith;
}

new_scheduler-IsFifo : (limited : Bool) → IsFifo (new_scheduler limited)
unfolding new_scheduler
new_scheduler-IsFifo limited = record { in_order = refl; ended = refl }

-- Whatever tasks are added, and whenever the shutdown comes, the tasks that were started, the one
-- that waits for its tick and those in the queue are together those that were added, in their order.
pub Steps-IsFifo : (limited : Bool) {s : Scheduler} → Steps (new_scheduler limited) s → IsFifo s
Steps-IsFifo limited here = new_scheduler-IsFifo limited
Steps-IsFifo limited (step run st) = Step-IsFifo (Steps-IsFifo limited run) st

Step-limited : {s t : Scheduler} → Step s t → t.limited ≡ s.limited
Step-limited (add_task x room e) = ground arith
Step-limited (cancel e) = ground arith
Step-limited (take_limited x xs l p q e) = ground arith
Step-limited (tick x p e) = ground arith
Step-limited (take_unlimited x xs l p q e) = ground arith
Step-limited (leave p c e) = ground arith
Step-limited (get_task x xs p q e) = ground arith
Step-limited (get_none p q e) = ground arith
Step-limited (last_tick x p e) = ground arith
Step-limited (range_task x xs p q e) = ground arith

Steps-limited :
    (limited : Bool) {s : Scheduler} → Steps (new_scheduler limited) s → s.limited ≡ limited
unfolding new_scheduler
Steps-limited limited here = refl
Steps-limited limited (step run st) = Step-limited st ∙ Steps-limited limited run

-- A scheduler without a rate limit never stops, whatever happens: `LastRun` ranges over a channel
-- that is never closed.
pub unlimited_never_stops : {s : Scheduler} → Steps (new_scheduler false) s → s.phase ≢ stopped
unlimited_never_stops {s} run p =
    let w = (Steps-IsFifo false run).ended in let l = Steps-limited false run in ground arith

Steps-trans : {s t u : Scheduler} → Steps s t → Steps t u → Steps s u
Steps-trans first here = first
Steps-trans first (step run st) = step (Steps-trans first run) st

-- `LastRunTick` runs what is in the queue.
drains :
    (xs : List Task) (s : Scheduler)
    → s.phase ≡ last_run_tick
    → s.task_queue ≡ xs
    → (t : Scheduler) × (Steps s t
        × (t.phase ≡ stopped)
        × (t.started ≡ s.started ++ xs)
        × (t.added ≡ s.added))
drains [] s p q = (
  record s { phase = stopped },
  (step here (get_none p q refl), refl, sym (append-nil s.started), refl),
)
drains (x ∷ xs) s p q =
    let taken = record s { phase = last_ticking x; task_queue = xs } in
    let ticked = record taken { phase = last_run_tick; started = s.started ++ x ∷ [] } in
    let (t, facts) = drains xs ticked refl refl in
    let (run, ended, all, same) = facts in
    (
      t,
      (
        Steps-trans (step (step here (get_task x xs p q refl)) (last_tick x refl refl)) run,
        ended,
        all ∙ append_assoc s.started (x ∷ []) xs,
        same,
      ),
    )

-- A scheduler with a rate limit that is cancelled at its `select` can run to its stop, and has then
-- started every task that was added, in the order in which they came.
pub limited_stops :
    (s : Scheduler)
    → Steps (new_scheduler true) s
    → s.phase ≡ selecting
    → s.cancelled ≡ true
    → (t : Scheduler) × (Steps s t × (t.phase ≡ stopped) × (t.started ≡ s.added))
limited_stops s run p c =
    let l = Steps-limited true run in
    let left = record s { phase = last_run_tick } in
    let (t, facts) = drains s.task_queue left refl refl in
    let (more, ended, all, same) = facts in
    let fifo = (Steps-IsFifo true run).in_order in
    (t, (Steps-trans (step here (leave p c (ground arith))) more, ended, all ∙ ground arith))
