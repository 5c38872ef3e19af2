-- ===== src/HttpProxy/Scheduler/Tests.antt =====
-- Two tasks, and the shutdown before the second is started.
use focot_services.Prelude.{◌≡◌, refl, Bool, true, false, [], ◌∷◌, arith}
use focot_services.Prelude.Int.{pos}
use focot_services.HttpProxy.Scheduler.{
  Task, selecting, last_run, stopped, Scheduler, new_scheduler, add_task, cancel, leave, range_task,
  Steps, here, step,
}
use focot_services.HttpProxy.Scheduler.Runs.{IsFifo, Steps-IsFifo, limited_stops}

abbrev task_1 : Task
task_1 = record { job_func = 1; qos = pos 0 }

abbrev task_2 : Task
task_2 = record { job_func = 2; qos = pos 0 }

abbrev program : Unit {0}
unfolding new_scheduler
program = tt

abbrev waiting : Bool → Scheduler
waiting limited = record {
  limited = limited;
  phase = selecting;
  task_queue = task_1 ∷ task_2 ∷ [];
  cancelled = true;
  started = [];
  added = task_1 ∷ task_2 ∷ [];
}

waiting_run : (limited : Bool) → Steps (new_scheduler limited) (waiting limited)
unfolding program
waiting_run limited =
    step
      (step (step here (add_task task_1 (omega arith) refl)) (add_task task_2 (omega arith) refl))
      (cancel refl)

Steps-IsFifo_example : IsFifo (waiting true)
Steps-IsFifo_example = Steps-IsFifo true (waiting_run true)

limited_stops_example :
    (t : Scheduler) × (Steps (waiting true) t
      × (t.phase ≡ stopped)
      × (t.started ≡ task_1 ∷ task_2 ∷ []))
limited_stops_example = limited_stops (waiting true) (waiting_run true) refl refl

-- The same scheduler without a limit runs both tasks, and stays in its last loop.
abbrev ranging : Scheduler
ranging = record (waiting false) {
  phase = last_run;
  task_queue = [];
  started = task_1 ∷ task_2 ∷ [];
}

ranging_run : Steps (new_scheduler false) ranging
ranging_run =
    step
      (step (step (waiting_run false) (leave refl refl refl))
        (range_task task_1 (task_2 ∷ []) refl refl refl))
      (range_task task_2 [] refl refl refl)
