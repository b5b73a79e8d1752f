-- ===== src/Scheduler/Accounting/Examples.antt =====
-- The theorem on the counters at a concrete run.
use task_sched_x.Prelude.{◌≡◌, refl, some, arith, ◌%◌}
use task_sched_x.Task.{Status, completed, failed, cancelled, other_exception, size_mod}
use task_sched_x.Scheduler.State.{Scheduler, new_scheduler}
use task_sched_x.Scheduler.Client.{schedule_task, cancel_task, set_task_completion_callback}
use task_sched_x.Scheduler.Examples.{fresh, slow, first_id}
use task_sched_x.Scheduler.System.{Steps, schedule, cancel, here, next}
use task_sched_x.Scheduler.Accounting.{Counted, counter, announced}
use task_sched_x.Scheduler.Accounting.Runs.{Steps-Counted}

-- A callback that always throws.
abbrev heard : Scheduler
heard = set_task_completion_callback (some (λ n id status. some other_exception)) fresh

heard-Counted : Counted heard
unfolding set_task_completion_callback new_scheduler
heard-Counted = record { counts = λ status final. by_status status; heard = λ e. cc }
  where
    by_status :
        (status : Status) → counter status heard.stats ≡ announced status heard.notified % size_mod
    by_status completed = refl
    by_status failed = refl
    by_status cancelled = refl
    by_status Status.timeout = refl
    by_status Status.pending = refl
    by_status Status.running = refl

-- A task is scheduled and cancelled.
abbrev cancelled_once : Scheduler
cancelled_once = (cancel_task first_id (schedule_task slow heard).1).1

unfoldable once : Steps heard cancelled_once
unfolding set_task_completion_callback new_scheduler
once = next (next here (schedule slow (omega arith))) (cancel first_id)

Steps-Counted_example : Counted cancelled_once
unfolding once
Steps-Counted_example = Steps-Counted heard-Counted once refl
