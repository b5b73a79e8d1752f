-- ===== src/Programs/Outcomes.antt =====
-- How the tasks of the example programs end when a worker executes them.
use task_sched_x.Prelude.{ℕ, ◌<◌, ◌≡◌, subst, Bytes, arith, codes}
use task_sched_x.Prelude.Int.{ℤ}
use task_sched_x.Task.{
  Status, completed, failed, running, Objects, execute, std_exception, new_task, Exception, Task,
}
use task_sched_x.Scheduler.State.{Scheduler, new_scheduler}
use task_sched_x.Scheduler.Callbacks.{Quiet}
use task_sched_x.Scheduler.Client.{
  get_task_status, schedule_task, set_log_level, set_console_logging_enabled, default_config,
}
use task_sched_x.Scheduler.Execute.{execute_and_finalize_task}
use task_sched_x.Scheduler.Outcomes.Defs.{Verdict, fails, times_out, completes, verdict, Ends}
use task_sched_x.Scheduler.Outcomes.Theorem.{execute_and_finalize_task-Ends}
use task_sched_x.Programs.{Runtime, script_of}
use task_sched_x.Programs.Deeds.{task, nap_time, raised}
use task_sched_x.Programs.Calls.{new_config, create_scheduler, start_scheduler}
use task_sched_x.Programs.Prepare.{World, Stage, prepare, unborn}
use task_sched_x.Programs.TimeoutHandling
use task_sched_x.Programs.ErrorHandling
use task_sched_x.Programs.StatisticsMonitoring

-- The status that is reported of a task after its execution.
abbrev pub reported : ℕ → Bytes → ℕ → ℤ → Scheduler → Status
reported r thread moment now s =
    (get_task_status (s.objects r).task_id (execute_and_finalize_task r thread moment now s).1).0

module _ (r : ℕ) (thread : Bytes) (moment : ℕ) (now : ℤ) (s : Scheduler)
    (quiet : Quiet s.completion_callback) where
  ends :
      (v : Verdict)
      → verdict (s.objects r) (execute (s.objects r) moment) ≡ v
      → Ends v r now s (execute_and_finalize_task r thread moment now s).1
  ends v e =
      subst (λ u. Ends u r now s (execute_and_finalize_task r thread moment now s).1) e
        (execute_and_finalize_task-Ends r thread moment now s quiet).1

  reported-completes :
      verdict (s.objects r) (execute (s.objects r) moment) ≡ completes
      → reported r thread moment now s ≡ completed
  reported-completes e = (ends completes e).answers

  reported-times_out :
      verdict (s.objects r) (execute (s.objects r) moment) ≡ times_out
      → reported r thread moment now s ≡ Status.timeout
  reported-times_out e = (ends times_out e).answers

  reported-fails :
      (e : Exception)
      → verdict (s.objects r) (execute (s.objects r) moment) ≡ fails e
      → reported r thread moment now s ≡ failed
  reported-fails x e = (ends (fails x) e).answers

abbrev simulated_error : Exception
simulated_error =
    std_exception (codes "Simulated error in task - this is intentional for demonstration")

abbrev intentional_failure : Exception
intentional_failure = std_exception (codes "Intentional failure")

-- A prepared task, as a worker has it.
abbrev pub as_run : Stage → ℕ → Task
as_run stage r = record (stage.shared.objects r) { status = running }

module _ (rt : Runtime) (w : World) (objects : Objects) (next_id : ℕ) where
  abbrev pub timeout_stage : Stage
  timeout_stage = prepare w 0 (script_of (TimeoutHandling.main rt)) (unborn objects next_id)

  abbrev pub error_stage : Stage
  error_stage = prepare w 0 (script_of (ErrorHandling.main rt)) (unborn objects next_id)

  abbrev pub statistics_stage : Stage
  statistics_stage = prepare w 0 (script_of (StatisticsMonitoring.main rt)) (unborn objects next_id)

  quick_verdict :
      (moment : ℕ)
      → rt.overhead TimeoutHandling.quick_deeds moment < 3_500_000_000
      → verdict (as_run timeout_stage 0) (execute (as_run timeout_stage 0) moment) ≡ completes
  unfolding prepare TimeoutHandling.main new_config create_scheduler start_scheduler schedule_task
      new_task execute task nap_time raised set_log_level set_console_logging_enabled new_scheduler
      default_config
  quick_verdict moment h = ground arith

  slow_verdict :
      (moment : ℕ)
      → verdict (as_run timeout_stage 1) (execute (as_run timeout_stage 1) moment) ≡ times_out
  unfolding prepare TimeoutHandling.main new_config create_scheduler start_scheduler schedule_task
      new_task execute task nap_time raised set_log_level set_console_logging_enabled new_scheduler
      default_config
  slow_verdict moment = ground arith

  unlimited_verdict :
      (moment : ℕ)
      → verdict (as_run timeout_stage 2) (execute (as_run timeout_stage 2) moment) ≡ completes
  unfolding prepare TimeoutHandling.main new_config create_scheduler start_scheduler schedule_task
      new_task execute task nap_time raised set_log_level set_console_logging_enabled new_scheduler
      default_config
  unlimited_verdict moment = ground arith

  failing_verdict :
      (moment : ℕ)
      → verdict (as_run error_stage 0) (execute (as_run error_stage 0) moment)
        ≡ fails simulated_error
  unfolding prepare ErrorHandling.main new_config create_scheduler start_scheduler schedule_task
      new_task execute task nap_time raised set_log_level set_console_logging_enabled new_scheduler
      default_config
  failing_verdict moment = ground arith

  success_verdict :
      (moment : ℕ)
      → rt.overhead StatisticsMonitoring.success_deeds moment < 61_000_000_000
      → verdict (as_run statistics_stage 0) (execute (as_run statistics_stage 0) moment) ≡ completes
  unfolding prepare StatisticsMonitoring.main new_config create_scheduler start_scheduler
      schedule_task new_task execute task nap_time raised set_log_level set_console_logging_enabled
      new_scheduler default_config
  success_verdict moment h = ground arith

  fail_verdict :
      (moment : ℕ)
      → verdict (as_run statistics_stage 1) (execute (as_run statistics_stage 1) moment)
        ≡ fails intentional_failure
  unfolding prepare StatisticsMonitoring.main new_config create_scheduler start_scheduler
      schedule_task new_task execute task nap_time raised set_log_level set_console_logging_enabled
      new_scheduler default_config
  fail_verdict moment = ground arith

  timeout_verdict :
      (moment : ℕ)
      → verdict (as_run statistics_stage 2) (execute (as_run statistics_stage 2) moment) ≡ times_out
  unfolding prepare StatisticsMonitoring.main new_config create_scheduler start_scheduler
      schedule_task new_task execute task nap_time raised set_log_level set_console_logging_enabled
      new_scheduler default_config
  timeout_verdict moment = ground arith

-- A worker that executes a task of one of the example programs, under a callback that throws nothing,
-- whatever else the scheduler holds. Of TimeoutHandling, the quick task is reported as COMPLETED if
-- its call takes less than 3.5 seconds beyond its nap of half a second, the slow one, which sleeps for 4
-- seconds, always as TIMEOUT, and the one with a timeout of 0 always as COMPLETED. Of ErrorHandling
-- and StatisticsMonitoring, the tasks that throw are reported as FAILED, the one that sleeps for 3 seconds
-- with a timeout of 1 as TIMEOUT, and the one that only prints as COMPLETED if that takes less than 61
-- seconds.
pub tasks_end_as_told :
    (rt : Runtime) (w : World) (objects : Objects) (next_id : ℕ)
    (quick slow unlimited error success fail late : ℕ) (thread : Bytes) (moment : ℕ) (now : ℤ)
    (s : Scheduler)
    → Quiet s.completion_callback
    → s.objects quick ≡ as_run (timeout_stage rt w objects next_id) 0
    → s.objects slow ≡ as_run (timeout_stage rt w objects next_id) 1
    → s.objects unlimited ≡ as_run (timeout_stage rt w objects next_id) 2
    → s.objects error ≡ as_run (error_stage rt w objects next_id) 0
    → s.objects success ≡ as_run (statistics_stage rt w objects next_id) 0
    → s.objects fail ≡ as_run (statistics_stage rt w objects next_id) 1
    → s.objects late ≡ as_run (statistics_stage rt w objects next_id) 2
    → rt.overhead TimeoutHandling.quick_deeds moment < 3_500_000_000
    → rt.overhead StatisticsMonitoring.success_deeds moment < 61_000_000_000
    → (reported quick thread moment now s ≡ completed)
      × (reported slow thread moment now s ≡ Status.timeout)
      × (reported unlimited thread moment now s ≡ completed)
      × (reported error thread moment now s ≡ failed)
      × (reported success thread moment now s ≡ completed)
      × (reported fail thread moment now s ≡ failed)
      × (reported late thread moment now s ≡ Status.timeout)
tasks_end_as_told rt w objects next_id quick slow unlimited error success fail late thread moment
      now s quiet is_quick is_slow is_unlimited is_error is_success is_fail is_late short brief =
    (
      reported-completes quick thread moment now s quiet
          (rw is_quick (quick_verdict rt w objects next_id moment short)),
      reported-times_out slow thread moment now s quiet
          (rw is_slow (slow_verdict rt w objects next_id moment)),
      reported-completes unlimited thread moment now s quiet
          (rw is_unlimited (unlimited_verdict rt w objects next_id moment)),
      reported-fails error thread moment now s quiet simulated_error
          (rw is_error (failing_verdict rt w objects next_id moment)),
      reported-completes success thread moment now s quiet
          (rw is_success (success_verdict rt w objects next_id moment brief)),
      reported-fails fail thread moment now s quiet intentional_failure
          (rw is_fail (fail_verdict rt w objects next_id moment)),
      reported-times_out late thread moment now s quiet
          (rw is_late (timeout_verdict rt w objects next_id moment)),
    )
