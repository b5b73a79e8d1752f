-- ===== src/Programs/Ordered.antt =====
-- Each of the example programs keeps to the order.
use task_sched_x.Prelude.{ℕ, zero, suc, ◌+◌, Bytes, arith, List}
use task_sched_x.Programs.{Deed, Runtime, script_of, Script}
use task_sched_x.Programs.Lifecycle.{Obeys, absent, prepared, running}
use task_sched_x.Programs.Calls.{
  new_config, create_scheduler, start_scheduler, stop_scheduler, official_statistics, failure_rate,
  status_text, get_cpu_time_ms, up_from, for_each, cout,
}
use task_sched_x.Programs.BasicUsage
use task_sched_x.Programs.CallbackMechanism
use task_sched_x.Programs.CustomSchedulingPolicies
use task_sched_x.Programs.ErrorHandling
use task_sched_x.Programs.PriorityScheduling
use task_sched_x.Programs.ProgressUpdates
use task_sched_x.Programs.RepeatableTasks
use task_sched_x.Programs.StatisticsMonitoring
use task_sched_x.Programs.TaskCancellation
use task_sched_x.Programs.TimeoutHandling
use task_sched_x.Programs.PerformanceBenchmark

module _ (rt : Runtime) where
  cout-Obeys :
      (text : Bytes) (k : Unit {0} → Script) → Obeys absent (k tt) → Obeys absent (cout text k)
  unfolding Obeys
  cout-Obeys text k h = λ _. h

  -- A part of the benchmark keeps to the order if what follows it does.
  module _ (fuel : ℕ) where
    await_completed-Obeys :
        (fuel num_tasks : ℕ) (k : Unit {0} → Script)
        → Obeys running (k tt)
        → Obeys running (PerformanceBenchmark.await_completed fuel num_tasks k)
    unfolding Obeys PerformanceBenchmark.await_completed
    await_completed-Obeys zero num_tasks k h = tt
    await_completed-Obeys (suc fuel) num_tasks k h =
        λ completed. ground (arith, h, await_completed-Obeys fuel num_tasks k h)

    schedule_all-Obeys :
        (body : List Deed) (first n : ℕ) (k : Unit {0} → Script)
        → Obeys prepared (k tt)
        → Obeys prepared (for_each (up_from first n) (PerformanceBenchmark.schedule_one rt body) k)
    unfolding Obeys PerformanceBenchmark.schedule_one new_config
    schedule_all-Obeys body first zero k h = h
    schedule_all-Obeys body first (suc n) k h =
        λ leftover t now id. schedule_all-Obeys body (first + 1) n k h

    run-Obeys :
        (label : Bytes) (threads num_tasks : ℕ) (body : List Deed) (k : Unit {0} → Script)
        → Obeys absent (k tt)
        → Obeys absent (PerformanceBenchmark.run rt fuel label threads num_tasks body k)
    unfolding Obeys PerformanceBenchmark.run PerformanceBenchmark.schedule_one get_cpu_time_ms
        official_statistics
    run-Obeys label threads num_tasks body k h _ _ _ _ start_at cpu_start =
        schedule_all-Obeys body 0 num_tasks _ λ _.
          await_completed-Obeys fuel num_tasks _
            λ _ end_at cpu_end final_stats _ _ _ _ _ _ count _ _. h

    run_each-Obeys :
        (label : Bytes) (body : List Deed) (k : Unit {0} → Script)
        → Obeys absent (k tt)
        → Obeys absent (PerformanceBenchmark.run_each rt fuel label body k)
    unfolding PerformanceBenchmark.run_each
    run_each-Obeys label body k h = run-Obeys label 1 100 body _ (
        run-Obeys label 2 100 body _
          (run-Obeys label 4 100 body _ (run-Obeys label 8 100 body _ h)))

    performance_benchmark-Obeys : Obeys absent (script_of (PerformanceBenchmark.main rt fuel))
    unfolding Obeys PerformanceBenchmark.main
    performance_benchmark-Obeys = λ _ _ _ _ _ _. search (run_each-Obeys, cout-Obeys)

  basic_usage-Obeys : Obeys absent (script_of (BasicUsage.main rt))
  unfolding Obeys BasicUsage.main new_config create_scheduler start_scheduler stop_scheduler
      official_statistics failure_rate status_text
  basic_usage-Obeys = ground arith

  callback_mechanism-Obeys : Obeys absent (script_of (CallbackMechanism.main rt))
  unfolding Obeys CallbackMechanism.main new_config create_scheduler start_scheduler stop_scheduler
      official_statistics failure_rate status_text
  callback_mechanism-Obeys = ground arith

  custom_scheduling_policies-Obeys : Obeys absent (script_of (CustomSchedulingPolicies.main rt))
  unfolding Obeys CustomSchedulingPolicies.main CustomSchedulingPolicies.monitor_second new_config
      create_scheduler start_scheduler stop_scheduler official_statistics failure_rate status_text
  custom_scheduling_policies-Obeys = ground arith

  error_handling-Obeys : Obeys absent (script_of (ErrorHandling.main rt))
  unfolding Obeys ErrorHandling.main new_config create_scheduler start_scheduler stop_scheduler
      official_statistics failure_rate status_text
  error_handling-Obeys = ground arith

  priority_scheduling-Obeys : Obeys absent (script_of (PriorityScheduling.main rt))
  unfolding Obeys PriorityScheduling.main new_config create_scheduler start_scheduler stop_scheduler
      official_statistics failure_rate status_text
  priority_scheduling-Obeys = ground arith

  progress_updates-Obeys : Obeys absent (script_of (ProgressUpdates.main rt))
  unfolding Obeys ProgressUpdates.main new_config create_scheduler start_scheduler stop_scheduler
      official_statistics failure_rate status_text
  progress_updates-Obeys = ground arith

  repeatable_tasks-Obeys : Obeys absent (script_of (RepeatableTasks.main rt))
  unfolding Obeys RepeatableTasks.main new_config create_scheduler start_scheduler stop_scheduler
      official_statistics failure_rate status_text
  repeatable_tasks-Obeys = ground arith

  statistics_monitoring-Obeys : Obeys absent (script_of (StatisticsMonitoring.main rt))
  unfolding Obeys StatisticsMonitoring.main new_config create_scheduler start_scheduler
      stop_scheduler official_statistics failure_rate status_text
  statistics_monitoring-Obeys = ground arith

  task_cancellation-Obeys : Obeys absent (script_of (TaskCancellation.main rt))
  unfolding Obeys TaskCancellation.main TaskCancellation.main_after_cancel new_config
      create_scheduler start_scheduler stop_scheduler official_statistics failure_rate status_text
  task_cancellation-Obeys = ground arith

  timeout_handling-Obeys : Obeys absent (script_of (TimeoutHandling.main rt))
  unfolding Obeys TimeoutHandling.main new_config create_scheduler start_scheduler stop_scheduler
      official_statistics failure_rate status_text
  timeout_handling-Obeys = ground arith

-- Whatever they are answered, each of the eleven programs keeps to the order: it makes its scheduler
-- first, schedules all its tasks before it starts it, starts it once, stops it once, cancels nothing after
-- that and asks for no status and no statistics before the start; and unless the bound on the rounds
-- of the benchmark's loop is too small, no scheduler is left at its end.
pub examples-Obey :
    (rt : Runtime) (fuel : ℕ)
    → Obeys absent (script_of (BasicUsage.main rt))
      × Obeys absent (script_of (CallbackMechanism.main rt))
      × Obeys absent (script_of (CustomSchedulingPolicies.main rt))
      × Obeys absent (script_of (ErrorHandling.main rt))
      × Obeys absent (script_of (PriorityScheduling.main rt))
      × Obeys absent (script_of (ProgressUpdates.main rt))
      × Obeys absent (script_of (RepeatableTasks.main rt))
      × Obeys absent (script_of (StatisticsMonitoring.main rt))
      × Obeys absent (script_of (TaskCancellation.main rt))
      × Obeys absent (script_of (TimeoutHandling.main rt))
      × Obeys absent (script_of (PerformanceBenchmark.main rt fuel))
examples-Obey rt fuel = (
  basic_usage-Obeys rt,
  callback_mechanism-Obeys rt,
  custom_scheduling_policies-Obeys rt,
  error_handling-Obeys rt,
  priority_scheduling-Obeys rt,
  progress_updates-Obeys rt,
  repeatable_tasks-Obeys rt,
  statistics_monitoring-Obeys rt,
  task_cancellation-Obeys rt,
  timeout_handling-Obeys rt,
  performance_benchmark-Obeys rt fuel,
)
