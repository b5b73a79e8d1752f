-- ===== src/Programs/ErrorHandling.antt =====
-- examples/ErrorHandling/ErrorHandling.cpp: a task that throws.
use task_sched_x.Prelude.{false, List, [], ◌∷◌, codes}
use task_sched_x.Prelude.Int.{pos}
use task_sched_x.Programs.{
  Deed, raises, Runtime, reads_clock, schedules, reads_statistics, destroys, Main, ◌>>=◌, ◌>>◌,
  call,
}
use task_sched_x.Programs.Deeds.{task}
use task_sched_x.Programs.Calls.{
  ◌<<◌, endl, cout, say, sleep_seconds, in_seconds, new_config, create_scheduler, start_scheduler,
  stop_scheduler, official_statistics, failure_rate, status_text,
}

abbrev pub failing_deeds : List Deed
failing_deeds =
    say (codes "Error Handling: Task started execution")
    ∷ say (codes "About to simulate an error...")
    ∷ raises (codes "Simulated error in task - this is intentional for demonstration")
    ∷ []

module _ (rt : Runtime) where
  unfoldable pub main : Main (Unit {0})
  main = do
    cout (codes "=== Error Handling and Exception Management Example ===" << endl)
    cout (codes "This example demonstrates how the TaskScheduler handles task failures:" << endl)
    cout (codes "1. Tasks that throw exceptions are caught and marked as FAILED" << endl)
    cout (codes "2. Failed tasks don't crash the scheduler or affect other tasks" << endl)
    cout (codes "3. Error information is logged for debugging purposes" << endl)
    cout (codes "4. Failure statistics are tracked and can be monitored" << endl)
    create_scheduler 4
    cout
        (codes "\n🗓\u{fe0f} Scheduling an error-prone task that will throw an exception..." << endl)
    task_config ← new_config
    now1 ← call reads_clock
    task_id ← call (
        schedules (record task_config {
          task_fn = task rt failing_deeds;
          start_time = in_seconds 2 now1;
          priority = pos 1;
          is_repeatable = false;
        }))
    cout (codes "🆗 Scheduled error-prone task with ID: " << task_id << endl)
    cout (
        codes
          "\n🚀 Starting scheduler. The task will fail, but the scheduler should continue running..."
        << endl)
    start_scheduler
    sleep_seconds 4
    stop_scheduler
    cout (codes "\n=== Task Status Check ===" << endl)
    task_status ← status_text task_id
    cout (codes "Final task status: " << task_status << endl)
    final_stats ← call reads_statistics
    official_statistics final_stats
    failure_rate rt final_stats
    call destroys
