-- ===== src/Programs/ProgressUpdates.antt =====
-- examples/ProgressUpdates/ProgressUpdates.cpp: a task that reports its progress.
use task_sched_x.Prelude.{◌+◌, ◌*◌, ◌/◌, false, List, [], ◌∷◌, ◌++◌, codes}
use task_sched_x.Prelude.Int.{pos}
use task_sched_x.Decimal.{decimal}
use task_sched_x.Programs.{
  Deed, says, naps, Runtime, reads_clock, schedules, reads_statistics, destroys, Main, ◌>>=◌, ◌>>◌,
  call,
}
use task_sched_x.Programs.Deeds.{task, each}
use task_sched_x.Programs.Calls.{
  ◌<<◌, endl, cout, say, sleep_seconds, in_seconds, new_config, create_scheduler, start_scheduler,
  stop_scheduler, official_statistics, failure_rate, status_text, up_from,
}

abbrev pub progress_deeds : List Deed
progress_deeds =
    say (codes "=== Long-running task started ===")
      ∷ say (codes "Beginning data processing simulation...")
      ∷ each (up_from 0 11) (λ i.
        says (
          codes "Progress: "
          << decimal (10 * i)
          << codes "% - Processing data batch "
          << decimal (10 * i / 10 + 1)
          << endl)
        ∷ naps 200
        ∷ [])
    ++ say (codes "=== Long-running task completed successfully ===") ∷ []

module _ (rt : Runtime) where
  unfoldable pub main : Main (Unit {0})
  main = do
    cout (codes "=== Progress Updates and Long-Running Tasks Example ===" << endl)
    cout (
        codes "This example demonstrates how to handle long-running tasks with progress reporting:"
        << endl)
    cout (codes "1. Schedule a task that runs for several seconds" << endl)
    cout (codes "2. The task reports its progress at regular intervals" << endl)
    cout (codes "3. Progress updates are logged and can be monitored in real-time" << endl)
    cout (codes "4. Demonstrate how the scheduler handles tasks of varying duration" << endl)
    cout (
        codes "\nThe task will simulate processing work and report progress from 0% to 100%.\n"
        << endl)
    create_scheduler 4
    cout (codes "\n🗓\u{fe0f} Scheduling a long-running task with progress reporting..." << endl)
    task_config ← new_config
    now1 ← call reads_clock
    task_id ← call (
        schedules (record task_config {
          task_fn = task rt progress_deeds;
          start_time = in_seconds 1 now1;
          priority = pos 1;
          is_repeatable = false;
        }))
    cout (codes "🆗 Scheduled progress reporting task with ID: " << task_id << endl)
    cout (
        codes "🗓\u{fe0f} Starting scheduler. Watch for progress updates in the logs below..."
        << endl)
    cout (
        codes
          "🗓\u{fe0f} Expected: Progress updates from 0% to 100% over approximately 2-3 seconds.\n"
        << endl)
    start_scheduler
    sleep_seconds 5
    stop_scheduler
    cout (codes "\n=== Task Execution Summary ===" << endl)
    task_status ← status_text task_id
    cout (codes "Final task status: " << task_status << endl)
    final_stats ← call reads_statistics
    official_statistics final_stats
    failure_rate rt final_stats
    call destroys
