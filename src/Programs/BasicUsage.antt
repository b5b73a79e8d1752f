-- ===== src/Programs/BasicUsage.antt =====
-- examples/BasicUsage/BasicUsage.cpp: three tasks, watched second by second.
use task_sched_x.Prelude.{false, List, [], ◌∷◌, ◌++◌, codes}
use task_sched_x.Prelude.Int.{pos}
use task_sched_x.Decimal.{decimal}
use task_sched_x.Programs.{
  Deed, says, naps, Runtime, reads_clock, schedules, reads_statistics, stops, destroys, Main, ◌>>=◌,
  ◌>>◌, call,
}
use task_sched_x.Programs.Deeds.{task, each}
use task_sched_x.Programs.Calls.{
  ◌<<◌, endl, cout, say, sleep_seconds, in_seconds, new_config, create_scheduler, start_scheduler,
  official_statistics, status_text, up_from, for_each,
}

abbrev pub task1_deeds : List Deed
task1_deeds = say (codes "Hello from Task 1! This is a simple scheduled task.") ∷ []

abbrev pub task2_deeds : List Deed
task2_deeds = say (codes "Hello from Task 2! This task was scheduled for later execution.") ∷ []

abbrev pub task3_deeds : List Deed
task3_deeds =
    say (codes "Task 3 started - simulating some work...")
      ∷ each (up_from 1 5) (λ i.
        naps 200 ∷ says (codes "Task 3 progress: step " << decimal i << codes "/5" << endl) ∷ [])
    ++ say (codes "Task 3 completed all work!") ∷ []

module _ (rt : Runtime) where
  unfoldable pub main : Main (Unit {0})
  main = do
    cout (codes "=== Basic TaskScheduler Usage Example ===" << endl)
    cout (codes "This example demonstrates the fundamental usage of TaskScheduler:" << endl)
    cout (codes "1. Create a TaskScheduler instance with worker threads" << endl)
    cout (codes "2. Schedule multiple simple tasks with different start execution times" << endl)
    cout (codes "3. Start the scheduler to begin task execution" << endl)
    cout (codes "4. Monitor task execution and completion" << endl)
    cout (codes "5. Stop the scheduler and view results" << endl)
    cout (codes "Step 1: Creating TaskScheduler with 2 worker threads..." << endl)
    create_scheduler 3
    cout (codes "\n🗓\u{fe0f} Step 2: Scheduling simple tasks..." << endl)
    task1_config ← new_config
    now1 ← call reads_clock
    task1_id ← call (
        schedules (record task1_config {
          task_fn = task rt task1_deeds;
          start_time = in_seconds 1 now1;
          priority = pos 1;
          is_repeatable = false;
        }))
    cout (codes "🆗 Scheduled Task 1 (immediate) with ID: " << task1_id << endl)
    task2_config ← new_config
    now2 ← call reads_clock
    task2_id ← call (
        schedules (record task2_config {
          task_fn = task rt task2_deeds;
          start_time = in_seconds 3 now2;
          priority = pos 2;
          is_repeatable = false;
        }))
    cout (codes "🆗 Scheduled Task 2 (delayed) with ID: " << task2_id << endl)
    task3_config ← new_config
    now3 ← call reads_clock
    task3_id ← call (
        schedules (record task3_config {
          task_fn = task rt task3_deeds;
          start_time = in_seconds 2 now3;
          priority = pos 1;
          is_repeatable = false;
        }))
    cout (codes "🆗 Scheduled Task 3 (with work) with ID: " << task3_id << endl)
    cout (codes "\n🗓\u{fe0f} Step 3: Starting the scheduler..." << endl)
    cout (codes "The scheduler will now begin executing tasks at their scheduled times." << endl)
    start_scheduler
    cout (codes "\n🗓\u{fe0f} Step 4: Monitoring task execution..." << endl)
    for_each (up_from 1 5) λ i. do
      sleep_seconds 1
      status1 ← status_text task1_id
      status2 ← status_text task2_id
      status3 ← status_text task3_id
      cout (
          codes "🧐 MONITOR "
          << decimal i
          << codes "s: Task statuses - "
          << codes "Task1: "
          << status1
          << codes ", "
          << codes "Task2: "
          << status2
          << codes ", "
          << codes "Task3: "
          << status3
          << endl)
    call stops
    cout (codes "\n🏁 Scheduler stopped successfully" << endl)
    cout (codes "\n=== Final Results ===" << endl)
    task1_status ← status_text task1_id
    cout (codes "Task 1 final status: " << task1_status << endl)
    task2_status ← status_text task2_id
    cout (codes "Task 2 final status: " << task2_status << endl)
    task3_status ← status_text task3_id
    cout (codes "Task 3 final status: " << task3_status << endl)
    final_stats ← call reads_statistics
    official_statistics final_stats
    call destroys
