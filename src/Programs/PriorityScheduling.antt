-- ===== src/Programs/PriorityScheduling.antt =====
-- examples/PriorityScheduling/PriorityScheduling.cpp: seven tasks of six priorities.
use task_sched_x.Prelude.{false, List, [], ◌∷◌, codes}
use task_sched_x.Prelude.Int.{pos}
use task_sched_x.Programs.{
  Deed, naps, Runtime, reads_clock, schedules, reads_statistics, destroys, Main, ◌>>=◌, ◌>>◌, call,
}
use task_sched_x.Programs.Deeds.{task}
use task_sched_x.Programs.Calls.{
  ◌<<◌, endl, cout, say, sleep_seconds, in_seconds, new_config, create_scheduler, start_scheduler,
  stop_scheduler, official_statistics, failure_rate, status_text, for_each,
}

abbrev pub lowest_deeds : List Deed
lowest_deeds = say (codes "Task (PRIORITY 15) — Expected: #7 - Lowest") ∷ naps 100 ∷ []

abbrev pub highest_deeds : List Deed
highest_deeds = say (codes "Task (PRIORITY 1) — Expected: #2 - Highest priority") ∷ naps 100 ∷ []

abbrev pub medium_low_deeds : List Deed
medium_low_deeds = say (codes "Task (PRIORITY 10) — Expected: #6 - Medium-low") ∷ naps 100 ∷ []

abbrev pub medium_deeds : List Deed
medium_deeds = say (codes "Task (PRIORITY 5) — Expected: #5 - Medium priority") ∷ naps 100 ∷ []

abbrev pub earlier_deeds : List Deed
earlier_deeds = say (codes "Task (PRIORITY 3-A) — Expected: #3") ∷ []

abbrev pub later_deeds : List Deed
later_deeds = say (codes "Task (PRIORITY 3-B) — Expected: #4") ∷ []

abbrev pub immediate_deeds : List Deed
immediate_deeds = say (codes "Task (PRIORITY 0) — Expected: #1 - Immediate execution") ∷ []

module _ (rt : Runtime) where
  unfoldable pub main : Main (Unit {0})
  main = do
    cout (codes "=== Priority-Based Task Scheduling Example ===" << endl)
    cout (codes "This example demonstrates how task priorities affect execution order." << endl)
    cout (codes "Lower priority numbers indicate higher priority tasks." << endl)
    cout (
        codes "We'll schedule tasks with priorities 1, 3, 5, 10, and 15 all at the same time."
        << endl)
    cout (codes "Expected execution order: Priority 1, 3, 5, 10, 15\n" << endl)
    create_scheduler 1
    start_clock ← call reads_clock
    let start_time = in_seconds 2 start_clock
    cout (
        codes "🗓\u{fe0f} Scheduling tasks with different priorities (all at same execution time):"
        << endl)
    task_config ← new_config
    low_priority_id ← call (
        schedules (record task_config {
          task_fn = task rt lowest_deeds;
          start_time = start_time;
          priority = pos 15;
          is_repeatable = false;
        }))
    cout (codes "🆗 Scheduled LOWEST priority task (15) with ID: " << low_priority_id << endl)
    high_priority_id ← call (
        schedules (record task_config {
          task_fn = task rt highest_deeds;
          start_time = start_time;
          priority = pos 1;
          is_repeatable = false;
        }))
    cout (codes "🆗 Scheduled HIGHEST priority task (1) with ID: " << high_priority_id << endl)
    medium_low_priority_id ← call (
        schedules (record task_config {
          task_fn = task rt medium_low_deeds;
          start_time = start_time;
          priority = pos 10;
          is_repeatable = false;
        }))
    cout (
        codes "🆗 Scheduled MEDIUM-LOW priority task (10) with ID: "
        << medium_low_priority_id
        << endl)
    medium_priority_id ← call (
        schedules (record task_config {
          task_fn = task rt medium_deeds;
          start_time = start_time;
          priority = pos 5;
          is_repeatable = false;
        }))
    cout (codes "🆗 Scheduled MEDIUM priority task (5) with ID: " << medium_priority_id << endl)
    cout (
        codes "\n🗓\u{fe0f} Scheduling tasks with SAME priority but different execution times:"
        << endl)
    earlier_priority3_id ← call (
        schedules (record task_config {
          task_fn = task rt earlier_deeds;
          start_time = start_time;
          priority = pos 3;
          is_repeatable = false;
        }))
    cout (codes "🆗 Scheduled task with priority 3-A with ID: " << earlier_priority3_id << endl)
    later_priority3_id ← call (
        schedules (record task_config {
          task_fn = task rt later_deeds;
          start_time = start_time;
          priority = pos 3;
          is_repeatable = false;
        }))
    cout (
        codes "🆗 Scheduled task with priority 3 (later time) with ID: "
        << later_priority3_id
        << endl)
    cout (codes "\n🗓\u{fe0f} Adding immediate high priority tasks:" << endl)
    now1 ← call reads_clock
    immediate_id ← call (
        schedules (record task_config {
          task_fn = task rt immediate_deeds;
          start_time = now1;
          priority = pos 0;
          is_repeatable = false;
        }))
    cout (codes "🆗 Scheduled immediate high priority task (0) with ID: " << immediate_id << endl)
    cout (codes "\n🚀 Starting scheduler..." << endl)
    cout (codes "Expected execution order:" << endl)
    cout (codes "1. Immediate high priority (0)" << endl)
    cout (codes "2. Highest priority (1)" << endl)
    cout (codes "3. Same priority - earlier time (3)" << endl)
    cout (codes "4. Same priority - later time (3)" << endl)
    cout (codes "5. Medium priority (5)" << endl)
    cout (codes "6. Medium-low priority (10)" << endl)
    cout (codes "7. Lowest priority (15)" << endl)
    cout (codes "\nActual execution order:" << endl)
    start_scheduler
    sleep_seconds 5
    stop_scheduler
    cout (codes "\n=== Final Task Statuses ===" << endl)
    let task_ids =
        low_priority_id ∷ high_priority_id ∷ medium_low_priority_id ∷ medium_priority_id
        ∷ earlier_priority3_id ∷ later_priority3_id ∷ immediate_id ∷ []
    for_each task_ids λ task_id. do
      task_status ← status_text task_id
      cout (codes "Task " << task_id << codes " status: " << task_status << endl)
    final_stats ← call reads_statistics
    official_statistics final_stats
    failure_rate rt final_stats
    call destroys
