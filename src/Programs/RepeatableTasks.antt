-- ===== src/Programs/RepeatableTasks.antt =====
-- examples/RepeatableTasks/RepeatableTasks.cpp: three tasks that repeat. The counters are
-- `highPriorityCount`, `mediumPriorityCount` and `lowPriorityCount`.
use task_sched_x.Prelude.{true, List, [], ◌∷◌, codes}
use task_sched_x.Prelude.Int.{pos}
use task_sched_x.Decimal.{decimal}
use task_sched_x.Programs.{
  Deed, counts_aloud, Runtime, reads_clock, reads_counter, schedules, reads_statistics, destroys,
  Main, ◌>>=◌, ◌>>◌, call,
}
use task_sched_x.Programs.Deeds.{task}
use task_sched_x.Programs.Calls.{
  ◌<<◌, endl, cout, sleep_seconds, in_seconds, new_config, create_scheduler, start_scheduler,
  stop_scheduler, official_statistics, failure_rate,
}

abbrev pub high_priority_deeds : List Deed
high_priority_deeds =
    counts_aloud 0 (codes "HIGH PRIORITY Task executed (execution #") (codes ")" << endl) ∷ []

abbrev pub medium_priority_deeds : List Deed
medium_priority_deeds =
    counts_aloud 1 (codes "MEDIUM PRIORITY Task executed (execution #") (codes ")" << endl) ∷ []

abbrev pub low_priority_deeds : List Deed
low_priority_deeds =
    counts_aloud 2 (codes "LOW PRIORITY Task executed (execution #") (codes ")" << endl) ∷ []

module _ (rt : Runtime) where
  unfoldable pub main : Main (Unit {0})
  main = do
    cout (codes "=== Repeatable Tasks Example ===" << endl)
    cout (
        codes
          "This example demonstrates scheduling multiple repeatable tasks with different intervals and priorities."
        << endl)
    cout (codes "We'll run 3 repeatable tasks:" << endl)
    cout (codes "- High priority task (priority 1) every 2 seconds" << endl)
    cout (codes "- Medium priority task (priority 5) every 3 seconds" << endl)
    cout (codes "- Low priority task (priority 10) every 5 seconds" << endl)
    cout (codes "Running for 15 seconds to observe multiple executions...\n" << endl)
    create_scheduler 4
    task_config ← new_config
    now1 ← call reads_clock
    high_priority_task_id ← call (
        schedules (record task_config {
          task_fn = task rt high_priority_deeds;
          start_time = in_seconds 1 now1;
          priority = pos 1;
          is_repeatable = true;
          repeat_every = pos 2;
        }))
    cout (
        codes "🆗 Scheduled high priority repeatable task with ID: "
        << high_priority_task_id
        << endl)
    now2 ← call reads_clock
    medium_priority_task_id ← call (
        schedules (record task_config {
          task_fn = task rt medium_priority_deeds;
          start_time = in_seconds 1 now2;
          priority = pos 5;
          is_repeatable = true;
          repeat_every = pos 3;
        }))
    cout (
        codes "🆗 Scheduled medium priority repeatable task with ID: "
        << medium_priority_task_id
        << endl)
    now3 ← call reads_clock
    low_priority_task_id ← call (
        schedules (record task_config {
          task_fn = task rt low_priority_deeds;
          start_time = in_seconds 1 now3;
          priority = pos 10;
          is_repeatable = true;
          repeat_every = pos 5;
        }))
    cout
        (codes "🆗 Scheduled low priority repeatable task with ID: " << low_priority_task_id << endl)
    start_scheduler
    sleep_seconds 15
    stop_scheduler
    cout (codes "\n=== Execution Summary ===" << endl)
    high_priority_count ← call (reads_counter 0)
    cout (codes "High priority task executions: " << decimal high_priority_count << endl)
    medium_priority_count ← call (reads_counter 1)
    cout (codes "Medium priority task executions: " << decimal medium_priority_count << endl)
    low_priority_count ← call (reads_counter 2)
    cout (codes "Low priority task executions: " << decimal low_priority_count << endl)
    final_stats ← call reads_statistics
    official_statistics final_stats
    failure_rate rt final_stats
    call destroys
