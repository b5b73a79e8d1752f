-- ===== src/Programs/CustomSchedulingPolicies.antt =====
-- examples/CustomSchedulingPolicies/CustomSchedulingPolicies.cpp: immediate, staggered, batched and repeated tasks.
use task_sched_x.Prelude.{
  ℕ, ◌*◌, ◌%◌, ◌-◌, true, false, ◌&&◌, ◌==◌, ltb, List, [], ◌∷◌, codes, if◌then◌else◌,
}
use task_sched_x.Prelude.Int.{pos}
use task_sched_x.Decimal.{decimal}
use task_sched_x.Programs.{
  Deed, says, Runtime, reads_clock, schedules, reads_statistics, destroys, Main, ◌>>=◌, ◌>>◌, pure,
  call,
}
use task_sched_x.Programs.Deeds.{task}
use task_sched_x.Programs.Calls.{
  ◌<<◌, endl, cout, say, sleep_seconds, in_seconds, new_config, create_scheduler, start_scheduler,
  stop_scheduler, official_statistics, up_from, for_each,
}

abbrev pub quick_deeds : List Deed
quick_deeds = say (codes "[Maintenance] Quick check.") ∷ []

abbrev pub slow_deeds : List Deed
slow_deeds = say (codes "[Maintenance] Slow cleanup.") ∷ []

abbrev pub immediate_deeds : ℕ → List Deed
immediate_deeds i = says (codes "[Immediate] Task " << decimal i << codes " executed." << endl) ∷ []

abbrev pub staggered_deeds : ℕ → List Deed
staggered_deeds i = says (codes "[Staggered] Task " << decimal i << codes " executed." << endl) ∷ []

abbrev pub batch_deeds : ℕ → List Deed
batch_deeds i = says (codes "[Batch] Task " << decimal i << codes " running..." << endl) ∷ []

-- One round of the loop that watches the run.
unfoldable pub monitor_second : ℕ → Main (Unit {0})
monitor_second t = do
  sleep_seconds 1
  (if (t % 5 == 0) && ltb 0 t
      then (do
        stats ← call reads_statistics
        cout (
            codes "[👀 MONITOR 👀] Time: "
            << decimal t
            << codes "s - Completed: "
            << decimal stats.tasks_completed
            << codes ", Total scheduled: "
            << decimal stats.total_tasks_scheduled
            << endl))
      else pure tt)

module _ (rt : Runtime) where
  unfoldable pub main : Main (Unit {0})
  main = do
    cout (codes "=== Custom Scheduling Policies Example ===" << endl)
    cout (codes "This example demonstrates advanced scheduling policies and patterns:" << endl)
    cout (codes "1. Priority-based scheduling with different task types" << endl)
    cout (codes "2. Time-based scheduling with staggered execution" << endl)
    cout (codes "3. Mixed scheduling policies in a single scheduler" << endl)
    cout (codes "4. Custom task execution patterns and monitoring" << endl)
    cout (
        codes
          "\nWe'll create tasks with different scheduling characteristics to show flexibility.\n"
        << endl)
    create_scheduler 4
    cout (codes "\n🚀 Scheduling immediate priority tasks..." << endl)
    for_each (up_from 1 3) λ i. do
      config ← new_config
      now ← call reads_clock
      task_id ← call (
          schedules (record config {
            task_fn = task rt (immediate_deeds i);
            priority = pos i;
            start_time = now;
            is_repeatable = false;
          }))
      cout (
          codes "🆗 Scheduled immediate task "
          << decimal i
          << codes " (priority "
          << decimal i
          << codes ") with ID: "
          << task_id
          << endl)
    cout (codes "\n📅 Scheduling staggered tasks (delayed)..." << endl)
    for_each (up_from 1 3) λ i. do
      config ← new_config
      now ← call reads_clock
      task_id ← call (
          schedules (record config {
            task_fn = task rt (staggered_deeds i);
            priority = pos 5;
            start_time = in_seconds (i * 2) now;
            is_repeatable = false;
          }))
      cout (
          codes "🆗 Scheduled staggered task "
          << decimal i
          << codes " (execute at +"
          << decimal (2 * i)
          << codes "s) with ID: "
          << task_id
          << endl)
    cout (codes "\n📦 Scheduling batch tasks..." << endl)
    batch_clock ← call reads_clock
    let batch_time = in_seconds 8 batch_clock
    for_each (up_from 1 3) λ i. do
      config ← new_config
      task_id ← call (
          schedules (record config {
            task_fn = task rt (batch_deeds i);
            priority = pos (10 - i);
            start_time = batch_time;
            is_repeatable = false;
          }))
      cout (
          codes "🆗 Scheduled batch task "
          << decimal i
          << codes " (priority "
          << decimal (10 - i)
          << codes ") with ID: "
          << task_id
          << endl)
    cout (codes "\n🔄 Scheduling periodic maintenance tasks..." << endl)
    quick ← new_config
    now1 ← call reads_clock
    quick_maintenance_id ← call (
        schedules (record quick {
          task_fn = task rt quick_deeds;
          start_time = in_seconds 3 now1;
          priority = pos 20;
          is_repeatable = true;
          repeat_every = pos 4;
        }))
    cout
        (codes "🆗 Scheduled quick maintenance (every 3s) with ID: " << quick_maintenance_id << endl)
    slow ← new_config
    now2 ← call reads_clock
    slow_maintenance_id ← call (
        schedules (record slow {
          task_fn = task rt slow_deeds;
          start_time = in_seconds 5 now2;
          priority = pos 25;
          is_repeatable = true;
          repeat_every = pos 6;
        }))
    cout (codes "🆗 Scheduled slow maintenance (every 6s) with ID: " << slow_maintenance_id << endl)
    cout (codes "\n🚀 Starting scheduler with custom policies..." << endl)
    cout (codes "Monitoring execution for 20 seconds...\n" << endl)
    start_scheduler
    for_each (up_from 0 21) monitor_second
    stop_scheduler
    final_stats ← call reads_statistics
    official_statistics final_stats
    call destroys
