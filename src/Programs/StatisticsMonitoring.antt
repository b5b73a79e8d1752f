-- ===== src/Programs/StatisticsMonitoring.antt =====
-- examples/StatisticsMonitoring/StatisticsMonitoring.cpp: one task of each kind. Counter 0 is
-- `repeatCount`.
use task_sched_x.Prelude.{◌+◌, ◌%◌, true, List, [], ◌∷◌, codes, if◌then◌else◌}
use task_sched_x.Prelude.Int.{pos}
use task_sched_x.Decimal.{decimal}
use task_sched_x.Task.{size_mod}
use task_sched_x.Programs.{
  Deed, naps, raises, counts_aloud, Runtime, reads_clock, reads_counter, schedules, cancels,
  reads_statistics, destroys, Main, ◌>>=◌, ◌>>◌, call,
}
use task_sched_x.Programs.Deeds.{task}
use task_sched_x.Programs.Calls.{
  ◌<<◌, endl, cout, say, sleep_seconds, in_seconds, in_milliseconds, new_config, create_scheduler,
  start_scheduler, stop_scheduler, official_statistics,
}

abbrev pub success_deeds : List Deed
success_deeds = say (codes "✅ Success task executed") ∷ []

abbrev pub fail_deeds : List Deed
fail_deeds = say (codes "❌ Failure task running") ∷ raises (codes "Intentional failure") ∷ []

abbrev pub timeout_deeds : List Deed
timeout_deeds = say (codes "⏳ Timeout task running") ∷ naps 3000 ∷ []

abbrev pub repeatable_deeds : List Deed
repeatable_deeds = counts_aloud 0 (codes "🔁 Repeatable task run #") endl ∷ []

abbrev pub cancellable_deeds : List Deed
cancellable_deeds = say (codes "🚫 This should not run!") ∷ []

module _ (rt : Runtime) where
  unfoldable pub main : Main (Unit {0})
  main = do
    cout (codes "=== Statistics and Monitoring Example ===" << endl)
    cout (
        codes "This example demonstrates comprehensive task monitoring and statistics tracking."
        << endl)
    cout (
        codes "We'll create various types of tasks and monitor their execution in real-time:"
        << endl)
    cout (codes "- Successful tasks" << endl)
    cout (codes "- Failing tasks" << endl)
    cout (codes "- Timeout tasks" << endl)
    cout (codes "- Cancelled tasks" << endl)
    cout (codes "- Repeatable tasks\n\n" << endl)
    create_scheduler 3
    cout (codes "🗓\u{fe0f} Setting up various task types for monitoring..." << endl)
    success ← new_config
    now1 ← call reads_clock
    task_id_success ← call (
        schedules (record success {
          task_fn = task rt success_deeds;
          start_time = in_milliseconds 200 now1;
        }))
    cout (codes "🆗 Scheduled successful task with ID: " << task_id_success << endl)
    fail ← new_config
    now2 ← call reads_clock
    task_id_fail ← call (
        schedules
          (record fail { task_fn = task rt fail_deeds; start_time = in_milliseconds 400 now2 }))
    cout (codes "🆗 Scheduled failing task with ID: " << task_id_fail << endl)
    timeout ← new_config
    now3 ← call reads_clock
    task_id_timeout ← call (
        schedules (record timeout {
          task_fn = task rt timeout_deeds;
          start_time = in_milliseconds 600 now3;
          timeout = pos 1;
        }))
    cout (
        codes "🆗 Scheduled timeout task with ID: "
        << task_id_timeout
        << codes " (1s timeout)"
        << endl)
    repeatable ← new_config
    now4 ← call reads_clock
    task_id_repeatable ← call (
        schedules (record repeatable {
          task_fn = task rt repeatable_deeds;
          is_repeatable = true;
          repeat_every = pos 1;
          start_time = in_milliseconds 800 now4;
        }))
    cout (codes "🆗 Scheduled repeatable task with ID: " << task_id_repeatable << endl)
    cancellable ← new_config
    now5 ← call reads_clock
    task_id_cancellable ← call (
        schedules (record cancellable {
          task_fn = task rt cancellable_deeds;
          start_time = in_seconds 5 now5;
        }))
    cout (codes "🆗 Scheduled task for cancellation with ID: " << task_id_cancellable << endl)
    start_scheduler
    sleep_seconds 2
    cancelled ← call (cancels task_id_cancellable)
    cout (
        codes "\n[🛠\u{fe0f} ACTION 🛠\u{fe0f}] Cancellable task with ID "
        << task_id_cancellable
        << codes " cancellation: "
        << (if cancelled then codes "SUCCESS" else codes "FAILED")
        << endl)
    sleep_seconds 3
    cancelled_again ← call (cancels task_id_repeatable)
    cout (
        codes "\n[🛠\u{fe0f} ACTION 🛠\u{fe0f}] Repeatable task with ID "
        << task_id_repeatable
        << codes " cancellation: "
        << (if cancelled_again then codes "SUCCESS (may run for final time)" else codes "FAILED")
        << endl)
    sleep_seconds 1
    stop_scheduler
    final_stats ← call reads_statistics
    official_statistics final_stats
    let total_processed =
        (final_stats.tasks_completed + final_stats.tasks_failed + final_stats.tasks_cancelled
          + final_stats.tasks_timeout)
        % size_mod
    cout (codes "\n=== Performance Metrics ===" << endl)
    cout (codes "Total tasks processed: " << decimal total_processed << endl)
    repeat_count ← call (reads_counter 0)
    cout (codes "Repeatable task executions: " << decimal repeat_count << endl)
    cout (
        codes "Success rate: "
        << rt.rate final_stats.tasks_completed total_processed
        << codes "%"
        << endl)
    cout (
        codes "Failure rate: "
        << rt.rate final_stats.tasks_failed total_processed
        << codes "%"
        << endl)
    cout (
        codes "Cancellation rate: "
        << rt.rate final_stats.tasks_cancelled total_processed
        << codes "%"
        << endl)
    cout (
        codes "Timeout rate: "
        << rt.rate final_stats.tasks_timeout total_processed
        << codes "%"
        << endl)
    call destroys
