-- ===== src/Programs/TaskCancellation.antt =====
-- examples/TaskCancellation/TaskCancellation.cpp: cancellation before, during and between runs, and of
-- an identifier that no task has. Counter 0 is `longTaskCount`, counter 1 `repeatCount`.
use task_sched_x.Prelude.{◌*◌, true, Bool, List, [], ◌∷◌, ◌++◌, Bytes, codes, if◌then◌else◌}
use task_sched_x.Prelude.Int.{pos}
use task_sched_x.Decimal.{decimal}
use task_sched_x.Programs.{
  Deed, says, naps, counts, counts_aloud, Runtime, reads_clock, reads_counter, schedules, cancels,
  reads_statistics, destroys, Main, ◌>>=◌, ◌>>◌, pure, call,
}
use task_sched_x.Programs.Deeds.{task, each}
use task_sched_x.Programs.Calls.{
  ◌<<◌, endl, cout, say, sleep_seconds, in_seconds, new_config, create_scheduler, start_scheduler,
  stop_scheduler, official_statistics, up_from,
}

abbrev pub pre_cancel_deeds : List Deed
pre_cancel_deeds = says (codes "🚨 Should not run 🚨\n") ∷ []

abbrev pub long_task_deeds : List Deed
long_task_deeds =
    counts 0
      ∷ say (codes "🕐 Long task started")
      ∷ each (up_from 1 10) (λ i.
        naps 300
        ∷ says (codes "🕐 Long task progress: " << decimal (i * 10) << codes "%" << endl)
        ∷ [])
    ++ say (codes "✅ Long task completed (even though cancellation was requested)") ∷ []

abbrev pub repeat_task_deeds : List Deed
repeat_task_deeds = counts_aloud 1 (codes "🔁 Repeat #") endl ∷ []

module _ (rt : Runtime) where
  -- From the first cancellation on.
  unfoldable pub main_after_cancel : Bytes → Bool → Main (Unit {0})
  main_after_cancel task_id_pre_cancel cancelled = do
    cout (
        codes "[🛠\u{fe0f} ACTION 🛠\u{fe0f}] preCancel task with ID "
        << task_id_pre_cancel
        << codes " cancellation: "
        << (if cancelled then codes "SUCCESS" else codes "FAILED")
        << endl)
    long_task ← new_config
    now2 ← call reads_clock
    task_id_long_task ← call (
        schedules
          (record long_task { task_fn = task rt long_task_deeds; start_time = in_seconds 1 now2 }))
    cout (codes "🆗 Scheduled long task with ID: " << task_id_long_task << endl)
    repeat_task ← new_config
    now3 ← call reads_clock
    task_id_repeat_task ← call (
        schedules (record repeat_task {
          task_fn = task rt repeat_task_deeds;
          start_time = in_seconds 1 now3;
          is_repeatable = true;
          repeat_every = pos 1;
        }))
    cout (codes "🆗 Scheduled repeatable task with ID: " << task_id_repeat_task << endl)
    start_scheduler
    sleep_seconds 2
    cout (codes "\n[⛔] Cancelling long-running task...\n")
    _ ← call (cancels task_id_long_task)
    sleep_seconds 4
    repeat_count ← call (reads_counter 1)
    cout (
        codes "\n[⛔] Cancelling repeatable task after "
        << decimal repeat_count
        << codes " executions...\n")
    _ ← call (cancels task_id_repeat_task)
    cout (codes "\n[❓] Cancelling fake task...\n")
    found ← call (cancels (codes "invalid_id"))
    (if found
        then pure tt
        else cout (codes "[⚠\u{fe0f}] Non-existent task could not be cancelled.\n"))
    sleep_seconds 2
    stop_scheduler
    cout (codes "\n=== Summary ===\n")
    long_task_count ← call (reads_counter 0)
    cout (codes "Long task ran: " << decimal long_task_count << codes " time(s)\n")
    repeat_total ← call (reads_counter 1)
    cout (codes "Repeat ran:    " << decimal repeat_total << codes " time(s)\n")
    final_stats ← call reads_statistics
    official_statistics final_stats
    cout (codes "\nNote: 'Tasks completed' includes each run of repeatable tasks.\n")
    call destroys

  unfoldable pub main : Main (Unit {0})
  unfolding main_after_cancel
  main = do
    cout (codes "=== Task Cancellation Example ===" << endl)
    cout (codes "Scenarios:" << endl)
    cout (codes "1. Cancel before execution" << endl)
    cout (codes "2. Cancel during execution" << endl)
    cout (codes "3. Cancel repeatable task" << endl)
    cout (codes "4. Cancel non-existent task" << endl)
    create_scheduler 3
    pre_cancel ← new_config
    now1 ← call reads_clock
    task_id_pre_cancel ← call (
        schedules (record pre_cancel {
          task_fn = task rt pre_cancel_deeds;
          start_time = in_seconds 3 now1;
        }))
    cout (codes "🆗 Scheduled task (pre-cancel) with ID: " << task_id_pre_cancel << endl)
    cancelled ← call (cancels task_id_pre_cancel)
    main_after_cancel task_id_pre_cancel cancelled
