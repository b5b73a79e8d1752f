-- ===== src/Programs/CallbackMechanism.antt =====
-- examples/CallbackMechanism/CallbackMechanism.cpp: a callback that prints how each task ended.
use task_sched_x.Prelude.{false, none, some, List, [], ◌∷◌, Bytes, codes}
use task_sched_x.Prelude.Int.{pos}
use task_sched_x.Task.{status_to_string, Status}
use task_sched_x.Scheduler.State.{Callback}
use task_sched_x.Programs.{
  Deed, Runtime, reads_clock, sets_callback, schedules, reads_statistics, stops, destroys, Main,
  ◌>>=◌, ◌>>◌, call,
}
use task_sched_x.Programs.Deeds.{task}
use task_sched_x.Programs.Calls.{
  ◌<<◌, endl, cout, say, sleep_seconds, in_seconds, new_config, create_scheduler, start_scheduler,
  official_statistics,
}

abbrev pub task_deeds : List Deed
task_deeds = say (codes "Task 1 executed") ∷ []

-- What the callback prints; it throws nothing.
unfoldable pub callback_text : Bytes → Status → Bytes
callback_text task_id status =
    codes "[🛎\u{fe0f} CALLBACK 🛎\u{fe0f}] Task completion callback triggered!"
    << endl
    << codes "[🛎\u{fe0f} CALLBACK 🛎\u{fe0f}] Task "
    << task_id
    << codes " finished with status: "
    << status_to_string status
    << endl

unfoldable pub printing_callback : Callback
printing_callback calls_before task_id status = none

module _ (rt : Runtime) where
  unfoldable pub main : Main (Unit {0})
  main = do
    cout (codes "=== Task Completion Callback Mechanism Example ===" << endl)
    cout (codes "This example demonstrates how to use task completion callbacks:" << endl)
    cout (codes "1. Register a callback function to be notified when tasks complete" << endl)
    cout (codes "2. Receive task ID and completion status in the callback" << endl)
    cout (codes "3. Use callbacks for custom monitoring and logging" << endl)
    cout (codes "4. Handle different task completion statuses" << endl)
    cout (codes "\nThe callback will be triggered for each task that completes.\n" << endl)
    create_scheduler 4
    call (sets_callback (some printing_callback))
    cout (codes "\n🗓\u{fe0f} Callback registered. Now scheduling a task..." << endl)
    task_config ← new_config
    now1 ← call reads_clock
    task_id ← call (
        schedules (record task_config {
          task_fn = task rt task_deeds;
          start_time = in_seconds 1 now1;
          priority = pos 1;
          is_repeatable = false;
        }))
    cout (codes "\n🆗 Scheduled task with ID: " << task_id << endl)
    cout (codes "\n🗓\u{fe0f} Starting scheduler and waiting for task completion..." << endl)
    start_scheduler
    sleep_seconds 2
    cout (codes "🏁 Stopping scheduler..." << endl)
    call stops
    final_stats ← call reads_statistics
    official_statistics final_stats
    call destroys
