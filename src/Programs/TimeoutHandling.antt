-- ===== src/Programs/TimeoutHandling.antt =====
-- examples/TimeoutHandling/TimeoutHandling.cpp: a task that ends in time, one that does not, and one without a limit.
use task_sched_x.Prelude.{List, [], ◌∷◌, codes}
use task_sched_x.Prelude.Int.{pos}
use task_sched_x.Programs.{
  Deed, naps, Runtime, schedules, reads_statistics, destroys, Main, ◌>>=◌, ◌>>◌, call,
}
use task_sched_x.Programs.Deeds.{task}
use task_sched_x.Programs.Calls.{
  ◌<<◌, endl, cout, say, sleep_seconds, new_config, create_scheduler, start_scheduler,
  stop_scheduler, official_statistics,
}

abbrev pub quick_deeds : List Deed
quick_deeds =
    say (codes "✅ Quick task started") ∷ naps 500 ∷ say (codes "✅ Quick task completed") ∷ []

abbrev pub slow_deeds : List Deed
slow_deeds =
    say (codes "⏳ Slow task started")
    ∷ naps 4000
    ∷ say (codes "⛔ Slow task finished (but marked as TIMEOUT)")
    ∷ []

abbrev pub unlimited_deeds : List Deed
unlimited_deeds =
    say (codes "🔄 Unlimited task running")
    ∷ naps 1000
    ∷ say (codes "✅ Unlimited task completed")
    ∷ []

module _ (rt : Runtime) where
  unfoldable pub main : Main (Unit {0})
  main = do
    cout (
        codes "=== Simple Task Timeout Demo ===\n"
        << codes "This demo shows tasks that complete, timeout, or run without limits.\n"
        << endl)
    create_scheduler 3
    quick ← new_config
    task_id_quick ←
        call (schedules (record quick { task_fn = task rt quick_deeds; timeout = pos 3 }))
    cout (codes "🆗 Scheduled quick task with ID: " << task_id_quick << endl)
    slow ← new_config
    task_id_slow ← call (schedules (record slow { task_fn = task rt slow_deeds; timeout = pos 2 }))
    cout (codes "🆗 Scheduled slow task with ID: " << task_id_slow << endl)
    unlimited ← new_config
    task_id_unlimited ←
        call (schedules (record unlimited { task_fn = task rt unlimited_deeds; timeout = pos 0 }))
    cout (codes "🆗 Scheduled unlimited task with ID: " << task_id_unlimited << endl)
    start_scheduler
    sleep_seconds 6
    stop_scheduler
    final_stats ← call reads_statistics
    official_statistics final_stats
    call destroys
