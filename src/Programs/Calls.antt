-- ===== src/Programs/Calls.antt =====
-- The statements that the example programs share.
use task_sched_x.Prelude.{
  ℕ, zero, suc, ◌+◌, ◌*◌, ◌/◌, true, ltb, if◌then◌else◌, List, [], ◌∷◌, ◌++◌, Bytes, codes,
}
use task_sched_x.Prelude.Int.{ℤ, pos, ◌+ℤ◌, scale}
use task_sched_x.Decimal.{decimal}
use task_sched_x.Task.{status_to_string, ns_per_second}
use task_sched_x.Logger.{info}
use task_sched_x.Scheduler.State.{Statistics}
use task_sched_x.Scheduler.Client.{TaskConfig, default_config}
use task_sched_x.Programs.{
  Deed, says, prints, sleeps, reads_clock, reads_usage, reads_leftover, constructs, sets_log_level,
  enables_console, queries, starts, stops, Runtime, Main, ◌>>=◌, ◌>>◌, pure, call,
}

infixl 4 ◌<<◌
-- One `operator<<` after another: the text that a statement prints.
abbrev pub ◌<<◌ : Bytes → Bytes → Bytes
◌<<◌ text more = text ++ more

abbrev pub endl : Bytes
endl = b'\n' ∷ []

abbrev pub cout : Bytes → Main (Unit {0})
cout text = call (prints text)

abbrev pub say : Bytes → Deed
say text = says (text << endl)

abbrev pub sleep_seconds : ℕ → Main (Unit {0})
sleep_seconds n = call (sleeps (1000 * n))

-- A time so many seconds, or milliseconds, after another.
abbrev pub in_seconds : ℕ → ℤ → ℤ
in_seconds n t = t +ℤ scale ns_per_second (pos n)

abbrev pub in_milliseconds : ℕ → ℤ → ℤ
in_milliseconds n t = t +ℤ scale 1_000_000 (pos n)

-- `TaskConfig config;`
unfoldable pub new_config : Main TaskConfig
new_config = do
  priority ← call reads_leftover
  now ← call reads_clock
  pure (default_config now priority)

-- The scheduler of a program, and its log on the console.
unfoldable pub create_scheduler : ℕ → Main (Unit {0})
create_scheduler workers = do
  call (constructs workers)
  cout (codes "✅ TaskScheduler created successfully" << endl)
  call (sets_log_level info)
  call (enables_console true)

unfoldable pub start_scheduler : Main (Unit {0})
start_scheduler = do
  call starts
  cout (codes "🏁 Scheduler started. Tasks will execute according to their schedule." << endl)

unfoldable pub stop_scheduler : Main (Unit {0})
stop_scheduler = do cout (codes "\n🏁 Stopping scheduler..." << endl); call stops

-- What all programs print at their end.
unfoldable pub official_statistics : Statistics → Main (Unit {0})
official_statistics final_stats = do
  cout (codes "\n=== Official Scheduler Statistics ===" << endl)
  cout (codes "Total tasks scheduled: " << decimal final_stats.total_tasks_scheduled << endl)
  cout (codes "Tasks completed: " << decimal final_stats.tasks_completed << endl)
  cout (codes "Tasks failed: " << decimal final_stats.tasks_failed << endl)
  cout (codes "Tasks cancelled: " << decimal final_stats.tasks_cancelled << endl)
  cout (codes "Tasks timed out: " << decimal final_stats.tasks_timeout << endl)

-- ... and some of them then.
unfoldable pub failure_rate : Runtime → Statistics → Main (Unit {0})
failure_rate rt final_stats =
    if ltb 0 final_stats.total_tasks_scheduled
    then cout (
        codes "Failure rate: "
        << rt.rate final_stats.tasks_failed final_stats.total_tasks_scheduled
        << codes "%"
        << endl)
    else pure tt

-- `Task::status_to_string(scheduler.getTaskStatus(id))`
unfoldable pub status_text : Bytes → Main Bytes
status_text id = do status ← call (queries id); pure (status_to_string status)

-- `getCpuTimeMs`
unfoldable pub get_cpu_time_ms : Main ℕ
get_cpu_time_ms = do
  usage ← call reads_usage
  let user = usage.user_seconds * 1000 + usage.user_microseconds / 1000
  let sys = usage.system_seconds * 1000 + usage.system_microseconds / 1000
  pure (user + sys)

-- `n` numbers from `first` on, as a `for` loop counts them.
abbrev pub up_from : ℕ → ℕ → List ℕ
up_from first zero = []
up_from first (suc n) = first ∷ up_from (first + 1) n

-- A `for` loop: the body for one element after another.
abbrev pub for_each : {A : Type 0} → List A → (A → Main (Unit {0})) → Main (Unit {0})
for_each [] body = pure tt
for_each (a ∷ as') body = do body a; for_each as' body
