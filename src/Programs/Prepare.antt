-- ===== src/Programs/Prepare.antt =====
-- What an example program does before it starts its scheduler.
--
-- Until then no other thread has anything to do with the scheduler: its own thread does not run and
-- the pool is given no job. So a command is a whole method, and the program is run by a function, up to
-- the first command that starts or ends threads.
use task_sched_x.Task.{Objects}
use task_sched_x.Prelude.{ℕ, ◌+◌, Option, none, some, [], ◌++◌, Bytes}
use task_sched_x.Prelude.Int.{ℤ}
use task_sched_x.Decimal.{decimal}
use task_sched_x.Scheduler.State.{Scheduler, Outcome, returns, throws, new_scheduler}
use task_sched_x.Scheduler.Client.{
  schedule_task, cancel_task, get_task_status, set_task_completion_callback, set_log_level,
  set_console_logging_enabled, get_statistics,
}
use task_sched_x.Programs.{
  Usage, Command, prints, sleeps, reads_clock, reads_steady_clock, reads_usage, reads_leftover,
  reads_counter, constructs, sets_log_level, enables_console, sets_callback, schedules, cancels,
  queries, reads_statistics, starts, stops, destroys, Answer, Script, done, spent, calls,
}

-- The readings that do not come from the scheduler, by the number of commands before.
pub record World : Type 0 where
  pub clock : ℕ → ℤ
  pub steady_clock : ℕ → ℕ
  pub usage : ℕ → Usage
  pub leftover : ℕ → ℤ
  pub counter : ℕ → ℕ → ℕ

-- An exception, which only a callback can throw there, ends the program.
abbrev pub unless_thrown : {A : Type 0} → Outcome A × Scheduler → Option (A × Scheduler)
unless_thrown (returns a, s) = some (a, s)
unless_thrown (throws e, s) = none

-- The answer to a command and the scheduler after it; none where threads start or end.
unfoldable pub answer : World → ℕ → (c : Command) → Scheduler → Option (Answer c × Scheduler)
answer w n (prints text) s = some (tt, s)
answer w n (sleeps ms) s = some (tt, s)
answer w n reads_clock s = some (w.clock n, s)
answer w n reads_steady_clock s = some (w.steady_clock n, s)
answer w n reads_usage s = some (w.usage n, s)
answer w n reads_leftover s = some (w.leftover n, s)
answer w n (reads_counter i) s = some (w.counter n i, s)
-- the counter of the identifiers is one for the whole program
answer w n (constructs workers) s = some (tt, new_scheduler s.objects s.next_id (decimal workers))
answer w n (sets_log_level level) s = some (tt, set_log_level level s)
answer w n (enables_console enable) s = some (tt, set_console_logging_enabled enable s)
answer w n (sets_callback callback) s = some (tt, set_task_completion_callback callback s)
answer w n (schedules c) s = some (schedule_task c s)
answer w n (cancels id) s = unless_thrown (cancel_task id s)
answer w n (queries id) s = some (get_task_status id s)
answer w n reads_statistics s = some (get_statistics s, s)
answer w n starts s = none
answer w n stops s = none
answer w n destroys s = none

abbrev pub printed_by : Command → Bytes
printed_by (prints text) = text
printed_by c = []

abbrev pub made_by : Command → ℕ
made_by (schedules c) = 1
made_by c = 0

-- Before there is a scheduler: `objects` is what memory holds, `next_id` the counter of all tasks.
abbrev pub unborn : Objects → ℕ → Scheduler
unborn objects next_id = new_scheduler objects next_id []

-- What is left of the program, its scheduler then, what it has printed and how many tasks it has made.
pub record Stage : Type 0 where
  pub rest : Script
  pub shared : Scheduler
  pub printed : Bytes
  pub made : ℕ

unfoldable pub prepare : World → ℕ → Script → Scheduler → Stage
unfolding answer
prepare w n done s = record { rest = done; shared = s; printed = []; made = 0 }
prepare w n spent s = record { rest = spent; shared = s; printed = []; made = 0 }
prepare w n (calls c k) s = elim (answer w n c s) [
  | none ↦ record { rest = calls c k; shared = s; printed = []; made = 0 }
  | some (a, s') ↦
      let later = prepare w (n + 1) (k a) s' in
      record later { printed = printed_by c ++ later.printed; made = made_by c + later.made }
]
