-- ===== src/Programs/Lifecycle.antt =====
-- The order in which an example program may use its scheduler.
--
-- It is there between its constructor and the end of its scope, is started once, is given its tasks
-- before that and stopped before its end; nothing is cancelled after the stop, and nothing asked
-- before the start.
use task_sched_x.Prelude.{◌≡◌, Option, none, some}
use task_sched_x.Programs.{
  Command, prints, sleeps, reads_clock, reads_steady_clock, reads_usage, reads_leftover,
  reads_counter, constructs, sets_log_level, enables_console, sets_callback, schedules, cancels,
  queries, reads_statistics, starts, stops, destroys, Answer, Script, done, spent, calls,
}

pub data Phase : Type 0 where
  absent prepared running stopped : Phase

-- What a command makes of the phase, if it may be used there.
unfoldable pub next_phase : Phase → Command → Option Phase
next_phase absent (constructs n) = some prepared
next_phase prepared (sets_log_level level) = some prepared
next_phase prepared (enables_console enable) = some prepared
next_phase prepared (sets_callback callback) = some prepared
next_phase prepared (schedules c) = some prepared
next_phase prepared (cancels id) = some prepared
next_phase prepared starts = some running
next_phase running (cancels id) = some running
next_phase running (queries id) = some running
next_phase running reads_statistics = some running
next_phase running stops = some stopped
next_phase stopped (queries id) = some stopped
next_phase stopped reads_statistics = some stopped
next_phase stopped destroys = some absent
next_phase phase (prints text) = some phase
next_phase phase (sleeps n) = some phase
next_phase phase reads_clock = some phase
next_phase phase reads_steady_clock = some phase
next_phase phase reads_usage = some phase
next_phase phase reads_leftover = some phase
next_phase phase (reads_counter i) = some phase
next_phase phase c = none

unfoldable pub Obeys : Phase → Script → Type 0
unfolding next_phase
Obeys phase done = phase ≡ absent
Obeys phase spent = Unit {0}
Obeys phase (calls c k) = elim (next_phase phase c) [
  | none ↦ ⊥
  | some after ↦ (a : Answer c) → Obeys after (k a)
]
