-- ===== src/Programs.antt =====
-- The example programs of examples/: what a `main` asks of the world, as a tree of commands.
--
-- A command is a statement that reaches outside of the thread that runs `main`: a print, a nap, a
-- reading of a clock or of a counter, a call of a method of the scheduler. What follows a command is
-- given its answer. The lambdas that the programs schedule are lists of deeds. Texts stand as the code
-- points of their literals.
pub mod Deeds
pub mod Calls
pub mod Lifecycle
pub mod Prepare
pub mod Before
pub mod Started
mod Examples
pub mod Cancelled
pub mod Fake
pub mod Counting
pub mod Asked
pub mod Waiting
pub mod Outcomes
pub mod Priorities
pub mod Ordered
pub mod PerformanceBenchmark
pub mod PriorityScheduling
pub mod TimeoutHandling
pub mod TaskCancellation
pub mod StatisticsMonitoring
pub mod RepeatableTasks
pub mod ProgressUpdates
pub mod ErrorHandling
pub mod CustomSchedulingPolicies
pub mod CallbackMechanism
pub mod BasicUsage
use task_sched_x.Prelude.{
  ℕ, zero, suc, ◌+◌, ◌*◌, Bool, true, Option, none, some, List, [], ◌∷◌, ◌++◌, Bytes, codes,
  if◌then◌else◌, ◌==◌,
}
use task_sched_x.Prelude.Int.{ℤ, pos, ◌+ℤ◌, scale}
use task_sched_x.Decimal.{decimal}
use task_sched_x.Task.{Status, Exception, std_exception, Call, TaskFn, ns_per_second}
use task_sched_x.Logger.{Level}
use task_sched_x.Scheduler.State.{Statistics, Callback}
use task_sched_x.Scheduler.Client.{TaskConfig, default_config}

-- What the lambdas do, one after another. `computes n` leaves nothing but the time that it takes.
pub data Deed : Type 0 where
  says : Bytes → Deed
  naps : ℕ → Deed  -- `sleep_for`, in milliseconds
  raises : Bytes → Deed  -- `throw std::runtime_error(text)`
  counts : ℕ → Deed  -- the increment of an atomic counter
  counts_aloud : ℕ → Bytes → Bytes → Deed  -- one that prints the new value between two texts
  computes : ℕ → Deed  -- a loop of so many rounds that changes a local variable

-- The four fields of a `struct rusage` that are read.
pub record Usage : Type 0 where
  pub user_seconds : ℕ
  pub user_microseconds : ℕ
  pub system_seconds : ℕ
  pub system_microseconds : ℕ

pub data Command : Type 0 where
  prints : Bytes → Command
  sleeps : ℕ → Command  -- `sleep_for`, in milliseconds
  reads_clock : Command  -- `system_clock::now()`
  reads_steady_clock : Command  -- `steady_clock::now()`, in nanoseconds; it never goes back
  reads_usage : Command  -- `getrusage(RUSAGE_SELF, ...)`
  reads_leftover : Command  -- what a field of type `int` holds that is not initialised
  reads_counter : ℕ → Command  -- the load of an atomic counter that lambdas increment
  constructs : ℕ → Command  -- `TaskScheduler scheduler(n)`
  sets_log_level : Level → Command
  enables_console : Bool → Command
  sets_callback : Option Callback → Command
  schedules : TaskConfig → Command
  cancels : Bytes → Command
  queries : Bytes → Command
  reads_statistics : Command
  starts : Command
  stops : Command
  destroys : Command  -- the end of the scheduler's scope

abbrev pub Answer : Command → Type 0
Answer reads_clock = ℤ
Answer reads_steady_clock = ℕ
Answer reads_usage = Usage
Answer reads_leftover = ℤ
Answer (reads_counter i) = ℕ
Answer (schedules c) = Bytes
Answer (cancels id) = Bool
Answer (queries id) = Status
Answer reads_statistics = Statistics
Answer c = Unit {0}

pub data Script : Type 0 where
  done : Script
  spent : Script  -- a bound on the rounds of a loop was too small
  calls : (c : Command) → (Answer c → Script) → Script

abbrev pub Main : Type 0 → Type 0
Main A = (A → Script) → Script

infixl 5 ◌>>=◌ ◌>>◌
abbrev pub ◌>>=◌ : {A B : Type 0} → Main A → (A → Main B) → Main B
◌>>=◌ m f k = m (λ a. f a k)

abbrev pub ◌>>◌ : {B : Type 0} → Main (Unit {0}) → Main B → Main B
◌>>◌ m n k = m (λ _. n k)

abbrev pub pure : {A : Type 0} → A → Main A
pure a k = k a

abbrev pub call : (c : Command) → Main (Answer c)
call c k = calls c k

abbrev pub script_of : Main (Unit {0}) → Script
script_of m = m (λ _. done)

-- What a program leaves to the standard library and the machine.
pub record Runtime : Type 0 where
  -- the nanoseconds that a call of the deeds takes beyond its naps, from one call to the next
  pub overhead : List Deed → ℕ → ℕ
  -- the text of `100.0 * part / whole` with one digit after the point
  pub rate : ℕ → ℕ → Bytes
  -- the text of `1000.0 * tasks / milliseconds` with two digits after the point
  pub throughput : ℕ → ℕ → Bytes
