-- ===== src/Task.antt =====
-- include/Task.h and src/Task.cpp: a task, its identifier, its order and its status.
--
-- A `std::function<void()>` is `none` when it is empty. A callable is what a call of it does at a
-- given moment: how it ends and how long it takes. Times are nanoseconds, intervals seconds; the
-- signed overflow of `int` and of the clock's 64-bit counter, undefined in C++, is left out.
pub mod Order
pub mod Id
mod Examples
use task_sched_x.Prelude.{
  ℕ, ◌+◌, ◌%◌, ◌^◌, ◌≡◌, refl, Bool, true, false, not, Option, none, some, ◌++◌, if◌then◌else◌,
  Bytes, codes, update, ◌==◌,
}
use task_sched_x.Prelude.Int.{ℤ, pos, lt_int, eq_int, ◌+ℤ◌, scale}
use task_sched_x.Decimal.{decimal, zero_pad}

-- `Task::Status`
pub data Status : Type 0 where
  pending running completed failed cancelled timeout : Status

-- What a call may throw: a `std::exception` with its `what()`, or anything else.
pub data Exception : Type 0 where
  std_exception : Bytes → Exception
  other_exception : Exception

-- One call of a task's function: its exception, if any, and its length in nanoseconds.
pub record Call : Type 0 where
  pub thrown : Option Exception
  pub elapsed : ℕ

abbrev pub TaskFn : Type 0
TaskFn = Option (ℕ → Call)

pub record Task : Type 0 where
  pub task_fn : TaskFn
  pub start_time : ℤ
  pub priority : ℤ
  pub status : Status
  pub is_repeatable : Bool
  pub repeat_every : ℤ
  pub timeout : ℤ
  pub task_id : Bytes

-- `size_t` wraps at 2 ^ 64.
abbrev pub size_mod : ℕ
size_mod = 2 ^ 64

abbrev pub ns_per_second : ℕ
ns_per_second = 1_000_000_000

-- The text of an identifier: "task_" and the number, padded to six digits.
unfoldable pub format_id : ℕ → Bytes
format_id id = codes "task_" ++ zero_pad 6 (decimal id)

-- `Task::generateTaskId`: the identifier, and the counter after `fetch_add(1)`.
unfoldable pub generate_task_id : ℕ → Bytes × ℕ
generate_task_id next_id = (format_id next_id, (next_id + 1) % size_mod)

-- The constructor. It draws the identifier from the counter `nextId`.
unfoldable pub new_task : ℕ → TaskFn → ℤ → ℤ → Bool → ℤ → ℤ → Task × ℕ
unfolding generate_task_id
new_task next_id func start_time priority is_repeatable repeat_every max_exec_time = (
  record {
    task_fn = func;
    start_time = start_time;
    priority = priority;
    status = pending;
    is_repeatable = is_repeatable;
    repeat_every = repeat_every;
    timeout = max_exec_time;
    task_id = (generate_task_id next_id).0;
  },
  (generate_task_id next_id).1,
)

-- The copy constructor, field by field; the status is loaded from the source.
unfoldable pub copy_construct : Task → Task
copy_construct other = record {
  task_fn = other.task_fn;
  start_time = other.start_time;
  priority = other.priority;
  status = other.status;
  is_repeatable = other.is_repeatable;
  repeat_every = other.repeat_every;
  timeout = other.timeout;
  task_id = other.task_id;
}

-- The move constructor. What is left in the source is the function and the text of `husk`: the
-- standard leaves them unspecified.
unfoldable pub move_construct : Task → Task → Task × Task
unfolding copy_construct
move_construct husk other =
    (copy_construct other, record other { task_fn = husk.task_fn; task_id = husk.task_id })

-- The objects of a program by their addresses.
abbrev pub Objects : Type 0
Objects = ℕ → Task

-- `*self = *other`, with the check of self-assignment.
unfoldable pub copy_assign : Objects → ℕ → ℕ → Objects
unfolding copy_construct
copy_assign objects self other =
    if self == other then objects else update objects self (copy_construct (objects other))

-- `*self = std::move(*other)`
unfoldable pub move_assign : Task → Objects → ℕ → ℕ → Objects
unfolding move_construct
move_assign husk objects self other =
    if self == other
    then objects
    else update (update objects self (move_construct husk (objects other)).0) other
        (move_construct husk (objects other)).1

-- `Task::execute`: an empty function throws `std::bad_function_call`.
unfoldable pub execute : Task → ℕ → Call
execute t moment = elim t.task_fn [
  | none ↦ record { thrown = some (std_exception (codes "bad_function_call")); elapsed = 0 }
  | some f ↦ f moment
]

-- `Task::reschedule(newTime)`
unfoldable pub reschedule_at : ℤ → Task → Task
reschedule_at new_time t = record t { start_time = new_time }

-- `Task::reschedule()`, with the reading `now` of the system clock.
unfoldable pub reschedule : ℤ → Task → Task
reschedule now t = record t { start_time = now +ℤ scale ns_per_second t.repeat_every }

unfoldable pub set_status : Status → Task → Task
set_status new_status t = record t { status = new_status }

-- `Task::operator>`: the later task of the two, by priority and then by start time.
unfoldable pub runs_after : Task → Task → Bool
runs_after a b =
    if not (eq_int a.priority b.priority)
    then lt_int b.priority a.priority
    else lt_int b.start_time a.start_time

-- `Task::status_to_string`; every value of the enumeration has its own case.
unfoldable pub status_to_string : Status → Bytes
status_to_string pending = codes "PENDING"
status_to_string running = codes "RUNNING"
status_to_string completed = codes "COMPLETED"
status_to_string failed = codes "FAILED"
status_to_string cancelled = codes "CANCELLED"
status_to_string Status.timeout = codes "TIMEOUT"

-- `operator<<` of a status: the stream is the text written so far.
unfoldable pub print_status : Bytes → Status → Bytes
unfolding status_to_string
print_status os status = os ++ status_to_string status
