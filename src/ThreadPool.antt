-- ===== src/ThreadPool.antt =====
-- include/ThreadPool.h and src/ThreadPool.cpp: worker threads over one queue of jobs.
--
-- The pool is a value, its threads are numbered, and one atomic action of one thread is one step
-- (`Steps`). A job is any value: what running it does is the caller's affair. The fields `enqueued`,
-- `started` and `dropped` are records of what happened, and no step reads them.
pub mod Steps
pub mod Invariant
pub mod Fifo
pub mod Jobs
pub mod Stop
pub mod Wakeup
pub mod Shutdown
pub mod Names
mod Examples
use task_sched_x.Prelude.{
  ℕ, zero, suc, ◌+◌, ◌≡◌, refl, Bool, true, false, Option, none, some, List, [], ◌∷◌, ◌++◌, Bytes,
  update, ◌==◌, if◌then◌else◌,
}
use task_sched_x.Decimal.{decimal}
use task_sched_x.Task.{Exception}

-- Where a worker thread stands.
pub data Worker {ℓ} (A : Type ℓ) : Type ℓ where
  starting : Worker A  -- before it has taken its number
  ready : Worker A  -- about to lock `queueMutex` and to test the predicate of `wait`
  deciding : Worker A  -- holds the mutex, the predicate was false, and it is about to block
  blocked : Worker A  -- blocked on `workReadyCv`
  busy : A → Worker A  -- runs the job
  exited : Worker A  -- has left `workerLoop`

-- How far the call of `stop` has come.
pub data StopPhase : Type 0 where
  not_called : StopPhase
  flagged : StopPhase  -- `stopFlag` is set
  joining : StopPhase  -- all blocked threads were notified; the workers are being joined
  stopped : StopPhase  -- the pending jobs are discarded

pub record Pool {ℓ} (A : Type ℓ) : Type ℓ where
  pub worker : ℕ → Worker A
  pub task_queue : List A
  pub stop_flag : Bool
  pub stop_phase : StopPhase
  pub thread_counter : ℕ
  -- calls of `enqueueTask` that have queued their job and not yet notified a thread
  pub owed : ℕ
  -- what the workers wrote to `std::cerr`
  pub reports : List Exception
  pub enqueued : List A
  pub started : List A
  pub dropped : List A

-- The first 15 characters, `substr(0, 15)`.
abbrev pub take : ℕ → Bytes → Bytes
take zero s = []
take (suc n) [] = []
take (suc n) (c ∷ s) = c ∷ take n s

-- The name of a worker thread on Linux.
unfoldable pub thread_name : Bytes → ℕ → Bytes
thread_name prefix index = take 15 (prefix ++ (b'-' ∷ decimal (index + 1)))

module _ {ℓ} {A : Type ℓ} where
  -- The constructor: every worker is about to start.
  unfoldable pub new_pool : Pool A
  new_pool = record {
    worker = λ _. starting;
    task_queue = [];
    stop_flag = false;
    stop_phase = not_called;
    thread_counter = 0;
    owed = 0;
    reports = [];
    enqueued = [];
    started = [];
    dropped = [];
  }

  abbrev pub move_to : ℕ → Worker A → Pool A → Pool A
  move_to i w p = record p { worker = update p.worker i w }

  -- `enqueueTask` under its lock; the notification is still owed.
  unfoldable pub enqueue_task : A → Pool A → Pool A
  enqueue_task task p = record p {
    task_queue = p.task_queue ++ task ∷ [];
    owed = p.owed + 1;
    enqueued = p.enqueued ++ task ∷ [];
  }

  -- A worker that found a job: `front` and `pop`.
  unfoldable pub take_job : ℕ → A → List A → Pool A → Pool A
  take_job i task rest p = record p {
    worker = update p.worker i (busy task);
    task_queue = rest;
    started = p.started ++ task ∷ [];
  }

  -- `notify_all` of `stop`.
  abbrev pub woken : Worker A → Worker A
  woken blocked = ready
  woken w = w

  unfoldable pub notify_all : Pool A → Pool A
  notify_all p = record p { worker = λ i. woken (p.worker i); stop_phase = joining }

  -- The end of `stop`: the pending jobs are popped one by one.
  unfoldable pub discard : Pool A → Pool A
  discard p = record p {
    task_queue = [];
    stop_phase = stopped;
    dropped = p.dropped ++ p.task_queue;
  }
