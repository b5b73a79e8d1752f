-- ===== src/Scheduler/Threads/Steps.antt =====
-- The threads of a program that uses a scheduler, interleaved between any two of their atomic actions:
-- the workers of the pool, the scheduler's own thread, and the threads that call its methods.
use task_sched_x.Prelude.{
  ℕ, ◌+◌, ◌≤◌, ◌<◌, ◌≡◌, Bool, true, false, Option, none, some, List, [], ◌∷◌, Bytes, update, refl,
}
use task_sched_x.Prelude.Int.{ℤ}
use task_sched_x.Task.{Objects, size_mod}
use task_sched_x.Scheduler.State.{Scheduler, Callback, new_scheduler}
use task_sched_x.Scheduler.Client.{TaskConfig, get_task_status, set_task_completion_callback}
use task_sched_x.Scheduler.System
use task_sched_x.Scheduler.System.{
  remove, starts, stops, stops_pool, fetches, wakes, looks_up, dispatches,
}
use task_sched_x.Scheduler.Threads.{
  Program, ended, act, create, enqueue, execute_code, cancel_code, schedule_code, register,
  put_in_queue,
}

-- A thread carries the task that it has registered and not queued yet, or that it runs. In `shared`,
-- `executing` lists all tasks that are carried.
pub record Threads : Type 0 where
  pub shared : Scheduler
  pub program : ℕ → Program
  pub carried : ℕ → Option ℕ

-- The methods that any thread may call, also at one time with others.
pub data Request : Type 0 where
  schedules : TaskConfig → Request
  cancels : Bytes → Request
  queries : Bytes → Request
  sets_callback : Option Callback → Request

-- `getTaskStatus` is one action, since it holds its lock throughout.
unfoldable pub program_of : Request → Program
program_of (schedules c) = schedule_code c (λ _. ended) (λ _. ended)
program_of (cancels id) = cancel_code id (λ _. ended) (λ _. ended)
program_of (queries id) = act (λ s. (get_task_status id s).1) (λ _. ended)
program_of (sets_callback callback) = act (set_task_completion_callback callback) (λ _. ended)

-- The steps of the scheduler's own thread, and the calls that start and stop it.
abbrev pub of_loop : {s s' : Scheduler} → System.Step s s' → Bool
of_loop (starts ready) = true
of_loop stops = true
of_loop (stops_pool off idle) = true
of_loop (fetches now t at f) = true
of_loop (wakes now due t at f) = true
of_loop (looks_up r at) = true
of_loop (dispatches r at) = true
of_loop step = false

unfoldable pub taken : ℕ → ℕ → List ℕ → Program → Threads → Threads
taken i r rest p t = record {
  shared = record (t.shared) { pending = rest; executing = r ∷ t.shared.executing };
  program = update t.program i p;
  carried = update t.carried i (some r);
}

unfoldable pub moved : ℕ → (Scheduler → Scheduler) → (Scheduler → Program) → Threads → Threads
moved i f g t = record t { shared = f t.shared; program = update t.program i (g t.shared) }

unfoldable pub made : ℕ → TaskConfig → (ℕ → Program) → Threads → Threads
made i c k t =
    let r = t.shared.next_object in
    record {
      shared = record (register c t.shared) { executing = r ∷ t.shared.executing };
      program = update t.program i (k r);
      carried = update t.carried i (some r);
    }

unfoldable pub queued : ℕ → ℕ → Program → Threads → Threads
queued i r k t = record {
  shared = record (put_in_queue r t.shared) { executing = remove r t.shared.executing };
  program = update t.program i k;
  carried = update t.carried i none;
}

unfoldable pub laid_down : ℕ → ℕ → Threads → Threads
laid_down i r t = record t {
  shared = record (t.shared) { executing = remove r t.shared.executing };
  carried = update t.carried i none;
}

-- The state after the next action of a thread.
unfoldable pub advance : ℕ → Threads → Threads
advance i t = elim (t.program i) [
  | ended ↦ t
  | act f g ↦ moved i f g t
  | create c k ↦ made i c k t
  | enqueue r k ↦ queued i r k t
]

pub advance-act :
    (i : ℕ) (t : Threads) (f : Scheduler → Scheduler) (g : Scheduler → Program)
    → t.program i ≡ act f g
    → advance i t ≡ moved i f g t
unfolding advance
advance-act i t f g e = rw (e, advance) refl

pub advance-create :
    (i : ℕ) (t : Threads) (c : TaskConfig) (k : ℕ → Program)
    → t.program i ≡ create c k
    → advance i t ≡ made i c k t
unfolding advance
advance-create i t c k e = rw (e, advance) refl

pub advance-enqueue :
    (i : ℕ) (t : Threads) (r : ℕ) (k : Program)
    → t.program i ≡ enqueue r k
    → advance i t ≡ queued i r k t
unfolding advance
advance-enqueue i t r k e = rw (e, advance) refl

-- The threads with numbers below `workers` are those of the pool.
module _ (workers : ℕ) where
  pub data Step (t : Threads) : Threads → Type 0 where
    begins :
        (i : ℕ) (request : Request)
        → workers ≤ i
        → t.program i ≡ ended
        → t.carried i ≡ none
        → Step t (record t { program = update t.program i (program_of request) })
    -- A worker takes a job, which is the closure that `runSchedulerLoop` enqueued.
    takes :
        (i r : ℕ) (rest : List ℕ) (thread : Bytes) (moment : ℕ) (now : ℤ)
        → i < workers
        → t.program i ≡ ended
        → t.carried i ≡ none
        → t.shared.pending ≡ r ∷ rest
        → t.shared.pool_stopped ≡ false
        → Step t (taken i r rest (execute_code r thread moment now (λ _. ended) (λ _. ended)) t)
    -- The next action of a thread.
    moves :
        (i : ℕ) (f : Scheduler → Scheduler) (g : Scheduler → Program)
        → t.program i ≡ act f g
        → Step t (moved i f g t)
    -- Fewer than 2 ^ 64 tasks are made.
    makes :
        (i : ℕ) (c : TaskConfig) (k : ℕ → Program)
        → t.program i ≡ create c k
        → t.shared.next_id + 1 < size_mod
        → Step t (made i c k t)
    queues : (i r : ℕ) (k : Program) → t.program i ≡ enqueue r k → Step t (queued i r k t)
    -- A worker has run its job, or a caller's method has returned.
    lays_down : (i r : ℕ) → t.program i ≡ ended → t.carried i ≡ some r → Step t (laid_down i r t)
    own :
        (s : Scheduler) (step : System.Step t.shared s)
        → of_loop step ≡ true
        → Step t (record t { shared = s })
    -- The pool's workers have been joined.
    discards :
        t.shared.pool_stopped ≡ true
        → ((i : ℕ) → i < workers → t.program i ≡ ended)
        → Step t (record t { shared = record (t.shared) { pending = [] } })

  pub data Steps (t : Threads) : Threads → Type 0 where
    here : Steps t t
    next : {u v : Threads} → Steps t u → Step u v → Steps t v

  -- The states after the constructor.
  abbrev pub Reach : Objects → ℕ → Bytes → Threads → Type 0
  Reach objects next_id num_threads = Steps (record {
    shared = new_scheduler objects next_id num_threads;
    program = λ i. ended;
    carried = λ i. none;
  })
