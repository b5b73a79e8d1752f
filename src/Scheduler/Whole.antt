-- ===== src/Scheduler/Whole.antt =====
-- The scheduler together with its thread pool: the threads of `Threads.Steps` and the pool of
-- `ThreadPool`, whose workers are the first of these threads.
pub mod Refines
pub mod Sides
pub mod Kept
mod Examples
use task_sched_x.Prelude.{
  ℕ, ◌≤◌, ◌<◌, ◌≡◌, Bool, true, false, Option, none, some, List, [], ◌∷◌, ◌++◌, Bytes, update,
}
use task_sched_x.Prelude.Int.{ℤ}
use task_sched_x.Task.{Objects, Exception}
use task_sched_x.ThreadPool.{
  Pool, ready, busy, exited, not_called, flagged, joining, new_pool, move_to, enqueue_task,
  take_job, discard,
}
use task_sched_x.ThreadPool.Steps.{
  Unlocked, Step as PoolStep, start, leave, decide, block, notify, notify_nobody, wake_all,
}
use task_sched_x.Scheduler.State.{Scheduler, checked, new_scheduler}
use task_sched_x.Scheduler.Loop.{dispatch}
use task_sched_x.Scheduler.System
use task_sched_x.Scheduler.System.{Idle, starts, stops, fetches, wakes, looks_up}
use task_sched_x.Scheduler.Threads.{ended, execute_code}
use task_sched_x.Scheduler.Threads.Steps.{
  Threads, Step as ThreadStep, begins, moves, makes, queues, own, taken, laid_down,
}

pub record Whole : Type 0 where
  pub threads : Threads
  pub pool : Pool ℕ

-- The steps of the pool that the scheduler takes no part in.
abbrev pub pool_alone : {n : ℕ} {p q : Pool ℕ} → PoolStep n p q → Bool
pool_alone (start i lt e) = true
pool_alone (leave i lt e free run) = true
pool_alone (decide i lt e free q run) = true
pool_alone (block i lt e) = true
pool_alone (notify i k lt owed e) = true
pool_alone (notify_nobody k owed e) = true
pool_alone (wake_all e) = true
pool_alone step = false

-- The steps of the scheduler that the pool takes no part in.
abbrev pub loop_alone : {s s' : Scheduler} → System.Step s s' → Bool
loop_alone (starts idle) = true
loop_alone stops = true
loop_alone (fetches now t at f) = true
loop_alone (wakes now due t at f) = true
loop_alone (looks_up r at) = true
loop_alone step = false

abbrev pub thread_alone : {n : ℕ} {t u : Threads} → ThreadStep n t u → Bool
thread_alone (begins i request out e c) = true
thread_alone (moves i f g e) = true
thread_alone (makes i c k e room) = true
thread_alone (queues i r k e) = true
thread_alone (own s step of_it) = loop_alone step
thread_alone step = false

-- A worker has come to the end of `executeAndFinalizeTask`.
unfoldable pub job_done : ℕ → Threads → Threads
job_done i t = elim (t.carried i) [ some r ↦ laid_down i r t | none ↦ t ]

pub data Step (n : ℕ) (w : Whole) : Whole → Type 0 where
  in_pool :
      (q : Pool ℕ) (step : PoolStep n w.pool q)
      → pool_alone step ≡ true
      → Step n w (record w { pool = q })
  in_threads :
      (t : Threads) (step : ThreadStep n w.threads t)
      → thread_alone step ≡ true
      → Step n w (record w { threads = t })
  -- The pool's own guards say whether a worker takes a job, and which.
  takes_job :
      (i task : ℕ) (rest : List ℕ) (thread : Bytes) (moment : ℕ) (now : ℤ)
      → i < n
      → w.pool.worker i ≡ ready
      → Unlocked n w.pool
      → w.pool.task_queue ≡ task ∷ rest
      → w.pool.stop_flag ≡ false
      → Step n w (record {
        threads =
            taken i task rest
              (execute_code task thread moment now (λ _. ended) (λ _. ended))
              w.threads;
        pool = take_job i task rest w.pool;
      })
  -- The job returns.
  ends_job :
      (i task : ℕ)
      → i < n
      → w.pool.worker i ≡ busy task
      → w.threads.program i ≡ ended
      → Step n w (record { threads = job_done i w.threads; pool = move_to i ready w.pool })
  -- It throws, where a handler of `executeAndFinalizeTask` has: the pool reports that.
  ends_throwing :
      (i task : ℕ) (e : Exception)
      → i < n
      → w.pool.worker i ≡ busy task
      → w.threads.program i ≡ ended
      → Step n w (record {
        threads = job_done i w.threads;
        pool = record (w.pool) {
          worker = update w.pool.worker i ready;
          reports = w.pool.reports ++ e ∷ [];
        };
      })
  -- The scheduler's thread calls `enqueueTask` with the task that it has tested.
  dispatches_job :
      (r : ℕ)
      → w.threads.shared.loop ≡ checked r
      → Unlocked n w.pool
      → Step n w (record {
        threads = record (w.threads) { shared = dispatch r w.threads.shared };
        pool = enqueue_task r w.pool;
      })
  -- `TaskScheduler::stop` has joined the scheduler's thread, and calls `ThreadPool::stop`.
  stops_pool :
      w.threads.shared.is_running ≡ false
      → Idle w.threads.shared.loop
      → w.pool.stop_phase ≡ not_called
      → Step n w (record {
        threads = record (w.threads) { shared = record (w.threads.shared) { pool_stopped = true } };
        pool = record (w.pool) { stop_flag = true; stop_phase = flagged };
      })
  -- `ThreadPool::stop` has joined the workers, and drops the jobs that are left.
  drops_jobs :
      w.pool.stop_phase ≡ joining
      → ((i : ℕ) → i < n → w.pool.worker i ≡ exited)
      → Step n w (record {
        threads = record (w.threads) { shared = record (w.threads.shared) { pending = [] } };
        pool = discard w.pool;
      })

pub data Steps (n : ℕ) (w : Whole) : Whole → Type 0 where
  here : Steps n w w
  next : {u v : Whole} → Steps n w u → Step n u v → Steps n w v

-- The states after the constructor of `TaskScheduler`, which makes the pool.
abbrev pub Reach : ℕ → Objects → ℕ → Bytes → Whole → Type 0
Reach n objects next_id num_threads = Steps n (record {
  threads = record {
    shared = new_scheduler objects next_id num_threads;
    program = λ i. ended;
    carried = λ i. none;
  };
  pool = new_pool;
})
