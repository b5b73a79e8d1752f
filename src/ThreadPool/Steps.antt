-- ===== src/ThreadPool/Steps.antt =====
-- The atomic actions of the threads of a pool: `workerLoop`, `enqueueTask` and `stop`.
use task_sched_x.Prelude.{ℕ, ◌+◌, ◌<◌, ◌≡◌, ◌≢◌, true, false, List, [], ◌∷◌, ◌++◌, update}
use task_sched_x.Task.{Exception}
use task_sched_x.ThreadPool.{
  Pool, starting, ready, deciding, blocked, busy, exited, not_called, flagged, joining, new_pool,
  move_to, enqueue_task, take_job, notify_all, discard,
}

module _ {ℓ} {A : Type ℓ} where
  -- No thread holds `queueMutex`. Every other critical section is one step.
  abbrev pub Unlocked : ℕ → Pool A → Type ℓ
  Unlocked n p = (i : ℕ) → i < n → p.worker i ≢ deciding

  -- One step of a pool of `n` workers. A call of the pool by another thread may come at any time;
  -- `stop` is called once. Threads wake by a notification only: the standard permits spurious
  -- wake-ups and promises none.
  pub data Step (n : ℕ) (p : Pool A) : Pool A → Type ℓ where
    -- A new thread takes its number, for its name.
    start :
        (i : ℕ)
        → i < n
        → p.worker i ≡ starting
        → Step n p
            (record p { worker = update p.worker i ready; thread_counter = p.thread_counter + 1 })
    -- The predicate of `wait` holds, and `stopFlag` is not set: the first job is taken.
    take :
        (i : ℕ) (task : A) (rest : List A)
        → i < n
        → p.worker i ≡ ready
        → Unlocked n p
        → p.task_queue ≡ task ∷ rest
        → p.stop_flag ≡ false
        → Step n p (take_job i task rest p)
    -- `stopFlag` is set: the loop is left.
    leave :
        (i : ℕ)
        → i < n
        → p.worker i ≡ ready
        → Unlocked n p
        → p.stop_flag ≡ true
        → Step n p (move_to i exited p)
    -- The predicate is false.
    decide :
        (i : ℕ)
        → i < n
        → p.worker i ≡ ready
        → Unlocked n p
        → p.task_queue ≡ []
        → p.stop_flag ≡ false
        → Step n p (move_to i deciding p)
    -- `wait` releases the mutex and blocks, at once.
    block : (i : ℕ) → i < n → p.worker i ≡ deciding → Step n p (move_to i blocked p)
    -- The job returns, or throws: what it throws is caught and reported.
    finish : (i : ℕ) (task : A) → i < n → p.worker i ≡ busy task → Step n p (move_to i ready p)
    finish_throwing :
        (i : ℕ) (task : A) (e : Exception)
        → i < n
        → p.worker i ≡ busy task
        → Step n p (record p { worker = update p.worker i ready; reports = p.reports ++ e ∷ [] })
    -- `enqueueTask`: the job is queued, and later one blocked thread is notified, if there is one.
    enqueue : (task : A) → Unlocked n p → Step n p (enqueue_task task p)
    notify :
        (i k : ℕ)
        → i < n
        → p.owed ≡ k + 1
        → p.worker i ≡ blocked
        → Step n p (record p { worker = update p.worker i ready; owed = k })
    notify_nobody :
        (k : ℕ)
        → p.owed ≡ k + 1
        → ((i : ℕ) → i < n → p.worker i ≢ blocked)
        → Step n p (record p { owed = k })
    -- `stop`: the flag is set without the mutex, then all are notified, joined, and the queue is
    -- emptied.
    set_flag :
        p.stop_phase ≡ not_called → Step n p (record p { stop_flag = true; stop_phase = flagged })
    wake_all : p.stop_phase ≡ flagged → Step n p (notify_all p)
    empty_queue :
        p.stop_phase ≡ joining → ((i : ℕ) → i < n → p.worker i ≡ exited) → Step n p (discard p)

  -- Any number of steps.
  pub data Steps (n : ℕ) (p : Pool A) : Pool A → Type ℓ where
    here : Steps n p p
    next : {q r : Pool A} → Steps n p q → Step n q r → Steps n p r

  -- The states of a pool of `n` workers after its constructor.
  abbrev pub Reach : ℕ → Pool A → Type ℓ
  Reach n p = Steps n new_pool p
