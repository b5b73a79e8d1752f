-- ===== src/Scheduler/Whole/Kept.antt =====
-- A step of the whole is one of the threads, or one of the pool, or one of both at once.
use task_sched_x.Scheduler.Whole.Sides.{pool-Tied, threads-Tied}
use task_sched_x.ThreadPool.Invariant.{Inv, Reach-Inv}
use task_sched_x.Prelude.{
  ℕ, ◌<◌, ◌≡◌, refl, sym, ap, ◌∙◌, ◌⊎◌, inl, inr, true, none, List, [], ◌∷◌, ◌++◌, Bytes, update,
  Bool-cases, Option-cases, subst,
}
use task_sched_x.Task.{Objects}
use task_sched_x.ThreadPool.{Pool, ready, stopped, new_pool, enqueue_task, take_job, discard}
use task_sched_x.ThreadPool.Steps.{
  Step as PoolStep, Steps as PoolSteps, take, finish, finish_throwing, enqueue, set_flag,
  empty_queue, Reach as PoolReach,
}
use task_sched_x.ThreadPool.Stop.{stopped_workers}
use task_sched_x.Scheduler.State.{new_scheduler}
use task_sched_x.Scheduler.Loop.{dispatch}
use task_sched_x.Scheduler.System
use task_sched_x.Scheduler.System.{
  Idle, schedule, cancel, query, set_callback, starts, stops, fetches, wakes, looks_up, dispatches,
  executes,
}
use task_sched_x.Scheduler.Threads.{ended, enqueue}
use task_sched_x.Scheduler.Threads.Steps.{
  Threads, Step as ThreadStep, Steps as ThreadSteps, takes, lays_down, own, discards, taken, moved,
  laid_down, Reach as ThreadReach,
}
use task_sched_x.Scheduler.Threads.Exclusive.{Exclusive}
use task_sched_x.Scheduler.Threads.Exclusive.Kept.{Reach-Exclusive}
use task_sched_x.Scheduler.Whole.{
  Whole, job_done, Step, Reach, in_pool, in_threads, takes_job, ends_job, ends_throwing,
  dispatches_job, stops_pool, drops_jobs, here, next,
}
use task_sched_x.Scheduler.Whole.Refines.{Tied, Follows, busy-Resting, done-Resting, idle-Resting}

-- The end of a job: the task is laid down, if it was not queued again.
job_done-Follows :
    (n i : ℕ) (t : Threads)
    → t.program i ≡ ended
    → ThreadStep n t (job_done i t) ⊎ (job_done i t ≡ t)
unfolding job_done
job_done-Follows n i t e = elim (Option-cases (t.carried i)) [
  | inl none_left ↦ rw (none_left, job_done) (inr refl)
  | inr (r, c) ↦ rw (c, job_done) (inl (lays_down i r e c))
]

job_done-Tied :
    (n i : ℕ) (w : Whole) (q : Pool ℕ)
    → w.threads.program i ≡ ended
    → q.worker ≡ update w.pool.worker i ready
    → q.task_queue ≡ w.pool.task_queue
    → q.stop_flag ≡ w.pool.stop_flag
    → Tied n w
    → Tied n (record { threads = job_done i w.threads; pool = q })
unfolding job_done laid_down
job_done-Tied n i w q e moved same flag h = elim (Option-cases (w.threads.carried i)) [
  | inl none_left ↦
      rw (none_left, job_done)
        (record {
          jobs = h.jobs ∙ sym same;
          flag = h.flag ∙ sym flag;
          resting = rw moved (idle-Resting n i w.pool.worker _ _ e none_left h.resting);
        })
  | inr (r, c) ↦
      rw (c, job_done)
        (record {
          jobs = h.jobs ∙ sym same;
          flag = h.flag ∙ sym flag;
          resting = rw moved (done-Resting n i w.pool.worker _ _ e h.resting);
        })
]

module _ (n : ℕ) (w : Whole) (v : Exclusive w.threads) (inv : Inv n w.pool) (h : Tied n w) where
  Step-Follows : {u : Whole} → Step n w u → Tied n u × Follows n w u
  unfolding taken take_job enqueue_task dispatch discard
  Step-Follows (in_pool q step alone) = (pool-Tied n w q step alone h, (inr refl, inl step))
  Step-Follows (in_threads t step alone) = (threads-Tied n w t step alone v h, (inl step, inr refl))
  Step-Follows (takes_job i task rest thread moment now lt e free queue run) =
      let (done, empty_handed) = h.resting i lt (rw e refl) in
      (
        record {
          jobs = refl;
          flag = h.flag;
          resting = busy-Resting n i w.pool.worker _ _ task _ _ h.resting;
        },
        (
          inl (
              takes i task rest thread moment now lt done empty_handed (h.jobs ∙ queue)
                (h.flag ∙ run)),
          inl (take i task rest lt e free queue run),
        ),
      )
  Step-Follows (ends_job i task lt e done) = (
    job_done-Tied n i w _ done refl refl refl h,
    (job_done-Follows n i w.threads done, inl (finish i task lt e)),
  )
  Step-Follows (ends_throwing i task x lt e done) = (
    job_done-Tied n i w _ done refl refl refl h,
    (job_done-Follows n i w.threads done, inl (finish_throwing i task x lt e)),
  )
  Step-Follows (dispatches_job r at free) = (
    record { jobs = ap (λ (l : List ℕ). l ++ r ∷ []) h.jobs; flag = h.flag; resting = h.resting },
    (inl (own _ (dispatches r at) refl), inl (enqueue r free)),
  )
  Step-Follows (stops_pool off idle phase) = (
    record { jobs = h.jobs; flag = refl; resting = h.resting },
    (inl (own _ (System.stops_pool off idle) refl), inl (set_flag phase)),
  )
  Step-Follows (drops_jobs phase all) = (
    record { jobs = refl; flag = h.flag; resting = h.resting },
    (
      inl (discards stop_set (λ i lt. (h.resting i lt (rw (all i lt) refl)).0)),
      inl (empty_queue phase all),
    ),
  )
    where
      stop_set : w.threads.shared.pool_stopped ≡ true
      stop_set = elim (Bool-cases w.pool.stop_flag) [ inl e ↦ h.flag ∙ e | inr e ↦ cc (inv.flag e) ]

-- What is known of a state that the whole reaches.
pub record Agrees (n : ℕ) (objects : Objects) (next_id : ℕ) (num_threads : Bytes) (w : Whole)
    : Type 0 where
  pub by_threads : ThreadReach n objects next_id num_threads w.threads
  pub by_pool : PoolReach n w.pool
  pub tied : Tied n w

module _ (n : ℕ) (objects : Objects) (next_id : ℕ) (num_threads : Bytes) where
  threads_go :
      {t u : Threads}
      → ThreadReach n objects next_id num_threads t
      → ThreadStep n t u ⊎ (u ≡ t)
      → ThreadReach n objects next_id num_threads u
  threads_go r (inl step) = ThreadSteps.next r step
  threads_go r (inr same) = subst (ThreadReach n objects next_id num_threads) (sym same) r

  pool_goes : {p q : Pool ℕ} → PoolReach n p → PoolStep n p q ⊎ (q ≡ p) → PoolReach n q
  pool_goes r (inl step) = PoolSteps.next r step
  pool_goes r (inr same) = subst (PoolReach n) (sym same) r

  -- The scheduler and its pool together, where the pool's own guards say when a worker takes a job and
  -- which, do nothing that the scheduler's threads with two lists of jobs do not do, and nothing that
  -- the pool does not do alone: each state that they reach consists of a state that the threads
  -- reach and one that the pool reaches. In both, the same jobs wait in the same order, and the pool
  -- is stopped in both or in neither; a worker that runs no job has no program and carries no task.
  pub whole-Agrees :
      {w : Whole} → Reach n objects next_id num_threads w → Agrees n objects next_id num_threads w
  unfolding new_scheduler new_pool
  whole-Agrees here = record {
    by_threads = ThreadSteps.here;
    by_pool = PoolSteps.here;
    tied = record { jobs = refl; flag = refl; resting = λ i lt idle. (refl, refl) };
  }
  whole-Agrees (next {u} r step) =
      let a = whole-Agrees r in
      let v = Reach-Exclusive n objects next_id num_threads a.by_threads in
      let (tied, (threads, pool)) = Step-Follows n u v (Reach-Inv a.by_pool) a.tied step in
      record {
        by_threads = threads_go a.by_threads threads;
        by_pool = pool_goes a.by_pool pool;
        tied = tied;
      }

  -- When `ThreadPool::stop` has returned to `TaskScheduler::stop`, no worker runs a task, or any part
  -- of `executeAndFinalizeTask`, and none carries one.
  pub stopped_whole :
      {w : Whole} (i : ℕ)
      → Reach n objects next_id num_threads w
      → w.pool.stop_phase ≡ stopped
      → i < n
      → (w.threads.program i ≡ ended) × (w.threads.carried i ≡ none)
  stopped_whole {w} i r phase lt =
      let a = whole-Agrees r in
      let (left, accounted) = stopped_workers a.by_pool phase in
      a.tied.resting i lt (rw (left i lt) refl)
