-- ===== src/Scheduler/Whole/Sides.antt =====
-- Steps of one side, the pool or the threads, leave the two in agreement.
use task_sched_x.Prelude.{ℕ, ◌≡◌, refl, ◌∙◌, true}
use task_sched_x.ThreadPool.{Pool, ready, deciding, blocked, exited, notify_all}
use task_sched_x.ThreadPool.Steps.{
  Step as PoolStep, start, take, leave, decide, block, finish, finish_throwing, enqueue, notify,
  notify_nobody, set_flag, wake_all, empty_queue,
}
use task_sched_x.Scheduler.Threads.{enqueue, register}
use task_sched_x.Scheduler.Threads.Steps.{
  Threads, Step as ThreadStep, begins, takes, moves, makes, queues, lays_down, own, discards, moved,
  made, queued,
}
use task_sched_x.Scheduler.Threads.Exclusive.{Exclusive, moved-Neutral}
use task_sched_x.Scheduler.Whole.{Whole, pool_alone, thread_alone}
use task_sched_x.Scheduler.Whole.Refines.{
  Tied, own-SameJobs, goes_on-Resting, both-Resting, caller-Resting, moved-Resting, is_busy-woken,
}

pub pool-Tied :
    (n : ℕ) (w : Whole) (q : Pool ℕ) (step : PoolStep n w.pool q)
    → pool_alone step ≡ true
    → Tied n w
    → Tied n (record w { pool = q })
unfolding notify_all
pool-Tied n w q (start i lt e) alone h = record {
  jobs = h.jobs;
  flag = h.flag;
  resting = moved-Resting n i w.pool.worker _ _ ready (rw e refl) h.resting;
}
pool-Tied n w q (leave i lt e free run) alone h = record {
  jobs = h.jobs;
  flag = h.flag;
  resting = moved-Resting n i w.pool.worker _ _ exited (rw e refl) h.resting;
}
pool-Tied n w q (decide i lt e free queue run) alone h = record {
  jobs = h.jobs;
  flag = h.flag;
  resting = moved-Resting n i w.pool.worker _ _ deciding (rw e refl) h.resting;
}
pool-Tied n w q (block i lt e) alone h = record {
  jobs = h.jobs;
  flag = h.flag;
  resting = moved-Resting n i w.pool.worker _ _ blocked (rw e refl) h.resting;
}
pool-Tied n w q (notify i k lt owed e) alone h = record {
  jobs = h.jobs;
  flag = h.flag;
  resting = moved-Resting n i w.pool.worker _ _ ready (rw e refl) h.resting;
}
pool-Tied n w q (notify_nobody k owed e) alone h = record {
  jobs = h.jobs;
  flag = h.flag;
  resting = h.resting;
}
pool-Tied n w q (wake_all e) alone h = record {
  jobs = h.jobs;
  flag = h.flag;
  resting = λ j lt idle. h.resting j lt (rw (is_busy-woken (w.pool.worker j)) at idle);
}
pool-Tied n w q (take i task rest lt e free queue run) alone h = cc
pool-Tied n w q (finish i task lt e) alone h = cc
pool-Tied n w q (finish_throwing i task x lt e) alone h = cc
pool-Tied n w q (enqueue task free) alone h = cc
pool-Tied n w q (set_flag e) alone h = cc
pool-Tied n w q (empty_queue e all) alone h = cc

pub threads-Tied :
    (n : ℕ) (w : Whole) (t : Threads) (step : ThreadStep n w.threads t)
    → thread_alone step ≡ true
    → Exclusive w.threads
    → Tied n w
    → Tied n (record w { threads = t })
unfolding moved made queued register
threads-Tied n w t (begins i request out e c) alone v h = record {
  jobs = h.jobs;
  flag = h.flag;
  resting = caller-Resting n i w.pool.worker _ _ _ out h.resting;
}
threads-Tied n w t (moves i f g e) alone v h =
    let k = moved-Neutral w.threads i f g v e in
    record {
      jobs = k.pending ∙ h.jobs;
      flag = k.same_pool ∙ h.flag;
      resting = goes_on-Resting n i w.pool.worker _ _ _ (λ x. cc) h.resting;
    }
threads-Tied n w t (makes i c k e room) alone v h = record {
  jobs = h.jobs;
  flag = h.flag;
  resting = both-Resting n i w.pool.worker _ _ _ _ (λ x. cc) h.resting;
}
threads-Tied n w t (queues i r k e) alone v h = record {
  jobs = h.jobs;
  flag = h.flag;
  resting = both-Resting n i w.pool.worker _ _ _ _ (λ x. cc) h.resting;
}
threads-Tied n w t (own s step of_it) alone v h =
    let (same, flag) = own-SameJobs step alone in
    record { jobs = same ∙ h.jobs; flag = flag ∙ h.flag; resting = h.resting }
threads-Tied n w t (takes i r rest thread moment now lt e c p run) alone v h = cc
threads-Tied n w t (lays_down i r e c) alone v h = cc
threads-Tied n w t (discards off done) alone v h = cc
