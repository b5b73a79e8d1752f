-- ===== src/ThreadPool/Stop.antt =====
-- What `stop` promises: no job is started any more, and it returns after every worker has left.
use task_sched_x.Prelude.{ℕ, ◌<◌, ◌≡◌, refl, true, ◌++◌}
use task_sched_x.ThreadPool.{Pool, exited, stopped, enqueue_task, take_job, notify_all, discard}
use task_sched_x.ThreadPool.Steps.{Step, Steps, Reach, start, take, set_flag, here, next}
use task_sched_x.ThreadPool.Invariant.{Reach-Inv}

module _ {ℓ} {A : Type ℓ} where
  Step-flagged :
      {n : ℕ} {p q : Pool A}
      → Step n p q
      → p.stop_flag ≡ true
      → (q.stop_flag ≡ true) × (q.started ≡ p.started)
  unfolding enqueue_task take_job notify_all discard
  Step-flagged (start i lt e) h = (h, refl)
  Step-flagged (take i task rest lt e free q run) h = cc
  Step-flagged (set_flag e) h = (refl, refl)
  Step-flagged step h = (h, refl)

  -- Once the stop flag is set, it stays set and no queued job is ever started, however the threads
  -- go on and whatever is enqueued later.
  pub no_start_after_stop :
      {n : ℕ} {p q : Pool A}
      → p.stop_flag ≡ true
      → Steps n p q
      → (q.stop_flag ≡ true) × (q.started ≡ p.started)
  no_start_after_stop h here = (h, refl)
  no_start_after_stop h (next r step) =
      let (flag, same) = no_start_after_stop h r in
      let (flag', same') = Step-flagged step flag in (flag', cc)

  -- When `stop` has returned, every worker thread has left its loop, and the jobs that were never
  -- started are the dropped ones and those enqueued since.
  pub stopped_workers :
      {n : ℕ} {p : Pool A}
      → Reach n p
      → p.stop_phase ≡ stopped
      → ((i : ℕ) → i < n → p.worker i ≡ exited)
        × (p.enqueued ≡ p.started ++ (p.dropped ++ p.task_queue))
  stopped_workers r h = let v = Reach-Inv r in (v.all_left h, v.accounted)
