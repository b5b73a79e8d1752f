-- ===== src/ThreadPool/Fifo.antt =====
-- The order in which jobs are started.
use task_sched_x.Prelude.{ℕ, ◌≡◌, ◌++◌}
use task_sched_x.ThreadPool.{Pool, not_called}
use task_sched_x.ThreadPool.Steps.{Reach}
use task_sched_x.ThreadPool.Invariant.{Reach-Inv}

-- Jobs are started in the order in which they were enqueued, each at most once, whatever the
-- number of workers and the interleaving: the enqueued jobs are those started, then those that
-- `stop` dropped, then those still queued. Until `stop` is called none is dropped.
pub started_in_order {ℓ} :
    {A : Type ℓ} {n : ℕ} {p : Pool A}
    → Reach n p
    → (p.enqueued ≡ p.started ++ (p.dropped ++ p.task_queue))
      × (p.stop_phase ≡ not_called → p.enqueued ≡ p.started ++ p.task_queue)
started_in_order {p} r =
    let v = Reach-Inv r in (v.accounted, λ h. rw (v.none_dropped (v.unflagged h)) at v.accounted)
