-- ===== src/ThreadPool/Examples.antt =====
-- Tests of the thread pool, and its theorems at concrete runs.
use task_sched_x.ThreadPool.Shutdown.{shutdown, worker_steps, of_worker}
use task_sched_x.ThreadPool.Jobs.{Action, view, Step-Action}
use task_sched_x.Prelude.{
  ℕ, ◌<◌, ◌≡◌, refl, true, [], ◌∷◌, ◌++◌, arith, codes, length, ◌≤◌, ◌*◌, ◌⊎◌,
}
use task_sched_x.Decimal.{decimal}
use task_sched_x.ThreadPool.{
  Pool, ready, deciding, blocked, exited, not_called, flagged, joining, new_pool, move_to,
  enqueue_task, take_job, notify_all, discard, thread_name, stopped,
}
use task_sched_x.ThreadPool.Steps.{
  Steps, Reach, Unlocked, start, take, leave, decide, enqueue, set_flag, here, next, Step,
}
use task_sched_x.ThreadPool.Names.{default_prefix}
use task_sched_x.ThreadPool.Fifo.{started_in_order}
use task_sched_x.ThreadPool.Wakeup.{stop_may_hang, queued_job-Attended, Attended, hung}

name_3 : thread_name default_prefix 2 ≡ codes "Thread-3"
unfolding thread_name decimal
name_3 = refl

-- One worker starts and finds two jobs.
abbrev two_jobs : Pool ℕ
two_jobs = enqueue_task 8 (enqueue_task 7 new_pool)

abbrev started_worker : Pool ℕ
started_worker = record (move_to 0 ready two_jobs) { thread_counter = 1 }

abbrev first_taken : Pool ℕ
first_taken = take_job 0 7 (8 ∷ []) started_worker

nobody_decides : Unlocked 1 two_jobs
unfolding enqueue_task new_pool
nobody_decides i lt h = cc

two_jobs-Reach : Reach 1 two_jobs
unfolding enqueue_task new_pool
two_jobs-Reach = next (next here (enqueue 7 (λ i lt h. cc))) (enqueue 8 (λ i lt h. cc))

started_worker-Reach : Reach 1 started_worker
unfolding enqueue_task new_pool
started_worker-Reach = next two_jobs-Reach (start 0 (omega arith) refl)

first_taken-Reach : Reach 1 first_taken
unfolding enqueue_task new_pool
first_taken-Reach =
    next started_worker-Reach
      (take 0 7 (8 ∷ []) (omega arith) refl (λ i lt h. ground arith) refl refl)

started_in_order_example :
    (first_taken.enqueued ≡ first_taken.started ++ (first_taken.dropped ++ first_taken.task_queue))
    × (first_taken.stop_phase ≡ not_called
        → first_taken.enqueued ≡ first_taken.started ++ first_taken.task_queue)
started_in_order_example = started_in_order first_taken-Reach

queued_job-Attended_example : Attended 1 first_taken
unfolding take_job enqueue_task new_pool
queued_job-Attended_example = queued_job-Attended (omega arith) first_taken-Reach refl (λ h. cc)

abbrev idle_worker : Pool ℕ
idle_worker = record (move_to 0 ready new_pool) { thread_counter = 1 }

abbrev deciding_worker : Pool ℕ
deciding_worker = move_to 0 deciding idle_worker

stop_may_hang_example :
    Steps 1 deciding_worker (hung 0 deciding_worker)
    × ((q : Pool ℕ)
        → Steps 1 (hung 0 deciding_worker) q
        → length q.enqueued ≡ length deciding_worker.enqueued
        → (q.worker 0 ≡ blocked) × (q.stop_phase ≡ joining))
unfolding new_pool
stop_may_hang_example = stop_may_hang 0 (omega arith) refl refl refl

-- That state is reached by the worker alone.
deciding_worker-Reach : Reach 1 deciding_worker
unfolding new_pool
deciding_worker-Reach =
    next (next here (start 0 (omega arith) refl))
      (decide 0 (omega arith) refl (λ i lt h. ground arith) refl refl)

-- A call of `stop` with one job still queued.
abbrev flagged_pool : Pool ℕ
flagged_pool = record started_worker { stop_flag = true; stop_phase = flagged }

abbrev left_pool : Pool ℕ
left_pool = move_to 0 exited (notify_all flagged_pool)

after_flag : {p : Pool ℕ} → Steps 1 flagged_pool p → Reach 1 p
unfolding enqueue_task new_pool
after_flag here = next started_worker-Reach (set_flag refl)
after_flag (next r step) = next (after_flag r) step

first_take : Step 1 started_worker first_taken
unfolding enqueue_task new_pool
first_take = take 0 7 (8 ∷ []) (omega arith) refl (λ i lt h. ground arith) refl refl

Step-Action_example : Action 1 (view started_worker) (view first_taken)
Step-Action_example = Step-Action started_worker-Reach first_take

flagged_pool-Reach : Reach 1 flagged_pool
flagged_pool-Reach = after_flag here

flagged_pool-Unlocked : Unlocked 1 flagged_pool
unfolding enqueue_task new_pool
flagged_pool-Unlocked i lt h = ground arith

-- After the notification the worker leaves.
worker_leaves : Steps 1 (notify_all flagged_pool) left_pool
unfolding enqueue_task new_pool notify_all
worker_leaves = next here (leave 0 (omega arith) refl (λ i lt h. ground arith) refl)

shutdown_example :
    (worker_steps worker_leaves ≤ 3 * 1)
    × ((((i : ℕ) → i < 1 → left_pool.worker i ≡ exited)
          × ((left_pool.stop_phase ≡ stopped) ⊎ Step 1 left_pool (discard left_pool)))
        ⊎ ((q : Pool ℕ) × (step : Step 1 left_pool q) × (of_worker step ≡ true)))
shutdown_example = shutdown flagged_pool-Reach refl flagged_pool-Unlocked worker_leaves
