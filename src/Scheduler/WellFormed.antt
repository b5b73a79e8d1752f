-- ===== src/Scheduler/WellFormed.antt =====
-- What holds of a scheduler between its actions.
use task_sched_x.Prelude.{ℕ, ◌+◌, ◌≤◌, ◌<◌, ◌≡◌, some, Bytes, find, count, if◌then◌else◌, ◌==◌}
use task_sched_x.Task.{format_id}
use task_sched_x.TaskQueue.Order.{IsSorted}
use task_sched_x.Scheduler.State.{
  Scheduler, LoopPhase, not_started, at_head, popped, checked, sleeping, finished,
}

-- Whether the scheduler's thread holds the task.
abbrev pub held : ℕ → LoopPhase → ℕ
held r not_started = 0
held r at_head = 0
held r (popped x) = if x == r then 1 else 0
held r (checked x) = if x == r then 1 else 0
held r (sleeping due) = 0
held r finished = 0

-- In how many places a task is on its way: in the queue, with the scheduler's thread, in the queue of
-- the thread pool, with a worker.
abbrev pub places : ℕ → Scheduler → ℕ
places r s = count r s.task_queue.pq + held r s.loop + count r s.pending + count r s.executing

pub record WellFormed (s : Scheduler) : Type 0 where
  -- the registry maps identifiers to tasks that have them
  pub registered :
      (id : Bytes) (r : ℕ)
      → find id s.active_tasks ≡ some r
      → (r < s.next_object) × ((s.objects r).task_id ≡ id)
  -- no task is in two places, nor twice in one
  pub once : (r : ℕ) → places r s ≤ 1
  pub allocated : (r : ℕ) → 0 < places r s → r < s.next_object
  pub sorted : IsSorted s.objects s.task_queue.pq
  -- identifiers come from the counter, and no two tasks share one
  pub numbered :
      (r : ℕ)
      → r < s.next_object
      → (k : ℕ) × (k < s.next_id) × ((s.objects r).task_id ≡ format_id k)
  pub distinct :
      (r x : ℕ)
      → r < s.next_object
      → x < s.next_object
      → (s.objects r).task_id ≡ (s.objects x).task_id
      → r ≡ x
