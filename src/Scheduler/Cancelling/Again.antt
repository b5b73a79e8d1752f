-- ===== src/Scheduler/Cancelling/Again.antt =====
-- Cancelling a task that is not registered (any more), and cancelling a queued task twice.
use mathlib.Core.Path.{fun_ext}
use task_sched_x.Prelude.{
  ℕ, ◌≡◌, refl, ◌∙◌, Bool, true, false, none, some, List, [], ◌∷◌, ◌++◌, Bytes, find, find-erase,
  str_eq_iff, arith, codes, ap,
}
use mathlib.Core.List.{append_assoc}
use task_sched_x.Task.{Objects, cancelled}
use task_sched_x.TaskQueue.Order.{IsSorted}
use task_sched_x.TaskQueue.Cancel.{
  mark, without, has_id, mem, IsSorted-SameKeys, IsSorted-without, mark-SameKeys,
}
use task_sched_x.Logger.{warns}
use task_sched_x.Scheduler.State.{Scheduler, increment, Outcome, returns}
use task_sched_x.Scheduler.Cancelling.Queued.{
  has_id_of_mem, has_id-without, after_queue_cancel, after_unknown, cancel_task-queued,
  cancel_task-missing,
}
use task_sched_x.Scheduler.WellFormed.{WellFormed}
use task_sched_x.Scheduler.Callbacks.{Quiet, told}
use task_sched_x.Scheduler.Client.{cancel_task}
use task_sched_x.Scheduler.Cancelling.{cancel_task-active, after_cancel, active_entry}

without-missing :
    (id : Bytes) (o : Objects) (xs : List ℕ) → has_id id o xs ≡ false → without id o xs ≡ xs
without-missing id o [] h = refl
without-missing id o (x ∷ xs) h = ground (arith, without-missing id o xs)

mark-missing :
    (id : Bytes) (o : Objects) (xs : List ℕ)
    → has_id id o xs ≡ false
    → (r : ℕ) → mark id o xs r ≡ o r
mark-missing id o xs h r = ground (arith, has_id_of_mem id o r xs, str_eq_iff (o r).task_id id)

-- An identifier that neither the registry nor the queue, being in order, knows: `cancelTask`
-- answers false, and leaves everything as it was but for a warning in the log.
pub cancel_task_unknown :
    (id : Bytes) (s : Scheduler)
    → IsSorted s.objects s.task_queue.pq
    → find id s.active_tasks ≡ none
    → has_id id s.objects s.task_queue.pq ≡ false
    → cancel_task id s ≡ (
      returns false,
      record s {
        logged = s.logged ++ warns (codes "Attempted to cancel non-existent task: " ++ id) ∷ [];
      },
    )
unfolding after_unknown
cancel_task_unknown id s sorted e h =
    cancel_task-missing id s sorted e h
    ∙ rw (
      fun_ext (mark-missing id s.objects s.task_queue.pq h),
      without-missing id s.objects s.task_queue.pq h,
    )

IsSorted-after_queue_cancel :
    (id : Bytes) (s : Scheduler)
    → IsSorted s.objects s.task_queue.pq
    → IsSorted (after_queue_cancel id s).objects (after_queue_cancel id s).task_queue.pq
unfolding after_queue_cancel
IsSorted-after_queue_cancel id s sorted =
    IsSorted-SameKeys s.objects (mark id s.objects s.task_queue.pq)
      (without id s.objects s.task_queue.pq) (mark-SameKeys id s.objects s.task_queue.pq)
      (IsSorted-without id s.objects s.task_queue.pq sorted)

missing-after_queue_cancel :
    (id : Bytes) (s : Scheduler)
    → find id s.active_tasks ≡ none
    → find id (after_queue_cancel id s).active_tasks ≡ none
unfolding after_queue_cancel
missing-after_queue_cancel id s e = e

has_id-after_queue_cancel :
    (id : Bytes) (s : Scheduler)
    → has_id id (after_queue_cancel id s).objects (after_queue_cancel id s).task_queue.pq ≡ false
unfolding after_queue_cancel
has_id-after_queue_cancel id s =
    has_id-without id s.objects (mark id s.objects s.task_queue.pq) s.task_queue.pq
      (λ r. ground arith)

-- Three calls of `cancelTask` with one identifier, one after the other.
pub record CancelledAgain (id : Bytes) (s : Scheduler) : Type 0 where
  pub first : (cancel_task id s).0 ≡ returns true
  pub second : (cancel_task id (cancel_task id s).1).0 ≡ returns true
  pub third : (cancel_task id (cancel_task id (cancel_task id s).1).1).0 ≡ returns false
  pub counted_twice :
      (cancel_task id (cancel_task id s).1).1.stats.tasks_cancelled
      ≡ increment (increment s.stats.tasks_cancelled)
  pub announced_twice :
      (cancel_task id (cancel_task id s).1).1.notified
      ≡ s.notified
        ++ (told s.completion_callback id cancelled ++ told s.completion_callback id cancelled)

after_first : Bytes → ℕ → Scheduler → Scheduler
after_first id r s = after_cancel id r s (active_entry id ∷ [])

module _ (id : Bytes) (r : ℕ) (s : Scheduler) (v : WellFormed s)
    (quiet : Quiet s.completion_callback) (e : find id s.active_tasks ≡ some r)
    (waits : mem r s.task_queue.pq ≡ true) where
  first-IsSorted : IsSorted (after_first id r s).objects s.task_queue.pq
  unfolding after_first after_cancel
  first-IsSorted =
      IsSorted-SameKeys s.objects (after_first id r s).objects s.task_queue.pq (λ x. ground arith)
        v.sorted

  first_id : ((after_first id r s).objects r).task_id ≡ id
  unfolding after_first after_cancel
  first_id = ground (arith, v.registered id r e)

  first_has_id : has_id id (after_first id r s).objects s.task_queue.pq ≡ true
  first_has_id = has_id_of_mem id (after_first id r s).objects r s.task_queue.pq waits first_id

  first_missing : find id (after_first id r s).active_tasks ≡ none
  unfolding after_first after_cancel
  first_missing = ground (arith, find-erase id id s.active_tasks, str_eq_iff id id)

  first_done : cancel_task id s ≡ (returns true, after_first id r s)
  unfolding after_first
  first_done = cancel_task-active id r s quiet e

  first-Quiet : Quiet (after_first id r s).completion_callback
  unfolding after_first after_cancel
  first-Quiet = quiet

  first_queue : (after_first id r s).task_queue ≡ s.task_queue
  unfolding after_first after_cancel
  first_queue = refl

  second_done :
      cancel_task id (after_first id r s)
      ≡ (returns true, after_queue_cancel id (after_first id r s))
  second_done =
      cancel_task-queued id (after_first id r s) first-Quiet (rw first_queue first-IsSorted)
        first_missing (rw first_queue first_has_id)

  third_done : (cancel_task id (after_queue_cancel id (after_first id r s))).0 ≡ returns false
  third_done =
      ap (λ (o : Outcome Bool × Scheduler). o.0)
        (cancel_task-missing id (after_queue_cancel id (after_first id r s))
          (IsSorted-after_queue_cancel id (after_first id r s) (rw first_queue first-IsSorted))
          (missing-after_queue_cancel id (after_first id r s) first_missing)
          (has_id-after_queue_cancel id (after_first id r s)))

  -- In a well-formed scheduler with a callback that throws nothing, a registered task that waits in
  -- the queue can be cancelled twice: the first call takes it from the registry and leaves it in
  -- the queue, where the second finds it. Both answer true, both are counted and announced, and
  -- only the third answers false.
  pub cancel_task_twice : CancelledAgain id s
  unfolding after_first after_cancel after_queue_cancel
  cancel_task_twice = record {
    first = rw first_done;
    second = rw first_done (rw second_done);
    third = rw first_done (rw second_done third_done);
    counted_twice = rw first_done (rw second_done);
    announced_twice = rw first_done (rw second_done (append_assoc s.notified _ _));
  }
