-- ===== src/Scheduler/Invariant/Schedule.antt =====
-- The constructor and `scheduleTask` keep `WellFormed`.
use task_sched_x.Scheduler.Threads.{register}
use task_sched_x.Prelude.{
  ℕ, ◌+◌, ◌<◌, ◌≡◌, ◌≢◌, sym, ◌∙◌, inl, inr, Bytes, find, ◌==◌, arith, Bool-cases, find-put,
  str_eq_iff, ◌%◌, ◌∷◌,
}
use task_sched_x.Task.{Objects, format_id, new_task, size_mod}
use task_sched_x.Task.Id.{format_id-injective}
use task_sched_x.TaskQueue
use task_sched_x.TaskQueue.{TaskQueue}
use task_sched_x.TaskQueue.Order.{IsSorted, pq_push-IsSorted, count-pq_push, IsSorted-others}
use task_sched_x.Scheduler.State.{Scheduler, new_scheduler}
use task_sched_x.Scheduler.WellFormed.{WellFormed}
use task_sched_x.Scheduler.Client.{TaskConfig, schedule_task, make_task}

pub new_scheduler-WellFormed :
    (objects : Objects) (next_id : ℕ) (num_threads : Bytes)
    → WellFormed (new_scheduler objects next_id num_threads)
unfolding new_scheduler find
new_scheduler-WellFormed objects next_id num_threads = record {
  registered = λ id r e. cc;
  once = λ r. omega arith;
  allocated = λ r h. absurd (omega arith);
  sorted = tt;
  numbered = λ r h. absurd (omega arith);
  distinct = λ r x h k e. absurd (omega arith);
}

-- The counter's identifier is not in use.
pub unused_id :
    (s : Scheduler) (x : ℕ)
    → WellFormed s
    → x < s.next_object
    → (s.objects x).task_id ≢ format_id s.next_id
unused_id s x v lt e =
    let (k, below, is) = v.numbered x lt in
    absurd (omega (arith, format_id-injective k s.next_id (sym is ∙ e)))

module _ (c : TaskConfig) (s : Scheduler) (room : s.next_id + 1 < size_mod) (v : WellFormed s) where
  abbrev pub new_objects : Objects
  new_objects = (make_task c s).1.objects

  schedule-IsSorted :
      IsSorted new_objects (TaskQueue.pq_push new_objects s.next_object s.task_queue.pq)
  unfolding make_task new_task
  schedule-IsSorted = pq_push-IsSorted new_objects s.next_object s.task_queue.pq (
      IsSorted-others s.objects new_objects s.next_object s.task_queue.pq
        (ground (arith, v.allocated s.next_object)) (λ y ne. ground arith) v.sorted)

  pub schedule-numbered :
      (r : ℕ)
      → r < s.next_object + 1
      → (k : ℕ) × (k < (s.next_id + 1) % size_mod) × ((new_objects r).task_id ≡ format_id k)
  unfolding make_task new_task
  schedule-numbered r lt = elim (Bool-cases (s.next_object == r)) [
    | inl new ↦ (s.next_id, omega arith, ground arith)
    | inr old ↦ let (k, below, e) = v.numbered r (ground arith) in (k, omega arith, ground arith)
  ]

  pub schedule-distinct :
      (r x : ℕ)
      → r < s.next_object + 1
      → x < s.next_object + 1
      → (new_objects r).task_id ≡ (new_objects x).task_id
      → r ≡ x
  unfolding make_task new_task
  schedule-distinct r x lr lx e = ground (arith, unused_id s r v, unused_id s x v, v.distinct r x)

  -- A new task gets an address and an identifier of its own.
  pub schedule-WellFormed : WellFormed (schedule_task c s).1
  unfolding schedule_task new_task TaskQueue.push
  schedule-WellFormed = record {
    registered = λ id r e. ground (
      arith,
      find-put (format_id s.next_id) id s.next_object s.active_tasks,
      str_eq_iff (format_id s.next_id) id,
      v.registered id r,
    );
    once = λ r. ground (
      arith,
      count-pq_push (make_task c s).1.objects s.next_object r s.task_queue.pq,
      v.once r,
      v.allocated r,
    );
    allocated = λ r h. ground (
      arith,
      count-pq_push (make_task c s).1.objects s.next_object r s.task_queue.pq,
      v.allocated r,
    );
    sorted = schedule-IsSorted;
    numbered = schedule-numbered;
    distinct = schedule-distinct;
  }

  -- The first half of `scheduleTask`: the new task is registered, and carried by its thread.
  pub register-WellFormed :
      WellFormed (record (register c s) { executing = s.next_object ∷ s.executing })
  unfolding register new_task
  register-WellFormed = record {
    registered = λ id r e. ground (
      arith,
      find-put (format_id s.next_id) id s.next_object s.active_tasks,
      str_eq_iff (format_id s.next_id) id,
      v.registered id r,
    );
    once = λ r. ground (arith, v.once r, v.allocated r);
    allocated = λ r h. ground (arith, v.allocated r);
    sorted =
        IsSorted-others s.objects new_objects s.next_object s.task_queue.pq
          (ground (arith, v.allocated s.next_object)) (λ y ne. ground arith) v.sorted;
    numbered = schedule-numbered;
    distinct = schedule-distinct;
  }
