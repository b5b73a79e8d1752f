-- ===== src/Scheduler/Dispatching.antt =====
-- Which task the scheduler's thread takes from the queue, and when.
use task_sched_x.Scheduler.Invariant.{pop_split}
use task_sched_x.Prelude.{
  ℕ, ◌+◌, ◌≡◌, refl, inl, inr, true, Option, none, some, List, ◌∷◌, count, if◌then◌else◌, ◌==◌,
  arith, Bool-cases, subst, ap, ◌∙◌,
}
use task_sched_x.Prelude.Int.{ℤ, ◌≤ℤ◌, ◌<ℤ◌, lt_int}
use task_sched_x.TaskQueue
use task_sched_x.TaskQueue.{TaskQueue, pq_push}
use task_sched_x.TaskQueue.Order.{IsSorted, First, count-pq_push}
use task_sched_x.Scheduler.State.{Scheduler, at_head, popped, sleeping}
use task_sched_x.Scheduler.Loop.{fetch, hold_or_put_back, wake}

-- The task at `r` was taken from the queue of `s` at the clock reading `now`.
pub record Taken (now : ℤ) (r : ℕ) (s t : Scheduler) : Type 0 where
  pub due : (s.objects r).start_time ≤ℤ now
  pub before_others : First s.objects r t.task_queue.pq
  pub once : (x : ℕ) → count x s.task_queue.pq ≡ (if r == x then 1 else 0) + count x t.task_queue.pq

-- What is held was due, and was the first of the queue.
held-Taken :
    (now : ℤ) (r x : ℕ) (rest : TaskQueue) (s : Scheduler)
    → s.task_queue.pq ≡ x ∷ rest.pq
    → IsSorted s.objects s.task_queue.pq
    → (hold_or_put_back now x rest s).loop ≡ popped r
    → Taken now r s (hold_or_put_back now x rest s)
unfolding hold_or_put_back
held-Taken now r x rest s e sorted h =
    let first : IsSorted s.objects (x ∷ rest.pq) = rw e at sorted in
    elim (Bool-cases (lt_int now (s.objects x).start_time)) [
      | inl early ↦ ground arith
      | inr due ↦
          let same : x ≡ r = ground arith in
          subst (λ y. Taken now y s (hold_or_put_back now x rest s)) same
            (rw due (record {
              due = ground arith;
              before_others = first.0;
              once = λ y. rw e (omega arith);
            }))
    ]

fetched-Taken :
    (now : ℤ) (r : ℕ) (s t : Scheduler) (o : Option (ℕ × TaskQueue))
    → TaskQueue.pop s.task_queue ≡ o
    → IsSorted s.objects s.task_queue.pq
    → s.is_running ≡ true
    → fetch now s ≡ some t
    → t.loop ≡ popped r
    → Taken now r s t
unfolding fetch
fetched-Taken now r s t none e sorted run f h = ground arith
fetched-Taken now r s t (some (x, rest)) e sorted run f h =
    let g : hold_or_put_back now x rest s ≡ t = ground arith in
    subst (Taken now r s) g (
      held-Taken now r x rest s (pop_split s.task_queue x rest e) sorted
        (ap (λ (u : Scheduler). u.loop) g ∙ h))

-- A running scheduler whose queue is in order takes only a task that is due, which no task left in
-- the queue precedes in the order of `operator>`, and takes it out of the queue once and nothing
-- else.
pub fetch-Taken :
    (now : ℤ) (r : ℕ) (s t : Scheduler)
    → IsSorted s.objects s.task_queue.pq
    → s.is_running ≡ true
    → fetch now s ≡ some t
    → t.loop ≡ popped r
    → Taken now r s t
fetch-Taken now r s t sorted run f h =
    fetched-Taken now r s t (TaskQueue.pop s.task_queue) refl sorted run f h

-- While the first task of the queue is not due, the loop goes to sleep until its start time, and no
-- earlier clock reading wakes a running scheduler: no other task is taken, however many of them are
-- due. At the start time it goes back to the head of the loop.
pub head_of_line :
    (now : ℤ) (r : ℕ) (rest : List ℕ) (s : Scheduler)
    → s.is_running ≡ true
    → s.task_queue.pq ≡ r ∷ rest
    → now <ℤ (s.objects r).start_time
    → (t : Scheduler) × (fetch now s ≡ some t)
      × (t.loop ≡ sleeping (s.objects r).start_time)
      × ((x : ℕ) → count x t.task_queue.pq ≡ count x s.task_queue.pq)
      × ((later : ℤ)
          → later <ℤ (s.objects r).start_time
          → wake later (s.objects r).start_time t ≡ none)
      × ((later : ℤ)
          → (s.objects r).start_time ≤ℤ later
          → wake later (s.objects r).start_time t ≡ some (record t { loop = at_head }))
unfolding wake fetch hold_or_put_back TaskQueue.pop TaskQueue.push
head_of_line now r rest s run e early = (
  asleep,
  fetched,
  refl,
  λ x. rw e (count-pq_push s.objects r x rest),
  λ later before. ground arith,
  λ later due. ground arith,
)
  where
    asleep : Scheduler
    asleep = record s {
      task_queue = record { pq = pq_push s.objects r rest };
      loop = sleeping (s.objects r).start_time;
    }

    fetched : fetch now s ≡ some asleep
    fetched = rw (run, e) (ground arith)
