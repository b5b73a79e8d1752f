-- ===== src/Scheduler/Invariant/Shrinking.antt =====
-- Actions that make no new task: what they owe to the invariant.
use task_sched_x.Prelude.{
  ℕ, ◌+◌, ◌≤◌, ◌<◌, ◌≡◌, refl, sym, ap, ◌∙◌, inl, inr, some, List, [], ◌∷◌, Bytes, find, count,
  if◌then◌else◌, ◌==◌, arith, Bool-cases, ==_iff,
}
use task_sched_x.Task.{Task, Objects}
use task_sched_x.TaskQueue
use task_sched_x.TaskQueue.{TaskQueue}
use task_sched_x.TaskQueue.Order.{IsSorted, pq_push-IsSorted, count-pq_push, IsSorted-others}
use task_sched_x.TaskQueue.Cancel.{SameKeys, IsSorted-SameKeys}
use task_sched_x.Scheduler.State.{Scheduler, Outcome}
use task_sched_x.Scheduler.WellFormed.{WellFormed, places}
use task_sched_x.Scheduler.System.{remove}
use task_sched_x.Scheduler.Frames.{Touched}
use task_sched_x.Scheduler.Frames.Execution.{Settled}

pub record Shrinks (s s' : Scheduler) : Type 0 where
  pub next_object : s'.next_object ≡ s.next_object
  pub next_id : s'.next_id ≡ s.next_id
  pub ids : (x : ℕ) → (s'.objects x).task_id ≡ (s.objects x).task_id
  pub active :
      (id : Bytes) (x : ℕ) → find id s'.active_tasks ≡ some x → find id s.active_tasks ≡ some x
  pub fewer : (x : ℕ) → places x s' ≤ places x s
  pub sorted : IsSorted s'.objects s'.task_queue.pq

pub Shrinks-WellFormed : {s s' : Scheduler} → Shrinks s s' → WellFormed s → WellFormed s'
Shrinks-WellFormed {s} {s'} h v = record {
  registered =
      λ id r e. ground (arith, h.next_object, h.ids r, v.registered id r (h.active id r e));
  once = λ r. omega (arith, h.fewer r, v.once r);
  allocated = λ r pos. omega (arith, h.next_object, v.allocated r (omega (arith, h.fewer r)));
  sorted = h.sorted;
  numbered = λ r lt.
      let (k, below, e) = v.numbered r (omega (arith, h.next_object)) in
      (k, omega (arith, h.next_id), h.ids r ∙ e);
  distinct = λ r x lr lx e.
      v.distinct r x (omega (arith, h.next_object)) (omega (arith, h.next_object))
        (sym (h.ids r) ∙ e ∙ h.ids x);
}

pub Touched-keys : {r : ℕ} {s s' : Scheduler} → Touched r s s' → SameKeys s.objects s'.objects
Touched-keys {r} h x = elim (Bool-cases (x == r)) [
  | inl same ↦ rw ((==_iff x r).0 same) (h.same_priority, h.same_start)
  | inr other ↦ rw (h.others x (λ e. ground arith)) (refl, refl)
]

Touched-ids :
    {r : ℕ} {s s' : Scheduler}
    → Touched r s s'
    → (x : ℕ) → (s'.objects x).task_id ≡ (s.objects x).task_id
Touched-ids {r} h x = elim (Bool-cases (x == r)) [
  | inl same ↦ rw ((==_iff x r).0 same) h.same_id
  | inr other ↦ ap Task.task_id (h.others x (λ e. ground arith))
]

Touched-Shrinks : {r : ℕ} {s s' : Scheduler} → Touched r s s' → WellFormed s → Shrinks s s'
Touched-Shrinks {s} {s'} h v = record {
  next_object = h.next_object;
  next_id = h.next_id;
  ids = Touched-ids h;
  active = h.active;
  fewer = λ x. rw (h.task_queue, h.loop, h.pending, h.executing) (omega arith);
  sorted =
      rw h.task_queue
        (IsSorted-SameKeys s.objects s'.objects s.task_queue.pq (Touched-keys h) v.sorted);
}

pub count-remove :
    (r x : ℕ) (xs : List ℕ)
    → 0 < count r xs
    → count x (remove r xs) + (if r == x then 1 else 0) ≡ count x xs
count-remove r x [] h = absurd (omega arith)
count-remove r x (y ∷ ys) h = ground (arith, count-remove r x ys)

-- A worker has done a job.
abbrev pub worked : ℕ → Scheduler → Outcome (Unit {0}) × Scheduler → Scheduler
worked r s o = record (o.1) { executing = remove r s.executing }

worked-places :
    (r x : ℕ) (s s' : Scheduler)
    → 0 < count r s.executing
    → Touched r s s'
    → places x (record s' { executing = remove r s.executing }) + (if r == x then 1 else 0)
      ≡ places x s
worked-places r x s s' some_there h =
    rw (h.task_queue, h.loop, h.pending) (omega (arith, count-remove r x s.executing some_there))

not_queued :
    (r : ℕ) (s : Scheduler) → WellFormed s → 0 < count r s.executing → count r s.task_queue.pq ≡ 0
not_queued r s v some_there = omega (arith, v.once r)

pub worked-Shrinks :
    (r : ℕ) (s : Scheduler) (o : Outcome (Unit {0}) × Scheduler)
    → 0 < count r s.executing
    → WellFormed s
    → Settled r s o
    → Shrinks s (worked r s o)
unfolding TaskQueue.push
worked-Shrinks r s o some_there v (inl h) =
    let k = Touched-Shrinks h v in
    record {
      next_object = k.next_object;
      next_id = k.next_id;
      ids = k.ids;
      active = k.active;
      fewer = λ x. omega (arith, worked-places r x s o.1 some_there h);
      sorted = k.sorted;
    }
worked-Shrinks r s o some_there v (inr (e, q)) =
    let b = q.before in
    let o' = o.1.objects in
    let k = Touched-Shrinks q.touched v in
    rw (ap (λ (t : Scheduler). record t { executing = remove r s.executing }) q.shape) (record {
      next_object = k.next_object;
      next_id = k.next_id;
      ids = λ x. ids_after x;
      active = k.active;
      fewer = λ x.
          omega (
            arith,
            worked-places r x s b some_there q.touched,
            count-pq_push o' r x b.task_queue.pq,
          );
      sorted = pq_push-IsSorted o' r b.task_queue.pq (
          IsSorted-others b.objects o' r b.task_queue.pq
            (rw q.touched.task_queue (not_queued r s v some_there)) q.others k.sorted);
    })
  where
    ids_after : (x : ℕ) → (o.1.objects x).task_id ≡ (s.objects x).task_id
    ids_after x = elim (Bool-cases (x == r)) [
      | inl same ↦ rw ((==_iff x r).0 same) (q.same_id ∙ q.touched.same_id)
      | inr other ↦ ap Task.task_id (q.others x (λ e'. ground arith)) ∙ Touched-ids q.touched x
    ]

-- Actions that touch nothing that `WellFormed` speaks of, or only make places fewer.
abbrev pub Calm : Scheduler → Scheduler → Type 0
Calm s s' =
    (s'.objects ≡ s.objects)
    × (s'.next_object ≡ s.next_object)
    × (s'.next_id ≡ s.next_id)
    × (s'.task_queue ≡ s.task_queue)
    × (s'.active_tasks ≡ s.active_tasks)
    × ((x : ℕ) → places x s' ≤ places x s)

pub Calm-WellFormed : {s s' : Scheduler} → Calm s s' → WellFormed s → WellFormed s'
Calm-WellFormed {s} {s'} (o, n, i, q, a, p) v =
    Shrinks-WellFormed
      (record {
        next_object = n;
        next_id = i;
        ids = λ x. ap (λ (f : Objects). (f x).task_id) o;
        active = λ id x e. rw a at e;
        fewer = p;
        sorted = rw (o, q) v.sorted;
      })
      v
