-- ===== src/Scheduler/Invariant/Cancel.antt =====
-- `cancelTask` keeps `WellFormed`, whatever the callback throws.
use task_sched_x.Prelude.{
  ℕ, ◌≤◌, refl, inl, inr, Bool, true, false, List, [], ◌∷◌, Bytes, find, count, if◌then◌else◌,
  arith, Bool-cases, Option-cases, find-erase,
}
use task_sched_x.Task.{Objects, cancelled, set_status}
use task_sched_x.TaskQueue.Cancel.{
  IsSorted-SameKeys, cancel_task_lem, mark, without, has_id, mark-SameKeys, IsSorted-without,
}
use task_sched_x.Scheduler.State.{
  Scheduler, Outcome, returns, throws, update_statistics, continue, count_status,
}
use task_sched_x.Scheduler.WellFormed.{WellFormed}
use task_sched_x.Scheduler.Client.{cancel_task, cancel_active, cancel_queued, report_cancel}
use task_sched_x.Scheduler.Frames.{Notified-cases, notice}
use task_sched_x.Scheduler.Invariant.Shrinking.{Shrinks, Shrinks-WellFormed, Calm, Calm-WellFormed}

report-Calm : (id : Bytes) (found : Bool) (s : Scheduler) → Calm s (report_cancel id found s).1
unfolding report_cancel update_statistics notice
report-Calm id true s =
    let (ns, how) =
      Notified-cases id cancelled (record s { stats = count_status cancelled s.stats }) in
    elim how [
      | inl e ↦ rw e (refl, refl, refl, refl, refl, λ x. omega arith)
      | inr (x, e) ↦ rw e (refl, refl, refl, refl, refl, λ x. omega arith)
    ]
report-Calm id false s = (refl, refl, refl, refl, refl, λ x. omega arith)

pub count-without-le :
    (id : Bytes) (o : Objects) (x : ℕ) (xs : List ℕ) → count x (without id o xs) ≤ count x xs
count-without-le id o x [] = omega arith
count-without-le id o x (y ∷ ys) = ground (arith, count-without-le id o x ys)

cancel_active-WellFormed :
    (id : Bytes) (s : Scheduler) → WellFormed s → WellFormed (cancel_active id s).1
unfolding cancel_active set_status
cancel_active-WellFormed id s v = elim (Option-cases (find id s.active_tasks)) [
  | inl e ↦ rw (e, cancel_active) v
  | inr (r, e) ↦
      rw (e, cancel_active)
        (Shrinks-WellFormed
          (record {
            next_object = refl;
            next_id = refl;
            ids = λ x. ground arith;
            active = λ j x h. ground (arith, find-erase id j s.active_tasks);
            fewer = λ x. omega arith;
            sorted = IsSorted-SameKeys s.objects _ s.task_queue.pq (λ x. ground arith) v.sorted;
          })
          v)
]

cancel_queued-WellFormed :
    (id : Bytes) (s : Scheduler) → WellFormed s → WellFormed (cancel_queued id s).1
unfolding cancel_queued
cancel_queued-WellFormed id s v =
    let o = s.objects in
    let xs = s.task_queue.pq in
    let kept : Shrinks s
        (record s { objects = mark id o xs; task_queue = record { pq = without id o xs } }) =
      record {
        next_object = refl;
        next_id = refl;
        ids = λ x. ground arith;
        active = λ j x h. h;
        fewer = λ x. omega (arith, count-without-le id o x xs);
        sorted =
            IsSorted-SameKeys o (mark id o xs) (without id o xs) (mark-SameKeys id o xs)
              (IsSorted-without id o xs v.sorted);
      } in
    let w = Shrinks-WellFormed kept v in
    rw (cancel_task_lem id o s.task_queue v.sorted) (elim (Bool-cases (has_id id o xs)) [
      | inl some_there ↦
          rw some_there (Calm-WellFormed (refl, refl, refl, refl, refl, λ x. omega arith) w)
      | inr none_there ↦ rw none_there w
    ])

queued_if_not_active :
    (id : Bytes) (active : Bool) (s : Scheduler)
    → WellFormed s
    → WellFormed ((if active then (λ t. (returns true, t)) else cancel_queued id) s).1
queued_if_not_active id true s v = v
queued_if_not_active id false s v = cancel_queued-WellFormed id s v

WellFormed-continue :
    {A B : Type 0} (o : Outcome A × Scheduler) (f : A → Scheduler → Outcome B × Scheduler)
    → WellFormed o.1
    → ((a : A) (t : Scheduler) → WellFormed t → WellFormed (f a t).1)
    → WellFormed (continue o f).1
WellFormed-continue (returns a, t) f v k = k a t v
WellFormed-continue (throws e, t) f v k = v

pub cancel-WellFormed :
    (id : Bytes) (s : Scheduler) → WellFormed s → WellFormed (cancel_task id s).1
unfolding cancel_task
cancel-WellFormed id s v =
    WellFormed-continue (cancel_active id s) _ (cancel_active-WellFormed id s v) λ active t w.
      WellFormed-continue ((if active then (λ u. (returns true, u)) else cancel_queued id) t) _
        (queued_if_not_active id active t w)
        (λ found u z. Calm-WellFormed (report-Calm id found u) z)
