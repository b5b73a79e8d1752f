-- ===== src/Scheduler/Ordering/Kept.antt =====
-- Each step keeps the tasks taken, and those on their way, in order.
use task_sched_x.Scheduler.Ordering.Follows.{
  line, InOrder, Follows, Follows-same, assoc_in, Follows-query, Follows-start, Follows-fetch,
  Follows-wake, Follows-look_up, Follows-dispatch,
}
use task_sched_x.Prelude.{
  ℕ, ◌≡◌, refl, sym, ap, ◌∙◌, inl, inr, true, false, List, [], ◌∷◌, ◌++◌, arith, Bool-cases, ◌<◌,
  ◌==◌, ==_iff,
}
use task_sched_x.Task.{Task}
use task_sched_x.TaskQueue.Order.{IsSorted}
use task_sched_x.TaskQueue.Cancel.{SameKeys, IsSorted-SameKeys}
use task_sched_x.Scheduler.State.{Scheduler, Outcome}
use task_sched_x.Scheduler.WellFormed.{WellFormed}
use task_sched_x.Scheduler.Client.{request_stop, set_task_completion_callback}
use task_sched_x.Scheduler.Execute.{execute_and_finalize_task}
use task_sched_x.Scheduler.Frames.{Touched}
use task_sched_x.Scheduler.Frames.Execution.{Settled, execute-Settled}
use task_sched_x.Scheduler.Invariant.{Step-WellFormed}
use task_sched_x.Scheduler.Invariant.Shrinking.{Touched-keys}
use task_sched_x.Scheduler.System.{
  Step, schedule, cancel, query, set_callback, starts, stops, stops_pool, discards, fetches, wakes,
  looks_up, dispatches, takes, executes, remove,
}
use task_sched_x.Scheduler.Ordering.{held_tasks, is_plain, Runs, no_steps, plain, taken}
use task_sched_x.Scheduler.Ordering.Lists.{IsSorted-drop}

same_single :
    (r : ℕ) (s t : Scheduler)
    → Touched r s t
    → (x : ℕ) → (t.objects x).is_repeatable ≡ (s.objects x).is_repeatable
same_single r s t h x = elim (Bool-cases (x == r)) [
  | inl same ↦ rw ((==_iff x r).0 same) h.same_repeatable
  | inr other ↦ ap Task.is_repeatable (h.others x (λ e. ground arith))
]

Follows-Touched :
    (rs : List ℕ) (r : ℕ) (s t : Scheduler) (left : List ℕ)
    → Touched r s t
    → InOrder rs s
    → Follows rs s (record t { executing = left })
Follows-Touched rs r s t left k h = record {
  same_keys = Touched-keys k;
  single = λ x lt. same_single r s t k x ∙ h.single x (rw k.next_object at lt);
  in_order =
      rw (k.pending, k.loop, k.task_queue)
        (IsSorted-SameKeys s.objects t.objects (rs ++ line s) (Touched-keys k) h.in_order);
}

-- A task that is not repeatable is not queued again.
Follows-Settled :
    (rs : List ℕ) (r : ℕ) (s : Scheduler) (o : Outcome (Unit {0}) × Scheduler)
    → r < s.next_object
    → Settled r s o
    → InOrder rs s
    → Follows rs s (record (o.1) { executing = remove r s.executing })
Follows-Settled rs r s o made (inl k) h = Follows-Touched rs r s o.1 (remove r s.executing) k h
Follows-Settled rs r s o made (inr (e, q)) h =
    let once = h.single r made in
    let same = q.touched.same_repeatable in let again = q.was_repeatable in absurd (ground arith)

Follows-Step :
    (rs : List ℕ) {s t : Scheduler} (step : Step s t)
    → is_plain step ≡ true
    → InOrder rs s
    → Follows rs s t
unfolding set_task_completion_callback request_stop
Follows-Step rs (schedule c room) e h = absurd (ground arith)
Follows-Step rs (cancel id) e h = absurd (ground arith)
Follows-Step rs (takes r rest p run) e h = absurd (ground arith)
Follows-Step rs {s} (query id) e h = Follows-query rs id s h
Follows-Step rs {s} (set_callback callback) e h =
    Follows-same rs s (set_task_completion_callback callback s) refl refl refl h
Follows-Step rs {s} (starts ready) e h = Follows-start rs s ready h
Follows-Step rs {s} stops e h = Follows-same rs s (request_stop s) refl refl refl h
Follows-Step rs {s} (stops_pool off idle) e h =
    Follows-same rs s (record s { pool_stopped = true }) refl refl refl h
Follows-Step rs {s} (discards off none_left) e h = record {
  same_keys = λ x. (refl, refl);
  single = h.single;
  in_order = IsSorted-drop s.objects rs s.pending (held_tasks s.loop ++ s.task_queue.pq) h.in_order;
}
Follows-Step rs {s} (fetches now t l f) e h = Follows-fetch rs now s t l f h
Follows-Step rs {s} (wakes now due t l f) e h = Follows-wake rs now due s t l f h
Follows-Step rs {s} (looks_up r l) e h = Follows-look_up rs r s l h
Follows-Step rs {s} (dispatches r l) e h = Follows-dispatch rs r s l h
Follows-Step rs {s} (executes r thread moment now some_there) e h =
    Follows-Settled rs r s (execute_and_finalize_task r thread moment now s)
      (h.well_formed.allocated r (omega arith)) (execute-Settled r thread moment now s) h

Runs-InOrder :
    {begin s : Scheduler} {rs : List ℕ}
    → Runs begin rs s
    → InOrder [] begin
    → InOrder rs s × SameKeys begin.objects s.objects
Runs-InOrder no_steps h = (h, λ x. (refl, refl))
Runs-InOrder {rs} (plain runs step e) h =
    let (k, same) = Runs-InOrder runs h in
    let f = Follows-Step rs step e k in
    (
      record {
        well_formed = Step-WellFormed step k.well_formed;
        single = f.single;
        in_order = f.in_order;
      },
      λ x. ((f.same_keys x).0 ∙ (same x).0, (f.same_keys x).1 ∙ (same x).1),
    )
Runs-InOrder (taken {rs} {s} r rest runs p run) h =
    let (k, same) = Runs-InOrder runs h in
    let ordered : IsSorted s.objects
        (rs ++ (r ∷ [] ++ (rest ++ (held_tasks s.loop ++ s.task_queue.pq)))) =
      rw p at k.in_order in
    (
      record {
        well_formed = Step-WellFormed (takes r rest p run) k.well_formed;
        single = k.single;
        in_order = assoc_in rs (r ∷ []) _ s.objects ordered;
      },
      same,
    )

-- From a well-formed scheduler on that has no task under way to the pool and none that is repeatable,
-- until the next task is scheduled or cancelled: the workers take the tasks in the order of `operator>`,
-- by priority and then by start time, whatever the clock, the tasks and the callback do; and the tasks
-- still on their way stand behind them in that order.
pub taken_in_order :
    {begin s : Scheduler} {rs : List ℕ}
    → WellFormed begin
    → begin.pending ≡ []
    → held_tasks begin.loop ≡ []
    → ((r : ℕ) → r < begin.next_object → (begin.objects r).is_repeatable ≡ false)
    → Runs begin rs s
    → IsSorted begin.objects (rs ++ line s)
taken_in_order {begin} {s} {rs} v none_pending none_held single runs =
    let h : InOrder [] begin = record {
      well_formed = v;
      single = single;
      in_order = rw (none_pending, none_held) v.sorted;
    } in
    let (k, same) = Runs-InOrder runs h in
    IsSorted-SameKeys s.objects begin.objects (rs ++ line s) (λ x. (sym (same x).0, sym (same x).1))
      k.in_order
