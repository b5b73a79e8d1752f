-- ===== src/Scheduler/Ordering/Follows.antt =====
-- What one step leaves of the order of the tasks, and the steps of the scheduler's thread.
use task_sched_x.Prelude.Int.{ℤ}
use mathlib.Core.List.{append_assoc}
use task_sched_x.Prelude.{
  ℕ, ◌≡◌, refl, sym, inl, inr, true, false, some, List, [], ◌∷◌, ◌++◌, Bytes, arith, subst, ◌<◌,
  Bool, ◌⊎◌,
}
use task_sched_x.Task.{Objects, set_status}
use task_sched_x.TaskQueue
use task_sched_x.TaskQueue.{TaskQueue}
use task_sched_x.TaskQueue.Order.{IsSorted}
use task_sched_x.TaskQueue.Cancel.{SameKeys, IsSorted-SameKeys}
use task_sched_x.Scheduler.State.{Scheduler, at_head, popped, checked, sleeping}
use task_sched_x.Scheduler.WellFormed.{WellFormed}
use task_sched_x.Scheduler.Client.{get_task_status, start}
use task_sched_x.Scheduler.Loop.{leave_loop, dispatch, look_up, fetch, wake}
use task_sched_x.Scheduler.Loop.Cases.{fetch_cases, wake_cases, look_up_cases}
use task_sched_x.Scheduler.Invariant.{pop_split}
use task_sched_x.Scheduler.System.{Idle}
use task_sched_x.Scheduler.Ordering.{held_tasks}
use task_sched_x.Scheduler.Ordering.Lists.{IsSorted-drop, IsSorted-again, line_held}

-- The tasks on their way to the workers, the next one first.
abbrev pub line : Scheduler → List ℕ
line s = s.pending ++ (held_tasks s.loop ++ s.task_queue.pq)

pub record InOrder (rs : List ℕ) (s : Scheduler) : Type 0 where
  pub well_formed : WellFormed s
  pub single : (r : ℕ) → r < s.next_object → (s.objects r).is_repeatable ≡ false
  pub in_order : IsSorted s.objects (rs ++ line s)

-- From one state to the next, as far as the order goes.
pub record Follows (rs : List ℕ) (s t : Scheduler) : Type 0 where
  pub same_keys : SameKeys s.objects t.objects
  pub single : (r : ℕ) → r < t.next_object → (t.objects r).is_repeatable ≡ false
  pub in_order : IsSorted t.objects (rs ++ line t)

-- Nothing that the order depends on is changed.
pub Follows-same :
    (rs : List ℕ) (s t : Scheduler)
    → t.objects ≡ s.objects
    → t.next_object ≡ s.next_object
    → line t ≡ line s
    → InOrder rs s
    → Follows rs s t
Follows-same rs s t o n l h = record {
  same_keys = λ r. rw o (refl, refl);
  single = λ r lt. rw o (h.single r (rw n at lt));
  in_order = rw (o, l) h.in_order;
}

pub assoc_in :
    (rs as' bs : List ℕ) (o : Objects)
    → IsSorted o (rs ++ (as' ++ bs))
    → IsSorted o ((rs ++ as') ++ bs)
assoc_in rs as' bs o s = subst (IsSorted o) (sym (append_assoc rs as' bs)) s

assoc_out :
    (rs as' bs : List ℕ) (o : Objects)
    → IsSorted o ((rs ++ as') ++ bs)
    → IsSorted o (rs ++ (as' ++ bs))
assoc_out rs as' bs o s = subst (IsSorted o) (append_assoc rs as' bs) s

pub Follows-query :
    (rs : List ℕ) (id : Bytes) (s : Scheduler)
    → InOrder rs s
    → Follows rs s (get_task_status id s).1
unfolding get_task_status
Follows-query rs id s h =
    Follows-same rs s (get_task_status id s).1 (ground arith) (ground arith) (ground arith) h

start-line :
    (s : Scheduler) (b : Bool)
    → s.is_running ≡ b
    → (s.is_running ≡ true) ⊎ Idle s.loop
    → line (start s) ≡ line s
unfolding start
start-line s true run ready = ground arith
start-line s false off (inl run) = absurd (ground arith)
start-line s false off (inr (inl idle)) = ground arith
start-line s false off (inr (inr idle)) = ground arith

pub Follows-start :
    (rs : List ℕ) (s : Scheduler)
    → (s.is_running ≡ true) ⊎ Idle s.loop
    → InOrder rs s
    → Follows rs s (start s)
unfolding start
Follows-start rs s ready h =
    Follows-same rs s (start s) (ground arith) (ground arith) (start-line s s.is_running refl ready)
      h

-- The steps of the scheduler's thread.
pub Follows-fetch :
    (rs : List ℕ) (now : ℤ) (s t : Scheduler)
    → s.loop ≡ at_head
    → fetch now s ≡ some t
    → InOrder rs s
    → Follows rs s t
unfolding leave_loop TaskQueue.push
Follows-fetch rs now s t l f h =
    fetch_cases (Follows rs s) now s t f (Follows-same rs s (leave_loop s) refl refl (rw l refl) h)
      λ r rest pop.
        let e = pop_split s.task_queue r rest pop in
        let ordered : IsSorted s.objects (rs ++ (s.pending ++ r ∷ rest.pq)) =
          rw (l, e) at h.in_order in
        (
          record {
            same_keys = λ x. (refl, refl);
            single = h.single;
            in_order = assoc_out rs s.pending _ s.objects (
                IsSorted-again s.objects (rs ++ s.pending) r rest.pq
                  (assoc_in rs s.pending (r ∷ rest.pq) s.objects ordered));
          },
          record { same_keys = λ x. (refl, refl); single = h.single; in_order = ordered },
        )

pub Follows-wake :
    (rs : List ℕ) (now due : ℤ) (s t : Scheduler)
    → s.loop ≡ sleeping due
    → wake now due s ≡ some t
    → InOrder rs s
    → Follows rs s t
unfolding leave_loop
Follows-wake rs now due s t l f h =
    wake_cases (Follows rs s) now due s t f
      (Follows-same rs s (leave_loop s) refl refl (rw l refl) h)
      (Follows-same rs s (record s { loop = at_head }) refl refl (rw l refl) h)

pub Follows-look_up :
    (rs : List ℕ) (r : ℕ) (s : Scheduler)
    → s.loop ≡ popped r
    → InOrder rs s
    → Follows rs s (look_up r s)
Follows-look_up rs r s l h =
    let v = h.well_formed in
    let ordered : IsSorted s.objects (rs ++ (s.pending ++ r ∷ s.task_queue.pq)) =
      rw l at h.in_order in
    look_up_cases (Follows rs s) r s
      (record {
        same_keys = λ x. (refl, refl);
        single = h.single;
        in_order = assoc_out rs s.pending s.task_queue.pq s.objects (
            IsSorted-drop s.objects (rs ++ s.pending) (r ∷ []) s.task_queue.pq
              (assoc_in rs s.pending (r ∷ s.task_queue.pq) s.objects ordered));
      })
      (λ y e live.
        let (lt, id) = v.registered (s.objects r).task_id y e in
        let same : y ≡ r = v.distinct y r lt (v.allocated r (rw l (ground arith))) id in
        Follows-same rs s (record s { loop = checked y }) refl refl (rw (l, same) refl) h)

pub Follows-dispatch :
    (rs : List ℕ) (r : ℕ) (s : Scheduler)
    → s.loop ≡ checked r
    → InOrder rs s
    → Follows rs s (dispatch r s)
unfolding dispatch set_status
Follows-dispatch rs r s l h =
    let ordered : IsSorted s.objects (rs ++ (s.pending ++ r ∷ s.task_queue.pq)) =
      rw l at h.in_order in
    let keys : SameKeys s.objects (dispatch r s).objects = λ x. ground arith in
    record {
      same_keys = keys;
      single = λ x lt. ground (arith, h.single x lt);
      in_order =
          IsSorted-SameKeys s.objects (dispatch r s).objects _ keys
            (subst (IsSorted s.objects) (sym (line_held rs s.pending r s.task_queue.pq)) ordered);
    }
