-- ===== src/Scheduler/Threads/Cancelled.antt =====
-- What a cancellation achieves, with the other threads at work between and during its actions.
use task_sched_x.Prelude.{
  ℕ, ◌≤◌, ◌<◌, ◌≡◌, ◌≢◌, ◌∙◌, inl, inr, Bool, none, some, List, [], ◌∷◌, Bytes, find, count, arith,
  Option-cases, subst, find-put, find-erase, str_eq_iff,
}
use task_sched_x.Task.{Objects, Exception, format_id, new_task, set_status}
use task_sched_x.Scheduler.State.{Scheduler}
use task_sched_x.Scheduler.WellFormed.{WellFormed}
use task_sched_x.Scheduler.Client.{TaskConfig, cancel_active}
use task_sched_x.Scheduler.System.{remove}
use task_sched_x.Scheduler.Invariant.Schedule.{unused_id}
use task_sched_x.Scheduler.Threads.{Program, act, register, cancel_code}
use task_sched_x.Scheduler.Threads.Steps.{
  Threads, taken, moved, made, queued, laid_down, advance, advance-act, Step, Steps, Reach, begins,
  takes, moves, makes, queues, lays_down, own, discards, here, next,
}
use task_sched_x.Scheduler.Threads.Looping.{handed, own-LoopKeeps, handed_once}
use task_sched_x.Scheduler.Threads.Neutral.{Neutral}
use task_sched_x.Scheduler.Threads.Exclusive.{Exclusive, moved-Neutral}
use task_sched_x.Scheduler.Threads.Exclusive.Kept.{Step-Exclusive, Steps-Exclusive, Reach-Exclusive}

-- The task was made, has the identifier, and is not registered.
pub record Gone (id : Bytes) (r : ℕ) (s : Scheduler) : Type 0 where
  pub made_before : r < s.next_object
  pub named : (s.objects r).task_id ≡ id
  pub unregistered : find id s.active_tasks ≡ none

-- It stays so, and is handed over no more often.
abbrev StaysGone : Bytes → ℕ → Scheduler → Scheduler → Type 0
StaysGone id r s s' = Gone id r s' × (handed r s' ≤ handed r s)

module _ (id : Bytes) (r : ℕ) where
  Neutral-Gone : (s s' : Scheduler) → Neutral s s' → Gone id r s → StaysGone id r s s'
  Neutral-Gone s s' n g = (
    record {
      made_before = rw n.next_object g.made_before;
      named = n.ids r ∙ g.named;
      unregistered = elim (Option-cases (find id s'.active_tasks)) [
        | inl e ↦ e
        | inr (x, e) ↦ let f = n.active id x e in let h = g.unregistered in cc
      ];
    },
    rw (n.loop, n.pending, n.executing) (omega arith),
  )

  register-Gone :
      (c : TaskConfig) (s : Scheduler)
      → WellFormed s
      → Gone id r s
      → StaysGone id r s (record (register c s) { executing = s.next_object ∷ s.executing })
  unfolding register new_task
  register-Gone c s v g =
      let new = unused_id s r v g.made_before in
      (
        record {
          made_before = ground (arith, g.made_before);
          named = ground (arith, g.made_before, g.named);
          unregistered = ground (
            arith,
            find-put (format_id s.next_id) id s.next_object s.active_tasks,
            str_eq_iff (format_id s.next_id) id,
            g.named,
            g.unregistered,
          );
        },
        ground (arith, g.made_before),
      )

  count-remove_le : (x y : ℕ) (xs : List ℕ) → count y (remove x xs) ≤ count y xs
  count-remove_le x y [] = omega arith
  count-remove_le x y (z ∷ zs) = ground (arith, count-remove_le x y zs)

  Step-Gone :
      (workers : ℕ) (t : Threads) {u : Threads}
      → Step workers t u
      → Exclusive t
      → Gone id r t.shared
      → StaysGone id r t.shared u.shared
  unfolding taken moved made queued laid_down
  Step-Gone workers t (begins i request out e c) v g = (g, omega arith)
  Step-Gone workers t (takes i x rest thread moment now in_pool e c p run) v g = (
    record { made_before = g.made_before; named = g.named; unregistered = g.unregistered },
    rw p (omega arith),
  )
  Step-Gone workers t (moves i f k e) v g =
      Neutral-Gone t.shared (f t.shared) (moved-Neutral t i f k v e) g
  Step-Gone workers t (makes i c k e room) v g = register-Gone c t.shared v.well_formed g
  Step-Gone workers t (queues i x k e) v g = (
    record { made_before = g.made_before; named = g.named; unregistered = g.unregistered },
    omega (arith, count-remove_le x r t.shared.executing),
  )
  Step-Gone workers t (lays_down i x e c) v g = (
    record { made_before = g.made_before; named = g.named; unregistered = g.unregistered },
    omega (arith, count-remove_le x r t.shared.executing),
  )
  Step-Gone workers t (own s step of_it) v g =
      let k = own-LoopKeeps step of_it v.well_formed in
      (
        record {
          made_before = rw k.next_object g.made_before;
          named = k.ids r ∙ g.named;
          unregistered = rw k.active g.unregistered;
        },
        k.handing r (rw g.named g.unregistered),
      )
  Step-Gone workers t (discards off done) v g = (
    record { made_before = g.made_before; named = g.named; unregistered = g.unregistered },
    omega arith,
  )

  pub Steps-Gone :
      (workers : ℕ) (t : Threads) {u : Threads}
      → Steps workers t u
      → Exclusive t
      → Gone id r t.shared
      → StaysGone id r t.shared u.shared
  Steps-Gone workers t here v g = (g, omega arith)
  Steps-Gone workers t (next {u} steps step) v g =
      let (g', fewer) = Steps-Gone workers t steps v g in
      let (g'', fewer') = Step-Gone workers u step (Steps-Exclusive workers t steps v) g' in
      (g'', omega arith)

cancel_active-Gone :
    (id : Bytes) (r : ℕ) (s : Scheduler)
    → WellFormed s
    → find id s.active_tasks ≡ some r
    → StaysGone id r s (cancel_active id s).1
unfolding cancel_active set_status
cancel_active-Gone id r s v e =
    let (made, named) = v.registered id r e in
    rw (e, cancel_active)
      (
        record {
          made_before = made;
          named = ground (arith, named);
          unregistered = ground (arith, find-erase id id s.active_tasks, str_eq_iff id id);
        },
        omega arith,
      )

-- What holds after one action of a thread, and then any steps.
gone_after_action :
    (workers : ℕ) (id : Bytes) (i r : ℕ) (f : Scheduler → Scheduler) (g : Scheduler → Program)
    (t u : Threads)
    → t.program i ≡ act f g
    → Exclusive t
    → StaysGone id r t.shared (f t.shared)
    → Steps workers (advance i t) u
    → StaysGone id r t.shared u.shared
unfolding moved
gone_after_action workers id i r f g t u at v (first, fewer) steps =
    let steps' = subst (λ w. Steps workers w u) (advance-act i t f g at) steps in
    let v' = Step-Exclusive workers t (moves i f g at) v in
    let (last, fewer') = Steps-Gone id r workers (moved i f g t) steps' v' first in
    (last, omega arith)

-- A call of `cancelTask` with the identifier of a registered task, at its first action. From then on
-- the identifier is never registered again, and the task is handed over, to the pool or to a worker,
-- no more often than it was at that action, which is at most once: as the other threads go on, a
-- repeatable task too is never looked up with success again, so that once its present execution has
-- ended it is not run any more.
pub cancel_code-last :
    (workers : ℕ) (objects : Objects) (next_id : ℕ) (num_threads : Bytes) (id : Bytes) (i r : ℕ)
    (k : Bool → Program) (h : Exception → Program) {t u : Threads}
    → Reach workers objects next_id num_threads t
    → t.program i ≡ cancel_code id k h
    → find id t.shared.active_tasks ≡ some r
    → Steps workers (advance i t) u
    → (find id u.shared.active_tasks ≡ none)
      × (handed r u.shared ≤ handed r t.shared)
      × (handed r t.shared ≤ 1)
unfolding cancel_code
cancel_code-last workers objects next_id num_threads id i r k h {t} {u} reach at e steps =
    let v = Reach-Exclusive workers objects next_id num_threads reach in
    let (g, fewer) =
      gone_after_action workers id i r (λ s. (cancel_active id s).1) _ t u at v
        (cancel_active-Gone id r t.shared v.well_formed e) steps in
    (g.unregistered, fewer, handed_once r t.shared v.well_formed)

-- A task that was made, whose identifier is not registered, and that is neither with a worker nor in
-- the pool's queue nor about to be put there: no thread ever carries it again.
pub unregistered_never_carried :
    (workers : ℕ) (objects : Objects) (next_id : ℕ) (num_threads : Bytes) (id : Bytes) (r j : ℕ)
    {t u : Threads}
    → Reach workers objects next_id num_threads t
    → Gone id r t.shared
    → handed r t.shared ≡ 0
    → Steps workers t u
    → u.carried j ≢ some r
unregistered_never_carried workers objects next_id num_threads id r j {t} reach g none_left steps
      e =
    let v = Reach-Exclusive workers objects next_id num_threads reach in
    let (g', fewer) = Steps-Gone id r workers t steps v g in
    let there = (Steps-Exclusive workers t steps v).listed j r e in absurd (omega arith)
