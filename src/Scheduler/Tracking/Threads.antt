-- ===== src/Scheduler/Tracking/Threads.antt =====
-- The scheduler's thread and the workers lose no registered task.
use task_sched_x.Scheduler.Loop.Cases.{fetch_cases, wake_cases}
use task_sched_x.Prelude.{
  ℕ, ◌<◌, ◌≤◌, ◌≡◌, ◌≢◌, refl, sym, ap, ◌∙◌, inl, inr, none, some, [], ◌∷◌, find, arith, Bool-cases,
  Option-cases, count-append,
}
use task_sched_x.Prelude.Int.{ℤ}
use task_sched_x.Task.{set_status}
use task_sched_x.TaskQueue
use task_sched_x.TaskQueue.{TaskQueue}
use task_sched_x.TaskQueue.Order.{count-pq_push}
use task_sched_x.Scheduler.State.{Scheduler, at_head, popped, checked, sleeping}
use task_sched_x.Scheduler.WellFormed.{WellFormed, places, held}
use task_sched_x.Scheduler.Loop.{fetch, wake, look_up, dispatch, leave_loop}
use task_sched_x.Scheduler.Execute.{is_cancelled}
use task_sched_x.Scheduler.Invariant.{pop_split}
use task_sched_x.Scheduler.Tracking.{Tracked}

-- A step that changes neither tasks nor registry, and loses nothing.
pub record Keeps (s t : Scheduler) : Type 0 where
  pub objects : t.objects ≡ s.objects
  pub active : t.active_tasks ≡ s.active_tasks
  pub more : (r : ℕ) → places r s ≤ places r t

pub Keeps-Tracked : (s t : Scheduler) → Keeps s t → Tracked s → Tracked t
Keeps-Tracked s t h k id r e =
    let (fine, placed) = k id r (ap (find id) (sym h.active) ∙ e) in
    (rw h.objects fine, omega (arith, placed, h.more r))

left-Keeps : (s : Scheduler) → ((r : ℕ) → held r s.loop ≡ 0) → Keeps s (leave_loop s)
unfolding leave_loop
left-Keeps s free = record { objects = refl; active = refl; more = λ r. omega (arith, free r) }

pub fetch-Tracked :
    (now : ℤ) (s t : Scheduler) → s.loop ≡ at_head → fetch now s ≡ some t → Tracked s → Tracked t
unfolding TaskQueue.push
fetch-Tracked now s t l f k =
    Keeps-Tracked s t
      (fetch_cases (Keeps s) now s t f (left-Keeps s (λ r. rw l refl)) λ x rest pop.
        let e = pop_split s.task_queue x rest pop in
        (
          record {
            objects = refl;
            active = refl;
            more = λ r. rw (e, l) (omega (arith, count-pq_push s.objects x r rest.pq));
          },
          record { objects = refl; active = refl; more = λ r. rw (e, l) (omega arith) },
        ))
      k

pub wake-Tracked :
    (now due : ℤ) (s t : Scheduler)
    → s.loop ≡ sleeping due
    → wake now due s ≡ some t
    → Tracked s
    → Tracked t
wake-Tracked now due s t l f k =
    Keeps-Tracked s t
      (wake_cases (Keeps s) now due s t f (left-Keeps s (λ r. rw l refl))
        (record { objects = refl; active = refl; more = λ r. rw l (omega arith) }))
      k

dropped-Tracked :
    (r : ℕ) (s : Scheduler)
    → s.loop ≡ popped r
    → find (s.objects r).task_id s.active_tasks ≡ none
    → WellFormed s
    → Tracked s
    → Tracked (record s { loop = at_head })
dropped-Tracked r s l missing v k j x e =
    let (fine, placed) = k j x e in
    let apart : r ≢ x = λ h. ground (arith, v.registered j x e) in
    let placed_popped : 0 < places x (record s { loop = popped r }) = rw l at placed in
    (fine, ground (arith, apart))

-- What the registry has under the identifier of the task is the task.
same_task :
    (r x : ℕ) (s : Scheduler)
    → s.loop ≡ popped r
    → WellFormed s
    → find (s.objects r).task_id s.active_tasks ≡ some x
    → x ≡ r
same_task r x s l v e =
    let (below, same) = v.registered (s.objects r).task_id x e in
    let here : held r s.loop ≡ 1 = rw l (ground arith) in
    v.distinct x r below (v.allocated r (omega (arith, here))) same

-- The thread drops a task only if it is not registered.
pub look_up-Tracked :
    (r : ℕ) (s : Scheduler) → s.loop ≡ popped r → WellFormed s → Tracked s → Tracked (look_up r s)
unfolding look_up
look_up-Tracked r s l v k = elim (Option-cases (find (s.objects r).task_id s.active_tasks)) [
  | inl none_there ↦ rw (none_there, look_up) (dropped-Tracked r s l none_there v k)
  | inr (x, e) ↦ elim (Bool-cases (is_cancelled (s.objects x).status)) [
    | inl bad ↦ cc ((k (s.objects r).task_id x e).0, bad)
    | inr good ↦
        rw (e, look_up, good)
          (Keeps-Tracked s (record s { loop = checked x })
            (record {
              objects = refl;
              active = refl;
              more = λ y. rw (l, same_task r x s l v e) (omega arith);
            })
            k)
  ]
]

pub dispatch-Tracked :
    (r : ℕ) (s : Scheduler) → s.loop ≡ checked r → Tracked s → Tracked (dispatch r s)
unfolding dispatch set_status
dispatch-Tracked r s l k id x e =
    let placed : 0 < places x (record s { loop = checked r }) = rw l at (k id x e).1 in
    (ground (arith, k id x e), omega (arith, count-append x s.pending (r ∷ [])))
