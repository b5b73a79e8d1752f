-- ===== src/Scheduler/Tracking.antt =====
-- What it takes for a registered task not to be lost, and the client's actions that keep it.
pub mod Threads
pub mod Workers
pub mod Runs
use task_sched_x.Prelude.{
  ℕ, ◌+◌, ◌<◌, ◌≤◌, ◌≡◌, ◌≢◌, refl, sym, ap, ◌∙◌, inl, inr, Bool, true, false, Option, none, some,
  List, [], ◌∷◌, ◌++◌, Bytes, find, put, erase, count, if◌then◌else◌, ◌==◌, arith, Bool-cases,
  Option-cases, find-put, find-erase, str_eq, str_eq_iff,
}
use task_sched_x.Task.{Task, Status, format_id, new_task}
use task_sched_x.TaskQueue
use task_sched_x.TaskQueue.{TaskQueue}
use task_sched_x.TaskQueue.Order.{count-pq_push}
use task_sched_x.TaskQueue.Cancel.{mark, without, has_id}
use task_sched_x.Scheduler.State.{Scheduler}
use task_sched_x.Scheduler.WellFormed.{WellFormed, places, held}
use task_sched_x.Scheduler.Callbacks.{Quiet}
use task_sched_x.Scheduler.Client.{TaskConfig, schedule_task, make_task, cancel_task}
use task_sched_x.Scheduler.Execute.{is_cancelled}
use task_sched_x.Scheduler.Cancelling.{ActiveCancelled, cancel_task_active}
use task_sched_x.Scheduler.Cancelling.Queued.{
  cancel_task-queued, cancel_task-missing, after_queue_cancel, after_unknown,
}

-- Every registered task is on its way, and is not marked as cancelled.
abbrev pub Tracked : Scheduler → Type 0
Tracked s =
    (id : Bytes) (r : ℕ)
    → find id s.active_tasks ≡ some r
    → (is_cancelled (s.objects r).status ≡ false) × (0 < places r s)

pub schedule-Tracked :
    (c : TaskConfig) (s : Scheduler) → WellFormed s → Tracked s → Tracked (schedule_task c s).1
unfolding schedule_task make_task new_task TaskQueue.push
schedule-Tracked c s v k id r e = ground (
  arith,
  find-put (format_id s.next_id) id s.next_object s.active_tasks,
  count-pq_push (make_task c s).1.objects s.next_object r s.task_queue.pq,
  v.registered id r,
  k id r,
)

-- The cancellation of a registered task.
active-Tracked :
    (id : Bytes) (x : ℕ) (s s' : Scheduler)
    → WellFormed s
    → find id s.active_tasks ≡ some x
    → ActiveCancelled id x s s'
    → Tracked s
    → Tracked s'
active-Tracked id x s s' v e a k j r f = elim (Bool-cases (str_eq j id)) [
  | inl same ↦ let j_id : j ≡ id = (str_eq_iff j id).0 same in ground (arith, a.unregistered)
  | inr other ↦
      let ne : j ≢ id = λ h. ground (arith, str_eq_iff j id) in
      let g : find j s.active_tasks ≡ some r = sym (a.other_tasks j ne) ∙ f in
      let apart : r ≢ x = λ h. ne (
        sym (v.registered j r g).1 ∙ ap (λ y. (s.objects y).task_id) h ∙ (v.registered id x e).1) in
      (
        rw (a.other_objects r apart) (k j r g).0,
        rw (a.same_queue, a.same_jobs.0, a.same_jobs.1, a.same_loop.0) (k j r g).1,
      )
]

-- The queue loses only tasks with the identifier.
count-others :
    (id : Bytes) (o : ℕ → Task) (r : ℕ) (xs : List ℕ)
    → (o r).task_id ≢ id
    → count r (without id o xs) ≡ count r xs
count-others id o r [] ne = refl
count-others id o r (x ∷ xs) ne =
    ground (arith, count-others id o r xs ne, str_eq_iff (o x).task_id id)

queued-Tracked :
    (id : Bytes) (s : Scheduler)
    → WellFormed s
    → find id s.active_tasks ≡ none
    → Tracked s
    → Tracked (after_queue_cancel id s) × Tracked (after_unknown id s)
unfolding after_queue_cancel after_unknown
queued-Tracked id s v e k = (λ j r f. kept j r f, λ j r f. kept j r f)
  where
    foreign : (j : Bytes) (r : ℕ) → find j s.active_tasks ≡ some r → (s.objects r).task_id ≢ id
    foreign j r f h = ground (arith, v.registered j r f)

    kept :
        (j : Bytes) (r : ℕ)
        → find j s.active_tasks ≡ some r
        → (is_cancelled (mark id s.objects s.task_queue.pq r).status ≡ false)
          × (0
              < places r
                  (record s { task_queue = record { pq = without id s.objects s.task_queue.pq } }))
    kept j r f = (
      ground (arith, foreign j r f, str_eq_iff (s.objects r).task_id id, k j r f),
      rw (count-others id s.objects r s.task_queue.pq (foreign j r f)) (k j r f).1,
    )

pub cancel-Tracked :
    (id : Bytes) (s : Scheduler)
    → WellFormed s
    → Quiet s.completion_callback
    → Tracked s
    → Tracked (cancel_task id s).1
cancel-Tracked id s v quiet k = elim (Option-cases (find id s.active_tasks)) [
  | inr (x, e) ↦
      active-Tracked id x s (cancel_task id s).1 v e (cancel_task_active id x s v quiet e).1 k
  | inl e ↦ elim (Bool-cases (has_id id s.objects s.task_queue.pq)) [
    | inl there ↦ rw (cancel_task-queued id s quiet v.sorted e there) (queued-Tracked id s v e k).0
    | inr missing ↦ rw (cancel_task-missing id s v.sorted e missing) (queued-Tracked id s v e k).1
  ]
]
