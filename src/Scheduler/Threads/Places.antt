-- ===== src/Scheduler/Threads/Places.antt =====
-- However the threads interleave, a task that was made comes to no new place.
use task_sched_x.Prelude.{
  ℕ, ◌≤◌, ◌<◌, ◌≡◌, inl, inr, true, some, [], ◌∷◌, arith, subst, count-append, Bool-cases,
}
use task_sched_x.Prelude.Int.{ℤ}
use task_sched_x.Task.{new_task}
use task_sched_x.TaskQueue
use task_sched_x.TaskQueue.{TaskQueue}
use task_sched_x.TaskQueue.Order.{count-pq_push}
use task_sched_x.Scheduler.Invariant.{pop_split}
use task_sched_x.Scheduler.State.{Scheduler, at_head, popped, checked}
use task_sched_x.Scheduler.Invariant.Loop.{same_task}
use task_sched_x.Scheduler.Threads.Looping.{own-LoopKeeps}
use task_sched_x.Scheduler.WellFormed.{WellFormed, places}
use task_sched_x.Scheduler.Client.{TaskConfig, start, request_stop}
use task_sched_x.Scheduler.System
use task_sched_x.Scheduler.System.{
  remove, schedule, cancel, query, set_callback, starts, stops, stops_pool, fetches, wakes,
  looks_up, dispatches, takes as takes_job, executes, discards as discards_jobs,
}
use task_sched_x.Scheduler.Loop.{fetch, wake, look_up, dispatch, leave_loop}
use task_sched_x.Scheduler.Loop.Cases.{fetch_cases, wake_cases, look_up_cases}
use task_sched_x.Scheduler.Invariant.{count-remove}
use task_sched_x.Scheduler.Threads.{register}
use task_sched_x.Scheduler.Threads.Steps.{
  Threads, of_loop, taken, moved, made, queued, laid_down, Step, Steps, begins, takes, moves, makes,
  queues, lays_down, own, discards, here, next,
}
use task_sched_x.Scheduler.Threads.Neutral.{Neutral-Shrinks}
use task_sched_x.Scheduler.Threads.Exclusive.{Exclusive, moved-Neutral, enqueue_carried}
use task_sched_x.Scheduler.Threads.Exclusive.Kept.{Steps-Exclusive}
use task_sched_x.Scheduler.Threads.Neutral.Steady.{IsProper}

-- The scheduler's thread brings no task from nowhere.
module _ (r : ℕ) where
  fetch-places :
      (now : ℤ) (s t : Scheduler)
      → s.loop ≡ at_head
      → fetch now s ≡ some t
      → places r t ≤ places r s
  unfolding leave_loop TaskQueue.push
  fetch-places now s t l f =
      fetch_cases (λ t'. places r t' ≤ places r s) now s t f (omega arith)
        λ x rest pop.
          let e = pop_split s.task_queue x rest pop in
          (rw (e, l) (omega (arith, count-pq_push s.objects x r rest.pq)), rw (e, l) (omega arith))

  wake-places : (now due : ℤ) (s t : Scheduler) → wake now due s ≡ some t → places r t ≤ places r s
  unfolding leave_loop
  wake-places now due s t f =
      wake_cases (λ t'. places r t' ≤ places r s) now due s t f (omega arith) (omega arith)

  look_up-places :
      (x : ℕ) (s : Scheduler)
      → s.loop ≡ popped x
      → WellFormed s
      → places r (look_up x s) ≤ places r s
  look_up-places x s l v =
      look_up_cases (λ t'. places r t' ≤ places r s) x s (omega arith)
        (λ y e live. rw (l, same_task x s l v y e) (omega arith))

  dispatch-places :
      (x : ℕ) (s : Scheduler) → s.loop ≡ checked x → places r (dispatch x s) ≤ places r s
  unfolding dispatch
  dispatch-places x s l = rw l (omega (arith, count-append r s.pending (x ∷ [])))

  start-places : (s : Scheduler) → places r (start s) ≤ places r s
  unfolding start
  start-places s = elim (Bool-cases s.is_running) [
    | inl run ↦ rw (run, start) (omega arith)
    | inr off ↦ rw (off, start) (omega arith)
  ]

  own-places :
      {s s' : Scheduler} (step : System.Step s s')
      → of_loop step ≡ true
      → WellFormed s
      → places r s' ≤ places r s
  unfolding request_stop
  own-places {s} (starts ready) of_it v = start-places s
  own-places stops of_it v = omega arith
  own-places (stops_pool off idle) of_it v = omega arith
  own-places {s} (fetches now t at f) of_it v = fetch-places now s t at f
  own-places {s} (wakes now due t at f) of_it v = wake-places now due s t f
  own-places {s} (looks_up x at) of_it v = look_up-places x s at v
  own-places {s} (dispatches x at) of_it v = dispatch-places x s at
  own-places (schedule c room) of_it v = cc
  own-places (cancel id) of_it v = cc
  own-places (query id) of_it v = cc
  own-places (set_callback callback) of_it v = cc
  own-places (discards_jobs off none_left) of_it v = cc
  own-places (takes_job x rest e run) of_it v = cc
  own-places (executes x thread moment now some_there) of_it v = cc

  register-places :
      (c : TaskConfig) (s : Scheduler)
      → r < s.next_object
      → (places r (record (register c s) { executing = s.next_object ∷ s.executing }) ≤ places r s)
        × (r < (register c s).next_object)
  unfolding register new_task
  register-places c s made_before = (ground arith, ground arith)

  -- A task that was made comes to no more places.
  Step-places :
      (workers : ℕ) (t : Threads) {u : Threads}
      → Step workers t u
      → Exclusive t
      → r < t.shared.next_object
      → (places r u.shared ≤ places r t.shared) × (r < u.shared.next_object)
  unfolding taken moved made queued laid_down TaskQueue.push
  Step-places workers t (begins i request out e c) v made_before = (omega arith, made_before)
  Step-places workers t (takes i x rest thread moment now in_pool e c p run) v made_before =
      (rw p (omega arith), made_before)
  Step-places workers t (moves i f k e) v made_before =
      let n = moved-Neutral t i f k v e in
      ((Neutral-Shrinks n).fewer r, rw n.next_object made_before)
  Step-places workers t (makes i c k e room) v made_before = register-places c t.shared made_before
  Step-places workers t (queues i x k e) v made_before =
      let (c, p) =
        enqueue_carried x k (t.carried i) (subst (IsProper (t.carried i)) e (v.proper i)) in
      (
        omega (
          arith,
          count-pq_push t.shared.objects x r t.shared.task_queue.pq,
          count-remove x r t.shared.executing (v.listed i x c),
        ),
        made_before,
      )
  Step-places workers t (lays_down i x e c) v made_before =
      (omega (arith, count-remove x r t.shared.executing (v.listed i x c)), made_before)
  Step-places workers t (own s step of_it) v made_before = (
    own-places step of_it v.well_formed,
    rw (own-LoopKeeps step of_it v.well_formed).next_object made_before,
  )
  Step-places workers t (discards off done) v made_before = (omega arith, made_before)

  pub Steps-places :
      (workers : ℕ) (t : Threads) {u : Threads}
      → Steps workers t u
      → Exclusive t
      → r < t.shared.next_object
      → (places r u.shared ≤ places r t.shared) × (r < u.shared.next_object)
  Steps-places workers t here v made_before = (omega arith, made_before)
  Steps-places workers t (next {u} steps step) v made_before =
      let (fewer, there) = Steps-places workers t steps v made_before in
      let (fewer', there') = Step-places workers u step (Steps-Exclusive workers t steps v) there in
      (omega arith, there')
