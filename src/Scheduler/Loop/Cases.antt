-- ===== src/Scheduler/Loop/Cases.antt =====
-- The states in which the parts of `runSchedulerLoop` end, as rules for what is proved of them.
use task_sched_x.Prelude.{
  ℕ, ◌≡◌, refl, inl, inr, true, false, Option, none, some, find, arith, Bool-cases, Option-cases,
  subst,
}
use task_sched_x.Prelude.Int.{ℤ, lt_int}
use task_sched_x.TaskQueue
use task_sched_x.TaskQueue.{TaskQueue}
use task_sched_x.Scheduler.State.{Scheduler, at_head, popped, checked, sleeping}
use task_sched_x.Scheduler.Execute.{is_cancelled}
use task_sched_x.Scheduler.Loop.{fetch, wake, look_up, hold_or_put_back, leave_loop}

module _ {ℓ} (P : Scheduler → Type ℓ) where
  hold_cases :
      (now : ℤ) (x : ℕ) (rest : TaskQueue) (s : Scheduler)
      → P (record s {
        task_queue = TaskQueue.push s.objects x rest;
        loop = sleeping (s.objects x).start_time;
      })
      → P (record s { task_queue = rest; loop = popped x })
      → P (hold_or_put_back now x rest s)
  unfolding hold_or_put_back
  hold_cases now x rest s early due = elim (Bool-cases (lt_int now (s.objects x).start_time)) [
    | inl e ↦ rw (e, hold_or_put_back) early
    | inr e ↦ rw (e, hold_or_put_back) due
  ]

  fetched :
      (now : ℤ) (s t : Scheduler) (o : Option (ℕ × TaskQueue))
      → TaskQueue.pop s.task_queue ≡ o
      → s.is_running ≡ true
      → fetch now s ≡ some t
      → ((x : ℕ) (rest : TaskQueue)
          → TaskQueue.pop s.task_queue ≡ some (x, rest)
          → P (hold_or_put_back now x rest s))
      → P t
  unfolding fetch
  fetched now s t none e run f holds = ground arith
  fetched now s t (some (x, rest)) e run f holds =
      let g : hold_or_put_back now x rest s ≡ t = ground (arith, f) in subst P g (holds x rest e)

  -- The thread leaves the loop, puts a task back and sleeps, or holds it.
  pub fetch_cases :
      (now : ℤ) (s t : Scheduler)
      → fetch now s ≡ some t
      → P (leave_loop s)
      → ((x : ℕ) (rest : TaskQueue)
          → TaskQueue.pop s.task_queue ≡ some (x, rest)
          → P (record s {
            task_queue = TaskQueue.push s.objects x rest;
            loop = sleeping (s.objects x).start_time;
          })
            × P (record s { task_queue = rest; loop = popped x }))
      → P t
  unfolding fetch
  fetch_cases now s t f leaves holds = elim (Bool-cases s.is_running) [
    | inr off ↦ let g : leave_loop s ≡ t = ground arith in subst P g leaves
    | inl run ↦
        fetched now s t (TaskQueue.pop s.task_queue) refl run f
          (λ x rest e. hold_cases now x rest s (holds x rest e).0 (holds x rest e).1)
  ]

  -- It leaves the loop, or is at its head again.
  pub wake_cases :
      (now due : ℤ) (s t : Scheduler)
      → wake now due s ≡ some t
      → P (leave_loop s)
      → P (record s { loop = at_head })
      → P t
  unfolding wake
  wake_cases now due s t f leaves again = elim (Bool-cases s.is_running) [
    | inr off ↦ let g : leave_loop s ≡ t = ground arith in subst P g leaves
    | inl run ↦ let g : record s { loop = at_head } ≡ t = ground arith in subst P g again
  ]

  -- The task is dropped, or it is registered and not marked as cancelled.
  pub look_up_cases :
      (x : ℕ) (s : Scheduler)
      → P (record s { loop = at_head })
      → ((y : ℕ)
          → find (s.objects x).task_id s.active_tasks ≡ some y
          → is_cancelled (s.objects y).status ≡ false
          → P (record s { loop = checked y }))
      → P (look_up x s)
  unfolding look_up
  look_up_cases x s dropped found =
      elim (Option-cases (find (s.objects x).task_id s.active_tasks)) [
        | inl e ↦ rw (e, look_up) dropped
        | inr (y, e) ↦ elim (Bool-cases (is_cancelled (s.objects y).status)) [
          | inl c ↦ rw (e, look_up, c) dropped
          | inr live ↦ rw (e, look_up, live) (found y e live)
        ]
      ]
