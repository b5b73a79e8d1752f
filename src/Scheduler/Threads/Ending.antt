-- ===== src/Scheduler/Threads/Ending.antt =====
-- `runSchedulerLoop` comes to an end after `stop`.
use task_sched_x.Scheduler.Loop.Cases.{look_up_cases}
use task_sched_x.Prelude.{
  ℕ, ◌+◌, ◌≤◌, ◌≡◌, refl, ◌∙◌, inl, inr, ◌⊎◌, Bool, true, false, Bytes, if◌then◌else◌, arith, subst,
}
use task_sched_x.Prelude.Int.{ℤ}
use task_sched_x.Task.{Objects}
use task_sched_x.Scheduler.State.{
  Scheduler, LoopPhase, not_started, at_head, popped, checked, sleeping, finished,
}
use task_sched_x.Scheduler.Client.{request_stop}
use task_sched_x.Scheduler.Loop.{fetch, wake, look_up, dispatch, leave_loop}
use task_sched_x.Scheduler.System
use task_sched_x.Scheduler.System.{
  Idle, schedule, cancel, query, set_callback, starts, stops, stops_pool, fetches, wakes, looks_up,
  dispatches, executes,
}
use task_sched_x.Scheduler.Threads.{register}
use task_sched_x.Scheduler.Threads.Steps.{
  Threads, of_loop, taken, moved, made, queued, laid_down, Step, Steps, Reach, begins, takes, moves,
  makes, queues, lays_down, own, discards, here, next,
}
use task_sched_x.Scheduler.Threads.Exclusive.{Exclusive, moved-Neutral}
use task_sched_x.Scheduler.Threads.Exclusive.Kept.{Steps-Exclusive, Reach-Exclusive}

-- How many steps the thread takes at most, when `stop` was called.
abbrev loop_left : LoopPhase → ℕ
loop_left not_started = 0
loop_left at_head = 1
loop_left (popped r) = 3
loop_left (checked r) = 2
loop_left (sleeping due) = 1
loop_left finished = 0

-- The steps of the scheduler's thread itself, and the calls of `start`.
abbrev pub of_thread : {s s' : Scheduler} → System.Step s s' → Bool
of_thread (fetches now t at f) = true
of_thread (wakes now due t at f) = true
of_thread (looks_up r at) = true
of_thread (dispatches r at) = true
of_thread step = false

abbrev pub is_start : {s s' : Scheduler} → System.Step s s' → Bool
is_start (starts ready) = true
is_start step = false

abbrev pub of_loop_thread : {workers : ℕ} {t u : Threads} → Step workers t u → Bool
of_loop_thread (own s step of_it) = of_thread step
of_loop_thread step = false

abbrev pub starts_loop : {workers : ℕ} {t u : Threads} → Step workers t u → Bool
starts_loop (own s step of_it) = is_start step
starts_loop step = false

abbrev pub loop_steps : {workers : ℕ} {t u : Threads} → Steps workers t u → ℕ
loop_steps here = 0
loop_steps (next r step) = (if of_loop_thread step then 1 else 0) + loop_steps r

-- How often `start` is called in the steps.
abbrev pub start_calls : {workers : ℕ} {t u : Threads} → Steps workers t u → ℕ
start_calls here = 0
start_calls (next r step) = (if starts_loop step then 1 else 0) + start_calls r

loop_left-bound : (loop : LoopPhase) → loop_left loop ≤ 3
loop_left-bound not_started = omega arith
loop_left-bound at_head = omega arith
loop_left-bound (popped r) = omega arith
loop_left-bound (checked r) = omega arith
loop_left-bound (sleeping due) = omega arith
loop_left-bound finished = omega arith

-- `stop` was called, and the loop nears its end.
abbrev Nearer : Bool → Scheduler → Scheduler → Type 0
Nearer b s s' =
    (s'.is_running ≡ false) × ((if b then 1 else 0) + loop_left s'.loop ≤ loop_left s.loop)

look_up-Nearer :
    (r : ℕ) (s : Scheduler) → s.loop ≡ popped r → s.is_running ≡ false → Nearer true s (look_up r s)
look_up-Nearer r s at off =
    look_up_cases (Nearer true s) r s (off, rw at (omega arith))
      (λ y e live. (off, rw at (omega arith)))

own-Nearer :
    {s s' : Scheduler} (step : System.Step s s')
    → of_loop step ≡ true
    → is_start step ≡ false
    → s.is_running ≡ false
    → Nearer (of_thread step) s s'
unfolding request_stop dispatch fetch wake leave_loop
own-Nearer (starts ready) of_it first off = cc
own-Nearer stops of_it first off = (refl, omega arith)
own-Nearer (stops_pool out idle) of_it first off = (off, omega arith)
own-Nearer {s} (fetches now t at f) of_it first off =
    let g : leave_loop s ≡ t = ground arith in subst (Nearer true s) g (rw at (off, omega arith))
own-Nearer {s} (wakes now due t at f) of_it first off =
    let g : leave_loop s ≡ t = ground arith in subst (Nearer true s) g (rw at (off, omega arith))
own-Nearer {s} (looks_up r at) of_it first off = look_up-Nearer r s at off
own-Nearer {s} (dispatches r at) of_it first off = rw at (off, omega arith)
own-Nearer (schedule c room) of_it first off = cc
own-Nearer (cancel id) of_it first off = cc
own-Nearer (query id) of_it first off = cc
own-Nearer (set_callback callback) of_it first off = cc
own-Nearer (System.discards out none_left) of_it first off = cc
own-Nearer (System.takes r rest e run) of_it first off = cc
own-Nearer (executes r thread moment now some_there) of_it first off = cc

Step-Nearer :
    {workers : ℕ} {t u : Threads} (step : Step workers t u)
    → Exclusive t
    → starts_loop step ≡ false
    → t.shared.is_running ≡ false
    → Nearer (of_loop_thread step) t.shared u.shared
unfolding taken moved made queued laid_down register
Step-Nearer (begins i request out e c) v first off = (off, omega arith)
Step-Nearer (takes i r rest thread moment now in_pool e c p run) v first off = (off, omega arith)
Step-Nearer {t} (moves i f g e) v first off =
    let n = moved-Neutral t i f g v e in (n.running ∙ off, rw n.loop (omega arith))
Step-Nearer (makes i c k e room) v first off = (off, omega arith)
Step-Nearer (queues i r k e) v first off = (off, omega arith)
Step-Nearer (lays_down i r e c) v first off = (off, omega arith)
Step-Nearer (own s step of_it) v first off = own-Nearer step of_it first off
Step-Nearer (discards out done) v first off = (off, omega arith)

Steps-Nearer :
    {workers : ℕ} {t u : Threads} (r : Steps workers t u)
    → Exclusive t
    → start_calls r ≡ 0
    → t.shared.is_running ≡ false
    → (u.shared.is_running ≡ false)
      × (loop_steps r + loop_left u.shared.loop ≤ loop_left t.shared.loop)
Steps-Nearer here v first off = (off, omega arith)
Steps-Nearer {workers} {t} (next r step) v first off =
    let (off', near) = Steps-Nearer r v (omega arith) off in
    let (off'', near') =
      Step-Nearer step (Steps-Exclusive workers t r v) (ground (arith, first)) off' in
    (off'', omega arith)

-- The thread can go on, or it has ended or was never started.
abbrev pub EndsOrGoes : Scheduler → Type 0
EndsOrGoes s =
    Idle s.loop ⊎ ((s' : Scheduler) × (step : System.Step s s') × (of_thread step ≡ true))

can_go : (s : Scheduler) (loop : LoopPhase) → s.loop ≡ loop → s.is_running ≡ false → EndsOrGoes s
unfolding fetch wake
can_go s not_started at off = inl (inl at)
can_go s at_head at off =
    inr (leave_loop s, fetches (ℤ.pos 0) (leave_loop s) at (rw (off, fetch) refl), refl)
can_go s (popped r) at off = inr (look_up r s, looks_up r at, refl)
can_go s (checked r) at off = inr (dispatch r s, dispatches r at, refl)
can_go s (sleeping due) at off =
    inr (leave_loop s, wakes due due (leave_loop s) at (rw (off, wake) refl), refl)
can_go s finished at off = inl (inr at)

-- When `stop` was called and `start` is not called again, the scheduler's thread takes at most three
-- more steps, whatever the other threads do between them; and until it has ended, or if it was never
-- started, it can take one: the predicate of the wait in which it may stand holds. (Whether it is told
-- so, by the notification of `stop`, is not the matter of this theorem.)
pub loop_ends :
    (workers : ℕ) (objects : Objects) (next_id : ℕ) (num_threads : Bytes) {t u : Threads}
    → Reach workers objects next_id num_threads t
    → t.shared.is_running ≡ false
    → (r : Steps workers t u) → start_calls r ≡ 0
    → (loop_steps r ≤ 3) × EndsOrGoes u.shared
loop_ends workers objects next_id num_threads {t} {u} reach off r first =
    let v = Reach-Exclusive workers objects next_id num_threads reach in
    let (off', near) = Steps-Nearer r v first off in
    (omega (arith, loop_left-bound t.shared.loop), can_go u.shared u.shared.loop refl off')
