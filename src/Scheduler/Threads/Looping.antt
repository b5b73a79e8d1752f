-- ===== src/Scheduler/Threads/Looping.antt =====
-- What the scheduler's thread leaves alone, and when it hands a task to the pool.
use task_sched_x.Scheduler.Loop.Cases.{fetch_cases, wake_cases, look_up_cases}
use task_sched_x.Prelude.{
  ℕ, ◌+◌, ◌≤◌, ◌≡◌, refl, ap, inl, inr, true, none, some, [], ◌∷◌, find, count, if◌then◌else◌, ◌==◌,
  arith, Bool-cases, ==_iff, count-append,
}
use task_sched_x.Prelude.Int.{ℤ}
use task_sched_x.Task.{set_status, Objects}
use task_sched_x.Scheduler.State.{
  Scheduler, LoopPhase, not_started, at_head, popped, checked, sleeping, finished,
}
use task_sched_x.Scheduler.WellFormed.{WellFormed, held}
use task_sched_x.Scheduler.Client.{start, request_stop}
use task_sched_x.Scheduler.Loop.{fetch, wake, look_up, dispatch, leave_loop}
use task_sched_x.Scheduler.System
use task_sched_x.Scheduler.System.{
  schedule, cancel, query, set_callback, starts, stops, stops_pool, discards, fetches, wakes,
  looks_up, dispatches, takes, executes,
}
use task_sched_x.Scheduler.Threads.Steps.{of_loop}

-- Whether the scheduler's thread is about to hand over the task.
abbrev pub about_to : ℕ → LoopPhase → ℕ
about_to r not_started = 0
about_to r at_head = 0
about_to r (popped x) = 0
about_to r (checked x) = if x == r then 1 else 0
about_to r (sleeping due) = 0
about_to r finished = 0

-- How often the task is handed over, or about to be: it may run that often, without being looked up
-- in the registry again.
abbrev pub handed : ℕ → Scheduler → ℕ
handed r s = about_to r s.loop + count r s.pending + count r s.executing

about_to-held : (r : ℕ) (loop : LoopPhase) → about_to r loop ≤ held r loop
about_to-held r not_started = omega arith
about_to-held r at_head = omega arith
about_to-held r (popped x) = ground arith
about_to-held r (checked x) = omega arith
about_to-held r (sleeping due) = omega arith
about_to-held r finished = omega arith

pub handed_once : (r : ℕ) (s : Scheduler) → WellFormed s → handed r s ≤ 1
handed_once r s v = omega (arith, v.once r, about_to-held r s.loop)

pub record LoopKeeps (s s' : Scheduler) : Type 0 where
  pub executing : s'.executing ≡ s.executing
  pub active : s'.active_tasks ≡ s.active_tasks
  pub next_object : s'.next_object ≡ s.next_object
  pub ids : (x : ℕ) → (s'.objects x).task_id ≡ (s.objects x).task_id
  -- only a task that is registered is handed over
  pub handing :
      (r : ℕ) → find (s.objects r).task_id s.active_tasks ≡ none → handed r s' ≤ handed r s

unchanged :
    (s s' : Scheduler)
    → s'.objects ≡ s.objects
    → s'.executing ≡ s.executing
    → s'.active_tasks ≡ s.active_tasks
    → s'.next_object ≡ s.next_object
    → ((r : ℕ) → handed r s' ≤ handed r s)
    → LoopKeeps s s'
unchanged s s' o e a n h = record {
  executing = e;
  active = a;
  next_object = n;
  ids = λ x. ap (λ (f : Objects). (f x).task_id) o;
  handing = λ r _. h r;
}

leave-LoopKeeps : (s : Scheduler) → LoopKeeps s (leave_loop s)
unfolding leave_loop
leave-LoopKeeps s = unchanged _ _ refl refl refl refl (λ r. omega arith)

fetch-LoopKeeps : (now : ℤ) (s t : Scheduler) → fetch now s ≡ some t → LoopKeeps s t
fetch-LoopKeeps now s t f = fetch_cases (LoopKeeps s) now s t f (leave-LoopKeeps s) (λ x rest e. (
  unchanged _ _ refl refl refl refl (λ r. omega arith),
  unchanged _ _ refl refl refl refl (λ r. omega arith),
))

wake-LoopKeeps : (now due : ℤ) (s t : Scheduler) → wake now due s ≡ some t → LoopKeeps s t
wake-LoopKeeps now due s t f =
    wake_cases (LoopKeeps s) now due s t f (leave-LoopKeeps s)
      (unchanged _ _ refl refl refl refl (λ r. omega arith))

look_up-LoopKeeps : (x : ℕ) (s : Scheduler) → WellFormed s → LoopKeeps s (look_up x s)
look_up-LoopKeeps x s v =
    look_up_cases (LoopKeeps s) x s (unchanged _ _ refl refl refl refl (λ r. omega arith))
      (λ y e live. record {
        executing = refl;
        active = refl;
        next_object = refl;
        ids = λ z. refl;
        handing = λ r h. ground (arith, (v.registered (s.objects x).task_id y e).1, ==_iff y r);
      })

dispatch-LoopKeeps : (x : ℕ) (s : Scheduler) → s.loop ≡ checked x → LoopKeeps s (dispatch x s)
unfolding dispatch set_status
dispatch-LoopKeeps x s l = record {
  executing = refl;
  active = refl;
  next_object = refl;
  ids = λ z. ground arith;
  handing = λ r h. rw l (omega (arith, count-append r s.pending (x ∷ [])));
}

start-LoopKeeps : (s : Scheduler) → LoopKeeps s (start s)
unfolding start
start-LoopKeeps s = elim (Bool-cases s.is_running) [
  | inl run ↦ rw (run, start) (unchanged _ _ refl refl refl refl (λ r. omega arith))
  | inr off ↦ rw (off, start) (unchanged _ _ refl refl refl refl (λ r. omega arith))
]

pub own-LoopKeeps :
    {s s' : Scheduler} (step : System.Step s s')
    → of_loop step ≡ true
    → WellFormed s
    → LoopKeeps s s'
unfolding request_stop
own-LoopKeeps {s} (starts ready) own v = start-LoopKeeps s
own-LoopKeeps stops own v = unchanged _ _ refl refl refl refl (λ r. omega arith)
own-LoopKeeps (stops_pool off idle) own v = unchanged _ _ refl refl refl refl (λ r. omega arith)
own-LoopKeeps {s} (fetches now t at f) own v = fetch-LoopKeeps now s t f
own-LoopKeeps {s} (wakes now due t at f) own v = wake-LoopKeeps now due s t f
own-LoopKeeps {s} (looks_up x at) own v = look_up-LoopKeeps x s v
own-LoopKeeps {s} (dispatches x at) own v = dispatch-LoopKeeps x s at
own-LoopKeeps (schedule c room) own v = cc
own-LoopKeeps (cancel id) own v = cc
own-LoopKeeps (query id) own v = cc
own-LoopKeeps (set_callback callback) own v = cc
own-LoopKeeps (discards off none_left) own v = cc
own-LoopKeeps (takes r rest e run) own v = cc
own-LoopKeeps (executes r thread moment now some_there) own v = cc
