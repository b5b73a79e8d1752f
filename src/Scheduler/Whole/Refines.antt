-- ===== src/Scheduler/Whole/Refines.antt =====
-- The two parts agree on the jobs, and each goes by its own steps.
use task_sched_x.Scheduler.Loop.Cases.{fetch_cases, wake_cases, look_up_cases}
use task_sched_x.Prelude.{
  ℕ, ◌≤◌, ◌<◌, ◌≡◌, ◌≢◌, refl, sym, ◌⊎◌, inl, inr, Bool, true, false, Option, none, update, ◌==◌,
  arith, Bool-cases, ==_iff,
}
use task_sched_x.ThreadPool.{Worker, starting, ready, deciding, blocked, busy, exited, woken}
use task_sched_x.ThreadPool.Steps.{Step as PoolStep}
use task_sched_x.Scheduler.State.{Scheduler}
use task_sched_x.Scheduler.Client
use task_sched_x.Scheduler.Client.{TaskConfig, request_stop}
use task_sched_x.Scheduler.Loop.{leave_loop}
use task_sched_x.Scheduler.System
use task_sched_x.Scheduler.System.{
  Idle, schedule, cancel, query, set_callback, starts, stops, fetches, wakes, looks_up, dispatches,
  executes,
}
use task_sched_x.Scheduler.Threads.{Program, ended}
use task_sched_x.Scheduler.Threads.Steps.{Step as ThreadStep}
use task_sched_x.Scheduler.Whole.{Whole, loop_alone}

abbrev pub is_busy : Worker ℕ → Bool
is_busy (busy task) = true
is_busy w = false

-- A worker that runs no job has no program, and carries no task.
abbrev pub Resting : ℕ → (ℕ → Worker ℕ) → (ℕ → Program) → (ℕ → Option ℕ) → Type 0
Resting n w p o = (i : ℕ) → i < n → is_busy (w i) ≡ false → (p i ≡ ended) × (o i ≡ none)

pub record Tied (n : ℕ) (w : Whole) : Type 0 where
  pub jobs : w.threads.shared.pending ≡ w.pool.task_queue
  pub flag : w.threads.shared.pool_stopped ≡ w.pool.stop_flag
  pub resting : Resting n w.pool.worker w.threads.program w.threads.carried

-- The part that goes on by itself, or stays as it is.
abbrev pub Follows : ℕ → Whole → Whole → Type 0
Follows n w v =
    (ThreadStep n w.threads v.threads ⊎ (v.threads ≡ w.threads))
    × (PoolStep n w.pool v.pool ⊎ (v.pool ≡ w.pool))

-- The scheduler's thread does nothing to the jobs, but for handing one over.
abbrev pub SameJobs : Scheduler → Scheduler → Type 0
SameJobs s s' = (s'.pending ≡ s.pending) × (s'.pool_stopped ≡ s.pool_stopped)

pub own-SameJobs :
    {s s' : Scheduler} (step : System.Step s s') → loop_alone step ≡ true → SameJobs s s'
unfolding request_stop Client.start leave_loop
own-SameJobs {s} (starts idle) alone = ground arith
own-SameJobs stops alone = (refl, refl)
own-SameJobs (System.stops_pool off idle) alone = cc
own-SameJobs {s} (fetches now t at f) alone =
    fetch_cases (SameJobs s) now s t f (refl, refl) (λ x rest e. ((refl, refl), (refl, refl)))
own-SameJobs {s} (wakes now due t at f) alone =
    wake_cases (SameJobs s) now due s t f (refl, refl) (refl, refl)
own-SameJobs {s} (looks_up x at) alone =
    look_up_cases (SameJobs s) x s (refl, refl) (λ y e live. (refl, refl))
own-SameJobs (dispatches x at) alone = cc
own-SameJobs (schedule c room) alone = cc
own-SameJobs (cancel id) alone = cc
own-SameJobs (query id) alone = cc
own-SameJobs (set_callback callback) alone = cc
own-SameJobs (System.discards off none_left) alone = cc
own-SameJobs (System.takes r rest e run) alone = cc
own-SameJobs (executes r thread moment now some_there) alone = cc

module _ (n i : ℕ) (w : ℕ → Worker ℕ) (p : ℕ → Program) (o : ℕ → Option ℕ) where
  -- A thread that is at work goes on: it is no worker that rests.
  pub goes_on-Resting :
      (p' : Program) → p i ≢ ended → Resting n w p o → Resting n w (update p i p') o
  goes_on-Resting p' ne h j lt idle = elim (Bool-cases (i == j)) [
    | inl same ↦ absurd (ne (rw (sym ((==_iff i j).0 same)) at (h j lt idle).0))
    | inr other ↦ rw other (h j lt idle)
  ]

  pub both-Resting :
      (p' : Program) (o' : Option ℕ)
      → p i ≢ ended
      → Resting n w p o
      → Resting n w (update p i p') (update o i o')
  both-Resting p' o' ne h j lt idle = elim (Bool-cases (i == j)) [
    | inl same ↦ absurd (ne (rw (sym ((==_iff i j).0 same)) at (h j lt idle).0))
    | inr other ↦ rw other (h j lt idle)
  ]

  -- Another thread begins.
  pub caller-Resting : (p' : Program) → n ≤ i → Resting n w p o → Resting n w (update p i p') o
  caller-Resting p' out h j lt idle = elim (Bool-cases (i == j)) [
    | inl same ↦ let e = (==_iff i j).0 same in absurd (omega arith)
    | inr other ↦ rw other (h j lt idle)
  ]

  -- A worker takes a job.
  pub busy-Resting :
      (task : ℕ) (p' : Program) (o' : Option ℕ)
      → Resting n w p o
      → Resting n (update w i (busy task)) (update p i p') (update o i o')
  busy-Resting task p' o' h j lt idle = elim (Bool-cases (i == j)) [
    | inl same ↦ ground arith
    | inr other ↦ rw other (h j lt (rw other at idle))
  ]

  -- A worker goes from one state without a job to another.
  pub moved-Resting :
      (x : Worker ℕ) → is_busy (w i) ≡ false → Resting n w p o → Resting n (update w i x) p o
  moved-Resting x before h j lt idle = elim (Bool-cases (i == j)) [
    | inl same ↦ let e = (==_iff i j).0 same in h j lt (rw (sym e) before)
    | inr other ↦ h j lt (rw other at idle)
  ]

  -- A worker has done its job.
  pub done-Resting :
      p i ≡ ended → Resting n w p o → Resting n (update w i ready) p (update o i none)
  done-Resting e h j lt idle = elim (Bool-cases (i == j)) [
    | inl same ↦ rw (same, sym ((==_iff i j).0 same)) (e, refl)
    | inr other ↦ rw other (h j lt (rw other at idle))
  ]

  pub idle-Resting : p i ≡ ended → o i ≡ none → Resting n w p o → Resting n (update w i ready) p o
  idle-Resting e f h j lt idle = elim (Bool-cases (i == j)) [
    | inl same ↦ rw (sym ((==_iff i j).0 same)) (e, f)
    | inr other ↦ h j lt (rw other at idle)
  ]

pub is_busy-woken : (w : Worker ℕ) → is_busy (woken w) ≡ is_busy w
is_busy-woken starting = refl
is_busy-woken ready = refl
is_busy-woken deciding = refl
is_busy-woken blocked = refl
is_busy-woken (busy task) = refl
is_busy-woken exited = refl
