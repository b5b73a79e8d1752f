-- ===== src/Scheduler/Threads/Exclusive.antt =====
-- However the threads interleave, no task is in two places, and none is carried by two threads.
pub mod Kept
use task_sched_x.Prelude.{
  ℕ, ◌+◌, ◌≤◌, ◌<◌, ◌≡◌, refl, sym, ap, ◌∙◌, inl, inr, Bool, true, false, Option, none, some, List,
  [], ◌∷◌, Bytes, find, count, if◌then◌else◌, ◌==◌, update, arith, Bool-cases, ==_iff, find-put,
  str_eq_iff, subst,
}
use task_sched_x.Task.{Objects, format_id, new_task, size_mod}
use task_sched_x.TaskQueue
use task_sched_x.TaskQueue.{TaskQueue}
use task_sched_x.TaskQueue.Order.{IsSorted, pq_push-IsSorted, count-pq_push, IsSorted-others}
use task_sched_x.Scheduler.State.{Scheduler}
use task_sched_x.Scheduler.WellFormed.{WellFormed, held, places}
use task_sched_x.Scheduler.Client.{TaskConfig, make_task, set_task_completion_callback}
use task_sched_x.Scheduler.System
use task_sched_x.Scheduler.System.{
  remove, schedule, cancel, query, set_callback, starts, stops, stops_pool, discards, fetches,
  wakes, looks_up, dispatches, takes, executes,
}
use task_sched_x.Scheduler.Invariant.{Step-WellFormed, new_scheduler-WellFormed, count-remove}
use task_sched_x.Scheduler.Invariant.Shrinking.{Shrinks, Shrinks-WellFormed, Calm-WellFormed}
use task_sched_x.Scheduler.Invariant.Schedule.{schedule-numbered, schedule-distinct}
use task_sched_x.Scheduler.Threads.{Program, ended, act, create, enqueue, register, put_in_queue}
use task_sched_x.Scheduler.Threads.Steps
use task_sched_x.Scheduler.Threads.Steps.{
  Threads, Request, schedules, cancels, queries, sets_callback, program_of, of_loop, taken, moved,
  made, queued, laid_down, Step, Steps, Reach, here, next,
}
use task_sched_x.Scheduler.Threads.Neutral.{
  Neutral, Neutral-Shrinks, Safe, Free, query-Safe, Outside-Safe,
}
use task_sched_x.Scheduler.Threads.Neutral.Codes.{execute-IsProper, schedule-IsProper}
use task_sched_x.Scheduler.Threads.Neutral.Steady.{IsProper, cancel-IsSteady}

pub record Exclusive (t : Threads) : Type 0 where
  pub well_formed : WellFormed t.shared
  pub proper : (i : ℕ) → IsProper (t.carried i) (t.program i)
  pub listed : (i r : ℕ) → t.carried i ≡ some r → 0 < count r t.shared.executing
  pub separate : (i j r : ℕ) → t.carried i ≡ some r → t.carried j ≡ some r → i ≡ j

-- The program of one thread is another, and so is what it carries.
pub updated :
    (t : Threads) (i : ℕ) (o : Option ℕ) (p : Program)
    → ((j : ℕ) → IsProper (t.carried j) (t.program j))
    → IsProper o p
    → (j : ℕ) → IsProper (update t.carried i o j) (update t.program i p j)
updated t i o p h new j = elim (Bool-cases (i == j)) [
  | inl same ↦ rw same new
  | inr other ↦ rw other (h j)
]

pub stepped :
    (t : Threads) (i : ℕ) (p : Program)
    → ((j : ℕ) → IsProper (t.carried j) (t.program j))
    → IsProper (t.carried i) p
    → (j : ℕ) → IsProper (t.carried j) (update t.program i p j)
stepped t i p h new j = elim (Bool-cases (i == j)) [
  | inl same ↦ rw (same, sym ((==_iff i j).0 same)) new
  | inr other ↦ rw other (h j)
]

pub request-IsProper : (request : Request) → IsProper none (program_of request)
unfolding program_of set_task_completion_callback
request-IsProper (schedules c) = schedule-IsProper c
request-IsProper (cancels id) =
    (cancel-IsSteady none id).proper (λ _. ended) (λ _. ended) (λ _. tt) (λ _. tt)
request-IsProper (queries id) = (query-Safe none id, λ s. tt)
request-IsProper (sets_callback callback) = (
  Outside-Safe none _ (λ s. (refl, refl, refl, refl, refl, refl, refl, refl, refl, refl)),
  λ s. tt,
)

pub create_carried :
    (c : TaskConfig) (k : ℕ → Program) (o : Option ℕ)
    → IsProper o (create c k)
    → (o ≡ none) × ((r : ℕ) → IsProper (some r) (k r))
create_carried c k none h = (refl, h)
create_carried c k (some x) h = absurd h

pub enqueue_carried :
    (r : ℕ) (k : Program) (o : Option ℕ) → IsProper o (enqueue r k) → (o ≡ some r) × IsProper none k
enqueue_carried r k none h = absurd h
enqueue_carried r k (some x) h = (ap some (sym h.0), h.1)

pub carried-Free :
    (t : Threads) (i : ℕ) (o : Option ℕ) → Exclusive t → t.carried i ≡ o → Free o t.shared
carried-Free t i none v e = tt
carried-Free t i (some r) v e = omega (arith, v.listed i r e, v.well_formed.once r)

pub moved-Neutral :
    (t : Threads) (i : ℕ) (f : Scheduler → Scheduler) (g : Scheduler → Program)
    → Exclusive t
    → t.program i ≡ act f g
    → Neutral t.shared (f t.shared)
moved-Neutral t i f g v e =
    let p : IsProper (t.carried i) (act f g) = subst (IsProper (t.carried i)) e (v.proper i) in
    p.0.safe t.shared v.well_formed (carried-Free t i (t.carried i) v refl)

-- Who carries what, after one thread has picked up a task or laid one down.
module _ (t : Threads) (i : ℕ) (v : Exclusive t) where
  kept_apart :
      (r x j : ℕ)
      → t.carried i ≡ some r
      → update t.carried i none j ≡ some x
      → (t.carried j ≡ some x) × (r ≡ x → ⊥)
  kept_apart r x j e h = (ground arith, λ same. ground (arith, v.separate i j x))

  pub dropped-listed :
      (r : ℕ)
      → t.carried i ≡ some r
      → (j x : ℕ) → update t.carried i none j ≡ some x
      → 0 < count x (remove r t.shared.executing)
  dropped-listed r e j x h =
      let (c, apart) = kept_apart r x j e h in
      ground (arith, count-remove r x t.shared.executing (v.listed i r e), v.listed j x c)

  pub dropped-separate :
      (j l x : ℕ) → update t.carried i none j ≡ some x → update t.carried i none l ≡ some x → j ≡ l
  dropped-separate j l x h k = ground (arith, v.separate j l x)

  pub picked-listed :
      (r j x : ℕ) → update t.carried i (some r) j ≡ some x → 0 < count x (r ∷ t.shared.executing)
  picked-listed r j x h = ground (arith, v.listed j x)

  pub picked-separate :
      (r : ℕ)
      → count r t.shared.executing ≡ 0
      → (j l x : ℕ) → update t.carried i (some r) j ≡ some x
      → update t.carried i (some r) l ≡ some x
      → j ≡ l
  picked-separate r free j l x h k = ground (arith, v.separate j l x, v.listed j x, v.listed l x)
