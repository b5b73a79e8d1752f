-- ===== src/Programs/Started.antt =====
-- The threads of an example program from the start of its scheduler on.
use task_sched_x.Prelude.{ℕ, ◌≡◌, ◌≢◌, refl, none, some, inl, inr, Bytes, find, arith}
use task_sched_x.Scheduler.State.{Scheduler}
use task_sched_x.Scheduler.Client.{start}
use task_sched_x.Scheduler.System.{starts}
use task_sched_x.Scheduler.Invariant.{Step-WellFormed}
use task_sched_x.Scheduler.Threads.{ended}
use task_sched_x.Scheduler.Threads.Steps.{Threads, Steps}
use task_sched_x.Scheduler.Threads.Exclusive.{Exclusive}
use task_sched_x.Scheduler.Threads.Exclusive.Kept.{Steps-Exclusive}
use task_sched_x.Scheduler.Threads.Looping.{handed}
use task_sched_x.Scheduler.Threads.Cancelled.{Gone, Steps-Gone}
use task_sched_x.Programs.Before.{Before}

-- `scheduler.start()` has returned: no worker has a job yet, and no thread is inside of a method. What
-- `main` does from here on is among the steps of the threads.
unfoldable pub begun : Scheduler → Threads
begun s = record { shared = start s; program = λ i. ended; carried = λ i. none }

pub begun-Exclusive : (s : Scheduler) → Before s → Exclusive (begun s)
unfolding begun
begun-Exclusive s h = record {
  well_formed = Step-WellFormed (starts (inr (inl h.loop))) h.well_formed;
  proper = λ i. tt;
  listed = λ i r e. absurd (ground arith);
  separate = λ i j r e f. absurd (ground arith);
}

-- A task that is not registered any more when the scheduler is started is never carried by a thread.
pub never_carried_again :
    (workers : ℕ) (id : Bytes) (r j : ℕ) (s : Scheduler) {u : Threads}
    → Before s
    → Gone id r s
    → Steps workers (begun s) u
    → (u.carried j ≢ some r) × (find id u.shared.active_tasks ≡ none)
unfolding begun start
never_carried_again workers id r j s {u} h g steps =
    let v = begun-Exclusive s h in
    let g' : Gone id r (begun s).shared =
      rw h.not_running
        (record { made_before = g.made_before; named = g.named; unregistered = g.unregistered }) in
    let (last, fewer) = Steps-Gone id r workers (begun s) steps v g' in
    let none_handed : handed r (begun s).shared ≡ 0 =
      rw (h.not_running, h.none_pending, h.none_executing) refl in
    (
      λ e.
          let there = (Steps-Exclusive workers (begun s) steps v).listed j r e in
          absurd (omega (arith, fewer, none_handed)),
      last.unregistered,
    )
