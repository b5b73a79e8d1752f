-- ===== src/Scheduler/Threads/Lost/Crossing.antt =====
-- A call of `cancelTask` that crosses one of `scheduleTask`.
use task_sched_x.Prelude.{
  ℕ, ◌+◌, ◌<◌, ◌≡◌, ◌≢◌, refl, sym, ap, ◌∙◌, Bool, none, some, Bytes, find, arith, subst,
}
use task_sched_x.Task.{Objects, Exception, format_id, size_mod}
use task_sched_x.Scheduler.State.{Scheduler}
use task_sched_x.Scheduler.WellFormed.{places}
use task_sched_x.Scheduler.Client.{TaskConfig}
use task_sched_x.Scheduler.Threads.{Program, create, cancel_code, schedule_code}
use task_sched_x.Scheduler.Threads.Steps.{Threads, Steps, Reach, advance}
use task_sched_x.Scheduler.Threads.Places.{Steps-places}
use task_sched_x.Scheduler.Threads.Exclusive.{Exclusive}
use task_sched_x.Scheduler.Threads.Exclusive.Kept.{Steps-Exclusive, Reach-Exclusive}
use task_sched_x.Scheduler.Threads.Lost.{
  task_made, removed, by_actions, to_put_there, to_removed, ends_registered, ends_unplaced,
  never_registered,
}

-- The end of the five actions, and any steps after it.
crossing :
    (workers l : ℕ) (t : Threads) (i j : ℕ) (id : Bytes) (k : Bool → Program)
    (h : Exception → Program) (c : TaskConfig) (rest : ℕ → Scheduler → Program) {u : Threads}
    → t.program i ≡ cancel_code id k h
    → t.program j ≡ create c (task_made t i j id k h c rest)
    → i ≢ j
    → Exclusive t
    → id ≡ format_id t.shared.next_id
    → t.shared.next_id + 1 < size_mod
    → Steps workers (removed t i j id k h c rest) u
    → (find id (removed t i j id k h c rest).shared.active_tasks ≡ some t.shared.next_object)
      × (places t.shared.next_object u.shared ≡ 0)
      × (u.carried l ≢ some t.shared.next_object)
crossing workers l t i j id k h c rest {u} canceller scheduler apart v next_one room steps =
    let fresh : find id t.shared.active_tasks ≡ none =
      rw next_one (never_registered t.shared v.well_formed) in
    let before = to_put_there t i j id k h c rest canceller scheduler apart fresh workers room in
    let all = to_removed t i j id k h c rest canceller scheduler apart fresh workers room in
    let w = (Steps-Exclusive workers t before v).well_formed in
    let v' = Steps-Exclusive workers t all v in
    let found = ends_registered t i j id k h c rest canceller scheduler apart fresh v next_one w in
    let none_left =
      ends_unplaced t i j id k h c rest canceller scheduler apart fresh v next_one w in
    let there = (v'.well_formed.registered id t.shared.next_object found).0 in
    let fewer =
      (Steps-places t.shared.next_object workers (removed t i j id k h c rest) steps v' there).0 in
    (
      found,
      omega (arith, fewer, none_left),
      λ e.
          let some_there =
            (Steps-Exclusive workers (removed t i j id k h c rest) steps v').listed l
              t.shared.next_object e in
          absurd (omega (arith, some_there, fewer, none_left)),
    )

-- Two threads: `i` calls `cancelTask` with the identifier that the next task gets, and `j` calls
-- `scheduleTask`. The thread `i` makes one action, `j` three, and `i` one.
unfoldable pub crossed : ℕ → ℕ → Threads → Threads
crossed i j t = advance i (advance j (advance j (advance j (advance i t))))

-- A task is lost when `cancelTask` with its identifier has found it not in the registry before
-- `scheduleTask` registers it, and finds it in the queue after `scheduleTask` has queued it: from every
-- reached state in which two threads are at the begin of such calls, their next five actions, in this
-- order, are steps that lead to a state in which the task is registered. And in every later state it
-- is in no place, neither the queue, the hands of the scheduler's thread, the queue of the pool nor the
-- hands of a worker, and no thread carries it, so that it never runs.
pub crossing_loses_task :
    (workers : ℕ) (objects : Objects) (next_id : ℕ) (num_threads : Bytes) (i j l : ℕ)
    (k : Bool → Program) (h : Exception → Program) (c : TaskConfig) (k' : Bytes → Program)
    (h' : Exception → Program) {t u : Threads}
    → Reach workers objects next_id num_threads t
    → t.shared.next_id + 1 < size_mod
    → t.program i ≡ cancel_code (format_id t.shared.next_id) k h
    → t.program j ≡ schedule_code c k' h'
    → i ≢ j
    → Steps workers (crossed i j t) u
    → Steps workers t (crossed i j t)
      × (find (format_id t.shared.next_id) (crossed i j t).shared.active_tasks
          ≡ some t.shared.next_object)
      × (places t.shared.next_object u.shared ≡ 0)
      × (u.carried l ≢ some t.shared.next_object)
unfolding crossed schedule_code
crossing_loses_task workers objects next_id num_threads i j l k h c k' h' {t} {u} reach room
      canceller scheduler apart steps =
    let v = Reach-Exclusive workers objects next_id num_threads reach in
    let fresh = never_registered t.shared v.well_formed in
    let same =
      by_actions t i j (format_id t.shared.next_id) k h c _ canceller scheduler apart fresh in
    let all =
      to_removed t i j (format_id t.shared.next_id) k h c _ canceller scheduler apart fresh workers
        room in
    let (found, none_left, not_carried) =
      crossing workers l t i j (format_id t.shared.next_id) k h c _ canceller scheduler apart v refl
        room (subst (λ x. Steps workers x u) same steps) in
    (
      subst (Steps workers t) (sym same) all,
      ap (λ (x : Threads). find (format_id t.shared.next_id) x.shared.active_tasks) same ∙ found,
      none_left,
      not_carried,
    )
