-- ===== src/Scheduler/Threads/Lost.antt =====
-- `cancelTask` between the locks of `scheduleTask`: how a task gets lost.
pub mod Crossing
use task_sched_x.Prelude.{
  ℕ, ◌+◌, ◌<◌, ◌≡◌, ◌≢◌, refl, sym, ap, ◌∙◌, inl, inr, Bool, true, none, some, Bytes, find, count,
  arith, Option-cases, subst, find-put, str_eq_iff, update, update_self, update_ne, if◌then◌else◌,
  Bool-cases,
}
use task_sched_x.Task.{Objects, Exception, format_id, new_task, size_mod}
use task_sched_x.TaskQueue.Cancel.{cancel_task_lem, without, has_id}
use task_sched_x.Scheduler.State.{Scheduler, Outcome}
use task_sched_x.Scheduler.WellFormed.{WellFormed, places, held}
use task_sched_x.Scheduler.Client.{TaskConfig, cancel_active, cancel_queued}
use task_sched_x.Scheduler.Cancelling.Queued.{cancel_active-none, count-without}
use task_sched_x.Scheduler.Invariant.Schedule.{unused_id}
use task_sched_x.Scheduler.Threads.{
  Program, act, create, enqueue, register, cancel_code, schedule_code, report_code, atomic, resume,
  pure,
}
use task_sched_x.Scheduler.Threads.Steps.{
  Threads, moved, made, queued, Step, Steps, Reach, moves, makes, queues, advance, advance-act,
  advance-create, advance-enqueue, here, next,
}
use task_sched_x.Scheduler.Threads.Places.{Steps-places}
use task_sched_x.Scheduler.Threads.Exclusive.{Exclusive}
use task_sched_x.Scheduler.Threads.Exclusive.Kept.{Steps-Exclusive, Reach-Exclusive}

-- What the second search of `cancelTask` does.
pub record Removed (id : Bytes) (s s' : Scheduler) : Type 0 where
  pub active : s'.active_tasks ≡ s.active_tasks
  pub next_object : s'.next_object ≡ s.next_object
  pub queue : s'.task_queue.pq ≡ without id s.objects s.task_queue.pq
  pub loop : s'.loop ≡ s.loop
  pub pending : s'.pending ≡ s.pending
  pub executing : s'.executing ≡ s.executing

cancel_queued-Removed :
    (id : Bytes) (s : Scheduler) → WellFormed s → Removed id s (cancel_queued id s).1
unfolding cancel_queued
cancel_queued-Removed id s v =
    rw (cancel_task_lem id s.objects s.task_queue v.sorted)
      (elim (Bool-cases (has_id id s.objects s.task_queue.pq)) [
        | inl e ↦ rw e (record {
          active = refl;
          next_object = refl;
          queue = refl;
          loop = refl;
          pending = refl;
          executing = refl;
        })
        | inr e ↦ rw e (record {
          active = refl;
          next_object = refl;
          queue = refl;
          loop = refl;
          pending = refl;
          executing = refl;
        })
      ])

-- The identifier that the next task gets is not registered.
pub never_registered :
    (s : Scheduler) → WellFormed s → find (format_id s.next_id) s.active_tasks ≡ none
never_registered s v = elim (Option-cases (find (format_id s.next_id) s.active_tasks)) [
  | inl e ↦ e
  | inr (x, e) ↦
      let (lt, named) = v.registered (format_id s.next_id) x e in absurd (unused_id s x v lt named)
]

-- `cancelTask` after its first search.
abbrev searching : Bytes → (Bool → Program) → (Exception → Program) → Program
searching id k h = atomic (cancel_queued id) (λ found. report_code id found k h) h

module _ (t : Threads) (i j : ℕ) (id : Bytes) (k : Bool → Program) (h : Exception → Program)
    (c : TaskConfig) (rest : ℕ → Scheduler → Program) where
  abbrev r : ℕ
  r = t.shared.next_object

  abbrev pub task_made : ℕ → Program
  task_made x = act (λ s. s) (λ s. enqueue x (rest x s))

  -- The five states: the search in the registry has failed, the task is registered, its identifier is
  -- read, the task is queued, and the search in the queue is done.
  abbrev missed : Threads
  missed = record t { program = update t.program i (searching id k h) }

  abbrev registered : Threads
  registered = made j c task_made missed

  abbrev read : Threads
  read = record registered {
    program = update registered.program j (enqueue r (rest r registered.shared));
  }

  abbrev put_there : Threads
  put_there = queued j r (rest r registered.shared) read

  abbrev pub removed : Threads
  removed =
      moved i (λ s. (cancel_queued id s).1)
        (λ s. resume (cancel_queued id s).0 (λ found. report_code id found k h) h) put_there

  module _ (canceller : t.program i ≡ cancel_code id k h)
      (scheduler : t.program j ≡ create c task_made) (apart : i ≢ j)
      (fresh : find id t.shared.active_tasks ≡ none) where
    -- What follows the first search, by its answer.
    abbrev searched : Outcome Bool → Program
    searched o =
        resume o
          (λ active.
            (if active then pure true else atomic (cancel_queued id))
              (λ found. report_code id found k h) h)
          h

    at_first :
        t.program i ≡ act (λ s. (cancel_active id s).1) (λ s. searched (cancel_active id s).0)
    unfolding cancel_code
    at_first = canceller

    misses : moved i (λ s. (cancel_active id s).1) (λ s. searched (cancel_active id s).0) t ≡ missed
    unfolding moved
    misses =
        ap
          (λ (o : Outcome Bool × Scheduler). record t {
            shared = o.1;
            program = update t.program i (searched o.0);
          })
          (cancel_active-none id t.shared fresh)

    at_second : missed.program j ≡ create c task_made
    at_second = update_ne t.program i j (searching id k h) apart ∙ scheduler

    at_third : registered.program j ≡ task_made r
    unfolding made
    at_third = update_self missed.program j (task_made r)

    at_fourth : read.program j ≡ enqueue r (rest r registered.shared)
    at_fourth = update_self registered.program j (enqueue r (rest r registered.shared))

    at_fifth : put_there.program i ≡ searching id k h
    unfolding made queued
    at_fifth = ground (arith, apart)

    module _ (workers : ℕ) (room : t.shared.next_id + 1 < size_mod) where
      pub to_put_there : Steps workers t put_there
      unfolding moved
      to_put_there =
          next
            (next
              (next (next here (subst (Step workers t) misses (moves i _ _ at_first)))
                (makes j c task_made at_second room))
              (moves j _ _ at_third))
            (queues j r (rest r registered.shared) at_fourth)

      pub to_removed : Steps workers t removed
      to_removed = next to_put_there (moves i _ _ at_fifth)

    pub by_actions : advance i (advance j (advance j (advance j (advance i t)))) ≡ removed
    unfolding moved
    by_actions =
        ap (λ x. advance i (advance j (advance j (advance j x))))
          (advance-act i t _ _ at_first ∙ misses)
        ∙ ap (λ x. advance i (advance j (advance j x)))
            (advance-create j missed c task_made at_second)
        ∙ ap (λ x. advance i (advance j x)) (advance-act j registered _ _ at_third)
        ∙ ap (advance i) (advance-enqueue j read r (rest r registered.shared) at_fourth)
        ∙ advance-act i put_there _ _ at_fifth

    module _ (v : Exclusive t) (next_one : id ≡ format_id t.shared.next_id) where
      unplaced : places r t.shared ≡ 0
      unplaced = ground (arith, v.well_formed.allocated r)

      named : (put_there.shared.objects r).task_id ≡ id
      unfolding made queued register new_task
      named = ground (arith, next_one)

      nowhere_else :
          held r put_there.shared.loop
            + count r put_there.shared.pending
            + count r put_there.shared.executing
          ≡ 0
      unfolding made queued register new_task
      nowhere_else = ground (arith, unplaced)

      module _ (w : WellFormed put_there.shared) where
        pub ends_registered : find id removed.shared.active_tasks ≡ some r
        unfolding moved queued made register new_task
        ends_registered =
            rw (cancel_queued-Removed id put_there.shared w).active
              (ground (arith, find-put id id r t.shared.active_tasks, str_eq_iff id id, next_one))

        pub ends_unplaced : places r removed.shared ≡ 0
        unfolding moved
        ends_unplaced =
            let d = cancel_queued-Removed id put_there.shared w in
            rw (d.queue, d.loop, d.pending, d.executing)
              (omega (
                arith,
                count-without id put_there.shared.objects r put_there.shared.task_queue.pq named,
                nowhere_else,
              ))
