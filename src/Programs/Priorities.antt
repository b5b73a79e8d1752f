-- ===== src/Programs/Priorities.antt =====
-- The order in which the program of PriorityScheduling has its tasks taken.
use task_sched_x.Scheduler.Ordering.Kept.{taken_in_order}
use task_sched_x.Scheduler.Ordering.Follows.{line}
use task_sched_x.Scheduler.Ordering.{Runs, held_tasks}
use task_sched_x.Programs.Before.{prepare-Before, unborn-Before}
use task_sched_x.Programs.Started.{begun, begun-Exclusive}
use task_sched_x.Scheduler.WellFormed.{WellFormed}
use task_sched_x.Prelude.{ℕ, ◌≡◌, refl, false, List, [], ◌∷◌, arith, ◌+◌, ◌<◌, ◌++◌}
use task_sched_x.Prelude.Int.{ℤ, pos, lt_int, ◌+ℤ◌, scale}
use task_sched_x.Task.{Objects, runs_after, new_task, ns_per_second, size_mod}
use task_sched_x.TaskQueue
use task_sched_x.TaskQueue.Order.{pops, IsSorted}
use task_sched_x.Scheduler.State.{new_scheduler, Scheduler}
use task_sched_x.Scheduler.Client.{schedule_task, set_log_level, set_console_logging_enabled, start}
use task_sched_x.Programs.{Runtime, script_of}
use task_sched_x.Programs.Calls.{new_config, create_scheduler, start_scheduler, in_seconds}
use task_sched_x.Programs.Prepare.{World, Stage, prepare, unborn}
use task_sched_x.Programs.PriorityScheduling

lt_int_irreflexive : (t : ℤ) → lt_int t t ≡ false
lt_int_irreflexive t = ground arith

abbrev pub stage : Runtime → World → Objects → ℕ → Stage
stage rt w objects next_id =
    prepare w 0 (script_of (PriorityScheduling.main rt)) (unborn objects next_id)

-- What the queue goes by, of the tasks at some addresses.
abbrev pub keys : Objects → List ℕ → List (ℤ × ℤ)
keys objects [] = []
keys objects (r ∷ rs) = ((objects r).priority, (objects r).start_time) ∷ keys objects rs

-- The queue when the scheduler is started.
queue-keys :
    (rt : Runtime) (w : World) (objects : Objects) (next_id : ℕ)
    → let s = (stage rt w objects next_id).shared in
      keys s.objects (pops (TaskQueue.size s.task_queue) s.task_queue) ≡ (
        (pos 0, w.clock 27)
        ∷ (pos 1, in_seconds 2 (w.clock 9))
        ∷ (pos 3, in_seconds 2 (w.clock 9))
        ∷ (pos 3, in_seconds 2 (w.clock 9))
        ∷ (pos 5, in_seconds 2 (w.clock 9))
        ∷ (pos 10, in_seconds 2 (w.clock 9))
        ∷ (pos 15, in_seconds 2 (w.clock 9))
        ∷ [])
unfolding TaskQueue.pq_push TaskQueue.priority_cmp runs_after prepare PriorityScheduling.main
    new_config create_scheduler start_scheduler schedule_task TaskQueue.push new_task ◌+ℤ◌ scale
    set_console_logging_enabled set_log_level new_scheduler pops TaskQueue.pop TaskQueue.size
queue-keys rt w objects next_id =
    rw (lt_int_irreflexive (w.clock 9 +ℤ scale ns_per_second (pos 2))) refl

module _ (rt : Runtime) (w : World) (objects : Objects) (next_id : ℕ) where
  abbrev pub launched : Scheduler
  launched = start (stage rt w objects next_id).shared

  pub launched-WellFormed : next_id + 7 < size_mod → WellFormed launched
  unfolding begun new_scheduler prepare PriorityScheduling.main new_config create_scheduler
      start_scheduler
  launched-WellFormed room =
      (begun-Exclusive (stage rt w objects next_id).shared (
        prepare-Before w 0 (script_of (PriorityScheduling.main rt)) (unborn objects next_id)
          (unborn-Before objects next_id) (omega arith))).well_formed

  pub launched_empty : (launched.pending ≡ []) × (held_tasks launched.loop ≡ [])
  unfolding start prepare PriorityScheduling.main new_config create_scheduler start_scheduler
      schedule_task set_console_logging_enabled set_log_level new_scheduler new_task
  launched_empty = (refl, refl)

  pub launched-single :
      (r : ℕ) → r < launched.next_object → (launched.objects r).is_repeatable ≡ false
  unfolding start prepare PriorityScheduling.main new_config create_scheduler start_scheduler
      schedule_task set_console_logging_enabled set_log_level new_scheduler new_task
  launched-single r lt = ground arith

-- When the program of PriorityScheduling starts its scheduler, the queue holds seven tasks and gives them
-- up by the priorities 0, 1, 3, 3, 5, 10 and 15: first the one whose start time is the clock reading at
-- which it was made, then the others, which all start two seconds after the clock reading of the
-- program's beginning. From there on, until a task is scheduled or cancelled, the workers take the
-- tasks in that order, those of priority 3 in either order, whatever the clock, the tasks and the other
-- threads do. Fewer than 2 ^ 64 tasks are made.
pub priority_order :
    (rt : Runtime) (w : World) (objects : Objects) (next_id : ℕ) {rs : List ℕ} {s : Scheduler}
    → next_id + 7 < size_mod
    → Runs (launched rt w objects next_id) rs s
    → let p = (stage rt w objects next_id).shared in
      (keys p.objects (pops (TaskQueue.size p.task_queue) p.task_queue) ≡ (
        (pos 0, w.clock 27)
        ∷ (pos 1, in_seconds 2 (w.clock 9))
        ∷ (pos 3, in_seconds 2 (w.clock 9))
        ∷ (pos 3, in_seconds 2 (w.clock 9))
        ∷ (pos 5, in_seconds 2 (w.clock 9))
        ∷ (pos 10, in_seconds 2 (w.clock 9))
        ∷ (pos 15, in_seconds 2 (w.clock 9))
        ∷ []))
      × IsSorted (launched rt w objects next_id).objects (rs ++ line s)
priority_order rt w objects next_id room runs =
    let (none_pending, none_held) = launched_empty rt w objects next_id in
    (
      queue-keys rt w objects next_id,
      taken_in_order (launched-WellFormed rt w objects next_id room) none_pending none_held
          (launched-single rt w objects next_id) runs,
    )
