-- ===== src/Scheduler/Loop.antt =====
-- `TaskScheduler::runSchedulerLoop`, an action of the scheduler's thread at a time.
pub mod Cases
use task_sched_x.Prelude.{
  ℕ, not, Option, none, some, [], ◌∷◌, ◌++◌, codes, find, update, if◌then◌else◌,
}
use task_sched_x.Prelude.Int.{ℤ, lt_int, le_int}
use task_sched_x.Task.{running, set_status}
use task_sched_x.TaskQueue
use task_sched_x.TaskQueue.{TaskQueue}
use task_sched_x.Logger.{infos, debugs}
use task_sched_x.Scheduler.State.{Scheduler, at_head, popped, checked, sleeping, finished}
use task_sched_x.Decimal.{signed_text}
use task_sched_x.Scheduler.Execute.{is_cancelled}

-- The loop is left.
unfoldable pub leave_loop : Scheduler → Scheduler
leave_loop s = record s {
  loop = finished;
  logged = s.logged ++ infos (codes "TaskScheduler stopped") ∷ [];
}

-- A task was popped: it is kept if it is due, and else put back, to wait for its start time.
unfoldable pub hold_or_put_back : ℤ → ℕ → TaskQueue → Scheduler → Scheduler
hold_or_put_back now task rest s =
    let due = (s.objects task).start_time in
    if lt_int now due
    then record s { task_queue = TaskQueue.push s.objects task rest; loop = sleeping due }
    else record s { task_queue = rest; loop = popped task }

-- From the head of the loop to the release of the queue, at the clock reading `now`; `none` while
-- the predicate of the first wait is false.
unfoldable pub fetch : ℤ → Scheduler → Option Scheduler
unfolding leave_loop hold_or_put_back
fetch now s = if not s.is_running then some (leave_loop s) else elim (TaskQueue.pop s.task_queue) [
  | none ↦ none
  | some (task, rest) ↦ some (hold_or_put_back now task rest s)
]

-- The wait for a start time ends at that time, or when `stop` was called; `none` before.
unfoldable pub wake : ℤ → ℤ → Scheduler → Option Scheduler
unfolding leave_loop
wake now due s =
    if not s.is_running
    then some (leave_loop s)
    else (if le_int due now then some (record s { loop = at_head }) else none)

-- The search of the registry, and the test of the status of the task found there.
unfoldable pub look_up : ℕ → Scheduler → Scheduler
look_up task s = elim (find (s.objects task).task_id s.active_tasks) [
  | none ↦ record s { loop = at_head }
  | some active ↦
      if is_cancelled (s.objects active).status
      then record s { loop = at_head }
      else record s { loop = checked active }
]

-- The task is marked as running and handed to the thread pool.
unfoldable pub dispatch : ℕ → Scheduler → Scheduler
dispatch active s = record s {
  objects = update s.objects active (set_status running (s.objects active));
  pending = s.pending ++ active ∷ [];
  loop = at_head;
  logged =
      s.logged
      ++ debugs (
          codes "Executing task: "
          ++ ((s.objects active).task_id
              ++ (codes " (priority: " ++ (signed_text (s.objects active).priority ++ codes ")"))))
        ∷ [];
}
