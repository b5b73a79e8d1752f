-- ===== src/Scheduler/Cancelling.antt =====
-- What `cancelTask` does.
pub mod Again
pub mod Queued
use task_sched_x.Prelude.{
  ℕ, ◌+◌, ◌<◌, ◌≡◌, ◌≢◌, refl, sym, ◌∙◌, Bool, true, false, Option, none, some, List, [], ◌∷◌, ◌++◌,
  Bytes, put, find, erase, update, if◌then◌else◌, find-put, find-erase, str_eq, str_eq_iff, arith,
  count, ◌==◌, Option-cases, Bool-cases, inl, inr, codes,
}
use task_sched_x.Task.{Task, Objects, Status, pending, cancelled, format_id, set_status}
use task_sched_x.TaskQueue
use task_sched_x.TaskQueue.{TaskQueue}
use task_sched_x.TaskQueue.Order.{IsSorted}
use task_sched_x.TaskQueue.Cancel.{cancel_task_lem, mark, without, has_id, mem}
use task_sched_x.Logger.{LogCall, infos, warns}
use task_sched_x.Scheduler.State.{
  Scheduler, Statistics, increment, Outcome, returns, throws, LoopPhase, at_head,
  notify_task_completion, update_statistics,
}
use task_sched_x.Scheduler.WellFormed.{WellFormed}
use task_sched_x.Scheduler.Callbacks.{Quiet, told, after_notice, notify_task_completion-Quiet}
use task_sched_x.Scheduler.Client.{
  cancel_task, cancel_active, cancel_queued, report_cancel, get_task_status,
}
use task_sched_x.Scheduler.Loop.{look_up}

-- What a call of `cancelTask` leaves that found the task at `r` in the registry.
pub record ActiveCancelled (id : Bytes) (r : ℕ) (s s' : Scheduler) : Type 0 where
  pub marked : s'.objects r ≡ record (s.objects r) { status = cancelled }
  pub answers_cancelled : (get_task_status id s').0 ≡ cancelled
  pub unregistered : find id s'.active_tasks ≡ none
  -- the scheduler's thread drops the task when it comes to it
  pub not_dispatched : ((look_up r s').loop ≡ at_head) × ((look_up r s').pending ≡ s.pending)
  pub statistics :
      s'.stats ≡ record (s.stats) { tasks_cancelled = increment s.stats.tasks_cancelled }
  pub announced : s'.notified ≡ s.notified ++ told s.completion_callback id cancelled
  -- the task stays in the queue, and in the hands of a worker that runs it
  pub same_queue : s'.task_queue ≡ s.task_queue
  pub same_jobs : (s'.pending ≡ s.pending) × (s'.executing ≡ s.executing)
  pub same_counters : (s'.next_object ≡ s.next_object) × (s'.next_id ≡ s.next_id)
  pub same_callback : s'.completion_callback ≡ s.completion_callback
  pub same_loop : (s'.loop ≡ s.loop) × (s'.is_running ≡ s.is_running)
  pub other_objects : (x : ℕ) → x ≢ r → s'.objects x ≡ s.objects x
  pub other_tasks : (j : Bytes) → j ≢ id → find j s'.active_tasks ≡ find j s.active_tasks

after_cancel : Bytes → ℕ → Scheduler → List LogCall → Scheduler
after_cancel id r s entries = record s {
  objects = update s.objects r (record (s.objects r) { status = cancelled });
  active_tasks = erase id s.active_tasks;
  stats = record (s.stats) { tasks_cancelled = increment s.stats.tasks_cancelled };
  completed_tasks = put id cancelled s.completed_tasks;
  notified = s.notified ++ told s.completion_callback id cancelled;
  logged = s.logged ++ entries;
}

-- A cancellation that found its task reports it.
report_found :
    (id : Bytes) (s : Scheduler)
    → Quiet s.completion_callback
    → report_cancel id true s ≡ (
      returns true,
      after_notice id cancelled (record s {
        stats = record (s.stats) { tasks_cancelled = increment s.stats.tasks_cancelled };
      }),
    )
unfolding report_cancel update_statistics
report_found id s quiet = rw (
    notify_task_completion-Quiet id cancelled
      (record s {
        stats = record (s.stats) { tasks_cancelled = increment s.stats.tasks_cancelled };
      })
      quiet)

active_entry : Bytes → LogCall
active_entry id = infos (codes "Task " ++ (id ++ codes " cancelled from active tasks list"))

erased : Bytes → ℕ → Scheduler → Scheduler
erased id r s = record s {
  objects = update s.objects r (record (s.objects r) { status = cancelled });
  active_tasks = erase id s.active_tasks;
  logged = s.logged ++ active_entry id ∷ [];
}

-- The registry has the task.
cancel_active-found :
    (id : Bytes) (r : ℕ) (s : Scheduler)
    → find id s.active_tasks ≡ some r
    → cancel_active id s ≡ (returns true, erased id r s)
unfolding cancel_active set_status erased active_entry
cancel_active-found id r s e = rw (e, cancel_active)

cancel_task-active :
    (id : Bytes) (r : ℕ) (s : Scheduler)
    → Quiet s.completion_callback
    → find id s.active_tasks ≡ some r
    → cancel_task id s ≡ (returns true, after_cancel id r s (active_entry id ∷ []))
unfolding cancel_task after_cancel erased
cancel_task-active id r s quiet e =
    rw (cancel_active-found id r s e) (report_found id (erased id r s) quiet)

-- In a well-formed scheduler with a callback that throws nothing, a registered task is cancelled at
-- once: `cancelTask` answers true, the task and the query of its status say CANCELLED, it is no
-- longer registered, the cancellation is counted once and announced once, and the scheduler's
-- thread drops the task when it looks it up. The queue, the jobs of the pool, the thread's
-- position, the other tasks and their registration stay as they were: the task stays in the queue,
-- and a worker that has it goes on.
pub cancel_task_active :
    (id : Bytes) (r : ℕ) (s : Scheduler)
    → WellFormed s
    → Quiet s.completion_callback
    → find id s.active_tasks ≡ some r
    → ((cancel_task id s).0 ≡ returns true) × ActiveCancelled id r s (cancel_task id s).1
unfolding after_cancel look_up get_task_status
cancel_task_active id r s v quiet e = rw (cancel_task-active id r s quiet e) (
  refl,
  record {
    marked = ground arith;
    same_counters = (refl, refl);
    same_callback = refl;
    same_loop = (refl, refl);
    answers_cancelled = ground (
      arith,
      find-erase id id s.active_tasks,
      find-put id id cancelled s.completed_tasks,
      str_eq_iff id id,
    );
    unregistered = ground (arith, find-erase id id s.active_tasks, str_eq_iff id id);
    not_dispatched =
        ground (arith, find-erase id id s.active_tasks, str_eq_iff id id, v.registered id r e);
    statistics = refl;
    announced = refl;
    same_queue = refl;
    same_jobs = (refl, refl);
    other_objects = λ x ne. ground arith;
    other_tasks = λ j ne. ground (arith, find-erase id j s.active_tasks, str_eq_iff id j);
  },
)
