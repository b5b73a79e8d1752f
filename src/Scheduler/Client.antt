-- ===== src/Scheduler/Client.antt =====
-- The methods of `TaskScheduler` that a program calls.
use task_sched_x.Prelude.{
  ℕ, ◌+◌, Bool, true, false, Option, none, some, [], ◌∷◌, ◌++◌, Bytes, codes, put, find, update,
  if◌then◌else◌,
}
use task_sched_x.Prelude.Int.{ℤ, pos, quot_int}
use task_sched_x.Decimal.{signed_text}
use task_sched_x.Task.{TaskFn, Status, completed, cancelled, new_task, ns_per_second}
use task_sched_x.TaskQueue
use task_sched_x.Logger.{infos, warns, sets_level, enables_console, Level, LogCall}
use task_sched_x.Scheduler.State.{
  Scheduler, Statistics, Callback, at_head, M, ◌>>=◌, ◌>>◌, pure, log, assign_status, erase_active,
  increment, update_statistics, notify_task_completion, returns,
}

-- `TaskConfig`
pub record TaskConfig : Type 0 where
  pub task_fn : TaskFn
  pub start_time : ℤ
  pub priority : ℤ
  pub is_repeatable : Bool
  pub repeat_every : ℤ
  pub timeout : ℤ

-- The constructor of `TaskConfig` with its default arguments, and the one without arguments: it takes
-- the reading of the clock, and leaves `priority` unset, so that the caller's value stands here.
unfoldable pub default_config : ℤ → ℤ → TaskConfig
default_config now priority = record {
  task_fn = none;
  start_time = now;
  priority = priority;
  is_repeatable = false;
  repeat_every = pos 10;
  timeout = pos 60;
}

-- `system_clock::to_time_t`: whole seconds, cut towards zero.
abbrev to_time_t : ℤ → ℤ
to_time_t = quot_int ns_per_second

set_or_null : TaskFn → Bytes
set_or_null none = codes "null"
set_or_null (some f) = codes "set"

-- `TaskConfig::toString`
unfoldable pub to_string : TaskConfig → Bytes
unfolding set_or_null signed_text
to_string c =
    codes "TaskConfig(taskFn="
    ++ (set_or_null c.task_fn
        ++ (codes ", startTime="
            ++ (signed_text (to_time_t c.start_time)
                ++ (codes ", priority="
                    ++ (signed_text c.priority
                        ++ (codes ", isRepeatable="
                            ++ ((if c.is_repeatable then codes "true" else codes "false")
                                ++ (codes ", repeatEvery="
                                    ++ (signed_text c.repeat_every
                                        ++ (codes "s, timeout="
                                            ++ (signed_text c.timeout ++ codes "s)")))))))))))

-- The log lines of `scheduleTask`, and of `cancelTask` on an unknown identifier.
abbrev pub scheduled_entry : Bytes → TaskConfig → LogCall
scheduled_entry task_id c = infos (
    codes "Task scheduled: "
    ++ (task_id
        ++ (codes " (priority: "
            ++ (signed_text c.priority
                ++ (codes ", isRepeatable: "
                    ++ ((if c.is_repeatable then codes "yes" else codes "no") ++ codes ")"))))))

abbrev pub missing_entry : Bytes → LogCall
missing_entry id = warns (codes "Attempted to cancel non-existent task: " ++ id)

-- The address of the new object, its identifier, and the scheduler that holds it.
unfoldable pub make_task : TaskConfig → Scheduler → ℕ × Scheduler
make_task c s =
    let (task, next_id) =
      new_task s.next_id c.task_fn c.start_time c.priority c.is_repeatable c.repeat_every
        c.timeout in
    (
      s.next_object,
      record s {
        objects = update s.objects s.next_object task;
        next_object = s.next_object + 1;
        next_id = next_id;
      },
    )

-- `TaskScheduler::scheduleTask`; both overloads, since the one that takes a `TaskConfig` passes its
-- fields on. It throws nothing. The notification wakes the loop, which then finds the queue not empty.
unfoldable pub schedule_task : TaskConfig → Scheduler → Bytes × Scheduler
unfolding make_task
schedule_task c s =
    let (task, s₁) = make_task c s in
    let task_id = (s₁.objects task).task_id in
    (
      task_id,
      record s₁ {
        active_tasks = put task_id task s₁.active_tasks;
        task_queue = TaskQueue.push s₁.objects task s₁.task_queue;
        stats = record (s₁.stats) {
          total_tasks_scheduled = increment s₁.stats.total_tasks_scheduled;
        };
        logged = s₁.logged ++ scheduled_entry task_id c ∷ [];
      },
    )

-- The first part of `cancelTask`: the registry of active tasks.
unfoldable pub cancel_active : Bytes → M Bool
cancel_active id s = elim (find id s.active_tasks) [
  | none ↦ (returns false, s)
  | some task ↦
      (do
        assign_status task cancelled
        erase_active id
        log (infos (codes "Task " ++ (id ++ codes " cancelled from active tasks list")))
        pure true)
        s
]

-- The second part: the queue.
unfoldable pub cancel_queued : Bytes → M Bool
cancel_queued id s =
    let (objects', queue', found) = TaskQueue.cancel_task id s.objects s.task_queue in
    let s' = record s { objects = objects'; task_queue = queue' } in
    if found
    then (do log (infos (codes "Task " ++ (id ++ codes " cancelled from task queue"))); pure true)
        s'
    else (returns false, s')

-- The last part: statistics and the callback, or a warning.
unfoldable pub report_cancel : Bytes → Bool → M Bool
unfolding update_statistics
report_cancel id true = do
  update_statistics cancelled
  notify_task_completion id cancelled
  pure true
report_cancel id false = do log (missing_entry id); pure false

-- `TaskScheduler::cancelTask`
unfoldable pub cancel_task : Bytes → M Bool
unfolding cancel_active cancel_queued report_cancel
cancel_task id = do
  active ← cancel_active id
  found ← (if active then pure true else cancel_queued id)
  report_cancel id found

-- `TaskScheduler::getTaskStatus`
unfoldable pub get_task_status : Bytes → Scheduler → Status × Scheduler
get_task_status id s = elim (find id s.active_tasks) [
  | some task ↦ ((s.objects task).status, s)
  | none ↦ elim (find id s.completed_tasks) [
    | some status ↦ (status, s)
    | none ↦ (
      completed,
      record s {
        logged =
            s.logged ++ warns (codes "Task status requested for non-existent task: " ++ id) ∷ [];
      },
    )
  ]
]

-- `TaskScheduler::start`, with the line that the new thread writes before it enters its loop.
unfoldable pub start : Scheduler → Scheduler
start s = if s.is_running then s else record s {
  is_running = true;
  loop = at_head;
  logged = s.logged ++ infos (codes "TaskScheduler started") ∷ [];
}

-- The first part of `TaskScheduler::stop`; the joins that follow are waits.
unfoldable pub request_stop : Scheduler → Scheduler
request_stop s = record s {
  is_running = false;
  logged = s.logged ++ infos (codes "TaskScheduler stop() requested") ∷ [];
}

-- `TaskScheduler::~TaskScheduler`, before it destroys the members.
unfoldable pub destroy : Scheduler → Scheduler
unfolding request_stop
destroy s = if s.is_running then request_stop s else s

-- `TaskScheduler::setTaskCompletionCallback`
unfoldable pub set_task_completion_callback : Option Callback → Scheduler → Scheduler
set_task_completion_callback callback s = record s { completion_callback = callback }

-- `TaskScheduler::setLogLevel` and `setConsoleLoggingEnabled`
unfoldable pub set_log_level : Level → Scheduler → Scheduler
set_log_level level s = record s { logged = s.logged ++ sets_level level ∷ [] }

unfoldable pub set_console_logging_enabled : Bool → Scheduler → Scheduler
set_console_logging_enabled enable s = record s { logged = s.logged ++ enables_console enable ∷ [] }

-- `TaskScheduler::getStatistics`
unfoldable pub get_statistics : Scheduler → Statistics
get_statistics s = s.stats
