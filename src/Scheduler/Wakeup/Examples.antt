-- ===== src/Scheduler/Wakeup/Examples.antt =====
-- The theorems on notifications, at concrete runs.
use task_sched_x.Prelude.{◌≡◌, ◌⊎◌, ◌<◌, refl, false, none, inl, inr, codes, arith, update}
use task_sched_x.Prelude.Int.{pos}
use task_sched_x.TaskQueue
use task_sched_x.Scheduler.State.{new_scheduler, at_head}
use task_sched_x.Scheduler.Client.{start}
use task_sched_x.Scheduler.Loop.{fetch}
use task_sched_x.Scheduler.System.{starts}
use task_sched_x.Scheduler.Examples.{blank, slow, first_id}
use task_sched_x.Scheduler.Threads.{ended, schedule_code, register}
use task_sched_x.Scheduler.Threads.Steps.{
  program_of, schedules, made, moved, queued, advance, begins, makes, moves, own, queries,
}
use task_sched_x.Scheduler.Wakeup.{
  Signals, awake, deciding, blocked, Steps, Reach, others, decides, pushes, here, next,
}
use task_sched_x.Scheduler.Wakeup.Notices.{queued_task_noticed, scheduler_stop_may_hang, hung_up}

-- The scheduler was started, and its thread has found the queue empty.
abbrev finds_nothing : Signals
finds_nothing = record {
  threads = record {
    shared = start (new_scheduler (λ _. blank) 1 (codes "2"));
    program = λ i. ended;
    carried = λ i. none;
  };
  waiter = deciding;
  owed = 0;
  broadcast = false;
}

found_nothing : Reach 2 (λ _. blank) 1 (codes "2") finds_nothing
unfolding new_scheduler start fetch TaskQueue.pop
found_nothing =
    next (next here (others _ (own _ (starts (inr (inl refl))) refl) refl))
      (decides (pos 8) refl refl refl)

-- `stop` passes the thread by; then another thread begins to ask for a status.
abbrev later : Signals
later = record (hung_up finds_nothing) {
  threads = record ((hung_up finds_nothing).threads) {
    program = update (λ i. ended) 2 (program_of (queries first_id));
  };
}

unfoldable one_query : Steps 2 (hung_up finds_nothing) later
one_query = next here (others _ (begins 2 (queries first_id) (omega arith) refl refl) refl)

scheduler_stop_may_hang_example :
    Steps 2 finds_nothing (hung_up finds_nothing)
    × (later.waiter ≡ blocked)
    × (later.threads.shared.loop ≡ at_head)
    × (later.threads.shared.is_running ≡ false)
unfolding one_query
scheduler_stop_may_hang_example =
    scheduler_stop_may_hang 2 (λ _. blank) 1 (codes "2") found_nothing refl refl one_query refl

-- A task is queued while the thread is about to look at the queue.
abbrev calling : Signals
calling = record {
  threads = record {
    shared = start (new_scheduler (λ _. blank) 1 (codes "2"));
    program = update (λ i. ended) 2 (program_of (schedules slow));
    carried = λ i. none;
  };
  waiter = awake;
  owed = 0;
  broadcast = false;
}

abbrev queued_one : Signals
queued_one = record calling {
  threads = advance 2 (advance 2 (advance 2 calling.threads));
  owed = 1;
}

has_queued : Reach 2 (λ _. blank) 1 (codes "2") queued_one
unfolding new_scheduler start advance program_of schedule_code made moved
has_queued =
    next
      (next
        (next
          (next (next here (others _ (own _ (starts (inr (inl refl))) refl) refl))
            (others _ (begins 2 (schedules slow) (omega arith) refl refl) refl))
          (others _ (makes 2 slow _ refl (omega arith)) refl))
        (others _ (moves 2 _ _ refl) refl))
      (pushes 2 0 _ refl (λ e. cc))

queued_task_noticed_example : (queued_one.waiter ≡ awake) ⊎ (0 < queued_one.owed)
unfolding new_scheduler start advance program_of schedule_code made moved queued register
    TaskQueue.push TaskQueue.pq_push
queued_task_noticed_example =
    queued_task_noticed 2 (λ _. blank) 1 (codes "2") has_queued refl (λ e. cc)
