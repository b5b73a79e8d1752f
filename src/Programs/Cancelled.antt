-- ===== src/Programs/Cancelled.antt =====
-- A task that an example program cancels before it starts the scheduler.
use task_sched_x.Scheduler.Invariant.Cancel.{cancel-WellFormed}
use task_sched_x.Scheduler.Invariant.{schedule-WellFormed, new_scheduler-WellFormed}
use task_sched_x.Scheduler.Invariant.Shrinking.{Calm-WellFormed}
use task_sched_x.Programs.Deeds.{task}
use task_sched_x.Decimal.{decimal}
use task_sched_x.Logger.{info}
use task_sched_x.Prelude.{
  ℕ, ◌+◌, ◌<◌, ◌≡◌, ◌≢◌, refl, ap, true, Bool, none, some, Bytes, find, arith, find-put, str_eq_iff,
  [], subst, sym, false,
}
use task_sched_x.Task.{format_id, new_task, size_mod, Objects, Task}
use task_sched_x.Scheduler.State.{Scheduler, returns, new_scheduler, Outcome}
use task_sched_x.Scheduler.WellFormed.{WellFormed}
use task_sched_x.Scheduler.Invariant.Schedule.{unused_id}
use task_sched_x.Scheduler.Client.{
  TaskConfig, schedule_task, cancel_task, set_log_level, set_console_logging_enabled,
  default_config,
}
use task_sched_x.Scheduler.Cancelling.{cancel_task_active, ActiveCancelled}
use task_sched_x.Scheduler.Threads.Steps.{Steps, Threads}
use task_sched_x.Scheduler.Threads.Cancelled.{Gone}
use task_sched_x.Programs.{cancels, starts, Script, done, calls, Runtime, script_of}
use task_sched_x.Programs.Calls.{new_config, create_scheduler, start_scheduler, in_seconds}
use task_sched_x.Programs.Prepare.{World, prepare, Stage, unborn}
use task_sched_x.Programs.Before.{Before, prepare-Before, unborn-Before}
use task_sched_x.Programs.Started.{begun, never_carried_again}
use task_sched_x.Programs.TaskCancellation

schedule-Gone :
    (c : TaskConfig) (id : Bytes) (r : ℕ) (s : Scheduler)
    → WellFormed s
    → Gone id r s
    → Gone id r (schedule_task c s).1
unfolding schedule_task new_task
schedule-Gone c id r s v g =
    let new = unused_id s r v g.made_before in
    record {
      made_before = ground (arith, g.made_before);
      named = ground (arith, g.made_before, g.named);
      unregistered = ground (
        arith,
        find-put (format_id s.next_id) id s.next_object s.active_tasks,
        str_eq_iff (format_id s.next_id) id,
        g.named,
        g.unregistered,
      );
    }

abbrev pub starts_now : Script → Bool
starts_now (calls starts k) = true
starts_now script = false

returning : (o : Outcome Bool × Scheduler) → o.0 ≡ returns true → o ≡ (returns true, o.1)
returning o e = ap (λ (x : Outcome Bool). (x, o.1)) e

-- A cancellation that answers true, in the middle of a program.
prepare-cancels :
    (w : World) (n : ℕ) (id : Bytes) (k : Bool → Script) (s t : Scheduler)
    → cancel_task id s ≡ (returns true, t)
    → ((prepare w n (calls (cancels id) k) s).rest ≡ (prepare w (n + 1) (k true) t).rest)
      × ((prepare w n (calls (cancels id) k) s).shared ≡ (prepare w (n + 1) (k true) t).shared)
      × ((prepare w n (calls (cancels id) k) s).made ≡ (prepare w (n + 1) (k true) t).made)
unfolding prepare
prepare-cancels w n id k s t e = rw (e, prepare) (refl, refl, omega arith)

module _ (rt : Runtime) (w : World) (objects : Objects) (next_id : ℕ) where
  abbrev constructed : Scheduler
  constructed =
      set_console_logging_enabled true
        (set_log_level info (new_scheduler objects next_id (decimal 3)))

  abbrev pre_cancel : TaskConfig
  pre_cancel = record (default_config (w.clock 11) (w.leftover 10)) {
    task_fn = task rt TaskCancellation.pre_cancel_deeds;
    start_time = in_seconds 3 (w.clock 12);
  }

  abbrev scheduled : Bytes × Scheduler
  scheduled = schedule_task pre_cancel constructed

  abbrev after_cancel : Scheduler
  after_cancel = (cancel_task scheduled.0 scheduled.1).1

  abbrev pub stage : Stage
  stage = prepare w 0 (script_of (TaskCancellation.main rt)) (unborn objects next_id)

  constructed-WellFormed : WellFormed constructed
  unfolding new_scheduler set_log_level set_console_logging_enabled
  constructed-WellFormed =
      Calm-WellFormed (refl, refl, refl, refl, refl, λ x. omega arith)
        (new_scheduler-WellFormed objects next_id (decimal 3))

  found : find scheduled.0 scheduled.1.active_tasks ≡ some 0
  unfolding schedule_task new_task new_scheduler set_log_level set_console_logging_enabled
  found =
      let address : ℕ = 0 in
      let id = format_id next_id in ground (arith, find-put id id address [], str_eq_iff id id)

  module _ (room : next_id + 3 < size_mod) where
    scheduled-WellFormed : WellFormed scheduled.1
    unfolding new_scheduler set_log_level set_console_logging_enabled
    scheduled-WellFormed =
        schedule-WellFormed pre_cancel constructed (omega arith) constructed-WellFormed

    cancel_ok :
        ((cancel_task scheduled.0 scheduled.1).0 ≡ returns true)
        × ActiveCancelled scheduled.0 0 scheduled.1 after_cancel
    unfolding schedule_task new_scheduler set_log_level set_console_logging_enabled
    cancel_ok = cancel_task_active scheduled.0 0 scheduled.1 scheduled-WellFormed tt found

    first_part : cancel_task scheduled.0 scheduled.1 ≡ (returns true, after_cancel)
    first_part = returning (cancel_task scheduled.0 scheduled.1) cancel_ok.0

    after_cancel-Gone : Gone scheduled.0 0 after_cancel
    unfolding schedule_task new_task new_scheduler set_log_level set_console_logging_enabled
    after_cancel-Gone = record {
      made_before = omega (arith, cancel_ok.1.same_counters.0);
      named = ap Task.task_id cancel_ok.1.marked;
      unregistered = cancel_ok.1.unregistered;
    }

    after_cancel-WellFormed : WellFormed after_cancel
    after_cancel-WellFormed = cancel-WellFormed scheduled.0 scheduled.1 scheduled-WellFormed

    few_made : after_cancel.next_id ≡ next_id + 1
    unfolding schedule_task new_task new_scheduler set_log_level set_console_logging_enabled
    few_made = omega (arith, cancel_ok.1.same_counters.1)

    rest_of_main : Bool → Script
    rest_of_main b = TaskCancellation.main_after_cancel rt scheduled.0 b (λ _. done)

    prepared-Gone : Gone scheduled.0 0 stage.shared
    unfolding prepare TaskCancellation.main new_config create_scheduler
        TaskCancellation.main_after_cancel start_scheduler rest_of_main new_scheduler
    prepared-Gone =
        subst (Gone scheduled.0 0)
          (sym
            (prepare-cancels w 15 scheduled.0 rest_of_main scheduled.1 after_cancel first_part).1)
          (schedule-Gone _ scheduled.0 0 _
            (schedule-WellFormed _ after_cancel (omega (arith, few_made)) after_cancel-WellFormed)
            (schedule-Gone _ scheduled.0 0 _ after_cancel-WellFormed after_cancel-Gone))

    made_3 : stage.made ≡ 3
    unfolding prepare TaskCancellation.main new_config create_scheduler
        TaskCancellation.main_after_cancel start_scheduler rest_of_main new_scheduler
    made_3 = omega (
      arith,
      (prepare-cancels w 15 scheduled.0 rest_of_main scheduled.1 after_cancel first_part).2,
    )

    starts_next : starts_now stage.rest ≡ true
    unfolding prepare TaskCancellation.main new_config create_scheduler
        TaskCancellation.main_after_cancel start_scheduler rest_of_main new_scheduler
    starts_next =
        ap starts_now
          (prepare-cancels w 15 scheduled.0 rest_of_main scheduled.1 after_cancel first_part).0

pub stage-Before :
    (rt : Runtime) (w : World) (objects : Objects) (next_id : ℕ)
    → next_id + 3 < size_mod
    → Before (stage rt w objects next_id).shared
unfolding new_scheduler
stage-Before rt w objects next_id room =
    prepare-Before w 0 (script_of (TaskCancellation.main rt)) (unborn objects next_id)
      (unborn-Before objects next_id) (omega (arith, made_3 rt w objects next_id room))

-- The program of TaskCancellation up to `scheduler.start()`, which it comes to, and any steps of all
-- threads from then on: the task that was cancelled before, which is the first and has the first
-- identifier, is never in the hands of a thread, and never registered again. Fewer than 2 ^ 64 tasks
-- are made.
pub cancelled_before_start :
    (rt : Runtime) (w : World) (objects : Objects) (next_id : ℕ) (workers j : ℕ) {u : Threads}
    → next_id + 3 < size_mod
    → Steps workers (begun (stage rt w objects next_id).shared) u
    → (starts_now (stage rt w objects next_id).rest ≡ true)
      × (((stage rt w objects next_id).shared.objects 0).task_id ≡ format_id next_id)
      × (u.carried j ≢ some 0)
      × (find (format_id next_id) u.shared.active_tasks ≡ none)
unfolding schedule_task new_task new_scheduler set_log_level set_console_logging_enabled
cancelled_before_start rt w objects next_id workers j {u} room steps =
    let g = prepared-Gone rt w objects next_id room in
    let safe =
      never_carried_again workers (format_id next_id) 0 j (stage rt w objects next_id).shared
        (stage-Before rt w objects next_id room) g steps in
    (starts_next rt w objects next_id room, g.named, safe.0, safe.1)
