-- ===== src/Scheduler/Callbacks.antt =====
-- Callbacks that throw nothing, and what a notification does then.
use task_sched_x.Prelude.{
  ℕ, ◌≡◌, refl, Option, none, some, List, [], ◌∷◌, ◌++◌, Bytes, put, length, arith,
}
use mathlib.Core.List.{append-nil}
use task_sched_x.Task.{Status}
use task_sched_x.Scheduler.State.{Scheduler, Callback, returns, notify_task_completion}

-- There is no callback, or one that never throws.
abbrev pub Quiet : Option Callback → Type 0
Quiet none = Unit
Quiet (some callback) = (n : ℕ) (id : Bytes) (status : Status) → callback n id status ≡ none

-- What the callback is told: nothing, if there is none.
abbrev pub told : Option Callback → Bytes → Status → List (Bytes × Status)
told none id status = []
told (some callback) id status = (id, status) ∷ []

-- The scheduler after a notification.
abbrev pub after_notice : Bytes → Status → Scheduler → Scheduler
after_notice id status s = record s {
  notified = s.notified ++ told s.completion_callback id status;
  completed_tasks = put id status s.completed_tasks;
}

notify_by :
    (callback : Option Callback) (id : Bytes) (status : Status) (s : Scheduler)
    → s.completion_callback ≡ callback
    → Quiet callback
    → notify_task_completion id status s ≡ (returns tt, after_notice id status s)
unfolding notify_task_completion
notify_by none id status s e quiet = ground (arith, append-nil s.notified)
notify_by (some callback) id status s e quiet = ground (arith, quiet (length s.notified) id status)

pub notify_task_completion-Quiet :
    (id : Bytes) (status : Status) (s : Scheduler)
    → Quiet s.completion_callback
    → notify_task_completion id status s ≡ (returns tt, after_notice id status s)
notify_task_completion-Quiet id status s quiet =
    notify_by s.completion_callback id status s refl quiet
