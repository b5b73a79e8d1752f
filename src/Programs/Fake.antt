-- ===== src/Programs/Fake.antt =====
-- The cancellation of an identifier that no task has, at the end of TaskCancellation.
use task_sched_x.Prelude.{
  ℕ, ◌+◌, ◌<◌, ◌≡◌, refl, sym, ◌∙◌, false, Bool, ap, none, inl, inr, List, [], ◌∷◌, ◌++◌, Bytes,
  codes, find, count, arith, Option-cases, str_eq_iff, str_eq,
}
use task_sched_x.Task.{Objects, format_id, size_mod}
use task_sched_x.Logger.{warns}
use task_sched_x.TaskQueue.Cancel.{has_id}
use task_sched_x.Scheduler.State.{Scheduler, Outcome, returns}
use task_sched_x.Scheduler.WellFormed.{WellFormed}
use task_sched_x.Scheduler.Client.{cancel_task}
use task_sched_x.Scheduler.Cancelling.Again.{cancel_task_unknown}
use task_sched_x.Scheduler.Threads.Steps.{Steps, Threads}
use task_sched_x.Scheduler.Threads.Exclusive.Kept.{Steps-Exclusive}
use task_sched_x.Programs.{Runtime, cancels, prints, script_of}
use task_sched_x.Programs.Asked.{Oracle, asked, Then, at_once, Then-drop}
use task_sched_x.Programs.TaskCancellation
use task_sched_x.Programs.Calls.{new_config, create_scheduler, start_scheduler, stop_scheduler}
use task_sched_x.Programs.Prepare.{World}
use task_sched_x.Programs.Started.{begun, begun-Exclusive}
use task_sched_x.Programs.Cancelled.{stage, stage-Before}

-- The text is none that `generateTaskId` makes.
Foreign : Bytes → Type 0
Foreign id = (k : ℕ) → format_id k ≡ id → ⊥

missing_in_registry :
    (id : Bytes) (s : Scheduler) → Foreign id → WellFormed s → find id s.active_tasks ≡ none
unfolding Foreign
missing_in_registry id s foreign v = elim (Option-cases (find id s.active_tasks)) [
  | inl e ↦ e
  | inr (r, e) ↦
      let (lt, named) = v.registered id r e in
      let (k, below, is) = v.numbered r lt in absurd (foreign k (sym is ∙ named))
]

missing_in_queue :
    (id : Bytes) (s : Scheduler) (xs : List ℕ)
    → Foreign id
    → WellFormed s
    → ((r : ℕ) → 0 < count r xs → r < s.next_object)
    → has_id id s.objects xs ≡ false
unfolding Foreign
missing_in_queue id s [] foreign v made = refl
missing_in_queue id s (x ∷ xs) foreign v made =
    let (k, below, is) = v.numbered x (made x (ground arith)) in
    let differs : str_eq (s.objects x).task_id id ≡ false =
      ground (arith, str_eq_iff (s.objects x).task_id id, is, foreign k) in
    rw differs (missing_in_queue id s xs foreign v (λ r h. made r (ground arith)))

invalid_id-Foreign : Foreign (codes "invalid_id")
unfolding Foreign format_id
invalid_id-Foreign k e = ground arith

returns_injective : (b : Bool) → ◌≡◌ {A = Outcome Bool} (returns b) (returns false) → b ≡ false
returns_injective b e = ground arith

-- What the program asks for, when it is told that there was no task to cancel.
complains :
    (rt : Runtime) (o : Oracle)
    → o 37 (cancels (codes "invalid_id")) ≡ false
    → Then
        (cancels (codes "invalid_id"))
        (prints (codes "[⚠\u{fe0f}] Non-existent task could not be cancelled.\n"))
        (asked o 0 (script_of (TaskCancellation.main rt)))
unfolding asked TaskCancellation.main TaskCancellation.main_after_cancel new_config create_scheduler
    start_scheduler stop_scheduler
complains rt o e =
    Then-drop 37 (asked o 0 (script_of (TaskCancellation.main rt))) (rw e (at_once _))

-- The call in any state after the start.
pub invalid_id_unknown :
    (rt : Runtime) (w : World) (objects : Objects) (next_id workers : ℕ) {u : Threads}
    → next_id + 3 < size_mod
    → Steps workers (begun (stage rt w objects next_id).shared) u
    → cancel_task (codes "invalid_id") u.shared ≡ (
      returns false,
      record (u.shared) {
        logged =
            u.shared.logged
            ++ warns (codes "Attempted to cancel non-existent task: invalid_id") ∷ [];
      },
    )
invalid_id_unknown rt w objects next_id workers {u} room steps =
    let v =
      (Steps-Exclusive workers (begun (stage rt w objects next_id).shared) steps (
        begun-Exclusive (stage rt w objects next_id).shared
          (stage-Before rt w objects next_id room))).well_formed in
    cancel_task_unknown (codes "invalid_id") u.shared v.sorted
      (missing_in_registry (codes "invalid_id") u.shared invalid_id-Foreign v)
      (missing_in_queue (codes "invalid_id") u.shared u.shared.task_queue.pq invalid_id-Foreign v
        (λ r h. v.allocated r (omega arith)))

-- In every state that the threads of TaskCancellation reach after the start of its scheduler, a call of
-- `cancelTask("invalid_id")` answers false, and leaves everything as it was but for a warning in the
-- log. And for any answers to the program's commands, of which that to this call is `cancelTask`'s in
-- such a state: the program makes the call, and prints at once after it that the task could not be
-- cancelled.
pub invalid_id_missing :
    (rt : Runtime) (w : World) (objects : Objects) (next_id workers : ℕ) {u : Threads} (o : Oracle)
    → next_id + 3 < size_mod
    → Steps workers (begun (stage rt w objects next_id).shared) u
    → ((n : ℕ)
        → returns (o n (cancels (codes "invalid_id")))
          ≡ (cancel_task (codes "invalid_id") u.shared).0)
    → (cancel_task (codes "invalid_id") u.shared ≡ (
      returns false,
      record (u.shared) {
        logged =
            u.shared.logged
            ++ warns (codes "Attempted to cancel non-existent task: invalid_id") ∷ [];
      },
    ))
      × Then
          (cancels (codes "invalid_id"))
          (prints (codes "[⚠\u{fe0f}] Non-existent task could not be cancelled.\n"))
          (asked o 0 (script_of (TaskCancellation.main rt)))
invalid_id_missing rt w objects next_id workers {u} o room steps told =
    let missing = invalid_id_unknown rt w objects next_id workers room steps in
    (
      missing,
      complains rt o (
          returns_injective (o 37 (cancels (codes "invalid_id")))
            (told 37 ∙ ap (λ (x : Outcome Bool × Scheduler). x.0) missing)),
    )
