-- ===== src/ThreadPool/Invariant.antt =====
-- What holds of a pool in every reachable state.
use mathlib.Core.List.{append_assoc, append-nil}
use task_sched_x.Prelude.{ℕ, ◌<◌, ◌≡◌, refl, sym, ap, ◌∙◌, true, false, List, [], ◌∷◌, ◌++◌, arith}
use task_sched_x.ThreadPool.{
  Pool, Worker, starting, deciding, blocked, exited, not_called, stopped, new_pool, enqueue_task,
  take_job, notify_all, discard, woken,
}
use task_sched_x.ThreadPool.Steps.{
  Step, Steps, Reach, start, take, leave, decide, block, finish, finish_throwing, enqueue, notify,
  set_flag, wake_all, empty_queue, here, next,
}

module _ {ℓ} {A : Type ℓ} where
  pub record Inv (n : ℕ) (p : Pool A) : Type ℓ where
    -- every job that was queued was started, was dropped or is queued, in this order
    pub accounted : p.enqueued ≡ p.started ++ (p.dropped ++ p.task_queue)
    pub none_dropped : p.stop_flag ≡ false → p.dropped ≡ []
    pub flag : p.stop_flag ≡ false → p.stop_phase ≡ not_called
    pub unflagged : p.stop_phase ≡ not_called → p.stop_flag ≡ false
    pub nobody_left : (i : ℕ) → i < n → p.worker i ≡ exited → p.stop_flag ≡ true
    pub all_left : p.stop_phase ≡ stopped → (i : ℕ) → i < n → p.worker i ≡ exited
    -- a thread that is about to block saw an empty queue, and the queue is still empty
    pub saw_empty : (i : ℕ) → i < n → p.worker i ≡ deciding → p.task_queue ≡ []

  Inv-init : (n : ℕ) → Inv n new_pool
  unfolding new_pool
  Inv-init n = record {
    accounted = refl;
    none_dropped = λ h. refl;
    flag = λ h. refl;
    unflagged = λ h. refl;
    nobody_left = λ i lt h. cc;
    all_left = λ h. cc;
    saw_empty = λ i lt h. cc;
  }

  Step-accounted :
      {n : ℕ} {p q : Pool A}
      → Step n p q
      → Inv n p
      → q.enqueued ≡ q.started ++ (q.dropped ++ q.task_queue)
  unfolding enqueue_task take_job notify_all discard
  Step-accounted (start i lt e) v = v.accounted
  Step-accounted {p} (take i task rest lt e free q run) v =
      v.accounted ∙ rw (v.none_dropped run, q) (sym (append_assoc p.started (task ∷ []) rest))
  Step-accounted {p} (enqueue task free) v =
      ap (λ (l : List A). l ++ task ∷ []) v.accounted
      ∙ append_assoc p.started (p.dropped ++ p.task_queue) (task ∷ [])
      ∙ ap (λ (l : List A). p.started ++ l) (append_assoc p.dropped p.task_queue (task ∷ []))
  Step-accounted {p} (empty_queue ph all) v =
      v.accounted
      ∙ ap (λ (l : List A). p.started ++ l) (sym (append-nil (p.dropped ++ p.task_queue)))
  Step-accounted step v = v.accounted

  -- The flag, the phase and the dropped jobs change together.
  Step-phases :
      {n : ℕ} {p q : Pool A}
      → Step n p q
      → Inv n p
      → (q.stop_flag ≡ false → q.dropped ≡ [])
        × (q.stop_flag ≡ false → q.stop_phase ≡ not_called)
        × (q.stop_phase ≡ not_called → q.stop_flag ≡ false)
  unfolding enqueue_task take_job notify_all discard
  Step-phases (start i lt e) v = (v.none_dropped, v.flag, v.unflagged)
  Step-phases (set_flag e) v = (λ h. cc, λ h. cc, λ h. cc)
  Step-phases (wake_all e) v = (v.none_dropped, λ h. cc (v.flag h), λ h. cc)
  Step-phases (empty_queue e all) v = (λ h. cc (v.flag h), λ h. cc (v.flag h), λ h. cc)
  Step-phases step v = (v.none_dropped, v.flag, v.unflagged)

  woken-exited : (w : Worker A) → woken w ≡ exited → w ≡ exited
  woken-exited starting h = cc
  woken-exited blocked h = cc
  woken-exited w h = h

  woken-deciding : (w : Worker A) → woken w ≡ deciding → w ≡ deciding
  woken-deciding starting h = cc
  woken-deciding blocked h = cc
  woken-deciding w h = h

  Step-nobody_left :
      {n : ℕ} {p q : Pool A}
      → Step n p q
      → Inv n p
      → (j : ℕ) → j < n
      → q.worker j ≡ exited
      → q.stop_flag ≡ true
  unfolding enqueue_task take_job notify_all discard
  Step-nobody_left (start i lt e) v j below h = ground (arith, v.nobody_left j)
  Step-nobody_left (leave i lt e free run) v j below h = run
  Step-nobody_left {p} (wake_all e) v j below h =
      v.nobody_left j below (woken-exited (p.worker j) h)
  Step-nobody_left step v j below h = ground (arith, v.nobody_left j)

  Step-all_left :
      {n : ℕ} {p q : Pool A}
      → Step n p q
      → Inv n p
      → q.stop_phase ≡ stopped
      → (j : ℕ) → j < n
      → q.worker j ≡ exited
  unfolding enqueue_task take_job notify_all discard
  Step-all_left (start i lt e) v h j below = ground (arith, v.all_left h j, v.all_left h i)
  Step-all_left (take i task rest lt e free q run) v h j below = ground (arith, v.all_left h i)
  Step-all_left (leave i lt e free run) v h j below = ground (arith, v.all_left h i)
  Step-all_left (decide i lt e free q run) v h j below = ground (arith, v.all_left h i)
  Step-all_left (block i lt e) v h j below = ground (arith, v.all_left h i)
  Step-all_left (finish i task lt e) v h j below = ground (arith, v.all_left h i)
  Step-all_left (finish_throwing i task x lt e) v h j below = ground (arith, v.all_left h i)
  Step-all_left (notify i k lt owed e) v h j below = ground (arith, v.all_left h i)
  Step-all_left (set_flag e) v h j below = cc
  Step-all_left (wake_all e) v h j below = cc
  Step-all_left (empty_queue e all) v h j below = all j below
  Step-all_left step v h j below = v.all_left h j below

  Step-saw_empty :
      {n : ℕ} {p q : Pool A}
      → Step n p q
      → Inv n p
      → (j : ℕ) → j < n
      → q.worker j ≡ deciding
      → q.task_queue ≡ []
  unfolding enqueue_task take_job notify_all discard
  Step-saw_empty (start i lt e) v j below h = ground (arith, v.saw_empty j)
  Step-saw_empty (take i task rest lt e free q run) v j below h = ground (arith, free j)
  Step-saw_empty (decide i lt e free q run) v j below h = q
  Step-saw_empty (enqueue task free) v j below h = absurd (free j below h)
  Step-saw_empty {p} (wake_all e) v j below h = v.saw_empty j below (woken-deciding (p.worker j) h)
  Step-saw_empty (empty_queue e all) v j below h = refl
  Step-saw_empty step v j below h = ground (arith, v.saw_empty j)

  -- Every step of every thread keeps the invariant.
  pub Step-Inv : {n : ℕ} {p q : Pool A} → Step n p q → Inv n p → Inv n q
  Step-Inv step v =
      let phases = Step-phases step v in
      record {
        accounted = Step-accounted step v;
        none_dropped = phases.0;
        flag = phases.1;
        unflagged = phases.2;
        nobody_left = Step-nobody_left step v;
        all_left = Step-all_left step v;
        saw_empty = Step-saw_empty step v;
      }

  pub Steps-Inv : {n : ℕ} {p q : Pool A} → Steps n p q → Inv n p → Inv n q
  Steps-Inv here v = v
  Steps-Inv (next r step) v = Step-Inv step (Steps-Inv r v)

  pub Reach-Inv : {n : ℕ} {p : Pool A} → Reach n p → Inv n p
  Reach-Inv {n} r = Steps-Inv r (Inv-init n)
