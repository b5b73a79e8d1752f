-- ===== src/Scheduler/Wakeup/Notices.antt =====
-- Which notifications reach the scheduler's thread.
use task_sched_x.Scheduler.Wakeup.Heeding.{Steps-Exclusive, Steps-Heeded}
use task_sched_x.Prelude.{
  ℕ, ◌+◌, ◌<◌, ◌≡◌, ◌≢◌, refl, ◌∙◌, inl, inr, Bool, true, false, [], Bytes, if◌then◌else◌, ◌==◌,
  arith, Bool-cases, ◌⊎◌, ==_iff,
}
use task_sched_x.Task.{Objects}
use task_sched_x.Scheduler.State.{at_head}
use task_sched_x.Scheduler.Client.{request_stop}
use task_sched_x.Scheduler.Threads.Steps.{Steps as ThreadSteps}
use task_sched_x.Scheduler.Threads.Exclusive.{Exclusive}
use task_sched_x.Scheduler.Threads.Exclusive.Kept.{Reach-Exclusive}
use task_sched_x.Scheduler.Wakeup.{
  Signals, Waiter, awake, deciding, blocked, Step, Steps, Reach, others, goes_on, decides, blocks,
  pushes, notifies, clears, notifies_all, here, next, Heeded, others-Waits,
}

module _ (n : ℕ) (objects : Objects) (next_id : ℕ) (num_threads : Bytes) where
  Reach-Heeded :
      {w : Signals} → Reach n objects next_id num_threads w → Exclusive w.threads × Heeded w
  Reach-Heeded r =
      let v = Reach-Exclusive n objects next_id num_threads ThreadSteps.here in
      (
        Steps-Exclusive r v,
        Steps-Heeded r v (record {
          at_wait = λ waits. absurd (waits refl);
          empty_when_deciding = λ d run. cc;
          empty_or_owed = λ b run none_owed. cc;
        }),
      )

  -- No task is left in the queue by a scheduler that sleeps: while the scheduler runs and its queue is
  -- not empty, its thread is not blocked in the first wait of the loop, nor about to block, or a
  -- notification of `scheduleTask` or of a repeated task is still to come.
  pub queued_task_noticed :
      {w : Signals}
      → Reach n objects next_id num_threads w
      → w.threads.shared.is_running ≡ true
      → w.threads.shared.task_queue.pq ≢ []
      → (w.waiter ≡ awake) ⊎ (0 < w.owed)
  queued_task_noticed {w} r run some_task = let (v, h) = Reach-Heeded r in by_waiter w.waiter refl h
    where
      by_waiter : (x : Waiter) → w.waiter ≡ x → Heeded w → (w.waiter ≡ awake) ⊎ (0 < w.owed)
      by_waiter awake e h = inl e
      by_waiter deciding e h = absurd (some_task (h.empty_when_deciding e run))
      by_waiter blocked e h = elim (Bool-cases (w.owed == 0)) [
        | inl none_owed ↦ absurd (some_task (h.empty_or_owed e run ((==_iff w.owed 0).0 none_owed)))
        | inr owed ↦ inr (ground arith)
      ]

-- Tasks that are queued, and calls of `stop`.
abbrev pub rouses : {n : ℕ} {w u : Signals} → Step n w u → Bool
rouses (pushes i r k e free) = true
rouses clears = true
rouses step = false

abbrev pub rousings : {n : ℕ} {w u : Signals} → Steps n w u → ℕ
rousings here = 0
rousings (next r step) = (if rouses step then 1 else 0) + rousings r

-- `stop` has notified everybody, and the thread is blocked all the same.
record Hung (w : Signals) : Type 0 where
  asleep : w.waiter ≡ blocked
  none_owed : w.owed ≡ 0
  no_broadcast : w.broadcast ≡ false
  waits : w.threads.shared.loop ≡ at_head
  stopping : w.threads.shared.is_running ≡ false

Step-Hung :
    {n : ℕ} {w u : Signals} (step : Step n w u)
    → rouses step ≡ false
    → Exclusive w.threads
    → Hung w
    → Hung u
Step-Hung {n} {w} (others t step alone) quiet v h =
    let k = others-Waits n w.threads step alone v h.waits in
    record {
      asleep = h.asleep;
      none_owed = h.none_owed;
      no_broadcast = h.no_broadcast;
      waits = k.at_head_still;
      stopping = k.same_running ∙ h.stopping;
    }
Step-Hung (goes_on now t a at f) quiet v h = cc (h.asleep)
Step-Hung (decides now a at f) quiet v h = cc (h.asleep)
Step-Hung (blocks d) quiet v h = cc (h.asleep)
Step-Hung (pushes i r k e free) quiet v h = cc
Step-Hung (notifies k e) quiet v h = absurd (omega (arith, h.none_owed))
Step-Hung clears quiet v h = cc
Step-Hung (notifies_all b) quiet v h = cc (h.no_broadcast)

Steps-Hung :
    {n : ℕ} {w u : Signals} (r : Steps n w u)
    → rousings r ≡ 0
    → Exclusive w.threads
    → Hung w
    → Hung u
Steps-Hung here quiet v h = h
Steps-Hung (next r step) quiet v h =
    Step-Hung step (ground (arith, quiet)) (Steps-Exclusive r v) (Steps-Hung r (omega arith) v h)

-- The state after `stop` has cleared `isRunning` and notified everybody, and the thread has blocked.
abbrev pub hung_up : Signals → Signals
hung_up w = record w {
  threads = record (w.threads) { shared = request_stop w.threads.shared };
  waiter = blocked;
  broadcast = false;
}

module _ (n : ℕ) (objects : Objects) (next_id : ℕ) (num_threads : Bytes) where
  -- `isRunning` is cleared without the mutex. So wherever the scheduler's thread has found the predicate
  -- of its first wait false and has not blocked yet, with no notification owed, a call of `stop` can
  -- pass it by: the thread then blocks, and until a task is queued or `stop` is called once more, it
  -- stays at its wait, whatever the other threads do, and the `stop` that joins it does not return.
  pub scheduler_stop_may_hang :
      {w q : Signals}
      → Reach n objects next_id num_threads w
      → w.waiter ≡ deciding
      → w.owed ≡ 0
      → (r : Steps n (hung_up w) q) → rousings r ≡ 0
      → Steps n w (hung_up w)
        × (q.waiter ≡ blocked)
        × (q.threads.shared.loop ≡ at_head)
        × (q.threads.shared.is_running ≡ false)
  unfolding request_stop
  scheduler_stop_may_hang {w} reach d none_owed r quiet =
      let (v, h) = Reach-Heeded n objects next_id num_threads reach in
      let way : Steps n w (hung_up w) =
        next (next (next here clears) (notifies_all refl)) (blocks (rw d refl)) in
      let k = Steps-Hung r quiet (Steps-Exclusive way v) (record {
        asleep = refl;
        none_owed = none_owed;
        no_broadcast = refl;
        waits = h.at_wait (λ a. cc);
        stopping = refl;
      }) in
      (way, k.asleep, k.waits, k.stopping)
