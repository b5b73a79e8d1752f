-- ===== src/Scheduler/Wakeup/Heeding.antt =====
-- Each step keeps what the wait of the scheduler relies on.
use task_sched_x.Prelude.{
  ℕ, ◌≡◌, ◌≢◌, refl, sym, ◌∙◌, inl, inr, Option, none, some, [], arith, subst, ◌⊎◌,
}
use task_sched_x.Prelude.Int.{ℤ}
use task_sched_x.TaskQueue
use task_sched_x.TaskQueue.{TaskQueue}
use task_sched_x.Scheduler.State.{Scheduler}
use task_sched_x.Scheduler.Client.{request_stop}
use task_sched_x.Scheduler.Loop.{fetch}
use task_sched_x.Scheduler.System.{stops, fetches}
use task_sched_x.Scheduler.Threads.Steps.{Step as ThreadStep, queues, own, queued}
use task_sched_x.Scheduler.Threads.Exclusive.{Exclusive}
use task_sched_x.Scheduler.Threads.Exclusive.Kept.{Step-Exclusive}
use task_sched_x.Scheduler.Wakeup.{
  Signals, Waiter, awake, deciding, blocked, roused, Step, Steps, others, goes_on, decides, blocks,
  pushes, notifies, clears, notifies_all, here, next, Heeded, others-Waits,
}

-- While the predicate of the first wait is false, the scheduler runs and its queue is empty.
pub fetch_waits :
    (now : ℤ) (s : Scheduler) (o : Option (ℕ × TaskQueue))
    → TaskQueue.pop s.task_queue ≡ o
    → fetch now s ≡ none
    → s.task_queue.pq ≡ []
unfolding fetch TaskQueue.pop
fetch_waits now s none e f = ground arith
fetch_waits now s (some (x, rest)) e f = ground arith

-- A step is one of the threads, or leaves them alone.
pub follows :
    {n : ℕ} {w u : Signals}
    → Step n w u
    → ThreadStep n w.threads u.threads ⊎ (u.threads ≡ w.threads)
follows (others t step alone) = inl step
follows (goes_on now t a at f) = inl (own t (fetches now t at f) refl)
follows (decides now a at f) = inr refl
follows (blocks d) = inr refl
follows (pushes i r k e free) = inl (queues i r k e)
follows (notifies k e) = inr refl
follows clears = inl (own _ stops refl)
follows (notifies_all b) = inr refl

pub follow-Exclusive :
    {n : ℕ} {w u : Signals} → Step n w u → Exclusive w.threads → Exclusive u.threads
follow-Exclusive {n} {w} step v = elim (follows step) [
  | inl s ↦ Step-Exclusive n w.threads s v
  | inr same ↦ subst Exclusive (sym same) v
]

pub Waiter-cases : (x : Waiter) → (x ≡ awake) ⊎ (x ≢ awake)
Waiter-cases awake = inl refl
Waiter-cases deciding = inr (λ e. cc)
Waiter-cases blocked = inr (λ e. cc)

pub roused-deciding : (x : Waiter) → roused x ≡ deciding → x ≡ deciding
roused-deciding awake e = cc
roused-deciding deciding e = refl
roused-deciding blocked e = cc

pub roused-blocked : (x : Waiter) → roused x ≢ blocked
roused-blocked awake e = cc
roused-blocked deciding e = cc
roused-blocked blocked e = cc

pub roused-awake : (x : Waiter) → roused x ≢ awake → x ≢ awake
roused-awake awake h e = h refl
roused-awake deciding h e = cc
roused-awake blocked h e = cc

pub Step-Heeded : {n : ℕ} {w u : Signals} → Step n w u → Exclusive w.threads → Heeded w → Heeded u
unfolding queued request_stop
Step-Heeded {n} {w} (others t step alone) v h = record {
  at_wait = λ waits. (others-Waits n w.threads step alone v (h.at_wait waits)).at_head_still;
  empty_when_deciding = λ d run.
      let k = others-Waits n w.threads step alone v (h.at_wait (λ a. cc)) in
      k.empty_still (h.empty_when_deciding d (sym k.same_running ∙ run));
  empty_or_owed = λ b run none_owed.
      let k = others-Waits n w.threads step alone v (h.at_wait (λ a. cc)) in
      k.empty_still (h.empty_or_owed b (sym k.same_running ∙ run) none_owed);
}
Step-Heeded (goes_on now t a at f) v h = record {
  at_wait = λ waits. absurd (waits a);
  empty_when_deciding = λ d run. cc;
  empty_or_owed = λ b run none_owed. cc;
}
Step-Heeded {n} {w} (decides now a at f) v h = record {
  at_wait = λ waits. at;
  empty_when_deciding =
      λ d run. fetch_waits now w.threads.shared (TaskQueue.pop w.threads.shared.task_queue) refl f;
  empty_or_owed = λ b run none_owed. cc;
}
Step-Heeded (blocks d) v h = record {
  at_wait = λ waits. h.at_wait (λ a. cc);
  empty_when_deciding = λ e run. cc;
  empty_or_owed = λ b run none_owed. h.empty_when_deciding d run;
}
Step-Heeded (pushes i r k e free) v h = record {
  at_wait = h.at_wait;
  empty_when_deciding = λ d run. absurd (free d);
  empty_or_owed = λ b run none_owed. absurd (omega arith);
}
Step-Heeded {n} {w} (notifies k e) v h = record {
  at_wait = λ waits. h.at_wait (roused-awake w.waiter waits);
  empty_when_deciding = λ d run. h.empty_when_deciding (roused-deciding w.waiter d) run;
  empty_or_owed = λ b run none_owed. absurd (roused-blocked w.waiter b);
}
Step-Heeded clears v h = record {
  at_wait = h.at_wait;
  empty_when_deciding = λ d run. cc;
  empty_or_owed = λ b run none_owed. cc;
}
Step-Heeded {n} {w} (notifies_all b) v h = record {
  at_wait = λ waits. h.at_wait (roused-awake w.waiter waits);
  empty_when_deciding = λ d run. h.empty_when_deciding (roused-deciding w.waiter d) run;
  empty_or_owed = λ b' run none_owed. absurd (roused-blocked w.waiter b');
}

pub Steps-Exclusive :
    {n : ℕ} {w u : Signals} → Steps n w u → Exclusive w.threads → Exclusive u.threads
Steps-Exclusive here v = v
Steps-Exclusive (next r step) v = follow-Exclusive step (Steps-Exclusive r v)

pub Steps-Heeded : {n : ℕ} {w u : Signals} → Steps n w u → Exclusive w.threads → Heeded w → Heeded u
Steps-Heeded here v h = h
Steps-Heeded (next r step) v h = Step-Heeded step (Steps-Exclusive r v) (Steps-Heeded r v h)
