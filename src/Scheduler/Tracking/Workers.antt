-- ===== src/Scheduler/Tracking/Workers.antt =====
-- The workers lose no registered task, when the callback throws nothing.
use task_sched_x.Prelude.{
  ℕ, ◌<◌, ◌≡◌, ◌≢◌, refl, sym, ap, ◌∙◌, subst, inl, inr, false, some, List, ◌∷◌, Bytes, find, count,
  ◌==◌, ==_iff, arith, Bool-cases,
}
use task_sched_x.Prelude.Int.{ℤ}
use task_sched_x.Task.{Task, Call, execute}
use task_sched_x.TaskQueue
use task_sched_x.TaskQueue.{TaskQueue}
use task_sched_x.TaskQueue.Order.{count-pq_push}
use task_sched_x.Scheduler.State.{Scheduler, Outcome}
use task_sched_x.Scheduler.WellFormed.{WellFormed, places}
use task_sched_x.Scheduler.Callbacks.{Quiet}
use task_sched_x.Scheduler.Execute.{execute_and_finalize_task, is_cancelled}
use task_sched_x.Scheduler.System.{remove}
use task_sched_x.Scheduler.Invariant.{count-remove, worked}
use task_sched_x.Scheduler.Frames.{Touched}
use task_sched_x.Scheduler.Frames.Execution.{execute-Settled, Settled}
use task_sched_x.Scheduler.Outcomes.Defs.{
  Ends, verdict, Verdict, fails, times_out, was_cancelled, repeats, completes,
}
use task_sched_x.Scheduler.Outcomes.Theorem.{execute_and_finalize_task-Ends}
use task_sched_x.Scheduler.Tracking.{Tracked}
use task_sched_x.Scheduler.Tracking.Threads.{Keeps-Tracked}

pub take-Tracked :
    (r : ℕ) (rest : List ℕ) (s : Scheduler)
    → s.pending ≡ r ∷ rest
    → Tracked s
    → Tracked (record s { pending = rest; executing = r ∷ s.executing })
take-Tracked r rest s e =
    Keeps-Tracked s (record s { pending = rest; executing = r ∷ s.executing })
      (record { objects = refl; active = refl; more = λ x. rw e (omega arith) })

-- Another task than the executed one.
other-Touched :
    (r x : ℕ) (j : Bytes) (s t : Scheduler)
    → Touched r s t
    → x ≢ r
    → 0 < count r s.executing
    → Tracked s
    → find j t.active_tasks ≡ some x
    → (is_cancelled (t.objects x).status ≡ false)
      × (0 < places x (record t { executing = remove r s.executing }))
other-Touched r x j s t h apart there k f =
    let (fine, placed) = k j x (h.active j x f) in
    (
      rw (h.others x apart) fine,
      rw (h.task_queue, h.loop, h.pending)
          (ground (arith, count-remove r x s.executing there, apart)),
    )

other-Tracked :
    (r x : ℕ) (j : Bytes) (s : Scheduler) (o : Outcome (Unit {0}) × Scheduler)
    → Settled r s o
    → x ≢ r
    → 0 < count r s.executing
    → Tracked s
    → find j o.1.active_tasks ≡ some x
    → (is_cancelled (o.1.objects x).status ≡ false) × (0 < places x (worked r s o))
unfolding TaskQueue.push
other-Tracked r x j s o (inl h) apart there k f = other-Touched r x j s o.1 h apart there k f
other-Tracked r x j s o (inr (e, q)) apart there k f =
    let b = q.before in
    let g : find j b.active_tasks ≡ some x =
      ap (λ (t : Scheduler). find j t.active_tasks) (sym q.shape) ∙ f in
    let (fine, placed) = other-Touched r x j s b q.touched apart there k g in
    (
      rw (q.others x apart) fine,
      rw (ap (λ (t : Scheduler). places x (record t { executing = remove r s.executing })) q.shape)
          (omega (arith, placed, count-pq_push o.1.objects r x b.task_queue.pq)),
    )

-- An execution registers nothing.
Settled-active :
    (r x : ℕ) (j : Bytes) (s : Scheduler) (o : Outcome (Unit {0}) × Scheduler)
    → Settled r s o
    → find j o.1.active_tasks ≡ some x
    → find j s.active_tasks ≡ some x
Settled-active r x j s o (inl h) f = h.active j x f
Settled-active r x j s o (inr (e, q)) f =
    q.touched.active j x (ap (λ (t : Scheduler). find j t.active_tasks) (sym q.shape) ∙ f)

-- The executed task, if it is still registered, was queued again.
executed-Tracked :
    (w : Verdict) (r : ℕ) (now : ℤ) (j : Bytes) (s : Scheduler) (o : Outcome (Unit {0}) × Scheduler)
    → Ends w r now s o.1
    → w ≢ was_cancelled
    → (s.objects r).task_id ≡ j
    → find j o.1.active_tasks ≡ some r
    → (is_cancelled (o.1.objects r).status ≡ false) × (0 < places r (worked r s o))
executed-Tracked (fails x) r now j s o h c same f = ground (arith, h.unregistered)
executed-Tracked times_out r now j s o h c same f = ground (arith, h.unregistered)
executed-Tracked was_cancelled r now j s o h c same f = absurd (c refl)
executed-Tracked repeats r now j s o h c same f = (rw h.renewed refl, ground (arith, h.requeued r))
executed-Tracked completes r now j s o h c same f = ground (arith, h.unregistered)

verdict-not_cancelled :
    (t : Task) (c : Call) → is_cancelled t.status ≡ false → verdict t c ≢ was_cancelled
verdict-not_cancelled t c h e = ground arith

pub work-Tracked :
    (r : ℕ) (thread : Bytes) (moment : ℕ) (now : ℤ) (s : Scheduler)
    → Quiet s.completion_callback
    → WellFormed s
    → 0 < count r s.executing
    → Tracked s
    → Tracked (worked r s (execute_and_finalize_task r thread moment now s))
work-Tracked r thread moment now s quiet v there k j x f =
    let o = execute_and_finalize_task r thread moment now s in
    let settled = execute-Settled r thread moment now s in
    elim (Bool-cases (x == r)) [
      | inr apart ↦ other-Tracked r x j s o settled (λ h. ground arith) there k f
      | inl same ↦
          let x_r : x ≡ r = (==_iff x r).0 same in
          let g : find j o.1.active_tasks ≡ some r = f ∙ ap some x_r in
          let h = Settled-active r r j s o settled g in
          subst (λ y. (is_cancelled (o.1.objects y).status ≡ false) × (0 < places y (worked r s o)))
            (sym x_r)
            (executed-Tracked (verdict (s.objects r) (execute (s.objects r) moment)) r now j s o
              (execute_and_finalize_task-Ends r thread moment now s quiet).1
              (verdict-not_cancelled (s.objects r) (execute (s.objects r) moment) (k j r h).0)
              (v.registered j r h).1 g)
    ]
