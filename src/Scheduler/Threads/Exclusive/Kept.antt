-- ===== src/Scheduler/Threads/Exclusive/Kept.antt =====
-- Every step of every thread keeps the invariant `Exclusive`.
use task_sched_x.Prelude.{
  ℕ, ◌+◌, ◌<◌, ◌≡◌, refl, sym, none, some, List, ◌∷◌, Bytes, count, arith, subst, Bool-cases, inl,
  inr, ◌==◌, ==_iff,
}
use task_sched_x.Task.{Objects, size_mod}
use task_sched_x.TaskQueue
use task_sched_x.TaskQueue.Order.{pq_push-IsSorted, count-pq_push}
use task_sched_x.Scheduler.State.{Scheduler}
use task_sched_x.Scheduler.WellFormed.{WellFormed, held}
use task_sched_x.Scheduler.Client.{TaskConfig}
use task_sched_x.Scheduler.Invariant.{Step-WellFormed, new_scheduler-WellFormed, count-remove}
use task_sched_x.Scheduler.Invariant.Shrinking.{Shrinks-WellFormed, Calm-WellFormed}
use task_sched_x.Scheduler.Invariant.Schedule.{register-WellFormed}
use task_sched_x.Scheduler.Threads.{Program, ended, act, create, enqueue}
use task_sched_x.Scheduler.Threads.Steps.{
  Threads, program_of, taken, moved, made, queued, laid_down, Step, Steps, Reach, begins, takes,
  moves, makes, queues, lays_down, own, discards, here, next,
}
use task_sched_x.Scheduler.Threads.Looping.{own-LoopKeeps}
use task_sched_x.Scheduler.Threads.Neutral.{Neutral-Shrinks}
use task_sched_x.Scheduler.Threads.Neutral.Codes.{execute-IsProper}
use task_sched_x.Scheduler.Threads.Neutral.Steady.{IsProper}
use task_sched_x.Scheduler.Threads.Exclusive.{
  Exclusive, updated, stepped, request-IsProper, create_carried, enqueue_carried, moved-Neutral,
  dropped-listed, dropped-separate, picked-listed, picked-separate,
}

-- The task that a thread carries is nowhere else.
carried_alone :
    (t : Threads) (i r : ℕ)
    → Exclusive t
    → t.carried i ≡ some r
    → (count r t.shared.task_queue.pq ≡ 0)
      × (held r t.shared.loop ≡ 0)
      × (count r t.shared.pending ≡ 0)
carried_alone t i r v e =
    let some_there = v.listed i r e in
    let once = v.well_formed.once r in (omega arith, omega arith, omega arith)

module _ (t : Threads) (v : Exclusive t) where
  taken-Exclusive :
      (i r : ℕ) (rest : List ℕ) (p : Program)
      → t.shared.pending ≡ r ∷ rest
      → IsProper (some r) p
      → Exclusive (taken i r rest p t)
  unfolding taken
  taken-Exclusive i r rest p e proper = record {
    well_formed =
        Calm-WellFormed (refl, refl, refl, refl, refl, λ x. rw e (omega arith)) v.well_formed;
    proper = updated t i (some r) p v.proper proper;
    listed = picked-listed t i v r;
    separate = picked-separate t i v r (
        let front : count r t.shared.pending ≡ 1 + count r rest = rw e (ground arith) in
        omega (arith, v.well_formed.once r));
  }

  moved-Exclusive :
      (i : ℕ) (f : Scheduler → Scheduler) (g : Scheduler → Program)
      → t.program i ≡ act f g
      → Exclusive (moved i f g t)
  unfolding moved
  moved-Exclusive i f g e =
      let n = moved-Neutral t i f g v e in
      let p : IsProper (t.carried i) (act f g) = subst (IsProper (t.carried i)) e (v.proper i) in
      record {
        well_formed = Shrinks-WellFormed (Neutral-Shrinks n) v.well_formed;
        proper = stepped t i (g t.shared) v.proper (p.1 t.shared);
        listed = λ j r c. rw n.executing (v.listed j r c);
        separate = v.separate;
      }

  made-Exclusive :
      (i : ℕ) (c : TaskConfig) (k : ℕ → Program)
      → t.program i ≡ create c k
      → t.shared.next_id + 1 < size_mod
      → Exclusive (made i c k t)
  unfolding made
  made-Exclusive i c k e room =
      let r = t.shared.next_object in
      let p = create_carried c k (t.carried i) (subst (IsProper (t.carried i)) e (v.proper i)) in
      record {
        well_formed = register-WellFormed c t.shared room v.well_formed;
        proper = updated t i (some r) (k r) v.proper (p.1 r);
        listed = picked-listed t i v r;
        separate = picked-separate t i v r (ground (arith, v.well_formed.allocated r));
      }

  queued-Exclusive :
      (i r : ℕ) (k : Program) → t.program i ≡ enqueue r k → Exclusive (queued i r k t)
  unfolding queued TaskQueue.push
  queued-Exclusive i r k e =
      let (c, p) =
        enqueue_carried r k (t.carried i) (subst (IsProper (t.carried i)) e (v.proper i)) in
      let o = t.shared.objects in
      let q = t.shared.task_queue.pq in
      record {
        well_formed =
            Shrinks-WellFormed
              (record {
                next_object = refl;
                next_id = refl;
                ids = λ x. refl;
                active = λ id x h. h;
                fewer = λ x. omega (
                  arith,
                  count-pq_push o r x q,
                  count-remove r x t.shared.executing (v.listed i r c),
                );
                sorted = pq_push-IsSorted o r q v.well_formed.sorted;
              })
              v.well_formed;
        proper = updated t i none k v.proper p;
        listed = dropped-listed t i v r c;
        separate = dropped-separate t i v;
      }

  laid_down-Exclusive :
      (i r : ℕ) → t.program i ≡ ended → t.carried i ≡ some r → Exclusive (laid_down i r t)
  unfolding laid_down
  laid_down-Exclusive i r e c = record {
    well_formed =
        Calm-WellFormed
          (
            refl,
            refl,
            refl,
            refl,
            refl,
            λ x. omega (arith, count-remove r x t.shared.executing (v.listed i r c)),
          )
          v.well_formed;
    proper = λ j. elim (Bool-cases (i == j)) [
      | inl same ↦ rw (same, sym ((==_iff i j).0 same), e) tt
      | inr other ↦ rw other (v.proper j)
    ];
    listed = dropped-listed t i v r c;
    separate = dropped-separate t i v;
  }

pub Step-Exclusive :
    (workers : ℕ) (t : Threads) {u : Threads} → Step workers t u → Exclusive t → Exclusive u
Step-Exclusive workers t (begins i request out e c) v = record {
  well_formed = v.well_formed;
  proper = stepped t i (program_of request) v.proper (rw c (request-IsProper request));
  listed = v.listed;
  separate = v.separate;
}
Step-Exclusive workers t (takes i r rest thread moment now in_pool e c p run) v =
    taken-Exclusive t v i r rest _ p (execute-IsProper r thread moment now)
Step-Exclusive workers t (moves i f g e) v = moved-Exclusive t v i f g e
Step-Exclusive workers t (makes i c k e room) v = made-Exclusive t v i c k e room
Step-Exclusive workers t (queues i r k e) v = queued-Exclusive t v i r k e
Step-Exclusive workers t (lays_down i r e c) v = laid_down-Exclusive t v i r e c
Step-Exclusive workers t (own s step of_it) v =
    let k = own-LoopKeeps step of_it v.well_formed in
    record {
      well_formed = Step-WellFormed step v.well_formed;
      proper = v.proper;
      listed = λ j r c. rw k.executing (v.listed j r c);
      separate = v.separate;
    }
Step-Exclusive workers t (discards off done) v = record {
  well_formed = Calm-WellFormed (refl, refl, refl, refl, refl, λ x. omega arith) v.well_formed;
  proper = v.proper;
  listed = v.listed;
  separate = v.separate;
}

pub Steps-Exclusive :
    (workers : ℕ) (t : Threads) {u : Threads} → Steps workers t u → Exclusive t → Exclusive u
Steps-Exclusive workers t here v = v
Steps-Exclusive workers t (next {u} r step) v =
    Step-Exclusive workers u step (Steps-Exclusive workers t r v)

pub Reach-Exclusive :
    (workers : ℕ) (objects : Objects) (next_id : ℕ) (num_threads : Bytes) {t : Threads}
    → Reach workers objects next_id num_threads t
    → Exclusive t
Reach-Exclusive workers objects next_id num_threads r = Steps-Exclusive workers _ r (record {
  well_formed = new_scheduler-WellFormed objects next_id num_threads;
  proper = λ i. tt;
  listed = λ i r e. cc;
  separate = λ i j r e f. cc;
})

-- No task is in two places, nor with two threads.
pub record Apart (t : Threads) : Type 0 where
  pub well_formed : WellFormed t.shared
  pub one_carrier : (i j r : ℕ) → t.carried i ≡ some r → t.carried j ≡ some r → i ≡ j
  pub nowhere_else :
      (i r : ℕ)
      → t.carried i ≡ some r
      → (count r t.shared.task_queue.pq ≡ 0)
        × (held r t.shared.loop ≡ 0)
        × (count r t.shared.pending ≡ 0)

-- Whatever the threads do, interleaved between any two of their atomic actions, and whatever tasks
-- and callback throw: in every state reached while fewer than 2 ^ 64 tasks are made, no task is
-- carried by two threads, and one that a thread carries, since the thread has registered it and not
-- queued it yet or since it runs it, is not in the queue, not with the scheduler's thread and not in
-- the queue of the pool. The queue is in the order of `operator>`, the registry maps identifiers to
-- the tasks that have them, and no two tasks share an identifier.
pub threads-Apart :
    (workers : ℕ) (objects : Objects) (next_id : ℕ) (num_threads : Bytes) {t : Threads}
    → Reach workers objects next_id num_threads t
    → Apart t
threads-Apart workers objects next_id num_threads {t} r =
    let v = Reach-Exclusive workers objects next_id num_threads r in
    record {
      well_formed = v.well_formed;
      one_carrier = v.separate;
      nowhere_else = λ i x e. carried_alone t i x v e;
    }
