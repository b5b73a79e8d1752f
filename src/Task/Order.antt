-- ===== src/Task/Order.antt =====
-- `Task::operator>`, the order of the priority queue.
use task_sched_x.Prelude.{◌≡◌, ◌⊎◌, ◌↔◌, true, false, arith}
use task_sched_x.Prelude.Int.{◌<ℤ◌, eq_of_parts}
use task_sched_x.Task.{Task, runs_after}

-- `a` comes strictly later: by a greater priority number, or with the same one by its start time.
abbrev pub Later : Task → Task → Type 0
Later a b =
    (b.priority <ℤ a.priority) ⊎ ((a.priority ≡ b.priority) × (b.start_time <ℤ a.start_time))

-- `operator>` decides the lexicographic order on priority and start time, in both directions.
pub runs_after-Later : (a b : Task) → (runs_after a b ≡ true) ↔ Later a b
unfolding runs_after
runs_after-Later a b = (λ h. ground (arith, eq_of_parts a.priority b.priority), λ h. ground arith)

-- What `std::priority_queue` asks of its comparator.
pub record StrictWeakOrder (a b c : Task) : Type 0 where
  pub irreflexive : runs_after a a ≡ false
  pub asymmetric : runs_after a b ≡ true → runs_after b a ≡ false
  pub transitive : runs_after a b ≡ true → runs_after b c ≡ true → runs_after a c ≡ true
  pub equivalence : runs_after a b ≡ false → runs_after b c ≡ false → runs_after a c ≡ false

-- `operator>` is a strict weak order: irreflexive, asymmetric and transitive, and so is its
-- complement transitive, so that tasks neither of which runs after the other form classes.
pub runs_after-StrictWeakOrder : (a b c : Task) → StrictWeakOrder a b c
unfolding runs_after
runs_after-StrictWeakOrder a b c = record {
  irreflexive = ground arith;
  asymmetric = λ h. ground arith;
  transitive = λ h k. ground arith;
  equivalence = λ h k. ground arith;
}
