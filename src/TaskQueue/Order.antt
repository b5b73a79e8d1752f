-- ===== src/TaskQueue/Order.antt =====
-- The order in which the queue gives its tasks up.
use task_sched_x.Prelude.{
  ℕ, zero, suc, ◌+◌, ◌≡◌, refl, true, false, none, some, List, [], ◌∷◌, inl, inr, if◌then◌else◌,
  ◌==◌, Bool-cases, All, count, arith, ◌≢◌,
}
use task_sched_x.Task.{Objects}
use task_sched_x.Task.Order.{runs_after-StrictWeakOrder}
use task_sched_x.TaskQueue.{TaskQueue, pq_push, pop, priority_cmp}

-- No task of the list runs before the task at `r`.
abbrev pub First : Objects → ℕ → List ℕ → Type 0
First objects r = All (λ x. priority_cmp objects r x ≡ false)

-- Each task of the list runs before or together with the tasks behind it.
abbrev pub IsSorted : Objects → List ℕ → Type 0
IsSorted objects [] = Unit
IsSorted objects (x ∷ xs) = First objects x xs × IsSorted objects xs

cmp-asymmetric : (o : Objects) (a b : ℕ) → priority_cmp o a b ≡ true → priority_cmp o b a ≡ false
unfolding priority_cmp
cmp-asymmetric o a b h = (runs_after-StrictWeakOrder (o a) (o b) (o a)).asymmetric h

First-trans :
    (o : Objects) (r x : ℕ) (xs : List ℕ) → priority_cmp o r x ≡ false → First o x xs → First o r xs
unfolding priority_cmp
First-trans o r x [] h f = tt
First-trans o r x (y ∷ ys) h f =
    ((runs_after-StrictWeakOrder (o r) (o x) (o y)).equivalence h f.0, First-trans o r x ys h f.1)

pub First-pq_push :
    (o : Objects) (x r : ℕ) (xs : List ℕ)
    → priority_cmp o x r ≡ false
    → First o x xs
    → First o x (pq_push o r xs)
unfolding pq_push
First-pq_push o x r [] h f = (h, tt)
First-pq_push o x r (y ∷ ys) h f = ground (arith, First-pq_push o x r ys h f.1)

pub pq_push-IsSorted :
    (o : Objects) (r : ℕ) (xs : List ℕ) → IsSorted o xs → IsSorted o (pq_push o r xs)
unfolding pq_push
pq_push-IsSorted o r [] s = (tt, tt)
pq_push-IsSorted o r (x ∷ xs) s = elim (Bool-cases (priority_cmp o x r)) [
  | inl before ↦ rw before ((after before, First-trans o r x xs (after before) s.0), (s.0, s.1))
  | inr behind ↦ rw behind (First-pq_push o x r xs behind s.0, pq_push-IsSorted o r xs s.1)
]
  where
    after : priority_cmp o x r ≡ true → priority_cmp o r x ≡ false
    after h = cmp-asymmetric o x r h

pub count-pq_push :
    (o : Objects) (r a : ℕ) (xs : List ℕ)
    → count a (pq_push o r xs) ≡ (if r == a then 1 else 0) + count a xs
unfolding pq_push
count-pq_push o r a [] = refl
count-pq_push o r a (x ∷ xs) = ground (arith, count-pq_push o r a xs)

-- A client that pops `k` times; it stops at an empty queue.
unfoldable pub pops : ℕ → TaskQueue → List ℕ
pops zero q = []
pops (suc k) q = elim (pop q) [ none ↦ [] | some (r, rest) ↦ r ∷ pops k rest ]

First-others :
    (o o' : Objects) (r x : ℕ) (xs : List ℕ)
    → count r xs ≡ 0
    → o' x ≡ o x
    → ((y : ℕ) → y ≢ r → o' y ≡ o y)
    → First o x xs
    → First o' x xs
unfolding priority_cmp
First-others o o' r x [] none_there same others f = tt
First-others o o' r x (y ∷ ys) none_there same others f = (
  rw (same, others y (ground arith)) f.0,
  First-others o o' r x ys (ground arith) same others f.1,
)

-- A change of one object that is not queued leaves the queue in order.
pub IsSorted-others :
    (o o' : Objects) (r : ℕ) (xs : List ℕ)
    → count r xs ≡ 0
    → ((y : ℕ) → y ≢ r → o' y ≡ o y)
    → IsSorted o xs
    → IsSorted o' xs
IsSorted-others o o' r [] none_there others s = tt
IsSorted-others o o' r (x ∷ xs) none_there others s = (
  First-others o o' r x xs (ground arith) (others x (ground arith)) others s.0,
  IsSorted-others o o' r xs (ground arith) others s.1,
)
