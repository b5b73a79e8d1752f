-- ===== src/TaskQueue/Cancel.antt =====
-- `TaskQueue::cancelTask` against an independent description of it.
use mathlib.Core.List.{append_assoc, append-nil}
use mathlib.Core.Path.{fun_ext}
use task_sched_x.Prelude.{
  ℕ, ◌≡◌, refl, sym, Bool, true, false, ◌&&◌, ◌||◌, List, [], ◌∷◌, ◌++◌, if◌then◌else◌, ◌==◌, ap,
  arith, Bytes, str_eq, update, ◌∙◌,
}
use task_sched_x.Task.{Objects, runs_after, set_status, cancelled}
use task_sched_x.TaskQueue.{TaskQueue, pq_push, priority_cmp, cancel_loop, reinsert, cancel_task}
use task_sched_x.TaskQueue.Order.{IsSorted, First}

-- The list holds the address.
abbrev pub mem : ℕ → List ℕ → Bool
mem r [] = false
mem r (x ∷ xs) = x == r || mem r xs

-- Some task of the list has this identifier.
abbrev pub has_id : Bytes → Objects → List ℕ → Bool
has_id id o [] = false
has_id id o (x ∷ xs) = str_eq (o x).task_id id || has_id id o xs

-- The list without the tasks that have this identifier.
abbrev pub without : Bytes → Objects → List ℕ → List ℕ
without id o [] = []
without id o (x ∷ xs) = if str_eq (o x).task_id id then without id o xs else x ∷ without id o xs

-- The objects, the tasks of the list that have this identifier marked as cancelled.
abbrev pub mark : Bytes → Objects → List ℕ → Objects
mark id o xs r =
    if mem r xs && str_eq (o r).task_id id then record (o r) { status = cancelled } else o r

-- What `cancel_loop` does to the objects at one task.
abbrev cancel_one : Bytes → Objects → ℕ → Objects
cancel_one id o x = if str_eq (o x).task_id id then update o x (set_status cancelled (o x)) else o

cancel_one-task_id :
    (id : Bytes) (o : Objects) (x r : ℕ) → (cancel_one id o x r).task_id ≡ (o r).task_id
unfolding set_status
cancel_one-task_id id o x r = ground arith

has_id-cancel_one :
    (id : Bytes) (o : Objects) (x : ℕ) (xs : List ℕ)
    → has_id id (cancel_one id o x) xs ≡ has_id id o xs
has_id-cancel_one id o x [] = refl
has_id-cancel_one id o x (y ∷ ys) = cc (cancel_one-task_id id o x y, has_id-cancel_one id o x ys)

without-cancel_one :
    (id : Bytes) (o : Objects) (x : ℕ) (xs : List ℕ)
    → without id (cancel_one id o x) xs ≡ without id o xs
without-cancel_one id o x [] = refl
without-cancel_one id o x (y ∷ ys) = cc (cancel_one-task_id id o x y, without-cancel_one id o x ys)

mark-cancel_one :
    (id : Bytes) (o : Objects) (x : ℕ) (xs : List ℕ) (r : ℕ)
    → mark id (cancel_one id o x) xs r ≡ mark id o (x ∷ xs) r
unfolding set_status
mark-cancel_one id o x xs r = ground arith

triple {ℓ} :
    {A B C : Type ℓ} {a a' : A} {b b' : B} {c c' : C}
    → a ≡ a'
    → b ≡ b'
    → c ≡ c'
    → ◌≡◌ {A = A × B × C} (a, b, c) (a', b', c')
triple p q r = λ i. (p i, q i, r i)

kept_next :
    (b : Bool) (x : ℕ) (temp rest : List ℕ)
    → (if b then temp else temp ++ x ∷ []) ++ rest ≡ temp ++ (if b then rest else x ∷ rest)
kept_next true x temp rest = refl
kept_next false x temp rest = append_assoc temp (x ∷ []) rest

found_next : (a b c : Bool) → a || (b || c) ≡ (b || a) || c
found_next a b c = ground arith

cancel_loop_lem :
    (id : Bytes) (o : Objects) (xs temp : List ℕ) (found : Bool)
    → cancel_loop id o xs temp found
      ≡ (mark id o xs, temp ++ without id o xs, has_id id o xs || found)
unfolding cancel_loop
cancel_loop_lem id o [] temp found = triple refl (sym (append-nil temp)) refl
cancel_loop_lem id o (x ∷ xs) temp found =
    let hit = str_eq (o x).task_id id in
    cancel_loop_lem id (cancel_one id o x) xs (if hit then temp else temp ++ x ∷ []) (hit || found)
    ∙ triple (fun_ext (mark-cancel_one id o x xs))
        (rw (without-cancel_one id o x xs) (kept_next hit x temp (without id o xs)))
        (rw (has_id-cancel_one id o x xs) (found_next (has_id id o xs) hit found))

-- Objects that the comparator does not tell apart.
abbrev pub SameKeys : Objects → Objects → Type 0
SameKeys o o' =
    (r : ℕ) → ((o' r).priority ≡ (o r).priority) × ((o' r).start_time ≡ (o r).start_time)

pub mark-SameKeys : (id : Bytes) (o : Objects) (xs : List ℕ) → SameKeys o (mark id o xs)
mark-SameKeys id o xs r = ground arith

pub priority_cmp-SameKeys :
    (o o' : Objects) (a b : ℕ) → SameKeys o o' → priority_cmp o' a b ≡ priority_cmp o a b
unfolding priority_cmp runs_after
priority_cmp-SameKeys o o' a b k = rw ((k a).0, (k a).1, (k b).0, (k b).1)

First-SameKeys :
    (o o' : Objects) (r : ℕ) (xs : List ℕ) → SameKeys o o' → First o r xs → First o' r xs
First-SameKeys o o' r [] k f = tt
First-SameKeys o o' r (x ∷ xs) k f =
    (priority_cmp-SameKeys o o' r x k ∙ f.0, First-SameKeys o o' r xs k f.1)

pub IsSorted-SameKeys :
    (o o' : Objects) (xs : List ℕ) → SameKeys o o' → IsSorted o xs → IsSorted o' xs
IsSorted-SameKeys o o' [] k s = tt
IsSorted-SameKeys o o' (x ∷ xs) k s =
    (First-SameKeys o o' x xs k s.0, IsSorted-SameKeys o o' xs k s.1)

First-without :
    (id : Bytes) (o : Objects) (r : ℕ) (xs : List ℕ) → First o r xs → First o r (without id o xs)
First-without id o r [] f = tt
First-without id o r (x ∷ xs) f = ground (arith, First-without id o r xs f.1)

pub IsSorted-without :
    (id : Bytes) (o : Objects) (xs : List ℕ) → IsSorted o xs → IsSorted o (without id o xs)
IsSorted-without id o [] s = tt
IsSorted-without id o (x ∷ xs) s =
    ground (arith, IsSorted-without id o xs s.1, First-without id o x xs s.0)

First-middle :
    (o : Objects) (x : ℕ) (xs : List ℕ) (r : ℕ) (ys : List ℕ)
    → First o x (xs ++ r ∷ ys)
    → priority_cmp o x r ≡ false
First-middle o x [] r ys f = f.0
First-middle o x (y ∷ xs) r ys f = First-middle o x xs r ys f.1

-- A task that runs before none of a list is inserted at its end.
pq_push_end :
    (o : Objects) (xs ys : List ℕ) (r : ℕ)
    → IsSorted o (xs ++ r ∷ ys)
    → pq_push o r xs ≡ xs ++ r ∷ []
unfolding pq_push
pq_push_end o [] ys r s = refl
pq_push_end o (x ∷ xs) ys r s =
    rw (First-middle o x xs r ys s.0) (ap (λ (l : List ℕ). x ∷ l) (pq_push_end o xs ys r s.1))

reinsert_sorted :
    (o : Objects) (xs acc : List ℕ) → IsSorted o (acc ++ xs) → reinsert o xs acc ≡ acc ++ xs
unfolding reinsert
reinsert_sorted o [] acc s = sym (append-nil acc)
reinsert_sorted o (x ∷ xs) acc s = rw (pq_push_end o acc xs x s) (
    reinsert_sorted o xs (acc ++ x ∷ []) (rw (append_assoc acc (x ∷ []) xs) s)
    ∙ append_assoc acc (x ∷ []) xs)

pub cancel_task_lem :
    (id : Bytes) (o : Objects) (q : TaskQueue)
    → IsSorted o q.pq
    → cancel_task id o q ≡ (mark id o q.pq, record { pq = without id o q.pq }, has_id id o q.pq)
unfolding cancel_task
cancel_task_lem id o q s = rw (cancel_loop_lem id o q.pq [] false) (
    rw (reinsert_sorted (mark id o q.pq) (without id o q.pq) [] sorted)
      (triple refl refl (found_end (has_id id o q.pq))))
  where
    sorted : IsSorted (mark id o q.pq) (without id o q.pq)
    sorted =
        IsSorted-SameKeys o (mark id o q.pq) (without id o q.pq) (mark-SameKeys id o q.pq)
          (IsSorted-without id o q.pq s)

    found_end : (b : Bool) → b || false ≡ b
    found_end b = ground arith
