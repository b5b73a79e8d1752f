-- ===== src/Logger/Digits.antt =====
-- Numbers of fixed width at a place in a text.
use task_sched_x.Prelude.{
  ℕ, zero, suc, ◌+◌, ◌≤◌, ◌<◌, ◌≡◌, refl, ap, ◌∙◌, [], ◌∷◌, ◌++◌, length, Bytes, arith,
}
use task_sched_x.Decimal.{
  decimal, zero_pad, value_from, value_from-decimal, value_from-zero_pad, length-zero_pad_exact,
  length-decimal-le,
}

-- The text from position `i` on, and its first `w` characters as a number.
abbrev pub drop : ℕ → Bytes → Bytes
drop zero s = s
drop (suc i) [] = []
drop (suc i) (c ∷ s) = drop i s

abbrev pub take : ℕ → Bytes → Bytes
take zero s = []
take (suc i) [] = []
take (suc i) (c ∷ s) = c ∷ take i s

abbrev pub number_at : ℕ → ℕ → Bytes → ℕ
number_at i w s = value_from 0 (take w (drop i s))

pub drop-append :
    (p : Bytes) (w k : ℕ) (c : ℕ) (r : Bytes)
    → length p ≡ w
    → drop (w + suc k) (p ++ c ∷ r) ≡ drop k r
drop-append [] zero k c r h = let e : 0 + suc k ≡ suc k = omega arith in rw e refl
drop-append [] (suc w) k c r h = absurd (omega arith)
drop-append (x ∷ p) zero k c r h = absurd (omega arith)
drop-append (x ∷ p) (suc w) k c r h =
    let e : suc w + suc k ≡ suc (w + suc k) = omega arith in
    rw e (drop-append p w k c r (omega arith))

pub take-append : (p : Bytes) (w : ℕ) (r : Bytes) → length p ≡ w → take w (p ++ r) ≡ p
take-append [] zero r h = refl
take-append [] (suc w) r h = absurd (omega arith)
take-append (x ∷ p) zero r h = absurd (omega arith)
take-append (x ∷ p) (suc w) r h = ap (λ (l : Bytes). x ∷ l) (take-append p w r (omega arith))

-- A field of fixed width is read as the number that was printed.
pub number_at-pad :
    (w n : ℕ) (r : Bytes) → length (decimal n) ≤ w → number_at 0 w (zero_pad w (decimal n) ++ r) ≡ n
number_at-pad w n r h =
    ap (value_from 0)
      (take-append (zero_pad w (decimal n)) w r (length-zero_pad_exact w (decimal n) h))
    ∙ value_from-zero_pad w (decimal n)
    ∙ value_from-decimal n

-- A field behind one of width `w` and a separator.
pub number_at-behind :
    (p : Bytes) (w k v c : ℕ) (r : Bytes)
    → length p ≡ w
    → number_at (w + suc k) v (p ++ c ∷ r) ≡ number_at k v r
number_at-behind p w k v c r h =
    ap (λ (s : Bytes). value_from 0 (take v s)) (drop-append p w k c r h)

unfoldable pub two_digits : ℕ → Bytes
two_digits n = zero_pad 2 (decimal n)

pub length-two_digits : (n : ℕ) → n < 100 → length (two_digits n) ≡ 2
unfolding two_digits
length-two_digits n h = length-zero_pad_exact 2 (decimal n) (length-decimal-le n 1 h)

-- Reading behind a field of two digits, and reading that field.
pub behind :
    (n k v c : ℕ) (r : Bytes)
    → n < 100
    → number_at (2 + suc k) v (two_digits n ++ c ∷ r) ≡ number_at k v r
behind n k v c r h = number_at-behind (two_digits n) 2 k v c r (length-two_digits n h)

pub here : (n : ℕ) (r : Bytes) → n < 100 → number_at 0 2 (two_digits n ++ r) ≡ n
unfolding two_digits
here n r h = number_at-pad 2 n r (length-decimal-le n 1 h)
