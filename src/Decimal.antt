-- ===== src/Decimal.antt =====
-- Numbers as `operator<<` prints them, and `std::setw` with `std::setfill('0')`.
use task_sched_x.Prelude.{
  ℕ, zero, suc, ◌+◌, ◌-◌, ◌*◌, ◌/◌, ◌%◌, ◌≤◌, ◌<◌, ◌≡◌, refl, ap, ◌∙◌, inl, inr, [], ◌∷◌, ◌++◌,
  arith, ltb, if◌then◌else◌, Bool-cases, Bytes, length, length-append, length-replicate, replicate,
}
use task_sched_x.Prelude.Int.{ℤ, pos, negsuc}

-- The digits of `n`, the most significant first; `suc n` is fuel enough.
digits : ℕ → ℕ → Bytes
digits zero n = []
digits (suc f) n =
    let rest = digits f (n / 10) ++ (n % 10 + 48) ∷ [] in if ltb n 10 then (n + 48) ∷ [] else rest

unfoldable pub decimal : ℕ → Bytes
unfolding digits
decimal n = digits (suc n) n

-- A signed number, as `std::to_string` and `operator<<` print it.
unfoldable pub signed_text : ℤ → Bytes
signed_text (pos n) = decimal n
signed_text (negsuc n) = b'-' ∷ decimal (n + 1)

-- `std::setfill('0') << std::setw(w)` before a text.
unfoldable pub zero_pad : ℕ → Bytes → Bytes
zero_pad w s = replicate (w - length s) b'0' ++ s

-- The number that a text of digits stands for, `acc` standing before it.
unfoldable pub value_from : ℕ → Bytes → ℕ
value_from acc [] = acc
value_from acc (c ∷ cs) = value_from (acc * 10 + (c - 48)) cs

value_from-append :
    (acc : ℕ) (s t : Bytes) → value_from acc (s ++ t) ≡ value_from (value_from acc s) t
unfolding value_from
value_from-append acc [] t = refl
value_from-append acc (c ∷ cs) t = value_from-append (acc * 10 + (c - 48)) cs t

value_from-digits : (f n : ℕ) → n < f → value_from 0 (digits f n) ≡ n
unfolding digits value_from
value_from-digits zero n h = absurd (omega arith)
value_from-digits (suc f) n h = elim (Bool-cases (ltb n 10)) [
  | inl small ↦ rw small (omega arith)
  | inr big ↦
      rw (big, value_from-append 0 (digits f (n / 10)) ((n % 10 + 48) ∷ []))
        (rw (value_from-digits f (n / 10) (ground arith)) (omega arith))
]

value_from-zeros : (n : ℕ) → value_from 0 (replicate n b'0') ≡ 0
unfolding value_from
value_from-zeros zero = refl
value_from-zeros (suc n) = value_from-zeros n

pub value_from-decimal : (n : ℕ) → value_from 0 (decimal n) ≡ n
unfolding decimal
value_from-decimal n = value_from-digits (suc n) n (omega arith)

-- Leading zeros do not change the number.
pub value_from-zero_pad : (w : ℕ) (s : Bytes) → value_from 0 (zero_pad w s) ≡ value_from 0 s
unfolding zero_pad
value_from-zero_pad w s =
    value_from-append 0 (replicate (w - length s) b'0') s
    ∙ ap (λ (v : ℕ). value_from v s) (value_from-zeros (w - length s))

pub length-zero_pad : (w : ℕ) (s : Bytes) → w ≤ length (zero_pad w s)
unfolding zero_pad
length-zero_pad w s = omega (
  arith,
  length-append (replicate (w - length s) b'0') s,
  length-replicate {A = ℕ} (w - length s) b'0',
)

pub length-zero_pad_exact : (w : ℕ) (s : Bytes) → length s ≤ w → length (zero_pad w s) ≡ w
unfolding zero_pad
length-zero_pad_exact w s h = omega (
  arith,
  length-append (replicate (w - length s) b'0') s,
  length-replicate {A = ℕ} (w - length s) b'0',
)

abbrev pub power_of_ten : ℕ → ℕ
power_of_ten zero = 1
power_of_ten (suc k) = 10 * power_of_ten k

length-digits-le : (f n k : ℕ) → n < power_of_ten (suc k) → length (digits f n) ≤ suc k
unfolding digits
length-digits-le zero n k h = omega arith
length-digits-le (suc f) n zero h = ground arith
length-digits-le (suc f) n (suc k) h =
    ground
      (arith, length-digits-le f (n / 10) k, length-append (digits f (n / 10)) ((n % 10 + 48) ∷ []))

-- A number below 10 ^ (k + 1) has at most k + 1 digits.
pub length-decimal-le : (n k : ℕ) → n < power_of_ten (suc k) → length (decimal n) ≤ suc k
unfolding decimal
length-decimal-le n k h = length-digits-le (suc n) n k h

power_of_ten-pos : (k : ℕ) → 0 < power_of_ten k
power_of_ten-pos zero = omega arith
power_of_ten-pos (suc k) = omega (arith, power_of_ten-pos k)

length-digits-ge : (f n k : ℕ) → n < f → power_of_ten k ≤ n → suc k ≤ length (digits f n)
unfolding digits
length-digits-ge zero n k h b = absurd (omega arith)
length-digits-ge (suc f) n zero h b =
    ground (arith, length-append (digits f (n / 10)) ((n % 10 + 48) ∷ []))
length-digits-ge (suc f) n (suc k) h b = ground (
  arith,
  power_of_ten-pos k,
  length-digits-ge f (n / 10) k,
  length-append (digits f (n / 10)) ((n % 10 + 48) ∷ []),
)

-- A number from 10 ^ k on has more than k digits.
pub length-decimal-ge : (n k : ℕ) → power_of_ten k ≤ n → suc k ≤ length (decimal n)
unfolding decimal
length-decimal-ge n k b = length-digits-ge (suc n) n k (omega arith) b
