-- ===== src/Response/Decimal.antt =====
-- The digits of a number: how many there are.
use sculpt.Base.{
  ℕ, zero, suc, ◌+◌, ◌*◌, ◌/◌, ◌%◌, ◌^◌, ◌≡◌, ◌<◌, ◌≤◌, [], ◌∷◌, length, length-append, ltb, arith,
  Bool-cases, inl, inr, All-append,
}
use native.Mathlib.Omega.{pow_step}
use sculpt.Text.{IsText}
use sculpt.Response.{decimal_on, decimal}

length-decimal_on : (fuel k n : ℕ) → n < 10 ^ suc k → length (decimal_on fuel n) ≤ suc k
unfolding decimal_on
length-decimal_on zero k n h = omega arith
length-decimal_on (suc fuel) zero n h = ground arith
length-decimal_on (suc fuel) (suc k) n h = elim (Bool-cases (ltb n 10)) [
  | inl e ↦ rw e (omega arith)
  | inr e ↦ rw e (
      let power : 10 ^ suc (suc k) ≡ 10 * 10 ^ suc k = pow_step 10 (suc k) in
      let ih = length-decimal_on fuel k (n / 10) (omega (arith, h, power)) in
      omega (arith, ih, length-append (decimal_on fuel (n / 10)) ((48 + n % 10) ∷ [])))
]

-- A number below a power of ten has no more digits than the exponent.
pub length-decimal : (k n : ℕ) → n < 10 ^ suc k → length (decimal n) ≤ suc k
unfolding decimal
length-decimal k n h = length-decimal_on (suc n) k n h

-- Digits are not NUL.
decimal_on-IsText : (fuel n : ℕ) → IsText (decimal_on fuel n)
unfolding decimal_on
decimal_on-IsText zero n = tt
decimal_on-IsText (suc fuel) n = elim (Bool-cases (ltb n 10)) [
  | inl e ↦ rw e (omega arith)
  | inr e ↦
      rw e
        (All-append _ (decimal_on fuel (n / 10)) _ (decimal_on-IsText fuel (n / 10)) (omega arith))
]

pub decimal-IsText : (n : ℕ) → IsText (decimal n)
unfolding decimal
decimal-IsText n = decimal_on-IsText (suc n) n
