-- ===== src/Scoring/Isqrt.antt =====
-- services/verifier/scoring.ts: isqrt is the integer square root, by Newton's method.
use coc.Prelude.{
  mul_mono, quotient_le, ◌≡◌, ℕ, zero, suc, arith, ◌≤◌, ◌<◌, ◌+◌, ◌-◌, ◌*◌, ◌/◌, ltb, Bool-cases,
  inl, inr, ltb→lt,
}
use coc.Scoring.{newton, isqrt}

square_sum_ordered : (a d : ℕ) → 4 * (a * (a + d)) ≤ (a + (a + d)) * (a + (a + d))
square_sum_ordered a d = omega arith

square_sum_gap : (a b d : ℕ) → b ≡ a + d → 4 * (a * b) ≤ (a + b) * (a + b)
square_sum_gap a b d e = rw e (square_sum_ordered a d)

-- Four times a product is at most the square of the sum.
square_sum : (a b : ℕ) → 4 * (a * b) ≤ (a + b) * (a + b)
square_sum a b = elim (Bool-cases (ltb a b)) [
  | inl less ↦ square_sum_gap a b (b - a) (ground arith)
  | inr more ↦ let other = square_sum_gap b a (a - b) (ground arith) in omega (arith, other)
]

quotient_lt : (n x : ℕ) → 0 < x → n < x * (n / x + 1)
quotient_lt n x h = omega arith

-- A step of the method stays above the root.
newton_step : (n x : ℕ) → 0 < x → n < ((x + n / x) / 2 + 1) * ((x + n / x) / 2 + 1)
newton_step n x h =
    let q = n / x in
    let y = (x + q) / 2 in
    let above = quotient_lt n x h in
    let mean = square_sum x (q + 1) in
    let wide : x + (q + 1) ≤ 2 * y + 2 = omega arith in
    let grown = mul_mono (x + (q + 1)) (2 * y + 2) (x + (q + 1)) (2 * y + 2) wide wide in
    omega (arith, above, mean, grown)

unfoldable pub IsRoot : ℕ → ℕ → Type 0
IsRoot n r = (r * r ≤ n) × (n < (r + 1) * (r + 1))

newton-IsRoot :
    (fuel n x0 : ℕ) → x0 ≤ fuel → 0 < n → n < (x0 + 1) * (x0 + 1) → IsRoot n (newton fuel n x0)
unfolding newton IsRoot
newton-IsRoot zero n x0 h p k =
    absurd (omega (arith, mul_mono (x0 + 1) 1 (x0 + 1) 1 (omega arith) (omega arith)))
newton-IsRoot (suc fuel) n x0 h p k = elim (Bool-cases (ltb ((x0 + n / x0) / 2) x0)) [
  | inl less ↦
      let fewer = ltb→lt ((x0 + n / x0) / 2) x0 less in
      rw less (
        newton-IsRoot fuel n ((x0 + n / x0) / 2) (omega (arith, fewer)) p
          (newton_step n x0 (omega (arith, fewer))))
  | inr more ↦
      let large : x0 ≤ (x0 + n / x0) / 2 = ground arith in
      let square = mul_mono x0 x0 x0 (n / x0) (omega arith) (omega (arith, large)) in
      rw more (omega (arith, square, quotient_le n x0), k)
]

-- The result is the largest number whose square is at most n: its loop ends within n steps.
pub isqrt-IsRoot : (n : ℕ) → IsRoot n (isqrt n)
unfolding isqrt IsRoot
isqrt-IsRoot n = elim (Bool-cases (ltb n 2)) [
  | inl small ↦ rw small (omega (arith, mul_mono n 1 n n (ground arith) (omega arith)), omega arith)
  | inr large ↦
      let two : 2 ≤ n = ground arith in
      rw large (newton-IsRoot n n n (omega arith) (omega (arith, two)) (omega arith))
]
