-- ===== src/BaseFee/Blob.antt =====
-- node/src/base-fee.ts, the blob gas: the excess carried over, and the fake exponential's loop.
use coc.Prelude.{
  ℕ, zero, suc, ◌+◌, ◌-◌, ◌*◌, ◌/◌, ◌≤◌, ◌<◌, ◌≡◌, some, arith, ltb, ltb→lt, Bool-cases, inl, inr,
  div_mono,
}
use native.Mathlib.Nat.{le_trans}
use coc.BaseFee.{
  calculate_excess_blob_gas, target_blob_gas_per_block, exponential_loop, fake_exponential,
  compute_blob_gas_price, min_blob_gas_price, blob_gas_price_update_fraction,
}

-- The excess is the running total less the target of three blobs, and never below zero.
pub calculate_excess_blob_gas_lem :
    (excess used : ℕ)
    → calculate_excess_blob_gas excess used ≡ excess + used - target_blob_gas_per_block
unfolding calculate_excess_blob_gas
calculate_excess_blob_gas_lem excess used = ground arith

module _ (numerator denominator : ℕ) where
  -- An outcome found with some fuel stays with more.
  more_fuel :
      (f g i output acc r : ℕ)
      → f ≤ g
      → exponential_loop f numerator denominator i output acc ≡ some r
      → exponential_loop g numerator denominator i output acc ≡ some r
  unfolding exponential_loop
  more_fuel zero g i output acc r le e = cc
  more_fuel (suc f) zero i output acc r le e = absurd (omega arith)
  more_fuel (suc f) (suc g) i output acc r le e = ground (
    arith,
    more_fuel f g (i + 1) (output + acc) (acc * numerator / (denominator * i)) r (omega arith),
  )

  -- The loop comes back with this fuel, with no less than what was summed before it.
  Returns : ℕ → ℕ → ℕ → ℕ → Type 0
  Returns fuel i output acc =
      (r : ℕ) × (exponential_loop fuel numerator denominator i output acc ≡ some r)
      × (output / denominator ≤ r)

  one_round :
      (fuel i output acc : ℕ)
      → Returns fuel (i + 1) (output + acc) (acc * numerator / (denominator * i))
      → Returns (suc fuel) i output acc
  unfolding Returns exponential_loop
  one_round fuel i output acc (r, e, b) = elim (Bool-cases (ltb 0 acc)) [
    | inl more ↦
        (r, rw more e, le_trans (div_mono output (output + acc) denominator (omega arith)) b)
    | inr done ↦ (output / denominator, rw done, omega arith)
  ]

  module _ (positive : 0 < denominator) where
    -- Past the numerator each term is smaller than the one before.
    term_falls : (i acc : ℕ) → numerator < i → 0 < acc → acc * numerator / (denominator * i) < acc
    term_falls i acc past nonzero = grind arith

    falling : (fuel i output acc : ℕ) → acc < fuel → numerator < i → Returns fuel i output acc
    unfolding Returns exponential_loop
    falling zero i output acc a past = absurd (omega arith)
    falling (suc fuel) i output acc a past = elim (Bool-cases (ltb 0 acc)) [
      | inl more ↦ one_round fuel i output acc (
          falling fuel (i + 1) (output + acc) (acc * numerator / (denominator * i))
            (omega (arith, term_falls i acc past (ltb→lt _ _ more))) (omega arith))
      | inr done ↦ (output / denominator, rw done, omega arith)
    ]

    climbing : (n i output acc : ℕ) → numerator < i + n → (fuel : ℕ) × Returns fuel i output acc
    climbing zero i output acc past =
        (suc acc, falling (suc acc) i output acc (omega arith) (omega arith))
    climbing (suc n) i output acc past =
        let (fuel, r) =
          climbing n (i + 1) (output + acc) (acc * numerator / (denominator * i)) (omega arith) in
        (suc fuel, one_round fuel i output acc r)

    first_round :
        (factor fuel : ℕ)
        → Returns fuel 2
            (0 + factor * denominator)
            (factor * denominator * numerator / (denominator * 1))
        → (r : ℕ) × (exponential_loop (suc fuel) numerator denominator 1 0 (factor * denominator)
            ≡ some r)
          × (factor ≤ r)
    unfolding Returns exponential_loop
    first_round factor fuel (r, e, b) = elim (Bool-cases (ltb 0 (factor * denominator))) [
      | inl more ↦ (r, rw more e, grind arith)
      | inr done ↦ (0 / denominator, rw done, grind arith)
    ]

    -- The fake exponential comes back for a denominator above zero: some fuel is enough, all
    -- larger fuel gives the same result, and that is at least the factor.
    pub fake_exponential_returns :
        (factor : ℕ)
        → (fuel : ℕ) × (r : ℕ) × ((k : ℕ)
            → fake_exponential (fuel + k) factor numerator denominator ≡ some r)
          × (factor ≤ r)
    unfolding fake_exponential
    fake_exponential_returns factor =
        let acc = factor * denominator in
        let (fuel, found) =
          climbing numerator 2 (0 + acc) (acc * numerator / (denominator * 1)) (omega arith) in
        let (r, e, b) = first_round factor fuel found in
        (suc fuel, r, (λ k. more_fuel (suc fuel) (suc fuel + k) 1 0 acc r (omega arith) e), b)

-- The blob gas price is always found, at any excess, and is never below the minimum price.
pub compute_blob_gas_price_returns :
    (excess : ℕ)
    → (fuel : ℕ) × (price : ℕ) × ((k : ℕ) → compute_blob_gas_price (fuel + k) excess ≡ some price)
      × (min_blob_gas_price ≤ price)
unfolding compute_blob_gas_price
compute_blob_gas_price_returns excess =
    fake_exponential_returns excess blob_gas_price_update_fraction (omega arith) min_blob_gas_price
