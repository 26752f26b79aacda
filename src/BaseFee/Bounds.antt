-- ===== src/BaseFee/Bounds.antt =====
-- node/src/base-fee.ts, calculateBaseFee: the floor, the 12.5 % step and the order of the results.
use coc.Prelude.{
  ℕ, ◌+◌, ◌-◌, ◌*◌, ◌/◌, ◌%◌, ◌≤◌, ◌<◌, ◌≡◌, max, Option, arith, or_else, div_mono, mul_mono,
}
use coc.BaseFee.{
  BaseFeeParams, calculate_base_fee, adjusted_fee, increased_fee, decreased_fee, min_base_fee,
  block_gas_limit,
}

-- A quotient by the target of a product with a factor no larger than the target.
div_le : (a d t : ℕ) → d ≤ t → a * d / t ≤ a
div_le a d t h = grind arith

increased_fee-le :
    (fee delta target : ℕ) → delta ≤ target → increased_fee fee delta target ≤ fee + max (fee / 8) 1
unfolding increased_fee
increased_fee-le fee delta target h = ground (arith, div_le fee delta target h)

increased_fee-gt : (fee delta target : ℕ) → fee < increased_fee fee delta target
unfolding increased_fee
increased_fee-gt fee delta target = ground arith

decreased_fee-ge :
    (fee delta target : ℕ) → delta ≤ target → fee - fee / 8 ≤ decreased_fee fee delta target
unfolding decreased_fee
decreased_fee-ge fee delta target h = ground (arith, div_le fee delta target h)

decreased_fee-le : (fee delta target : ℕ) → decreased_fee fee delta target ≤ max fee min_base_fee
unfolding decreased_fee
decreased_fee-le fee delta target = ground arith

decreased_fee-floor : (fee delta target : ℕ) → min_base_fee ≤ decreased_fee fee delta target
unfolding decreased_fee
decreased_fee-floor fee delta target = ground arith

-- The fee never falls below the floor of 1 gwei when the parent's fee does not.
pub calculate_base_fee-floor :
    (params : BaseFeeParams)
    → min_base_fee ≤ params.parent_base_fee
    → min_base_fee ≤ calculate_base_fee params
unfolding calculate_base_fee adjusted_fee
calculate_base_fee-floor params h = grind (arith, decreased_fee-floor, increased_fee-gt)

-- For an even gas limit, as the default is, the next fee is at least the fee less an eighth of it,
-- and at most the larger of the floor and the fee plus an eighth of it or one wei, whichever is more.
pub calculate_base_fee-step :
    (params : BaseFeeParams)
    → or_else params.gas_limit block_gas_limit % 2 ≡ 0
    → (params.parent_base_fee - params.parent_base_fee / 8 ≤ calculate_base_fee params)
      × (calculate_base_fee params
          ≤ max min_base_fee (params.parent_base_fee + max (params.parent_base_fee / 8) 1))
unfolding calculate_base_fee adjusted_fee
calculate_base_fee-step params h = (
  grind (arith, decreased_fee-ge, increased_fee-gt),
  grind (arith, increased_fee-le, decreased_fee-le),
)

-- decreasing in the distance below the target
decreased_fee-anti :
    (fee d e target : ℕ) → d ≤ e → decreased_fee fee e target ≤ decreased_fee fee d target
unfolding decreased_fee
decreased_fee-anti fee d e target h =
    ground (arith, div_mono (fee * d) (fee * e) target (mul_mono fee fee d e (omega arith) h))

increased_fee_mono :
    (fee d e target : ℕ) → d ≤ e → increased_fee fee d target ≤ increased_fee fee e target
unfolding increased_fee
increased_fee_mono fee d e target h =
    ground (arith, div_mono (fee * d) (fee * e) target (mul_mono fee fee d e (omega arith) h))

adjusted_fee_mono :
    (fee u v target : ℕ)
    → min_base_fee ≤ fee
    → u ≤ v
    → adjusted_fee fee u target ≤ adjusted_fee fee v target
unfolding adjusted_fee
adjusted_fee_mono fee u v target m h = ground (
  arith,
  decreased_fee-anti fee (target - v) (target - u) target,
  increased_fee_mono fee (u - target) (v - target) target,
  increased_fee-gt fee (v - target) target,
  increased_fee-gt fee (u - target) target,
  decreased_fee-le fee (target - u) target,
)

-- More gas used by the parent never gives a lower fee, from any fee at or above the floor.
pub calculate_base_fee_mono :
    (fee u v : ℕ) (limit : Option ℕ)
    → min_base_fee ≤ fee
    → u ≤ v
    → calculate_base_fee (record { parent_base_fee = fee; parent_gas_used = u; gas_limit = limit })
      ≤ calculate_base_fee
          (record { parent_base_fee = fee; parent_gas_used = v; gas_limit = limit })
unfolding calculate_base_fee
calculate_base_fee_mono fee u v limit m h = grind (arith, adjusted_fee_mono)
