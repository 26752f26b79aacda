-- ===== src/BaseFee/Examples.antt =====
-- node/src/base-fee.ts: fees at concrete gas use, and the theorems applied to them.
use coc.BaseFee.Blob.{calculate_excess_blob_gas_lem, compute_blob_gas_price_returns}
use coc.BaseFee.Bounds.{calculate_base_fee-step}
use coc.Prelude.{◌-◌, ℕ, none, ◌≤◌, ◌/◌, ◌≡◌, ◌+◌, max, some, refl}
use coc.BaseFee.{
  BaseFeeParams, calculate_base_fee, compute_blob_gas_price, min_base_fee,
  calculate_excess_blob_gas, adjusted_fee, fake_exponential, increased_fee, decreased_fee,
  exponential_loop, target_blob_gas_per_block, min_blob_gas_price,
}

abbrev full_block : BaseFeeParams
full_block = record {
  parent_base_fee = 2_000_000_000;
  parent_gas_used = 30_000_000;
  gas_limit = none;
}

fee_after_full_block : calculate_base_fee full_block ≡ 2_250_000_000
unfolding calculate_base_fee adjusted_fee increased_fee
fee_after_full_block = refl

fee_after_empty_block :
    calculate_base_fee (record full_block { parent_gas_used = 0 }) ≡ 1_750_000_000
unfolding calculate_base_fee adjusted_fee decreased_fee
fee_after_empty_block = refl

blob_price_without_excess : compute_blob_gas_price 3 0 ≡ some 1
unfolding compute_blob_gas_price fake_exponential exponential_loop
blob_price_without_excess = refl

calculate_base_fee-step_example :
    (2_000_000_000 - 2_000_000_000 / 8 ≤ calculate_base_fee full_block)
    × (calculate_base_fee full_block ≤ max min_base_fee (2_000_000_000 + max (2_000_000_000 / 8) 1))
calculate_base_fee-step_example = calculate_base_fee-step full_block refl

calculate_excess_blob_gas_example :
    calculate_excess_blob_gas 400_000 131_072 ≡ 400_000 + 131_072 - target_blob_gas_per_block
calculate_excess_blob_gas_example = calculate_excess_blob_gas_lem 400_000 131_072

compute_blob_gas_price_returns_example :
    (fuel : ℕ) × (price : ℕ) × ((k : ℕ) → compute_blob_gas_price (fuel + k) 10_000_000 ≡ some price)
    × (min_blob_gas_price ≤ price)
compute_blob_gas_price_returns_example = compute_blob_gas_price_returns 10_000_000
