-- ===== src/BaseFee.antt =====
-- node/src/base-fee.ts: the EIP-1559 base fee and the EIP-4844 blob gas price.
pub mod Bounds
pub mod Blob
pub mod Examples
use coc.Prelude.{
  ℕ, zero, suc, ◌+◌, ◌-◌, ◌*◌, ◌/◌, Option, none, some, ltb, ◌==◌, nat_eq, if◌then◌else◌, or_else,
}

abbrev pub target_gas_utilization : ℕ
target_gas_utilization = 50

abbrev pub max_change_denominator : ℕ
max_change_denominator = 8

abbrev pub min_base_fee : ℕ
min_base_fee = 1_000_000_000

abbrev pub block_gas_limit : ℕ
block_gas_limit = 30_000_000

pub record BaseFeeParams : Type 0 where
  pub parent_base_fee : ℕ
  pub parent_gas_used : ℕ
  pub gas_limit : Option ℕ

pub increased_fee : ℕ → ℕ → ℕ → ℕ
increased_fee fee delta target =
    let increase = fee * delta / target / max_change_denominator in
    fee + (if ltb 0 increase then increase else 1)

pub decreased_fee : ℕ → ℕ → ℕ → ℕ
decreased_fee fee delta target =
    let new_fee = fee - fee * delta / target / max_change_denominator in
    if ltb min_base_fee new_fee then new_fee else min_base_fee

-- The part after the clamp.
pub adjusted_fee : ℕ → ℕ → ℕ → ℕ
adjusted_fee fee used target =
    if target == 0
    then fee
    else if used == target
    then fee
    else if ltb target used
    then increased_fee fee (used - target) target
    else decreased_fee fee (target - used) target

pub calculate_base_fee : BaseFeeParams → ℕ
calculate_base_fee params =
    let gas_limit : ℕ = or_else params.gas_limit block_gas_limit in
    if gas_limit == 0
    then params.parent_base_fee
    else adjusted_fee params.parent_base_fee
        (if ltb gas_limit params.parent_gas_used then gas_limit else params.parent_gas_used)
        (gas_limit * target_gas_utilization / 100)

pub genesis_base_fee : ℕ
genesis_base_fee = min_base_fee

abbrev pub target_blob_gas_per_block : ℕ
target_blob_gas_per_block = 393_216

abbrev pub blob_gas_price_update_fraction : ℕ
blob_gas_price_update_fraction = 3_338_477

abbrev pub min_blob_gas_price : ℕ
min_blob_gas_price = 1

pub calculate_excess_blob_gas : ℕ → ℕ → ℕ
calculate_excess_blob_gas parent_excess parent_used =
    let total = parent_excess + parent_used in
    if ltb total target_blob_gas_per_block then 0 else total - target_blob_gas_per_block

-- The while loop, with fuel; `none` means that the fuel ran out.
pub exponential_loop : ℕ → ℕ → ℕ → ℕ → ℕ → ℕ → Option ℕ
exponential_loop zero numerator denominator i output acc = none
exponential_loop (suc fuel) numerator denominator i output acc =
    let rest =
      exponential_loop fuel numerator denominator (i + 1) (output + acc)
        (acc * numerator / (denominator * i)) in
    if ltb 0 acc then rest else some (output / denominator)

pub fake_exponential : ℕ → ℕ → ℕ → ℕ → Option ℕ
fake_exponential fuel factor numerator denominator =
    exponential_loop fuel numerator denominator 1 0 (factor * denominator)

pub compute_blob_gas_price : ℕ → ℕ → Option ℕ
unfolding fake_exponential
compute_blob_gas_price fuel excess =
    fake_exponential fuel min_blob_gas_price excess blob_gas_price_update_fraction
