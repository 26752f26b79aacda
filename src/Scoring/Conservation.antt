-- ===== src/Scoring/Conservation.antt =====
-- services/verifier/scoring.ts: computeEpochRewards neither creates nor loses an amount.
use coc.Prelude.{
  ◌≡◌, ℕ, [], ◌∷◌, List, arith, ◌≤◌, ◌+◌, Text, Dict, insert, text_eq, refl, mul_mono,
}
use coc.Scoring.{
  EpochNodeStats, ScoringConfig, split_buckets, total_weight, uptime_weight, storage_weight,
  relay_weight, allocate_bucket,
}
use coc.Scoring.Allocation.{total_rewards, allotted, allocate_bucket-total, total_rewards-insert}
use coc.Scoring.SoftCap.Totals.{apply_soft_cap-total}
use coc.Scoring.Epoch.{start_rewards, allocated, compute_epoch_rewards}

start_rewards-total :
    (stats : List EpochNodeStats) (rewards : Dict Text ℕ)
    → total_rewards rewards ≡ 0
    → total_rewards (start_rewards stats rewards) ≡ 0
unfolding start_rewards
start_rewards-total [] rewards h = h
start_rewards-total (stat ∷ stats) rewards h =
    start_rewards-total stats (insert stat.node_id 0 rewards)
      (omega (arith, h, total_rewards-insert stat.node_id 0 rewards))

-- What the three buckets hand out to the nodes that have weight in them.
pub handed_out : ℕ → List EpochNodeStats → ScoringConfig → ℕ
handed_out reward_pool stats cfg =
    let buckets = split_buckets reward_pool cfg in
    allotted buckets.uptime (total_weight (uptime_weight cfg) stats)
    + allotted buckets.storage (total_weight (storage_weight cfg) stats)
    + allotted buckets.relay (total_weight (relay_weight cfg) stats)

-- The rewards and the treasury's part are together exactly the buckets in which some node has weight.
pub compute_epoch_rewards-total :
    (reward_pool : ℕ) (stats : List EpochNodeStats) (cfg : ScoringConfig)
    → total_rewards (compute_epoch_rewards reward_pool stats cfg).rewards
        + (compute_epoch_rewards reward_pool stats cfg).treasury_overflow
      ≡ handed_out reward_pool stats cfg
unfolding compute_epoch_rewards handed_out allocated total_rewards
compute_epoch_rewards-total reward_pool stats cfg =
    let buckets = split_buckets reward_pool cfg in
    let started = start_rewards stats [] in
    let by_uptime = allocate_bucket started stats buckets.uptime (uptime_weight cfg) in
    let by_storage = allocate_bucket by_uptime stats buckets.storage (storage_weight cfg) in
    let by_relay = allocate_bucket by_storage stats buckets.relay (relay_weight cfg) in
    omega (
      arith,
      start_rewards-total stats [] refl,
      allocate_bucket-total started stats buckets.uptime (uptime_weight cfg),
      allocate_bucket-total by_uptime stats buckets.storage (storage_weight cfg),
      allocate_bucket-total by_storage stats buckets.relay (relay_weight cfg),
      apply_soft_cap-total by_relay cfg.soft_cap_multiplier,
    )

split_buckets-total :
    (pool : ℕ) (cfg : ScoringConfig)
    → cfg.uptime_bucket_bps + cfg.storage_bucket_bps ≤ 10_000
    → (split_buckets pool cfg).uptime
        + (split_buckets pool cfg).storage
        + (split_buckets pool cfg).relay
      ≡ pool
unfolding split_buckets
split_buckets-total pool cfg h =
    let bound =
      mul_mono pool pool (cfg.uptime_bucket_bps + cfg.storage_bucket_bps) 10_000 (omega arith) h in
    omega (arith, bound)

allotted_le : (amount total : ℕ) → allotted amount total ≤ amount
unfolding allotted
allotted_le amount total = ground arith

-- An epoch never pays out more than its pool, where the uptime and the storage bucket are at most 10,000 basis
-- points together.
pub compute_epoch_rewards-le :
    (reward_pool : ℕ) (stats : List EpochNodeStats) (cfg : ScoringConfig)
    → cfg.uptime_bucket_bps + cfg.storage_bucket_bps ≤ 10_000
    → total_rewards (compute_epoch_rewards reward_pool stats cfg).rewards
        + (compute_epoch_rewards reward_pool stats cfg).treasury_overflow
      ≤ reward_pool
unfolding handed_out
compute_epoch_rewards-le reward_pool stats cfg h =
    let buckets = split_buckets reward_pool cfg in
    omega (
      arith,
      compute_epoch_rewards-total reward_pool stats cfg,
      split_buckets-total reward_pool cfg h,
      allotted_le buckets.uptime (total_weight (uptime_weight cfg) stats),
      allotted_le buckets.storage (total_weight (storage_weight cfg) stats),
      allotted_le buckets.relay (total_weight (relay_weight cfg) stats),
    )
