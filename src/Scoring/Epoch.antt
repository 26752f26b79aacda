-- ===== src/Scoring/Epoch.antt =====
-- services/verifier/scoring.ts: computeEpochRewards.
use coc.Prelude.{ℕ, [], ◌∷◌, List, Text, Dict, insert, text_eq}
use coc.Scoring.{
  EpochNodeStats, ScoringConfig, EpochRewardResult, Buckets, split_buckets, allocate_bucket,
  uptime_weight, storage_weight, relay_weight,
}
use coc.Scoring.SoftCap.{apply_soft_cap}

-- Every node of the epoch with a reward of zero.
unfoldable pub start_rewards : List EpochNodeStats → Dict Text ℕ → Dict Text ℕ
start_rewards [] rewards = rewards
start_rewards (stat ∷ stats) rewards = start_rewards stats (insert stat.node_id 0 rewards)

-- The rewards before the soft cap.
unfoldable pub allocated : Buckets → List EpochNodeStats → ScoringConfig → Dict Text ℕ
allocated buckets stats cfg =
    let started = start_rewards stats [] in
    let by_uptime = allocate_bucket started stats buckets.uptime (uptime_weight cfg) in
    let by_storage = allocate_bucket by_uptime stats buckets.storage (storage_weight cfg) in
    allocate_bucket by_storage stats buckets.relay (relay_weight cfg)

unfoldable pub compute_epoch_rewards : ℕ → List EpochNodeStats → ScoringConfig → EpochRewardResult
compute_epoch_rewards reward_pool stats cfg =
    let buckets = split_buckets reward_pool cfg in
    let capped = apply_soft_cap (allocated buckets stats cfg) cfg.soft_cap_multiplier in
    record {
      rewards = capped.rewards;
      bucket_rewards = buckets;
      capped_nodes = capped.capped_nodes;
      treasury_overflow = capped.treasury_overflow;
    }
