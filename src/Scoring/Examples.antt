-- ===== src/Scoring/Examples.antt =====
-- The theorems on the rewards of an epoch at two nodes.
use coc.Prelude.{◌≡◌, ℕ, [], ◌∷◌, none, List, arith, ◌+◌, ◌*◌, Text, text, Dict, All, refl, item_at}
use coc.Scoring.{EpochNodeStats, default_scoring_config, isqrt}
use coc.Scoring.Isqrt.{IsRoot, isqrt-IsRoot}
use coc.Scoring.Allocation.{total_rewards}
use coc.Scoring.SoftCap.{median, apply_soft_cap, sorted_values, insert_value}
use coc.Scoring.SoftCap.Totals.{IsWithin, apply_soft_cap-IsWithin}
use coc.Scoring.Epoch.{compute_epoch_rewards}
use coc.Scoring.Conservation.{handed_out, compute_epoch_rewards-total}

isqrt-IsRoot_example : IsRoot 30 (isqrt 30)
isqrt-IsRoot_example = isqrt-IsRoot 30

abbrev first_stat : EpochNodeStats
first_stat = record {
  node_id = text "0xa1";
  uptime_bps = 9500;
  storage_bps = 0;
  relay_bps = 0;
  storage_gb = 0;
  uptime_samples = none;
  storage_samples = none;
  relay_samples = none;
}

abbrev second_stat : EpochNodeStats
second_stat = record {
  node_id = text "0xb2";
  uptime_bps = 8100;
  storage_bps = 0;
  relay_bps = 6000;
  storage_gb = 0;
  uptime_samples = none;
  storage_samples = none;
  relay_samples = none;
}

abbrev two_stats : List EpochNodeStats
two_stats = first_stat ∷ second_stat ∷ []

compute_epoch_rewards-total_example :
    total_rewards (compute_epoch_rewards 1000 two_stats default_scoring_config).rewards
      + (compute_epoch_rewards 1000 two_stats default_scoring_config).treasury_overflow
    ≡ handed_out 1000 two_stats default_scoring_config
compute_epoch_rewards-total_example =
    compute_epoch_rewards-total 1000 two_stats default_scoring_config

abbrev three_rewards : Dict Text ℕ
three_rewards = (text "0xa1", 100) ∷ (text "0xb2", 10) ∷ (text "0xc3", 4) ∷ []

three_rewards-median : median three_rewards ≡ 10
unfolding median sorted_values insert_value item_at
three_rewards-median = refl

apply_soft_cap-IsWithin_example :
    All (IsWithin (median three_rewards * 5)) (apply_soft_cap three_rewards 5).rewards
apply_soft_cap-IsWithin_example =
    apply_soft_cap-IsWithin three_rewards 5 (omega arith) (omega (arith, three_rewards-median))
