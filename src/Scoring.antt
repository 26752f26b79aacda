-- ===== src/Scoring.antt =====
-- services/verifier/scoring.ts: the rewards of an epoch. Amounts are natural numbers.
pub mod Isqrt
pub mod Allocation
pub mod SoftCap
pub mod Epoch
pub mod Conservation
pub mod Examples
use coc.Prelude.{
  ℕ, zero, suc, ◌∷◌, [], none, some, List, Option, if◌then◌else◌, ◌/◌, ◌+◌, ◌==◌, ◌%◌, ltb, leb,
  nat_eq, ◌-◌, ◌*◌, ◌&&◌, Text, text_eq, Dict, get, insert, or_else, min, max, length, foldl, map,
  keep, item_at, values, Bool, false, true,
}

pub record EpochNodeStats : Type 0 where
  pub node_id : Text
  pub uptime_bps : ℕ
  pub storage_bps : ℕ
  pub relay_bps : ℕ
  pub storage_gb : ℕ
  pub uptime_samples : Option ℕ
  pub storage_samples : Option ℕ
  pub relay_samples : Option ℕ

pub record ScoringConfig : Type 0 where
  pub uptime_bucket_bps : ℕ
  pub storage_bucket_bps : ℕ
  pub relay_bucket_bps : ℕ
  pub uptime_threshold_bps : ℕ
  pub storage_threshold_bps : ℕ
  pub relay_threshold_bps : ℕ
  pub storage_cap_gb : ℕ
  pub soft_cap_multiplier : ℕ
  pub min_samples : ℕ

pub record Buckets : Type 0 where
  pub uptime : ℕ
  pub storage : ℕ
  pub relay : ℕ

pub record EpochRewardResult : Type 0 where
  pub rewards : Dict Text ℕ
  pub bucket_rewards : Buckets
  pub capped_nodes : List Text
  pub treasury_overflow : ℕ

abbrev pub default_scoring_config : ScoringConfig
default_scoring_config = record {
  uptime_bucket_bps = 6000;
  storage_bucket_bps = 3000;
  relay_bucket_bps = 1000;
  uptime_threshold_bps = 8000;
  storage_threshold_bps = 7000;
  relay_threshold_bps = 5000;
  storage_cap_gb = 500;
  soft_cap_multiplier = 5;
  min_samples = 5;
}

-- The difference of bigints is not negative where the first two shares are at most 10,000 basis points together.
unfoldable pub split_buckets : ℕ → ScoringConfig → Buckets
split_buckets pool cfg =
    let uptime = pool * cfg.uptime_bucket_bps / 10_000 in
    let storage = pool * cfg.storage_bucket_bps / 10_000 in
    record { uptime = uptime; storage = storage; relay = pool - uptime - storage }

-- The loop of isqrt from x0 on, on fuel.
pub newton : ℕ → ℕ → ℕ → ℕ
newton zero n x0 = x0
newton (suc fuel) n x0 =
    let x1 = (x0 + n / x0) / 2 in let rest = newton fuel n x1 in if ltb x1 x0 then rest else x0

pub isqrt : ℕ → ℕ
isqrt n = if ltb n 2 then n else newton n n n

-- `(samples ?? Infinity) < min_samples`
pub too_few : Option ℕ → ℕ → Bool
too_few none min_samples = false
too_few (some samples) min_samples = ltb samples min_samples

pub uptime_weight : ScoringConfig → EpochNodeStats → ℕ
uptime_weight cfg stat =
    if too_few stat.uptime_samples cfg.min_samples
    then 0
    else if ltb stat.uptime_bps cfg.uptime_threshold_bps
    then 0
    else stat.uptime_bps

pub storage_weight : ScoringConfig → EpochNodeStats → ℕ
storage_weight cfg stat =
    let capped_gb =
      if ltb cfg.storage_cap_gb stat.storage_gb then cfg.storage_cap_gb else stat.storage_gb in
    let cap_factor = isqrt (cfg.storage_cap_gb * 1_000_000) in
    let node_factor = isqrt (capped_gb * 1_000_000) in
    if too_few stat.storage_samples cfg.min_samples
    then 0
    else if ltb stat.storage_bps cfg.storage_threshold_bps
    then 0
    else if cap_factor == 0
    then 0
    else stat.storage_bps * node_factor / cap_factor

pub relay_weight : ScoringConfig → EpochNodeStats → ℕ
relay_weight cfg stat =
    if too_few stat.relay_samples cfg.min_samples
    then 0
    else if ltb stat.relay_bps cfg.relay_threshold_bps
    then 0
    else stat.relay_bps

-- `rewards.set(id, (rewards.get(id) ?? 0n) + amount)`
pub credit : Text → ℕ → Dict Text ℕ → Dict Text ℕ
credit id amount rewards = insert id (or_else (get id rewards) 0 + amount) rewards

pub total_weight : (EpochNodeStats → ℕ) → List EpochNodeStats → ℕ
total_weight weight_of [] = 0
total_weight weight_of (stat ∷ stats) = weight_of stat + total_weight weight_of stats

-- The loop over the shares: the rewards and what is distributed.
pub distribute :
    ℕ → ℕ → (EpochNodeStats → ℕ) → List EpochNodeStats → Dict Text ℕ × ℕ → Dict Text ℕ × ℕ
distribute amount total weight_of [] (rewards, distributed) = (rewards, distributed)
distribute amount total weight_of (stat ∷ stats) (rewards, distributed) =
    let w = weight_of stat in
    let share = amount * w / total in
    let next =
      if w == 0
      then (rewards, distributed)
      else if share == 0
      then (rewards, distributed)
      else (credit stat.node_id share rewards, distributed + share) in
    distribute amount total weight_of stats next

-- The node of the highest weight above the one found so far, the first of these.
pub best_node :
    (EpochNodeStats → ℕ) → List EpochNodeStats → Option EpochNodeStats × ℕ → Option EpochNodeStats
best_node weight_of [] (best, best_weight) = best
best_node weight_of (stat ∷ stats) (best, best_weight) =
    let next =
      if ltb best_weight (weight_of stat)
      then (some stat, weight_of stat)
      else (best, best_weight) in
    best_node weight_of stats next

pub give_remainder : ℕ → (EpochNodeStats → ℕ) → List EpochNodeStats → Dict Text ℕ × ℕ → Dict Text ℕ
give_remainder amount weight_of stats (rewards, distributed) =
    let remainder = amount - distributed in
    if ltb 0 remainder
    then elim (best_node weight_of stats (none, 0)) [
      | none ↦ rewards
      | some stat ↦ credit stat.node_id remainder rewards
    ]
    else rewards

pub allocate_bucket : Dict Text ℕ → List EpochNodeStats → ℕ → (EpochNodeStats → ℕ) → Dict Text ℕ
allocate_bucket rewards stats amount weight_of =
    let total = total_weight weight_of stats in
    let shared = distribute amount total weight_of stats (rewards, 0) in
    if amount == 0
    then rewards
    else if total == 0
    then rewards
    else give_remainder amount weight_of stats shared
