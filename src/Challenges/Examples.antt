-- ===== src/Challenges/Examples.antt =====
-- The theorems on quotas and payments at concrete counters and batches.
use coc.Prelude.{◌≡◌, [], ◌∷◌, List, arith, ◌<◌, ◌*◌, ◌/◌, text}
use coc.Challenges.Quota.{
  QuotaKey, QuotaConfig, Counters, uptime, storage, issue, IsBounded, issue-IsBounded, quota_key_eq,
}
use coc.Challenges.Payment.{
  SubmittedBatch, allocate_challenger_rewards, allocate_challenger_rewards-total, total_challenges,
}
use coc.Scoring.Allocation.{total_rewards}

abbrev key_of_node : QuotaKey
key_of_node = record { node_id = text "0xa1"; epoch_id = 4; challenge_type = uptime }

abbrev old_key : QuotaKey
old_key = record { node_id = text "0xa1"; epoch_id = 3; challenge_type = storage }

abbrev two_a_minute : QuotaConfig
two_a_minute = record { max_per_epoch = λ t. 2; min_interval_ms = λ t. 60_000 }

abbrev two_counters : Counters
two_counters =
    (old_key, record { count = 2; last_issued_at_ms = 500 })
    ∷ (key_of_node, record { count = 1; last_issued_at_ms = 1000 })
    ∷ []

two_counters-IsBounded : IsBounded two_a_minute two_counters
unfolding IsBounded
two_counters-IsBounded = (omega arith, (omega arith, tt))

issue-IsBounded_example :
    IsBounded two_a_minute (issue two_a_minute key_of_node 70_000 two_counters)
issue-IsBounded_example =
    issue-IsBounded two_a_minute key_of_node 70_000 two_counters (omega arith)
      two_counters-IsBounded

abbrev two_batches : List SubmittedBatch
two_batches =
    record { challenger = text "0xc1"; challenge_count = 2; valid_receipt_count = 2 }
    ∷ record { challenger = text "0xc2"; challenge_count = 5; valid_receipt_count = 4 }
    ∷ []

some_challenges : 0 < total_challenges two_batches
unfolding total_challenges
some_challenges = omega arith

allocate_challenger_rewards-total_example :
    total_rewards (allocate_challenger_rewards two_batches 100_000 500) ≡ 100_000 * 500 / 10_000
allocate_challenger_rewards-total_example =
    allocate_challenger_rewards-total two_batches 100_000 500 some_challenges
