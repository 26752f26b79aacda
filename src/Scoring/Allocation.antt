-- ===== src/Scoring/Allocation.antt =====
-- services/verifier/scoring.ts: allocateBucket hands out exactly its bucket.
use coc.Prelude.{
  cancel_right, ◌≡◌, ℕ, [], ◌∷◌, none, some, List, arith, ◌≤◌, ◌<◌, ◌+◌, ◌-◌, ◌*◌, ◌/◌, ◌==◌,
  nat_eq, ltb, if◌then◌else◌, Bool-cases, inl, inr, refl, Text, Dict, insert, get, text_eq, or_else,
  nat_beq, text_beq,
}
use coc.Scoring.{
  EpochNodeStats, credit, total_weight, distribute, best_node, give_remainder, allocate_bucket,
}

unfoldable pub total_rewards : Dict Text ℕ → ℕ
total_rewards [] = 0
total_rewards ((id, amount) ∷ rewards) = amount + total_rewards rewards

pub total_rewards-insert :
    (id : Text) (amount : ℕ) (rewards : Dict Text ℕ)
    → total_rewards (insert id amount rewards) + or_else (get id rewards) 0
      ≡ total_rewards rewards + amount
unfolding total_rewards insert get
total_rewards-insert id amount [] = omega arith
total_rewards-insert id amount ((k, v) ∷ rewards) =
    let rest = total_rewards-insert id amount rewards in
    elim (Bool-cases (text_beq k id)) [
      | inl same ↦ rw same (omega arith)
      | inr other ↦ rw other (omega (arith, rest))
    ]

total_rewards-credit :
    (id : Text) (amount : ℕ) (rewards : Dict Text ℕ)
    → total_rewards (credit id amount rewards) ≡ total_rewards rewards + amount
unfolding credit
total_rewards-credit id amount rewards =
    omega (arith, total_rewards-insert id (or_else (get id rewards) 0 + amount) rewards)

share_le : (amount w total d : ℕ) → d * total + amount * w / total * total ≤ d * total + amount * w
share_le amount w total d = omega arith

-- The loop adds to the rewards what it counts as distributed.
distribute-total :
    (amount total : ℕ) (weight_of : EpochNodeStats → ℕ) (stats : List EpochNodeStats)
    (rewards : Dict Text ℕ) (distributed : ℕ)
    → total_rewards (distribute amount total weight_of stats (rewards, distributed)).0 + distributed
      ≡ total_rewards rewards + (distribute amount total weight_of stats (rewards, distributed)).1
unfolding distribute
distribute-total amount total weight_of [] rewards distributed = refl
distribute-total amount total weight_of (stat ∷ stats) rewards distributed =
    let share = amount * weight_of stat / total in
    let skipped = distribute-total amount total weight_of stats rewards distributed in
    let more =
      distribute-total amount total weight_of stats (credit stat.node_id share rewards)
        (distributed + share) in
    elim (Bool-cases (nat_beq (weight_of stat) 0)) [
      | inl none_due ↦ rw (distribute, none_due) skipped
      | inr due ↦ elim (Bool-cases (nat_beq share 0)) [
        | inl none_due ↦ rw (distribute, due, none_due) skipped
        | inr some_due ↦
            rw (distribute, due, some_due)
              (omega (arith, more, total_rewards-credit stat.node_id share rewards))
      ]
    ]

-- What is distributed is within the weights' part of the bucket.
distribute-le :
    (amount total : ℕ) (weight_of : EpochNodeStats → ℕ) (stats : List EpochNodeStats)
    (rewards : Dict Text ℕ) (distributed : ℕ)
    → (distribute amount total weight_of stats (rewards, distributed)).1 * total
      ≤ distributed * total + amount * total_weight weight_of stats
unfolding distribute total_weight
distribute-le amount total weight_of [] rewards distributed = omega arith
distribute-le amount total weight_of (stat ∷ stats) rewards distributed =
    let share = amount * weight_of stat / total in
    let skipped = distribute-le amount total weight_of stats rewards distributed in
    let more =
      distribute-le amount total weight_of stats (credit stat.node_id share rewards)
        (distributed + share) in
    let within = share_le amount (weight_of stat) total distributed in
    elim (Bool-cases (nat_beq (weight_of stat) 0)) [
      | inl none_due ↦ rw (distribute, none_due) (omega (arith, skipped))
      | inr due ↦ elim (Bool-cases (nat_beq share 0)) [
        | inl none_due ↦ rw (distribute, due, none_due) (omega (arith, skipped))
        | inr some_due ↦ rw (distribute, due, some_due) (omega (arith, more, within))
      ]
    ]

best_node-found :
    (weight_of : EpochNodeStats → ℕ) (stats : List EpochNodeStats) (best : EpochNodeStats) (w : ℕ)
    → (stat : EpochNodeStats) × (best_node weight_of stats (some best, w) ≡ some stat)
unfolding best_node
best_node-found weight_of [] best w = (best, refl)
best_node-found weight_of (stat ∷ stats) best w = elim (Bool-cases (ltb w (weight_of stat))) [
  | inl better ↦ rw better (best_node-found weight_of stats stat (weight_of stat))
  | inr worse ↦ rw worse (best_node-found weight_of stats best w)
]

-- With some weight there is a node of the highest weight.
best_node-some :
    (weight_of : EpochNodeStats → ℕ) (stats : List EpochNodeStats)
    → 0 < total_weight weight_of stats
    → (stat : EpochNodeStats) × (best_node weight_of stats (none, 0) ≡ some stat)
unfolding best_node total_weight
best_node-some weight_of [] h = absurd (omega arith)
best_node-some weight_of (stat ∷ stats) h = elim (Bool-cases (ltb 0 (weight_of stat))) [
  | inl better ↦ rw better (best_node-found weight_of stats stat (weight_of stat))
  | inr worse ↦ rw worse (best_node-some weight_of stats (ground arith))
]

give_remainder-total :
    (amount : ℕ) (weight_of : EpochNodeStats → ℕ) (stats : List EpochNodeStats)
    (rewards : Dict Text ℕ) (distributed : ℕ)
    → 0 < total_weight weight_of stats
    → distributed ≤ amount
    → total_rewards (give_remainder amount weight_of stats (rewards, distributed)) + distributed
      ≡ total_rewards rewards + amount
unfolding give_remainder
give_remainder-total amount weight_of stats rewards distributed h k =
    let (stat, found) = best_node-some weight_of stats h in
    elim (Bool-cases (ltb 0 (amount - distributed))) [
      | inl left ↦
          rw (left, found)
            (omega (arith, total_rewards-credit stat.node_id (amount - distributed) rewards))
      | inr none_left ↦ rw none_left (ground arith)
    ]

-- What a bucket hands out: nothing where no node has weight in it, all of it otherwise.
unfoldable pub allotted : ℕ → ℕ → ℕ
allotted amount total = if total == 0 then 0 else amount

-- The rewards grow by exactly the bucket, or not at all where no node has weight in it.
pub allocate_bucket-total :
    (rewards : Dict Text ℕ) (stats : List EpochNodeStats) (amount : ℕ)
    (weight_of : EpochNodeStats → ℕ)
    → total_rewards (allocate_bucket rewards stats amount weight_of)
      ≡ total_rewards rewards + allotted amount (total_weight weight_of stats)
unfolding allocate_bucket allotted
allocate_bucket-total rewards stats amount weight_of =
    let total = total_weight weight_of stats in
    elim (Bool-cases (nat_beq amount 0)) [
      | inl empty ↦ rw empty (ground arith)
      | inr filled ↦ elim (Bool-cases (nat_beq total 0)) [
        | inl unweighted ↦ rw (filled, unweighted) (omega arith)
        | inr weighted ↦
            let shared = distribute amount total weight_of stats (rewards, 0) in
            let positive : 0 < total = ground arith in
            let sum = distribute-total amount total weight_of stats rewards 0 in
            let bound = distribute-le amount total weight_of stats rewards 0 in
            let within = cancel_right shared.1 amount total positive (omega (arith, bound)) in
            let given =
              give_remainder-total amount weight_of stats shared.0 shared.1 positive within in
            rw (filled, weighted) (omega (arith, sum, given))
      ]
    ]
