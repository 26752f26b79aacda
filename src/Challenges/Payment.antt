-- ===== src/Challenges/Payment.antt =====
-- services/relayer/epoch-finalizer.ts: allocateChallengerRewards, and that it pays out exactly the challengers' pool.
use coc.Prelude.{
  ◌≡◌, ℕ, [], ◌∷◌, none, List, arith, ◌≤◌, ◌<◌, ◌+◌, ◌-◌, ◌*◌, ◌/◌, ◌==◌, nat_eq, ltb,
  if◌then◌else◌, Bool-cases, inl, inr, refl, Text, Dict, insert, get, text_eq, or_else, nat_beq,
  Distinct, keys, cancel_right, quotient_le, contains, insert-Distinct, All, ap, false, length, sym,
  ◌∙◌, get-insert,
}
use coc.Scoring.Allocation.{total_rewards, total_rewards-insert}

pub record SubmittedBatch : Type 0 where
  pub challenger : Text
  pub challenge_count : ℕ
  pub valid_receipt_count : ℕ

-- The counts by challenger, in the order of their first batches.
pub challenger_totals : List SubmittedBatch → Dict Text ℕ → Dict Text ℕ
challenger_totals [] totals = totals
challenger_totals (batch ∷ batches) totals =
    let current = or_else (get batch.challenger totals) 0 in
    challenger_totals batches (insert batch.challenger (current + batch.challenge_count) totals)

unfoldable pub total_challenges : List SubmittedBatch → ℕ
total_challenges [] = 0
total_challenges (batch ∷ batches) = batch.challenge_count + total_challenges batches

-- One step of the loop: a reward that is not zero is set.
pub pay : Text → ℕ → Dict Text ℕ → Dict Text ℕ
pay challenger reward rewards = if ltb 0 reward then insert challenger reward rewards else rewards

-- The loop over the challengers: the last one gets what is left.
pub pay_all : ℕ → ℕ → Dict Text ℕ → ℕ → Dict Text ℕ → Dict Text ℕ
pay_all pool total [] distributed rewards = rewards
pay_all pool total ((challenger, count) ∷ []) distributed rewards =
    pay challenger (pool - distributed) rewards
pay_all pool total ((challenger, count) ∷ next ∷ entries) distributed rewards =
    let reward = pool * count / total in
    pay_all pool total (next ∷ entries) (distributed + reward) (pay challenger reward rewards)

pub allocate_challenger_rewards : List SubmittedBatch → ℕ → ℕ → Dict Text ℕ
allocate_challenger_rewards batches reward_pool challenger_share_bps =
    let challenger_pool = reward_pool * challenger_share_bps / 10_000 in
    let total = total_challenges batches in
    if challenger_pool == 0
    then []
    else if total == 0
    then []
    else pay_all challenger_pool total (challenger_totals batches []) 0 []

-- No entry has a reward yet.
unfoldable pub Unpaid : Dict Text ℕ → Dict Text ℕ → Type 0
Unpaid entries rewards = All (λ e. get e.0 rewards ≡ none) entries

pay-total :
    (challenger : Text) (reward : ℕ) (rewards : Dict Text ℕ)
    → get challenger rewards ≡ none
    → total_rewards (pay challenger reward rewards) ≡ total_rewards rewards + reward
unfolding pay
pay-total challenger reward rewards h =
    let inserted : total_rewards (insert challenger reward rewards) + 0
        ≡ total_rewards rewards + reward =
      ap (λ o. total_rewards (insert challenger reward rewards) + or_else o 0) (sym h)
      ∙ total_rewards-insert challenger reward rewards in
    elim (Bool-cases (ltb 0 reward)) [
      | inl due ↦ rw due (omega (arith, inserted))
      | inr none_due ↦ rw none_due (ground arith)
    ]

pay-Unpaid :
    (challenger : Text) (reward : ℕ) (entries rewards : Dict Text ℕ)
    → contains challenger (keys entries) ≡ false
    → Unpaid entries rewards
    → Unpaid entries (pay challenger reward rewards)
unfolding pay contains Unpaid
pay-Unpaid challenger reward [] rewards h k = tt
pay-Unpaid challenger reward ((other, count) ∷ entries) rewards h k =
    let later : contains challenger (keys entries) ≡ false = ground arith in
    let rest = pay-Unpaid challenger reward entries rewards later k.1 in
    let first : get other (pay challenger reward rewards) ≡ none = ground (
      arith,
      k.0,
      text_eq.beq_iff challenger other,
      text_eq.beq_iff other challenger,
      get-insert challenger other reward rewards,
    ) in
    (first, rest)

pay_all-total :
    (pool total : ℕ) (entries : Dict Text ℕ) (distributed : ℕ) (rewards : Dict Text ℕ)
    → Distinct (keys entries)
    → Unpaid entries rewards
    → 0 < length entries
    → distributed * total + pool * total_rewards entries ≤ pool * total
    → 0 < total
    → total_rewards (pay_all pool total entries distributed rewards) + distributed
      ≡ total_rewards rewards + pool
unfolding pay_all Unpaid total_rewards
pay_all-total pool total [] distributed rewards d u l h k = absurd (omega arith)
pay_all-total pool total ((challenger, count) ∷ []) distributed rewards d u l h k =
    let within = cancel_right distributed pool total k (omega (arith, h)) in
    omega (arith, within, pay-total challenger (pool - distributed) rewards u.0)
pay_all-total pool total ((challenger, count) ∷ next ∷ entries) distributed rewards d u l h k =
    let reward = pool * count / total in
    let paid = pay-total challenger reward rewards u.0 in
    let unpaid = pay-Unpaid challenger reward (next ∷ entries) rewards d.0 u.1 in
    let bound = quotient_le (pool * count) total in
    let rest =
      pay_all-total pool total (next ∷ entries) (distributed + reward)
        (pay challenger reward rewards) d.1 unpaid (omega arith) (omega (arith, h, bound)) k in
    omega (arith, paid, rest)

challenger_totals-total :
    (batches : List SubmittedBatch) (totals : Dict Text ℕ)
    → total_rewards (challenger_totals batches totals)
      ≡ total_rewards totals + total_challenges batches
unfolding challenger_totals total_challenges
challenger_totals-total [] totals = omega arith
challenger_totals-total (batch ∷ batches) totals =
    let current = or_else (get batch.challenger totals) 0 in
    let next = insert batch.challenger (current + batch.challenge_count) totals in
    omega (
      arith,
      challenger_totals-total batches next,
      total_rewards-insert batch.challenger (current + batch.challenge_count) totals,
    )

challenger_totals-Distinct :
    (batches : List SubmittedBatch) (totals : Dict Text ℕ)
    → Distinct (keys totals)
    → Distinct (keys (challenger_totals batches totals))
unfolding challenger_totals
challenger_totals-Distinct [] totals h = h
challenger_totals-Distinct (batch ∷ batches) totals h =
    let current = or_else (get batch.challenger totals) 0 in
    challenger_totals-Distinct batches
      (insert batch.challenger (current + batch.challenge_count) totals)
      (insert-Distinct batch.challenger (current + batch.challenge_count) totals h)

Unpaid-nil : (entries : Dict Text ℕ) → Unpaid entries []
unfolding Unpaid get
Unpaid-nil [] = tt
Unpaid-nil (entry ∷ entries) = (refl, Unpaid-nil entries)

length-total_rewards : (entries : Dict Text ℕ) → 0 < total_rewards entries → 0 < length entries
unfolding total_rewards
length-total_rewards [] h = absurd (omega arith)
length-total_rewards (entry ∷ entries) h = omega arith

-- Where some challenge was issued, the challengers are paid exactly their share of the pool, to the last unit.
pub allocate_challenger_rewards-total :
    (batches : List SubmittedBatch) (reward_pool challenger_share_bps : ℕ)
    → 0 < total_challenges batches
    → total_rewards (allocate_challenger_rewards batches reward_pool challenger_share_bps)
      ≡ reward_pool * challenger_share_bps / 10_000
unfolding allocate_challenger_rewards total_rewards
allocate_challenger_rewards-total batches reward_pool challenger_share_bps h =
    let pool = reward_pool * challenger_share_bps / 10_000 in
    let total = total_challenges batches in
    let entries = challenger_totals batches [] in
    let sum = challenger_totals-total batches [] in
    let same : total_rewards entries ≡ total = omega (arith, sum) in
    let some_issued : nat_beq total 0 ≡ false = ground arith in
    elim (Bool-cases (nat_beq pool 0)) [
      | inl empty ↦ rw empty (ground arith)
      | inr filled ↦
          let paid =
            pay_all-total pool total entries 0 [] (challenger_totals-Distinct batches [] tt)
              (Unpaid-nil entries) (length-total_rewards entries (omega (arith, same)))
              (rw same (omega arith)) h in
          rw (filled, some_issued) (omega (arith, paid))
    ]
