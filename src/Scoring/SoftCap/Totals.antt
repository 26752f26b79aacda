-- ===== src/Scoring/SoftCap/Totals.antt =====
-- services/verifier/scoring.ts: the sum that applySoftCap keeps, and its bound.
use coc.Prelude.{
  ◌≡◌, ℕ, [], ◌∷◌, arith, ◌≤◌, ◌<◌, ◌+◌, ◌-◌, ◌*◌, ◌/◌, ltb, Bool-cases, inl, inr, refl, Text, Dict,
  nat_beq, nat_eq, min, All, mul_mono, cancel_right, quotient_le, ltb→lt, ◌∙◌, false,
}
use coc.Scoring.Allocation.{total_rewards}
use coc.Scoring.SoftCap.{
  Capped, cap_rewards, is_receiver, receiver_weight, grant, redistribute, uncapped, spread, median,
  apply_soft_cap,
}

-- Capping moves the excess of the rewards into the overflow.
cap_rewards-total :
    (cap_value : ℕ) (rewards : Dict Text ℕ)
    → total_rewards (cap_rewards cap_value rewards).rewards
        + (cap_rewards cap_value rewards).overflow
      ≡ total_rewards rewards
unfolding cap_rewards total_rewards
cap_rewards-total cap_value [] = refl
cap_rewards-total cap_value ((id, v) ∷ rewards) =
    let rest = cap_rewards-total cap_value rewards in
    elim (Bool-cases (ltb cap_value v)) [
      | inl over ↦ let more = ltb→lt cap_value v over in rw over (omega (arith, rest, more))
      | inr within ↦ rw within (omega (arith, rest))
    ]

redistribute-total :
    (cap_value overflow total : ℕ) (rewards : Dict Text ℕ)
    → total_rewards (redistribute cap_value overflow total rewards).0
      ≡ total_rewards rewards + (redistribute cap_value overflow total rewards).1
unfolding redistribute total_rewards
redistribute-total cap_value overflow total [] = refl
redistribute-total cap_value overflow total ((id, v) ∷ rewards) =
    let rest = redistribute-total cap_value overflow total rewards in
    elim (Bool-cases (is_receiver cap_value v)) [
      | inl receives ↦ rw receives (omega (arith, rest))
      | inr passed_over ↦ rw passed_over (omega (arith, rest))
    ]

grant_le :
    (cap_value overflow total v : ℕ) → grant cap_value overflow total v * total ≤ overflow * v
unfolding grant
grant_le cap_value overflow total v =
    let q = overflow * v / total in
    let less = mul_mono (min q (cap_value - v)) q total total (omega arith) (omega arith) in
    omega (arith, less, quotient_le (overflow * v) total)

redistribute-le :
    (cap_value overflow total : ℕ) (rewards : Dict Text ℕ)
    → (redistribute cap_value overflow total rewards).1 * total
      ≤ overflow * receiver_weight cap_value rewards
unfolding redistribute receiver_weight
redistribute-le cap_value overflow total [] = omega arith
redistribute-le cap_value overflow total ((id, v) ∷ rewards) =
    let rest = redistribute-le cap_value overflow total rewards in
    elim (Bool-cases (is_receiver cap_value v)) [
      | inl receives ↦ rw receives (omega (arith, rest, grant_le cap_value overflow total v))
      | inr passed_over ↦ rw passed_over rest
    ]

spread-total :
    (cap_value : ℕ) (capped : Capped)
    → total_rewards (spread cap_value capped).rewards + (spread cap_value capped).treasury_overflow
      ≡ total_rewards capped.rewards + capped.overflow
unfolding spread
spread-total cap_value capped =
    let total = receiver_weight cap_value capped.rewards in
    let spread_rewards = redistribute cap_value capped.overflow total capped.rewards in
    elim (Bool-cases (nat_beq capped.overflow 0)) [
      | inl none_left ↦ rw none_left (ground arith)
      | inr left ↦ elim (Bool-cases (nat_beq total 0)) [
        | inl nobody ↦ rw (left, nobody) refl
        | inr somebody ↦
            let sum = redistribute-total cap_value capped.overflow total capped.rewards in
            let bound = redistribute-le cap_value capped.overflow total capped.rewards in
            let positive : 0 < total = ground arith in
            let within = cancel_right spread_rewards.1 capped.overflow total positive bound in
            rw (left, somebody) (omega (arith, sum, within))
      ]
    ]

-- The soft cap keeps the sum of the rewards and what goes to the treasury.
pub apply_soft_cap-total :
    (rewards : Dict Text ℕ) (soft_cap_multiplier : ℕ)
    → total_rewards (apply_soft_cap rewards soft_cap_multiplier).rewards
        + (apply_soft_cap rewards soft_cap_multiplier).treasury_overflow
      ≡ total_rewards rewards
unfolding apply_soft_cap uncapped
apply_soft_cap-total rewards soft_cap_multiplier =
    let cap_value = median rewards * soft_cap_multiplier in
    elim (Bool-cases (nat_beq soft_cap_multiplier 0)) [
      | inl off ↦ rw off (omega arith)
      | inr on ↦ elim (Bool-cases (nat_beq (median rewards) 0)) [
        | inl none_rewarded ↦ rw (on, none_rewarded) (omega arith)
        | inr rewarded ↦
            rw (on, rewarded)
              (spread-total cap_value (cap_rewards cap_value rewards)
                ∙ cap_rewards-total cap_value rewards)
      ]
    ]

-- A reward within the cap.
pub IsWithin : ℕ → Text × ℕ → Type 0
IsWithin cap_value entry = entry.1 ≤ cap_value

cap_rewards-IsWithin :
    (cap_value : ℕ) (rewards : Dict Text ℕ)
    → All (IsWithin cap_value) (cap_rewards cap_value rewards).rewards
unfolding cap_rewards IsWithin
cap_rewards-IsWithin cap_value [] = tt
cap_rewards-IsWithin cap_value ((id, v) ∷ rewards) =
    let rest = cap_rewards-IsWithin cap_value rewards in
    elim (Bool-cases (ltb cap_value v)) [
      | inl over ↦ rw over (omega arith, rest)
      | inr within ↦ rw within (ground arith, rest)
    ]

redistribute-IsWithin :
    (cap_value overflow total : ℕ) (rewards : Dict Text ℕ)
    → All (IsWithin cap_value) rewards
    → All (IsWithin cap_value) (redistribute cap_value overflow total rewards).0
unfolding redistribute IsWithin grant
redistribute-IsWithin cap_value overflow total [] h = tt
redistribute-IsWithin cap_value overflow total ((id, v) ∷ rewards) h =
    let rest = redistribute-IsWithin cap_value overflow total rewards h.1 in
    elim (Bool-cases (is_receiver cap_value v)) [
      | inl receives ↦ rw receives (omega (arith, h.0), rest)
      | inr passed_over ↦ rw passed_over (h.0, rest)
    ]

-- Where the cap applies, no reward is above the median of the positive rewards times the multiplier.
pub apply_soft_cap-IsWithin :
    (rewards : Dict Text ℕ) (soft_cap_multiplier : ℕ)
    → 0 < soft_cap_multiplier
    → 0 < median rewards
    → All
        (IsWithin (median rewards * soft_cap_multiplier))
        (apply_soft_cap rewards soft_cap_multiplier).rewards
unfolding apply_soft_cap spread
apply_soft_cap-IsWithin rewards soft_cap_multiplier h k =
    let cap_value = median rewards * soft_cap_multiplier in
    let capped = cap_rewards cap_value rewards in
    let total = receiver_weight cap_value capped.rewards in
    let kept = cap_rewards-IsWithin cap_value rewards in
    let on : nat_beq soft_cap_multiplier 0 ≡ false = ground arith in
    let rewarded : nat_beq (median rewards) 0 ≡ false = ground arith in
    elim (Bool-cases (nat_beq capped.overflow 0)) [
      | inl none_left ↦ rw (on, rewarded, none_left) kept
      | inr left ↦ elim (Bool-cases (nat_beq total 0)) [
        | inl nobody ↦ rw (on, rewarded, left, nobody) kept
        | inr somebody ↦
            rw (on, rewarded, left, somebody)
              (redistribute-IsWithin cap_value capped.overflow total capped.rewards kept)
      ]
    ]
