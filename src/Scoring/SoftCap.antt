-- ===== src/Scoring/SoftCap.antt =====
-- services/verifier/scoring.ts: applySoftCap.
pub mod Totals
use coc.Prelude.{
  ◌≡◌, ℕ, zero, suc, [], ◌∷◌, none, some, List, Option, arith, ◌≤◌, ◌<◌, ◌+◌, ◌-◌, ◌*◌, ◌/◌, ◌==◌,
  ltb, leb, if◌then◌else◌, Bool-cases, inl, inr, refl, Text, Dict, nat_beq, nat_eq, length, item_at,
  or_else, Bool, ◌&&◌, min, All, ltb→lt,
}

unfoldable pub insert_value : ℕ → List ℕ → List ℕ
insert_value v [] = v ∷ []
insert_value v (w ∷ values) =
    let rest = insert_value v values in if ltb v w then v ∷ w ∷ values else w ∷ rest

-- `nonZero.map(([, v]) => v).sort(...)`, ascending
unfoldable pub sorted_values : Dict Text ℕ → List ℕ
sorted_values [] = []
sorted_values ((id, v) ∷ rewards) =
    let rest = sorted_values rewards in if ltb 0 v then insert_value v rest else rest

-- The loop that caps: the rewards, the nodes and the overflow.
pub record Capped : Type 0 where
  pub rewards : Dict Text ℕ
  pub nodes : List Text
  pub overflow : ℕ

pub cap_rewards : ℕ → Dict Text ℕ → Capped
cap_rewards cap_value [] = record { rewards = []; nodes = []; overflow = 0 }
cap_rewards cap_value ((id, v) ∷ rewards) =
    let rest = cap_rewards cap_value rewards in
    if ltb cap_value v
    then record {
      rewards = (id, cap_value) ∷ rest.rewards;
      nodes = id ∷ rest.nodes;
      overflow = v - cap_value + rest.overflow;
    }
    else record { rewards = (id, v) ∷ rest.rewards; nodes = rest.nodes; overflow = rest.overflow }

pub is_receiver : ℕ → ℕ → Bool
is_receiver cap_value v = ltb 0 v && ltb v cap_value

pub receiver_weight : ℕ → Dict Text ℕ → ℕ
receiver_weight cap_value [] = 0
receiver_weight cap_value ((id, v) ∷ rewards) =
    let rest = receiver_weight cap_value rewards in
    if is_receiver cap_value v then v + rest else rest

-- The grant to a receiver: its share of the overflow within its room.
pub grant : ℕ → ℕ → ℕ → ℕ → ℕ
grant cap_value overflow total v = min (overflow * v / total) (cap_value - v)

-- The loop over the receivers: the rewards and what is redistributed.
pub redistribute : ℕ → ℕ → ℕ → Dict Text ℕ → Dict Text ℕ × ℕ
redistribute cap_value overflow total [] = ([], 0)
redistribute cap_value overflow total ((id, v) ∷ rewards) =
    let rest = redistribute cap_value overflow total rewards in
    let granted = grant cap_value overflow total v in
    if is_receiver cap_value v
    then ((id, v + granted) ∷ rest.0, granted + rest.1)
    else ((id, v) ∷ rest.0, rest.1)

pub record SoftCapped : Type 0 where
  pub rewards : Dict Text ℕ
  pub capped_nodes : List Text
  pub treasury_overflow : ℕ

uncapped : Dict Text ℕ → SoftCapped
uncapped rewards = record { rewards = rewards; capped_nodes = []; treasury_overflow = 0 }

-- The part after the capping loop.
pub spread : ℕ → Capped → SoftCapped
spread cap_value capped =
    let total = receiver_weight cap_value capped.rewards in
    let spread_rewards = redistribute cap_value capped.overflow total capped.rewards in
    if capped.overflow == 0
    then record { rewards = capped.rewards; capped_nodes = capped.nodes; treasury_overflow = 0 }
    else if total == 0
    then record {
      rewards = capped.rewards;
      capped_nodes = capped.nodes;
      treasury_overflow = capped.overflow;
    }
    else record {
      rewards = spread_rewards.0;
      capped_nodes = capped.nodes;
      treasury_overflow = capped.overflow - spread_rewards.1;
    }

unfoldable pub median : Dict Text ℕ → ℕ
median rewards =
    let values_sorted = sorted_values rewards in
    or_else (item_at (length values_sorted / 2) values_sorted) 0

pub apply_soft_cap : Dict Text ℕ → ℕ → SoftCapped
apply_soft_cap rewards soft_cap_multiplier =
    let cap_value = median rewards * soft_cap_multiplier in
    if soft_cap_multiplier == 0
    then uncapped rewards
    else if median rewards == 0
    then uncapped rewards
    else spread cap_value (cap_rewards cap_value rewards)
