-- ===== src/Bft/Quorum.antt =====
-- node/src/bft.ts: quorumThreshold, accumulatedStake and hasQuorum.
pub mod Stake
pub mod Intersection
use coc.Prelude.{
  ℕ, ◌+◌, ◌*◌, ◌/◌, Text, to_lower_case, text_eq, nat_eq, Bool, List, [], foldl, Dict, get, insert,
  or_else, leb, ◌==◌, if◌then◌else◌,
}

pub record Validator : Type 0 where
  pub id : Text
  pub stake : ℕ

-- BigInt(Number.MAX_SAFE_INTEGER)
abbrev pub max_safe_integer : ℕ
max_safe_integer = 9_007_199_254_740_991

abbrev pub add_stake : ℕ → Validator → ℕ
add_stake sum v = sum + v.stake

unfoldable pub total_stake : List Validator → ℕ
total_stake = foldl add_stake 0

unfoldable pub quorum_threshold : List Validator → ℕ
quorum_threshold validators =
    let total = total_stake validators in if total == 0 then max_safe_integer else total * 2 / 3 + 1

abbrev pub put_stake : Dict Text ℕ → Validator → Dict Text ℕ
put_stake m v = insert (to_lower_case v.id) v.stake m

-- `new Map(validators.map(...))`: of two ids that agree in lower case the later one counts.
unfoldable pub stake_map : List Validator → Dict Text ℕ
stake_map = foldl put_stake []

abbrev pub add_voter : Dict Text ℕ → ℕ → Text → ℕ
add_voter m sum id = sum + or_else (get (to_lower_case id) m) 0

unfoldable pub accumulated_stake : List Text → List Validator → ℕ
accumulated_stake voter_ids validators = foldl (add_voter (stake_map validators)) 0 voter_ids

unfoldable pub has_quorum : List Text → List Validator → Bool
has_quorum voter_ids validators =
    leb (quorum_threshold validators) (accumulated_stake voter_ids validators)
