-- ===== src/Governance/Slashing.antt =====
-- node/src/bft-slashing.ts: the penalty for a double vote. The evidence comes from the detector of
-- node/src/bft.ts, and the penalty is applied to the validator set of validator-governance.ts.
pub mod Penalty
use coc.Prelude.{
  ℕ, ◌+◌, ◌-◌, ◌*◌, ◌/◌, Text, text_eq, nat_eq, Bool, true, false, ◌&&◌, List, [], ◌∷◌, ◌++◌, foldl,
  keep, length, drop, get, or_else, ltb, leb, ◌==◌, if◌then◌else◌, Option, none, some,
}
use coc.Bft.Equivocation.{EquivocationEvidence, VotePhase}
use coc.Governance.State.{
  Governance, ValidatorInfo, Result, ok, err, apply_slash, deposit_treasury, deactivate_validator,
}

pub record SlashEvent : Type 0 where
  pub validator_id : Text
  pub height : ℕ
  pub phase : VotePhase
  pub slashed_amount : ℕ
  pub remaining_stake : ℕ
  pub removed : Bool
  pub evidence : EquivocationEvidence
  pub timestamp : ℕ

pub record BftSlashingConfig : Type 0 where
  pub slash_percent : ℕ
  pub min_stake_threshold : Option ℕ
  pub auto_remove : Bool

abbrev pub default_slashing_config : BftSlashingConfig
default_slashing_config = record {
  slash_percent = 10;
  min_stake_threshold = none;
  auto_remove = true;
}

pub record SlashingHandler : Type 0 where
  pub config : BftSlashingConfig
  pub governance : Governance
  pub slash_history : List SlashEvent

-- constructor: `none` is the thrown error on a percentage above 100
unfoldable pub new_handler : Governance → BftSlashingConfig → Option SlashingHandler
new_handler governance config =
    if ltb 100 config.slash_percent
    then none
    else some (record { config = config; governance = governance; slash_history = [] })

unfoldable pub slash_amount : BftSlashingConfig → ValidatorInfo → ℕ
slash_amount config v = v.stake * config.slash_percent / 100

-- `if (slashAmount > 0n) depositTreasury(slashAmount)`: the call does not throw then.
unfoldable pub deposit_if_positive : Governance → ℕ → Governance
deposit_if_positive g amount =
    if ltb 0 amount then elim (deposit_treasury g amount) [ ok g' ↦ g' | err e ↦ g ] else g

unfoldable pub should_remove : BftSlashingConfig → Governance → ℕ → Bool
should_remove config g remaining =
    config.auto_remove && ltb remaining (or_else config.min_stake_threshold g.config.min_stake)

-- The governance calls of handleEquivocation, in order.
unfoldable pub penalize : BftSlashingConfig → Governance → Text → ValidatorInfo → Governance
penalize config g id v =
    let amount = slash_amount config v in
    let g' = deposit_if_positive (apply_slash g id amount) amount in
    if should_remove config g' (v.stake - amount) then deactivate_validator g' id else g'

-- `push`, after all but the newest 9,999 of a full history are dropped
unfoldable pub push_event : List SlashEvent → SlashEvent → List SlashEvent
push_event history event =
    (if leb 10000 (length history) then drop (length history - 9999) history else history)
    ++ event ∷ []

unfoldable pub slash_validator :
    SlashingHandler → EquivocationEvidence → ValidatorInfo → ℕ → SlashingHandler × Option SlashEvent
slash_validator h evidence v now =
    let amount = slash_amount h.config v in
    let event : SlashEvent = record {
      validator_id = evidence.validator_id;
      height = evidence.height;
      phase = evidence.phase;
      slashed_amount = amount;
      remaining_stake = v.stake - amount;
      removed = should_remove h.config h.governance (v.stake - amount);
      evidence = evidence;
      timestamp = now;
    } in
    (
      record h {
        governance = penalize h.config h.governance evidence.validator_id v;
        slash_history = push_event h.slash_history event;
      },
      some event,
    )

unfoldable pub handle_equivocation :
    SlashingHandler → EquivocationEvidence → ℕ → SlashingHandler × Option SlashEvent
handle_equivocation h evidence now = elim (get evidence.validator_id h.governance.validators) [
  | none ↦ (h, none)
  | some v ↦ if v.active then slash_validator h evidence v now else (h, none)
]

unfoldable pub get_slashes_for : SlashingHandler → Text → List SlashEvent
get_slashes_for h id = keep (λ e. e.validator_id == id) h.slash_history

unfoldable pub get_total_slashed : SlashingHandler → ℕ
get_total_slashed h = foldl (λ sum e. sum + e.slashed_amount) 0 h.slash_history
