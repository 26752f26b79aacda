-- ===== src/Governance/State.antt =====
-- node/src/validator-governance.ts: the state, the validator set and its voting power, penalties,
-- the treasury and the factions.
use coc.Prelude.{
  ℕ, ◌+◌, ◌-◌, ◌*◌, ◌/◌, Text, to_lower_case, text_eq, nat_eq, Bool, true, false, not, ◌&&◌, List,
  [], foldl, Dict, get, insert, values, keep, length, ltb, ◌==◌, if◌then◌else◌, Option, none, some,
}

pub record ValidatorInfo : Type 0 where
  pub id : Text
  pub address : Text
  pub stake : ℕ
  pub joined_at_epoch : ℕ
  pub active : Bool
  pub voting_power : ℕ

pub data ProposalType : Type 0 where
  add_validator remove_validator update_stake : ProposalType

pub data ProposalStatus : Type 0 where
  pending approved rejected expired : ProposalStatus

pub data FactionId : Type 0 where
  builders guardians explorers neutral : FactionId

pub record FactionInfo : Type 0 where
  pub address : Text
  pub faction : FactionId
  pub joined_at_epoch : ℕ

-- The id is the number n of the text `proposal-${n}`.
pub record GovernanceProposal : Type 0 where
  pub id : ℕ
  pub type : ProposalType
  pub target_id : Text
  pub target_address : Option Text
  pub stake_amount : Option ℕ
  pub proposer : Text
  pub created_at_epoch : ℕ
  pub expires_at_epoch : ℕ
  pub votes : Dict Text Bool
  pub status : ProposalStatus

pub record GovernanceConfig : Type 0 where
  pub min_stake : ℕ
  pub max_validators : ℕ
  pub proposal_duration_epochs : ℕ
  pub approval_threshold_percent : ℕ
  pub min_voter_percent : ℕ

pub record Governance : Type 0 where
  pub config : GovernanceConfig
  pub validators : Dict Text ValidatorInfo
  pub proposals : Dict ℕ GovernanceProposal
  pub factions : Dict Text FactionInfo
  pub treasury_balance : ℕ
  pub current_epoch : ℕ
  pub next_proposal_id : ℕ

abbrev pub default_config : GovernanceConfig
default_config = record {
  min_stake = 1_000_000_000_000_000_000;
  max_validators = 100;
  proposal_duration_epochs = 24;
  approval_threshold_percent = 67;
  min_voter_percent = 50;
}

-- constructor
unfoldable pub new_governance : GovernanceConfig → Governance
new_governance config = record {
  config = config;
  validators = [];
  proposals = [];
  factions = [];
  treasury_balance = 0;
  current_epoch = 0;
  next_proposal_id = 1;
}

-- The errors that the methods throw.
pub data Error : Type 0 where
  deposit_not_positive proposer_not_active validator_already_active max_validators_reached : Error
  target_address_required stake_below_minimum target_not_active stake_amount_required : Error
  stake_exceeds_maximum cannot_remove_last proposal_not_found proposal_not_pending : Error
  voter_not_active already_voted : Error

pub data Result {ℓ} (A : Type ℓ) : Type ℓ where
  ok : A → Result A
  err : Error → Result A

abbrev pub is_active : ValidatorInfo → Bool
is_active v = v.active

abbrev pub add_stake : ℕ → ValidatorInfo → ℕ
add_stake sum v = sum + v.stake

-- getActiveValidators over the map alone
unfoldable pub active_of : Dict Text ValidatorInfo → List ValidatorInfo
active_of validators = keep is_active (values validators)

unfoldable pub total_active_stake : Dict Text ValidatorInfo → ℕ
total_active_stake validators = foldl add_stake 0 (active_of validators)

-- activeCount
unfoldable pub active_count : Dict Text ValidatorInfo → ℕ
active_count validators = length (active_of validators)

-- `this.validators.get(id)?.active`
unfoldable pub is_active_validator : Dict Text ValidatorInfo → Text → Bool
is_active_validator validators id = elim (get id validators) [ none ↦ false | some v ↦ v.active ]

abbrev pub set_power : ℕ → Dict Text ValidatorInfo → ValidatorInfo → Dict Text ValidatorInfo
set_power total m v =
    insert v.id (record v { voting_power = if ltb 0 total then v.stake * 10000 / total else 0 }) m

abbrev pub reset_power : Dict Text ValidatorInfo → ValidatorInfo → Dict Text ValidatorInfo
reset_power m v =
    if not v.active && not (v.voting_power == 0)
    then insert v.id (record v { voting_power = 0 }) m
    else m

-- recalcVotingPower: the loop over the active validators, then the one over all values.
unfoldable pub recalc_voting_power : Dict Text ValidatorInfo → Dict Text ValidatorInfo
recalc_voting_power validators =
    let powered =
      foldl (set_power (total_active_stake validators)) validators (active_of validators) in
    foldl reset_power powered (values powered)

-- A genesis entry: id, address and stake.
pub record GenesisValidator : Type 0 where
  pub id : Text
  pub address : Text
  pub stake : ℕ

abbrev pub put_genesis : Dict Text ValidatorInfo → GenesisValidator → Dict Text ValidatorInfo
put_genesis m v =
    insert v.id
      (record {
        id = v.id;
        address = v.address;
        stake = v.stake;
        joined_at_epoch = 0;
        active = true;
        voting_power = 0;
      })
      m

unfoldable pub init_genesis : Governance → List GenesisValidator → Governance
init_genesis g validators = record g {
  validators = recalc_voting_power (foldl put_genesis [] validators);
}

unfoldable pub deposit_treasury : Governance → ℕ → Result Governance
deposit_treasury g amount =
    if amount == 0
    then err deposit_not_positive
    else ok (record g { treasury_balance = g.treasury_balance + amount })

unfoldable pub set_faction : Governance → Text → FactionId → Governance
set_faction g address faction =
    let normalized = to_lower_case address in
    record g {
      factions =
          insert normalized
            (record { address = normalized; faction = faction; joined_at_epoch = g.current_epoch })
            g.factions;
    }

unfoldable pub get_faction : Governance → Text → Option FactionInfo
get_faction g address = get (to_lower_case address) g.factions

unfoldable pub apply_slash : Governance → Text → ℕ → Governance
apply_slash g validator_id amount =
    if amount == 0 then g else elim (get validator_id g.validators) [
      | none ↦ g
      | some v ↦
          if not v.active
          then g
          else let new_stake = if ltb amount v.stake then v.stake - amount else 0 in
            record g {
              validators = recalc_voting_power (
                  insert validator_id
                    (record v { stake = new_stake; active = not (new_stake == 0) }) g.validators);
            }
    ]

unfoldable pub is_below_min_stake : Governance → Text → Bool
is_below_min_stake g validator_id = elim (get validator_id g.validators) [
  | none ↦ false
  | some v ↦ ltb v.stake g.config.min_stake
]

unfoldable pub deactivate_validator : Governance → Text → Governance
deactivate_validator g validator_id = elim (get validator_id g.validators) [
  | none ↦ g
  | some v ↦ if not v.active then g else record g {
    validators =
        recalc_voting_power (insert validator_id (record v { active = false }) g.validators);
  }
]
