-- ===== src/Governance/Examples.antt =====
-- node/src/validator-governance.ts and bft-slashing.ts: a small validator set, and the theorems
-- applied to it.
use coc.Governance.Resolution.{vote-safe}
use coc.Bft.Equivocation.Detection.{record_vote_complete}
use coc.Governance.Slashing.Penalty.{mixed_case_unpunished, handle_equivocation-conserves}
use coc.Governance.Passing.{status_of, Reaches, resolve_proposal_approves_iff}
use coc.Bft.Equivocation.{
  EquivocationEvidence, EquivocationDetector, evidence_of, VotePhase, record_vote, existing_vote,
  phase_beq,
}
use coc.Governance.Slashing.{
  SlashingHandler, SlashEvent, handle_equivocation, slash_validator, slash_amount, should_remove,
  default_slashing_config,
}
use coc.Governance.Power.{IsFiled}
use coc.Governance.Slash.{stake_of}
use coc.Prelude.{
  if◌then◌else◌, ◌==◌, contains, get, text_beq, to_lower_case, text, arith, none, lower_unit, true,
  ◌∷◌, keep, ◌≡◌, insert, ◌+◌, [], false, ◌<◌, some, ◌*◌, ◌≤◌, ◌/◌, refl, ◌↔◌, nat_eq, text_eq,
  Text,
}
use coc.Governance.Proposals.{
  vote, cast_vote, resolve_proposal, resolve, voted_stake, approval_stake, approve_proposal,
  execute_proposal, execute_remove, set_status,
}
use coc.Governance.State.{
  ValidatorInfo, GovernanceProposal, Governance, init_genesis, active_count, remove_validator,
  default_config, new_governance, active_of, recalc_voting_power, is_active_validator,
  total_active_stake, pending, approved, ok,
}

abbrev ann : ValidatorInfo
ann = record {
  id = text "ann";
  address = text "0x1";
  stake = 600;
  joined_at_epoch = 0;
  active = true;
  voting_power = 6000;
}

abbrev ben : ValidatorInfo
ben = record {
  id = text "ben";
  address = text "0x2";
  stake = 400;
  joined_at_epoch = 0;
  active = true;
  voting_power = 4000;
}

abbrev removal : GovernanceProposal
removal = record {
  id = 1;
  type = remove_validator;
  target_id = text "ben";
  target_address = none;
  stake_amount = none;
  proposer = text "ann";
  created_at_epoch = 0;
  expires_at_epoch = 24;
  votes = (text "ben", true) ∷ [];
  status = pending;
}

abbrev set_of_two : Governance
set_of_two = record {
  config = record default_config { min_stake = 100 };
  validators = (text "ann", ann) ∷ (text "ben", ben) ∷ [];
  proposals = (1, removal) ∷ [];
  factions = [];
  treasury_balance = 10;
  current_epoch = 0;
  next_proposal_id = 2;
}

abbrev after_vote : Governance
after_vote = record set_of_two {
  validators =
      (text "ann", record ann { voting_power = 10000 })
      ∷ (text "ben", record ben { active = false; voting_power = 0 })
      ∷ [];
  proposals =
      (
        1,
        record removal { votes = (text "ben", true) ∷ (text "ann", true) ∷ []; status = approved },
      )
      ∷ [];
}

genesis_power :
    (init_genesis (new_governance default_config) (
      record { id = text "ann"; address = text "0x1"; stake = 600 }
      ∷ record { id = text "ben"; address = text "0x2"; stake = 400 }
      ∷ [])).validators
    ≡ set_of_two.validators
unfolding init_genesis new_governance recalc_voting_power active_of total_active_stake keep insert
    text_beq
genesis_power = refl

vote_passes : vote set_of_two 1 (text "ann") true ≡ ok after_vote
unfolding vote cast_vote get is_active_validator text_beq resolve_proposal resolve insert
    voted_stake approval_stake approve_proposal execute_proposal execute_remove active_count
    active_of total_active_stake recalc_voting_power keep set_status
vote_passes = refl

set_of_two-IsFiled : IsFiled set_of_two.validators
unfolding contains text_beq
set_of_two-IsFiled = record { distinct = ground arith; keyed = ground arith }

vote-safe_example :
    IsFiled after_vote.validators
    × (0 < active_count after_vote.validators)
    × (active_count after_vote.validators ≤ after_vote.config.max_validators)
    × (after_vote.config ≡ set_of_two.config)
unfolding active_count active_of keep
vote-safe_example =
    vote-safe set_of_two 1 (text "ann") true {g' = after_vote} set_of_two-IsFiled (omega arith)
      vote_passes

resolve_proposal_approves_iff_example :
    (status_of (resolve_proposal set_of_two 1) 1 ≡ some approved) ↔ (
      Reaches
        (voted_stake set_of_two.validators removal.votes)
        (total_active_stake set_of_two.validators)
        50
      × Reaches
          (approval_stake set_of_two.validators removal.votes)
          (total_active_stake set_of_two.validators)
          67)
unfolding get
resolve_proposal_approves_iff_example = resolve_proposal_approves_iff set_of_two 1 removal refl refl

abbrev handler : SlashingHandler
handler = record {
  config = record default_slashing_config { slash_percent = 80 };
  governance = set_of_two;
  slash_history = [];
}

abbrev double_vote : EquivocationEvidence
double_vote = evidence_of (text "ben") 7 VotePhase.commit (text "0xa") (text "0xb") 3

abbrev penalty : SlashEvent
penalty = record {
  validator_id = text "ben";
  height = 7;
  phase = VotePhase.commit;
  slashed_amount = 320;
  remaining_stake = 80;
  removed = true;
  evidence = double_vote;
  timestamp = 5;
}

penalty_reported : (handle_equivocation handler double_vote 5).1 ≡ some penalty
unfolding handle_equivocation slash_validator slash_amount should_remove get text_beq to_lower_case
    lower_unit
penalty_reported = refl

handle_equivocation-conserves_example :
    (320 + 80 ≡ ben.stake)
    × (penalty.slashed_amount ≡ 400 * 80 / 100)
    × ((handle_equivocation handler double_vote 5).0.governance.treasury_balance ≡ 10 + 320)
    × ((j : Text)
        → stake_of j (handle_equivocation handler double_vote 5).0.governance.validators
          ≡ (if text "ben" == j then some 80 else stake_of j set_of_two.validators))
unfolding get text_beq to_lower_case lower_unit
handle_equivocation-conserves_example =
    handle_equivocation-conserves handler double_vote 5 {v = ben} {event = penalty} (omega arith)
      set_of_two-IsFiled refl penalty_reported

-- Zoe, filed with a capital letter, commits to two blocks.
abbrev zoe_set : Governance
zoe_set = record set_of_two { validators = (text "Zoe", record ann { id = text "Zoe" }) ∷ [] }

abbrev voted : EquivocationDetector
voted = record {
  votes = (7, (VotePhase.commit, (text "zoe", text "0xa") ∷ []) ∷ []) ∷ [];
  evidence = [];
  evidence_count_by_validator = [];
  max_tracked_heights = 100;
  max_evidence = 1000;
  max_evidence_per_validator = 100;
}

abbrev zoe_evidence : EquivocationEvidence
zoe_evidence = evidence_of (text "Zoe") 7 VotePhase.commit (text "0xa") (text "0xb") 3

zoe_reported :
    (record_vote voted (text "Zoe") 7 VotePhase.commit (text "0xb") 3).1 ≡ some zoe_evidence
unfolding to_lower_case lower_unit existing_vote get text_beq phase_beq
zoe_reported =
    record_vote_complete voted (text "Zoe") 7 VotePhase.commit (text "0xa") (text "0xb") 3 refl
      (ground arith) (ground arith)

mixed_case_unpunished_example :
    handle_equivocation (record handler { governance = zoe_set }) zoe_evidence 5
    ≡ (record handler { governance = zoe_set }, none)
unfolding get text_beq to_lower_case lower_unit
mixed_case_unpunished_example =
    mixed_case_unpunished voted (record handler { governance = zoe_set }) (text "Zoe") 7
      VotePhase.commit (text "0xb") 3 5 zoe_reported refl
