-- ===== src/Governance/Proposals.antt =====
-- node/src/validator-governance.ts: proposals, from submission through votes to resolution and
-- expiry.
use coc.Prelude.{
  ℕ, ◌+◌, ◌-◌, ◌*◌, ◌/◌, Text, text_eq, nat_eq, Bool, true, false, not, ◌&&◌, [], ◌∷◌, Dict, get,
  insert, has, keep, length, or_else, ltb, leb, if◌then◌else◌, Option, none, some,
}
use coc.Governance.State.{
  Governance, GovernanceProposal, ProposalType, ProposalStatus, ValidatorInfo, Error, Result, ok,
  err, is_active_validator, active_count, total_active_stake, recalc_voting_power, add_validator,
  remove_validator, update_stake, pending, approved, rejected, expired, proposer_not_active,
  validator_already_active, max_validators_reached, target_address_required, stake_below_minimum,
  target_not_active, stake_amount_required, stake_exceeds_maximum, cannot_remove_last,
  proposal_not_found, proposal_not_pending, voter_not_active, already_voted,
}

abbrev pub is_pending : ProposalStatus → Bool
is_pending pending = true
is_pending _ = false

infixl 5 ◌>>◌
abbrev pub ◌>>◌ {ℓ} : {B : Type ℓ} → Result (Unit {0}) → Result B → Result B
ok _ >> k = k
err e >> k = err e

abbrev pub guard : Bool → Error → Result (Unit {0})
guard true e = ok tt
guard false e = err e

-- `!targetAddress`: missing or empty
address_given : Option Text → Bool
address_given none = false
address_given (some []) = false
address_given (some (c ∷ s)) = true

check_update : Governance → Option ℕ → Result (Unit {0})
check_update g none = err stake_amount_required
check_update g (some stake) = do
  guard (leb g.config.min_stake stake) stake_below_minimum
  guard (leb stake (g.config.min_stake * 1000)) stake_exceeds_maximum

-- The validation of submitProposal for each type of proposal.
unfoldable pub check_proposal :
    Governance → ProposalType → Text → Option Text → Option ℕ → Result (Unit {0})
unfolding address_given check_update
check_proposal g add_validator target address stake = do
  guard (not (is_active_validator g.validators target)) validator_already_active
  guard (ltb (active_count g.validators) g.config.max_validators) max_validators_reached
  guard (address_given address) target_address_required
  guard (leb g.config.min_stake (or_else stake 0)) stake_below_minimum
check_proposal g update_stake target address stake = do
  guard (is_active_validator g.validators target) target_not_active
  check_update g stake
check_proposal g remove_validator target address stake = do
  guard (is_active_validator g.validators target) target_not_active
  guard (ltb 1 (active_count g.validators)) cannot_remove_last

unfoldable pub make_proposal :
    Governance → ProposalType → Text → Text → Option Text → Option ℕ → GovernanceProposal
make_proposal g type target proposer address stake = record {
  id = g.next_proposal_id;
  type = type;
  target_id = target;
  target_address = address;
  stake_amount = stake;
  proposer = proposer;
  created_at_epoch = g.current_epoch;
  expires_at_epoch = g.current_epoch + g.config.proposal_duration_epochs;
  votes = [];
  status = pending;
}

unfoldable pub submit_proposal :
    Governance
    → ProposalType
    → Text
    → Text
    → Option Text
    → Option ℕ
    → Result (Governance × GovernanceProposal)
submit_proposal g type target proposer address stake = do
  guard (is_active_validator g.validators proposer) proposer_not_active
  check_proposal g type target address stake
  let proposal = make_proposal g type target proposer address stake
  ok (
    record g {
      proposals = insert g.next_proposal_id proposal g.proposals;
      next_proposal_id = g.next_proposal_id + 1;
    },
    proposal,
  )

abbrev pub active_stake : Dict Text ValidatorInfo → Text → ℕ
active_stake validators id = elim (get id validators) [
  | none ↦ 0
  | some v ↦ if v.active then v.stake else 0
]

-- The stake of all active voters, and of those who approve.
unfoldable pub voted_stake : Dict Text ValidatorInfo → Dict Text Bool → ℕ
voted_stake validators [] = 0
voted_stake validators ((id, _) ∷ votes) = active_stake validators id + voted_stake validators votes

unfoldable pub approval_stake : Dict Text ValidatorInfo → Dict Text Bool → ℕ
approval_stake validators [] = 0
approval_stake validators ((id, approve) ∷ votes) =
    (if approve then active_stake validators id else 0) + approval_stake validators votes

-- A stake in basis points of the total.
abbrev pub basis_points : ℕ → ℕ → ℕ
basis_points part total = if ltb 0 total then part * 10000 / total else 0

unfoldable pub execute_add : Governance → GovernanceProposal → Governance
execute_add g p = if leb g.config.max_validators (active_count g.validators) then g else record g {
  validators = recalc_voting_power (
      insert p.target_id
        (record {
          id = p.target_id;
          address = or_else p.target_address [];
          stake = or_else p.stake_amount g.config.min_stake;
          joined_at_epoch = g.current_epoch;
          active = true;
          voting_power = 0;
        })
        g.validators);
}

unfoldable pub execute_remove : Governance → GovernanceProposal → Governance
execute_remove g p =
    if leb (active_count g.validators) 1 then g else elim (get p.target_id g.validators) [
      | none ↦ g
      | some v ↦ record g {
        validators =
            recalc_voting_power (insert p.target_id (record v { active = false }) g.validators);
      }
    ]

-- `v` is the target; the stake is the proposal's.
unfoldable pub update_to : Governance → GovernanceProposal → ValidatorInfo → Option ℕ → Governance
update_to g p v none = g
update_to g p v (some stake) =
    if v.active && leb g.config.min_stake stake
    then record g {
      validators =
          recalc_voting_power (insert p.target_id (record v { stake = stake }) g.validators);
    }
    else g

unfoldable pub execute_update : Governance → GovernanceProposal → Governance
execute_update g p = elim (get p.target_id g.validators) [
  | none ↦ g
  | some v ↦ update_to g p v p.stake_amount
]

unfoldable pub execute_proposal : Governance → GovernanceProposal → Governance
execute_proposal g p = elim p.type [
  | add_validator ↦ execute_add g p
  | remove_validator ↦ execute_remove g p
  | update_stake ↦ execute_update g p
]

unfoldable pub set_status : Governance → ℕ → GovernanceProposal → ProposalStatus → Governance
set_status g id p status = record g {
  proposals = insert id (record p { status = status }) g.proposals;
}

-- The proposal takes effect, is read again and marked.
unfoldable pub approve_proposal : Governance → ℕ → GovernanceProposal → Governance
approve_proposal g id p =
    let g' = execute_proposal g p in set_status g' id (or_else (get id g'.proposals) p) approved

-- resolveProposal once the proposal has been read and found pending
unfoldable pub resolve : Governance → ℕ → GovernanceProposal → Governance
resolve g id p =
    let total = total_active_stake g.validators in
    let participation = basis_points (voted_stake g.validators p.votes) total in
    let approval = basis_points (approval_stake g.validators p.votes) total in
    if ltb participation (g.config.min_voter_percent * 100)
    then g
    else if leb (g.config.approval_threshold_percent * 100) approval
    then approve_proposal g id p
    else if leb 10000 participation
    then set_status g id p rejected
    else g

unfoldable pub resolve_proposal : Governance → ℕ → Governance
resolve_proposal g id = elim (get id g.proposals) [
  | none ↦ g
  | some p ↦ if not (is_pending p.status) then g else resolve g id p
]

unfoldable pub cast_vote : Governance → ℕ → GovernanceProposal → Text → Bool → Result Governance
cast_vote g id p voter approve = do
  guard (is_pending p.status) proposal_not_pending
  guard (is_active_validator g.validators voter) voter_not_active
  guard (not (has voter p.votes)) already_voted
  ok (
      resolve_proposal
        (record g {
          proposals = insert id (record p { votes = insert voter approve p.votes }) g.proposals;
        })
        id)

unfoldable pub vote : Governance → ℕ → Text → Bool → Result Governance
vote g id voter approve = elim (get id g.proposals) [
  | none ↦ err proposal_not_found
  | some p ↦ cast_vote g id p voter approve
]

unfoldable pub expire : ℕ → Dict ℕ GovernanceProposal → Dict ℕ GovernanceProposal
expire epoch [] = []
expire epoch ((id, p) ∷ ps) =
    (
      id,
      if is_pending p.status && leb p.expires_at_epoch epoch
          then record p { status = expired }
          else p,
    )
    ∷ expire epoch ps

abbrev pub is_stale : ℕ → ℕ × GovernanceProposal → Bool
is_stale cutoff e = not (is_pending e.1.status) && ltb e.1.created_at_epoch cutoff

-- pruneProposals: the new state and the number removed
unfoldable pub prune_proposals : Governance → ℕ → Governance × ℕ
prune_proposals g retention =
    let cutoff = if ltb retention g.current_epoch then g.current_epoch - retention else 0 in
    (
      record g { proposals = keep (λ e. not (is_stale cutoff e)) g.proposals },
      length (keep (is_stale cutoff) g.proposals),
    )

unfoldable pub advance_epoch : Governance → ℕ → Governance
advance_epoch g epoch =
    (prune_proposals (record g { current_epoch = epoch; proposals = expire epoch g.proposals })
      100).0
