-- ===== src/Governance/Passing.antt =====
-- node/src/validator-governance.ts, resolveProposal: the stake that passes a proposal.
use coc.Prelude.{
  ℕ, ◌≤◌, ◌<◌, ◌↔◌, text_eq, true, get, or_else, ◌≡◌, ltb, leb, if◌then◌else◌, Option, none, some,
  nat_eq, ◌*◌, ◌/◌, ◌⊎◌, arith, get-insert,
}
use native.Mathlib.Nat.{le-div_iff_mul-le}
use coc.Governance.State.{
  Governance, GovernanceProposal, ProposalStatus, pending, approved, total_active_stake, rejected,
}
use coc.Governance.Proposals.{
  execute_add, execute_proposal, execute_remove, resolve_proposal, basis_points, execute_update,
  update_to, voted_stake, approval_stake, resolve, approve_proposal, set_status, is_pending,
}

basis_points_iff :
    (part total percent : ℕ)
    → 0 < total
    → (percent * 100 ≤ part * 10000 / total) ↔ (percent * total ≤ 100 * part)
basis_points_iff part total percent h =
    let scaled = le-div_iff_mul-le {x = percent * 100} {y = part * 10000} h in
    ((λ k. omega (arith, scaled.0 k)), (λ k. scaled.1 (omega arith)))

-- Whether a stake reaches a percentage of the total; of no stake at all only zero percent.
abbrev pub Reaches : ℕ → ℕ → ℕ → Type 0
Reaches part total percent =
    ((0 < total) × (percent * total ≤ 100 * part)) ⊎ ((total ≡ 0) × (percent ≡ 0))

Reaches-iff :
    (part total percent : ℕ)
    → (percent * 100 ≤ basis_points part total) ↔ Reaches part total percent
Reaches-iff part total percent = ground (arith, basis_points_iff part total percent)

pub status_of : Governance → ℕ → Option ProposalStatus
status_of g id = elim (get id g.proposals) [ none ↦ none | some p ↦ some p.status ]

-- Executing a proposal touches no proposal.
pub execute_proposal-proposals :
    (g : Governance) (p : GovernanceProposal) → (execute_proposal g p).proposals ≡ g.proposals
unfolding execute_proposal execute_add execute_remove execute_update update_to
execute_proposal-proposals g p = ground arith

set_status-status_of :
    (g : Governance) (id : ℕ) (p : GovernanceProposal) (status : ProposalStatus)
    → status_of (set_status g id p status) id ≡ some status
unfolding set_status status_of
set_status-status_of g id p status =
    ground (arith, get-insert id id (record p { status = status }) g.proposals)

status_of_found :
    (g : Governance) (id : ℕ) (p : GovernanceProposal)
    → get id g.proposals ≡ some p
    → status_of g id ≡ some p.status
unfolding status_of
status_of_found g id p found = ground arith

resolve-status_of :
    (g : Governance) (id : ℕ) (p : GovernanceProposal)
    → get id g.proposals ≡ some p
    → let total = total_active_stake g.validators in
      let participation = basis_points (voted_stake g.validators p.votes) total in
      let approval = basis_points (approval_stake g.validators p.votes) total in
      status_of (resolve g id p) id ≡ (
        if ltb participation (g.config.min_voter_percent * 100)
        then some p.status
        else if leb (g.config.approval_threshold_percent * 100) approval
        then some approved
        else if leb 10000 participation
        then some rejected
        else some p.status)
unfolding resolve approve_proposal
resolve-status_of g id p found = ground (
  arith,
  status_of_found g id p found,
  set_status-status_of (execute_proposal g p) id
      (or_else (get id (execute_proposal g p).proposals) p) approved,
  set_status-status_of g id p rejected,
)

resolve_approves_iff :
    (g : Governance) (id : ℕ) (p : GovernanceProposal)
    → get id g.proposals ≡ some p
    → p.status ≡ pending
    → (status_of (resolve g id p) id ≡ some approved) ↔ (
        Reaches
          (voted_stake g.validators p.votes)
          (total_active_stake g.validators)
          g.config.min_voter_percent
        × Reaches
            (approval_stake g.validators p.votes)
            (total_active_stake g.validators)
            g.config.approval_threshold_percent)
resolve_approves_iff g id p found open_still =
    let total = total_active_stake g.validators in
    let voted = voted_stake g.validators p.votes in
    let approving = approval_stake g.validators p.votes in
    ground (
      arith,
      resolve-status_of g id p found,
      Reaches-iff voted total g.config.min_voter_percent,
      Reaches-iff approving total g.config.approval_threshold_percent,
    )

-- A pending proposal is approved exactly if the active voters hold the participation percentage of
-- the active stake and the active approvers hold the approval percentage of it.
pub resolve_proposal_approves_iff :
    (g : Governance) (id : ℕ) (p : GovernanceProposal)
    → get id g.proposals ≡ some p
    → p.status ≡ pending
    → (status_of (resolve_proposal g id) id ≡ some approved) ↔ (
        Reaches
          (voted_stake g.validators p.votes)
          (total_active_stake g.validators)
          g.config.min_voter_percent
        × Reaches
            (approval_stake g.validators p.votes)
            (total_active_stake g.validators)
            g.config.approval_threshold_percent)
unfolding resolve_proposal
resolve_proposal_approves_iff g id p found open_still =
    let is_open : is_pending p.status ≡ true = ground arith in
    rw (found, is_open, resolve_proposal) (resolve_approves_iff g id p found open_still)
