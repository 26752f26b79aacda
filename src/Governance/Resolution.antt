-- ===== src/Governance/Resolution.antt =====
-- node/src/validator-governance.ts, vote, resolveProposal and executeProposal: what a vote does to the
-- validator set, and when a proposal passes.
use coc.Governance.Members.{write_counts, one_if_active-le, write-IsFiled, active_count_pos}
use coc.Governance.Power.{IsFiled}
use coc.Prelude.{
  ℕ, ◌≤◌, ◌<◌, Text, text_eq, Bool, true, false, ◌&&◌, [], Dict, get, insert, or_else, refl, ◌≡◌,
  ltb, leb, Option, none, some, inl, inr, All-get, Bool-cases, Option-cases, arith, ◌⊎◌, nat_eq,
  ◌*◌,
}
use coc.Governance.State.{
  Governance, GovernanceProposal, ValidatorInfo, add_validator, remove_validator, update_stake,
  active_count, ProposalType, ProposalStatus, total_active_stake, ok, is_active_validator, approved,
  rejected,
}
use coc.Governance.Proposals.{
  execute_add, execute_proposal, execute_remove, execute_update, update_to, set_status, resolve,
  resolve_proposal, vote, approve_proposal, is_pending, cast_vote, basis_points, voted_stake,
  approval_stake,
}

-- What executing a proposal keeps of a validator set.
record IsSafeChange (g g' : Governance) : Type 0 where
  filed : IsFiled g'.validators
  nonempty : 0 < active_count g.validators → 0 < active_count g'.validators
  bounded :
      active_count g.validators ≤ g.config.max_validators
      → active_count g'.validators ≤ g'.config.max_validators
  same_config : g'.config ≡ g.config

no_change : (g : Governance) → IsFiled g.validators → IsSafeChange g g
no_change g f = record { filed = f; nonempty = λ h. h; bounded = λ h. h; same_config = refl }

pub own_id :
    (m : Dict Text ValidatorInfo) (k : Text) {v : ValidatorInfo}
    → IsFiled m
    → get k m ≡ some v
    → v.id ≡ k
own_id m k f e = All-get (λ e. e.1.id ≡ e.0) k m f.keyed e

execute_add-safe :
    (g : Governance) (p : GovernanceProposal)
    → IsFiled g.validators
    → IsSafeChange g (execute_add g p)
unfolding execute_add
execute_add-safe g p f =
    elim (Bool-cases (leb g.config.max_validators (active_count g.validators))) [
      | inl full ↦ rw full (no_change g f)
      | inr room ↦
          let v : ValidatorInfo = record {
            id = p.target_id;
            address = or_else p.target_address [];
            stake = or_else p.stake_amount g.config.min_stake;
            joined_at_epoch = g.current_epoch;
            active = true;
            voting_power = 0;
          } in
          let counts = write_counts p.target_id v g.validators refl f in
          let one = one_if_active-le (get p.target_id g.validators) in
          rw room (record {
            filed = write-IsFiled p.target_id v g.validators refl f;
            nonempty = λ h. omega (arith, counts.0, one);
            bounded = λ h. ground (arith, counts.0, one);
            same_config = refl;
          })
    ]

execute_remove-safe :
    (g : Governance) (p : GovernanceProposal)
    → IsFiled g.validators
    → IsSafeChange g (execute_remove g p)
unfolding execute_remove
execute_remove-safe g p f = elim (Bool-cases (leb (active_count g.validators) 1)) [
  | inl last ↦ rw last (no_change g f)
  | inr more ↦ elim (Option-cases (get p.target_id g.validators)) [
    | inl absent ↦ rw (more, absent) (no_change g f)
    | inr (v, found) ↦
        let v' : ValidatorInfo = record v { active = false } in
        let own = own_id g.validators p.target_id f found in
        let counts = write_counts p.target_id v' g.validators own f in
        let one = one_if_active-le (get p.target_id g.validators) in
        rw (more, found)
          (record {
            filed = write-IsFiled p.target_id v' g.validators own f;
            nonempty = λ h. ground (arith, counts.0, one);
            bounded = λ h. ground (arith, counts.0, one);
            same_config = refl;
          })
  ]
]

update_to-safe :
    (g : Governance) (p : GovernanceProposal) (v : ValidatorInfo) (stake : Option ℕ)
    → get p.target_id g.validators ≡ some v
    → IsFiled g.validators
    → IsSafeChange g (update_to g p v stake)
unfolding update_to
update_to-safe g p v none found f = no_change g f
update_to-safe g p v (some stake) found f =
    elim (Bool-cases (v.active && leb g.config.min_stake stake)) [
      | inr refused ↦ rw refused (no_change g f)
      | inl allowed ↦
          let v' : ValidatorInfo = record v { stake = stake } in
          let own = own_id g.validators p.target_id f found in
          let counts = write_counts p.target_id v' g.validators own f in
          rw allowed (record {
            filed = write-IsFiled p.target_id v' g.validators own f;
            nonempty = λ h. ground (arith, counts.0, found);
            bounded = λ h. ground (arith, counts.0, found);
            same_config = refl;
          })
    ]

execute_update-safe :
    (g : Governance) (p : GovernanceProposal)
    → IsFiled g.validators
    → IsSafeChange g (execute_update g p)
unfolding execute_update
execute_update-safe g p f = elim (Option-cases (get p.target_id g.validators)) [
  | inl absent ↦ rw (absent, execute_update) (no_change g f)
  | inr (v, found) ↦ rw (found, execute_update) (update_to-safe g p v p.stake_amount found f)
]

execute_proposal-safe :
    (g : Governance) (p : GovernanceProposal)
    → IsFiled g.validators
    → IsSafeChange g (execute_proposal g p)
unfolding execute_proposal
execute_proposal-safe g p f = elim (type_cases p.type) [
  | inl t ↦ rw (t, execute_proposal) (execute_add-safe g p f)
  | inr (inl t) ↦ rw (t, execute_proposal) (execute_remove-safe g p f)
  | inr (inr t) ↦ rw (t, execute_proposal) (execute_update-safe g p f)
]
  where
    type_cases :
        (t : ProposalType) → (t ≡ add_validator) ⊎ ((t ≡ remove_validator) ⊎ (t ≡ update_stake))
    type_cases t = ground arith

set_status-safe :
    (g g' : Governance) (id : ℕ) (p : GovernanceProposal) (status : ProposalStatus)
    → IsSafeChange g g'
    → IsSafeChange g (set_status g' id p status)
unfolding set_status
set_status-safe g g' id p status s = record {
  filed = s.filed;
  nonempty = s.nonempty;
  bounded = s.bounded;
  same_config = s.same_config;
}

resolve-safe :
    (g : Governance) (id : ℕ) (p : GovernanceProposal)
    → IsFiled g.validators
    → IsSafeChange g (resolve g id p)
unfolding resolve approve_proposal
resolve-safe g id p f =
    let total = total_active_stake g.validators in
    let participation = basis_points (voted_stake g.validators p.votes) total in
    let approval = basis_points (approval_stake g.validators p.votes) total in
    elim (Bool-cases (ltb participation (g.config.min_voter_percent * 100))) [
      | inl few ↦ rw few (no_change g f)
      | inr enough ↦ elim (Bool-cases (leb (g.config.approval_threshold_percent * 100) approval)) [
        | inl passed ↦
            rw (enough, passed)
              (set_status-safe g (execute_proposal g p) id _ approved (execute_proposal-safe g p f))
        | inr short ↦ elim (Bool-cases (leb 10000 participation)) [
          | inl all ↦ rw (enough, short, all) (set_status-safe g g id p rejected (no_change g f))
          | inr some_left ↦ rw (enough, short, some_left) (no_change g f)
        ]
      ]
    ]

resolve_proposal-safe :
    (g : Governance) (id : ℕ) → IsFiled g.validators → IsSafeChange g (resolve_proposal g id)
unfolding resolve_proposal
resolve_proposal-safe g id f = elim (Option-cases (get id g.proposals)) [
  | inl absent ↦ rw (absent, resolve_proposal) (no_change g f)
  | inr (p, found) ↦ elim (Bool-cases (is_pending p.status)) [
    | inl open_still ↦ rw (found, open_still, resolve_proposal) (resolve-safe g id p f)
    | inr closed ↦ rw (found, closed, resolve_proposal) (no_change g f)
  ]
]

-- A vote that is accepted, whatever it brings about, leaves at least one active validator and never
-- more than the configured maximum where there were no more before; every validator stays filed
-- once, under its own id, and the configuration is the same.
pub vote-safe :
    (g : Governance) (id : ℕ) (voter : Text) (approve : Bool) {g' : Governance}
    → IsFiled g.validators
    → active_count g.validators ≤ g.config.max_validators
    → vote g id voter approve ≡ ok g'
    → IsFiled g'.validators
      × (0 < active_count g'.validators)
      × (active_count g'.validators ≤ g'.config.max_validators)
      × (g'.config ≡ g.config)
unfolding vote cast_vote
vote-safe g id voter approve {g'} f bound h = elim (Option-cases (get id g.proposals)) [
  | inl absent ↦ ground arith
  | inr (p, found) ↦ elim (Bool-cases (is_active_validator g.validators voter)) [
    | inr idle ↦ ground arith
    | inl active ↦
        let voted : Governance = record g {
          proposals = insert id (record p { votes = insert voter approve p.votes }) g.proposals;
        } in
        let safe = resolve_proposal-safe voted id f in
        let positive = active_count_pos g.validators voter active in
        let after : g' ≡ resolve_proposal voted id = ground arith in
        rw after (safe.filed, safe.nonempty positive, safe.bounded bound, safe.same_config)
  ]
]
