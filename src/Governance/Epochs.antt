-- ===== src/Governance/Epochs.antt =====
-- node/src/validator-governance.ts, advanceEpoch and pruneProposals: expiry and retention.
use coc.Governance.Proposals.{is_pending, expire, is_stale, advance_epoch, prune_proposals}
use coc.Prelude.{
  ℕ, ◌+◌, ◌≤◌, ◌<◌, text_eq, Bool, true, not, [], ◌∷◌, Dict, get, keep, ◌≡◌, ltb, if◌then◌else◌,
  some, inl, inr, nat_eq, All, arith, ◌-◌, Bool-cases,
}
use coc.Governance.State.{Governance, GovernanceProposal}

-- Pending and not yet due, or resolved and not yet too old to keep.
abbrev pub IsCurrent : ℕ → ℕ → GovernanceProposal → Type 0
IsCurrent epoch retention p =
    if is_pending p.status
    then epoch < p.expires_at_epoch
    else epoch ≤ p.created_at_epoch + retention

expire-lem :
    (epoch : ℕ) (ps : Dict ℕ GovernanceProposal)
    → All (λ e. is_pending e.1.status ≡ true → epoch < e.1.expires_at_epoch) (expire epoch ps)
unfolding expire
expire-lem epoch [] = tt
expire-lem epoch ((id, p) ∷ ps) = ((λ h. ground arith), expire-lem epoch ps)

abbrev cutoff_of : ℕ → ℕ → ℕ
cutoff_of epoch retention = if ltb retention epoch then epoch - retention else 0

IsCurrent-of_kept :
    (epoch retention id : ℕ) (p : GovernanceProposal)
    → (is_pending p.status ≡ true → epoch < p.expires_at_epoch)
    → not (is_stale (cutoff_of epoch retention) (id, p)) ≡ true
    → IsCurrent epoch retention p
IsCurrent-of_kept epoch retention id p h fresh = ground arith

keep-IsCurrent :
    (epoch retention : ℕ) (ps : Dict ℕ GovernanceProposal)
    → All (λ e. is_pending e.1.status ≡ true → epoch < e.1.expires_at_epoch) ps
    → All
        (λ e. IsCurrent epoch retention e.1)
        (keep (λ e. not (is_stale (cutoff_of epoch retention) e)) ps)
unfolding keep
keep-IsCurrent epoch retention [] h = tt
keep-IsCurrent epoch retention ((id, p) ∷ ps) h =
    let rest = keep-IsCurrent epoch retention ps h.1 in
    elim (Bool-cases (not (is_stale (cutoff_of epoch retention) (id, p)))) [
      | inl fresh ↦ rw fresh (IsCurrent-of_kept epoch retention id p h.0 fresh, rest)
      | inr stale ↦ rw stale rest
    ]

-- After an epoch begins, no pending proposal is due, and no resolved one is more than a hundred
-- epochs old.
pub advance_epoch-IsCurrent :
    (g : Governance) (epoch : ℕ)
    → All (λ e. IsCurrent epoch 100 e.1) (advance_epoch g epoch).proposals
unfolding advance_epoch prune_proposals
advance_epoch-IsCurrent g epoch =
    keep-IsCurrent epoch 100 (expire epoch g.proposals) (expire-lem epoch g.proposals)

get-keep :
    (q : ℕ × GovernanceProposal → Bool) (id : ℕ) {p : GovernanceProposal}
    (ps : Dict ℕ GovernanceProposal)
    → get id ps ≡ some p
    → q (id, p) ≡ true
    → get id (keep q ps) ≡ some p
unfolding get keep
get-keep q id [] h k = cc
get-keep q id {p} ((j, r) ∷ ps) h k = ground (arith, get-keep q id {p = p} ps)

get-expire :
    (epoch id : ℕ) {p : GovernanceProposal} (ps : Dict ℕ GovernanceProposal)
    → get id ps ≡ some p
    → IsCurrent epoch 100 p
    → get id (expire epoch ps) ≡ some p
unfolding get expire
get-expire epoch id [] h k = cc
get-expire epoch id {p} ((j, r) ∷ ps) h k = ground (arith, get-expire epoch id {p = p} ps)

-- A proposal that is on file and current at the new epoch is found there as it was.
pub advance_epoch-keeps :
    (g : Governance) (epoch id : ℕ) {p : GovernanceProposal}
    → get id g.proposals ≡ some p
    → IsCurrent epoch 100 p
    → get id (advance_epoch g epoch).proposals ≡ some p
unfolding advance_epoch prune_proposals
advance_epoch-keeps g epoch id {p} found current =
    get-keep _ id (expire epoch g.proposals) (get-expire epoch id g.proposals found current)
      (ground arith)
