-- ===== src/Bft/Equivocation/Sequences.antt =====
-- node/src/bft.ts, EquivocationDetector.recordVote: sequences of calls.
use coc.Prelude.{
  ℕ, Text, [], some, ◌≡◌, nat_eq, text_eq, arith, get, to_lower_case, Option, ◌≢◌, ◌∷◌, none, refl,
  List, inr, inl, ap, ◌∙◌, false,
}
use coc.Bft.Equivocation.{
  EquivocationDetector, VotePhase, phase_eq, existing_vote, with_vote, conflicts, record_vote,
  evidence_of, prune_old_heights, EquivocationEvidence,
}
use coc.Bft.Equivocation.Detection.{
  record_vote_complete, first_vote_kept, existing_vote-with_vote, existing_vote-cong,
  prune_old_heights-votes,
}

-- The arguments of a call, and the time at which it is made.
pub record Vote : Type 0 where
  pub validator_id : Text
  pub height : ℕ
  pub phase : VotePhase
  pub block_hash : Text
  pub now : ℕ

unfoldable pub record_one :
    EquivocationDetector → Vote → EquivocationDetector × Option EquivocationEvidence
record_one d v = record_vote d v.validator_id v.height v.phase v.block_hash v.now

unfoldable pub record_all : EquivocationDetector → List Vote → EquivocationDetector
record_all d [] = d
record_all d (v ∷ votes) = record_all (record_one d v).0 votes

-- The height is on record now and after each of the votes.
unfoldable pub KeepsHeight : ℕ → EquivocationDetector → List Vote → Type 0
KeepsHeight height d [] = get height d.votes ≢ none
KeepsHeight height d (v ∷ votes) =
    (get height d.votes ≢ none) × KeepsHeight height (record_one d v).0 votes

KeepsHeight-now :
    (height : ℕ) (d : EquivocationDetector) (votes : List Vote)
    → KeepsHeight height d votes
    → get height d.votes ≢ none
unfolding KeepsHeight
KeepsHeight-now height d [] h = h
KeepsHeight-now height d (v ∷ votes) h = h.0

-- A nonempty vote on record stays there through any votes that do not drop its height.
pub existing_vote-record_all :
    (d : EquivocationDetector) (votes : List Vote) (id : Text) (height : ℕ) (phase : VotePhase)
    (old : Text)
    → existing_vote d id height phase ≡ some old
    → old ≢ []
    → KeepsHeight height d votes
    → existing_vote (record_all d votes) id height phase ≡ some old
unfolding record_all KeepsHeight record_one
existing_vote-record_all d [] id height phase old known full kept = known
existing_vote-record_all d (v ∷ votes) id height phase old known full kept =
    elim (first_vote_kept d id v.validator_id height v.height phase v.phase old v.block_hash v.now
      known full) [
        | inl dropped ↦ absurd (KeepsHeight-now height (record_one d v).0 votes kept.1 dropped)
        | inr still ↦
            existing_vote-record_all (record_one d v).0 votes id height phase old still full kept.1
      ]

-- A first vote is on record after the call, unless its height is dropped at once.
existing_vote-first :
    (d : EquivocationDetector) (id : Text) (height : ℕ) (phase : VotePhase) (old : Text) (seen : ℕ)
    → existing_vote d id height phase ≡ none
    → get height (record_vote d id height phase old seen).0.votes ≢ none
    → existing_vote (record_vote d id height phase old seen).0 id height phase ≡ some old
unfolding record_vote conflicts
existing_vote-first d id height phase old seen fresh kept =
    let voted = with_vote d id height phase old in
    let quiet : conflicts (existing_vote d id height phase) old ≡ false = rw fresh refl in
    let done : (record_vote d id height phase old seen).0 ≡ prune_old_heights voted =
      rw quiet refl in
    let written : existing_vote voted id height phase ≡ some old = ground (
      arith,
      existing_vote-with_vote d id id height height phase phase old,
      phase_eq.beq_iff phase phase,
      text_eq.beq_iff (to_lower_case id) (to_lower_case id),
    ) in
    elim (prune_old_heights-votes voted height) [
      | inl dropped ↦ absurd (kept (ap (λ e. get height e.votes) done ∙ dropped))
      | inr same ↦
          ap (λ e. existing_vote e id height phase) done
          ∙ (existing_vote-cong voted (prune_old_heights voted) id height phase same ∙ written)
    ]

-- A validator that has no vote on record for a height and phase votes for a nonempty hash, any further
-- votes come that do not drop the height, and then it votes for another hash, its id written in
-- any case: the second vote is reported, with both hashes in the evidence.
pub double_vote_reported :
    (d : EquivocationDetector) (id id' : Text) (height : ℕ) (phase : VotePhase) (old hash : Text)
    (seen now : ℕ) (votes : List Vote)
    → existing_vote d id height phase ≡ none
    → old ≢ []
    → old ≢ hash
    → to_lower_case id' ≡ to_lower_case id
    → KeepsHeight height (record_vote d id height phase old seen).0 votes
    → (record_vote
        (record_all (record_vote d id height phase old seen).0 votes)
        id'
        height
        phase
        hash
        now).1
      ≡ some (evidence_of id' height phase old hash now)
unfolding existing_vote
double_vote_reported d id id' height phase old hash seen now votes fresh full other same kept =
    let after = (record_vote d id height phase old seen).0 in
    let first =
      existing_vote-first d id height phase old seen fresh
        (KeepsHeight-now height after votes kept) in
    let known = existing_vote-record_all after votes id height phase old first full kept in
    record_vote_complete (record_all after votes) id' height phase old hash now (rw same known) full
      other
