-- ===== src/Bft/Equivocation/Detection.antt =====
-- node/src/bft.ts, EquivocationDetector.recordVote: which votes are reported.
use coc.Prelude.{
  ℕ, Text, [], some, ◌≡◌, get-insert, nat_eq, text_eq, arith, get, to_lower_case, insert, or_else,
  Option, true, ◌↔◌, ◌≢◌, ◌∷◌, none, refl, Bool-cases, ◌⊎◌, List, inr, Dict, inl, erase, get-erase,
  take, length, ◌-◌, keys, if◌then◌else◌, false, ◌∙◌, ◌==◌, Bool, ◌&&◌,
}
use coc.Bft.Equivocation.{
  EquivocationDetector, VotePhase, phase_eq, existing_vote, with_vote, conflicts, is_nonempty,
  record_vote, EquivocationEvidence, evidence_of, erase_all, store_evidence, prune_old_heights,
  make_room, evict_one, sort_heights,
}

-- Reported exactly if a nonempty hash other than this one is on record for the validator.
pub conflicts_iff :
    (old : Option Text) (hash : Text)
    → (conflicts old hash ≡ true) ↔ ((a : Text) × (old ≡ some a) × (a ≢ []) × (a ≢ hash))
unfolding conflicts is_nonempty
conflicts_iff none hash = ((λ h. ground arith), (λ h. ground arith))
conflicts_iff (some []) hash = ((λ h. ground arith), (λ h. absurd (h.2 (ground arith))))
conflicts_iff (some (c ∷ s)) hash = (
  (λ h. (c ∷ s, refl, (λ e. ground arith), (λ e. ground (arith, text_eq.beq_iff (c ∷ s) hash)))),
  (λ h. ground (arith, text_eq.beq_iff (c ∷ s) hash)),
)

-- A reported vote is a real double vote: the validator has another nonempty hash on record for the
-- same height and phase, and the evidence carries that hash, this one, the normalised id, the
-- height and the phase.
pub record_vote_sound :
    (d : EquivocationDetector) (id : Text) (height : ℕ) (phase : VotePhase) (hash : Text) (now : ℕ)
    {ev : EquivocationEvidence}
    → (record_vote d id height phase hash now).1 ≡ some ev
    → (existing_vote d id height phase ≡ some ev.block_hash1)
      × (ev.block_hash1 ≢ [])
      × (ev.block_hash1 ≢ ev.block_hash2)
      × (ev.block_hash2 ≡ hash)
      × (ev.validator_id ≡ to_lower_case id)
      × (ev.height ≡ height)
      × (ev.phase ≡ phase)
unfolding record_vote
record_vote_sound d id height phase hash now {ev} h =
    elim (Bool-cases (conflicts (existing_vote d id height phase) hash)) [
      | inr quiet ↦ ground arith
      | inl found ↦
          let (old, known, full, ne) =
            (conflicts_iff (existing_vote d id height phase) hash).0 found in
          ground arith
    ]

-- A vote that differs from a nonempty hash on record is always reported, whatever the caps do to the stored evidence.
pub record_vote_complete :
    (d : EquivocationDetector) (id : Text) (height : ℕ) (phase : VotePhase) (old hash : Text)
    (now : ℕ)
    → existing_vote d id height phase ≡ some old
    → old ≢ []
    → old ≢ hash
    → (record_vote d id height phase hash now).1 ≡ some (evidence_of id height phase old hash now)
unfolding record_vote
record_vote_complete d id height phase old hash now known full ne =
    let found = (conflicts_iff (some old) hash).1 (old, refl, full, ne) in rw (known, found)

get-erase_all {ℓ} :
    {V : Type ℓ} (k : ℕ) (ns : List ℕ) (m : Dict ℕ V)
    → (get k (erase_all ns m) ≡ none) ⊎ (get k (erase_all ns m) ≡ get k m)
unfolding erase_all
get-erase_all k [] m = inr refl
get-erase_all k (n ∷ ns) m = ground (arith, get-erase_all k ns (erase n m), get-erase n k m)

store_evidence-votes :
    (d : EquivocationDetector) (id : Text) (ev : EquivocationEvidence)
    → (store_evidence d id ev).votes ≡ d.votes
unfolding store_evidence make_room evict_one
store_evidence-votes d id ev = ground arith

pub prune_old_heights-votes :
    (d : EquivocationDetector) (height : ℕ)
    → (get height (prune_old_heights d).votes ≡ none)
      ⊎ (get height (prune_old_heights d).votes ≡ get height d.votes)
unfolding prune_old_heights
prune_old_heights-votes d height = ground (
  arith,
  get-erase_all height (take (length d.votes - d.max_tracked_heights) (sort_heights (keys d.votes)))
      d.votes,
)

-- A vote that is written is seen in its own place, and nothing else changes.
pub existing_vote-with_vote :
    (d : EquivocationDetector) (id id' : Text) (height height' : ℕ) (phase phase' : VotePhase)
    (hash : Text)
    → existing_vote (with_vote d id' height' phase' hash) id height phase ≡ (
        if height' == height && (phase' == phase && to_lower_case id' == to_lower_case id)
        then some hash
        else existing_vote d id height phase)
unfolding existing_vote with_vote get
existing_vote-with_vote d id id' height height' phase phase' hash =
    let hv = or_else (get height' d.votes) [] in
    let pv = or_else (get phase' hv) [] in
    ground (
      arith,
      get-insert height' height (insert phase' (insert (to_lower_case id') hash pv) hv) d.votes,
      get-insert phase' phase (insert (to_lower_case id') hash pv) hv,
      get-insert (to_lower_case id') (to_lower_case id) hash pv,
      phase_eq.beq_iff phase' phase,
      text_eq.beq_iff (to_lower_case id') (to_lower_case id),
    )

pub existing_vote-cong :
    (d d' : EquivocationDetector) (id : Text) (height : ℕ) (phase : VotePhase)
    → get height d'.votes ≡ get height d.votes
    → existing_vote d' id height phase ≡ existing_vote d id height phase
unfolding existing_vote
existing_vote-cong d d' id height phase same = rw same

-- A vote that does not conflict with the one on record is the same vote.
same_vote : (old hash : Text) → old ≢ [] → conflicts (some old) hash ≡ false → old ≡ hash
same_vote old hash full quiet = elim (Bool-cases (old == hash)) [
  | inl same ↦ (text_eq.beq_iff old hash).0 same
  | inr other ↦ absurd (
      true_not_false
        ((conflicts_iff (some old) hash).1
          (old, refl, full, λ e. true_not_false ((text_eq.beq_iff old hash).1 e) other))
        quiet)
]
  where
    true_not_false : {b : Bool} → b ≡ true → b ≡ false → ⊥
    true_not_false h k = ground arith

with_vote-keeps :
    (d : EquivocationDetector) (id id' : Text) (height height' : ℕ) (phase phase' : VotePhase)
    (old hash : Text)
    → existing_vote d id height phase ≡ some old
    → old ≢ []
    → conflicts (existing_vote d id' height' phase') hash ≡ false
    → existing_vote (with_vote d id' height' phase' hash) id height phase ≡ some old
unfolding existing_vote
with_vote-keeps d id id' height height' phase phase' old hash known full quiet = ground (
  arith,
  existing_vote-with_vote d id id' height height' phase phase' hash,
  same_vote old hash full,
  phase_eq.beq_iff phase' phase,
  text_eq.beq_iff (to_lower_case id') (to_lower_case id),
)

-- A nonempty vote on record is still on record after any one further vote, unless its whole height
-- has been dropped.
pub first_vote_kept :
    (d : EquivocationDetector) (id id' : Text) (height height' : ℕ) (phase phase' : VotePhase)
    (old hash : Text) (now : ℕ)
    → existing_vote d id height phase ≡ some old
    → old ≢ []
    → (get height (record_vote d id' height' phase' hash now).0.votes ≡ none)
      ⊎ (existing_vote (record_vote d id' height' phase' hash now).0 id height phase ≡ some old)
unfolding record_vote existing_vote
first_vote_kept d id id' height height' phase phase' old hash now known full =
    elim (Bool-cases (conflicts (existing_vote d id' height' phase') hash)) [
      | inl found ↦ inr (
          ground (
            arith,
            store_evidence-votes d (to_lower_case id') (
                evidence_of id' height' phase' (or_else (existing_vote d id' height' phase') [])
                  hash now),
          ))
      | inr quiet ↦
          let voted = with_vote d id' height' phase' hash in
          let kept =
            with_vote-keeps d id id' height height' phase phase' old hash known full quiet in
          rw quiet (elim (prune_old_heights-votes voted height) [
            | inl dropped ↦ inl dropped
            | inr same ↦
                inr (existing_vote-cong voted (prune_old_heights voted) id height phase same ∙ kept)
          ])
    ]
