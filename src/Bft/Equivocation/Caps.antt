-- ===== src/Bft/Equivocation/Caps.antt =====
-- node/src/bft.ts, EquivocationDetector: the caps on stored evidence and the counters behind them.
use coc.Prelude.{
  ℕ, Text, [], ◌∷◌, true, List, ◌≡◌, inl, inr, refl, Bool-cases, get-insert, nat_eq, text_eq, arith,
  get, to_lower_case, if◌then◌else◌, ◌++◌, ◌≤◌, ◌==◌, ◌+◌, some_of, leb, length, or_else, ◌-◌,
}
use coc.Bft.Equivocation.{
  EquivocationDetector, EquivocationEvidence, VotePhase, record_vote, remove_first, evict_one,
  make_room, store_evidence, count_of, max_validator, prune_old_heights, with_vote, conflicts,
  existing_vote,
}

-- How many stored entries are a validator's.
unfoldable pub entries_of : Text → List EquivocationEvidence → ℕ
entries_of id [] = 0
entries_of id (e ∷ es) = (if e.validator_id == id then 1 else 0) + entries_of id es

entries_of-append :
    (id : Text) (es : List EquivocationEvidence) (e : EquivocationEvidence)
    → entries_of id (es ++ e ∷ []) ≡ entries_of id es + (if e.validator_id == id then 1 else 0)
unfolding entries_of
entries_of-append id [] e = omega arith
entries_of-append id (x ∷ es) e = omega (arith, entries_of-append id es e)

-- Where the validator has an entry, one of its entries goes, and no other validator's.
entries_of-remove_first :
    (w id : Text) (es : List EquivocationEvidence)
    → some_of (λ e. e.validator_id == w) es ≡ true
    → entries_of id (remove_first w es) + (if w == id then 1 else 0) ≡ entries_of id es
unfolding entries_of remove_first some_of
entries_of-remove_first w id [] h = cc
entries_of-remove_first w id (e ∷ es) h = ground (
  arith,
  entries_of-remove_first w id es,
  text_eq.beq_iff e.validator_id w,
  text_eq.beq_iff e.validator_id id,
  text_eq.beq_iff w id,
)

pub length-remove_first :
    (w : Text) (es : List EquivocationEvidence)
    → some_of (λ e. e.validator_id == w) es ≡ true
    → length (remove_first w es) + 1 ≡ length es
unfolding remove_first some_of
length-remove_first w [] h = cc
length-remove_first w (e ∷ es) h = ground (arith, length-remove_first w es)

-- The counters cover the entries, and stay within the cap per validator.
pub record IsCovered (d : EquivocationDetector) : Type 0 where
  pub covers : (id : Text) → entries_of id d.evidence ≤ count_of d id
  pub capped : (id : Text) → count_of d id ≤ d.max_evidence_per_validator

evict_one-IsCovered :
    (d : EquivocationDetector) (w : Text) → IsCovered d → IsCovered (evict_one d w)
unfolding evict_one count_of
evict_one-IsCovered d w v = elim (Bool-cases (some_of (λ e. e.validator_id == w) d.evidence)) [
  | inr absent ↦ rw absent v
  | inl present ↦ rw present (record {
    covers = λ id. ground (
      arith,
      entries_of-remove_first w id d.evidence present,
      v.covers id,
      get-insert w id (or_else (get w d.evidence_count_by_validator) 1 - 1)
          d.evidence_count_by_validator,
      text_eq.beq_iff w id,
    );
    capped = λ id. ground (
      arith,
      v.capped id,
      v.capped w,
      v.covers w,
      entries_of-remove_first w w d.evidence present,
      text_eq.beq_iff w w,
      get-insert w id (or_else (get w d.evidence_count_by_validator) 1 - 1)
          d.evidence_count_by_validator,
    );
  })
]

make_room-IsCovered :
    (d : EquivocationDetector) (id : Text) → IsCovered d → IsCovered (make_room d id)
unfolding make_room
make_room-IsCovered d id v = elim (Bool-cases (leb d.max_evidence (length d.evidence))) [
  | inl full ↦ rw full (evict_one-IsCovered d _ v)
  | inr room ↦ rw room v
]

-- Evicting changes no cap, and raises no counter.
make_room-count :
    (d : EquivocationDetector) (id k : Text)
    → IsCovered d
    → (count_of (make_room d id) k ≤ count_of d k)
      × ((make_room d id).max_evidence_per_validator ≡ d.max_evidence_per_validator)
unfolding make_room evict_one count_of
make_room-count d id k v =
    let w = (max_validator (id, count_of d id) d.evidence_count_by_validator).0 in
    ground (
      arith,
      v.covers w,
      entries_of-remove_first w w d.evidence,
      text_eq.beq_iff w w,
      text_eq.beq_iff w k,
      get-insert w k (or_else (get w d.evidence_count_by_validator) 1 - 1)
          d.evidence_count_by_validator,
    )

store_evidence-IsCovered :
    (d : EquivocationDetector) (id : Text) (ev : EquivocationEvidence)
    → ev.validator_id ≡ id
    → IsCovered d
    → IsCovered (store_evidence d id ev)
unfolding store_evidence count_of
store_evidence-IsCovered d id ev own v =
    elim (Bool-cases (leb d.max_evidence_per_validator (count_of d id))) [
      | inl full ↦ rw full v
      | inr room ↦ rw room (record {
        covers = λ k. ground (
          arith,
          (make_room-IsCovered d id v).covers k,
          make_room-count d id k v,
          entries_of-append k (make_room d id).evidence ev,
          get-insert id k (count_of d id + 1) (make_room d id).evidence_count_by_validator,
          text_eq.beq_iff id k,
          text_eq.beq_iff ev.validator_id k,
        );
        capped = λ k. ground (
          arith,
          (make_room-IsCovered d id v).capped k,
          make_room-count d id k v,
          get-insert id k (count_of d id + 1) (make_room d id).evidence_count_by_validator,
        );
      })
    ]

-- Votes and pruning touch neither the evidence nor its counters.
prune-IsCovered : (d : EquivocationDetector) → IsCovered d → IsCovered (prune_old_heights d)
unfolding prune_old_heights count_of
prune-IsCovered d v = record {
  covers = λ k. ground (arith, v.covers k);
  capped = λ k. ground (arith, v.capped k);
}

with_vote-IsCovered :
    (d : EquivocationDetector) (id : Text) (height : ℕ) (phase : VotePhase) (hash : Text)
    → IsCovered d
    → IsCovered (with_vote d id height phase hash)
unfolding with_vote count_of
with_vote-IsCovered d id height phase hash v = record { covers = v.covers; capped = v.capped }

-- A recorded vote keeps the counters at or above the entries stored and within the cap per
-- validator, where they were before; so no validator ever has more stored evidence than its cap.
pub record_vote-IsCovered :
    (d : EquivocationDetector) (id : Text) (height : ℕ) (phase : VotePhase) (hash : Text) (now : ℕ)
    → IsCovered d
    → IsCovered (record_vote d id height phase hash now).0
unfolding record_vote
record_vote-IsCovered d id height phase hash now v =
    elim (Bool-cases (conflicts (existing_vote d id height phase) hash)) [
      | inl found ↦ rw found (store_evidence-IsCovered d (to_lower_case id) _ refl v)
      | inr quiet ↦ rw quiet (prune-IsCovered _ (with_vote-IsCovered d id height phase hash v))
    ]
