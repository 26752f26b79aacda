-- ===== src/Bft/Equivocation.antt =====
-- node/src/bft.ts, class EquivocationDetector: the votes seen per height, phase and validator, and
-- the evidence of double votes, within caps. The clock is an argument.
pub mod Detection
pub mod Sequences
pub mod Caps
pub mod Heights
pub mod Examples
use coc.Prelude.{
  ℕ, ◌+◌, ◌-◌, Text, to_lower_case, text_eq, nat_eq, Eq, Bool, true, false, not, ◌&&◌, List, [],
  ◌∷◌, ◌++◌, foldl, Dict, get, insert, erase, keys, keep, some_of, take, length, or_else, ltb, leb,
  ◌==◌, if◌then◌else◌, Option, none, some, ◌≡◌, ◌↔◌, arith,
}

pub data VotePhase : Type 0 where
  prepare commit : VotePhase

unfoldable pub phase_beq : VotePhase → VotePhase → Bool
phase_beq prepare prepare = true
phase_beq commit commit = true
phase_beq _ _ = false

pub phase_beq_iff : (p q : VotePhase) → (phase_beq p q ≡ true) ↔ (p ≡ q)
unfolding phase_beq
phase_beq_iff p q = ground arith

instance abbrev pub phase_eq : Eq VotePhase
phase_eq = record { beq = phase_beq; beq_iff = phase_beq_iff }

pub record EquivocationEvidence : Type 0 where
  pub validator_id : Text
  pub height : ℕ
  pub phase : VotePhase
  pub block_hash1 : Text
  pub block_hash2 : Text
  pub detected_at_ms : ℕ

pub record EquivocationDetector : Type 0 where
  pub votes : Dict ℕ (Dict VotePhase (Dict Text Text))
  pub evidence : List EquivocationEvidence
  pub evidence_count_by_validator : Dict Text ℕ
  pub max_tracked_heights : ℕ
  pub max_evidence : ℕ
  pub max_evidence_per_validator : ℕ

-- constructor
pub new_detector : ℕ → ℕ → ℕ → EquivocationDetector
new_detector max_tracked_heights max_evidence max_evidence_per_validator = record {
  votes = [];
  evidence = [];
  evidence_count_by_validator = [];
  max_tracked_heights = max_tracked_heights;
  max_evidence = max_evidence;
  max_evidence_per_validator = max_evidence_per_validator;
}

abbrev height_votes : EquivocationDetector → ℕ → Dict VotePhase (Dict Text Text)
height_votes d height = or_else (get height d.votes) []

abbrev phase_votes : EquivocationDetector → ℕ → VotePhase → Dict Text Text
phase_votes d height phase = or_else (get phase (height_votes d height)) []

-- `phaseMap.get(normalizedId)`
unfoldable pub existing_vote : EquivocationDetector → Text → ℕ → VotePhase → Option Text
existing_vote d id height phase = get (to_lower_case id) (phase_votes d height phase)

is_nonempty : Text → Bool
is_nonempty [] = false
is_nonempty (c ∷ s) = true

-- `existingHash && existingHash !== blockHash`: an empty string counts as no vote.
pub conflicts : Option Text → Text → Bool
unfolding is_nonempty
conflicts none hash = false
conflicts (some old) hash = is_nonempty old && not (old == hash)

pub count_of : EquivocationDetector → Text → ℕ
count_of d id = or_else (get id d.evidence_count_by_validator) 0

-- The validator with the most entries, from the voter on.
pub max_validator : Text × ℕ → Dict Text ℕ → Text × ℕ
max_validator best [] = best
max_validator best (e ∷ counts) = max_validator (if ltb best.1 e.1 then e else best) counts

-- `evidence.splice(evictIdx, 1)` at the first entry of the validator
pub remove_first : Text → List EquivocationEvidence → List EquivocationEvidence
remove_first id [] = []
remove_first id (e ∷ es) = if e.validator_id == id then es else e ∷ remove_first id es

pub evict_one : EquivocationDetector → Text → EquivocationDetector
evict_one d id =
    if some_of (λ e. e.validator_id == id) d.evidence
    then record d {
      evidence = remove_first id d.evidence;
      evidence_count_by_validator =
          insert id (or_else (get id d.evidence_count_by_validator) 1 - 1)
            d.evidence_count_by_validator;
    }
    else d

pub make_room : EquivocationDetector → Text → EquivocationDetector
make_room d id =
    if leb d.max_evidence (length d.evidence)
    then evict_one d (max_validator (id, count_of d id) d.evidence_count_by_validator).0
    else d

-- The caps of recordVote: `id` is the normalised id of `ev`.
pub store_evidence : EquivocationDetector → Text → EquivocationEvidence → EquivocationDetector
store_evidence d id ev =
    if leb d.max_evidence_per_validator (count_of d id)
    then d
    else let d' = make_room d id in
      record d' {
        evidence = d'.evidence ++ ev ∷ [];
        evidence_count_by_validator = insert id (count_of d id + 1) d'.evidence_count_by_validator;
      }

-- `[...keys].map(BigInt).sort(...)`
insert_sorted : ℕ → List ℕ → List ℕ
insert_sorted n [] = n ∷ []
insert_sorted n (m ∷ ms) = if ltb m n then m ∷ insert_sorted n ms else n ∷ m ∷ ms

pub sort_heights : List ℕ → List ℕ
unfolding insert_sorted
sort_heights [] = []
sort_heights (n ∷ ns) = insert_sorted n (sort_heights ns)

pub erase_all {ℓ} : {V : Type ℓ} → List ℕ → Dict ℕ V → Dict ℕ V
erase_all [] m = m
erase_all (n ∷ ns) m = erase_all ns (erase n m)

pub prune_old_heights : EquivocationDetector → EquivocationDetector
prune_old_heights d = if leb (length d.votes) d.max_tracked_heights then d else record d {
  votes =
      erase_all (take (length d.votes - d.max_tracked_heights) (sort_heights (keys d.votes)))
        d.votes;
}

pub with_vote : EquivocationDetector → Text → ℕ → VotePhase → Text → EquivocationDetector
with_vote d id height phase hash = record d {
  votes =
      insert height
        (insert phase (insert (to_lower_case id) hash (phase_votes d height phase))
          (height_votes d height))
        d.votes;
}

abbrev pub evidence_of : Text → ℕ → VotePhase → Text → Text → ℕ → EquivocationEvidence
evidence_of id height phase old hash now = record {
  validator_id = to_lower_case id;
  height = height;
  phase = phase;
  block_hash1 = old;
  block_hash2 = hash;
  detected_at_ms = now;
}

pub record_vote :
    EquivocationDetector
    → Text
    → ℕ
    → VotePhase
    → Text
    → ℕ
    → EquivocationDetector × Option EquivocationEvidence
record_vote d validator_id height phase hash now =
    let existing = existing_vote d validator_id height phase in
    let ev = evidence_of validator_id height phase (or_else existing []) hash now in
    if conflicts existing hash
    then (store_evidence d (to_lower_case validator_id) ev, some ev)
    else (prune_old_heights (with_vote d validator_id height phase hash), none)

pub get_evidence_for : EquivocationDetector → Text → List EquivocationEvidence
get_evidence_for d validator_id =
    keep (λ e. e.validator_id == to_lower_case validator_id) d.evidence

discount : ℕ → Dict Text ℕ → EquivocationEvidence → Dict Text ℕ
discount height counts e =
    let cnt = or_else (get e.validator_id counts) 1 in
    if leb height e.height
    then counts
    else if leb cnt 1
    then erase e.validator_id counts
    else insert e.validator_id (cnt - 1) counts

pub clear_evidence_before : EquivocationDetector → ℕ → EquivocationDetector × ℕ
unfolding discount
clear_evidence_before d height =
    let kept = keep (λ e. leb height e.height) d.evidence in
    (
      record d {
        evidence = kept;
        evidence_count_by_validator =
            foldl (discount height) d.evidence_count_by_validator d.evidence;
      },
      length d.evidence - length kept,
    )
