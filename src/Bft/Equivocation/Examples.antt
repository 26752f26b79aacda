-- ===== src/Bft/Equivocation/Examples.antt =====
-- node/src/bft.ts: double votes at the detector, and the theorems applied to them.
use coc.Bft.Equivocation.Sequences.{Vote, KeepsHeight, record_one, record_all, double_vote_reported}
use coc.Bft.Equivocation.Detection.{record_vote_sound, first_vote_kept}
use coc.Bft.Equivocation.Heights.{IsTracked, record_vote-IsTracked}
use coc.Bft.Equivocation.Caps.{IsCovered, entries_of, record_vote-IsCovered}
use coc.Bft.Equivocation.{
  EquivocationDetector, EquivocationEvidence, record_vote, existing_vote, new_detector, VotePhase,
  evidence_of, conflicts, count_of, is_nonempty, phase_beq, with_vote, prune_old_heights, erase_all,
  sort_heights, insert_sorted,
}
use coc.Prelude.{
  List, Text, text, get, arith, ◌∷◌, text_beq, [], to_lower_case, lower_unit, ◌≡◌, some, none,
  insert, ◌≢◌, ◌⊎◌, refl, nat_eq, erase, keys,
}

abbrev eve : Text
eve = text "eve"

abbrev hash_a : Text
hash_a = text "0xa"

abbrev hash_b : Text
hash_b = text "0xb"

-- A store of two entries, of which Eve has the only one.
abbrev small : EquivocationDetector
small = record {
  votes = (7, (VotePhase.prepare, (eve, hash_a) ∷ []) ∷ []) ∷ [];
  evidence = evidence_of eve 6 VotePhase.prepare hash_a hash_b 0 ∷ [];
  evidence_count_by_validator = (eve, 1) ∷ [];
  max_tracked_heights = 2;
  max_evidence = 1;
  max_evidence_per_validator = 5;
}

abbrev reported : EquivocationEvidence
reported = evidence_of (text "EVE") 7 VotePhase.prepare hash_a hash_b 9

double_vote : (record_vote small (text "EVE") 7 VotePhase.prepare hash_b 9).1 ≡ some reported
unfolding record_vote existing_vote conflicts is_nonempty get text_beq to_lower_case lower_unit
    phase_beq
double_vote = refl

-- The oldest tracked height goes.
heights_kept :
    keys
      (record_vote
        (record_vote
          (record_vote (new_detector 2 9 9) eve 3 VotePhase.commit hash_a 0).0
          eve
          4
          VotePhase.commit
          hash_a
          0).0
        eve
        5
        VotePhase.commit
        hash_a
        0).0.votes
    ≡ 4 ∷ 5 ∷ []
unfolding record_vote existing_vote conflicts is_nonempty get text_beq to_lower_case lower_unit
    phase_beq with_vote prune_old_heights insert erase_all sort_heights insert_sorted erase
    new_detector
heights_kept = refl

record_vote_sound_example :
    (existing_vote small (text "EVE") 7 VotePhase.prepare ≡ some hash_a)
    × (hash_a ≢ [])
    × (hash_a ≢ hash_b)
    × (reported.block_hash2 ≡ hash_b)
    × (eve ≡ to_lower_case (text "EVE"))
    × (reported.height ≡ 7)
    × (reported.phase ≡ VotePhase.prepare)
unfolding record_vote existing_vote conflicts is_nonempty get text_beq to_lower_case lower_unit
    phase_beq
record_vote_sound_example =
    record_vote_sound small (text "EVE") 7 VotePhase.prepare hash_b 9 {ev = reported} refl

-- Bob votes for a block, another vote comes, and Bob, now in capitals, votes for another block.
abbrev between : List Vote
between =
    record {
      validator_id = eve;
      height = 8;
      phase = VotePhase.commit;
      block_hash = hash_a;
      now = 4;
    }
    ∷ []

double_vote_reported_example :
    (record_vote
      (record_all (record_vote small (text "bob") 7 VotePhase.prepare hash_a 3).0 between)
      (text "BOB")
      7
      VotePhase.prepare
      hash_b
      9).1
    ≡ some (evidence_of (text "BOB") 7 VotePhase.prepare hash_a hash_b 9)
unfolding record_vote existing_vote conflicts is_nonempty get text_beq to_lower_case lower_unit
    phase_beq with_vote prune_old_heights insert KeepsHeight record_one
double_vote_reported_example =
    double_vote_reported small (text "bob") (text "BOB") 7 VotePhase.prepare hash_a hash_b 3 9
      between refl (ground arith) (ground arith) refl ((λ e. ground arith), (λ e. ground arith))

first_vote_kept_example :
    (get 7 (record_vote small (text "EVE") 7 VotePhase.prepare hash_b 9).0.votes ≡ none)
    ⊎ (existing_vote
          (record_vote small (text "EVE") 7 VotePhase.prepare hash_b 9).0
          eve
          7
          VotePhase.prepare
        ≡ some hash_a)
unfolding existing_vote get text_beq to_lower_case lower_unit phase_beq
first_vote_kept_example =
    first_vote_kept small eve (text "EVE") 7 7 VotePhase.prepare VotePhase.prepare hash_a hash_b 9
      refl (ground arith)

new_detector-IsCovered : IsCovered (new_detector 2 9 9)
unfolding new_detector count_of entries_of get
new_detector-IsCovered = record { covers = λ id. omega arith; capped = λ id. omega arith }

record_vote-IsCovered_example :
    IsCovered (record_vote (new_detector 2 9 9) eve 7 VotePhase.prepare hash_b 9).0
record_vote-IsCovered_example =
    record_vote-IsCovered (new_detector 2 9 9) eve 7 VotePhase.prepare hash_b 9
      new_detector-IsCovered

new_detector-IsTracked : IsTracked (new_detector 2 9 9)
unfolding new_detector
new_detector-IsTracked = record { distinct = tt; within = omega arith }

record_vote-IsTracked_example :
    IsTracked (record_vote (new_detector 2 9 9) eve 7 VotePhase.prepare hash_b 9).0
record_vote-IsTracked_example =
    record_vote-IsTracked (new_detector 2 9 9) eve 7 VotePhase.prepare hash_b 9
      new_detector-IsTracked
