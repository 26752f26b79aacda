-- ===== src/Bft/Round/Examples.antt =====
-- node/src/bft.ts: runs of the round and the quorum on three validators, and the theorems applied to them.
use coc.Bft.Quorum.Intersection.{common_voters, quorum_intersection}
use coc.Bft.Round.Agreement.{committers_of_both, BothCommitted, finalized_agree}
use coc.Bft.Round.Stuck.{never_finalizes, AllCommitted}
use coc.Bft.Round.Invariant.{IsValid, run-IsValid}
use coc.Bft.Round.{
  Block, MessageType, run, BftRoundConfig, BftMessage, Event, step, handle_message, handle_propose,
  handle_prepare, handle_commit, new_round, Phase, is_known_validator, BftRound, accept_propose,
  is_validator, record_prepare, check_prepare_quorum, send_commit, matching_voters, record_commit,
  check_commit_quorum,
}
use coc.Prelude.{
  Text, List, text, ◌∷◌, [], ◌≡◌, refl, ◌≢◌, some_of, some, text_beq, inl, to_lower_case, get,
  insert, keep, lower_unit, ◌<◌, contains, ◌*◌, arith, text_eq,
}
use coc.Bft.Quorum.{
  Validator, has_quorum, quorum_threshold, total_stake, accumulated_stake, stake_map,
}

abbrev alice : Text
alice = text "alice"

abbrev bob : Text
bob = text "bob"

abbrev carol : Text
carol = text "carol"

abbrev three : List Validator
three =
    record { id = alice; stake = 40 }
    ∷ record { id = text "Bob"; stake = 30 }
    ∷ record { id = carol; stake = 30 }
    ∷ []

abbrev config_of : Text → BftRoundConfig
config_of id = record {
  validators = three;
  local_id = id;
  prepare_timeout_ms = 10;
  commit_timeout_ms = 20;
}

abbrev block : Block
block = record { number = 5; hash = text "0xaa"; proposer = text "Alice" }

abbrev vote_of : MessageType → Text → BftMessage
vote_of type id = record {
  type = type;
  height = 5;
  block_hash = text "0xaa";
  sender_id = id;
  signature = [];
}

-- At Alice's node: the block, a prepare vote, and a commit vote that makes it final.
abbrev prepared : List Event
prepared =
    Event.block_proposed block alice
    ∷ Event.message_received (vote_of MessageType.prepare (text "BOB"))
    ∷ []

abbrev committed : List Event
committed = Event.message_received (vote_of MessageType.commit carol) ∷ []

abbrev finished : List Event
finished =
    Event.block_proposed block alice
    ∷ Event.message_received (vote_of MessageType.prepare (text "BOB"))
    ∷ Event.message_received (vote_of MessageType.commit carol)
    ∷ []

-- At Bob's node.
abbrev finished_by_bob : List Event
finished_by_bob =
    Event.block_proposed block (text "ALICE")
    ∷ Event.message_received (vote_of MessageType.prepare alice)
    ∷ Event.message_received (vote_of MessageType.commit alice)
    ∷ []

phase_after_prepares : (run (config_of alice) (new_round 5 0) prepared).phase ≡ Phase.commit
unfolding run step handle_message handle_propose handle_prepare handle_commit new_round
    is_known_validator some_of text_beq to_lower_case accept_propose is_validator record_prepare get
    insert check_prepare_quorum has_quorum quorum_threshold total_stake accumulated_stake stake_map
    send_commit matching_voters keep record_commit check_commit_quorum lower_unit
phase_after_prepares = refl

phase_after_commits : (run (config_of alice) (new_round 5 0) finished).phase ≡ Phase.finalized
unfolding run step handle_message handle_propose handle_prepare handle_commit new_round
    is_known_validator some_of text_beq to_lower_case accept_propose is_validator record_prepare get
    insert check_prepare_quorum has_quorum quorum_threshold total_stake accumulated_stake stake_map
    send_commit matching_voters keep record_commit check_commit_quorum lower_unit
phase_after_commits = refl

finalized_agree_example :
    let r = run (config_of alice) (new_round 5 0) finished in
    let s = run (config_of bob) (new_round 5 1) finished_by_bob in
    (total_stake three < 3 * accumulated_stake (committers_of_both r s) three)
    × BothCommitted r s (text "0xaa") (text "0xaa") (committers_of_both r s)
unfolding run step handle_message handle_propose handle_prepare handle_commit new_round
    is_known_validator some_of text_beq to_lower_case accept_propose is_validator record_prepare get
    insert check_prepare_quorum has_quorum quorum_threshold total_stake accumulated_stake stake_map
    send_commit matching_voters keep record_commit check_commit_quorum lower_unit
finalized_agree_example =
    finalized_agree (config_of alice) (config_of bob) 5 5 0 1 finished finished_by_bob {a = block}
      {b = block} refl refl refl refl refl

run-IsValid_example : IsValid (config_of alice) (run (config_of alice) (new_round 5 0) finished)
run-IsValid_example = run-IsValid (config_of alice) 5 0 finished

-- The commits of Alice and Carol, 70 of 100, and of Alice and Bob.
quorum_intersection_example :
    total_stake three
    < 3 * accumulated_stake (common_voters (alice ∷ carol ∷ []) (bob ∷ alice ∷ [])) three
unfolding run step handle_message handle_propose handle_prepare handle_commit new_round
    is_known_validator some_of text_beq to_lower_case accept_propose is_validator record_prepare get
    insert check_prepare_quorum has_quorum quorum_threshold total_stake accumulated_stake stake_map
    send_commit matching_voters keep record_commit check_commit_quorum lower_unit contains
quorum_intersection_example =
    quorum_intersection (alice ∷ carol ∷ []) (bob ∷ alice ∷ []) three (ground arith) (ground arith)
      refl refl

-- An observer: the block, the commits of all three validators, then two prepare votes.
abbrev observed : List Event
observed =
    Event.block_proposed block alice
    ∷ Event.message_received (vote_of MessageType.commit alice)
    ∷ Event.message_received (vote_of MessageType.commit bob)
    ∷ Event.message_received (vote_of MessageType.commit carol)
    ∷ Event.message_received (vote_of MessageType.prepare alice)
    ∷ Event.message_received (vote_of MessageType.prepare bob)
    ∷ []

abbrev stuck : BftRound
stuck = record {
  height = 5;
  phase = Phase.commit;
  proposed_block = some block;
  prepare_votes = (alice, text "0xaa") ∷ (bob, text "0xaa") ∷ [];
  commit_votes = (alice, text "0xaa") ∷ (bob, text "0xaa") ∷ (carol, text "0xaa") ∷ [];
  started_at_ms = 0;
}

observer_is_stuck : run (config_of (text "dave")) (new_round 5 0) observed ≡ stuck
unfolding run step handle_message handle_propose handle_prepare handle_commit new_round
    is_known_validator some_of text_beq to_lower_case accept_propose is_validator record_prepare get
    insert check_prepare_quorum has_quorum quorum_threshold total_stake accumulated_stake stake_map
    send_commit matching_voters keep record_commit check_commit_quorum lower_unit
observer_is_stuck = refl

stuck-AllCommitted : AllCommitted (config_of (text "dave")) stuck
unfolding run step handle_message handle_propose handle_prepare handle_commit new_round
    is_known_validator some_of text_beq to_lower_case accept_propose is_validator record_prepare get
    insert check_prepare_quorum has_quorum quorum_threshold total_stake accumulated_stake stake_map
    send_commit matching_voters keep record_commit check_commit_quorum lower_unit
stuck-AllCommitted id h = ground (
  arith,
  text_eq.beq_iff alice (to_lower_case id),
  text_eq.beq_iff bob (to_lower_case id),
  text_eq.beq_iff carol (to_lower_case id),
)

never_finalizes_example : (run (config_of (text "dave")) stuck committed).phase ≢ Phase.finalized
never_finalizes_example =
    never_finalizes (config_of (text "dave")) committed stuck (inl refl) stuck-AllCommitted
