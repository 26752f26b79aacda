-- ===== src/Bft/Round.antt =====
-- node/src/bft.ts, class BftRound: one round of propose, prepare and commit. Votes are Maps from the
-- lower-cased validator id to the block hash; a message's signature is filled in by the coordinator.
pub mod Invariant
pub mod Votes
pub mod Agreement
pub mod Stuck
pub mod Examples
use coc.Prelude.{
  ℕ, ◌+◌, ◌-◌, Text, to_lower_case, text_eq, nat_eq, Bool, true, false, not, ◌||◌, List, [], ◌∷◌,
  Dict, keys, has, get, insert, keep, some_of, is_some, leb, ◌==◌, if◌then◌else◌, Option, none,
  some,
}
use coc.Bft.Quorum.{Validator, has_quorum}

pub data Phase : Type 0 where
  propose prepare commit finalized failed : Phase

pub data MessageType : Type 0 where
  propose prepare commit : MessageType

-- The fields of ChainBlock that the round reads.
pub record Block : Type 0 where
  pub number : ℕ
  pub hash : Text
  pub proposer : Text

pub record BftMessage : Type 0 where
  pub type : MessageType
  pub height : ℕ
  pub block_hash : Text
  pub sender_id : Text
  pub signature : Text

pub record BftRoundConfig : Type 0 where
  pub validators : List Validator
  pub local_id : Text
  pub prepare_timeout_ms : ℕ
  pub commit_timeout_ms : ℕ

pub record BftRound : Type 0 where
  pub height : ℕ
  pub phase : Phase
  pub proposed_block : Option Block
  pub prepare_votes : Dict Text Text
  pub commit_votes : Dict Text Text
  pub started_at_ms : ℕ

abbrev pub is_propose : Phase → Bool
is_propose Phase.propose = true
is_propose _ = false

abbrev pub is_prepare : Phase → Bool
is_prepare Phase.prepare = true
is_prepare _ = false

abbrev pub is_commit : Phase → Bool
is_commit Phase.commit = true
is_commit _ = false

abbrev pub is_finalized : Phase → Bool
is_finalized Phase.finalized = true
is_finalized _ = false

-- constructor
pub new_round : ℕ → ℕ → BftRound
new_round height now = record {
  height = height;
  phase = Phase.propose;
  proposed_block = none;
  prepare_votes = [];
  commit_votes = [];
  started_at_ms = now;
}

pub is_known_validator : BftRoundConfig → Text → Bool
is_known_validator cfg id = some_of (λ v. to_lower_case v.id == to_lower_case id) cfg.validators

pub is_validator : BftRoundConfig → Bool
unfolding is_known_validator
is_validator cfg = is_known_validator cfg cfg.local_id

abbrev vote_message : BftRoundConfig → BftRound → MessageType → Text → BftMessage
vote_message cfg r type hash = record {
  type = type;
  height = r.height;
  block_hash = hash;
  sender_id = cfg.local_id;
  signature = [];
}

-- The part of handlePropose after the guards.
pub accept_propose : BftRoundConfig → BftRound → Block → BftRound × List BftMessage
accept_propose cfg r block =
    let r' : BftRound = record r { proposed_block = some block; phase = Phase.prepare } in
    if is_validator cfg
    then (
      record r' { prepare_votes = insert (to_lower_case cfg.local_id) block.hash r.prepare_votes },
      vote_message cfg r MessageType.prepare block.hash ∷ [],
    )
    else (r', [])

pub handle_propose : BftRoundConfig → BftRound → Block → Text → BftRound × List BftMessage
handle_propose cfg r block sender_id =
    if not (is_propose r.phase)
    then (r, [])
    else if not (block.number == r.height)
    then (r, [])
    else if not (is_known_validator cfg sender_id)
    then (r, [])
    else if not (to_lower_case block.proposer == to_lower_case sender_id)
    then (r, [])
    else accept_propose cfg r block

-- `[...commitVotes.entries()].filter(([, hash]) => hash === proposedHash).map(([id]) => id)`
pub matching_voters : Text → Dict Text Text → List Text
matching_voters hash votes = keys (keep (λ e. e.1 == hash) votes)

-- The part of handlePrepare after the prepare quorum is reached, for a validator.
pub send_commit : BftRoundConfig → BftRound → Text → Text → BftRound × List BftMessage
send_commit cfg r proposed_hash block_hash =
    let commit_votes = insert (to_lower_case cfg.local_id) block_hash r.commit_votes in
    if has_quorum (matching_voters proposed_hash commit_votes) cfg.validators
    then (record r { phase = Phase.finalized; commit_votes = commit_votes }, [])
    else (
      record r { phase = Phase.commit; commit_votes = commit_votes },
      vote_message cfg r MessageType.commit block_hash ∷ [],
    )

-- The part of handlePrepare from the quorum check on; `r` holds the new vote.
pub check_prepare_quorum : BftRoundConfig → BftRound → Text → Text → BftRound × List BftMessage
check_prepare_quorum cfg r proposed_hash block_hash =
    if has_quorum (keys r.prepare_votes) cfg.validators
    then if is_validator cfg
      then send_commit cfg r proposed_hash block_hash
      else (record r { phase = Phase.commit }, [])
    else (r, [])

pub record_prepare : BftRoundConfig → BftRound → Block → Text → Text → BftRound × List BftMessage
record_prepare cfg r block sender_id block_hash =
    if not (is_known_validator cfg sender_id)
    then (r, [])
    else if not (block_hash == block.hash)
    then (r, [])
    else if has (to_lower_case sender_id) r.prepare_votes
    then (r, [])
    else check_prepare_quorum cfg
        (record r { prepare_votes = insert (to_lower_case sender_id) block_hash r.prepare_votes })
        block.hash block_hash

pub handle_prepare : BftRoundConfig → BftRound → Text → Text → BftRound × List BftMessage
handle_prepare cfg r sender_id block_hash =
    if not (is_prepare r.phase) then (r, []) else elim r.proposed_block [
      | none ↦ (r, [])
      | some block ↦ record_prepare cfg r block sender_id block_hash
    ]

-- The part of handleCommit from the quorum check on; `r` holds the new vote.
pub check_commit_quorum : BftRoundConfig → BftRound → Text → BftRound × Bool
check_commit_quorum cfg r proposed_hash =
    if is_commit r.phase
    then if has_quorum (matching_voters proposed_hash r.commit_votes) cfg.validators
      then (record r { phase = Phase.finalized }, true)
      else (r, false)
    else (r, false)

pub record_commit : BftRoundConfig → BftRound → Block → Text → Text → BftRound × Bool
record_commit cfg r block sender_id block_hash =
    if not (block_hash == block.hash)
    then (r, false)
    else if has (to_lower_case sender_id) r.commit_votes
    then (r, false)
    else check_commit_quorum cfg
        (record r { commit_votes = insert (to_lower_case sender_id) block_hash r.commit_votes })
        block.hash

pub handle_commit : BftRoundConfig → BftRound → Text → Text → BftRound × Bool
handle_commit cfg r sender_id block_hash =
    if not (is_commit r.phase || is_prepare r.phase)
    then (r, false)
    else if not (is_known_validator cfg sender_id)
    then (r, false)
    else elim r.proposed_block [
      | none ↦ (r, false)
      | some block ↦ record_commit cfg r block sender_id block_hash
    ]

-- handleMessage: the round, the messages to send, and whether it has become final.
pub handle_message : BftRoundConfig → BftRound → BftMessage → BftRound × List BftMessage × Bool
handle_message cfg r msg = elim msg.type [
  | MessageType.propose ↦ elim r.proposed_block [
    | none ↦ (r, [], false)
    | some block ↦ let (r', out) = handle_propose cfg r block msg.sender_id in (r', out, false)
  ]
  | MessageType.prepare ↦
      let (r', out) = handle_prepare cfg r msg.sender_id msg.block_hash in (r', out, false)
  | MessageType.commit ↦
      let (r', final) = handle_commit cfg r msg.sender_id msg.block_hash in (r', [], final)
]

pub is_timed_out : BftRoundConfig → BftRound → ℕ → Bool
is_timed_out cfg r now =
    let elapsed = now - r.started_at_ms in
    if is_prepare r.phase
    then leb cfg.prepare_timeout_ms elapsed
    else if is_commit r.phase
    then leb (cfg.prepare_timeout_ms + cfg.commit_timeout_ms) elapsed
    else false

pub fail : BftRound → BftRound
fail r = record r { phase = Phase.failed }

-- What can reach a round, in any order and any number.
pub data Event : Type 0 where
  block_proposed : Block → Text → Event
  message_received : BftMessage → Event
  round_failed : Event

pub step : BftRoundConfig → BftRound → Event → BftRound
step cfg r (block_proposed block sender_id) = (handle_propose cfg r block sender_id).0
step cfg r (message_received msg) = (handle_message cfg r msg).0
step cfg r round_failed = fail r

pub run : BftRoundConfig → BftRound → List Event → BftRound
run cfg r [] = r
run cfg r (ev ∷ evs) = run cfg (step cfg r ev) evs
