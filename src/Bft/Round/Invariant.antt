-- ===== src/Bft/Round/Invariant.antt =====
-- node/src/bft.ts, class BftRound: what holds of a round at all times.
use coc.Prelude.{
  Option-cases, Bool-cases, inl, inr, contains, ℕ, Text, to_lower_case, to_lower_case_idem, text_eq,
  nat_eq, true, [], ◌∷◌, Dict, keys, insert, keep, Option, none, some, ◌≡◌, refl, All, All-insert,
  Distinct, insert-Distinct, arith, ◌==◌, List, has, false, ◌⊎◌,
}
use coc.Bft.Quorum.{has_quorum}
use coc.Bft.Round.{
  Phase, Block, BftRoundConfig, BftRound, is_propose, new_round, is_known_validator, is_validator,
  accept_propose, handle_propose, matching_voters, send_commit, check_prepare_quorum, is_prepare,
  record_prepare, handle_prepare, check_commit_quorum, is_commit, is_finalized, record_commit,
  handle_commit, handle_message, step, run, BftMessage, fail, Event, MessageType,
}

-- A recorded vote: a known validator's lower-cased id, for the proposed block.
abbrev pub IsVoteFor : BftRoundConfig → Option Block → Text × Text → Type 0
IsVoteFor cfg none vote = ⊥
IsVoteFor cfg (some block) vote =
    (is_known_validator cfg vote.0 ≡ true) × (to_lower_case vote.0 ≡ vote.0) × (vote.1 ≡ block.hash)

-- Reached commit: a quorum prepared. Reached final: a quorum committed too.
abbrev pub HasDecided : BftRoundConfig → Phase → Dict Text Text → Dict Text Text → Type 0
HasDecided cfg Phase.commit prepares commits = has_quorum (keys prepares) cfg.validators ≡ true
HasDecided cfg Phase.finalized prepares commits =
    (has_quorum (keys prepares) cfg.validators ≡ true)
    × (has_quorum (keys commits) cfg.validators ≡ true)
HasDecided cfg _ prepares commits = Unit

pub record IsValid (cfg : BftRoundConfig) (r : BftRound) : Type 0 where
  pub prepares_for : All (IsVoteFor cfg r.proposed_block) r.prepare_votes
  pub commits_for : All (IsVoteFor cfg r.proposed_block) r.commit_votes
  pub prepares_distinct : Distinct (keys r.prepare_votes)
  pub commits_distinct : Distinct (keys r.commit_votes)
  pub open_round : is_propose r.phase ≡ true → r.proposed_block ≡ none
  pub decided : HasDecided cfg r.phase r.prepare_votes r.commit_votes

pub new_round-IsValid : (cfg : BftRoundConfig) (height now : ℕ) → IsValid cfg (new_round height now)
unfolding new_round
new_round-IsValid cfg height now = record {
  prepares_for = tt;
  commits_for = tt;
  prepares_distinct = tt;
  commits_distinct = tt;
  open_round = λ _. refl;
  decided = tt;
}

pub no_votes :
    (cfg : BftRoundConfig) (votes : Dict Text Text) → All (IsVoteFor cfg none) votes → votes ≡ []
no_votes cfg [] h = refl
no_votes cfg (v ∷ votes) h = absurd h.0

is_known_validator-lower :
    (cfg : BftRoundConfig) (id : Text)
    → is_known_validator cfg id ≡ true
    → is_known_validator cfg (to_lower_case id) ≡ true
unfolding is_known_validator
is_known_validator-lower cfg id h = rw (to_lower_case_idem id) h

-- All recorded votes are for the proposed block, so the filter by hash keeps them all.
pub matching_voters-All :
    (cfg : BftRoundConfig) (block : Block) (votes : Dict Text Text)
    → All (IsVoteFor cfg (some block)) votes
    → matching_voters block.hash votes ≡ keys votes
unfolding matching_voters keep
matching_voters-All cfg block [] h = refl
matching_voters-All cfg block (v ∷ votes) h =
    ground (arith, text_eq.beq_iff v.1 block.hash, matching_voters-All cfg block votes h.1)

pub MessageType-cases :
    (t : MessageType)
    → (t ≡ MessageType.propose) ⊎ ((t ≡ MessageType.prepare) ⊎ (t ≡ MessageType.commit))
MessageType-cases MessageType.propose = inl refl
MessageType-cases MessageType.prepare = inr (inl refl)
MessageType-cases MessageType.commit = inr (inr refl)

module _ (cfg : BftRoundConfig) where
  -- A new vote of a known validator for the proposed block.
  add_vote :
      (id : Text) (block : Block) (votes : Dict Text Text)
      → is_known_validator cfg id ≡ true
      → All (IsVoteFor cfg (some block)) votes
      → All (IsVoteFor cfg (some block)) (insert (to_lower_case id) block.hash votes)
  add_vote id block votes known h =
      All-insert (IsVoteFor cfg (some block)) (to_lower_case id) block.hash votes
        (is_known_validator-lower cfg id known, to_lower_case_idem id, refl) h

  accept_propose-IsValid :
      (r : BftRound) (block : Block)
      → is_propose r.phase ≡ true
      → IsValid cfg r
      → IsValid cfg (accept_propose cfg r block).0
  unfolding accept_propose is_validator insert contains
  accept_propose-IsValid r block p v =
      let unset = v.open_round p in
      let no_prepares = no_votes cfg r.prepare_votes (rw unset at v.prepares_for) in
      let no_commits = no_votes cfg r.commit_votes (rw unset at v.commits_for) in
      elim (Bool-cases (is_known_validator cfg cfg.local_id)) [
        | inl known ↦
            rw (known, no_prepares, no_commits)
              (record {
                prepares_for = add_vote cfg.local_id block [] known tt;
                commits_for = tt;
                prepares_distinct = (refl, tt);
                commits_distinct = tt;
                open_round = λ h. cc;
                decided = tt;
              })
        | inr unknown ↦
            rw (unknown, no_prepares, no_commits)
              (record {
                prepares_for = tt;
                commits_for = tt;
                prepares_distinct = tt;
                commits_distinct = tt;
                open_round = λ h. cc;
                decided = tt;
              })
      ]

  handle_propose-IsValid :
      (r : BftRound) (block : Block) (sender_id : Text)
      → IsValid cfg r
      → IsValid cfg (handle_propose cfg r block sender_id).0
  unfolding handle_propose
  handle_propose-IsValid r block sender_id v = ground (arith, accept_propose-IsValid r block)

  send_commit-IsValid :
      (r : BftRound) (block : Block)
      → r.proposed_block ≡ some block
      → is_validator cfg ≡ true
      → has_quorum (keys r.prepare_votes) cfg.validators ≡ true
      → IsValid cfg r
      → IsValid cfg (send_commit cfg r block.hash block.hash).0
  unfolding send_commit is_validator
  send_commit-IsValid r block proposed known prepared v =
      let id = to_lower_case cfg.local_id in
      let commits =
        add_vote cfg.local_id block r.commit_votes known (rw proposed at v.commits_for) in
      let distinct = insert-Distinct id block.hash r.commit_votes v.commits_distinct in
      rw (matching_voters-All cfg block (insert id block.hash r.commit_votes) commits)
        (elim (Bool-cases
          (has_quorum (keys (insert id block.hash r.commit_votes)) cfg.validators)) [
            | inl final ↦ rw final (record {
              prepares_for = v.prepares_for;
              commits_for = rw proposed commits;
              prepares_distinct = v.prepares_distinct;
              commits_distinct = distinct;
              open_round = λ h. cc;
              decided = (prepared, final);
            })
            | inr pending ↦ rw pending (record {
              prepares_for = v.prepares_for;
              commits_for = rw proposed commits;
              prepares_distinct = v.prepares_distinct;
              commits_distinct = distinct;
              open_round = λ h. cc;
              decided = prepared;
            })
          ])

  check_prepare_quorum-IsValid :
      (r : BftRound) (block : Block)
      → r.proposed_block ≡ some block
      → is_prepare r.phase ≡ true
      → IsValid cfg r
      → IsValid cfg (check_prepare_quorum cfg r block.hash block.hash).0
  unfolding check_prepare_quorum
  check_prepare_quorum-IsValid r block proposed p v =
      elim (Bool-cases (has_quorum (keys r.prepare_votes) cfg.validators)) [
        | inl prepared ↦ elim (Bool-cases (is_validator cfg)) [
          | inl known ↦ rw (prepared, known) (send_commit-IsValid r block proposed known prepared v)
          | inr unknown ↦
              rw (prepared, unknown)
                (record {
                  prepares_for = v.prepares_for;
                  commits_for = v.commits_for;
                  prepares_distinct = v.prepares_distinct;
                  commits_distinct = v.commits_distinct;
                  open_round = λ h. cc;
                  decided = prepared;
                })
        ]
        | inr pending ↦ rw pending v
      ]

  -- Adding a prepare vote to a round in its prepare phase.
  pub with_prepare-IsValid :
      (r : BftRound) (block : Block) (id : Text)
      → r.proposed_block ≡ some block
      → is_prepare r.phase ≡ true
      → is_known_validator cfg id ≡ true
      → IsValid cfg r
      → IsValid cfg
          (record r { prepare_votes = insert (to_lower_case id) block.hash r.prepare_votes })
  with_prepare-IsValid r block id proposed p known v = record {
    prepares_for =
        rw proposed (add_vote id block r.prepare_votes known (rw proposed at v.prepares_for));
    commits_for = v.commits_for;
    prepares_distinct =
        insert-Distinct (to_lower_case id) block.hash r.prepare_votes v.prepares_distinct;
    commits_distinct = v.commits_distinct;
    open_round = v.open_round;
    decided = ground arith;
  }

  record_prepare-IsValid :
      (r : BftRound) (block : Block) (sender_id block_hash : Text)
      → r.proposed_block ≡ some block
      → is_prepare r.phase ≡ true
      → IsValid cfg r
      → IsValid cfg (record_prepare cfg r block sender_id block_hash).0
  unfolding record_prepare
  record_prepare-IsValid r block sender_id block_hash proposed p v =
      elim (Bool-cases (is_known_validator cfg sender_id)) [
        | inr unknown ↦ rw unknown v
        | inl known ↦ elim (Bool-cases (block_hash == block.hash)) [
          | inr other ↦ rw (known, other) v
          | inl same ↦ elim (Bool-cases (has (to_lower_case sender_id) r.prepare_votes)) [
            | inl again ↦ rw (known, same, again) v
            | inr new ↦
                rw (known, same, new)
                  (rw ((text_eq.beq_iff block_hash block.hash).0 same) (
                    check_prepare_quorum-IsValid _ block proposed p
                      (with_prepare-IsValid r block sender_id proposed p known v)))
          ]
        ]
      ]

  handle_prepare-IsValid :
      (r : BftRound) (sender_id block_hash : Text)
      → IsValid cfg r
      → IsValid cfg (handle_prepare cfg r sender_id block_hash).0
  unfolding handle_prepare
  handle_prepare-IsValid r sender_id block_hash v = elim (Bool-cases (is_prepare r.phase)) [
    | inr other ↦ rw other v
    | inl p ↦ elim (Option-cases r.proposed_block) [
      | inl unset ↦ rw (p, unset) v
      | inr (block, proposed) ↦
          ground (arith, record_prepare-IsValid r block sender_id block_hash proposed p v)
    ]
  ]

  check_commit_quorum-IsValid :
      (r : BftRound) (block : Block)
      → r.proposed_block ≡ some block
      → IsValid cfg r
      → IsValid cfg (check_commit_quorum cfg r block.hash).0
  unfolding check_commit_quorum
  check_commit_quorum-IsValid r block proposed v =
      rw (matching_voters-All cfg block r.commit_votes (rw proposed at v.commits_for))
        (elim (Bool-cases (is_commit r.phase)) [
          | inr other ↦ rw other v
          | inl c ↦ elim (Bool-cases (has_quorum (keys r.commit_votes) cfg.validators)) [
            | inr pending ↦ rw (c, pending) v
            | inl final ↦
                rw (c, final)
                  (record {
                    prepares_for = v.prepares_for;
                    commits_for = v.commits_for;
                    prepares_distinct = v.prepares_distinct;
                    commits_distinct = v.commits_distinct;
                    open_round = λ h. cc;
                    decided = ground arith;
                  })
          ]
        ])

  pub with_commit-IsValid :
      (r : BftRound) (block : Block) (id : Text)
      → r.proposed_block ≡ some block
      → is_finalized r.phase ≡ false
      → is_known_validator cfg id ≡ true
      → IsValid cfg r
      → IsValid cfg
          (record r { commit_votes = insert (to_lower_case id) block.hash r.commit_votes })
  with_commit-IsValid r block id proposed p known v = record {
    prepares_for = v.prepares_for;
    commits_for =
        rw proposed (add_vote id block r.commit_votes known (rw proposed at v.commits_for));
    prepares_distinct = v.prepares_distinct;
    commits_distinct =
        insert-Distinct (to_lower_case id) block.hash r.commit_votes v.commits_distinct;
    open_round = v.open_round;
    decided = ground arith;
  }

  record_commit-IsValid :
      (r : BftRound) (block : Block) (sender_id block_hash : Text)
      → r.proposed_block ≡ some block
      → is_finalized r.phase ≡ false
      → is_known_validator cfg sender_id ≡ true
      → IsValid cfg r
      → IsValid cfg (record_commit cfg r block sender_id block_hash).0
  unfolding record_commit
  record_commit-IsValid r block sender_id block_hash proposed p known v =
      elim (Bool-cases (block_hash == block.hash)) [
        | inr other ↦ rw other v
        | inl same ↦ elim (Bool-cases (has (to_lower_case sender_id) r.commit_votes)) [
          | inl again ↦ rw (same, again) v
          | inr new ↦
              rw (same, new)
                (rw ((text_eq.beq_iff block_hash block.hash).0 same) (
                  check_commit_quorum-IsValid _ block proposed
                    (with_commit-IsValid r block sender_id proposed p known v)))
        ]
      ]

  handle_commit-IsValid :
      (r : BftRound) (sender_id block_hash : Text)
      → IsValid cfg r
      → IsValid cfg (handle_commit cfg r sender_id block_hash).0
  unfolding handle_commit
  handle_commit-IsValid r sender_id block_hash v = elim (Option-cases r.proposed_block) [
    | inl unset ↦ rw unset (ground arith)
    | inr (block, proposed) ↦
        ground (arith, record_commit-IsValid r block sender_id block_hash proposed)
  ]

  handle_message-IsValid :
      (r : BftRound) (msg : BftMessage) → IsValid cfg r → IsValid cfg (handle_message cfg r msg).0
  unfolding handle_message
  handle_message-IsValid r msg v = elim (MessageType-cases msg.type) [
    | inl p ↦ elim (Option-cases r.proposed_block) [
      | inl unset ↦ rw (p, unset, handle_message) v
      | inr (block, proposed) ↦
          rw (p, proposed, handle_message) (handle_propose-IsValid r block msg.sender_id v)
    ]
    | inr (inl p) ↦ rw (p, handle_message) (handle_prepare-IsValid r msg.sender_id msg.block_hash v)
    | inr (inr p) ↦ rw (p, handle_message) (handle_commit-IsValid r msg.sender_id msg.block_hash v)
  ]

  pub step-IsValid : (r : BftRound) (ev : Event) → IsValid cfg r → IsValid cfg (step cfg r ev)
  unfolding step fail
  step-IsValid r (Event.block_proposed block sender_id) v =
      handle_propose-IsValid r block sender_id v
  step-IsValid r (Event.message_received msg) v = handle_message-IsValid r msg v
  step-IsValid r Event.round_failed v = record {
    prepares_for = v.prepares_for;
    commits_for = v.commits_for;
    prepares_distinct = v.prepares_distinct;
    commits_distinct = v.commits_distinct;
    open_round = λ h. cc;
    decided = tt;
  }

  run-IsValid_from : (evs : List Event) (r : BftRound) → IsValid cfg r → IsValid cfg (run cfg r evs)
  unfolding run
  run-IsValid_from [] r v = v
  run-IsValid_from (ev ∷ evs) r v = run-IsValid_from evs (step cfg r ev) (step-IsValid r ev v)

  -- Whatever reaches a round, in whatever order: every recorded vote is one known validator's, in
  -- lower case, for the proposed block, and no validator has two in one phase; a round in its
  -- commit phase holds a quorum of prepare votes, and a final round a quorum of both kinds.
  pub run-IsValid :
      (height now : ℕ) (evs : List Event) → IsValid cfg (run cfg (new_round height now) evs)
  run-IsValid height now evs =
      run-IsValid_from evs (new_round height now) (new_round-IsValid cfg height now)
