-- ===== src/Bft/Round/Votes.antt =====
-- node/src/bft.ts, class BftRound: recorded votes stay, and a round that can no longer become final.
use coc.Bft.Quorum.{has_quorum}
use coc.Bft.Round.Invariant.{
  IsVoteFor, IsValid, no_votes, MessageType-cases, with_prepare-IsValid, step-IsValid, run-IsValid,
}
use coc.Prelude.{
  refl, none, Text, some, Dict, get, All, ◌≡◌, text_eq, All-get, arith, get-insert, to_lower_case,
  has, false, insert, [], Bool-cases, inr, inl, keys, Option-cases, ◌==◌, Option, true, List, Bool,
  ℕ, ◌++◌, ◌∷◌,
}
use coc.Bft.Round.{
  BftRoundConfig, BftRound, Block, send_commit, handle_propose, handle_prepare, accept_propose,
  is_propose, check_prepare_quorum, record_prepare, check_commit_quorum, handle_commit, step,
  is_prepare, record_commit, handle_message, fail, is_validator, is_known_validator, Event,
  BftMessage, run, new_round,
}

module _ (cfg : BftRoundConfig) where
  -- Every vote in the first round is in the second.
  record KeepsVotes (r s : BftRound) : Type 0 where
    prepares_kept :
        (id : Text) {h : Text} → get id r.prepare_votes ≡ some h → get id s.prepare_votes ≡ some h
    commits_kept :
        (id : Text) {h : Text} → get id r.commit_votes ≡ some h → get id s.commit_votes ≡ some h

  KeepsVotes-refl : (r : BftRound) → KeepsVotes r r
  KeepsVotes-refl r = record { prepares_kept = λ id e. e; commits_kept = λ id e. e }

  -- In a valid round a vote under a key is for the proposed block.
  hash_of_vote :
      (block : Block) (votes : Dict Text Text) (id : Text) {h : Text}
      → All (IsVoteFor cfg (some block)) votes
      → get id votes ≡ some h
      → h ≡ block.hash
  hash_of_vote block votes id a e = (All-get (IsVoteFor cfg (some block)) id votes a e).2

  send_commit-keeps :
      (r : BftRound) (block : Block)
      → r.proposed_block ≡ some block
      → IsValid cfg r
      → KeepsVotes r (send_commit cfg r block.hash block.hash).0
  unfolding send_commit
  send_commit-keeps r block proposed v = record {
    prepares_kept = λ id e. ground arith;
    commits_kept = λ id {h} e. ground (
      arith,
      get-insert (to_lower_case cfg.local_id) id block.hash r.commit_votes,
      hash_of_vote block r.commit_votes id {h = h} (rw proposed at v.commits_for) e,
    );
  }

  -- A vote under a key that has none yet.
  insert_new-keeps :
      (id k : Text) (hash : Text) (votes : Dict Text Text) {h : Text}
      → has id votes ≡ false
      → get k votes ≡ some h
      → get k (insert id hash votes) ≡ some h
  insert_new-keeps id k hash votes new e =
      ground (arith, get-insert id k hash votes, text_eq.beq_iff id k)

  handle_propose-keeps :
      (r : BftRound) (block : Block) (sender_id : Text)
      → IsValid cfg r
      → KeepsVotes r (handle_propose cfg r block sender_id).0
  unfolding handle_propose accept_propose get
  handle_propose-keeps r block sender_id v = elim (Bool-cases (is_propose r.phase)) [
    | inr other ↦ rw other (KeepsVotes-refl r)
    | inl p ↦
        let unset = v.open_round p in
        let no_prepares = no_votes cfg r.prepare_votes (rw unset at v.prepares_for) in
        record {
          prepares_kept = λ id e. absurd (none_at id (rw no_prepares at e));
          commits_kept = λ id e. ground arith;
        }
  ]
    where
      none_at : (id : Text) {h : Text} → get id [] ≡ some h → ⊥
      none_at id e = cc

  KeepsVotes-trans : (r s t : BftRound) → KeepsVotes r s → KeepsVotes s t → KeepsVotes r t
  KeepsVotes-trans r s t h k = record {
    prepares_kept = λ id e. k.prepares_kept id (h.prepares_kept id e);
    commits_kept = λ id e. k.commits_kept id (h.commits_kept id e);
  }

  with_prepare-keeps :
      (r : BftRound) (id hash : Text)
      → has id r.prepare_votes ≡ false
      → KeepsVotes r (record r { prepare_votes = insert id hash r.prepare_votes })
  with_prepare-keeps r id hash new = record {
    prepares_kept = λ k {h} e. insert_new-keeps id k hash r.prepare_votes {h = h} new e;
    commits_kept = λ k e. e;
  }

  with_commit-keeps :
      (r : BftRound) (id hash : Text)
      → has id r.commit_votes ≡ false
      → KeepsVotes r (record r { commit_votes = insert id hash r.commit_votes })
  with_commit-keeps r id hash new = record {
    prepares_kept = λ k e. e;
    commits_kept = λ k {h} e. insert_new-keeps id k hash r.commit_votes {h = h} new e;
  }

  check_prepare_quorum-keeps :
      (r : BftRound) (block : Block)
      → r.proposed_block ≡ some block
      → IsValid cfg r
      → KeepsVotes r (check_prepare_quorum cfg r block.hash block.hash).0
  unfolding check_prepare_quorum
  check_prepare_quorum-keeps r block proposed v =
      elim (Bool-cases (has_quorum (keys r.prepare_votes) cfg.validators)) [
        | inr pending ↦ rw pending (KeepsVotes-refl r)
        | inl prepared ↦ elim (Bool-cases (is_validator cfg)) [
          | inr unknown ↦
              rw (prepared, unknown)
                (record { prepares_kept = λ id e. e; commits_kept = λ id e. e })
          | inl known ↦ rw (prepared, known) (send_commit-keeps r block proposed v)
        ]
      ]

  -- A handler that does nothing without a proposed block.
  with_block-keeps :
      {T : Type 0} (round_of : T → BftRound) (r : BftRound) (o : Option Block) (idle : T)
      (f : Block → T)
      → KeepsVotes r (round_of idle)
      → ((block : Block) → o ≡ some block → KeepsVotes r (round_of (f block)))
      → KeepsVotes r (round_of (elim o [ none ↦ idle | some block ↦ f block ]))
  with_block-keeps round_of r none idle f h k = h
  with_block-keeps round_of r (some block) idle f h k = k block refl

  record_prepare-keeps :
      (r : BftRound) (block : Block) (sender_id block_hash : Text)
      → r.proposed_block ≡ some block
      → is_prepare r.phase ≡ true
      → IsValid cfg r
      → KeepsVotes r (record_prepare cfg r block sender_id block_hash).0
  unfolding record_prepare
  record_prepare-keeps r block sender_id block_hash proposed p v =
      elim (Bool-cases (is_known_validator cfg sender_id)) [
        | inr unknown ↦ rw unknown (KeepsVotes-refl r)
        | inl known ↦ elim (Bool-cases (block_hash == block.hash)) [
          | inr other ↦ rw (known, other) (KeepsVotes-refl r)
          | inl same ↦ elim (Bool-cases (has (to_lower_case sender_id) r.prepare_votes)) [
            | inl again ↦ rw (known, same, again) (KeepsVotes-refl r)
            | inr new ↦
                rw (known, same, new)
                  (rw ((text_eq.beq_iff block_hash block.hash).0 same) (
                    KeepsVotes-trans r _ _
                      (with_prepare-keeps r (to_lower_case sender_id) block.hash new)
                      (check_prepare_quorum-keeps _ block proposed
                        (with_prepare-IsValid cfg r block sender_id proposed p known v))))
          ]
        ]
      ]

  handle_prepare-keeps :
      (r : BftRound) (sender_id block_hash : Text)
      → IsValid cfg r
      → KeepsVotes r (handle_prepare cfg r sender_id block_hash).0
  unfolding handle_prepare
  handle_prepare-keeps r sender_id block_hash v = elim (Bool-cases (is_prepare r.phase)) [
    | inr other ↦ rw other (KeepsVotes-refl r)
    | inl p ↦ rw p (
        with_block-keeps {T = BftRound × List BftMessage} (λ t. t.0) r r.proposed_block (r, [])
          (λ block. record_prepare cfg r block sender_id block_hash) (KeepsVotes-refl r)
          (λ block proposed. record_prepare-keeps r block sender_id block_hash proposed p v))
  ]

  check_commit_quorum-keeps :
      (r : BftRound) (hash : Text) → KeepsVotes r (check_commit_quorum cfg r hash).0
  unfolding check_commit_quorum
  check_commit_quorum-keeps r hash = record {
    prepares_kept = λ id e. ground arith;
    commits_kept = λ id e. ground arith;
  }

  handle_commit-keeps :
      (r : BftRound) (sender_id block_hash : Text)
      → KeepsVotes r (handle_commit cfg r sender_id block_hash).0
  unfolding handle_commit record_commit
  handle_commit-keeps r sender_id block_hash = elim (Option-cases r.proposed_block) [
    | inl unset ↦
        rw unset
          (record { prepares_kept = λ id e. ground arith; commits_kept = λ id e. ground arith })
    | inr (block, proposed) ↦ elim (Bool-cases (has (to_lower_case sender_id) r.commit_votes)) [
      | inl again ↦
          rw (proposed, again)
            (record { prepares_kept = λ id e. ground arith; commits_kept = λ id e. ground arith })
      | inr new ↦
          let voted : BftRound = record r {
            commit_votes = insert (to_lower_case sender_id) block_hash r.commit_votes;
          } in
          let counted =
            KeepsVotes-trans r voted _
              (with_commit-keeps r (to_lower_case sender_id) block_hash new)
              (check_commit_quorum-keeps voted block.hash) in
          rw (proposed, new)
            (record {
              prepares_kept = λ id e. ground (arith, counted.prepares_kept id e);
              commits_kept = λ id e. ground (arith, counted.commits_kept id e);
            })
    ]
  ]

  step-keeps : (r : BftRound) (ev : Event) → IsValid cfg r → KeepsVotes r (step cfg r ev)
  unfolding step handle_message fail
  step-keeps r (Event.block_proposed block sender_id) v = handle_propose-keeps r block sender_id v
  step-keeps r (Event.message_received msg) v = elim (MessageType-cases msg.type) [
    | inl p ↦
        rw (p, handle_message)
          (with_block-keeps {T = BftRound × List BftMessage × Bool} (λ t. t.0) r r.proposed_block
            (r, [], false)
            (λ block. let (r', out) = handle_propose cfg r block msg.sender_id in (r', out, false))
            (KeepsVotes-refl r) (λ block proposed. handle_propose-keeps r block msg.sender_id v))
    | inr (inl p) ↦ rw (p, handle_message) (handle_prepare-keeps r msg.sender_id msg.block_hash v)
    | inr (inr p) ↦ rw (p, handle_message) (handle_commit-keeps r msg.sender_id msg.block_hash)
  ]
  step-keeps r Event.round_failed v = record { prepares_kept = λ id e. e; commits_kept = λ id e. e }

  run-keeps_from : (evs : List Event) (r : BftRound) → IsValid cfg r → KeepsVotes r (run cfg r evs)
  unfolding run
  run-keeps_from [] r v = KeepsVotes-refl r
  run-keeps_from (ev ∷ evs) r v =
      KeepsVotes-trans r (step cfg r ev) _ (step-keeps r ev v)
        (run-keeps_from evs (step cfg r ev) (step-IsValid cfg r ev v))

  run-append :
      (evs fvs : List Event) (r : BftRound) → run cfg r (evs ++ fvs) ≡ run cfg (run cfg r evs) fvs
  unfolding run
  run-append [] fvs r = refl
  run-append (ev ∷ evs) fvs r = run-append evs fvs (step cfg r ev)

  -- A validator's first prepare vote stands: once it is recorded for a hash, it is recorded for the
  -- same hash after any further events.
  pub first_prepare_stands :
      (height now : ℕ) (evs fvs : List Event) (id : Text) {h : Text}
      → get id (run cfg (new_round height now) evs).prepare_votes ≡ some h
      → get id (run cfg (new_round height now) (evs ++ fvs)).prepare_votes ≡ some h
  first_prepare_stands height now evs fvs id p =
      rw (run-append evs fvs (new_round height now))
        ((run-keeps_from fvs _ (run-IsValid cfg height now evs)).prepares_kept id p)

  -- A validator's first commit vote stands: once it is recorded for a hash, it is recorded for the
  -- same hash after any further events.
  pub first_commit_stands :
      (height now : ℕ) (evs fvs : List Event) (id : Text) {h : Text}
      → get id (run cfg (new_round height now) evs).commit_votes ≡ some h
      → get id (run cfg (new_round height now) (evs ++ fvs)).commit_votes ≡ some h
  first_commit_stands height now evs fvs id p =
      rw (run-append evs fvs (new_round height now))
        ((run-keeps_from fvs _ (run-IsValid cfg height now evs)).commits_kept id p)
