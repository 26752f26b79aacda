-- ===== src/Bft/Round/Stuck.antt =====
-- node/src/bft.ts, class BftRound: a round in its commit phase that counts no more votes. An
-- observer's handlePrepare enters the commit phase without a look at the commits that came early.
use coc.Prelude.{
  Text, [], ◌∷◌, true, List, ◌≡◌, inr, refl, ◌⊎◌, has, arith, to_lower_case, ◌≢◌, text_eq,
}
use coc.Bft.Round.{
  BftRoundConfig, BftRound, is_known_validator, Phase, handle_commit, handle_prepare,
  handle_propose, step, run, record_commit, Block, handle_message, Event, fail,
}

module _ (cfg : BftRoundConfig) where
  -- Every known validator's commit is recorded.
  abbrev pub AllCommitted : BftRound → Type 0
  AllCommitted r =
      (id : Text) → is_known_validator cfg id ≡ true → has (to_lower_case id) r.commit_votes ≡ true

  -- In its commit phase, or failed since.
  abbrev pub IsStuck : BftRound → BftRound → Type 0
  IsStuck r s =
      ((s.phase ≡ Phase.commit) ⊎ (s.phase ≡ Phase.failed)) × (s.commit_votes ≡ r.commit_votes)

  handle_commit-IsStuck :
      (r : BftRound) (sender_id block_hash : Text)
      → (r.phase ≡ Phase.commit) ⊎ (r.phase ≡ Phase.failed)
      → AllCommitted r
      → IsStuck r (handle_commit cfg r sender_id block_hash).0
  unfolding handle_commit record_commit
  handle_commit-IsStuck r sender_id block_hash p h = ground (arith, h sender_id)

  handle_prepare-IsStuck :
      (r : BftRound) (sender_id block_hash : Text)
      → (r.phase ≡ Phase.commit) ⊎ (r.phase ≡ Phase.failed)
      → IsStuck r (handle_prepare cfg r sender_id block_hash).0
  unfolding handle_prepare
  handle_prepare-IsStuck r sender_id block_hash p = ground arith

  handle_propose-IsStuck :
      (r : BftRound) (block : Block) (sender_id : Text)
      → (r.phase ≡ Phase.commit) ⊎ (r.phase ≡ Phase.failed)
      → IsStuck r (handle_propose cfg r block sender_id).0
  unfolding handle_propose
  handle_propose-IsStuck r block sender_id p = ground arith

  step-IsStuck :
      (r : BftRound) (ev : Event)
      → (r.phase ≡ Phase.commit) ⊎ (r.phase ≡ Phase.failed)
      → AllCommitted r
      → IsStuck r (step cfg r ev)
  unfolding step handle_message fail
  step-IsStuck r (Event.block_proposed block sender_id) p h =
      handle_propose-IsStuck r block sender_id p
  step-IsStuck r (Event.message_received msg) p h = grind (
    arith,
    handle_propose-IsStuck,
    handle_prepare-IsStuck r msg.sender_id msg.block_hash p,
    handle_commit-IsStuck r msg.sender_id msg.block_hash p h,
  )
  step-IsStuck r Event.round_failed p h = (inr refl, refl)

  -- A round in its commit phase, or failed, that has a commit of every known validator never becomes final,
  -- whatever reaches it: each further commit is a duplicate, and only a new one has the quorum
  -- counted.
  pub never_finalizes :
      (evs : List Event) (r : BftRound)
      → (r.phase ≡ Phase.commit) ⊎ (r.phase ≡ Phase.failed)
      → AllCommitted r
      → (run cfg r evs).phase ≢ Phase.finalized
  unfolding run
  never_finalizes [] r p h = λ e. ground arith
  never_finalizes (ev ∷ evs) r p h =
      let (q, same) = step-IsStuck r ev p h in
      never_finalizes evs (step cfg r ev) q (λ id known. rw same (h id known))
