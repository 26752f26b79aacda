-- ===== src/Bft/Round/Agreement.antt =====
-- node/src/bft.ts, class BftRound: two nodes that finalise different blocks, and what follows.
use coc.Bft.Quorum.{total_stake, accumulated_stake}
use coc.Bft.Round.Invariant.{IsVoteFor, IsValid, run-IsValid}
use coc.Bft.Quorum.Intersection.{common_voters, quorum_intersection}
use coc.Prelude.{
  ℕ, Text, [], ◌∷◌, some, contains, Dict, get, All, List, ◌≡◌, text_eq, refl, ◌<◌, keys, map, true,
  to_lower_case, arith, ◌*◌, All-of_contains, contains-keep_iff,
}
use coc.Bft.Round.{BftRoundConfig, BftRound, Block, Event, run, Phase, new_round}

-- The voters' keys are already in lower case.
keys_lower :
    (cfg : BftRoundConfig) (block : Block) (votes : Dict Text Text)
    → All (IsVoteFor cfg (some block)) votes
    → map to_lower_case (keys votes) ≡ keys votes
keys_lower cfg block [] h = refl
keys_lower cfg block (v ∷ votes) h = ground (arith, keys_lower cfg block votes h.1)

-- Who is among the voters has voted for the proposed block, under an id in lower case.
vote_of :
    (cfg : BftRoundConfig) (block : Block) (votes : Dict Text Text) (id : Text)
    → All (IsVoteFor cfg (some block)) votes
    → contains id (keys votes) ≡ true
    → (get id votes ≡ some block.hash) × (to_lower_case id ≡ id)
unfolding contains get
vote_of cfg block [] id h c = cc
vote_of cfg block (v ∷ votes) id h c =
    ground (arith, text_eq.beq_iff v.0 id, vote_of cfg block votes id h.1)

-- The validators that have committed to one block in the first round and to another in the second.
abbrev pub BothCommitted : BftRound → BftRound → Text → Text → List Text → Type 0
BothCommitted r s hash_r hash_s =
    All (λ id. (get id r.commit_votes ≡ some hash_r) × (get id s.commit_votes ≡ some hash_s))

abbrev pub committers_of_both : BftRound → BftRound → List Text
committers_of_both r s = common_voters (keys r.commit_votes) (keys s.commit_votes)

module _ (c d : BftRoundConfig) (r s : BftRound) {a b : Block} (same : d.validators ≡ c.validators)
    (vr : IsValid c r) (vs : IsValid d s) (final_r : r.phase ≡ Phase.finalized)
    (final_s : s.phase ≡ Phase.finalized) (block_r : r.proposed_block ≡ some a)
    (block_s : s.proposed_block ≡ some b) where
  votes_r : All (IsVoteFor c (some a)) r.commit_votes
  votes_r = rw block_r at vr.commits_for

  votes_s : All (IsVoteFor d (some b)) s.commit_votes
  votes_s = rw block_s at vs.commits_for

  committers_voted : BothCommitted r s a.hash b.hash (committers_of_both r s)
  unfolding common_voters
  committers_voted = All-of_contains _ (committers_of_both r s) λ id m. ground (
    arith,
    contains-keep_iff id (λ x. contains (to_lower_case x) (map to_lower_case (keys s.commit_votes)))
        (keys r.commit_votes),
    vote_of c a r.commit_votes id votes_r,
    vote_of d b s.commit_votes id votes_s,
    keys_lower d b s.commit_votes votes_s,
  )

  committers_hold :
      total_stake c.validators < 3 * accumulated_stake (committers_of_both r s) c.validators
  committers_hold =
      quorum_intersection (keys r.commit_votes) (keys s.commit_votes) c.validators
        (rw (keys_lower c a r.commit_votes votes_r) vr.commits_distinct)
        (rw (keys_lower d b s.commit_votes votes_s) vs.commits_distinct)
        (rw final_r at vr.decided).1 (rw same at (rw final_s at vs.decided).1)

-- Two rounds with the same validators that both end final, after any events, share validators
-- with more than a third of all stake, each of whom has committed to the block of each round. So
-- where the blocks differ these validators have voted twice, and while double voters hold at most
-- a third of the stake no two nodes finalise different blocks.
pub finalized_agree :
    (c d : BftRoundConfig) (height_r height_s now_r now_s : ℕ) (evs_r evs_s : List Event)
    {a b : Block}
    → d.validators ≡ c.validators
    → (run c (new_round height_r now_r) evs_r).phase ≡ Phase.finalized
    → (run d (new_round height_s now_s) evs_s).phase ≡ Phase.finalized
    → (run c (new_round height_r now_r) evs_r).proposed_block ≡ some a
    → (run d (new_round height_s now_s) evs_s).proposed_block ≡ some b
    → let r = run c (new_round height_r now_r) evs_r in
      let s = run d (new_round height_s now_s) evs_s in
      (total_stake c.validators < 3 * accumulated_stake (committers_of_both r s) c.validators)
      × BothCommitted r s a.hash b.hash (committers_of_both r s)
finalized_agree c d height_r height_s now_r now_s evs_r evs_s same final_r final_s block_r block_s =
    let vr = run-IsValid c height_r now_r evs_r in
    let vs = run-IsValid d height_s now_s evs_s in
    (
      committers_hold c d _ _ same vr vs final_r final_s block_r block_s,
      committers_voted c d _ _ same vr vs final_r final_s block_r block_s,
    )
