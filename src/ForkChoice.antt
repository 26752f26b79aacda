-- ===== src/ForkChoice.antt =====
-- node/src/fork-choice.ts: which of two chains wins, and the best of several.
pub mod Order
pub mod Selection
pub mod Examples
use coc.Prelude.{
  ℕ, Text, text_lt, to_lower_case, Bool, true, false, ◌&&◌, not, Option, none, some, List, [], ◌∷◌,
  ltb, if◌then◌else◌, ◌==◌, text_eq,
}

pub record ForkCandidate : Type 0 where
  pub height : ℕ
  pub tip_hash : Text
  pub bft_finalized : Bool
  pub cumulative_weight : ℕ
  pub peer_id : Text

pub data ForkReason : Type 0 where
  bft_finality longer_chain higher_weight lower_hash lower_peer_id equal : ForkReason

-- Which argument won: the winner's and the loser's identity in one.
pub data Side : Type 0 where
  first second : Side

pub record ForkChoice : Type 0 where
  pub winner : ForkCandidate
  pub loser : ForkCandidate
  pub reason : ForkReason
  -- the argument that `winner` is, by reference
  pub won : Side

abbrev first_wins : ForkCandidate → ForkCandidate → ForkReason → ForkChoice
first_wins a b r = record { winner = a; loser = b; reason = r; won = first }

abbrev second_wins : ForkCandidate → ForkCandidate → ForkReason → ForkChoice
second_wins a b r = record { winner = b; loser = a; reason = r; won = second }

-- Rules 4 and 5.
pub break_tie : ForkCandidate → ForkCandidate → ForkChoice
break_tie a b =
    let a_hash = to_lower_case a.tip_hash in
    let b_hash = to_lower_case b.tip_hash in
    if text_lt a_hash b_hash
    then first_wins a b lower_hash
    else if text_lt b_hash a_hash
    then second_wins a b lower_hash
    else if text_lt a.peer_id b.peer_id
    then first_wins a b lower_peer_id
    else if text_lt b.peer_id a.peer_id
    then second_wins a b lower_peer_id
    else first_wins a b equal

pub compare_forks : ForkCandidate → ForkCandidate → ForkChoice
compare_forks a b =
    if a.bft_finalized && not b.bft_finalized
    then first_wins a b bft_finality
    else if b.bft_finalized && not a.bft_finalized
    then second_wins a b bft_finality
    else if ltb b.height a.height
    then first_wins a b longer_chain
    else if ltb a.height b.height
    then second_wins a b longer_chain
    else if ltb b.cumulative_weight a.cumulative_weight
    then first_wins a b higher_weight
    else if ltb a.cumulative_weight b.cumulative_weight
    then second_wins a b higher_weight
    else break_tie a b

-- The loop of selectBestFork.
pub best_from : ForkCandidate → List ForkCandidate → ForkCandidate
best_from best [] = best
best_from best (c ∷ cs) = best_from (compare_forks best c).winner cs

pub select_best_fork : List ForkCandidate → Option ForkCandidate
select_best_fork [] = none
select_best_fork (c ∷ cs) = some (best_from c cs)

is_equal : ForkReason → Bool
is_equal equal = true
is_equal _ = false

is_second : Side → Bool
is_second first = false
is_second second = true

-- `choice.winner === remote` compares references: the two arguments are two objects.
pub should_switch_fork : ForkCandidate → ForkCandidate → Option ForkChoice
unfolding is_equal is_second
should_switch_fork local remote =
    let choice = compare_forks local remote in
    if is_second choice.won && not (is_equal choice.reason) then some choice else none
