-- ===== src/PenaltyTracker/Examples.antt =====
-- services/dispute/penalty-tracker.ts: a node with 90 points, and the theorems applied to it.
use coc.PenaltyTracker.Ejection.{IsSound, ejected_for_good}
use coc.PenaltyTracker.{
  PenaltyTracker, record_penalty, is_penalized, default_penalty_config, get_or_create_state,
  run_operations, fresh_state, check_thresholds, Operation, with_points, keep_last, is_ejected,
}
use coc.Prelude.{Text, text, arith, ◌∷◌, [], ◌≡◌, get, true, text_beq, insert, refl}

abbrev node : Text
node = text "0xn"

abbrev tracker : PenaltyTracker
tracker = record {
  config = default_penalty_config;
  nodes = (node, record (fresh_state node) { total_points = 90 }) ∷ [];
  ejected_nodes = [];
}

-- A replayed nonce costs twenty points more.
abbrev after_replay : PenaltyTracker
after_replay = record_penalty tracker node 1 7 1_000

replay_ejects : is_ejected after_replay node ≡ true
unfolding record_penalty get_or_create_state check_thresholds with_points keep_last is_ejected get
    text_beq insert
replay_ejects = refl

tracker-IsSound : IsSound tracker
tracker-IsSound = ((λ h. omega arith), tt)

ejected_for_good_example :
    is_penalized (run_operations after_replay (Operation.decay 9_000_000_000 ∷ [])) node 10 ≡ true
ejected_for_good_example =
    ejected_for_good (Operation.decay 9_000_000_000 ∷ []) after_replay node 10 replay_ejects
