-- ===== src/ForkChoice/Examples.antt =====
-- node/src/fork-choice.ts: three candidates, and the theorems applied to them.
use coc.ForkChoice.Order.{Beats, won-Beats}
use coc.ForkChoice.Selection.{
  IsOneOf, select_best_fork-order_independent, select_best_fork-unbeaten,
}
use coc.Prelude.{
  text, ◌≡◌, false, true, text_lt, ◌∷◌, to_lower_case, ◌↔◌, [], lower_unit, arith, some, none, All,
  refl,
}
use coc.ForkChoice.{
  ForkCandidate, select_best_fork, should_switch_fork, compare_forks, best_from, break_tie, Side,
}

abbrev tall : ForkCandidate
tall = record {
  height = 12;
  tip_hash = text "0xb";
  bft_finalized = false;
  cumulative_weight = 9;
  peer_id = text "p1";
}

abbrev final : ForkCandidate
final = record {
  height = 10;
  tip_hash = text "0xC";
  bft_finalized = true;
  cumulative_weight = 7;
  peer_id = text "p2";
}

-- As `final`, with a smaller hash.
abbrev rival : ForkCandidate
rival = record {
  height = 10;
  tip_hash = text "0xa";
  bft_finalized = true;
  cumulative_weight = 7;
  peer_id = text "p3";
}

best_of_three : select_best_fork (tall ∷ final ∷ rival ∷ []) ≡ some rival
unfolding select_best_fork best_from compare_forks break_tie text_lt to_lower_case lower_unit
best_of_three = refl

stays_on_equal : should_switch_fork final final ≡ none
unfolding should_switch_fork compare_forks break_tie text_lt to_lower_case lower_unit
stays_on_equal = refl

won-Beats_example : ((compare_forks tall rival).won ≡ Side.second) ↔ Beats rival tall
won-Beats_example = won-Beats tall rival

select_best_fork-unbeaten_example :
    IsOneOf rival (tall ∷ final ∷ rival ∷ [])
    × All (λ c. ¬ Beats c rival) (tall ∷ final ∷ rival ∷ [])
unfolding select_best_fork best_from compare_forks break_tie text_lt to_lower_case lower_unit
select_best_fork-unbeaten_example = select_best_fork-unbeaten (tall ∷ final ∷ rival ∷ []) refl

same_candidates :
    (c : ForkCandidate) → IsOneOf c (tall ∷ rival ∷ []) ↔ IsOneOf c (rival ∷ tall ∷ [])
same_candidates c = ground arith

select_best_fork-order_independent_example : (¬ Beats rival rival) × (¬ Beats rival rival)
unfolding select_best_fork best_from compare_forks break_tie text_lt to_lower_case lower_unit
select_best_fork-order_independent_example =
    select_best_fork-order_independent (tall ∷ rival ∷ []) (rival ∷ tall ∷ []) same_candidates refl
      refl
