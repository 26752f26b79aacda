-- ===== src/ForkChoice/Selection.antt =====
-- node/src/fork-choice.ts, selectBestFork and shouldSwitchFork: the best of several candidates.

use mathlib.Core.Path.{subst}
use coc.Prelude.{
  to_lower_case, true, false, some, List, [], ◌∷◌, text_eq, ◌≡◌, refl, ◌⊎◌, inl, inr, arith, All,
  text_lt_connected, is_some, ◌↔◌,
}
use coc.ForkChoice.{
  is_equal, is_second, ForkCandidate, ForkChoice, Side, compare_forks, break_tie, best_from,
  select_best_fork, should_switch_fork,
}
use coc.ForkChoice.Order.{Beats, won-Beats, Beats-trans, Beats-irrefl, Beats-weak}

-- A member of the list, by place.
abbrev pub IsOneOf : ForkCandidate → List ForkCandidate → Type 0
IsOneOf c [] = ⊥
IsOneOf c (x ∷ xs) = (c ≡ x) ⊎ IsOneOf c xs

Side-cases : (s : Side) → (s ≡ Side.first) ⊎ (s ≡ Side.second)
Side-cases Side.first = inl refl
Side-cases Side.second = inr refl

-- The winner is the argument that `won` names, and the loser is the other.
winner-won :
    (a b : ForkCandidate)
    → ((compare_forks a b).winner ≡ a) × ((compare_forks a b).won ≡ Side.first)
      ⊎ ((compare_forks a b).winner ≡ b) × ((compare_forks a b).won ≡ Side.second)
unfolding compare_forks break_tie
winner-won a b = ground arith

-- The winner of two is beaten by neither.
winner-unbeaten :
    (a b : ForkCandidate)
    → (¬ Beats a (compare_forks a b).winner) × (¬ Beats b (compare_forks a b).winner)
winner-unbeaten a b = elim (winner-won a b) [
  | inl (w, s) ↦ rw w (Beats-irrefl a, λ h. ground (arith, won-Beats a b))
  | inr (w, s) ↦
      rw w (λ h. Beats-irrefl a (Beats-trans a b a h ((won-Beats a b).0 s)), Beats-irrefl b)
]

-- What does not beat one candidate does not beat a better one.
unbeaten_trans : (a b c : ForkCandidate) → ¬ Beats a b → ¬ Beats b c → ¬ Beats a c
unbeaten_trans a b c h k d = elim (Beats-weak a b c d) [ inl p ↦ h p | inr p ↦ k p ]

winner-IsOneOf :
    (r a b : ForkCandidate) (cs : List ForkCandidate)
    → IsOneOf r ((compare_forks a b).winner ∷ cs)
    → IsOneOf r (a ∷ b ∷ cs)
winner-IsOneOf r a b cs h = elim (winner-won a b) [
  | inl (w, s) ↦ ground arith
  | inr (w, s) ↦ ground arith
]

-- The loop keeps a candidate that it has seen, and that none of those beats.
best_from-unbeaten :
    (best : ForkCandidate) (cs : List ForkCandidate)
    → IsOneOf (best_from best cs) (best ∷ cs) × All (λ c. ¬ Beats c (best_from best cs)) (best ∷ cs)
unfolding best_from
best_from-unbeaten best [] = (inl refl, (Beats-irrefl best, tt))
best_from-unbeaten best (c ∷ cs) =
    let w = (compare_forks best c).winner in
    let (seen, (top, rest)) = best_from-unbeaten w cs in
    let (one, other) = winner-unbeaten best c in
    (
      winner-IsOneOf _ best c cs seen,
      (unbeaten_trans best w _ one top, (unbeaten_trans c w _ other top, rest)),
    )

-- The selected chain is one of the candidates, and none of the candidates beats it.
pub select_best_fork-unbeaten :
    (cs : List ForkCandidate) {r : ForkCandidate}
    → select_best_fork cs ≡ some r
    → IsOneOf r cs × All (λ c. ¬ Beats c r) cs
unfolding select_best_fork
select_best_fork-unbeaten [] h = cc
select_best_fork-unbeaten (c ∷ cs) {r} h =
    let e : best_from c cs ≡ r = cc in
    subst (λ z. IsOneOf z (c ∷ cs) × All (λ d. ¬ Beats d z) (c ∷ cs)) e (best_from-unbeaten c cs)

All-IsOneOf {ℓ} :
    (P : ForkCandidate → Type ℓ) (c : ForkCandidate) (cs : List ForkCandidate)
    → All P cs
    → IsOneOf c cs
    → P c
All-IsOneOf P c [] h m = elim m [ ]
All-IsOneOf P c (x ∷ xs) h (inl e) = rw e h.0
All-IsOneOf P c (x ∷ xs) h (inr m) = All-IsOneOf P c xs h.1 m

-- Two nodes that know the same candidates, in whatever order, select chains of which neither
-- beats the other.
pub select_best_fork-order_independent :
    (xs ys : List ForkCandidate) {r s : ForkCandidate}
    → ((c : ForkCandidate) → IsOneOf c xs ↔ IsOneOf c ys)
    → select_best_fork xs ≡ some r
    → select_best_fork ys ≡ some s
    → (¬ Beats r s) × (¬ Beats s r)
select_best_fork-order_independent xs ys {r} {s} same hr hs =
    let (r_in, r_top) = select_best_fork-unbeaten xs hr in
    let (s_in, s_top) = select_best_fork-unbeaten ys hs in
    (
      All-IsOneOf (λ c. ¬ Beats c s) r ys s_top ((same r).0 r_in),
      All-IsOneOf (λ c. ¬ Beats c r) s xs r_top ((same s).1 s_in),
    )

-- Two chains of which neither beats the other agree in every field that the rules read.
pub unbeaten_agree :
    (r s : ForkCandidate)
    → ¬ Beats r s
    → ¬ Beats s r
    → (r.bft_finalized ≡ s.bft_finalized)
      × (r.height ≡ s.height)
      × (r.cumulative_weight ≡ s.cumulative_weight)
      × (to_lower_case r.tip_hash ≡ to_lower_case s.tip_hash)
      × (r.peer_id ≡ s.peer_id)
unbeaten_agree r s h k = ground (
  arith,
  text_lt_connected (to_lower_case r.tip_hash) (to_lower_case s.tip_hash),
  text_lt_connected r.peer_id s.peer_id,
)

second_wins_facts :
    (a b : ForkCandidate)
    → (compare_forks a b).won ≡ Side.second
    → ((compare_forks a b).winner ≡ b)
      × ((compare_forks a b).loser ≡ a)
      × (is_equal (compare_forks a b).reason ≡ false)
unfolding compare_forks break_tie is_equal
second_wins_facts a b h = ground arith

-- A node switches exactly if the remote chain beats its own.
pub should_switch_fork_iff :
    (local remote : ForkCandidate)
    → (is_some (should_switch_fork local remote) ≡ true) ↔ Beats remote local
unfolding should_switch_fork is_second
should_switch_fork_iff local remote =
    ground (arith, won-Beats local remote, second_wins_facts local remote)

-- A node that switches has the remote chain as the winner and its own as the loser.
pub should_switch_fork-winner :
    (local remote : ForkCandidate) {c : ForkChoice}
    → should_switch_fork local remote ≡ some c
    → (c.winner ≡ remote) × (c.loser ≡ local)
unfolding should_switch_fork is_second
should_switch_fork-winner local remote h = ground (arith, second_wins_facts local remote)
