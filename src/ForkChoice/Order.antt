-- ===== src/ForkChoice/Order.antt =====
-- node/src/fork-choice.ts, compareForks: the rules decide by a strict order on candidates.
use coc.Prelude.{
  ◌<◌, Text, text_lt, to_lower_case, true, false, text_eq, ◌≡◌, ◌⊎◌, arith, text_lt_asymm,
  text_lt_trans, text_lt_connected, text_lt_irrefl, ◌↔◌,
}
use coc.ForkChoice.{ForkCandidate, Side, compare_forks, break_tie}

-- The order of preference, stated apart from the code: finality, then height, then weight, then
-- the smaller hash in lower case, then the smaller peer id.
abbrev pub HashBeats : ForkCandidate → ForkCandidate → Type 0
HashBeats a b = text_lt (to_lower_case a.tip_hash) (to_lower_case b.tip_hash) ≡ true

abbrev pub PeerBeats : ForkCandidate → ForkCandidate → Type 0
PeerBeats a b =
    (to_lower_case a.tip_hash ≡ to_lower_case b.tip_hash) × (text_lt a.peer_id b.peer_id ≡ true)

abbrev pub WeightBeats : ForkCandidate → ForkCandidate → Type 0
WeightBeats a b =
    (b.cumulative_weight < a.cumulative_weight)
    ⊎ ((a.cumulative_weight ≡ b.cumulative_weight) × (HashBeats a b ⊎ PeerBeats a b))

abbrev pub HeightBeats : ForkCandidate → ForkCandidate → Type 0
HeightBeats a b = (b.height < a.height) ⊎ ((a.height ≡ b.height) × WeightBeats a b)

abbrev pub Beats : ForkCandidate → ForkCandidate → Type 0
Beats a b =
    ((a.bft_finalized ≡ true) × (b.bft_finalized ≡ false))
    ⊎ ((a.bft_finalized ≡ b.bft_finalized) × HeightBeats a b)

pub Beats-trans : (a b c : ForkCandidate) → Beats a b → Beats b c → Beats a c
Beats-trans a b c h k = ground (
  arith,
  text_lt_trans (to_lower_case a.tip_hash) (to_lower_case b.tip_hash) (to_lower_case c.tip_hash),
  text_lt_trans a.peer_id b.peer_id c.peer_id,
)

pub Beats-irrefl : (a : ForkCandidate) → ¬ Beats a a
Beats-irrefl a h =
    ground (arith, text_lt_irrefl (to_lower_case a.tip_hash), text_lt_irrefl a.peer_id)

-- The second of two candidates wins exactly if it comes strictly before the first in the order of
-- preference; in every other case the first wins.
pub won-Beats : (a b : ForkCandidate) → ((compare_forks a b).won ≡ Side.second) ↔ Beats b a
unfolding compare_forks break_tie
won-Beats a b = ground (
  arith,
  text_lt_asymm (to_lower_case a.tip_hash) (to_lower_case b.tip_hash),
  text_lt_connected (to_lower_case a.tip_hash) (to_lower_case b.tip_hash),
  text_lt_asymm a.peer_id b.peer_id,
  text_lt_irrefl (to_lower_case a.tip_hash),
)

text_lt_weak : (s t u : Text) → text_lt s u ≡ true → (text_lt s t ≡ true) ⊎ (text_lt t u ≡ true)
text_lt_weak s t u h =
    ground (arith, text_lt_connected s t, text_lt_connected t u, text_lt_trans t s u)

-- A candidate between two others is beaten by the better or beats the worse.
pub Beats-weak : (a b c : ForkCandidate) → Beats a c → Beats a b ⊎ Beats b c
Beats-weak a b c h = ground (
  arith,
  text_lt_weak (to_lower_case a.tip_hash) (to_lower_case b.tip_hash) (to_lower_case c.tip_hash),
  text_lt_connected (to_lower_case a.tip_hash) (to_lower_case b.tip_hash),
  text_lt_connected (to_lower_case b.tip_hash) (to_lower_case c.tip_hash),
  text_lt_weak a.peer_id b.peer_id c.peer_id,
)
