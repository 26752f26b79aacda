-- ===== src/Bft/Quorum/Intersection.antt =====
-- node/src/bft.ts: what a quorum is worth, and what two quorums share.
use coc.Prelude.{
  ◌*◌, ◌≤◌, ◌<◌, Text, to_lower_case, text_eq, ◌≡◌, refl, Bool, true, List, [], ◌∷◌, map, contains,
  Distinct, Distinct-keep, keep, arith, ◌↔◌, ap,
}
use coc.Bft.Quorum.{
  Validator, total_stake, quorum_threshold, stake_map, accumulated_stake, has_quorum,
}
use coc.Bft.Quorum.Stake.{
  sum_weight, sum_weight-eq-voted_total, voted_total-le, voted_total-meet, stake_map_lem,
  accumulated_stake_lem,
}

-- Voters that differ in lower case never hold more than the total.
pub accumulated_stake-le :
    (xs : List Text) (vs : List Validator)
    → Distinct (map to_lower_case xs)
    → accumulated_stake xs vs ≤ total_stake vs
accumulated_stake-le xs vs d =
    let (m_distinct, m_total) = stake_map_lem vs in
    omega (
      arith,
      accumulated_stake_lem xs vs,
      sum_weight-eq-voted_total (map to_lower_case xs) (stake_map vs) m_distinct d,
      voted_total-le (map to_lower_case xs) (stake_map vs),
      m_total,
    )

-- Voters that differ in lower case are a quorum exactly if the total stake is positive and they
-- hold more than two thirds of it.
pub has_quorum_iff :
    (xs : List Text) (vs : List Validator)
    → Distinct (map to_lower_case xs)
    → (has_quorum xs vs ≡ true)
      ↔ ((0 < total_stake vs) × (2 * total_stake vs < 3 * accumulated_stake xs vs))
unfolding has_quorum quorum_threshold
has_quorum_iff xs vs d = ground (arith, accumulated_stake-le xs vs d)

-- The voters of the first list who are, in lower case, in the second list too.
unfoldable pub common_voters : List Text → List Text → List Text
common_voters xs ys = keep (λ x. contains (to_lower_case x) (map to_lower_case ys)) xs

map-keep :
    (p : Text → Bool) (xs : List Text)
    → map to_lower_case (keep (λ x. p (to_lower_case x)) xs) ≡ keep p (map to_lower_case xs)
unfolding keep
map-keep p [] = refl
map-keep p (x ∷ xs) = ground (arith, map-keep p xs)

-- Any two quorums, each of voters that differ in lower case, share voters who hold more than a third of all stake.
pub quorum_intersection :
    (xs ys : List Text) (vs : List Validator)
    → Distinct (map to_lower_case xs)
    → Distinct (map to_lower_case ys)
    → has_quorum xs vs ≡ true
    → has_quorum ys vs ≡ true
    → total_stake vs < 3 * accumulated_stake (common_voters xs ys) vs
unfolding common_voters
quorum_intersection xs ys vs dx dy qx qy =
    let (m_distinct, m_total) = stake_map_lem vs in
    let p : Text → Bool = λ x. contains x (map to_lower_case ys) in
    let lx = map to_lower_case xs in
    let ly = map to_lower_case ys in
    let m = stake_map vs in
    omega (
      arith,
      (has_quorum_iff xs vs dx).0 qx,
      (has_quorum_iff ys vs dy).0 qy,
      accumulated_stake_lem xs vs,
      accumulated_stake_lem ys vs,
      accumulated_stake_lem (keep (λ x. p (to_lower_case x)) xs) vs,
      ap (sum_weight m) (map-keep p xs),
      sum_weight-eq-voted_total lx m m_distinct dx,
      sum_weight-eq-voted_total ly m m_distinct dy,
      sum_weight-eq-voted_total (keep p lx) m m_distinct (Distinct-keep p lx dx),
      voted_total-meet lx ly m,
      m_total,
    )
