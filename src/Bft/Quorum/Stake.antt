-- ===== src/Bft/Quorum/Stake.antt =====
-- node/src/bft.ts, accumulatedStake: the stake of distinct voters as a sum over the validators.
use coc.Prelude.{
  ℕ, ◌+◌, ◌≤◌, Text, to_lower_case, text_eq, ◌≡◌, refl, false, List, [], ◌∷◌, foldl, map, Dict, get,
  insert, keys, contains, contains-keep_iff, Distinct, keep, contains-keys, insert-Distinct, arith,
  or_else, if◌then◌else◌,
}
use coc.Bft.Quorum.{
  Validator, total_stake, stake_map, accumulated_stake, add_stake, put_stake, add_voter,
}

pub weight : Dict Text ℕ → Text → ℕ
weight m x = or_else (get x m) 0

-- The stake of voters in lower case.
pub sum_weight : Dict Text ℕ → List Text → ℕ
sum_weight m [] = 0
sum_weight m (x ∷ xs) = weight m x + sum_weight m xs

-- The sum of all entries, and of those whose key is a voter.
pub entry_total : Dict Text ℕ → ℕ
entry_total [] = 0
entry_total ((k, s) ∷ m) = s + entry_total m

pub voted_total : List Text → Dict Text ℕ → ℕ
voted_total xs [] = 0
voted_total xs ((k, s) ∷ m) = (if contains k xs then s else 0) + voted_total xs m

voted_total-nil : (m : Dict Text ℕ) → voted_total [] m ≡ 0
unfolding voted_total contains
voted_total-nil [] = refl
voted_total-nil ((k, s) ∷ m) = omega (arith, voted_total-nil m)

weight_absent : (x : Text) (m : Dict Text ℕ) → contains x (keys m) ≡ false → weight m x ≡ 0
unfolding weight
weight_absent x m h = ground (arith, contains-keys x m)

-- A new voter adds its own weight.
voted_total-cons :
    (x : Text) (xs : List Text) (m : Dict Text ℕ)
    → Distinct (keys m)
    → contains x xs ≡ false
    → voted_total (x ∷ xs) m ≡ weight m x + voted_total xs m
unfolding voted_total weight contains get
voted_total-cons x xs [] d h = refl
voted_total-cons x xs ((k, s) ∷ m) d h = ground (
  arith,
  text_eq.beq_iff k x,
  text_eq.beq_iff x k,
  voted_total-cons x xs m d.1 h,
  weight_absent x m,
)

-- The stake of distinct voters is the sum of the entries that they own.
pub sum_weight-eq-voted_total :
    (xs : List Text) (m : Dict Text ℕ)
    → Distinct (keys m)
    → Distinct xs
    → sum_weight m xs ≡ voted_total xs m
unfolding sum_weight
sum_weight-eq-voted_total [] m d h = omega (arith, voted_total-nil m)
sum_weight-eq-voted_total (x ∷ xs) m d h =
    omega (arith, voted_total-cons x xs m d h.0, sum_weight-eq-voted_total xs m d h.1)

pub voted_total-le : (xs : List Text) (m : Dict Text ℕ) → voted_total xs m ≤ entry_total m
unfolding voted_total entry_total
voted_total-le xs [] = omega arith
voted_total-le xs ((k, s) ∷ m) = ground (arith, voted_total-le xs m)

-- Two sets of voters together own no more than everything and what they share.
pub voted_total-meet :
    (xs ys : List Text) (m : Dict Text ℕ)
    → voted_total xs m + voted_total ys m
      ≤ entry_total m + voted_total (keep (λ x. contains x ys) xs) m
unfolding voted_total entry_total
voted_total-meet xs ys [] = omega arith
voted_total-meet xs ys ((k, s) ∷ m) =
    ground (arith, voted_total-meet xs ys m, contains-keep_iff k (λ x. contains x ys) xs)

entry_total-insert :
    (k : Text) (s : ℕ) (m : Dict Text ℕ) → entry_total (insert k s m) ≤ entry_total m + s
unfolding entry_total insert
entry_total-insert k s [] = omega arith
entry_total-insert k s ((j, t) ∷ m) = ground (arith, entry_total-insert k s m)

stake_map_from :
    (vs : List Validator) (m : Dict Text ℕ) (sum : ℕ)
    → Distinct (keys m)
    → entry_total m ≤ sum
    → Distinct (keys (foldl put_stake m vs))
      × (entry_total (foldl put_stake m vs) ≤ foldl add_stake sum vs)
stake_map_from [] m sum d h = (d, h)
stake_map_from (v ∷ vs) m sum d h =
    stake_map_from vs (put_stake m v) (add_stake sum v) (insert-Distinct _ v.stake m d)
      (omega (arith, entry_total-insert (to_lower_case v.id) v.stake m))

-- The map of stakes has each id once, and no more stake than the validators.
pub stake_map_lem :
    (vs : List Validator)
    → Distinct (keys (stake_map vs)) × (entry_total (stake_map vs) ≤ total_stake vs)
unfolding stake_map total_stake entry_total
stake_map_lem vs = stake_map_from vs [] 0 tt (omega arith)

foldl-add_voter :
    (m : Dict Text ℕ) (xs : List Text) (sum : ℕ)
    → foldl (add_voter m) sum xs ≡ sum + sum_weight m (map to_lower_case xs)
unfolding sum_weight weight
foldl-add_voter m [] sum = omega arith
foldl-add_voter m (x ∷ xs) sum = omega (arith, foldl-add_voter m xs (add_voter m sum x))

pub accumulated_stake_lem :
    (xs : List Text) (vs : List Validator)
    → accumulated_stake xs vs ≡ sum_weight (stake_map vs) (map to_lower_case xs)
unfolding accumulated_stake
accumulated_stake_lem xs vs = omega (arith, foldl-add_voter (stake_map vs) xs 0)
