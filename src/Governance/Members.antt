-- ===== src/Governance/Members.antt =====
-- node/src/validator-governance.ts: the number of active validators and their stake, read through
-- the voting power, and what a single write does to them.
use coc.Prelude.{
  ℕ, ◌+◌, Text, text_eq, true, List, [], ◌∷◌, foldl, Dict, get, insert, values, keep, refl, ◌≡◌,
  ◌==◌, if◌then◌else◌, Option, none, some, arith, ◌<◌, ap, get-insert, ◌≤◌,
}
use coc.Governance.State.{
  ValidatorInfo, recalc_voting_power, active_count, add_stake, total_active_stake,
  is_active_validator, active_of, is_active,
}
use coc.Governance.Power.{
  strip, stripped, IsFiled, recalc_voting_power-stripped, get-stripped, insert-IsFiled,
}

-- The count and the stake as plain recursions over the entries.
pub count_from : Dict Text ValidatorInfo → ℕ
count_from [] = 0
count_from ((k, v) ∷ m) = (if v.active then 1 else 0) + count_from m

pub stake_from : Dict Text ValidatorInfo → ℕ
stake_from [] = 0
stake_from ((k, v) ∷ m) = (if v.active then v.stake else 0) + stake_from m

pub active_count_lem : (m : Dict Text ValidatorInfo) → active_count m ≡ count_from m
unfolding active_count active_of count_from keep
active_count_lem [] = refl
active_count_lem ((k, v) ∷ m) = ground (arith, active_count_lem m)

foldl-add_stake :
    (vs : List ValidatorInfo) (sum : ℕ) → foldl add_stake sum vs ≡ sum + foldl add_stake 0 vs
foldl-add_stake [] sum = omega arith
foldl-add_stake (v ∷ vs) sum =
    omega (arith, foldl-add_stake vs (sum + v.stake), foldl-add_stake vs (0 + v.stake))

pub total_active_stake_lem : (m : Dict Text ValidatorInfo) → total_active_stake m ≡ stake_from m
unfolding total_active_stake active_of stake_from keep
total_active_stake_lem [] = refl
total_active_stake_lem ((k, v) ∷ m) =
    ground
      (arith, total_active_stake_lem m, foldl-add_stake (keep is_active (values m)) (0 + v.stake))

stripped-counts :
    (m : Dict Text ValidatorInfo)
    → (count_from (stripped m) ≡ count_from m) × (stake_from (stripped m) ≡ stake_from m)
unfolding count_from stake_from stripped strip
stripped-counts [] = (refl, refl)
stripped-counts ((k, v) ∷ m) = ground (arith, stripped-counts m)

-- What a validator adds to the count and to the stake.
abbrev pub one_if_active : Option ValidatorInfo → ℕ
one_if_active none = 0
one_if_active (some v) = if v.active then 1 else 0

abbrev pub stake_if_active : Option ValidatorInfo → ℕ
stake_if_active none = 0
stake_if_active (some v) = if v.active then v.stake else 0

-- A write replaces one validator's part of the count and of the stake.
insert-counts :
    (k : Text) (v : ValidatorInfo) (m : Dict Text ValidatorInfo)
    → (count_from (insert k v m) + one_if_active (get k m) ≡ count_from m + one_if_active (some v))
      × (stake_from (insert k v m) + stake_if_active (get k m)
          ≡ stake_from m + stake_if_active (some v))
unfolding count_from stake_from insert get
insert-counts k v [] = ground arith
insert-counts k v ((j, w) ∷ m) = ground (arith, insert-counts k v m)

-- In a validator set filed by id, a write of one validator under its own id and the recalculation
-- of the voting power after it change the number of active validators and their stake by exactly
-- what that validator counts now in place of before.
pub write_counts :
    (k : Text) (v : ValidatorInfo) (m : Dict Text ValidatorInfo)
    → v.id ≡ k
    → IsFiled m
    → (active_count (recalc_voting_power (insert k v m)) + one_if_active (get k m)
        ≡ active_count m + one_if_active (some v))
      × (total_active_stake (recalc_voting_power (insert k v m)) + stake_if_active (get k m)
          ≡ total_active_stake m + stake_if_active (some v))
write_counts k v m own f =
    let m' = insert k v m in
    let same = (recalc_voting_power-stripped m' (insert-IsFiled k v m own f)).1 in
    let (count, stake) = insert-counts k v m in
    (
      omega (
        arith,
        count,
        active_count_lem m,
        active_count_lem (recalc_voting_power m'),
        stripped-counts m',
        stripped-counts (recalc_voting_power m'),
        ap count_from same,
      ),
      omega (
        arith,
        stake,
        total_active_stake_lem m,
        total_active_stake_lem (recalc_voting_power m'),
        stripped-counts m',
        stripped-counts (recalc_voting_power m'),
        ap stake_from same,
      ),
    )

pub write-IsFiled :
    (k : Text) (v : ValidatorInfo) (m : Dict Text ValidatorInfo)
    → v.id ≡ k
    → IsFiled m
    → IsFiled (recalc_voting_power (insert k v m))
write-IsFiled k v m own f = (recalc_voting_power-stripped _ (insert-IsFiled k v m own f)).0

-- What is found after a write, but for the voting power.
pub get-write :
    (k j : Text) (v : ValidatorInfo) (m : Dict Text ValidatorInfo)
    → v.id ≡ k
    → IsFiled m
    → get j (stripped (recalc_voting_power (insert k v m)))
      ≡ (if k == j then some (strip v) else get j (stripped m))
get-write k j v m own f =
    rw ((recalc_voting_power-stripped _ (insert-IsFiled k v m own f)).1)
      (ground (arith, get-stripped j (insert k v m), get-stripped j m, get-insert k j v m))

-- Who is active does not depend on the voting power either.
pub is_active_validator_lem :
    (m : Dict Text ValidatorInfo) (k : Text)
    → is_active_validator m k ≡ is_active_validator (stripped m) k
unfolding is_active_validator strip
is_active_validator_lem m k = ground (arith, get-stripped k m)

count_from_pos :
    (m : Dict Text ValidatorInfo) (k : Text) → is_active_validator m k ≡ true → 0 < count_from m
unfolding is_active_validator count_from get
count_from_pos [] k h = cc
count_from_pos ((j, v) ∷ m) k h = ground (arith, count_from_pos m k)

-- An active validator counts.
pub active_count_pos :
    (m : Dict Text ValidatorInfo) (k : Text) → is_active_validator m k ≡ true → 0 < active_count m
active_count_pos m k h = rw (active_count_lem m) (count_from_pos m k h)

pub one_if_active-le : (o : Option ValidatorInfo) → one_if_active o ≤ 1
one_if_active-le o = ground arith
