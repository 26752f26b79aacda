-- ===== src/Governance/Slash.antt =====
-- node/src/validator-governance.ts, applySlash and deactivateValidator: the effect on one validator
-- and on the whole set.
use coc.Governance.Members.{write_counts, get-write, write-IsFiled}
use coc.Governance.Resolution.{own_id}
use coc.Prelude.{
  Option, none, ℕ, ◌+◌, ◌-◌, ◌<◌, Text, text_eq, true, not, ◌&&◌, get, ◌≡◌, ltb, ◌==◌,
  if◌then◌else◌, some, nat_eq, min, arith, Option-cases, inl, false, inr, Dict, insert,
}
use coc.Governance.State.{
  Governance, ValidatorInfo, apply_slash, total_active_stake, is_active_validator,
  deactivate_validator, recalc_voting_power,
}
use coc.Governance.Power.{strip, stripped, IsFiled, get-stripped}

-- The stake on file under an id.
unfoldable pub stake_of : Text → Dict Text ValidatorInfo → Option ℕ
stake_of j validators = elim (get j validators) [ none ↦ none | some v ↦ some v.stake ]

stake_of-write :
    (k j : Text) (v : ValidatorInfo) (m : Dict Text ValidatorInfo)
    → v.id ≡ k
    → IsFiled m
    → stake_of j (recalc_voting_power (insert k v m))
      ≡ (if k == j then some v.stake else stake_of j m)
unfolding stake_of strip
stake_of-write k j v m own f = ground (
  arith,
  get-write k j v m own f,
  get-stripped j m,
  get-stripped j (recalc_voting_power (insert k v m)),
)

-- In a validator set filed by id, a slash of an active validator takes the amount of its stake,
-- down to zero, and changes no other stake.
pub stake_of-apply_slash :
    (g : Governance) (id j : Text) (amount : ℕ) {v : ValidatorInfo}
    → IsFiled g.validators
    → get id g.validators ≡ some v
    → v.active ≡ true
    → stake_of j (apply_slash g id amount).validators
      ≡ (if id == j then some (v.stake - amount) else stake_of j g.validators)
unfolding apply_slash stake_of
stake_of-apply_slash g id j amount {v} f found active =
    let new_stake = if ltb amount v.stake then v.stake - amount else 0 in
    let v' : ValidatorInfo = record v { stake = new_stake; active = not (new_stake == 0) } in
    let own = own_id g.validators id f found in
    ground (arith, found, active, text_eq.beq_iff id j, stake_of-write id j v' g.validators own f)

-- A deactivation changes no stake.
pub stake_of-deactivate_validator :
    (g : Governance) (id j : Text)
    → IsFiled g.validators
    → stake_of j (deactivate_validator g id).validators ≡ stake_of j g.validators
unfolding deactivate_validator stake_of
stake_of-deactivate_validator g id j f = elim (Option-cases (get id g.validators)) [
  | inl absent ↦ ground (arith, text_eq.beq_iff id j)
  | inr (v, found) ↦
      let v' : ValidatorInfo = record v { active = false } in
      let own = own_id g.validators id f found in
      ground (arith, text_eq.beq_iff id j, stake_of-write id j v' g.validators own f)
]

-- The validator as slashed by an amount.
pub slashed_by : ℕ → ValidatorInfo → ValidatorInfo
slashed_by amount v = record v { stake = v.stake - amount; active = v.active && ltb amount v.stake }

-- In a validator set filed by id, a slash of an active validator by a positive amount takes that much of its stake, down to zero,
-- deactivates it exactly if nothing is left, and changes no other validator; the total active
-- stake falls by what is taken.
pub apply_slash_lem :
    (g : Governance) (id j : Text) (amount : ℕ) {v : ValidatorInfo}
    → IsFiled g.validators
    → get id g.validators ≡ some v
    → v.active ≡ true
    → 0 < amount
    → (get j (stripped (apply_slash g id amount).validators)
        ≡ (if id == j then some (strip (slashed_by amount v)) else get j (stripped g.validators)))
      × (total_active_stake (apply_slash g id amount).validators + min amount v.stake
          ≡ total_active_stake g.validators)
unfolding apply_slash slashed_by strip
apply_slash_lem g id j amount {v} f found active positive =
    let new_stake = if ltb amount v.stake then v.stake - amount else 0 in
    let v' : ValidatorInfo = record v { stake = new_stake; active = not (new_stake == 0) } in
    let own = own_id g.validators id f found in
    let counts = write_counts id v' g.validators own f in
    rw (found, active)
      (ground (arith, get-write id j v' g.validators own f), ground (arith, counts.1))

pub apply_slash-IsFiled :
    (g : Governance) (id : Text) (amount : ℕ)
    → IsFiled g.validators
    → IsFiled (apply_slash g id amount).validators
unfolding apply_slash
apply_slash-IsFiled g id amount f = elim (Option-cases (get id g.validators)) [
  | inl absent ↦ rw (absent, apply_slash) (ground arith)
  | inr (v, found) ↦
      let new_stake = if ltb amount v.stake then v.stake - amount else 0 in
      let v' : ValidatorInfo = record v { stake = new_stake; active = not (new_stake == 0) } in
      ground (arith, write-IsFiled id v' g.validators (own_id g.validators id f found) f)
]

active_after_write :
    (k j : Text) (v : ValidatorInfo) (m : Dict Text ValidatorInfo)
    → v.id ≡ k
    → IsFiled m
    → is_active_validator (recalc_voting_power (insert k v m)) j
      ≡ (if k == j then v.active else is_active_validator m j)
unfolding is_active_validator strip
active_after_write k j v m own f = ground (
  arith,
  get-write k j v m own f,
  get-stripped j m,
  get-stripped j (recalc_voting_power (insert k v m)),
)

-- In a validator set filed by id, a deactivated validator is not active, and every other validator
-- is as active as before.
pub deactivate_validator_lem :
    (g : Governance) (id j : Text)
    → IsFiled g.validators
    → is_active_validator (deactivate_validator g id).validators j
      ≡ (if id == j then false else is_active_validator g.validators j)
unfolding deactivate_validator is_active_validator
deactivate_validator_lem g id j f = elim (Option-cases (get id g.validators)) [
  | inl absent ↦ ground (arith, text_eq.beq_iff id j)
  | inr (v, found) ↦
      let v' : ValidatorInfo = record v { active = false } in
      let own = own_id g.validators id f found in
      ground (arith, text_eq.beq_iff id j, active_after_write id j v' g.validators own f)
]

pub deactivate_validator-inactive :
    (g : Governance) (id : Text)
    → IsFiled g.validators
    → is_active_validator (deactivate_validator g id).validators id ≡ false
deactivate_validator-inactive g id f =
    ground (arith, deactivate_validator_lem g id id f, text_eq.beq_iff id id)
