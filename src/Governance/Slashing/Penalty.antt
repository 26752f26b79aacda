-- ===== src/Governance/Slashing/Penalty.antt =====
-- node/src/bft-slashing.ts, handleEquivocation: what a penalty takes, where it goes, and whom it
-- never reaches.
use coc.Bft.Equivocation.Detection.{record_vote_sound}
use coc.Governance.Slash.{
  stake_of, stake_of-apply_slash, stake_of-deactivate_validator, deactivate_validator-inactive,
  apply_slash-IsFiled,
}
use coc.Governance.Power.{IsFiled}
use coc.Bft.Equivocation.{EquivocationEvidence, EquivocationDetector, VotePhase, record_vote}
use coc.Prelude.{
  ◌∙◌, ap, Bool-cases, if◌then◌else◌, ◌==◌, ◌-◌, ℕ, ◌+◌, ◌*◌, ◌/◌, ◌≤◌, Text, text_eq, nat_eq, true,
  false, get, none, some, inl, inr, refl, ◌≡◌, arith, Option-cases, to_lower_case, mul_mono,
}
use native.Mathlib.Nat.{div-le_of_le-mul}
use coc.Governance.Slashing.{
  SlashingHandler, SlashEvent, handle_equivocation, slash_amount, deposit_if_positive,
  slash_validator, BftSlashingConfig, penalize, should_remove,
}
use coc.Governance.State.{
  Governance, ValidatorInfo, apply_slash, deposit_treasury, deactivate_validator,
  is_active_validator,
}

slash_amount-le :
    (config : BftSlashingConfig) (v : ValidatorInfo)
    → config.slash_percent ≤ 100
    → slash_amount config v ≤ v.stake
unfolding slash_amount
slash_amount-le config v h =
    div-le_of_le-mul 100
      (omega (arith, mul_mono v.stake v.stake config.slash_percent 100 (omega arith) h))

deposit-treasury :
    (g : Governance) (amount : ℕ)
    → ((deposit_if_positive g amount).treasury_balance ≡ g.treasury_balance + amount)
      × ((deposit_if_positive g amount).validators ≡ g.validators)
      × ((deposit_if_positive g amount).config ≡ g.config)
unfolding deposit_if_positive deposit_treasury
deposit-treasury g amount = ground arith

untouched :
    (g : Governance) (id : Text) (amount : ℕ)
    → ((apply_slash g id amount).treasury_balance ≡ g.treasury_balance)
      × ((apply_slash g id amount).config ≡ g.config)
      × ((deactivate_validator g id).treasury_balance ≡ g.treasury_balance)
      × ((deactivate_validator g id).config ≡ g.config)
unfolding apply_slash deactivate_validator
untouched g id amount = ground arith

penalize-treasury :
    (config : BftSlashingConfig) (g : Governance) (id : Text) (v : ValidatorInfo)
    → (penalize config g id v).treasury_balance ≡ g.treasury_balance + slash_amount config v
unfolding penalize
penalize-treasury config g id v =
    let amount = slash_amount config v in
    ground (
      arith,
      deposit-treasury (apply_slash g id amount) amount,
      untouched g id amount,
      untouched (deposit_if_positive (apply_slash g id amount) amount) id amount,
    )

-- What a penalty leaves on file of every stake.
penalize-stakes :
    (config : BftSlashingConfig) (g : Governance) (id j : Text) {v : ValidatorInfo}
    → IsFiled g.validators
    → get id g.validators ≡ some v
    → v.active ≡ true
    → stake_of j (penalize config g id v).validators
      ≡ (if id == j then some (v.stake - slash_amount config v) else stake_of j g.validators)
unfolding penalize
penalize-stakes config g id j {v} filed found active =
    let amount = slash_amount config v in
    let slashed = apply_slash g id amount in
    let g' = deposit_if_positive slashed amount in
    let same : g'.validators ≡ slashed.validators = (deposit-treasury slashed amount).1 in
    let filed' : IsFiled g'.validators = rw same (apply_slash-IsFiled g id amount filed) in
    let stakes =
      ap (stake_of j) same ∙ stake_of-apply_slash g id j amount {v = v} filed found active in
    elim (Bool-cases (should_remove config g' (v.stake - amount))) [
      | inl out ↦ rw out (stake_of-deactivate_validator g' id j filed' ∙ stakes)
      | inr kept ↦ rw kept stakes
    ]

-- In a validator set filed by id, where the percentage is at most 100, a penalty moves stake into the
-- treasury: the slashed part is the configured percentage of the validator's stake rounded down, the
-- slashed and the remaining amounts are together that stake, the treasury grows by exactly the
-- slashed amount, the stake on file of the validator is the remaining one, and that of no other
-- validator changes.
pub handle_equivocation-conserves :
    (h : SlashingHandler) (evidence : EquivocationEvidence) (now : ℕ) {v : ValidatorInfo}
    {event : SlashEvent}
    → h.config.slash_percent ≤ 100
    → IsFiled h.governance.validators
    → get evidence.validator_id h.governance.validators ≡ some v
    → (handle_equivocation h evidence now).1 ≡ some event
    → (event.slashed_amount + event.remaining_stake ≡ v.stake)
      × (event.slashed_amount ≡ v.stake * h.config.slash_percent / 100)
      × ((handle_equivocation h evidence now).0.governance.treasury_balance
          ≡ h.governance.treasury_balance + event.slashed_amount)
      × ((j : Text)
          → stake_of j (handle_equivocation h evidence now).0.governance.validators ≡ (
              if evidence.validator_id == j
              then some event.remaining_stake
              else stake_of j h.governance.validators))
unfolding handle_equivocation slash_validator
handle_equivocation-conserves h evidence now {v} {event} percent filed found reported =
    let amount = slash_amount h.config v in
    let id = evidence.validator_id in
    let parts = slash_amount-le h.config v percent in
    (
      ground (arith, parts),
      ground (arith, unfold_amount),
      ground (arith, penalize-treasury h.config h.governance id v),
      λ j. ground (arith, penalize-stakes h.config h.governance id j {v = v} filed found),
    )
  where
    unfold_amount : slash_amount h.config v ≡ v.stake * h.config.slash_percent / 100
    unfold_amount = unfold slash_amount in refl

-- In a validator set filed by id, a removed validator is no longer active: where the event says so, the validator's id is found
-- inactive or not at all.
pub handle_equivocation-removed :
    (h : SlashingHandler) (evidence : EquivocationEvidence) (now : ℕ) {event : SlashEvent}
    → IsFiled h.governance.validators
    → (handle_equivocation h evidence now).1 ≡ some event
    → event.removed ≡ true
    → is_active_validator
        (handle_equivocation h evidence now).0.governance.validators
        evidence.validator_id
      ≡ false
unfolding handle_equivocation slash_validator penalize should_remove
handle_equivocation-removed h evidence now {event} filed reported removed =
    elim (Option-cases (get evidence.validator_id h.governance.validators)) [
      | inl absent ↦ ground arith
      | inr (v, found) ↦
          let amount = slash_amount h.config v in
          let id = evidence.validator_id in
          let g' = deposit_if_positive (apply_slash h.governance id amount) amount in
          ground (
            arith,
            deposit-treasury (apply_slash h.governance id amount) amount,
            untouched h.governance id amount,
            deactivate_validator-inactive g' id (
                rw ((deposit-treasury (apply_slash h.governance id amount) amount).1)
                  (apply_slash-IsFiled h.governance id amount filed)),
          )
    ]

-- The detector's evidence names the validator in lower case, and the validator set is searched for
-- exactly that text: a double vote by a validator whose id is filed under another spelling only is
-- reported and costs it nothing.
pub mixed_case_unpunished :
    (d : EquivocationDetector) (h : SlashingHandler) (id : Text) (height : ℕ) (phase : VotePhase)
    (hash : Text) (seen now : ℕ) {ev : EquivocationEvidence}
    → (record_vote d id height phase hash seen).1 ≡ some ev
    → get (to_lower_case id) h.governance.validators ≡ none
    → handle_equivocation h ev now ≡ (h, none)
unfolding handle_equivocation
mixed_case_unpunished d h id height phase hash seen now {ev} reported absent =
    let (_, _, _, _, named, _, _) = record_vote_sound d id height phase hash seen reported in
    let missing : get ev.validator_id h.governance.validators ≡ none = rw named absent in
    rw (missing, handle_equivocation)
