-- ===== src/Governance/Queries.antt =====
-- node/src/validator-governance.ts: the queries on the validators, the proposals and the factions,
-- and the order of the validator ids.
use coc.Governance.Power.{IsFiled}
use coc.Governance.Proposals.{is_pending}
use coc.Prelude.{
  ℕ, length, foldl, List, ◌≡◌, values, ◌+◌, arith, ◌∷◌, Text, if◌then◌else◌, map, All, [], keep,
  text_lt, false, text_lt_connected, Bool-cases, contains, text_lt_trans, ◌==◌, Dict, get, ◌∙◌, inl,
  text_eq, text_lt_asymm, ◌||◌, keys, Distinct, refl, inr, Option, Bool, true, none, nat_eq, some,
}
use coc.Governance.State.{
  pending, approved, rejected, expired, FactionId, FactionInfo, ValidatorInfo, Governance,
  FactionInfo, ValidatorInfo, active_of, add_stake, is_active_validator, ProposalStatus,
  GovernanceProposal,
}

pub record GovernanceStats : Type 0 where
  pub active_validators : ℕ
  pub total_stake : ℕ
  pub pending_proposals : ℕ
  pub total_proposals : ℕ
  pub current_epoch : ℕ

pub get_governance_stats : Governance → GovernanceStats
get_governance_stats g = record {
  active_validators = length (active_of g.validators);
  total_stake = foldl add_stake 0 (active_of g.validators);
  pending_proposals = length (keep (λ p. is_pending p.status) (values g.proposals));
  total_proposals = length g.proposals;
  current_epoch = g.current_epoch;
}

pub get_treasury_balance : Governance → ℕ
get_treasury_balance g = g.treasury_balance

pub get_min_stake : Governance → ℕ
get_min_stake g = g.config.min_stake

pub get_validator : Governance → Text → Option ValidatorInfo
get_validator g id = get id g.validators

pub get_proposal : Governance → ℕ → Option GovernanceProposal
get_proposal g id = get id g.proposals

pub status_beq : ProposalStatus → ProposalStatus → Bool
status_beq pending pending = true
status_beq approved approved = true
status_beq rejected rejected = true
status_beq expired expired = true
status_beq _ _ = false

pub get_proposals : Governance → Option ProposalStatus → List GovernanceProposal
get_proposals g status = elim status [
  | none ↦ values g.proposals
  | some s ↦ keep (λ p. status_beq p.status s) (values g.proposals)
]

pub record FactionStats : Type 0 where
  pub builders : ℕ
  pub guardians : ℕ
  pub explorers : ℕ
  pub neutral : ℕ

count_member : FactionStats → FactionInfo → FactionStats
count_member counts info = elim info.faction [
  | FactionId.builders ↦ record counts { builders = counts.builders + 1 }
  | FactionId.guardians ↦ record counts { guardians = counts.guardians + 1 }
  | FactionId.explorers ↦ record counts { explorers = counts.explorers + 1 }
  | FactionId.neutral ↦ record counts { neutral = counts.neutral + 1 }
]

pub get_faction_stats : Governance → FactionStats
unfolding count_member
get_faction_stats g =
    foldl count_member (record { builders = 0; guardians = 0; explorers = 0; neutral = 0 })
      (values g.factions)

abbrev pub all_members : FactionStats → ℕ
all_members s = s.builders + s.guardians + s.explorers + s.neutral

count_member-all :
    (infos : List FactionInfo) (s : FactionStats)
    → all_members (foldl count_member s infos) ≡ all_members s + length infos
unfolding count_member
count_member-all [] s = omega arith
count_member-all (info ∷ infos) s = ground (arith, count_member-all infos (count_member s info))

length-values : (m : Dict Text FactionInfo) → length (values m) ≡ length m
length-values [] = refl
length-values (e ∷ m) = omega (arith, length-values m)

-- Every address with a faction is counted in exactly one faction: the counts add up to the number
-- of addresses.
pub get_faction_stats-total :
    (g : Governance) → all_members (get_faction_stats g) ≡ length g.factions
unfolding get_faction_stats
get_faction_stats-total g = omega (
  arith,
  length-values g.factions,
  count_member-all (values g.factions)
      (record { builders = 0; guardians = 0; explorers = 0; neutral = 0 }),
)

-- `sort((a, b) => a.id < b.id ? -1 : a.id > b.id ? 1 : 0)`, which is stable
insert_by_id : ValidatorInfo → List ValidatorInfo → List ValidatorInfo
insert_by_id v [] = v ∷ []
insert_by_id v (w ∷ ws) = if text_lt w.id v.id then w ∷ insert_by_id v ws else v ∷ w ∷ ws

pub sort_by_id : List ValidatorInfo → List ValidatorInfo
sort_by_id [] = []
sort_by_id (v ∷ vs) = insert_by_id v (sort_by_id vs)

pub get_validator_ids : Governance → List Text
get_validator_ids g = map (λ v. v.id) (sort_by_id (active_of g.validators))

-- In ascending order: no id is followed by a smaller one.
abbrev pub IsAscending : List Text → Type 0
IsAscending [] = Unit
IsAscending (x ∷ xs) = All (λ y. text_lt y x ≡ false) xs × IsAscending xs

not_lt_trans : (s t u : Text) → text_lt s t ≡ false → text_lt t u ≡ false → text_lt s u ≡ false
not_lt_trans s t u h k =
    ground
      (arith, text_lt_connected s t, text_lt_trans t s u, text_lt_asymm s u, text_lt_connected t u)

not_lt-All :
    (s t : Text) (xs : List Text)
    → text_lt s t ≡ false
    → All (λ y. text_lt y s ≡ false) xs
    → All (λ y. text_lt y t ≡ false) xs
not_lt-All s t [] h k = tt
not_lt-All s t (x ∷ xs) h k = (not_lt_trans x s t k.0 h, not_lt-All s t xs h k.1)

abbrev pub ids_of : List ValidatorInfo → List Text
ids_of = map (λ v. v.id)

insert_by_id-All :
    (s : Text) (v : ValidatorInfo) (ws : List ValidatorInfo)
    → text_lt v.id s ≡ false
    → All (λ y. text_lt y s ≡ false) (ids_of ws)
    → All (λ y. text_lt y s ≡ false) (ids_of (insert_by_id v ws))
unfolding insert_by_id
insert_by_id-All s v [] h k = (h, tt)
insert_by_id-All s v (w ∷ ws) h k = ground (arith, insert_by_id-All s v ws h k.1)

insert_by_id-IsAscending :
    (v : ValidatorInfo) (ws : List ValidatorInfo)
    → IsAscending (ids_of ws)
    → IsAscending (ids_of (insert_by_id v ws))
unfolding insert_by_id
insert_by_id-IsAscending v [] h = (tt, tt)
insert_by_id-IsAscending v (w ∷ ws) h = elim (Bool-cases (text_lt w.id v.id)) [
  | inl after ↦ rw after (
    insert_by_id-All w.id v ws (text_lt_asymm w.id v.id after) h.0,
    insert_by_id-IsAscending v ws h.1,
  )
  | inr before ↦ rw before ((before, not_lt-All w.id v.id (ids_of ws) before h.0), h)
]

sort_by_id-IsAscending : (vs : List ValidatorInfo) → IsAscending (ids_of (sort_by_id vs))
unfolding sort_by_id
sort_by_id-IsAscending [] = tt
sort_by_id-IsAscending (v ∷ vs) =
    insert_by_id-IsAscending v (sort_by_id vs) (sort_by_id-IsAscending vs)

contains-insert_by_id :
    (id : Text) (v : ValidatorInfo) (ws : List ValidatorInfo)
    → contains id (ids_of (insert_by_id v ws)) ≡ (v.id == id || contains id (ids_of ws))
unfolding insert_by_id contains
contains-insert_by_id id v [] = refl
contains-insert_by_id id v (w ∷ ws) = ground (arith, contains-insert_by_id id v ws)

contains-sort_by_id :
    (id : Text) (vs : List ValidatorInfo)
    → contains id (ids_of (sort_by_id vs)) ≡ contains id (ids_of vs)
unfolding sort_by_id contains
contains-sort_by_id id [] = refl
contains-sort_by_id id (v ∷ vs) =
    ground (arith, contains-insert_by_id id v (sort_by_id vs), contains-sort_by_id id vs)

contains-ids :
    (id : Text) (m : Dict Text ValidatorInfo)
    → contains id (keys m) ≡ false
    → All (λ e. e.1.id ≡ e.0) m
    → contains id (ids_of (active_of m)) ≡ false
unfolding active_of contains keep
contains-ids id [] d h = refl
contains-ids id ((k, v) ∷ m) d h = ground (arith, contains-ids id m, text_eq.beq_iff k id)

contains-active_of :
    (id : Text) (m : Dict Text ValidatorInfo)
    → Distinct (keys m)
    → All (λ e. e.1.id ≡ e.0) m
    → contains id (ids_of (active_of m)) ≡ is_active_validator m id
unfolding active_of is_active_validator contains keep get
contains-active_of id [] d h = refl
contains-active_of id ((k, v) ∷ m) d h = ground (
  arith,
  contains-active_of id m d.1 h.1,
  contains-ids id m,
  text_eq.beq_iff k id,
  text_eq.beq_iff v.id id,
)

-- In a validator set filed by id, the ids for consensus are in ascending order and are exactly
-- those of the active validators, whatever the order in which the validators were filed.
pub get_validator_ids_lem :
    (g : Governance) (id : Text)
    → IsFiled g.validators
    → IsAscending (get_validator_ids g)
      × (contains id (get_validator_ids g) ≡ is_active_validator g.validators id)
unfolding get_validator_ids
get_validator_ids_lem g id f = (
  sort_by_id-IsAscending (active_of g.validators),
  contains-sort_by_id id (active_of g.validators)
      ∙ contains-active_of id g.validators f.distinct f.keyed,
)
