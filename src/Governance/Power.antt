-- ===== src/Governance/Power.antt =====
-- node/src/validator-governance.ts, recalcVotingPower: it changes nothing but the voting power.
use coc.Prelude.{
  ℕ, Text, text_eq, false, not, ◌&&◌, List, [], ◌∷◌, foldl, Dict, get, insert, values, refl, ◌≡◌,
  ltb, ◌==◌, if◌then◌else◌, none, some, All, arith, contains, Distinct, insert-Distinct, ◌*◌,
  Bool-cases, keys, All-insert, ◌/◌, contains-keys, inr, ◌∙◌, inl, nat_eq, All-keep,
}
use coc.Governance.State.{
  ValidatorInfo, recalc_voting_power, set_power, reset_power, active_of, total_active_stake,
  is_active,
}

-- A validator without its voting power.
unfoldable pub strip : ValidatorInfo → ValidatorInfo
strip v = record v { voting_power = 0 }

unfoldable pub stripped : Dict Text ValidatorInfo → Dict Text ValidatorInfo
stripped [] = []
stripped ((k, v) ∷ m) = (k, strip v) ∷ stripped m

-- Each validator is filed under its own id.
abbrev pub IsKeyed : Dict Text ValidatorInfo → Type 0
IsKeyed = All (λ e. e.1.id ≡ e.0)

pub get-stripped :
    (k : Text) (m : Dict Text ValidatorInfo)
    → get k (stripped m) ≡ (elim (get k m) [ none ↦ none | some v ↦ some (strip v) ])
unfolding stripped get
get-stripped k [] = refl
get-stripped k ((j, v) ∷ m) = ground (arith, get-stripped k m)

-- A write that agrees with what is there but for the power is not seen.
insert-stripped :
    (k : Text) (v : ValidatorInfo) (m : Dict Text ValidatorInfo)
    → get k (stripped m) ≡ some (strip v)
    → stripped (insert k v m) ≡ stripped m
unfolding stripped insert get
insert-stripped k v [] h = cc
insert-stripped k v ((j, w) ∷ m) h = ground (arith, insert-stripped k v m)

abbrev IsIn : Dict Text ValidatorInfo → List ValidatorInfo → Type 0
IsIn m = All (λ v. get v.id (stripped m) ≡ some (strip v))

set_power-fold :
    (total : ℕ) (vs : List ValidatorInfo) (m : Dict Text ValidatorInfo)
    → IsIn m vs
    → stripped (foldl (set_power total) m vs) ≡ stripped m
unfolding strip
set_power-fold total [] m h = refl
set_power-fold total (v ∷ vs) m h =
    let m' = set_power total m v in
    let same =
      insert-stripped v.id
        (record v { voting_power = if ltb 0 total then v.stake * 10000 / total else 0 }) m h.0 in
    set_power-fold total vs m' (rw same h.1) ∙ same

reset_power-fold :
    (vs : List ValidatorInfo) (m : Dict Text ValidatorInfo)
    → IsIn m vs
    → stripped (foldl reset_power m vs) ≡ stripped m
unfolding strip
reset_power-fold [] m h = refl
reset_power-fold (v ∷ vs) m h = elim (Bool-cases (not v.active && not (v.voting_power == 0))) [
  | inr kept ↦ rw kept (reset_power-fold vs m h.1)
  | inl stale ↦
      let same = insert-stripped v.id (record v { voting_power = 0 }) m h.0 in
      rw stale
        (reset_power-fold vs (insert v.id (record v { voting_power = 0 }) m) (rw same h.1) ∙ same)
]

IsIn-cons :
    (j : Text) (v : ValidatorInfo) (m : Dict Text ValidatorInfo) (ws : List ValidatorInfo)
    → contains j (keys m) ≡ false
    → IsIn m ws
    → IsIn ((j, v) ∷ m) ws
unfolding stripped get
IsIn-cons j v m [] c h = tt
IsIn-cons j v m (w ∷ ws) c h = (
  ground (arith, text_eq.beq_iff j w.id, contains-keys j m, get-stripped j m, h.0),
  IsIn-cons j v m ws c h.1,
)

-- In a keyed map every value is the one under its own id.
values-IsIn : (m : Dict Text ValidatorInfo) → Distinct (keys m) → IsKeyed m → IsIn m (values m)
unfolding stripped get
values-IsIn [] d h = tt
values-IsIn ((j, v) ∷ m) d h =
    (ground (arith, text_eq.beq_iff j v.id), IsIn-cons j v m (values m) d.0 (values-IsIn m d.1 h.1))

-- Filed under their own ids, each id once.
pub record IsFiled (m : Dict Text ValidatorInfo) : Type 0 where
  pub distinct : Distinct (keys m)
  pub keyed : IsKeyed m

pub insert-IsFiled :
    (k : Text) (v : ValidatorInfo) (m : Dict Text ValidatorInfo)
    → v.id ≡ k
    → IsFiled m
    → IsFiled (insert k v m)
insert-IsFiled k v m own f = record {
  distinct = insert-Distinct k v m f.distinct;
  keyed = All-insert (λ e. e.1.id ≡ e.0) k v m own f.keyed;
}

set_power-IsFiled :
    (total : ℕ) (vs : List ValidatorInfo) (m : Dict Text ValidatorInfo)
    → IsFiled m
    → IsFiled (foldl (set_power total) m vs)
set_power-IsFiled total [] m f = f
set_power-IsFiled total (v ∷ vs) m f =
    set_power-IsFiled total vs (set_power total m v) (insert-IsFiled v.id _ m refl f)

reset_power-IsFiled :
    (vs : List ValidatorInfo) (m : Dict Text ValidatorInfo)
    → IsFiled m
    → IsFiled (foldl reset_power m vs)
reset_power-IsFiled [] m f = f
reset_power-IsFiled (v ∷ vs) m f = elim (Bool-cases (not v.active && not (v.voting_power == 0))) [
  | inr kept ↦ rw kept (reset_power-IsFiled vs m f)
  | inl stale ↦ rw stale (reset_power-IsFiled vs _ (insert-IsFiled v.id _ m refl f))
]

-- In a validator set filed by id, recalculating the voting power keeps each validator filed once
-- under its own id, and changes nothing else of any of them.
pub recalc_voting_power-stripped :
    (m : Dict Text ValidatorInfo)
    → IsFiled m
    → IsFiled (recalc_voting_power m) × (stripped (recalc_voting_power m) ≡ stripped m)
unfolding recalc_voting_power active_of
recalc_voting_power-stripped m f =
    let total = total_active_stake m in
    let powered = foldl (set_power total) m (active_of m) in
    let f' = set_power-IsFiled total (active_of m) m f in
    (
      reset_power-IsFiled (values powered) powered f',
      reset_power-fold (values powered) powered (values-IsIn powered f'.distinct f'.keyed)
          ∙ set_power-fold total (active_of m) m
              (All-keep _ is_active (values m) (values-IsIn m f.distinct f.keyed)),
    )
