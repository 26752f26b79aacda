-- ===== src/Prelude/Maps.antt =====
-- A JavaScript Map as its entries in insertion order: writing a present key keeps its place, a new
-- key goes to the end, and iteration runs in that order. A Set is a Dict to Unit.
use Prim.Native.Nat.{suc, ◌+◌, ◌≤◌}
use mathlib.Core.Path.{◌≡◌, refl}
use mathlib.Core.Bool.{Bool, true, false, ◌||◌}
use mathlib.Core.Logic.{inl, inr}
use mathlib.Core.Option.{Option, none, some}
use mathlib.Core.List.{List, [], ◌∷◌, map}
use native.Mathlib.Omega.{arith}
use coc.Prelude.Tests.{Bool-cases, Eq, ◌==◌, if◌then◌else◌, is_some}
use coc.Prelude.Lists.{length, contains, Distinct, All}

abbrev pub Dict {ℓ κ} : Type ℓ → Type κ → Type (ℓ ⊔ κ)
Dict K V = List (K × V)

module _ {ℓ κ} {K : Type ℓ} {V : Type κ} where
  -- `[...m.keys()]`, `[...m.values()]`
  abbrev pub keys : Dict K V → List K
  keys = map (λ e. e.0)

  abbrev pub values : Dict K V → List V
  values = map (λ e. e.1)

module _ {ℓ κ} {K : Type ℓ} {V : Type κ} ⦃e : Eq K⦄ where
  -- `m.get(k)`
  unfoldable pub get : K → Dict K V → Option V
  get k [] = none
  get k ((j, v) ∷ m) = if j == k then some v else get k m

  -- `m.has(k)`
  abbrev pub has : K → Dict K V → Bool
  has k m = is_some (get k m)

  -- `m.set(k, v)`
  unfoldable pub insert : K → V → Dict K V → Dict K V
  insert k v [] = (k, v) ∷ []
  insert k v ((j, w) ∷ m) = if j == k then (j, v) ∷ m else (j, w) ∷ insert k v m

  -- `m.delete(k)`
  unfoldable pub erase : K → Dict K V → Dict K V
  erase k [] = []
  erase k ((j, w) ∷ m) = let rest = erase k m in if j == k then rest else (j, w) ∷ rest

  pub get-insert :
      (k j : K) (v : V) (m : Dict K V) → get j (insert k v m) ≡ (if k == j then some v else get j m)
  unfolding get insert
  get-insert k j v [] = refl
  get-insert k j v ((i, w) ∷ m) =
      ground (arith, e.beq_iff k j, e.beq_iff i k, e.beq_iff i j, get-insert k j v m)

  pub get-erase : (k j : K) (m : Dict K V) → get j (erase k m) ≡ (if k == j then none else get j m)
  unfolding get erase
  get-erase k j [] = ground arith
  get-erase k j ((i, w) ∷ m) =
      ground (arith, e.beq_iff k j, e.beq_iff i k, e.beq_iff i j, get-erase k j m)

  pub length-insert :
      (k : K) (v : V) (m : Dict K V)
      → length (insert k v m) ≡ (if has k m then length m else suc (length m))
  unfolding get insert
  length-insert k v [] = refl
  length-insert k v ((i, w) ∷ m) = ground (arith, length-insert k v m)

  pub length-erase-le : (k : K) (m : Dict K V) → length (erase k m) ≤ length m
  unfolding erase
  length-erase-le k [] = omega arith
  length-erase-le k ((i, w) ∷ m) = ground (arith, length-erase-le k m)

  pub contains-keys : (k : K) (m : Dict K V) → contains k (keys m) ≡ has k m
  unfolding get contains
  contains-keys k [] = refl
  contains-keys k ((i, w) ∷ m) = ground (arith, contains-keys k m)

  contains-keys-insert :
      (k j : K) (v : V) (m : Dict K V)
      → contains j (keys (insert k v m)) ≡ (k == j || contains j (keys m))
  unfolding insert contains
  contains-keys-insert k j v [] = ground arith
  contains-keys-insert k j v ((i, w) ∷ m) =
      ground (arith, e.beq_iff k j, e.beq_iff i k, e.beq_iff i j, contains-keys-insert k j v m)

  pub insert-Distinct :
      (k : K) (v : V) (m : Dict K V) → Distinct (keys m) → Distinct (keys (insert k v m))
  unfolding insert contains
  insert-Distinct k v [] h = ground arith
  insert-Distinct k v ((i, w) ∷ m) h =
      ground (
        arith,
        e.beq_iff i k,
        e.beq_iff k i,
        insert-Distinct k v m h.1,
        contains-keys-insert k i v m,
      )

  contains-keys-erase :
      (k j : K) (m : Dict K V) → contains j (keys m) ≡ false → contains j (keys (erase k m)) ≡ false
  unfolding erase contains
  contains-keys-erase k j [] h = refl
  contains-keys-erase k j ((i, w) ∷ m) h = ground (arith, contains-keys-erase k j m)

  pub erase-Distinct : (k : K) (m : Dict K V) → Distinct (keys m) → Distinct (keys (erase k m))
  unfolding erase contains
  erase-Distinct k [] h = tt
  erase-Distinct k ((i, w) ∷ m) h =
      ground (arith, erase-Distinct k m h.1, contains-keys-erase k i m h.0)

  -- A predicate of all entries survives a write that meets it, and a deletion.
  pub All-insert {ι} :
      (P : K × V → Type ι) (k : K) (v : V) (m : Dict K V)
      → P (k, v)
      → All P m
      → All P (insert k v m)
  unfolding insert
  All-insert P k v [] p h = (p, tt)
  All-insert P k v ((i, w) ∷ m) p h = ground (arith, e.beq_iff i k, All-insert P k v m p h.1)

  pub All-erase {ι} : (P : K × V → Type ι) (k : K) (m : Dict K V) → All P m → All P (erase k m)
  unfolding erase
  All-erase P k [] h = tt
  All-erase P k ((i, w) ∷ m) h = ground (arith, All-erase P k m h.1)

  pub All-get {ι} :
      (P : K × V → Type ι) (k : K) {v : V} (m : Dict K V) → All P m → get k m ≡ some v → P (k, v)
  unfolding get
  All-get P k [] h q = cc
  All-get P k {v} ((i, w) ∷ m) h q = ground (arith, e.beq_iff i k, All-get P k {v = v} m h.1)

  erase_absent : (k : K) (m : Dict K V) → contains k (keys m) ≡ false → erase k m ≡ m
  unfolding erase contains
  erase_absent k [] h = refl
  erase_absent k ((i, w) ∷ m) h = ground (arith, erase_absent k m)

  pub length-erase :
      (k : K) (m : Dict K V)
      → Distinct (keys m)
      → has k m ≡ true
      → length (erase k m) + 1 ≡ length m
  unfolding erase get
  length-erase k [] d h = cc
  length-erase k ((i, w) ∷ m) d h =
      ground (arith, e.beq_iff i k, length-erase k m d.1, erase_absent k m)

  pub erase-shorter : (k : K) (m : Dict K V) → has k m ≡ true → length (erase k m) + 1 ≤ length m
  unfolding erase get
  erase-shorter k [] h = cc
  erase-shorter k ((i, w) ∷ m) h = ground (arith, erase-shorter k m, length-erase-le k m)

  pub has-empty : (k : K) (m : Dict K V) → length m ≡ 0 → has k m ≡ false
  unfolding get
  has-empty k [] h = refl
  has-empty k (x ∷ m) h = absurd (omega arith)

  -- A deletion leaves the entries of the other keys.
  pub All-erase_ne {ι κ'} :
      (P : K × V → Type ι) (Q : K × V → Type κ') (k : K) (m : Dict K V)
      → ((x : K × V) → (x.0 == k) ≡ false → P x → Q x)
      → All P m
      → All Q (erase k m)
  unfolding erase
  All-erase_ne P Q k [] f h = tt
  All-erase_ne P Q k ((i, w) ∷ m) f h =
      let rest = All-erase_ne P Q k m f h.1 in
      elim (Bool-cases (i == k)) [
        | inl same ↦ rw same rest
        | inr other ↦ rw other (f (i, w) other h.0, rest)
      ]
