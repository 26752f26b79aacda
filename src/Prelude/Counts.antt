-- ===== src/Prelude/Counts.antt =====
-- How many entries of a Map meet a test.
use Prim.Native.Nat.{ℕ, suc, ◌≤◌}
use mathlib.Core.Path.{◌≡◌}
use mathlib.Core.Bool.{Bool, true, false}
use mathlib.Core.Logic.{inl, inr}
use mathlib.Core.List.{[], ◌∷◌}
use native.Mathlib.Omega.{arith}
use coc.Prelude.Tests.{Bool-cases, Eq, if◌then◌else◌}
use coc.Prelude.Lists.{length, contains, Distinct, All}
use coc.Prelude.Maps.{Dict, keys, has, erase, get-erase, erase-shorter}

-- The number of entries that meet a test.
unfoldable pub count_entries {ℓ κ} : {K : Type ℓ} {V : Type κ} → (K × V → Bool) → Dict K V → ℕ
count_entries p [] = 0
count_entries p (x ∷ m) = let rest = count_entries p m in if p x then suc rest else rest

-- The keys of a map that meet a test are at most as many as those of a map that has them all.
module _ {ℓ κ ι} {K : Type ℓ} {V : Type κ} {W : Type ι} ⦃e : Eq K⦄ where
  abbrev pub IsCounted : (K × V → Bool) → Dict K W → K × V → Type 0
  IsCounted p s x = p x ≡ true → has x.0 s ≡ true

  IsCounted-erase :
      (p : K × V → Bool) (k : K) (s : Dict K W) (m : Dict K V)
      → contains k (keys m) ≡ false
      → All (IsCounted p s) m
      → All (IsCounted p (erase k s)) m
  unfolding contains
  IsCounted-erase p k s [] c h = tt
  IsCounted-erase p k s ((i, w) ∷ m) c h = (
    λ hit. ground (arith, get-erase k i s, h.0 hit, e.beq_iff i k, e.beq_iff k i),
    IsCounted-erase p k s m (ground arith) h.1,
  )

  pub count_entries-le :
      (p : K × V → Bool) (s : Dict K W) (m : Dict K V)
      → Distinct (keys m)
      → All (IsCounted p s) m
      → count_entries p m ≤ length s
  unfolding count_entries
  count_entries-le p s [] d h = omega arith
  count_entries-le p s (x ∷ m) d h = elim (Bool-cases (p x)) [
    | inr miss ↦ rw miss (count_entries-le p s m d.1 h.1)
    | inl hit ↦ rw hit (
        omega (
          arith,
          erase-shorter x.0 s (h.0 hit),
          count_entries-le p (erase x.0 s) m d.1 (IsCounted-erase p x.0 s m d.0 h.1),
        ))
  ]
