-- ===== src/Prelude/Lists.antt =====
-- Lists measured by native numbers, and the tests and searches that run.
use Prim.Native.Nat.{ℕ, zero, suc, ◌+◌, ◌-◌, ◌≤◌}
use mathlib.Core.Path.{◌≡◌, refl}
use mathlib.Core.Bool.{Bool, true, false, ◌||◌, ◌&&◌}
use mathlib.Core.List.{List, [], ◌∷◌, ◌++◌}
use native.Mathlib.Omega.{arith}
use coc.Prelude.Tests.{Eq, ◌==◌, if◌then◌else◌}

module _ {ℓ} {A : Type ℓ} where
  abbrev pub length : List A → ℕ
  length [] = 0
  length (x ∷ xs) = suc (length xs)

  -- `xs.filter(p)`; the rest is computed once.
  unfoldable pub keep : (A → Bool) → List A → List A
  keep p [] = []
  keep p (x ∷ xs) = let rest = keep p xs in if p x then x ∷ rest else rest

  -- `xs.some(p)`
  unfoldable pub some_of : (A → Bool) → List A → Bool
  some_of p [] = false
  some_of p (x ∷ xs) = p x || some_of p xs

  abbrev pub take : ℕ → List A → List A
  take zero xs = []
  take (suc n) [] = []
  take (suc n) (x ∷ xs) = x ∷ take n xs

  abbrev pub drop : ℕ → List A → List A
  drop zero xs = xs
  drop (suc n) [] = []
  drop (suc n) (x ∷ xs) = drop n xs

  pub length-append : (xs ys : List A) → length (xs ++ ys) ≡ length xs + length ys
  length-append [] ys = omega arith
  length-append (x ∷ xs) ys = omega (arith, length-append xs ys)

  pub length-take : (n : ℕ) (xs : List A) → n ≤ length xs → length (take n xs) ≡ n
  length-take zero xs h = refl
  length-take (suc n) [] h = absurd (omega arith)
  length-take (suc n) (x ∷ xs) h = omega (arith, length-take n xs)

  pub length-drop : (n : ℕ) (xs : List A) → length (drop n xs) ≡ length xs - n
  length-drop zero xs = omega arith
  length-drop (suc n) [] = omega arith
  length-drop (suc n) (x ∷ xs) = omega (arith, length-drop n xs)

  pub length-keep-le : (p : A → Bool) (xs : List A) → length (keep p xs) ≤ length xs
  unfolding keep
  length-keep-le p [] = omega arith
  length-keep-le p (x ∷ xs) = ground (arith, length-keep-le p xs)

-- A predicate of every element, by recursion, so that it computes to tuples.
abbrev pub All {ℓ κ} : {A : Type ℓ} → (A → Type κ) → List A → Type κ
All P [] = Unit
All P (x ∷ xs) = P x × All P xs

pub All-map {ℓ κ ι} :
    {A : Type ℓ} (P : A → Type κ) (Q : A → Type ι) (xs : List A)
    → ((x : A) → P x → Q x)
    → All P xs
    → All Q xs
All-map P Q [] f h = tt
All-map P Q (x ∷ xs) f h = (f x h.0, All-map P Q xs f h.1)

pub All-keep {ℓ κ} :
    {A : Type ℓ} (P : A → Type κ) (p : A → Bool) (xs : List A) → All P xs → All P (keep p xs)
unfolding keep
All-keep P p [] h = tt
All-keep P p (x ∷ xs) h = ground (arith, All-keep P p xs h.1)

pub All-take {ℓ κ} :
    {A : Type ℓ} (P : A → Type κ) (n : ℕ) (xs : List A) → All P xs → All P (take n xs)
All-take P zero xs h = tt
All-take P (suc n) [] h = tt
All-take P (suc n) (x ∷ xs) h = (h.0, All-take P n xs h.1)

module _ {ℓ} {A : Type ℓ} ⦃e : Eq A⦄ where
  -- `xs.includes(a)`
  unfoldable pub contains : A → List A → Bool
  contains a [] = false
  contains a (x ∷ xs) = x == a || contains a xs

  -- No element occurs twice.
  abbrev pub Distinct : List A → Type 0
  Distinct [] = Unit
  Distinct (x ∷ xs) = (contains x xs ≡ false) × Distinct xs

  pub contains-keep :
      (a : A) (p : A → Bool) (xs : List A) → contains a xs ≡ false → contains a (keep p xs) ≡ false
  unfolding contains keep
  contains-keep a p [] h = refl
  contains-keep a p (x ∷ xs) h = ground (arith, contains-keep a p xs)

  pub Distinct-keep : (p : A → Bool) (xs : List A) → Distinct xs → Distinct (keep p xs)
  unfolding keep
  Distinct-keep p [] h = tt
  Distinct-keep p (x ∷ xs) h = ground (arith, Distinct-keep p xs h.1, contains-keep x p xs h.0)

  pub contains-keep_iff :
      (a : A) (p : A → Bool) (xs : List A) → contains a (keep p xs) ≡ (contains a xs && p a)
  unfolding contains keep
  contains-keep_iff a p [] = refl
  contains-keep_iff a p (x ∷ xs) = ground (arith, e.beq_iff x a, contains-keep_iff a p xs)

  pub contains-take :
      (a : A) (n : ℕ) (xs : List A) → contains a xs ≡ false → contains a (take n xs) ≡ false
  unfolding contains
  contains-take a zero xs h = refl
  contains-take a (suc n) [] h = refl
  contains-take a (suc n) (x ∷ xs) h = ground (arith, contains-take a n xs)

  pub Distinct-take : (n : ℕ) (xs : List A) → Distinct xs → Distinct (take n xs)
  Distinct-take zero xs h = tt
  Distinct-take (suc n) [] h = tt
  Distinct-take (suc n) (x ∷ xs) h = (contains-take x n xs h.0, Distinct-take n xs h.1)

  -- A predicate that holds of whatever the list contains holds of all its elements.
  pub All-of_contains {κ} :
      (P : A → Type κ) (xs : List A) → ((x : A) → contains x xs ≡ true → P x) → All P xs
  unfolding contains
  All-of_contains P [] f = tt
  All-of_contains P (x ∷ xs) f =
      (f x (ground (arith, e.beq_iff x x)), All-of_contains P xs (λ y c. f y (ground arith)))
