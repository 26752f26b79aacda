-- ===== src/Prelude/Slices.antt =====
-- Parts of lists by position: take, drop and append, as of subarrays.
use Prim.Native.Nat.{ℕ, zero, suc, ◌+◌, ◌-◌, ◌≤◌}
use mathlib.Core.Path.{◌≡◌, refl, ap, ◌∙◌}
use mathlib.Core.Option.{Option, none, some}
use mathlib.Core.List.{List, [], ◌∷◌, ◌++◌}
use native.Mathlib.Omega.{arith}
use coc.Prelude.Lists.{length, take, drop, All}

module _ {ℓ} {A : Type ℓ} where
  -- `xs[i]`, `none` for undefined
  unfoldable pub item_at : ℕ → List A → Option A
  item_at i [] = none
  item_at zero (x ∷ xs) = some x
  item_at (suc i) (x ∷ xs) = item_at i xs

  pub take-length : (xs : List A) → take (length xs) xs ≡ xs
  take-length [] = refl
  take-length (x ∷ xs) = ap (◌∷◌ x) (take-length xs)

  pub drop-length : (xs : List A) → drop (length xs) xs ≡ []
  drop-length [] = refl
  drop-length (x ∷ xs) = drop-length xs

  pub length-take-le : (n : ℕ) (xs : List A) → length (take n xs) ≤ n
  length-take-le zero xs = omega arith
  length-take-le (suc n) [] = omega arith
  length-take-le (suc n) (x ∷ xs) = omega (arith, length-take-le n xs)

  -- The first part of an append, of exactly its length.
  pub take-append : (n : ℕ) (xs ys : List A) → n ≡ length xs → take n (xs ++ ys) ≡ xs
  take-append zero [] ys h = refl
  take-append zero (x ∷ xs) ys h = absurd (omega arith)
  take-append (suc n) [] ys h = absurd (omega arith)
  take-append (suc n) (x ∷ xs) ys h = ap (◌∷◌ x) (take-append n xs ys (omega arith))

  pub drop-append : (n : ℕ) (xs ys : List A) → n ≡ length xs → drop n (xs ++ ys) ≡ ys
  drop-append zero [] ys h = refl
  drop-append zero (x ∷ xs) ys h = absurd (omega arith)
  drop-append (suc n) [] ys h = absurd (omega arith)
  drop-append (suc n) (x ∷ xs) ys h = drop-append n xs ys (omega arith)

  pub drop-nil : (n : ℕ) → drop {A = A} n [] ≡ []
  drop-nil zero = refl
  drop-nil (suc n) = refl

  pub take-nil : (n : ℕ) → take {A = A} n [] ≡ []
  take-nil zero = refl
  take-nil (suc n) = refl

  pub drop-drop : (n k : ℕ) (xs : List A) → drop n (drop k xs) ≡ drop (k + n) xs
  drop-drop n zero xs = ap (λ m. drop m xs) (omega arith)
  drop-drop n (suc k) [] = rw (drop-nil n, drop-nil (suc k + n)) refl
  drop-drop n (suc k) (x ∷ xs) =
      let shift : suc k + n ≡ suc (k + n) = omega arith in rw shift (drop-drop n k xs)

  pub drop-take : (n m : ℕ) (xs : List A) → drop n (take m xs) ≡ take (m - n) (drop n xs)
  drop-take zero m xs = ap (λ k. take k xs) (omega arith)
  drop-take (suc n) zero xs = let nothing : 0 - suc n ≡ 0 = omega arith in rw nothing refl
  drop-take (suc n) (suc m) [] = rw (take-nil (suc m - suc n)) refl
  drop-take (suc n) (suc m) (x ∷ xs) =
      let shift : suc m - suc n ≡ m - n = omega arith in rw shift (drop-take n m xs)

  pub take-append-drop : (n : ℕ) (xs : List A) → take n xs ++ drop n xs ≡ xs
  take-append-drop zero xs = refl
  take-append-drop (suc n) [] = refl
  take-append-drop (suc n) (x ∷ xs) = ap (◌∷◌ x) (take-append-drop n xs)

  -- A cut inside the first part.
  pub take-append-le : (n : ℕ) (xs ys : List A) → n ≤ length xs → take n (xs ++ ys) ≡ take n xs
  take-append-le zero xs ys h = refl
  take-append-le (suc n) [] ys h = absurd (omega arith)
  take-append-le (suc n) (x ∷ xs) ys h = ap (◌∷◌ x) (take-append-le n xs ys (omega arith))

  pub drop-append-le :
      (n : ℕ) (xs ys : List A) → n ≤ length xs → drop n (xs ++ ys) ≡ drop n xs ++ ys
  drop-append-le zero xs ys h = refl
  drop-append-le (suc n) [] ys h = absurd (omega arith)
  drop-append-le (suc n) (x ∷ xs) ys h = drop-append-le n xs ys (omega arith)

  -- A cut inside the second part.
  pub take-append-ge :
      (n : ℕ) (xs ys : List A) → length xs ≤ n → take n (xs ++ ys) ≡ xs ++ take (n - length xs) ys
  take-append-ge n [] ys h = ap (λ k. take k ys) (omega arith)
  take-append-ge zero (x ∷ xs) ys h = absurd (omega arith)
  take-append-ge (suc n) (x ∷ xs) ys h =
      let shift : n - length xs ≡ suc n - suc (length xs) = omega arith in
      ap (◌∷◌ x) (take-append-ge n xs ys (omega arith) ∙ ap (λ k. xs ++ take k ys) shift)

-- A predicate that holds of every item by its place.
pub All-of_items {ℓ κ} :
    {A : Type ℓ} (P : A → Type κ) (xs : List A)
    → ((i : ℕ) (x : A) → item_at i xs ≡ some x → P x)
    → All P xs
unfolding item_at
All-of_items P [] f = tt
All-of_items P (x ∷ xs) f = (f 0 x refl, All-of_items P xs (λ i y at. f (suc i) y at))

-- `xs.splice(i, 1)`
unfoldable pub remove_at {ℓ} : {A : Type ℓ} → ℕ → List A → List A
remove_at i [] = []
remove_at zero (x ∷ xs) = xs
remove_at (suc i) (x ∷ xs) = x ∷ remove_at i xs

pub All-remove_at {ℓ κ} :
    {A : Type ℓ} (P : A → Type κ) (i : ℕ) (xs : List A) → All P xs → All P (remove_at i xs)
unfolding remove_at
All-remove_at P i [] h = tt
All-remove_at P zero (x ∷ xs) h = h.1
All-remove_at P (suc i) (x ∷ xs) h = (h.0, All-remove_at P i xs h.1)

pub All-item_at {ℓ κ} :
    {A : Type ℓ} (P : A → Type κ) (i : ℕ) (xs : List A) {x : A}
    → All P xs
    → item_at i xs ≡ some x
    → P x
unfolding item_at
All-item_at P i [] h e = absurd (ground arith)
All-item_at P zero (y ∷ xs) h e = ground (arith, h.0)
All-item_at P (suc i) (y ∷ xs) h e = All-item_at P i xs h.1 e

pub All-append {ℓ κ} :
    {A : Type ℓ} (P : A → Type κ) (xs ys : List A) → All P xs → All P ys → All P (xs ++ ys)
All-append P [] ys h k = k
All-append P (x ∷ xs) ys h k = (h.0, All-append P xs ys h.1 k)
