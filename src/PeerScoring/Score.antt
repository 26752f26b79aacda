-- ===== src/PeerScoring/Score.antt =====
-- node/src/peer-scoring.ts: scores, which may be negative, and how they are compared and clamped.
use coc.Prelude.{
  ◌≡◌, ℕ, ◌+◌, ◌-◌, leb, Bool, true, false, if◌then◌else◌, arith, inl, inr, refl, Bool-cases,
}

-- negsuc n is -(n + 1).
pub data ℤ : Type 0 where
  pos negsuc : ℕ → ℤ

unfoldable pub leb_int : ℤ → ℤ → Bool
leb_int (pos a) (pos b) = leb a b
leb_int (pos a) (negsuc b) = false
leb_int (negsuc a) (pos b) = true
leb_int (negsuc a) (negsuc b) = leb b a

pub plus_nat : ℤ → ℕ → ℤ
plus_nat (pos a) n = pos (a + n)
plus_nat (negsuc a) n = if leb n a then negsuc (a - n) else pos (n - a - 1)

pub minus_nat : ℤ → ℕ → ℤ
minus_nat (pos a) n = if leb n a then pos (a - n) else negsuc (n - a - 1)
minus_nat (negsuc a) n = negsuc (a + n)

-- `Math.min` and `Math.max`
pub min_int : ℤ → ℤ → ℤ
min_int a b = if leb_int a b then a else b

pub max_int : ℤ → ℤ → ℤ
max_int a b = if leb_int a b then b else a

pub leb_int_refl : (a : ℤ) → leb_int a a ≡ true
unfolding leb_int
leb_int_refl (pos a) = ground arith
leb_int_refl (negsuc a) = ground arith

pub leb_int_trans : (a b c : ℤ) → leb_int a b ≡ true → leb_int b c ≡ true → leb_int a c ≡ true
unfolding leb_int
leb_int_trans (pos a) (pos b) (pos c) h k = ground arith
leb_int_trans (pos a) (pos b) (negsuc c) h k = k
leb_int_trans (pos a) (negsuc b) c h k = absurd (ground arith)
leb_int_trans (negsuc a) (pos b) (pos c) h k = refl
leb_int_trans (negsuc a) (pos b) (negsuc c) h k = absurd (ground arith)
leb_int_trans (negsuc a) (negsuc b) (pos c) h k = refl
leb_int_trans (negsuc a) (negsuc b) (negsuc c) h k = ground arith

pub leb_int_total : (a b : ℤ) → leb_int a b ≡ false → leb_int b a ≡ true
unfolding leb_int
leb_int_total (pos a) (pos b) h = ground arith
leb_int_total (pos a) (negsuc b) h = refl
leb_int_total (negsuc a) (pos b) h = absurd (ground arith)
leb_int_total (negsuc a) (negsuc b) h = ground arith

pub leb-plus_nat : (a : ℤ) (n : ℕ) → leb_int a (plus_nat a n) ≡ true
unfolding leb_int plus_nat
leb-plus_nat (pos a) n = ground arith
leb-plus_nat (negsuc a) n = ground arith

pub leb-minus_nat : (a : ℤ) (n : ℕ) → leb_int (minus_nat a n) a ≡ true
unfolding leb_int minus_nat
leb-minus_nat (pos a) n = ground arith
leb-minus_nat (negsuc a) n = ground arith

-- A score between two bounds.
unfoldable pub IsBetween : ℤ → ℤ → ℤ → Type 0
IsBetween low high a = (leb_int low a ≡ true) × (leb_int a high ≡ true)

pub min_int-IsBetween :
    (low high a : ℤ)
    → leb_int low a ≡ true
    → leb_int low high ≡ true
    → IsBetween low high (min_int a high)
unfolding min_int IsBetween
min_int-IsBetween low high a h k = elim (Bool-cases (leb_int a high)) [
  | inl below ↦ rw below (h, below)
  | inr above ↦ rw above (k, leb_int_refl high)
]

pub max_int-IsBetween :
    (low high a : ℤ)
    → leb_int a high ≡ true
    → leb_int low high ≡ true
    → IsBetween low high (max_int a low)
unfolding max_int IsBetween
max_int-IsBetween low high a h k = elim (Bool-cases (leb_int a low)) [
  | inl below ↦ rw below (leb_int_refl low, k)
  | inr above ↦ rw above (leb_int_total a low above, h)
]
