-- ===== src/Prelude/Strings.antt =====
-- JavaScript strings as sequences of UTF-16 code units: ===, < and toLowerCase. Lower-casing is
-- exact on ASCII, which the program's ids, addresses and hashes are.
use Prim.Native.Nat.{ℕ, ◌+◌}
use Prim.Native.Char.{code}
use Prim.Native.String.{String}
use mathlib.Core.Path.{◌≡◌, refl}
use mathlib.Core.Logic.{◌↔◌}
use mathlib.Core.Bool.{Bool, true, false, ◌&&◌, ◌||◌}
use mathlib.Core.List.{List, [], ◌∷◌, map}
use native.Mathlib.Omega.{arith}
use coc.Prelude.Tests.{Eq, ltb, leb, if◌then◌else◌, nat_beq}

abbrev pub Text : Type 0
Text = List ℕ

-- The code units of an ASCII literal.
abbrev pub text : String → Text
text String.[] = []
text (String.◌∷◌ c s) = code c ∷ text s

unfoldable pub text_beq : Text → Text → Bool
text_beq [] [] = true
text_beq [] (y ∷ ys) = false
text_beq (x ∷ xs) [] = false
text_beq (x ∷ xs) (y ∷ ys) = nat_beq x y && text_beq xs ys

pub text_beq_iff : (s t : Text) → (text_beq s t ≡ true) ↔ (s ≡ t)
unfolding text_beq
text_beq_iff [] [] = ground arith
text_beq_iff [] (y ∷ ys) = ground arith
text_beq_iff (x ∷ xs) [] = ground arith
text_beq_iff (x ∷ xs) (y ∷ ys) = ground (arith, text_beq_iff xs ys)

instance abbrev pub text_eq : Eq Text
text_eq = record { beq = text_beq; beq_iff = text_beq_iff }

-- `s < t`: the first code unit that differs decides, and a proper prefix is smaller.
unfoldable pub text_lt : Text → Text → Bool
text_lt [] [] = false
text_lt [] (y ∷ ys) = true
text_lt (x ∷ xs) [] = false
text_lt (x ∷ xs) (y ∷ ys) = ltb x y || (nat_beq x y && text_lt xs ys)

pub text_lt_irrefl : (s : Text) → text_lt s s ≡ false
unfolding text_lt
text_lt_irrefl [] = refl
text_lt_irrefl (x ∷ xs) = ground (arith, text_lt_irrefl xs)

pub text_lt_asymm : (s t : Text) → text_lt s t ≡ true → text_lt t s ≡ false
unfolding text_lt
text_lt_asymm [] [] h = refl
text_lt_asymm [] (y ∷ ys) h = refl
text_lt_asymm (x ∷ xs) [] h = ground arith
text_lt_asymm (x ∷ xs) (y ∷ ys) h = ground (arith, text_lt_asymm xs ys)

pub text_lt_trans : (s t u : Text) → text_lt s t ≡ true → text_lt t u ≡ true → text_lt s u ≡ true
unfolding text_lt
text_lt_trans [] [] [] h k = h
text_lt_trans [] [] (z ∷ zs) h k = refl
text_lt_trans [] (y ∷ ys) [] h k = k
text_lt_trans [] (y ∷ ys) (z ∷ zs) h k = refl
text_lt_trans (x ∷ xs) [] [] h k = h
text_lt_trans (x ∷ xs) [] (z ∷ zs) h k = ground arith
text_lt_trans (x ∷ xs) (y ∷ ys) [] h k = k
text_lt_trans (x ∷ xs) (y ∷ ys) (z ∷ zs) h k = ground (arith, text_lt_trans xs ys zs)

pub text_lt_connected : (s t : Text) → text_lt s t ≡ false → text_lt t s ≡ false → s ≡ t
unfolding text_lt
text_lt_connected [] [] h k = refl
text_lt_connected [] (y ∷ ys) h k = ground arith
text_lt_connected (x ∷ xs) [] h k = ground arith
text_lt_connected (x ∷ xs) (y ∷ ys) h k = ground (arith, text_lt_connected xs ys)

-- `s.toLowerCase()`
unfoldable pub lower_unit : ℕ → ℕ
lower_unit c = if leb b'A' c && leb c b'Z' then c + 32 else c

unfoldable pub to_lower_case : Text → Text
unfolding lower_unit
to_lower_case = map lower_unit

lower_unit_idem : (c : ℕ) → lower_unit (lower_unit c) ≡ lower_unit c
unfolding lower_unit
lower_unit_idem c = ground arith

pub to_lower_case_idem : (s : Text) → to_lower_case (to_lower_case s) ≡ to_lower_case s
unfolding to_lower_case
to_lower_case_idem [] = refl
to_lower_case_idem (c ∷ s) = ground (arith, lower_unit_idem c, to_lower_case_idem s)
