-- ===== src/Prelude/Products.antt =====
-- Products and quotients of numbers, for sums of shares.
use Prim.Native.Nat.{ℕ, ◌*◌, ◌/◌, ◌≤◌, ◌<◌}
use native.Mathlib.Omega.{arith}

pub mul_mono : (a b c d : ℕ) → a ≤ b → c ≤ d → a * c ≤ b * d
mul_mono a b c d h k = grind arith

pub div_mono : (a b t : ℕ) → a ≤ b → a / t ≤ b / t
div_mono a b t h = grind arith

pub cancel_right : (a b t : ℕ) → 0 < t → a * t ≤ b * t → a ≤ b
cancel_right a b t h k = grind arith

pub quotient_le : (n x : ℕ) → x * (n / x) ≤ n
quotient_le n x = omega arith
