-- ===== src/Base/Division.antt =====
-- Floor and ceiling division by a variable, in the multiplied form that `omega` reads.
use Prim.Native.Nat.{ℕ, ◌+◌, ◌*◌, ◌/◌, ◌≤◌, ◌<◌}
use native.Mathlib.Omega.{arith}
use native.Mathlib.Nat.{div-mul-le_self, lt-div-mul-add, le-div_iff_mul-le, div-lt_iff_lt-mul}

-- The quotient times the divisor is at most the dividend, and one more exceeds it.
pub div_bounds : (a b : ℕ) → 0 < b → (a / b * b ≤ a) × (a < a / b * b + b)
div_bounds a b h = (div-mul-le_self a b, lt-div-mul-add h)

pub div-le_of_le-mul : (a b c : ℕ) → 0 < b → a ≤ c * b → a / b ≤ c
div-le_of_le-mul a b c h p = grind (arith, div_bounds a b h)

pub div-lt_of_lt-mul : (a b c : ℕ) → 0 < b → a < c * b → a / b < c
div-lt_of_lt-mul a b c h p = (div-lt_iff_lt-mul h).1 p

pub le-div_of_mul-le : (a b c : ℕ) → 0 < b → c * b ≤ a → c ≤ a / b
le-div_of_mul-le a b c h p = (le-div_iff_mul-le h).1 p
