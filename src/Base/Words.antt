-- ===== src/Base/Words.antt =====
-- Checked arithmetic of the unsigned machine integers: `none` is an overflow. The first argument
-- of `checked_add` and `checked_mul` is the width in bits.
use Prim.Native.Nat.{ℕ, ◌+◌, ◌-◌, ◌*◌, ◌/◌, ◌^◌, ◌≤◌, ◌<◌}
use mathlib.Core.Path.{◌≡◌}
use mathlib.Core.Option.{Option, none, some}
use native.Mathlib.Omega.{arith}
use solana_stablecoin_amm.Base.Tests.{ltb, leb, ◌==◌, if◌then◌else◌, lt→ltb, le→leb}

unfoldable pub checked_add : ℕ → ℕ → ℕ → Option ℕ
checked_add w a b = if ltb (a + b) (2 ^ w) then some (a + b) else none

unfoldable pub checked_sub : ℕ → ℕ → Option ℕ
checked_sub a b = if leb b a then some (a - b) else none

unfoldable pub checked_mul : ℕ → ℕ → ℕ → Option ℕ
checked_mul w a b = if ltb (a * b) (2 ^ w) then some (a * b) else none

unfoldable pub checked_div : ℕ → ℕ → Option ℕ
checked_div a b = if b == 0 then none else some (a / b)

pub checked_add-some : (w a b : ℕ) → a + b < 2 ^ w → checked_add w a b ≡ some (a + b)
unfolding checked_add
checked_add-some w a b h = rw (lt→ltb (a + b) (2 ^ w) h)

pub checked_mul-some : (w a b : ℕ) → a * b < 2 ^ w → checked_mul w a b ≡ some (a * b)
unfolding checked_mul
checked_mul-some w a b h = rw (lt→ltb (a * b) (2 ^ w) h)

pub checked_sub-some : (a b : ℕ) → b ≤ a → checked_sub a b ≡ some (a - b)
unfolding checked_sub
checked_sub-some a b h = rw (le→leb b a h)

pub checked_div-some : (a b : ℕ) → 0 < b → checked_div a b ≡ some (a / b)
unfolding checked_div
checked_div-some a b h = ground arith
