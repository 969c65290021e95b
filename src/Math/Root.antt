-- ===== src/Math/Root.antt =====
-- `MathError` and `integer_sqrt` of programs/amm/src/math.rs.
pub mod Correct
use mathlib.Core.WellFounded.{Acc}
use solana_stablecoin_amm.Base.{
  ℕ, zero, suc, ◌-◌, ◌/◌, ◌^◌, ◌<◌, arith, ltb, leb, ◌≡◌, refl, if◌then◌else◌, Result, ok, ◌>>=◌,
  ok_or, checked_add, checked_sub,
}
use mathlib.Core.Logic.{dite}
use native.Mathlib.Decide.{dec_lt}

pub data MathError : Type 0 where
  zero_amount invalid_fee insufficient_liquidity insufficient_initial_liquidity : MathError
  zero_output invalid_liquidity_state value_out_of_range math_overflow : MathError

Acc-below : (k n : ℕ) → n < k → Acc ◌<◌ n
Acc-below zero n h = elim h [ ]
Acc-below (suc k) n h = Acc.intro n (λ m hm. Acc-below k m (omega arith))

-- Every number is accessible: this starts both loops.
lt_accessible : (n : ℕ) → Acc ◌<◌ n
unfolding Acc-below
lt_accessible n = Acc-below (suc n) n (omega arith)

-- `while bit > value { bit >>= 2; }`. At zero the test fails whatever `value` is.
align_bit : (bit value : ℕ) → Acc ◌<◌ bit → ℕ
align_bit bit value (Acc.intro _ smaller) =
    dite (dec_lt value bit)
      (λ h. align_bit (bit / 2 ^ 2) value (smaller (bit / 2 ^ 2) (omega arith))) (λ _. bit)

-- One turn of the second loop: the new `remainder` and `root`.
sqrt_turn : ℕ → ℕ → ℕ → Result MathError (ℕ × ℕ)
sqrt_turn bit remainder root = do
  candidate ← ok_or (checked_add 128 root bit) math_overflow
  if leb candidate remainder
      then (do
        less ← ok_or (checked_sub remainder candidate) math_overflow
        more ← ok_or (checked_add 128 (root / 2 ^ 1) bit) math_overflow
        ok (less, more))
      else ok (remainder, root / 2 ^ 1)

-- `while bit != 0 { … }`
sqrt_loop : (bit remainder root : ℕ) → Acc ◌<◌ bit → Result MathError ℕ
sqrt_loop bit remainder root (Acc.intro _ smaller) =
    dite (dec_lt 0 bit)
      (λ h. sqrt_turn bit remainder root >>= λ (less, half).
        sqrt_loop (bit / 2 ^ 2) less half (smaller (bit / 2 ^ 2) (omega arith)))
      (λ _. ok root)

-- The two loops, for a value of two or more.
sqrt_above_one : ℕ → Result MathError ℕ
unfolding lt_accessible align_bit sqrt_turn sqrt_loop dec_lt
sqrt_above_one value =
    let bit = align_bit (2 ^ 126) value (lt_accessible (2 ^ 126)) in
    sqrt_loop bit value 0 (lt_accessible bit)

unfoldable pub integer_sqrt : ℕ → Result MathError ℕ
unfolding sqrt_above_one
integer_sqrt value = if ltb value 2 then ok value else sqrt_above_one value

integer_sqrt_examples :
    (integer_sqrt 15 ≡ ok 3)
    × (integer_sqrt 16 ≡ ok 4)
    × (integer_sqrt (2 ^ 64 - 1) ≡ ok 4_294_967_295)
    × (integer_sqrt (2 ^ 128 - 1) ≡ ok (2 ^ 64 - 1))
unfolding integer_sqrt checked_add checked_sub
integer_sqrt_examples = (refl, refl, refl, refl)
