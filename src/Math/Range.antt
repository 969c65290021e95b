-- ===== src/Math/Range.antt =====
-- The range checks `widen` and `narrow`, and the products that stay inside `u128` because every
-- amount is at most `MAX_SUPPLY_CAP`.
use native.Mathlib.Nat.{mul-le-mul}
use solana_stablecoin_amm.Base.{
  ℕ, ◌*◌, ◌/◌, ◌^◌, ◌<◌, ◌≤◌, ◌≡◌, arith, ltb, if◌then◌else◌, ok, err, checked_mul-some,
  checked_div-some, if-false, if-true, le→not-ltb, lt→ltb,
}
use solana_stablecoin_amm.Math.{value_out_of_range, max_supply_cap, widen, narrow, proportional}

pub widen-ok : (v : ℕ) → v ≤ max_supply_cap → widen v ≡ ok v
unfolding widen
widen-ok v h = if-false _ _ _ (le→not-ltb _ _ h)

pub widen-err : (v : ℕ) → max_supply_cap < v → widen v ≡ err value_out_of_range
unfolding widen
widen-err v h = if-true _ _ _ (lt→ltb _ _ h)

pub narrow-ok : (v : ℕ) → v ≤ max_supply_cap → narrow v ≡ ok v
unfolding narrow
narrow-ok v h = ground arith

pub narrow-err : (v : ℕ) → max_supply_cap < v → narrow v ≡ err value_out_of_range
unfolding narrow
narrow-err v h = ground arith

-- Products of two or three capped factors.
pub mul_small : (a b : ℕ) → a ≤ max_supply_cap → b ≤ max_supply_cap → a * b < 2 ^ 128
mul_small a b ha hb = omega (arith, mul-le-mul ha hb)

pub mul_mul_small :
    (a m b : ℕ) → a ≤ max_supply_cap → m ≤ 10_000 → b ≤ max_supply_cap → a * m * b < 2 ^ 128
mul_mul_small a m b ha hm hb = omega (arith, mul-le-mul (mul-le-mul ha hm) hb)

-- With capped factors and a divisor that is not zero, `amount * factor / divisor` is computed.
pub proportional-ok :
    (amount factor divisor : ℕ)
    → amount ≤ max_supply_cap
    → factor ≤ max_supply_cap
    → 0 < divisor
    → proportional amount factor divisor ≡ ok (amount * factor / divisor)
unfolding proportional
proportional-ok a f d ha hf hd =
    rw (checked_mul-some 128 a f (mul_small a f ha hf), checked_div-some _ d hd)

pub narrow_lem :
    (v : ℕ) → narrow v ≡ (if ltb max_supply_cap v then err value_out_of_range else ok v)
unfolding narrow
narrow_lem v = ground arith
