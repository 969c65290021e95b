-- ===== src/Math.antt =====
-- The pool arithmetic of programs/amm/src/math.rs, with the constants that it reads from
-- programs/amm/src/constants.rs and programs/stablecoin/src/constants.rs. A `u64`, `u128` or `u16`
-- is a natural number; every operation that can overflow is the checked one of `Base`, at the
-- source's width. The two loops of `integer_sqrt` recur on the accessibility of `bit`, which falls
-- at each turn, so they need no fuel. `b >> n` is written `b / 2 ^ n`.
pub mod Root
pub mod Range
pub mod Value
pub mod Swap
pub mod Initial
pub mod Add
pub mod Remove
pub mod RoundTrip
unfoldable pub use Root.{integer_sqrt}
pub use Root.*
use solana_stablecoin_amm.Base.{
  ℕ, suc, ◌+◌, ◌/◌, ◌%◌, ◌^◌, ◌<◌, min, Bool, ◌||◌, arith, ltb, leb, ◌==◌, if◌then◌else◌, Result,
  ok, err, ◌>>=◌, ◌>>◌, guard, ok_or, not, checked_add, checked_sub, checked_mul, checked_div,
}

abbrev pub max_supply_cap : ℕ
max_supply_cap = 1_000_000_000_000_000

abbrev pub fee_denominator : ℕ
fee_denominator = 10_000

abbrev pub max_fee_bps : ℕ
max_fee_bps = 100

abbrev pub minimum_liquidity : ℕ
minimum_liquidity = 1_000

pub record SwapQuote : Type 0 where
  pub amount_out : ℕ
  pub new_reserve_in : ℕ
  pub new_reserve_out : ℕ

pub record InitialLiquidityQuote : Type 0 where
  pub lp_to_user : ℕ
  pub lp_to_lock : ℕ

pub record AddLiquidityQuote : Type 0 where
  pub amount_a : ℕ
  pub amount_b : ℕ
  pub lp_minted : ℕ
  pub new_reserve_a : ℕ
  pub new_reserve_b : ℕ
  pub new_lp_supply : ℕ

pub record RemoveLiquidityQuote : Type 0 where
  pub amount_a : ℕ
  pub amount_b : ℕ
  pub new_reserve_a : ℕ
  pub new_reserve_b : ℕ
  pub new_lp_supply : ℕ

unfoldable pub ceil_div : ℕ → ℕ → Result MathError ℕ
ceil_div numerator denominator =
    if denominator == 0
    then err zero_amount
    else if numerator % denominator == 0
    then ok (numerator / denominator)
    else ok_or (checked_add 128 (numerator / denominator) 1) math_overflow

unfoldable pub widen : ℕ → Result MathError ℕ
widen value = if ltb max_supply_cap value then err value_out_of_range else ok value

-- `u64::try_from`
unfoldable pub narrow : ℕ → Result MathError ℕ
narrow value =
    if ltb value (2 ^ 64)
    then (if ltb max_supply_cap value then err value_out_of_range else ok value)
    else err value_out_of_range

unfoldable pub quote_swap : ℕ → ℕ → ℕ → ℕ → Result MathError SwapQuote
quote_swap amount_in_u64 reserve_in_u64 reserve_out_u64 fee_bps = do
  guard (not (amount_in_u64 == 0)) zero_amount
  guard (not (reserve_in_u64 == 0 || reserve_out_u64 == 0)) insufficient_liquidity
  guard (leb fee_bps max_fee_bps) invalid_fee
  amount_in ← widen amount_in_u64
  reserve_in ← widen reserve_in_u64
  reserve_out ← widen reserve_out_u64
  fee_multiplier ← ok_or (checked_sub fee_denominator fee_bps) invalid_fee
  in_with_fee ← ok_or (checked_mul 128 amount_in fee_multiplier) math_overflow
  numerator ← ok_or (checked_mul 128 in_with_fee reserve_out) math_overflow
  scaled ← ok_or (checked_mul 128 reserve_in fee_denominator) math_overflow
  denominator ← ok_or (checked_add 128 scaled in_with_fee) math_overflow
  amount_out ← ok_or (checked_div numerator denominator) math_overflow
  guard (not (amount_out == 0)) zero_output
  guard (ltb amount_out reserve_out) insufficient_liquidity
  new_reserve_in ← ok_or (checked_add 128 reserve_in amount_in) math_overflow
  new_reserve_out ← ok_or (checked_sub reserve_out amount_out) math_overflow
  old_k ← ok_or (checked_mul 128 reserve_in reserve_out) math_overflow
  new_k ← ok_or (checked_mul 128 new_reserve_in new_reserve_out) math_overflow
  guard (leb old_k new_k) invalid_liquidity_state
  out ← narrow amount_out
  after_in ← narrow new_reserve_in
  after_out ← narrow new_reserve_out
  ok (record { amount_out = out; new_reserve_in = after_in; new_reserve_out = after_out })

unfoldable pub quote_initial_liquidity : ℕ → ℕ → Result MathError InitialLiquidityQuote
quote_initial_liquidity amount_a amount_b = do
  guard (not (amount_a == 0 || amount_b == 0)) zero_amount
  a ← widen amount_a
  b ← widen amount_b
  product ← ok_or (checked_mul 128 a b) math_overflow
  lp_total ← integer_sqrt product
  guard (ltb minimum_liquidity lp_total) insufficient_initial_liquidity
  user ← ok_or (checked_sub lp_total minimum_liquidity) math_overflow
  lp_to_user ← narrow user
  ok (record { lp_to_user = lp_to_user; lp_to_lock = minimum_liquidity })

-- `a_optimal > a_desired` is an error, and otherwise the pair that the `if` yields.
unfoldable pub deposit_amounts : ℕ → ℕ → ℕ → ℕ → Result MathError (ℕ × ℕ)
deposit_amounts a_desired b_desired reserve_a reserve_b = do
  b_scaled ← ok_or (checked_mul 128 a_desired reserve_b) math_overflow
  b_optimal ← ceil_div b_scaled reserve_a
  if leb b_optimal b_desired then ok (a_desired, b_optimal) else (do
    a_scaled ← ok_or (checked_mul 128 b_desired reserve_a) math_overflow
    a_optimal ← ceil_div a_scaled reserve_b
    guard (leb a_optimal a_desired) value_out_of_range
    ok (a_optimal, b_desired))

-- `amount * lp_supply / reserve`
unfoldable pub proportional : ℕ → ℕ → ℕ → Result MathError ℕ
proportional amount factor divisor = do
  product ← ok_or (checked_mul 128 amount factor) math_overflow
  ok_or (checked_div product divisor) math_overflow

-- `quote_add_liquidity` from the chosen pair on.
unfoldable pub add_pair : ℕ → ℕ → ℕ → ℕ → ℕ → Result MathError AddLiquidityQuote
add_pair amount_a amount_b reserve_a reserve_b lp_supply = do
  lp_from_a ← proportional amount_a lp_supply reserve_a
  lp_from_b ← proportional amount_b lp_supply reserve_b
  let lp_minted = min lp_from_a lp_from_b
  guard (not (lp_minted == 0)) zero_output
  taken_a ← narrow amount_a
  taken_b ← narrow amount_b
  minted ← narrow lp_minted
  sum_a ← ok_or (checked_add 128 reserve_a amount_a) math_overflow
  new_a ← narrow sum_a
  sum_b ← ok_or (checked_add 128 reserve_b amount_b) math_overflow
  new_b ← narrow sum_b
  sum_lp ← ok_or (checked_add 128 lp_supply lp_minted) math_overflow
  new_lp ← narrow sum_lp
  ok (record {
    amount_a = taken_a;
    amount_b = taken_b;
    lp_minted = minted;
    new_reserve_a = new_a;
    new_reserve_b = new_b;
    new_lp_supply = new_lp;
  })

unfoldable pub quote_add_liquidity : ℕ → ℕ → ℕ → ℕ → ℕ → Result MathError AddLiquidityQuote
quote_add_liquidity amount_a_desired amount_b_desired reserve_a_u64 reserve_b_u64 lp_supply_u64 = do
  guard (not (amount_a_desired == 0 || amount_b_desired == 0)) zero_amount
  guard (not (reserve_a_u64 == 0 || reserve_b_u64 == 0)) insufficient_liquidity
  guard (leb minimum_liquidity lp_supply_u64) invalid_liquidity_state
  a_desired ← widen amount_a_desired
  b_desired ← widen amount_b_desired
  reserve_a ← widen reserve_a_u64
  reserve_b ← widen reserve_b_u64
  lp_supply ← widen lp_supply_u64
  (amount_a, amount_b) ← deposit_amounts a_desired b_desired reserve_a reserve_b
  add_pair amount_a amount_b reserve_a reserve_b lp_supply

unfoldable pub quote_remove_liquidity : ℕ → ℕ → ℕ → ℕ → Result MathError RemoveLiquidityQuote
quote_remove_liquidity lp_amount_u64 reserve_a_u64 reserve_b_u64 lp_supply_u64 = do
  guard (not (lp_amount_u64 == 0)) zero_amount
  guard (not (reserve_a_u64 == 0 || reserve_b_u64 == 0)) insufficient_liquidity
  guard (leb minimum_liquidity lp_supply_u64) invalid_liquidity_state
  guard (leb lp_amount_u64 lp_supply_u64) insufficient_liquidity
  lp_amount ← widen lp_amount_u64
  reserve_a ← widen reserve_a_u64
  reserve_b ← widen reserve_b_u64
  lp_supply ← widen lp_supply_u64
  remaining_lp ← ok_or (checked_sub lp_supply lp_amount) math_overflow
  guard (leb minimum_liquidity remaining_lp) insufficient_liquidity
  amount_a ← proportional lp_amount reserve_a lp_supply
  amount_b ← proportional lp_amount reserve_b lp_supply
  guard (not (amount_a == 0 || amount_b == 0)) zero_output
  out_a ← narrow amount_a
  out_b ← narrow amount_b
  left_a ← ok_or (checked_sub reserve_a amount_a) math_overflow
  new_a ← narrow left_a
  left_b ← ok_or (checked_sub reserve_b amount_b) math_overflow
  new_b ← narrow left_b
  new_lp ← narrow remaining_lp
  ok (record {
    amount_a = out_a;
    amount_b = out_b;
    new_reserve_a = new_a;
    new_reserve_b = new_b;
    new_lp_supply = new_lp;
  })
