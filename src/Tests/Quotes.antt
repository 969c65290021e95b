-- ===== src/Tests/Quotes.antt =====
-- Runs of the quotes of programs/amm/src/math.rs.
use solana_stablecoin_amm.Base.{
  ℕ, ◌+◌, ◌*◌, ◌<◌, ◌≤◌, ◌≡◌, refl, arith, ok, checked_add, checked_sub, checked_mul, checked_div,
}
use solana_stablecoin_amm.Math.{
  SwapQuote, InitialLiquidityQuote, AddLiquidityQuote, RemoveLiquidityQuote, integer_sqrt, ceil_div,
  widen, narrow, quote_swap, quote_initial_liquidity, deposit_amounts, proportional, add_pair,
  quote_add_liquidity, quote_remove_liquidity,
}
use solana_stablecoin_amm.Math.Root.Correct.{IsFloorSqrt, integer_sqrt_lem}
use solana_stablecoin_amm.Math.Swap.{swap_spec, quote_swap_lem}
use solana_stablecoin_amm.Math.Swap.Laws.{quote_swap_round_trip, quote_swap_price}
use solana_stablecoin_amm.Math.Initial.{initial_of_root, quote_initial_liquidity_lem}
use solana_stablecoin_amm.Math.Add.{IsDeposit, add_of_pair, quote_add_liquidity_lem}
use solana_stablecoin_amm.Math.Remove.{remove_spec, quote_remove_liquidity_lem}
use solana_stablecoin_amm.Math.Remove.Laws.{quote_remove_liquidity-fair}
use solana_stablecoin_amm.Math.Value.{KeepsValue}
use solana_stablecoin_amm.Math.RoundTrip.{deposit-withdraw}

-- 1,000 into a pool of 1,000,000 and 2,000,000 at 0.3 %.
abbrev there : SwapQuote
there = record { amount_out = 1_992; new_reserve_in = 1_001_000; new_reserve_out = 1_998_008 }

there_run : quote_swap 1_000 1_000_000 2_000_000 30 ≡ ok there
unfolding quote_swap widen narrow checked_add checked_sub checked_mul checked_div
there_run = refl

-- The same input without the fee.
abbrev free : SwapQuote
free = record { amount_out = 1_998; new_reserve_in = 1_001_000; new_reserve_out = 1_998_002 }

free_run : quote_swap 1_000 1_000_000 2_000_000 0 ≡ ok free
unfolding quote_swap widen narrow checked_add checked_sub checked_mul checked_div
free_run = refl

abbrev back : SwapQuote
back = record { amount_out = 999; new_reserve_in = 2_000_000; new_reserve_out = 1_000_001 }

back_run : quote_swap 1_998 1_998_002 1_001_000 0 ≡ ok back
unfolding quote_swap widen narrow checked_add checked_sub checked_mul checked_div
back_run = refl

-- Rounding gives the larger of two small inputs the better price.
abbrev two : SwapQuote
two = record { amount_out = 1; new_reserve_in = 10_002; new_reserve_out = 9_999 }

abbrev four : SwapQuote
four = record { amount_out = 3; new_reserve_in = 10_004; new_reserve_out = 9_997 }

two_run : quote_swap 2 10_000 10_000 0 ≡ ok two
unfolding quote_swap widen narrow checked_add checked_sub checked_mul checked_div
two_run = refl

four_run : quote_swap 4 10_000 10_000 0 ≡ ok four
unfolding quote_swap widen narrow checked_add checked_sub checked_mul checked_div
four_run = refl

integer_sqrt_lem_example :
    (root : ℕ) × (integer_sqrt 1_000_000 ≡ ok root) × IsFloorSqrt 1_000_000 root
integer_sqrt_lem_example = integer_sqrt_lem 1_000_000 (omega arith)

quote_swap_lem_example :
    quote_swap 1_000 1_000_000 2_000_000 30 ≡ swap_spec 1_000 1_000_000 2_000_000 30
quote_swap_lem_example = quote_swap_lem 1_000 1_000_000 2_000_000 30

quote_swap_round_trip_example : 999 ≤ 1_000
quote_swap_round_trip_example =
    quote_swap_round_trip 1_000 1_000_000 2_000_000 0 0 free_run back_run

quote_swap_price_example : (1 ≤ 3) × (3 * 2 < (1 + 1) * 4)
quote_swap_price_example = quote_swap_price 2 4 10_000 10_000 0 (omega arith) two_run four_run

-- The first deposit, of 1,000,000 and 4,000,000.
abbrev first : InitialLiquidityQuote
first = record { lp_to_user = 1_999_000; lp_to_lock = 1_000 }

first_run : quote_initial_liquidity 1_000_000 4_000_000 ≡ ok first
unfolding quote_initial_liquidity integer_sqrt widen narrow checked_add checked_sub checked_mul
first_run = refl

quote_initial_liquidity_lem_example :
    (r : ℕ) × IsFloorSqrt (1_000_000 * 4_000_000) r
    × (quote_initial_liquidity 1_000_000 4_000_000 ≡ initial_of_root r)
quote_initial_liquidity_lem_example =
    quote_initial_liquidity_lem 1_000_000 4_000_000 (omega arith) (omega arith) (omega arith)
      (omega arith)

-- At most 100 and 150 into a pool of 1,000 and 2,001 with 1,500 pool tokens.
quote_add_liquidity_lem_example :
    (p : ℕ) × (r : ℕ) × IsDeposit 100 150 1_000 2_001 p r
    × (quote_add_liquidity 100 150 1_000 2_001 1_500 ≡ add_of_pair p r 1_000 2_001 1_500)
quote_add_liquidity_lem_example =
    quote_add_liquidity_lem 100 150 1_000 2_001 (omega arith) (omega arith) (omega arith)
      (omega arith) (omega arith) (omega arith) 1_500 (omega arith) (omega arith) (omega arith)
      (omega arith)

abbrev added : AddLiquidityQuote
added = record {
  amount_a = 75;
  amount_b = 150;
  lp_minted = 112;
  new_reserve_a = 1_075;
  new_reserve_b = 2_151;
  new_lp_supply = 1_612;
}

added_run : quote_add_liquidity 100 150 1_000 2_001 1_500 ≡ ok added
unfolding quote_add_liquidity deposit_amounts proportional add_pair ceil_div widen narrow
    checked_add checked_sub checked_mul checked_div
added_run = refl

-- Withdrawing what was minted.
abbrev removed : RemoveLiquidityQuote
removed = record {
  amount_a = 74;
  amount_b = 149;
  new_reserve_a = 1_001;
  new_reserve_b = 2_002;
  new_lp_supply = 1_500;
}

removed_run : quote_remove_liquidity 112 1_075 2_151 1_612 ≡ ok removed
unfolding quote_remove_liquidity proportional widen narrow checked_add checked_sub checked_mul
    checked_div
removed_run = refl

quote_remove_liquidity_lem_example :
    quote_remove_liquidity 112 1_075 2_151 1_612 ≡ remove_spec 112 1_075 2_151 1_612
quote_remove_liquidity_lem_example = quote_remove_liquidity_lem 112 1_075 2_151 1_612

quote_remove_liquidity-fair_example :
    ((74 * 1_612 ≤ 112 * 1_075) × (112 * 1_075 < 74 * 1_612 + 1_612))
    × ((149 * 1_612 ≤ 112 * 2_151) × (112 * 2_151 < 149 * 1_612 + 1_612))
    × (1_000 ≤ 1_500)
    × KeepsValue 1_075 2_151 1_612 1_001 2_002 1_500
quote_remove_liquidity-fair_example = quote_remove_liquidity-fair 112 1_075 2_151 1_612 removed_run

deposit-withdraw_example : (74 ≤ 75) × (149 ≤ 150)
deposit-withdraw_example = deposit-withdraw 100 150 1_000 2_001 1_500 added_run removed_run
