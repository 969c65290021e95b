-- ===== src/Tests/Programs.antt =====
-- Runs of the instructions of both programs on a concrete chain.
use solana_stablecoin_amm.Base.{
  ℕ, ◌≡◌, refl, arith, ok, checked_add, checked_sub, checked_mul, checked_div,
}
use solana_stablecoin_amm.Math.{
  SwapQuote, RemoveLiquidityQuote, quote_swap, quote_remove_liquidity, proportional, widen, narrow,
  quote_add_liquidity, deposit_amounts, add_pair, ceil_div,
}
use solana_stablecoin_amm.Chain.{Ledger}
use solana_stablecoin_amm.State.{a_to_b, Chain}
use solana_stablecoin_amm.Amm.{
  PoolContext, pool_context, check_seeds, check_config, check_policy, check_pool,
  check_user_account, ensure_unpaused, ensure_children, ensure_solvent, ensure_seeded,
  ensure_locked_account,
}
use solana_stablecoin_amm.Amm.Liquidity.{
  liquidity_context, ensure_pool, LiquidityRemoved, remove_quote, remove_transfers, remove_settle,
  remove_liquidity,
}
use solana_stablecoin_amm.Amm.Liquidity.Effects.{IsWithdrawn}
use solana_stablecoin_amm.Amm.Liquidity.Payments.{ArePaidOut, remove_liquidity-IsPaid}
use solana_stablecoin_amm.Amm.Swap.{SwapExecuted, swap_quote, swap_transfers, swap_settle, swap}
use solana_stablecoin_amm.Amm.Swap.Effects.{IsSwapped, swap-IsSwapped}
use solana_stablecoin_amm.Amm.Swap.Completion.{swap_completes}
use solana_stablecoin_amm.Amm.Deposit.{
  LiquidityAdded, DepositAmounts, deposit_quote, later_quote, expected_totals, add_checks,
  mint_locked, add_transfers, add_settle, add_liquidity,
}
use solana_stablecoin_amm.Amm.Deposit.Effects.{IsDeposited}
use solana_stablecoin_amm.Amm.Deposit.Payments.{ArePaidIn, add_liquidity-IsPaid}
use solana_stablecoin_amm.Tests.Token.{rt, laws, transfer, mint_to, burn}
use solana_stablecoin_amm.Tests.Payments.{issue, pool-IsOfThree}
use solana_stablecoin_amm.Tests.World.{
  chain_of, value_of, start, pool, pool_accounts, ledger, config, holding, lp, provided,
  liquidity_accounts,
}

abbrev executed : SwapExecuted
executed = record {
  pool = 11_111;
  user = 5;
  direction = a_to_b;
  amount_in = 1_000;
  amount_out = 1_992;
  reserve_a = 1_001_000;
  reserve_b = 1_998_008;
}

abbrev pub swapped : Chain
swapped = chain_of start (swap rt pool_accounts a_to_b 1_000 1_900 start)

pub swap_run : swap rt pool_accounts a_to_b 1_000 1_900 start ≡ ok (swapped, executed)
unfolding swap pool_context swap_quote swap_transfers swap_settle check_seeds check_config
    check_policy check_pool check_user_account ensure_unpaused ensure_children ensure_solvent
    transfer quote_swap widen narrow checked_add checked_sub checked_mul checked_div
swap_run = refl

swap-IsSwapped_example :
    (q : SwapQuote) × IsSwapped pool_accounts a_to_b 1_000 1_900 pool q start swapped
swap-IsSwapped_example =
    swap-IsSwapped rt laws pool_accounts a_to_b 1_000 1_900 pool start refl (ground arith) swap_run

abbrev pub context : PoolContext
context = record {
  pool = pool;
  config_a = config 10;
  config_b = config 11;
  vault_a = holding 10 11_111 1_000_007;
  vault_b = holding 11 11_111 2_000_000;
  lp_mint = lp;
  user_a = holding 10 5 50_000;
  user_b = holding 11 5 60_000;
}

abbrev pub quote : SwapQuote
quote = record { amount_out = 1_992; new_reserve_in = 1_001_000; new_reserve_out = 1_998_008 }

abbrev moved : Ledger
moved = value_of ledger (swap_transfers rt pool_accounts 6 a_to_b 1_000 1_992 ledger)

pub context_run : pool_context rt pool_accounts start ≡ ok context
unfolding pool_context check_seeds check_config check_policy check_pool check_user_account
context_run = refl

quote_run : swap_quote pool_accounts context a_to_b 1_000 1_900 ≡ ok (2_000_000_000_000, quote)
unfolding swap_quote ensure_unpaused ensure_children ensure_solvent quote_swap widen narrow
    checked_add checked_sub checked_mul checked_div
quote_run = refl

transfers_run : swap_transfers rt pool_accounts 6 a_to_b 1_000 1_992 ledger ≡ ok moved
unfolding swap_transfers transfer
transfers_run = refl

swap_completes_example :
    (done : Chain × SwapExecuted) × (swap rt pool_accounts a_to_b 1_000 1_900 start ≡ ok done)
swap_completes_example =
    swap_completes rt laws pool_accounts a_to_b 1_000 1_900 context 2_000_000_000_000 quote moved
      start (ground arith) context_run quote_run transfers_run

abbrev pub withdrawn : Chain
withdrawn =
    chain_of provided (remove_liquidity rt liquidity_accounts 150_000 90_000 190_000 provided)

abbrev liquidity_removed : LiquidityRemoved
liquidity_removed = record {
  pool = 11_111;
  user = 5;
  lp_burned = 150_000;
  amount_a = 100_000;
  amount_b = 200_000;
  reserve_a = 900_000;
  reserve_b = 1_800_000;
  lp_supply = 1_350_000;
}

pub remove_liquidity_run :
    remove_liquidity rt liquidity_accounts 150_000 90_000 190_000 provided
    ≡ ok (withdrawn, liquidity_removed)
unfolding remove_liquidity liquidity_context remove_quote remove_transfers remove_settle ensure_pool
    check_seeds check_config check_policy check_pool check_user_account ensure_unpaused
    ensure_children ensure_solvent ensure_seeded ensure_locked_account transfer burn
    quote_remove_liquidity proportional widen narrow checked_add checked_sub checked_mul checked_div
remove_liquidity_run = refl

abbrev pub deposited : Chain
deposited =
    chain_of provided
      (add_liquidity rt liquidity_accounts 10_000 30_000 10_000 19_000 14_000 provided)

abbrev liquidity_added : LiquidityAdded
liquidity_added = record {
  pool = 11_111;
  user = 5;
  amount_a = 10_000;
  amount_b = 20_000;
  lp_minted = 15_000;
  reserve_a = 1_010_000;
  reserve_b = 2_020_000;
  lp_supply = 1_515_000;
}

pub add_liquidity_run :
    add_liquidity rt liquidity_accounts 10_000 30_000 10_000 19_000 14_000 provided
    ≡ ok (deposited, liquidity_added)
unfolding add_liquidity liquidity_context add_checks deposit_quote later_quote expected_totals
    add_transfers mint_locked add_settle ensure_pool check_seeds check_config check_policy
    check_pool check_user_account ensure_unpaused ensure_children ensure_solvent ensure_seeded
    ensure_locked_account transfer mint_to quote_add_liquidity deposit_amounts add_pair ceil_div
    proportional widen narrow checked_add checked_sub checked_mul checked_div
add_liquidity_run = refl

remove_liquidity-IsPaid_example :
    (locked : ℕ) × (q : RemoveLiquidityQuote) × IsWithdrawn liquidity_accounts 150_000 90_000
      190_000 pool locked q provided withdrawn
    × ArePaidOut liquidity_accounts 150_000 q.amount_a q.amount_b provided.ledger withdrawn.ledger
remove_liquidity-IsPaid_example =
    remove_liquidity-IsPaid rt laws issue liquidity_accounts 150_000 90_000 190_000 pool provided
      refl pool-IsOfThree remove_liquidity_run

add_liquidity-IsPaid_example :
    (q : DepositAmounts) × IsDeposited liquidity_accounts 10_000 30_000 10_000 19_000 14_000 pool q
      provided deposited
    × ArePaidIn liquidity_accounts q provided.ledger deposited.ledger
add_liquidity-IsPaid_example =
    add_liquidity-IsPaid rt laws issue liquidity_accounts 10_000 30_000 10_000 19_000 14_000 pool
      provided refl pool-IsOfThree add_liquidity_run
