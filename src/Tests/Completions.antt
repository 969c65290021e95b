-- ===== src/Tests/Completions.antt =====
-- A deposit and a withdrawal whose calls of Token-2022 have gone through.
use solana_stablecoin_amm.Base.{◌≡◌, refl, ok, checked_add, checked_sub, checked_mul, checked_div}
use solana_stablecoin_amm.Math.{
  RemoveLiquidityQuote, quote_remove_liquidity, quote_add_liquidity, deposit_amounts, add_pair,
  ceil_div, proportional, widen, narrow,
}
use solana_stablecoin_amm.Chain.{Ledger}
use solana_stablecoin_amm.State.{Chain}
use solana_stablecoin_amm.Amm.{
  check_seeds, check_config, check_policy, check_pool, check_user_account, ensure_unpaused,
  ensure_children, ensure_solvent, ensure_seeded, ensure_locked_account,
}
use solana_stablecoin_amm.Amm.Liquidity.{
  LiquidityContext, liquidity_context, ensure_pool, LiquidityRemoved, remove_quote,
  remove_transfers, remove_liquidity,
}
use solana_stablecoin_amm.Amm.Liquidity.Completion.{remove_liquidity_completes}
use solana_stablecoin_amm.Amm.Deposit.{
  LiquidityAdded, DepositAmounts, deposit_quote, later_quote, Expected, expected_totals, add_checks,
  mint_locked, add_transfers, add_liquidity,
}
use solana_stablecoin_amm.Amm.Deposit.Completion.{add_liquidity_completes}
use solana_stablecoin_amm.Tests.Token.{rt, laws, transfer, mint_to, burn}
use solana_stablecoin_amm.Tests.World.{value_of, holding, provided, liquidity_accounts}
use solana_stablecoin_amm.Tests.Programs.{context}
use solana_stablecoin_amm.Tests.Payments.{issue, pool-IsOfThree}

abbrev loaded : LiquidityContext
loaded = record { shared = context; locked_lp = holding 12 11_111 1_000 }

loaded_run : liquidity_context rt liquidity_accounts provided ≡ ok loaded
unfolding liquidity_context check_seeds check_config check_policy check_pool check_user_account
loaded_run = refl

abbrev share : RemoveLiquidityQuote
share = record {
  amount_a = 100_000;
  amount_b = 200_000;
  new_reserve_a = 900_000;
  new_reserve_b = 1_800_000;
  new_lp_supply = 1_350_000;
}

share_run : remove_quote liquidity_accounts loaded 150_000 90_000 190_000 ≡ ok share
unfolding remove_quote ensure_pool ensure_unpaused ensure_children ensure_solvent ensure_seeded
    ensure_locked_account quote_remove_liquidity proportional widen narrow checked_add checked_sub
    checked_mul checked_div
share_run = refl

abbrev paid_out : Ledger
paid_out =
    value_of provided.ledger
      (remove_transfers rt liquidity_accounts loaded 150_000 share provided.ledger)

paid_out_run :
    remove_transfers rt liquidity_accounts loaded 150_000 share provided.ledger ≡ ok paid_out
unfolding remove_transfers transfer burn
paid_out_run = refl

remove_liquidity_completes_example :
    (done : Chain × LiquidityRemoved) × (remove_liquidity rt liquidity_accounts 150_000 90_000
        190_000 provided
      ≡ ok done)
remove_liquidity_completes_example =
    remove_liquidity_completes rt laws issue liquidity_accounts 150_000 90_000 190_000 loaded share
      paid_out provided pool-IsOfThree loaded_run share_run paid_out_run

abbrev amounts : DepositAmounts
amounts = record { amount_a = 10_000; amount_b = 20_000; lp_to_user = 15_000; lp_to_lock = 0 }

abbrev totals : Expected
totals = record { reserve_a = 1_010_000; reserve_b = 2_020_000; lp_supply = 1_515_000 }

amounts_run :
    add_checks liquidity_accounts loaded 10_000 30_000 10_000 19_000 14_000 ≡ ok (amounts, totals)
unfolding add_checks deposit_quote later_quote expected_totals ensure_pool ensure_unpaused
    ensure_children ensure_solvent ensure_seeded ensure_locked_account quote_add_liquidity
    deposit_amounts add_pair ceil_div proportional widen narrow checked_add checked_sub checked_mul
    checked_div
amounts_run = refl

abbrev paid_in : Ledger
paid_in =
    value_of provided.ledger (add_transfers rt liquidity_accounts loaded amounts provided.ledger)

paid_in_run : add_transfers rt liquidity_accounts loaded amounts provided.ledger ≡ ok paid_in
unfolding add_transfers mint_locked transfer mint_to
paid_in_run = refl

add_liquidity_completes_example :
    (done : Chain × LiquidityAdded) × (add_liquidity rt liquidity_accounts 10_000 30_000 10_000
        19_000 14_000 provided
      ≡ ok done)
add_liquidity_completes_example =
    add_liquidity_completes rt laws issue liquidity_accounts 10_000 30_000 10_000 19_000 14_000
      loaded amounts totals paid_in provided pool-IsOfThree loaded_run amounts_run paid_in_run
