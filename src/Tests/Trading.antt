-- ===== src/Tests/Trading.antt =====
-- A withdrawal and a deposit after a history of both programs.
use solana_stablecoin_amm.Base.{
  ◌≡◌, refl, arith, some, ok, checked_add, checked_sub, checked_mul, checked_div,
}
use solana_stablecoin_amm.Math.{
  RemoveLiquidityQuote, quote_remove_liquidity, quote_add_liquidity, deposit_amounts, add_pair,
  proportional, ceil_div, widen, narrow,
}
use solana_stablecoin_amm.Chain.{Ledger, update}
use solana_stablecoin_amm.State.{Pool, Chain}
use solana_stablecoin_amm.Amm.{
  pool_context, check_seeds, check_config, check_policy, check_pool, check_user_account,
  ensure_unpaused, ensure_children, ensure_solvent, ensure_seeded, ensure_locked_account,
}
use solana_stablecoin_amm.Amm.Liquidity.{
  LiquidityRemoved, liquidity_context, ensure_pool, remove_quote, remove_transfers, remove_settle,
  remove_liquidity,
}
use solana_stablecoin_amm.Amm.Liquidity.Payments.{ArePaidOut}
use solana_stablecoin_amm.Amm.Deposit.{
  DepositAmounts, LiquidityAdded, later_quote, deposit_quote, expected_totals, add_checks,
  mint_locked, add_transfers, add_settle, add_liquidity,
}
use solana_stablecoin_amm.Amm.Deposit.Checks.{IsPlanned}
use solana_stablecoin_amm.Amm.Deposit.Payments.{ArePaidIn}
use solana_stablecoin_amm.History.{Step, Reach, Outside}
use solana_stablecoin_amm.History.Trading.{reachable-remove_liquidity, reachable-add_liquidity}
use solana_stablecoin_amm.History.Seeded.{LeavesMinimum, deposited_pool-IsStocked}
use solana_stablecoin_amm.History.Seeded.Named.{IsStocked}
use solana_stablecoin_amm.Tests.Supplies.{supplies}
use solana_stablecoin_amm.Tests.Token.{rt, laws, addresses, transfer, mint_to, burn}
use solana_stablecoin_amm.Tests.Payments.{issue}
use solana_stablecoin_amm.Tests.World.{chain_of, holding}
use solana_stablecoin_amm.Tests.Coins.{fresh}
use solana_stablecoin_amm.Tests.Histories.{
  pool_ledger, with_user_b, providing, seeded, history, fresh-IsFresh,
}

-- The provider has the pool tokens of the first deposit.
abbrev provided_ledger : Ledger
provided_ledger = record (with_user_b (pool_ledger 10_000 40_000 1_000 20_000)) {
  accounts =
      update (with_user_b (pool_ledger 10_000 40_000 1_000 20_000)).accounts 25
        (some (holding 7_012_211 5 19_000));
}

abbrev provided : Chain
provided = record seeded { ledger = provided_ledger }

later : Reach rt fresh provided
later = Reach.next history (Step.outside provided_ledger refl)

abbrev withdrawn : Chain
withdrawn = chain_of provided (remove_liquidity rt providing 5_000 2_500 10_000 provided)

abbrev liquidity_removed : LiquidityRemoved
liquidity_removed = record {
  pool = 11_111;
  user = 5;
  lp_burned = 5_000;
  amount_a = 2_500;
  amount_b = 10_000;
  reserve_a = 7_500;
  reserve_b = 30_000;
  lp_supply = 15_000;
}

withdrawn_run :
    remove_liquidity rt providing 5_000 2_500 10_000 provided ≡ ok (withdrawn, liquidity_removed)
unfolding remove_liquidity liquidity_context remove_quote remove_transfers remove_settle ensure_pool
    check_seeds check_config check_policy check_pool check_user_account ensure_unpaused
    ensure_children ensure_solvent ensure_seeded ensure_locked_account transfer burn
    quote_remove_liquidity proportional widen narrow checked_add checked_sub checked_mul checked_div
    pool_context
withdrawn_run = refl

abbrev grown : Chain
grown = chain_of provided (add_liquidity rt providing 1_000 4_000 0 0 2_000 provided)

abbrev liquidity_added : LiquidityAdded
liquidity_added = record {
  pool = 11_111;
  user = 5;
  amount_a = 1_000;
  amount_b = 4_000;
  lp_minted = 2_000;
  reserve_a = 11_000;
  reserve_b = 44_000;
  lp_supply = 22_000;
}

grown_run : add_liquidity rt providing 1_000 4_000 0 0 2_000 provided ≡ ok (grown, liquidity_added)
unfolding add_liquidity liquidity_context add_checks deposit_quote later_quote expected_totals
    add_transfers mint_locked add_settle ensure_pool check_seeds check_config check_policy
    check_pool check_user_account ensure_unpaused ensure_children ensure_solvent ensure_seeded
    ensure_locked_account transfer mint_to quote_add_liquidity deposit_amounts add_pair ceil_div
    proportional widen narrow checked_add checked_sub checked_mul checked_div pool_context
grown_run = refl

reachable-remove_liquidity_example :
    (pool : Pool) × (q : RemoveLiquidityQuote) × (provided.pools 11_111 ≡ some pool)
    × (quote_remove_liquidity 5_000 pool.reserve_a pool.reserve_b 20_000 ≡ ok q)
    × ArePaidOut providing 5_000 q.amount_a q.amount_b provided.ledger withdrawn.ledger
reachable-remove_liquidity_example =
    reachable-remove_liquidity rt laws issue addresses fresh provided providing 5_000 2_500 10_000
      fresh-IsFresh later withdrawn_run

reachable-add_liquidity_example :
    (pool : Pool) × (q : DepositAmounts) × (provided.pools 11_111 ≡ some pool)
    × IsPlanned pool 20_000 1_000 1_000 4_000 q
    × ArePaidIn providing q provided.ledger grown.ledger
reachable-add_liquidity_example =
    reachable-add_liquidity rt laws issue addresses fresh provided providing 1_000 4_000 0 0 2_000
      fresh-IsFresh later grown_run

-- After the deposit the provider burns 20,900 pool tokens without the program.
abbrev burnt_ledger : Ledger
burnt_ledger = pool_ledger 11_000 44_000 1_000 1_100

abbrev burnt : Chain
burnt = record grown { ledger = burnt_ledger }

abbrev afterwards : Reach rt grown burnt
afterwards = Reach.next Reach.here (Step.outside burnt_ledger refl)

afterwards-LeavesMinimum : Outside (LeavesMinimum 7_012_211) afterwards
afterwards-LeavesMinimum = (tt, ground arith)

deposited_pool-IsStocked_example : IsStocked 11_111 7_012_211 burnt
deposited_pool-IsStocked_example =
    deposited_pool-IsStocked rt supplies addresses providing 1_000 4_000 0 0 2_000 fresh provided
      grown burnt fresh-IsFresh later grown_run afterwards afterwards-LeavesMinimum
