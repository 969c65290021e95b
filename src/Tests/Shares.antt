-- ===== src/Tests/Shares.antt =====
-- A history after a pool's first deposit: a swap, and a holder who burns pool tokens without the
-- program.
use solana_stablecoin_amm.Base.{
  ◌≡◌, ◌<◌, refl, arith, some, ok, checked_add, checked_sub, checked_mul, checked_div,
}
use solana_stablecoin_amm.Math.{quote_swap, widen, narrow}
use solana_stablecoin_amm.Math.Value.{KeepsValue}
use solana_stablecoin_amm.Chain.{supply_at}
use solana_stablecoin_amm.State.{Pool, Chain, a_to_b}
use solana_stablecoin_amm.Amm.{
  pool_context, check_seeds, check_config, check_policy, check_pool, check_user_account,
  ensure_unpaused, ensure_children, ensure_solvent,
}
use solana_stablecoin_amm.Amm.Swap.{swap_quote, swap_transfers, swap_settle, swap}
use solana_stablecoin_amm.Amm.Program as Market
use solana_stablecoin_amm.History.{Step, Reach, Outside, SomeLeft}
use solana_stablecoin_amm.History.Fair.{reachable_pool-fair, Reach-Refines}
use solana_stablecoin_amm.History.Reachable.{Reach-IsSound}
use solana_stablecoin_amm.Amm.Shares.{Shares, Trades}
use solana_stablecoin_amm.Amm.Shares.Refinement.{Shows}
use solana_stablecoin_amm.Tests.Token.{rt, laws, addresses, transfer}
use solana_stablecoin_amm.Tests.Supplies.{supplies}
use solana_stablecoin_amm.Tests.Coins.{fresh}
use solana_stablecoin_amm.Tests.Histories.{
  pool_of, pool_ledger, trading, seeded, traded, history, fresh-IsFresh, fresh-IsSound,
}

process_run : Market.process rt (Market.swap trading a_to_b 1_000 3_000) seeded ≡ ok traded
unfolding Market.process swap pool_context swap_quote swap_transfers swap_settle check_seeds
    check_config check_policy check_pool check_user_account ensure_unpaused ensure_children
    ensure_solvent transfer quote_swap widen narrow checked_add checked_sub checked_mul checked_div
process_run = refl

traded_supply : supply_at traded.ledger 7_012_211 ≡ 20_000
unfolding swap pool_context swap_quote swap_transfers swap_settle check_seeds check_config
    check_policy check_pool check_user_account ensure_unpaused ensure_children ensure_solvent
    transfer quote_swap widen narrow checked_add checked_sub checked_mul checked_div
traded_supply = refl

abbrev given_up : Chain
given_up = record traded { ledger = pool_ledger 11_000 36_374 1_000 17_000 }

abbrev later : Reach rt seeded given_up
later =
    Reach.next
      (Reach.next Reach.here (Step.amm (Market.swap trading a_to_b 1_000 3_000) process_run))
      (Step.outside (pool_ledger 11_000 36_374 1_000 17_000) refl)

later-SomeLeft : Outside (SomeLeft 7_012_211) later
later-SomeLeft = (tt, (rw traded_supply (ground arith), ground arith))

reachable_pool-fair_example :
    (pool' : Pool) × (given_up.pools 11_111 ≡ some pool')
    × KeepsValue 10_000 40_000 20_000 pool'.reserve_a pool'.reserve_b 17_000
reachable_pool-fair_example =
    reachable_pool-fair rt laws supplies addresses 11_111 fresh seeded given_up
      (pool_of 10_000 40_000) fresh-IsFresh history refl (ground arith) later later-SomeLeft

abbrev shares : Shares
shares = record { reserve_a = 10_000; reserve_b = 40_000; supply = 20_000 }

shares-Shows : Shows 11_111 7_012_211 seeded shares
shares-Shows = record {
  pool = pool_of 10_000 40_000;
  stored = refl;
  lp_mint = refl;
  mints = ground arith;
  reserve_a = refl;
  reserve_b = refl;
  supply = refl;
}

Reach-Refines_example :
    (b : Shares) × Shows 11_111 7_012_211 given_up b × (0 < b.supply) × Trades shares b
Reach-Refines_example =
    Reach-Refines rt laws supplies addresses 11_111 7_012_211 seeded given_up later shares
      later-SomeLeft (Reach-IsSound rt fresh seeded history fresh-IsSound) shares-Shows
      (ground arith)

abbrev trade : Market.Instruction
trade = Market.swap trading a_to_b 1_000 3_000
