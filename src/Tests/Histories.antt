-- ===== src/Tests/Histories.antt =====
-- The second half of a history of both programs: a pool of the two coins, and a swap.
use solana_stablecoin_amm.Base.{
  ℕ, ◌≡◌, refl, some, ok, checked_add, checked_sub, checked_mul, checked_div,
}
use solana_stablecoin_amm.Math.{
  SwapQuote, quote_swap, widen, narrow, quote_initial_liquidity, integer_sqrt,
}
use solana_stablecoin_amm.Chain.{Ledger, update}
use solana_stablecoin_amm.Chain.System.{canonical, fund, top_up, provision}
use solana_stablecoin_amm.State.{Pool, Chain, a_to_b}
use solana_stablecoin_amm.Amm.{
  PoolAccounts, pool_context, check_seeds, check_config, check_policy, check_pool,
  check_user_account, ensure_unpaused, ensure_children, ensure_solvent, ensure_seeded,
  ensure_locked_account,
}
use solana_stablecoin_amm.Amm.Setup.{
  setup_context, vault_space, create_pda_account, create_vault, create_lp, create_children,
  setup_checks, initialize_pool,
}
use solana_stablecoin_amm.Amm.Swap.{SwapExecuted, swap_quote, swap_transfers, swap_settle, swap}
use solana_stablecoin_amm.Amm.Swap.Effects.{IsSwapped}
use solana_stablecoin_amm.Amm.Liquidity.{LiquidityAccounts, liquidity_context, ensure_pool}
use solana_stablecoin_amm.Amm.Deposit.{
  first_quote, deposit_quote, expected_totals, add_checks, mint_locked, add_transfers, add_settle,
  add_liquidity,
}
use solana_stablecoin_amm.Amm.Program as Market
use solana_stablecoin_amm.History.{Reach}
use solana_stablecoin_amm.History.Sound.{IsSound}
use solana_stablecoin_amm.History.Reachable.{
  IsFresh, Reach-IsSound, reachable-swap, Reach-Continues,
}
use solana_stablecoin_amm.History.Kept.{Continues}
use solana_stablecoin_amm.Tests.System.{
  create_account, transfer_lamports, allocate, assign, initialize_account3, initialize_mint2,
}
use solana_stablecoin_amm.Tests.Token.{rt, laws, transfer, mint_to}
use solana_stablecoin_amm.Tests.World.{chain_of, empty, ledger, lp, holding}
use solana_stablecoin_amm.Tests.Setups.{setting_up}
use solana_stablecoin_amm.Tests.Coins.{
  after_market, fresh, then_issuer, then_market, issued_a, issued_a_run, issued_b, issued_b_run,
  allowed_a, allowed_a_run, allowed_b, allowed_b_run,
}

abbrev pub pool_of : ℕ → ℕ → Pool
pool_of reserve_a reserve_b = record {
  mint_a = 10;
  mint_b = 11;
  vault_a = 122_120;
  vault_b = 122_121;
  lp_mint = 7_012_211;
  locked_lp = 9_012_211;
  reserve_a = reserve_a;
  reserve_b = reserve_b;
  fee_bps = 30;
  decimals = 6;
  bump = 255;
  vault_a_bump = 255;
  vault_b_bump = 255;
  lp_mint_bump = 255;
  locked_lp_bump = 255;
}

-- Token-2022 with the accounts of the pool, and one of the user for pool tokens.
abbrev pub pool_ledger : (a b locked supply : ℕ) → Ledger
pool_ledger a b locked supply = record ledger {
  accounts =
      update
        (update
          (update
            (update (update empty 122_120 (some (holding 10 11_111 a))) 122_121
              (some (holding 11 11_111 b)))
            9_012_211 (some (holding 7_012_211 11_111 locked)))
          25 (some (holding 7_012_211 5 0)))
        22 (some (holding 10 5 50_000));
  mints = update ledger.mints 7_012_211 (some (record lp { supply = supply }));
}

abbrev pub with_user_b : Ledger → Ledger
with_user_b l = record l { accounts = update l.accounts 23 (some (holding 11 5 60_000)) }

abbrev opened : Chain
opened = record allowed_b {
  ledger = with_user_b (pool_ledger 0 0 0 0);
  pools = update empty 11_111 (some (pool_of 0 0));
}

opened_run :
    Market.process rt (Market.initialize_pool setting_up 30) allowed_b
    ≡ ok (record opened {
      ledger = (after_market (Market.initialize_pool setting_up 30) allowed_b).ledger;
    })
unfolding Market.process initialize_pool setup_context canonical check_seeds check_config
    setup_checks create_children create_vault vault_space create_pda_account provision top_up fund
    create_lp create_account transfer_lamports allocate assign initialize_account3 initialize_mint2
opened_run = refl

abbrev pub trading : PoolAccounts
trading = record {
  user = 5;
  pool = 11_111;
  mint_a = 10;
  mint_b = 11;
  config_a = 1_210;
  config_b = 1_211;
  vault_a = 122_120;
  vault_b = 122_121;
  lp_mint = 7_012_211;
  user_a = 22;
  user_b = 23;
  policy_a = 12_122;
  policy_b = 12_133;
}

abbrev pub providing : LiquidityAccounts
providing = record { shared = trading; locked_lp = 9_012_211; user_lp = 25 }

abbrev pub depositing : Market.Instruction
depositing = Market.add_liquidity providing 10_000 40_000 0 0 0

abbrev pub seeded : Chain
seeded = record opened {
  ledger = with_user_b (pool_ledger 10_000 40_000 1_000 20_000);
  pools = update opened.pools 11_111 (some (pool_of 10_000 40_000));
}

seeded_run :
    Market.process rt depositing opened
    ≡ ok (record seeded { ledger = (after_market depositing opened).ledger })
unfolding Market.process add_liquidity liquidity_context add_checks ensure_pool deposit_quote
    first_quote expected_totals mint_locked add_transfers add_settle check_seeds check_config
    check_policy check_pool check_user_account ensure_unpaused ensure_children ensure_solvent
    ensure_seeded ensure_locked_account transfer mint_to quote_initial_liquidity integer_sqrt widen
    narrow checked_add checked_sub checked_mul pool_context
seeded_run = refl

pub history : Reach rt fresh seeded
history = then_market opened seeded depositing _ seeded_run (
    then_market allowed_b opened _ _ opened_run (
      then_issuer allowed_a allowed_b _ _ allowed_b_run (
        then_issuer issued_b allowed_a _ _ allowed_a_run (
          then_issuer issued_a issued_b _ _ issued_b_run
            (then_issuer fresh issued_a _ _ issued_a_run Reach.here)))))

pub fresh-IsFresh : IsFresh fresh
fresh-IsFresh = record { pools = λ k. refl; configs = λ k. refl; roles = λ k. refl }

abbrev pub traded : Chain
traded = chain_of seeded (swap rt trading a_to_b 1_000 3_000 seeded)

abbrev pub trade : SwapExecuted
trade = record {
  pool = 11_111;
  user = 5;
  direction = a_to_b;
  amount_in = 1_000;
  amount_out = 3_626;
  reserve_a = 11_000;
  reserve_b = 36_374;
}

pub traded_run : swap rt trading a_to_b 1_000 3_000 seeded ≡ ok (traded, trade)
unfolding swap pool_context swap_quote swap_transfers swap_settle check_seeds check_config
    check_policy check_pool check_user_account ensure_unpaused ensure_children ensure_solvent
    transfer quote_swap widen narrow checked_add checked_sub checked_mul checked_div
traded_run = refl

reachable-swap_example :
    (pool : Pool) × (q : SwapQuote) × (seeded.pools 11_111 ≡ some pool)
    × IsSwapped trading a_to_b 1_000 3_000 pool q seeded traded
reachable-swap_example =
    reachable-swap rt laws trading a_to_b 1_000 3_000 fresh seeded fresh-IsFresh history traded_run

pub fresh-IsSound : IsSound rt fresh
fresh-IsSound = record { pools = λ k v e. cc; configs = λ k v e. cc; roles = λ k v e. cc }

Reach-IsSound_example : IsSound rt seeded
Reach-IsSound_example = Reach-IsSound rt fresh seeded history fresh-IsSound

Reach-Continues_example : Continues opened seeded
Reach-Continues_example =
    Reach-Continues rt opened seeded (then_market opened seeded depositing _ seeded_run Reach.here)
