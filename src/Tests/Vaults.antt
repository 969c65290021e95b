-- ===== src/Tests/Vaults.antt =====
-- A history without outside steps: two stablecoins are issued, a user's wallets for them are allowed,
-- a pool of them is set up, and the user makes the first deposit.
use solana_stablecoin_amm.Base.{◌≡◌, refl, some, ok, checked_add, checked_sub, checked_mul}
use solana_stablecoin_amm.Math.{widen, narrow, quote_initial_liquidity, integer_sqrt}
use solana_stablecoin_amm.Chain.{update}
use solana_stablecoin_amm.Chain.System.{canonical, fund, top_up, provision}
use solana_stablecoin_amm.State.{Chain}
use solana_stablecoin_amm.Stablecoin
use solana_stablecoin_amm.Stablecoin.Symbol.{
  utf8_start, utf8_next, is_utf8_from, from_utf8, normalize_symbol,
}
use solana_stablecoin_amm.Stablecoin.Setup
use solana_stablecoin_amm.Stablecoin.Setup.{
  create_mint_account, create_mint, set_up_mint, build_mint, ensure_exempt, store_config,
}
use solana_stablecoin_amm.Stablecoin.Compliance.{
  init_policy, policy_context, enforce, is_frozen, policy_settle, set_wallet_policy,
}
use solana_stablecoin_amm.Stablecoin.Program as Issuer
use solana_stablecoin_amm.Amm.{
  pool_context, check_seeds, check_config, check_policy, check_pool, check_user_account,
  ensure_unpaused, ensure_children, ensure_solvent, ensure_seeded, ensure_locked_account,
}
use solana_stablecoin_amm.Amm.Setup.{
  setup_context, vault_space, create_pda_account, create_vault, create_lp, create_children,
  setup_checks, initialize_pool,
}
use solana_stablecoin_amm.Amm.Liquidity.{liquidity_context, ensure_pool}
use solana_stablecoin_amm.Amm.Deposit.{
  first_quote, deposit_quote, expected_totals, add_checks, mint_locked, add_transfers, add_settle,
  add_liquidity,
}
use solana_stablecoin_amm.Amm.Program as Market
use solana_stablecoin_amm.History.{Step, Reach, Outside}
use solana_stablecoin_amm.History.Owners.{Signed}
use solana_stablecoin_amm.History.Reachable.{IsFresh}
use solana_stablecoin_amm.History.Solvent.{IsSolvent, IsWallet, LeavesPools, reachable-IsSolvent}
use solana_stablecoin_amm.Tests.System.{
  create_account, transfer_lamports, allocate, assign, initialize_account3, initialize_mint2,
}
use solana_stablecoin_amm.Tests.Token.{rt, transfer, mint_to, set_frozen, pool_address_apart}
use solana_stablecoin_amm.Tests.World.{empty, ledger, holding}
use solana_stablecoin_amm.Tests.Setups.{setting_up}
use solana_stablecoin_amm.Tests.Coins.{fresh, issue, allow, after_issuer, after_market}
use solana_stablecoin_amm.Tests.Holdings.{holdings}
use solana_stablecoin_amm.Tests.Histories.{depositing}

-- The user has some of both coins to come, and an account for pool tokens.
abbrev prepared : Chain
prepared = record fresh {
  ledger = record ledger {
    accounts =
        update
          (update (update empty 22 (some (holding 10 5 50_000))) 23 (some (holding 11 5 60_000))) 25
          (some (holding 7_012_211 5 0));
    mints = empty;
  };
}

abbrev issued_a : Chain
issued_a = after_issuer (issue 10 1_210 b'A') prepared

abbrev issued_b : Chain
issued_b = after_issuer (issue 11 1_211 b'B') issued_a

abbrev opening : Market.Instruction
opening = Market.initialize_pool setting_up 30

abbrev opened : Chain
opened = after_market opening issued_b

abbrev allowed_a : Chain
allowed_a = after_issuer (allow 10 1_210 22 12_122) opened

abbrev allowed_b : Chain
allowed_b = after_issuer (allow 11 1_211 23 12_133) allowed_a

abbrev seeded : Chain
seeded = after_market depositing allowed_b

runs :
    (Issuer.process rt (issue 10 1_210 b'A') prepared ≡ ok issued_a)
    × (Issuer.process rt (issue 11 1_211 b'B') issued_a ≡ ok issued_b)
    × (Market.process rt opening issued_b ≡ ok opened)
    × (Issuer.process rt (allow 10 1_210 22 12_122) opened ≡ ok allowed_a)
    × (Issuer.process rt (allow 11 1_211 23 12_133) allowed_a ≡ ok allowed_b)
    × (Market.process rt depositing allowed_b ≡ ok seeded)
unfolding Issuer.process Setup.initialize_stablecoin Setup.setup_context canonical
    Setup.setup_checks normalize_symbol from_utf8 is_utf8_from utf8_next utf8_start build_mint
    create_mint create_mint_account provision set_up_mint ensure_exempt store_config create_account
    initialize_mint2 checked_add Market.process initialize_pool setup_context check_seeds
    check_config setup_checks create_children create_vault vault_space create_pda_account top_up
    fund create_lp transfer_lamports allocate assign initialize_account3 set_wallet_policy
    init_policy policy_context enforce is_frozen policy_settle Stablecoin.check_seeds
    Stablecoin.check_config set_frozen add_liquidity liquidity_context add_checks ensure_pool
    deposit_quote first_quote expected_totals mint_locked add_transfers add_settle check_policy
    check_pool check_user_account ensure_unpaused ensure_children ensure_solvent ensure_seeded
    ensure_locked_account transfer mint_to quote_initial_liquidity integer_sqrt widen narrow
    checked_sub checked_mul pool_context
runs = (refl, refl, refl, refl, refl, refl)

abbrev history : Reach rt prepared seeded
history =
    Reach.next
      (Reach.next
        (Reach.next
          (Reach.next
            (Reach.next (Reach.next Reach.here (Step.stablecoin (issue 10 1_210 b'A') runs.0))
              (Step.stablecoin (issue 11 1_211 b'B') runs.1))
            (Step.amm opening runs.2))
          (Step.stablecoin (allow 10 1_210 22 12_122) runs.3))
        (Step.stablecoin (allow 11 1_211 23 12_133) runs.4))
      (Step.amm depositing runs.5)

prepared-IsFresh : IsFresh prepared
prepared-IsFresh = record { pools = λ k. refl; configs = λ k. refl; roles = λ k. refl }

user-IsWallet : IsWallet rt 5
user-IsWallet (a, b, bump, found) = pool_address_apart a b bump found

history-LeavesPools : Outside (LeavesPools rt) history
history-LeavesPools = tt

history-Signed : Signed (IsWallet rt) history
history-Signed = (
  (((((tt, user-IsWallet), user-IsWallet), user-IsWallet), user-IsWallet), user-IsWallet),
  user-IsWallet,
)

reachable-IsSolvent_example : IsSolvent seeded
reachable-IsSolvent_example =
    reachable-IsSolvent rt holdings prepared seeded prepared-IsFresh history history-LeavesPools
      history-Signed
