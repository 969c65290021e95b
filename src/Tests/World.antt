-- ===== src/Tests/World.antt =====
-- A chain with a pool of two stablecoins, a user of both and a minter of the first.
use solana_stablecoin_amm.Base.{ℕ, false, Option, some, none, [], Result, ok, err}
use solana_stablecoin_amm.Chain.{
  Pubkey, TokenAccount, Mint, Ledger, pausable, default_account_state, update,
}
use solana_stablecoin_amm.Tests.System.{put, unused, wallet}
use solana_stablecoin_amm.State.{MintConfig, MinterRole, allowed, WalletPolicy, Pool, Chain}
use solana_stablecoin_amm.Amm.{PoolAccounts}
use solana_stablecoin_amm.Amm.Liquidity.{LiquidityAccounts}
use mathlib.Core.List.{◌∷◌}

-- The chain, or the value, of a run that succeeds.
abbrev pub chain_of : {E A : Type 0} → Chain → Result E (Chain × A) → Chain
chain_of s (ok (s', a)) = s'
chain_of s (err e) = s

abbrev pub value_of : {E A : Type 0} → A → Result E A → A
value_of a (ok b) = b
value_of a (err e) = a

abbrev pub empty : {A : Type 0} → Pubkey → Option A
empty k = none

abbrev pub stablecoin : Pubkey → ℕ → Mint
stablecoin config supply = record {
  supply = supply;
  decimals = 6;
  mint_authority = some config;
  freeze_authority = some config;
  paused = some false;
  extensions = default_account_state ∷ pausable ∷ [];
}

abbrev pub lp : Mint
lp = record {
  supply = 1_500_000;
  decimals = 6;
  mint_authority = some 11_111;
  freeze_authority = none;
  paused = none;
  extensions = [];
}

abbrev pub holding : Pubkey → Pubkey → ℕ → TokenAccount
holding mint owner amount = record {
  mint = mint;
  owner = owner;
  amount = amount;
  is_frozen = false;
}

abbrev pub ledger : Ledger
ledger = record {
  infos = put unused 5 (wallet 1_000_000);
  accounts =
      update
        (update
          (update (update empty 20 (some (holding 10 11_111 1_000_007))) 21
            (some (holding 11 11_111 2_000_000)))
          22 (some (holding 10 5 50_000)))
        23 (some (holding 11 5 60_000));
  mints =
      update
        (update (update empty 10 (some (stablecoin 1_210 1_050_007))) 11
          (some (stablecoin 1_211 2_060_000)))
        12 (some lp);
}

abbrev pub config : Pubkey → MintConfig
config mint = record {
  admin = 3;
  pending_admin = some 4;
  compliance_authority = 7;
  mint = mint;
  symbol = b'U' ∷ [];
  decimals = 6;
  supply_cap = 3_000_000;
  total_minted = 2_100_000;
  total_burned = 40_000;
  paused = false;
  bump = 255;
  mint_bump = 254;
}

abbrev pub policy : Pubkey → Pubkey → WalletPolicy
policy mint account = record {
  mint = mint;
  token_account = account;
  owner = 5;
  status = allowed;
  updated_at = 0;
  updated_by = 7;
  bump = 255;
}

abbrev pub role : MinterRole
role = record { config = 1_210; authority = 6; allowance = 500_000; minted = 100_000; bump = 255 }

abbrev pub pool : Pool
pool = record {
  mint_a = 10;
  mint_b = 11;
  vault_a = 20;
  vault_b = 21;
  lp_mint = 12;
  locked_lp = 24;
  reserve_a = 1_000_000;
  reserve_b = 2_000_000;
  fee_bps = 30;
  decimals = 6;
  bump = 255;
  vault_a_bump = 255;
  vault_b_bump = 255;
  lp_mint_bump = 255;
  locked_lp_bump = 255;
}

abbrev pub start : Chain
start = record {
  ledger = ledger;
  configs = update (update empty 1_210 (some (config 10))) 1_211 (some (config 11));
  roles = update empty 24_106 (some role);
  policies = update (update empty 12_122 (some (policy 10 22))) 12_133 (some (policy 11 23));
  pools = update empty 11_111 (some pool);
}

abbrev pub pool_accounts : PoolAccounts
pool_accounts = record {
  user = 5;
  pool = 11_111;
  mint_a = 10;
  mint_b = 11;
  config_a = 1_210;
  config_b = 1_211;
  vault_a = 20;
  vault_b = 21;
  lp_mint = 12;
  user_a = 22;
  user_b = 23;
  policy_a = 12_122;
  policy_b = 12_133;
}

-- The same chain with the accounts of a provider of liquidity.
abbrev pub provided : Chain
provided = record start {
  ledger = record ledger {
    accounts =
        update (update ledger.accounts 24 (some (holding 12 11_111 1_000))) 25
          (some (holding 12 5 200_000));
  };
}

abbrev pub liquidity_accounts : LiquidityAccounts
liquidity_accounts = record { shared = pool_accounts; locked_lp = 24; user_lp = 25 }
