-- ===== src/Amm/Liquidity.antt =====
-- The accounts that `add_liquidity` and `remove_liquidity` share, and `remove_liquidity`:
-- programs/amm/src/instructions/remove_liquidity.rs. Its handler is the composition of three stages:
-- the checks and the quote, the calls of Token-2022, and the write with the checks after it.
pub mod Effects
pub mod Accounts
pub mod Payments
pub mod Completion
use solana_stablecoin_amm.Base.{
  ℕ, some, [], ◌∷◌, ◌&&◌, leb, ltb, ◌==◌, if◌then◌else◌, Result, ok, err, ◌>>=◌, ◌>>◌, guard,
  map_err,
}
use solana_stablecoin_amm.Math.{RemoveLiquidityQuote, quote_remove_liquidity}
use solana_stablecoin_amm.Chain.{
  Pubkey, TokenAccount, Ledger, Runtime, Failure, custom, load, invoke, update,
}
use solana_stablecoin_amm.State.{Chain}
use solana_stablecoin_amm.Amm.{
  AmmError, zero_amount, slippage_exceeded, locked_liquidity_invariant, lp_supply_invariant,
  from_math, require, has_one, PoolAccounts, PoolContext, check_pool, check_config, check_policy,
  check_user_account, ensure_unpaused, ensure_children, ensure_solvent, ensure_seeded,
  ensure_locked_account,
}

pub record LiquidityAccounts : Type 0 where
  pub shared : PoolAccounts
  pub locked_lp : Pubkey
  pub user_lp : Pubkey

pub record LiquidityContext : Type 0 where
  pub shared : PoolContext
  pub locked_lp : TokenAccount

-- Loading the accounts and checking their constraints.
unfoldable pub liquidity_context :
    Runtime → LiquidityAccounts → Chain → Result (Failure AmmError) LiquidityContext
liquidity_context rt d s = do
  let c = d.shared
  pool ← load (s.pools c.pool)
  mint_a ← load (s.ledger.mints c.mint_a)
  mint_b ← load (s.ledger.mints c.mint_b)
  config_a ← load (s.configs c.config_a)
  config_b ← load (s.configs c.config_b)
  vault_a ← load (s.ledger.accounts c.vault_a)
  vault_b ← load (s.ledger.accounts c.vault_b)
  lp_mint ← load (s.ledger.mints c.lp_mint)
  locked_lp ← load (s.ledger.accounts d.locked_lp)
  user_a ← load (s.ledger.accounts c.user_a)
  user_b ← load (s.ledger.accounts c.user_b)
  user_lp ← load (s.ledger.accounts d.user_lp)
  policy_a ← load (s.policies c.policy_a)
  policy_b ← load (s.policies c.policy_b)
  check_pool rt c pool
  has_one pool.locked_lp d.locked_lp
  check_config rt c.mint_a c.config_a config_a
  check_config rt c.mint_b c.config_b config_b
  check_user_account c.user pool.vault_a c.mint_a c.user_a user_a
  check_user_account c.user pool.vault_b c.mint_b c.user_b user_b
  check_user_account c.user pool.locked_lp c.lp_mint d.user_lp user_lp
  check_policy rt c.mint_a c.user_a c.policy_a policy_a
  check_policy rt c.mint_b c.user_b c.policy_b policy_b
  ok (record {
    shared = record {
      pool = pool;
      config_a = config_a;
      config_b = config_b;
      vault_a = vault_a;
      vault_b = vault_b;
      lp_mint = lp_mint;
      user_a = user_a;
      user_b = user_b;
    };
    locked_lp = locked_lp;
  })

-- The checks of the accounts with which both handlers begin.
unfoldable pub ensure_pool :
    LiquidityAccounts → LiquidityContext → Result (Failure AmmError) (Unit {0})
ensure_pool d a = do
  ensure_unpaused a.shared.config_a a.shared.config_b
  ensure_children d.shared a.shared
  ensure_locked_account d.shared.pool d.shared.lp_mint a.locked_lp
  ensure_solvent a.shared.pool a.shared.vault_a.amount a.shared.vault_b.amount

pub record LiquidityRemoved : Type 0 where
  pub pool : Pubkey
  pub user : Pubkey
  pub lp_burned : ℕ
  pub amount_a : ℕ
  pub amount_b : ℕ
  pub reserve_a : ℕ
  pub reserve_b : ℕ
  pub lp_supply : ℕ

-- From the first check to the slippage bound.
unfoldable pub remove_quote :
    LiquidityAccounts
    → LiquidityContext
    → (lp_amount min_a_out min_b_out : ℕ) → Result (Failure AmmError) RemoveLiquidityQuote
remove_quote d a lp_amount min_a_out min_b_out = do
  let pool = a.shared.pool
  let lp_supply = a.shared.lp_mint.supply
  let locked_lp = a.locked_lp.amount
  require (ltb 0 lp_amount) zero_amount
  ensure_pool d a
  ensure_seeded pool lp_supply locked_lp
  quote ←
      map_err from_math (quote_remove_liquidity lp_amount pool.reserve_a pool.reserve_b lp_supply)
  require (leb locked_lp quote.new_lp_supply) locked_liquidity_invariant
  require (leb min_a_out quote.amount_a && leb min_b_out quote.amount_b) slippage_exceeded
  ok quote

-- Burning the user's pool tokens, and the two payments that the pool signs.
unfoldable pub remove_transfers :
    Runtime
    → LiquidityAccounts
    → LiquidityContext
    → ℕ
    → RemoveLiquidityQuote
    → Ledger
    → Result (Failure AmmError) Ledger
remove_transfers rt d a lp_amount quote l = do
  let c = d.shared
  let decimals = a.shared.pool.decimals
  burnt ← invoke (rt.burn_checked c.lp_mint d.user_lp c.user lp_amount a.shared.lp_mint.decimals l)
  paid ←
      invoke (rt.transfer_checked c.vault_a c.mint_a c.user_a c.pool quote.amount_a decimals burnt)
  invoke (rt.transfer_checked c.vault_b c.mint_b c.user_b c.pool quote.amount_b decimals paid)

-- The new reserves, and the checks of the reloaded accounts.
unfoldable pub remove_settle :
    LiquidityAccounts
    → LiquidityContext
    → ℕ
    → RemoveLiquidityQuote
    → Ledger
    → Chain
    → Result (Failure AmmError) (Chain × LiquidityRemoved)
remove_settle d a lp_amount quote l s = do
  let c = d.shared
  let pool = record (a.shared.pool) {
    reserve_a = quote.new_reserve_a;
    reserve_b = quote.new_reserve_b;
  }
  vault_a ← load (l.accounts c.vault_a)
  vault_b ← load (l.accounts c.vault_b)
  lp_mint ← load (l.mints c.lp_mint)
  require (lp_mint.supply == quote.new_lp_supply) lp_supply_invariant
  ensure_solvent pool vault_a.amount vault_b.amount
  ensure_seeded pool quote.new_lp_supply a.locked_lp.amount
  ok (
    record s { ledger = l; pools = update s.pools c.pool (some pool) },
    record {
      pool = c.pool;
      user = c.user;
      lp_burned = lp_amount;
      amount_a = quote.amount_a;
      amount_b = quote.amount_b;
      reserve_a = quote.new_reserve_a;
      reserve_b = quote.new_reserve_b;
      lp_supply = quote.new_lp_supply;
    },
  )

unfoldable pub remove_liquidity :
    Runtime
    → LiquidityAccounts
    → (lp_amount min_a_out min_b_out : ℕ) → Chain
    → Result (Failure AmmError) (Chain × LiquidityRemoved)
remove_liquidity rt d lp_amount min_a_out min_b_out s = do
  a ← liquidity_context rt d s
  quote ← remove_quote d a lp_amount min_a_out min_b_out
  l ← remove_transfers rt d a lp_amount quote s.ledger
  remove_settle d a lp_amount quote l s
