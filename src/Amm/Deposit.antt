-- ===== src/Amm/Deposit.antt =====
-- `add_liquidity`: programs/amm/src/instructions/add_liquidity.rs. Its handler is the composition of
-- three stages: the checks and the amounts, the calls of Token-2022, and the write with the checks
-- after it. The first deposit of a pool and every later one are the two branches of `deposit_quote`.
pub mod Checks
pub mod Effects
pub mod Value
pub mod Payments
pub mod Completion
use solana_stablecoin_amm.Base.{
  ℕ, some, ◌&&◌, leb, ltb, ◌==◌, if◌then◌else◌, Result, ok, err, ◌>>=◌, ◌>>◌, guard, ok_or, map_err,
  checked_add,
}
use solana_stablecoin_amm.Math.{quote_initial_liquidity, quote_add_liquidity}
use solana_stablecoin_amm.Chain.{Pubkey, Ledger, Runtime, Failure, custom, load, invoke, update}
use solana_stablecoin_amm.State.{Chain}
use solana_stablecoin_amm.Amm.{
  AmmError, zero_amount, slippage_exceeded, invalid_liquidity_state, lp_supply_invariant,
  math_overflow, from_math, require, ensure_solvent, ensure_seeded,
}
use solana_stablecoin_amm.Amm.Liquidity.{
  LiquidityAccounts, LiquidityContext, liquidity_context, ensure_pool,
}

pub record LiquidityAdded : Type 0 where
  pub pool : Pubkey
  pub user : Pubkey
  pub amount_a : ℕ
  pub amount_b : ℕ
  pub lp_minted : ℕ
  pub reserve_a : ℕ
  pub reserve_b : ℕ
  pub lp_supply : ℕ

-- `(amount_a, amount_b, lp_to_user, lp_to_lock)`
pub record DepositAmounts : Type 0 where
  pub amount_a : ℕ
  pub amount_b : ℕ
  pub lp_to_user : ℕ
  pub lp_to_lock : ℕ

-- The first deposit, into an empty pool without pool tokens.
unfoldable pub first_quote : LiquidityContext → ℕ → ℕ → Result (Failure AmmError) DepositAmounts
first_quote a amount_a_desired amount_b_desired = do
  let pool = a.shared.pool
  require (pool.reserve_a == 0 && pool.reserve_b == 0 && a.locked_lp.amount == 0)
      invalid_liquidity_state
  quote ← map_err from_math (quote_initial_liquidity amount_a_desired amount_b_desired)
  ok (record {
    amount_a = amount_a_desired;
    amount_b = amount_b_desired;
    lp_to_user = quote.lp_to_user;
    lp_to_lock = quote.lp_to_lock;
  })

-- A deposit into a seeded pool.
unfoldable pub later_quote : LiquidityContext → ℕ → ℕ → Result (Failure AmmError) DepositAmounts
later_quote a amount_a_desired amount_b_desired = do
  let pool = a.shared.pool
  let lp_supply = a.shared.lp_mint.supply
  ensure_seeded pool lp_supply a.locked_lp.amount
  quote ← map_err from_math (
      quote_add_liquidity amount_a_desired amount_b_desired pool.reserve_a pool.reserve_b lp_supply)
  ok (record {
    amount_a = quote.amount_a;
    amount_b = quote.amount_b;
    lp_to_user = quote.lp_minted;
    lp_to_lock = 0;
  })

unfoldable pub deposit_quote : LiquidityContext → ℕ → ℕ → Result (Failure AmmError) DepositAmounts
deposit_quote a amount_a_desired amount_b_desired =
    if a.shared.lp_mint.supply == 0
    then first_quote a amount_a_desired amount_b_desired
    else later_quote a amount_a_desired amount_b_desired

-- `(reserve_a, reserve_b, expected_lp_supply)`
pub record Expected : Type 0 where
  pub reserve_a : ℕ
  pub reserve_b : ℕ
  pub lp_supply : ℕ

unfoldable pub expected_totals :
    LiquidityContext → DepositAmounts → Result (Failure AmmError) Expected
expected_totals a q = do
  let overflow = custom math_overflow
  reserve_a ← ok_or (checked_add 64 a.shared.pool.reserve_a q.amount_a) overflow
  reserve_b ← ok_or (checked_add 64 a.shared.pool.reserve_b q.amount_b) overflow
  supply ← ok_or (checked_add 64 a.shared.lp_mint.supply q.lp_to_user) overflow
  lp_supply ← ok_or (checked_add 64 supply q.lp_to_lock) overflow
  ok (record { reserve_a = reserve_a; reserve_b = reserve_b; lp_supply = lp_supply })

-- From the first check to the expected totals.
unfoldable pub add_checks :
    LiquidityAccounts
    → LiquidityContext
    → (amount_a_desired amount_b_desired amount_a_min amount_b_min min_lp_out : ℕ)
    → Result (Failure AmmError) (DepositAmounts × Expected)
add_checks d a amount_a_desired amount_b_desired amount_a_min amount_b_min min_lp_out = do
  require (ltb 0 amount_a_desired && ltb 0 amount_b_desired) zero_amount
  ensure_pool d a
  q ← deposit_quote a amount_a_desired amount_b_desired
  require
      (leb amount_a_min q.amount_a && leb amount_b_min q.amount_b && leb min_lp_out q.lp_to_user)
      slippage_exceeded
  totals ← expected_totals a q
  ok (q, totals)

-- The tokens that the first deposit locks.
unfoldable pub mint_locked :
    Runtime → LiquidityAccounts → LiquidityContext → ℕ → Ledger → Result (Failure AmmError) Ledger
mint_locked rt d a lp_to_lock l =
    if ltb 0 lp_to_lock
    then invoke (
        rt.mint_to_checked d.shared.lp_mint d.locked_lp d.shared.pool lp_to_lock
          a.shared.lp_mint.decimals l)
    else ok l

-- The user's two payments, and the pool tokens.
unfoldable pub add_transfers :
    Runtime
    → LiquidityAccounts
    → LiquidityContext
    → DepositAmounts
    → Ledger
    → Result (Failure AmmError) Ledger
add_transfers rt d a q l = do
  let c = d.shared
  let decimals = a.shared.pool.decimals
  paid_a ← invoke (rt.transfer_checked c.user_a c.mint_a c.vault_a c.user q.amount_a decimals l)
  paid_b ←
      invoke (rt.transfer_checked c.user_b c.mint_b c.vault_b c.user q.amount_b decimals paid_a)
  locked ← mint_locked rt d a q.lp_to_lock paid_b
  invoke
      (rt.mint_to_checked c.lp_mint d.user_lp c.pool q.lp_to_user a.shared.lp_mint.decimals locked)

-- The new reserves, and the checks of the reloaded accounts.
unfoldable pub add_settle :
    LiquidityAccounts
    → LiquidityContext
    → DepositAmounts
    → Expected
    → Ledger
    → Chain
    → Result (Failure AmmError) (Chain × LiquidityAdded)
add_settle d a q totals l s = do
  let c = d.shared
  let pool = record (a.shared.pool) { reserve_a = totals.reserve_a; reserve_b = totals.reserve_b }
  vault_a ← load (l.accounts c.vault_a)
  vault_b ← load (l.accounts c.vault_b)
  lp_mint ← load (l.mints c.lp_mint)
  locked_lp ← load (l.accounts d.locked_lp)
  require (lp_mint.supply == totals.lp_supply) lp_supply_invariant
  ensure_solvent pool vault_a.amount vault_b.amount
  ensure_seeded pool totals.lp_supply locked_lp.amount
  ok (
    record s { ledger = l; pools = update s.pools c.pool (some pool) },
    record {
      pool = c.pool;
      user = c.user;
      amount_a = q.amount_a;
      amount_b = q.amount_b;
      lp_minted = q.lp_to_user;
      reserve_a = totals.reserve_a;
      reserve_b = totals.reserve_b;
      lp_supply = totals.lp_supply;
    },
  )

-- `AddLiquidity`: the same accounts and constraints as for a withdrawal, but that the locked account is
-- written.
abbrev pub add_liquidity_context :
    Runtime → LiquidityAccounts → Chain → Result (Failure AmmError) LiquidityContext
add_liquidity_context = liquidity_context

unfoldable pub add_liquidity :
    Runtime
    → LiquidityAccounts
    → (amount_a_desired amount_b_desired amount_a_min amount_b_min min_lp_out : ℕ) → Chain
    → Result (Failure AmmError) (Chain × LiquidityAdded)
add_liquidity rt d amount_a_desired amount_b_desired amount_a_min amount_b_min min_lp_out s = do
  a ← add_liquidity_context rt d s
  planned ← add_checks d a amount_a_desired amount_b_desired amount_a_min amount_b_min min_lp_out
  l ← add_transfers rt d a planned.0 s.ledger
  add_settle d a planned.0 planned.1 l s
