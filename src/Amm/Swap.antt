-- ===== src/Amm/Swap.antt =====
-- The `swap` instruction: programs/amm/src/instructions/swap.rs. Its handler is the composition of
-- three stages, each a run of the source's lines: the checks and the quote, the two transfers, and
-- the write of the reserves with the checks after it.
pub mod Checks
pub mod Transfers
pub mod Effects
pub mod Completion
use solana_stablecoin_amm.Base.{
  ℕ, leb, ltb, Result, ok, err, ◌>>=◌, ◌>>◌, guard, ok_or, map_err, checked_mul,
}
use solana_stablecoin_amm.Math.{SwapQuote, quote_swap}
use solana_stablecoin_amm.Chain.{Pubkey, Ledger, Runtime, Failure, custom, load, invoke, update}
use solana_stablecoin_amm.Base.{some}
use solana_stablecoin_amm.State.{Pool, SwapDirection, a_to_b, b_to_a, Chain}
use solana_stablecoin_amm.Amm.{
  AmmError, zero_amount, slippage_exceeded, constant_product_violation, math_overflow, from_math,
  require, PoolAccounts, PoolContext, pool_context, ensure_unpaused, ensure_children,
  ensure_solvent,
}

pub record SwapExecuted : Type 0 where
  pub pool : Pubkey
  pub user : Pubkey
  pub direction : SwapDirection
  pub amount_in : ℕ
  pub amount_out : ℕ
  pub reserve_a : ℕ
  pub reserve_b : ℕ

-- `(reserve_in, reserve_out)`
abbrev pub oriented : SwapDirection → Pool → ℕ × ℕ
oriented a_to_b pool = (pool.reserve_a, pool.reserve_b)
oriented b_to_a pool = (pool.reserve_b, pool.reserve_a)

-- `(reserve_a, reserve_b)` of a quote
abbrev pub settled : SwapDirection → SwapQuote → ℕ × ℕ
settled a_to_b quote = (quote.new_reserve_in, quote.new_reserve_out)
settled b_to_a quote = (quote.new_reserve_out, quote.new_reserve_in)

-- `(source, source_mint, vault_in, vault_out, destination_mint, destination)`
pub record Route : Type 0 where
  pub source : Pubkey
  pub source_mint : Pubkey
  pub vault_in : Pubkey
  pub vault_out : Pubkey
  pub destination_mint : Pubkey
  pub destination : Pubkey

abbrev pub route : SwapDirection → PoolAccounts → Route
route a_to_b c = record {
  source = c.user_a;
  source_mint = c.mint_a;
  vault_in = c.vault_a;
  vault_out = c.vault_b;
  destination_mint = c.mint_b;
  destination = c.user_b;
}
route b_to_a c = record {
  source = c.user_b;
  source_mint = c.mint_b;
  vault_in = c.vault_b;
  vault_out = c.vault_a;
  destination_mint = c.mint_a;
  destination = c.user_a;
}

-- From the first check to the slippage bound: the old product and the quote.
unfoldable pub swap_quote :
    PoolAccounts → PoolContext → SwapDirection → ℕ → ℕ → Result (Failure AmmError) (ℕ × SwapQuote)
swap_quote c a direction amount_in min_amount_out = do
  require (ltb 0 amount_in) zero_amount
  ensure_unpaused a.config_a a.config_b
  ensure_children c a
  ensure_solvent a.pool a.vault_a.amount a.vault_b.amount
  let reserves = oriented direction a.pool
  old_k ← ok_or (checked_mul 128 reserves.0 reserves.1) (custom math_overflow)
  quote ← map_err from_math (quote_swap amount_in reserves.0 reserves.1 a.pool.fee_bps)
  require (leb min_amount_out quote.amount_out) slippage_exceeded
  ok (old_k, quote)

-- The input from the user to its vault, and the output from the other vault to the user, signed by
-- the pool.
unfoldable pub swap_transfers :
    Runtime → PoolAccounts → ℕ → SwapDirection → ℕ → ℕ → Ledger → Result (Failure AmmError) Ledger
swap_transfers rt c decimals direction amount_in amount_out l = do
  let r = route direction c
  paid ← invoke (rt.transfer_checked r.source r.source_mint r.vault_in c.user amount_in decimals l)
  invoke (
      rt.transfer_checked r.vault_out r.destination_mint r.destination c.pool amount_out decimals
        paid)

-- The second check of the product, the new reserves, and the check of the reloaded vaults.
unfoldable pub swap_settle :
    PoolAccounts
    → PoolContext
    → SwapDirection
    → ℕ
    → ℕ × SwapQuote
    → Ledger
    → Chain
    → Result (Failure AmmError) (Chain × SwapExecuted)
swap_settle c a direction amount_in (old_k, quote) l s = do
  let reserves = settled direction quote
  new_k ← ok_or (checked_mul 128 quote.new_reserve_in quote.new_reserve_out) (custom math_overflow)
  require (leb old_k new_k) constant_product_violation
  let pool = record (a.pool) { reserve_a = reserves.0; reserve_b = reserves.1 }
  vault_a ← load (l.accounts c.vault_a)
  vault_b ← load (l.accounts c.vault_b)
  ensure_solvent pool vault_a.amount vault_b.amount
  ok (
    record s { ledger = l; pools = update s.pools c.pool (some pool) },
    record {
      pool = c.pool;
      user = c.user;
      direction = direction;
      amount_in = amount_in;
      amount_out = quote.amount_out;
      reserve_a = reserves.0;
      reserve_b = reserves.1;
    },
  )

unfoldable pub swap :
    Runtime
    → PoolAccounts
    → SwapDirection
    → ℕ
    → ℕ
    → Chain
    → Result (Failure AmmError) (Chain × SwapExecuted)
swap rt c direction amount_in min_amount_out s = do
  a ← pool_context rt c s
  quoted ← swap_quote c a direction amount_in min_amount_out
  l ← swap_transfers rt c a.pool.decimals direction amount_in quoted.1.amount_out s.ledger
  swap_settle c a direction amount_in quoted l s
