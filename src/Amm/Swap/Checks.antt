-- ===== src/Amm/Swap/Checks.antt =====
-- What the first stage of `swap` has established when it passes.
use solana_stablecoin_amm.Base.{ℕ, ◌*◌, ◌≤◌, ◌≡◌, arith, ok, checked_mul}
use solana_stablecoin_amm.Math.{SwapQuote, quote_swap}
use solana_stablecoin_amm.State.{SwapDirection}
use solana_stablecoin_amm.Amm.{
  PoolAccounts, PoolContext, ensure_unpaused, ensure_children, ensure_solvent,
}
use solana_stablecoin_amm.Amm.Swap.{oriented, swap_quote}

pub record IsQuoted (c : PoolAccounts) (a : PoolContext) (direction : SwapDirection)
    (amount_in min_amount_out : ℕ) (k : ℕ) (q : SwapQuote) : Type 0 where
  pub unpaused : ensure_unpaused a.config_a a.config_b ≡ ok tt
  pub children : ensure_children c a ≡ ok tt
  pub solvent : ensure_solvent a.pool a.vault_a.amount a.vault_b.amount ≡ ok tt
  pub quote :
      quote_swap amount_in
        (oriented direction a.pool).0
        (oriented direction a.pool).1
        a.pool.fee_bps
      ≡ ok q
  pub enough : min_amount_out ≤ q.amount_out
  pub product : k ≡ (oriented direction a.pool).0 * (oriented direction a.pool).1

pub swap_quote-IsQuoted :
    (c : PoolAccounts) (a : PoolContext) (direction : SwapDirection) (amount_in min_amount_out : ℕ)
    {k : ℕ} {q : SwapQuote}
    → swap_quote c a direction amount_in min_amount_out ≡ ok (k, q)
    → IsQuoted c a direction amount_in min_amount_out k q
unfolding swap_quote checked_mul
swap_quote-IsQuoted c a direction amount_in min_amount_out h = ground arith
