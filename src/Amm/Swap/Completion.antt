-- ===== src/Amm/Swap/Completion.antt =====
-- The last stage of `swap`, after its transfers.
use solana_stablecoin_amm.Base.{
  ℕ, ◌*◌, ◌<◌, ◌≤◌, ◌≡◌, ◌≢◌, refl, arith, some, ok, checked_mul-some, le→leb, ◌^◌,
}
use solana_stablecoin_amm.Math.{SwapQuote}
use solana_stablecoin_amm.Math.Range.{mul_small}
use solana_stablecoin_amm.Math.Swap.Laws.{quote_swap-IsSwap, quote_swap-product}
use solana_stablecoin_amm.Chain.{Runtime, Ledger, TokenAccount, update}
use solana_stablecoin_amm.Chain.Laws.{TransferLaws, still_there}
use solana_stablecoin_amm.State.{SwapDirection, Chain}
use solana_stablecoin_amm.Amm.{PoolAccounts, PoolContext, pool_context}
use solana_stablecoin_amm.Amm.Context.{
  pool_context-IsContext, IsContext-AreApart, ensure_solvent-ok, ok-ensure_solvent,
}
use solana_stablecoin_amm.Amm.Swap.{
  SwapExecuted, settled, swap_quote, swap_transfers, swap_settle, swap,
}
use solana_stablecoin_amm.Amm.Swap.Checks.{swap_quote-IsQuoted}
use solana_stablecoin_amm.Amm.Swap.Transfers.{swap_transfers-AreMoved}
use solana_stablecoin_amm.Amm.Swap.Effects.{pool_after, swap-KeepsVaults, amount_of_some}

-- The last stage succeeds when the product has not fallen and the vaults cover the new reserves.
settle_succeeds :
    (c : PoolAccounts) (a : PoolContext) (direction : SwapDirection) (amount_in k : ℕ)
    (q : SwapQuote) (l : Ledger) (s : Chain) (va vb : TokenAccount)
    → q.new_reserve_in * q.new_reserve_out < 2 ^ 128
    → k ≤ q.new_reserve_in * q.new_reserve_out
    → l.accounts c.vault_a ≡ some va
    → l.accounts c.vault_b ≡ some vb
    → (settled direction q).0 ≤ va.amount
    → (settled direction q).1 ≤ vb.amount
    → (done : Chain × SwapExecuted) × (swap_settle c a direction amount_in (k, q) l s ≡ ok done)
unfolding swap_settle
settle_succeeds c a direction amount_in k q l s va vb small grown ea eb sa sb = (
  (
    record s { ledger = l; pools = update s.pools c.pool (some (pool_after direction a.pool q)) },
    record {
      pool = c.pool;
      user = c.user;
      direction = direction;
      amount_in = amount_in;
      amount_out = q.amount_out;
      reserve_a = (settled direction q).0;
      reserve_b = (settled direction q).1;
    },
  ),
  rw (checked_mul-some 128 _ _ small, le→leb _ _ grown, ea, eb)
      (rw (ok-ensure_solvent (pool_after direction a.pool q) va.amount vb.amount sa sb) refl),
)

module _ (rt : Runtime) (laws : TransferLaws rt) where
  -- On a pool of two different mints, with Token-2022 transfers that keep their documented
  -- effect: once the checks, the quote and both transfers have passed, `swap` succeeds, so
  -- neither the second check of the product nor the check of the reloaded vaults can fail.
  pub swap_completes :
      (c : PoolAccounts) (direction : SwapDirection) (amount_in min_amount_out : ℕ)
      (a : PoolContext) (k : ℕ) (q : SwapQuote) (l : Ledger) (s : Chain)
      → a.pool.mint_a ≢ a.pool.mint_b
      → pool_context rt c s ≡ ok a
      → swap_quote c a direction amount_in min_amount_out ≡ ok (k, q)
      → swap_transfers rt c a.pool.decimals direction amount_in q.amount_out s.ledger ≡ ok l
      → (done : Chain × SwapExecuted) × (swap rt c direction amount_in min_amount_out s ≡ ok done)
  unfolding swap
  swap_completes c direction amount_in min_amount_out a k q l s ne ea eq el =
      let ctx = pool_context-IsContext rt c s ea in
      let quoted = swap_quote-IsQuoted c a direction amount_in min_amount_out eq in
      let apart = IsContext-AreApart c s a ctx ne quoted.children in
      let moved =
        swap_transfers-AreMoved rt laws c a.pool.decimals direction amount_in q.amount_out apart
          el in
      let (sa, sb) = ensure_solvent-ok a.pool a.vault_a.amount a.vault_b.amount quoted.solvent in
      let h = quote_swap-IsSwap _ _ _ _ quoted.quote in
      let kept =
        swap-KeepsVaults direction c a.pool amount_in q s.ledger l h moved
          (omega (arith, sa, amount_of_some s.ledger c.vault_a a.vault_a ctx.has_vault_a))
          (omega (arith, sb, amount_of_some s.ledger c.vault_b a.vault_b ctx.has_vault_b)) in
      let (va, fa) =
        still_there s.ledger l c.vault_a (moved.identities c.vault_a) ctx.has_vault_a in
      let (vb, fb) =
        still_there s.ledger l c.vault_b (moved.identities c.vault_b) ctx.has_vault_b in
      let (done, settled_ok) =
        settle_succeeds c a direction amount_in k q l s va vb
          (mul_small q.new_reserve_in q.new_reserve_out h.capped_in (omega arith))
          (rw quoted.product (quote_swap-product _ _ _ _ quoted.quote)) fa fb
          (omega (arith, kept.solvent_a, amount_of_some l c.vault_a va fa))
          (omega (arith, kept.solvent_b, amount_of_some l c.vault_b vb fb)) in
      (done, rw (ea, eq, el) settled_ok)
