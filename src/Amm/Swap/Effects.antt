-- ===== src/Amm/Swap/Effects.antt =====
-- What a `swap` that succeeds has done.
use solana_stablecoin_amm.Base.{ℕ, ◌+◌, ◌*◌, ◌≤◌, ◌≡◌, ◌≢◌, refl, arith, some, subst, ok, >>=-eq-ok}
use solana_stablecoin_amm.Math.{SwapQuote, quote_swap}
use solana_stablecoin_amm.Math.Swap.Laws.{IsSwap, quote_swap-IsSwap, quote_swap-product}
use solana_stablecoin_amm.Chain.{Pubkey, Runtime, Ledger, TokenAccount, amount_at}
use solana_stablecoin_amm.Chain.Laws.{TransferLaws}
use solana_stablecoin_amm.State.{Pool, SwapDirection, a_to_b, b_to_a, Chain}
use solana_stablecoin_amm.Amm.{PoolAccounts, PoolContext, pool_context}
use solana_stablecoin_amm.Amm.Context.{
  IsContext, pool_context-IsContext, IsContext-AreApart, ensure_solvent-ok,
}
use solana_stablecoin_amm.Amm.Swap.{
  SwapExecuted, oriented, settled, route, swap_quote, swap_transfers, swap_settle, swap,
}
use solana_stablecoin_amm.Amm.Swap.Checks.{IsQuoted, swap_quote-IsQuoted}
use solana_stablecoin_amm.Amm.Swap.Transfers.{AreMoved, swap_transfers-AreMoved}

-- The pool with the reserves of a quote.
abbrev pub pool_after : SwapDirection → Pool → SwapQuote → Pool
pool_after direction pool q = record pool {
  reserve_a = (settled direction q).0;
  reserve_b = (settled direction q).1;
}

-- The stages of a successful swap.
pub swap-stages :
    (rt : Runtime) (c : PoolAccounts) (direction : SwapDirection) (amount_in min_amount_out : ℕ)
    (s : Chain) {done : Chain × SwapExecuted}
    → swap rt c direction amount_in min_amount_out s ≡ ok done
    → (a : PoolContext) × (k : ℕ) × (q : SwapQuote) × (l : Ledger) × (pool_context rt c s ≡ ok a)
      × (swap_quote c a direction amount_in min_amount_out ≡ ok (k, q))
      × (swap_transfers rt c a.pool.decimals direction amount_in q.amount_out s.ledger ≡ ok l)
      × (swap_settle c a direction amount_in (k, q) l s ≡ ok done)
unfolding swap
swap-stages rt c direction amount_in min_amount_out s h =
    let (a, ea, rest) = >>=-eq-ok _ _ h in
    let (quoted, eq, last) = >>=-eq-ok _ _ rest in
    let (l, el, settle) = >>=-eq-ok _ _ last in (a, quoted.0, quoted.1, l, ea, eq, el, settle)

-- What the last stage writes and has checked.
pub swap_settle-ok :
    (c : PoolAccounts) (a : PoolContext) (direction : SwapDirection) (amount_in k : ℕ)
    (q : SwapQuote) (l : Ledger) (s : Chain) {s' : Chain} {event : SwapExecuted}
    → swap_settle c a direction amount_in (k, q) l s ≡ ok (s', event)
    → ((s'.ledger ≡ l) × (s'.pools c.pool ≡ some (pool_after direction a.pool q)))
      × ((s'.configs ≡ s.configs) × (s'.roles ≡ s.roles) × (s'.policies ≡ s.policies))
      × ((event.amount_out ≡ q.amount_out)
          × (event.reserve_a ≡ (settled direction q).0)
          × (event.reserve_b ≡ (settled direction q).1))
unfolding swap_settle
swap_settle-ok c a direction amount_in k q l s h = ground arith

swap_settle-others :
    (c : PoolAccounts) (a : PoolContext) (direction : SwapDirection) (amount_in k : ℕ)
    (q : SwapQuote) (l : Ledger) (s : Chain) {s' : Chain} {event : SwapExecuted} (j : Pubkey)
    → swap_settle c a direction amount_in (k, q) l s ≡ ok (s', event)
    → j ≢ c.pool
    → s'.pools j ≡ s.pools j
unfolding swap_settle
swap_settle-others c a direction amount_in k q l s j h ne = ground arith

-- A vault's surplus over the reserve that the pool has recorded does not change, and neither does
-- its being solvent.
pub record KeepsVaults (c : PoolAccounts) (pool pool' : Pool) (l l' : Ledger) : Type 0 where
  pub surplus_a : amount_at l' c.vault_a + pool.reserve_a ≡ amount_at l c.vault_a + pool'.reserve_a
  pub surplus_b : amount_at l' c.vault_b + pool.reserve_b ≡ amount_at l c.vault_b + pool'.reserve_b
  pub solvent_a : pool'.reserve_a ≤ amount_at l' c.vault_a
  pub solvent_b : pool'.reserve_b ≤ amount_at l' c.vault_b

pub swap-KeepsVaults :
    (direction : SwapDirection) (c : PoolAccounts) (pool : Pool) (amount_in : ℕ) (q : SwapQuote)
    (l l' : Ledger)
    → IsSwap amount_in (oriented direction pool).0 (oriented direction pool).1 pool.fee_bps q
    → AreMoved (route direction c) amount_in q.amount_out l l'
    → pool.reserve_a ≤ amount_at l c.vault_a
    → pool.reserve_b ≤ amount_at l c.vault_b
    → KeepsVaults c pool (pool_after direction pool q) l l'
swap-KeepsVaults a_to_b c pool amount_in q l l' h m sa sb =
    let ei = m.vault_in in let eo = m.vault_out in omega arith
swap-KeepsVaults b_to_a c pool amount_in q l l' h m sa sb =
    let ei = m.vault_in in let eo = m.vault_out in omega arith

product_after :
    (direction : SwapDirection) (pool : Pool) (q : SwapQuote)
    → (oriented direction pool).0 * (oriented direction pool).1
      ≤ q.new_reserve_in * q.new_reserve_out
    → pool.reserve_a * pool.reserve_b
      ≤ (pool_after direction pool q).reserve_a * (pool_after direction pool q).reserve_b
product_after a_to_b pool q h = h
product_after b_to_a pool q h = omega arith

pub amount_of_some :
    (l : Ledger) (k : Pubkey) (t : TokenAccount) → l.accounts k ≡ some t → amount_at l k ≡ t.amount
amount_of_some l k t e = rw (e, amount_at) refl

-- What a swap of `amount_in` has done to the pool and to the balances.
pub record IsSwapped (c : PoolAccounts) (direction : SwapDirection) (amount_in min_amount_out : ℕ)
    (pool : Pool) (q : SwapQuote) (s s' : Chain) : Type 0 where
  pub quote :
      quote_swap amount_in (oriented direction pool).0 (oriented direction pool).1 pool.fee_bps
      ≡ ok q
  pub enough : min_amount_out ≤ q.amount_out
  pub lp_mint : pool.lp_mint ≡ c.lp_mint
  pub after : s'.pools c.pool ≡ some (pool_after direction pool q)
  pub product :
      pool.reserve_a * pool.reserve_b
      ≤ (pool_after direction pool q).reserve_a * (pool_after direction pool q).reserve_b
  pub moved : AreMoved (route direction c) amount_in q.amount_out s.ledger s'.ledger
  pub vaults : KeepsVaults c pool (pool_after direction pool q) s.ledger s'.ledger
  pub other_pools : (k : Pubkey) → k ≢ c.pool → s'.pools k ≡ s.pools k
  pub configs : s'.configs ≡ s.configs
  pub roles : s'.roles ≡ s.roles
  pub policies : s'.policies ≡ s.policies

module _ (rt : Runtime) (laws : TransferLaws rt) where
  staged-IsSwapped :
      (c : PoolAccounts) (direction : SwapDirection) (amount_in min_amount_out k : ℕ)
      (a : PoolContext) (q : SwapQuote) (l : Ledger) (s : Chain) {s' : Chain} {event : SwapExecuted}
      → IsContext c s a
      → a.pool.mint_a ≢ a.pool.mint_b
      → IsQuoted c a direction amount_in min_amount_out k q
      → swap_transfers rt c a.pool.decimals direction amount_in q.amount_out s.ledger ≡ ok l
      → swap_settle c a direction amount_in (k, q) l s ≡ ok (s', event)
      → IsSwapped c direction amount_in min_amount_out a.pool q s s'
  staged-IsSwapped c direction amount_in min_amount_out k a q l s {s'} ctx ne quoted transfers
        settle =
      let ((el, ep), (ec, er, ew), ev) = swap_settle-ok c a direction amount_in k q l s settle in
      let apart = IsContext-AreApart c s a ctx ne quoted.children in
      let moved : AreMoved (route direction c) amount_in q.amount_out s.ledger s'.ledger = rw el (
        swap_transfers-AreMoved rt laws c a.pool.decimals direction amount_in q.amount_out apart
          transfers) in
      let (sa, sb) = ensure_solvent-ok a.pool a.vault_a.amount a.vault_b.amount quoted.solvent in
      record {
        quote = quoted.quote;
        enough = quoted.enough;
        lp_mint = ctx.lp_mint;
        after = ep;
        product = product_after direction a.pool q (quote_swap-product _ _ _ _ quoted.quote);
        moved = moved;
        vaults =
            swap-KeepsVaults direction c a.pool amount_in q s.ledger s'.ledger
              (quote_swap-IsSwap _ _ _ _ quoted.quote) moved
              (omega (arith, sa, amount_of_some s.ledger c.vault_a a.vault_a ctx.has_vault_a))
              (omega (arith, sb, amount_of_some s.ledger c.vault_b a.vault_b ctx.has_vault_b));
        other_pools = λ j nj. swap_settle-others c a direction amount_in k q l s j settle nj;
        configs = ec;
        roles = er;
        policies = ew;
      }

  -- A `swap` that succeeds on a pool of two different mints, with Token-2022 transfers that keep
  -- their documented effect, ran at the quote of the pool's reserves and met the slippage bound;
  -- it moved exactly the input and the output between the user and the vaults, left each vault's
  -- surplus over its reserve as it was, did not lower the product of the reserves, and touched no
  -- other pool, configuration, role or policy.
  pub swap-IsSwapped :
      (c : PoolAccounts) (direction : SwapDirection) (amount_in min_amount_out : ℕ) (pool : Pool)
      (s : Chain) {s' : Chain} {event : SwapExecuted}
      → s.pools c.pool ≡ some pool
      → pool.mint_a ≢ pool.mint_b
      → swap rt c direction amount_in min_amount_out s ≡ ok (s', event)
      → (q : SwapQuote) × IsSwapped c direction amount_in min_amount_out pool q s s'
  swap-IsSwapped c direction amount_in min_amount_out pool s {s'} stored ne h =
      let (a, k, q, l, ea, eq, el, settle) =
        swap-stages rt c direction amount_in min_amount_out s h in
      let ctx = pool_context-IsContext rt c s ea in
      let same : a.pool ≡ pool = cc (ctx.stored, stored) in
      (
        q,
        subst (λ p. IsSwapped c direction amount_in min_amount_out p q s s') same
            (staged-IsSwapped c direction amount_in min_amount_out k a q l s ctx (rw same ne)
              (swap_quote-IsQuoted c a direction amount_in min_amount_out eq) el settle),
      )

-- What a swap that succeeds stores, whatever Token-2022 does.
pub swap-after :
    (rt : Runtime) (c : PoolAccounts) (direction : SwapDirection) (amount_in min_amount_out : ℕ)
    (s : Chain) {s' : Chain} {event : SwapExecuted}
    → swap rt c direction amount_in min_amount_out s ≡ ok (s', event)
    → (pool : Pool) × (q : SwapQuote) × (s.pools c.pool ≡ some pool)
      × (quote_swap amount_in (oriented direction pool).0 (oriented direction pool).1 pool.fee_bps
          ≡ ok q)
      × (s'.pools c.pool ≡ some (pool_after direction pool q))
      × ((j : Pubkey) → j ≢ c.pool → s'.pools j ≡ s.pools j)
      × (s'.configs ≡ s.configs)
      × (s'.roles ≡ s.roles)
swap-after rt c direction amount_in min_amount_out s h =
    let (a, k, q, l, ea, eq, el, settle) =
      swap-stages rt c direction amount_in min_amount_out s h in
    let ((_, stored), (ec, er, _), _) = swap_settle-ok c a direction amount_in k q l s settle in
    (
      a.pool,
      q,
      (pool_context-IsContext rt c s ea).stored,
      (swap_quote-IsQuoted c a direction amount_in min_amount_out eq).quote,
      stored,
      (λ j nj. swap_settle-others c a direction amount_in k q l s j settle nj),
      ec,
      er,
    )
