-- ===== src/Amm/Liquidity/Effects.antt =====
-- What a `remove_liquidity` that succeeds has done.
use solana_stablecoin_amm.Base.{
  ℕ, ◌+◌, ◌≤◌, ◌≡◌, arith, some, ok, refl, sym, ap, ◌∙◌, >>=-eq-ok, map_err, map_err-ok,
}
use solana_stablecoin_amm.Math.{RemoveLiquidityQuote, quote_remove_liquidity, minimum_liquidity}
use solana_stablecoin_amm.Math.Value.{KeepsValue}
use solana_stablecoin_amm.Math.Remove.Laws.{
  quote_remove_liquidity-IsRemove, quote_remove_liquidity-fair,
}
use solana_stablecoin_amm.Chain.{Ledger, Runtime, amount_at, supply_at, update}
use solana_stablecoin_amm.State.{Pool, Chain}
use solana_stablecoin_amm.Amm.{
  check_pool, from_math, ensure_unpaused, ensure_solvent, ensure_seeded,
}
use solana_stablecoin_amm.Amm.Context.{check_pool-ok, ensure_solvent-ok, ensure_seeded-ok}
use solana_stablecoin_amm.Amm.Liquidity.{
  LiquidityAccounts, LiquidityContext, liquidity_context, ensure_pool, LiquidityRemoved,
  remove_quote, remove_transfers, remove_settle, remove_liquidity,
}

pub liquidity_context-raw :
    (rt : Runtime) (d : LiquidityAccounts) (s : Chain) {a : LiquidityContext}
    → liquidity_context rt d s ≡ ok a
    → (s.pools d.shared.pool ≡ some a.shared.pool)
      × (s.ledger.mints d.shared.lp_mint ≡ some a.shared.lp_mint)
      × (s.ledger.accounts d.locked_lp ≡ some a.locked_lp)
      × (check_pool rt d.shared a.shared.pool ≡ ok tt)
unfolding liquidity_context
liquidity_context-raw rt d s {a} h = ground arith

pub remove_quote-raw :
    (d : LiquidityAccounts) (a : LiquidityContext) (lp_amount min_a_out min_b_out : ℕ)
    {q : RemoveLiquidityQuote}
    → remove_quote d a lp_amount min_a_out min_b_out ≡ ok q
    → (ensure_pool d a ≡ ok tt)
      × (map_err from_math (
            quote_remove_liquidity lp_amount a.shared.pool.reserve_a a.shared.pool.reserve_b
              a.shared.lp_mint.supply)
          ≡ ok q)
      × (min_a_out ≤ q.amount_a)
      × (min_b_out ≤ q.amount_b)
unfolding remove_quote
remove_quote-raw d a lp_amount min_a_out min_b_out h = ground arith

pub ensure_pool-ok :
    (d : LiquidityAccounts) (a : LiquidityContext)
    → ensure_pool d a ≡ ok tt
    → (ensure_unpaused a.shared.config_a a.shared.config_b ≡ ok tt)
      × (ensure_solvent a.shared.pool a.shared.vault_a.amount a.shared.vault_b.amount ≡ ok tt)
unfolding ensure_pool
ensure_pool-ok d a h = ground arith

-- The pool with the reserves of a quote.
abbrev pub pool_left : Pool → RemoveLiquidityQuote → Pool
pool_left pool q = record pool { reserve_a = q.new_reserve_a; reserve_b = q.new_reserve_b }

pub remove_settle-ok :
    (d : LiquidityAccounts) (a : LiquidityContext) (lp_amount : ℕ) (q : RemoveLiquidityQuote)
    (l : Ledger) (s : Chain) {s' : Chain} {event : LiquidityRemoved}
    → remove_settle d a lp_amount q l s ≡ ok (s', event)
    → ((s' ≡ record s {
      ledger = l;
      pools = update s.pools d.shared.pool (some (pool_left a.shared.pool q));
    })
        × (supply_at l d.shared.lp_mint ≡ q.new_lp_supply))
      × (ensure_solvent
            (pool_left a.shared.pool q)
            (amount_at l d.shared.vault_a)
            (amount_at l d.shared.vault_b)
          ≡ ok tt)
      × (ensure_seeded (pool_left a.shared.pool q) q.new_lp_supply a.locked_lp.amount ≡ ok tt)
unfolding remove_settle
remove_settle-ok d a lp_amount q l s h = ground arith

pub remove_liquidity-stages :
    (rt : Runtime) (d : LiquidityAccounts) (lp_amount min_a_out min_b_out : ℕ) (s : Chain)
    {done : Chain × LiquidityRemoved}
    → remove_liquidity rt d lp_amount min_a_out min_b_out s ≡ ok done
    → (a : LiquidityContext) × (q : RemoveLiquidityQuote) × (l : Ledger) × (liquidity_context rt d s
        ≡ ok a)
      × (remove_quote d a lp_amount min_a_out min_b_out ≡ ok q)
      × (remove_transfers rt d a lp_amount q s.ledger ≡ ok l)
      × (remove_settle d a lp_amount q l s ≡ ok done)
unfolding remove_liquidity
remove_liquidity-stages rt d lp_amount min_a_out min_b_out s h =
    let (a, ea, rest) = >>=-eq-ok _ _ h in
    let (q, eq, last) = >>=-eq-ok _ _ rest in
    let (l, el, settle) =
      >>=-eq-ok (remove_transfers rt d a lp_amount q s.ledger)
        (λ l. remove_settle d a lp_amount q l s) last in
    (a, q, l, ea, eq, el, settle)

-- What withdrawing `lp_amount` has done to the pool and to the chain.
pub record IsWithdrawn (d : LiquidityAccounts) (lp_amount min_a_out min_b_out : ℕ) (pool : Pool)
    (locked : ℕ) (q : RemoveLiquidityQuote) (s s' : Chain) : Type 0 where
  pub quote :
      quote_remove_liquidity lp_amount pool.reserve_a pool.reserve_b
        (supply_at s.ledger d.shared.lp_mint)
      ≡ ok q
  pub lp_mint : pool.lp_mint ≡ d.shared.lp_mint
  pub enough_a : min_a_out ≤ q.amount_a
  pub enough_b : min_b_out ≤ q.amount_b
  pub after : s' ≡ record s {
    ledger = s'.ledger;
    pools = update s.pools d.shared.pool (some (pool_left pool q));
  }
  pub supply :
      supply_at s'.ledger d.shared.lp_mint + lp_amount ≡ supply_at s.ledger d.shared.lp_mint
  pub locked_amount : amount_at s.ledger d.locked_lp ≡ locked
  pub locked_min : minimum_liquidity ≤ locked
  pub locked_covered : locked ≤ supply_at s'.ledger d.shared.lp_mint
  pub solvent_a : q.new_reserve_a ≤ amount_at s'.ledger d.shared.vault_a
  pub solvent_b : q.new_reserve_b ≤ amount_at s'.ledger d.shared.vault_b
  pub value :
      KeepsValue pool.reserve_a pool.reserve_b
        (supply_at s.ledger d.shared.lp_mint)
        q.new_reserve_a
        q.new_reserve_b
        (supply_at s'.ledger d.shared.lp_mint)

pub staged-IsWithdrawn :
    (d : LiquidityAccounts) (a : LiquidityContext) (lp_amount min_a_out min_b_out : ℕ)
    (q : RemoveLiquidityQuote) (l : Ledger) (s : Chain) {s' : Chain} {event : LiquidityRemoved}
    → supply_at s.ledger d.shared.lp_mint ≡ a.shared.lp_mint.supply
    → amount_at s.ledger d.locked_lp ≡ a.locked_lp.amount
    → a.shared.pool.lp_mint ≡ d.shared.lp_mint
    → remove_quote d a lp_amount min_a_out min_b_out ≡ ok q
    → remove_settle d a lp_amount q l s ≡ ok (s', event)
    → IsWithdrawn d lp_amount min_a_out min_b_out a.shared.pool a.locked_lp.amount q s s'
staged-IsWithdrawn d a lp_amount min_a_out min_b_out q l s {s'} before held lp_mint quoted settle =
    let (_, quote, enough_a, enough_b) =
      remove_quote-raw d a lp_amount min_a_out min_b_out quoted in
    let quote_ok = rw (sym before) at (map_err-ok _ _ quote) in
    let ((after, supply), solvent, seeded) = remove_settle-ok d a lp_amount q l s settle in
    let ledger : s'.ledger ≡ l = ap (λ t. t.ledger) after in
    let (sa, sb) = ensure_solvent-ok _ _ _ solvent in
    let (_, _, locked_min, locked_covered) = ensure_seeded-ok _ _ _ seeded in
    let (_, _, _, value) = quote_remove_liquidity-fair _ _ _ _ quote_ok in
    let h = quote_remove_liquidity-IsRemove _ _ _ _ quote_ok in
    record {
      lp_mint = lp_mint;
      quote = quote_ok;
      enough_a = enough_a;
      enough_b = enough_b;
      after =
          after
          ∙ ap
              (λ (k : Ledger). record s {
                ledger = k;
                pools = update s.pools d.shared.pool (some (pool_left a.shared.pool q));
              })
              (sym ledger);
      supply = rw (ledger, supply) h.supply;
      locked_amount = held;
      locked_min = locked_min;
      locked_covered = rw (ledger, supply) locked_covered;
      solvent_a = rw ledger sa;
      solvent_b = rw ledger sb;
      value = rw (ledger, supply) value;
    }

-- A `remove_liquidity` that succeeds paid the quote at the pool's reserves and the live supply of
-- pool tokens, within the slippage bounds, and burned exactly the given amount of them; the
-- locked tokens are at least the minimum and still covered by the supply, the vaults cover the
-- new reserves, no pool token has lost value, and of what the programs store only the reserves of
-- this pool changed.
pub remove_liquidity-IsWithdrawn :
    (rt : Runtime) (d : LiquidityAccounts) (lp_amount min_a_out min_b_out : ℕ) (s : Chain)
    {s' : Chain} {event : LiquidityRemoved}
    → remove_liquidity rt d lp_amount min_a_out min_b_out s ≡ ok (s', event)
    → (pool : Pool) × (locked : ℕ) × (q : RemoveLiquidityQuote) × (s.pools d.shared.pool
        ≡ some pool)
      × IsWithdrawn d lp_amount min_a_out min_b_out pool locked q s s'
remove_liquidity-IsWithdrawn rt d lp_amount min_a_out min_b_out s h =
    let (a, q, l, ea, eq, _, settle) =
      remove_liquidity-stages rt d lp_amount min_a_out min_b_out s h in
    let (stored, lp, held, pool) = liquidity_context-raw rt d s ea in
    (
      a.shared.pool,
      a.locked_lp.amount,
      q,
      stored,
      staged-IsWithdrawn d a lp_amount min_a_out min_b_out q l s (rw (lp, supply_at) refl)
          (rw (held, amount_at) refl) (check_pool-ok rt d.shared a.shared.pool pool).4 eq settle,
    )
