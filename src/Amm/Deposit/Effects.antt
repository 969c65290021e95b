-- ===== src/Amm/Deposit/Effects.antt =====
-- What an `add_liquidity` that succeeds has done.
use solana_stablecoin_amm.Base.{ℕ, ◌+◌, ◌<◌, ◌≤◌, ◌≡◌, some, ok, refl, sym, ap, ◌∙◌, >>=-eq-ok}
use solana_stablecoin_amm.Math.{minimum_liquidity}
use solana_stablecoin_amm.Chain.{Ledger, Runtime, amount_at, supply_at, update}
use solana_stablecoin_amm.State.{Pool, Chain}
use solana_stablecoin_amm.Amm.Context.{check_pool-ok, ensure_solvent-ok, ensure_seeded-ok}
use solana_stablecoin_amm.Amm.Liquidity.{LiquidityAccounts, LiquidityContext, liquidity_context}
use solana_stablecoin_amm.Amm.Liquidity.Effects.{liquidity_context-raw}
use solana_stablecoin_amm.Amm.Deposit.{
  LiquidityAdded, DepositAmounts, Expected, add_checks, add_transfers, add_settle, add_liquidity,
}
use solana_stablecoin_amm.Amm.Deposit.Checks.{
  IsPlanned, deposit_quote-ok, expected_totals-ok, add_checks-raw, pool_grown, pool_at,
  add_settle-ok,
}

pub add_liquidity-stages :
    (rt : Runtime) (d : LiquidityAccounts) (x y min_a min_b min_lp : ℕ) (s : Chain)
    {done : Chain × LiquidityAdded}
    → add_liquidity rt d x y min_a min_b min_lp s ≡ ok done
    → (a : LiquidityContext) × (q : DepositAmounts) × (totals : Expected) × (l : Ledger)
      × (liquidity_context rt d s ≡ ok a)
      × (add_checks d a x y min_a min_b min_lp ≡ ok (q, totals))
      × (add_transfers rt d a q s.ledger ≡ ok l)
      × (add_settle d a q totals l s ≡ ok done)
unfolding add_liquidity
add_liquidity-stages rt d x y min_a min_b min_lp s h =
    let (a, ea, rest) = >>=-eq-ok _ _ h in
    let ((q, totals), eq, last) = >>=-eq-ok _ _ rest in
    let (l, el, settle) =
      >>=-eq-ok (add_transfers rt d a q s.ledger) (λ l. add_settle d a q totals l s) last in
    (a, q, totals, l, ea, eq, el, settle)

-- What a deposit of at most `x` and `y` has done to the pool and to the chain.
pub record IsDeposited (d : LiquidityAccounts) (x y min_a min_b min_lp : ℕ) (pool : Pool)
    (q : DepositAmounts) (s s' : Chain) : Type 0 where
  pub planned :
      IsPlanned pool (supply_at s.ledger d.shared.lp_mint) (amount_at s.ledger d.locked_lp) x y q
  pub lp_mint : pool.lp_mint ≡ d.shared.lp_mint
  pub enough_a : min_a ≤ q.amount_a
  pub enough_b : min_b ≤ q.amount_b
  pub enough_lp : min_lp ≤ q.lp_to_user
  pub after : s' ≡ record s {
    ledger = s'.ledger;
    pools = update s.pools d.shared.pool (some (pool_grown pool q));
  }
  pub supply :
      supply_at s'.ledger d.shared.lp_mint
      ≡ supply_at s.ledger d.shared.lp_mint + (q.lp_to_user + q.lp_to_lock)
  pub locked_min : minimum_liquidity ≤ amount_at s'.ledger d.locked_lp
  pub locked_covered : amount_at s'.ledger d.locked_lp ≤ supply_at s'.ledger d.shared.lp_mint
  pub reserve_a_pos : 0 < pool.reserve_a + q.amount_a
  pub reserve_b_pos : 0 < pool.reserve_b + q.amount_b
  pub solvent_a : pool.reserve_a + q.amount_a ≤ amount_at s'.ledger d.shared.vault_a
  pub solvent_b : pool.reserve_b + q.amount_b ≤ amount_at s'.ledger d.shared.vault_b

pub staged-IsDeposited :
    (d : LiquidityAccounts) (a : LiquidityContext) (x y min_a min_b min_lp : ℕ) (q : DepositAmounts)
    (totals : Expected) (l : Ledger) (s : Chain) {s' : Chain} {event : LiquidityAdded}
    → supply_at s.ledger d.shared.lp_mint ≡ a.shared.lp_mint.supply
    → amount_at s.ledger d.locked_lp ≡ a.locked_lp.amount
    → a.shared.pool.lp_mint ≡ d.shared.lp_mint
    → add_checks d a x y min_a min_b min_lp ≡ ok (q, totals)
    → add_settle d a q totals l s ≡ ok (s', event)
    → IsDeposited d x y min_a min_b min_lp a.shared.pool q s s'
staged-IsDeposited d a x y min_a min_b min_lp q totals l s {s'} before held lp_mint checked settle =
    let ((quote, summed), (enough_a, enough_b, enough_lp)) =
      add_checks-raw d a x y min_a min_b min_lp checked in
    let (ra, rb, total) = expected_totals-ok a q summed in
    let ((after, supply), solvent, seeded) = add_settle-ok d a q totals l s settle in
    let ledger : s'.ledger ≡ l = ap (λ t. t.ledger) after in
    let (sa, sb) = ensure_solvent-ok _ _ _ solvent in
    let (pa, pb, locked_min, locked_covered) = ensure_seeded-ok _ _ _ seeded in
    record {
      lp_mint = lp_mint;
      planned = rw (before, held) (deposit_quote-ok a x y quote);
      enough_a = enough_a;
      enough_b = enough_b;
      enough_lp = enough_lp;
      after =
          after
          ∙ ap
              (λ (k : Ledger). record s {
                ledger = k;
                pools = update s.pools d.shared.pool (some (pool_at a.shared.pool totals));
              })
              (sym ledger)
          ∙ ap
              (λ (r : ℕ × ℕ). record s {
                ledger = s'.ledger;
                pools =
                    update s.pools d.shared.pool
                      (some (record (a.shared.pool) { reserve_a = r.0; reserve_b = r.1 }));
              })
              (λ i. (ra i, rb i));
      supply = rw (ledger, before) (supply ∙ total);
      locked_min = rw ledger locked_min;
      locked_covered = rw (ledger, supply) locked_covered;
      reserve_a_pos = rw ra at pa;
      reserve_b_pos = rw rb at pb;
      solvent_a = rw ledger (rw ra at sa);
      solvent_b = rw ledger (rw rb at sb);
    }

-- An `add_liquidity` that succeeds took the amounts of the first quote on an empty pool without
-- pool tokens, and of the later quote at the live supply otherwise, within the three bounds; the
-- supply of pool tokens grew by exactly the minted and the locked ones, the locked account holds
-- at least the minimum and is covered by the supply, the reserves are positive, grew by the
-- amounts and are covered by the vaults, and of what the programs store only the reserves of this
-- pool changed.
pub add_liquidity-IsDeposited :
    (rt : Runtime) (d : LiquidityAccounts) (x y min_a min_b min_lp : ℕ) (s : Chain) {s' : Chain}
    {event : LiquidityAdded}
    → add_liquidity rt d x y min_a min_b min_lp s ≡ ok (s', event)
    → (pool : Pool) × (q : DepositAmounts) × (s.pools d.shared.pool ≡ some pool)
      × IsDeposited d x y min_a min_b min_lp pool q s s'
add_liquidity-IsDeposited rt d x y min_a min_b min_lp s h =
    let (a, q, totals, l, ea, eq, _, settle) =
      add_liquidity-stages rt d x y min_a min_b min_lp s h in
    let (stored, lp, held, pool) = liquidity_context-raw rt d s ea in
    (
      a.shared.pool,
      q,
      stored,
      staged-IsDeposited d a x y min_a min_b min_lp q totals l s (rw (lp, supply_at) refl)
          (rw (held, amount_at) refl) (check_pool-ok rt d.shared a.shared.pool pool).4 eq settle,
    )
