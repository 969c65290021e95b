-- ===== src/History/Solvent/Covered.antt =====
-- The vaults of the pool that an AMM instruction names.
use solana_stablecoin_amm.Base.{
  ℕ, ◌≡◌, ◌≤◌, ◌⊎◌, inl, inr, ap, ◌∙◌, arith, some, ok, List, >>=-eq-ok,
}
use solana_stablecoin_amm.Math.{SwapQuote}
use solana_stablecoin_amm.Chain.{Pubkey, Ledger, Seed, Runtime, amount_at}
use solana_stablecoin_amm.Chain.Laws.{written}
use solana_stablecoin_amm.Chain.Holdings.{title, HoldingLaws}
use solana_stablecoin_amm.State.{Pool, SwapDirection, Chain, chain_after-ok}
use solana_stablecoin_amm.Amm.{PoolAccounts, PoolContext, ensure_solvent}
use solana_stablecoin_amm.Amm.Context.{pool_context-IsContext, ensure_solvent-ok, check_pool-ok}
use solana_stablecoin_amm.Amm.Setup.{
  InitializePoolAccounts, PoolBumps, create_vault, create_lp, create_children, new_pool,
}
use solana_stablecoin_amm.Amm.Setup.Effects.{initialize_pool-IsSetUp}
use solana_stablecoin_amm.Amm.Swap.{SwapExecuted, settled, swap_settle}
use solana_stablecoin_amm.Amm.Swap.Effects.{swap-stages, swap_settle-ok, pool_after}
use solana_stablecoin_amm.Amm.Liquidity.{LiquidityAccounts}
use solana_stablecoin_amm.Amm.Liquidity.Effects.{
  remove_liquidity-stages, remove_settle-ok, liquidity_context-raw,
}
use solana_stablecoin_amm.Amm.Deposit.Effects.{add_liquidity-stages}
use solana_stablecoin_amm.Amm.Deposit.Checks.{add_settle-ok}
use solana_stablecoin_amm.Amm.Program as Market
use solana_stablecoin_amm.History.Calls.Stages.{create_vault-stages}
use solana_stablecoin_amm.History.Calls.Market.{create_vault-Preserves, create_lp-Preserves}
use solana_stablecoin_amm.History.Mints.{named_pool}

-- The vaults are for the pool's mints, belong to it, and cover its reserves.
pub record IsCovered (k : Pubkey) (p : Pool) (l : Ledger) : Type 0 where
  pub title_a : title (l.accounts p.vault_a) ≡ some (p.mint_a, k)
  pub title_b : title (l.accounts p.vault_b) ≡ some (p.mint_b, k)
  pub covers_a : p.reserve_a ≤ amount_at l p.vault_a
  pub covers_b : p.reserve_b ≤ amount_at l p.vault_b

-- The pool that was stored has new reserves that its vaults cover.
pub record IsSettled (k : Pubkey) (s s' : Chain) : Type 0 where
  pub pool : Pool
  pub reserve_a : ℕ
  pub reserve_b : ℕ
  pub before : s.pools k ≡ some pool
  pub after : s'.pools k ≡ some (record pool { reserve_a = reserve_a; reserve_b = reserve_b })
  pub covers_a : reserve_a ≤ amount_at s'.ledger pool.vault_a
  pub covers_b : reserve_b ≤ amount_at s'.ledger pool.vault_b

swap_settle-solvent :
    (c : PoolAccounts) (a : PoolContext) (direction : SwapDirection) (amount_in k : ℕ)
    (q : SwapQuote) (l : Ledger) (s : Chain) {s' : Chain} {event : SwapExecuted}
    → swap_settle c a direction amount_in (k, q) l s ≡ ok (s', event)
    → ensure_solvent (pool_after direction a.pool q) (amount_at l c.vault_a) (amount_at l c.vault_b)
      ≡ ok tt
unfolding swap_settle
swap_settle-solvent c a direction amount_in k q l s h = ground arith

swap-IsSettled :
    (rt : Runtime) (c : PoolAccounts) (direction : SwapDirection) (amount_in min_amount_out : ℕ)
    (s : Chain) {s' : Chain}
    → Market.process rt (Market.swap c direction amount_in min_amount_out) s ≡ ok s'
    → IsSettled c.pool s s'
unfolding Market.process
swap-IsSettled rt c direction amount_in min_amount_out s e =
    let (a, k, q, l, ea, _, _, settle) =
      swap-stages rt c direction amount_in min_amount_out s (chain_after-ok _ e).1 in
    let ctx = pool_context-IsContext rt c s ea in
    let ((ledger, after), _, _) = swap_settle-ok c a direction amount_in k q l s settle in
    let solvent = swap_settle-solvent c a direction amount_in k q l s settle in
    let (sa, sb) = ensure_solvent-ok (pool_after direction a.pool q) _ _ solvent in
    record {
      pool = a.pool;
      reserve_a = (settled direction q).0;
      reserve_b = (settled direction q).1;
      before = ctx.stored;
      after = after;
      covers_a = rw (ledger, ctx.vault_a) sa;
      covers_b = rw (ledger, ctx.vault_b) sb;
    }

add_liquidity-IsSettled :
    (rt : Runtime) (d : LiquidityAccounts) (x y min_a min_b min_lp : ℕ) (s : Chain) {s' : Chain}
    → Market.process rt (Market.add_liquidity d x y min_a min_b min_lp) s ≡ ok s'
    → IsSettled d.shared.pool s s'
unfolding Market.process
add_liquidity-IsSettled rt d x y min_a min_b min_lp s e =
    let (a, q, totals, l, ea, _, _, settle) =
      add_liquidity-stages rt d x y min_a min_b min_lp s (chain_after-ok _ e).1 in
    let (before, _, _, checked) = liquidity_context-raw rt d s ea in
    let (_, _, va, vb, _) = check_pool-ok rt d.shared a.shared.pool checked in
    let ((after, _), solvent, _) = add_settle-ok d a q totals l s settle in
    let (sa, sb) = ensure_solvent-ok _ _ _ solvent in
    record {
      pool = a.shared.pool;
      reserve_a = totals.reserve_a;
      reserve_b = totals.reserve_b;
      before = before;
      after = ap (λ t. t.pools d.shared.pool) after ∙ written s.pools d.shared.pool _;
      covers_a = rw (after, va) sa;
      covers_b = rw (after, vb) sb;
    }

remove_liquidity-IsSettled :
    (rt : Runtime) (d : LiquidityAccounts) (lp_amount min_a_out min_b_out : ℕ) (s : Chain)
    {s' : Chain}
    → Market.process rt (Market.remove_liquidity d lp_amount min_a_out min_b_out) s ≡ ok s'
    → IsSettled d.shared.pool s s'
unfolding Market.process
remove_liquidity-IsSettled rt d lp_amount min_a_out min_b_out s e =
    let (a, q, l, ea, _, _, settle) =
      remove_liquidity-stages rt d lp_amount min_a_out min_b_out s (chain_after-ok _ e).1 in
    let (before, _, _, checked) = liquidity_context-raw rt d s ea in
    let (_, _, va, vb, _) = check_pool-ok rt d.shared a.shared.pool checked in
    let ((after, _), solvent, _) = remove_settle-ok d a lp_amount q l s settle in
    let (sa, sb) = ensure_solvent-ok _ _ _ solvent in
    record {
      pool = a.shared.pool;
      reserve_a = q.new_reserve_a;
      reserve_b = q.new_reserve_b;
      before = before;
      after = ap (λ t. t.pools d.shared.pool) after ∙ written s.pools d.shared.pool _;
      covers_a = rw (after, va) sa;
      covers_b = rw (after, vb) sb;
    }

module _ (rt : Runtime) (laws : HoldingLaws rt) where
  create_vault-title :
      (payer vault mint pool : Pubkey) (seeds : List Seed) (l : Ledger) {l' : Ledger}
      → create_vault rt payer vault mint pool seeds l ≡ ok l'
      → title (l'.accounts vault) ≡ some (mint, pool)
  create_vault-title payer vault mint pool seeds l h =
      let (_, _, _, _, opened) = create_vault-stages rt payer vault mint pool seeds l h in
      laws.opened _ _ _ opened

  pub create_children-titles :
      (c : InitializePoolAccounts) (bumps : PoolBumps) (decimals : ℕ) (l : Ledger) {l' : Ledger}
      → create_children rt c bumps decimals l ≡ ok l'
      → (title (l'.accounts c.vault_a) ≡ some (c.mint_a, c.pool))
        × (title (l'.accounts c.vault_b) ≡ some (c.mint_b, c.pool))
        × ((vaults : Ledger) × (create_lp rt c bumps decimals vaults ≡ ok l'))
  unfolding create_children
  create_children-titles c bumps decimals l h =
      let (first, e1, rest) = >>=-eq-ok _ _ h in
      let (second, e2, e3) = >>=-eq-ok _ _ rest in
      let keeps =
        λ (k : Pubkey). create_lp-Preserves rt (laws.titles k) c bumps decimals second e3 tt in
      (
        keeps c.vault_a c.mint_a c.pool (
            create_vault-Preserves rt (laws.titles c.vault_a) _ _ _ _ _ first e2 c.mint_a c.pool
              (create_vault-title _ _ _ _ _ l e1)),
        keeps c.vault_b c.mint_b c.pool (create_vault-title _ _ _ _ _ first e2),
        (second, e3),
      )

  new_pool-IsCovered :
      (c : InitializePoolAccounts) (fee_bps : ℕ) (s : Chain) {s' : Chain}
      → Market.process rt (Market.initialize_pool c fee_bps) s ≡ ok s'
      → (pool : Pool) × (s'.pools c.pool ≡ some pool) × IsCovered c.pool pool s'.ledger
  unfolding Market.process
  new_pool-IsCovered c fee_bps s e =
      let (_, _, bumps, i) = initialize_pool-IsSetUp rt c fee_bps s (chain_after-ok _ e).1 in
      let (ta, tb, _) = create_children-titles c bumps _ s.ledger i.children in
      (
        new_pool c bumps fee_bps 6,
        ap (λ t. t.pools c.pool) i.after ∙ written s.pools c.pool _,
        record { title_a = ta; title_b = tb; covers_a = omega arith; covers_b = omega arith },
      )

  -- The named pool was stored and is settled, or it is new.
  pub process-IsSettled :
      (i : Market.Instruction) (s : Chain) {s' : Chain}
      → Market.process rt i s ≡ ok s'
      → IsSettled (named_pool i) s s'
        ⊎ ((pool : Pool) × (s'.pools (named_pool i) ≡ some pool)
            × IsCovered (named_pool i) pool s'.ledger)
  process-IsSettled (Market.initialize_pool c fee_bps) s e = inr (new_pool-IsCovered c fee_bps s e)
  process-IsSettled (Market.swap c direction amount_in min_amount_out) s e =
      inl (swap-IsSettled rt c direction amount_in min_amount_out s e)
  process-IsSettled (Market.add_liquidity d x y min_a min_b min_lp) s e =
      inl (add_liquidity-IsSettled rt d x y min_a min_b min_lp s e)
  process-IsSettled (Market.remove_liquidity d lp_amount min_a_out min_b_out) s e =
      inl (remove_liquidity-IsSettled rt d lp_amount min_a_out min_b_out s e)
