-- ===== src/Amm/Shares/Refinement.antt =====
-- The instructions on a pool, and what happens to it outside them, against the abstract trades.
use solana_stablecoin_amm.Base.{
  ℕ, ◌+◌, ◌<◌, ◌≤◌, ◌≡◌, ◌≢◌, refl, sym, ap, ◌∙◌, arith, subst, some, ok,
}
use solana_stablecoin_amm.Math.Value.{KeepsValue}
use solana_stablecoin_amm.Math.Remove.Laws.{quote_remove_liquidity-IsRemove}
use solana_stablecoin_amm.Chain.{Pubkey, Runtime, supply_at, amount_at}
use solana_stablecoin_amm.Chain.Laws.{TransferLaws, written}
use solana_stablecoin_amm.State.{Pool, SwapDirection, Chain}
use solana_stablecoin_amm.Amm.{PoolAccounts}
use solana_stablecoin_amm.Amm.Swap
use solana_stablecoin_amm.Amm.Swap.{SwapExecuted}
use solana_stablecoin_amm.Amm.Swap.Effects.{pool_after, swap-IsSwapped}
use solana_stablecoin_amm.Amm.Liquidity
use solana_stablecoin_amm.Amm.Liquidity.{LiquidityAccounts, LiquidityRemoved}
use solana_stablecoin_amm.Amm.Liquidity.Effects.{pool_left, remove_liquidity-IsWithdrawn}
use solana_stablecoin_amm.Amm.Deposit
use solana_stablecoin_amm.Amm.Deposit.{LiquidityAdded}
use solana_stablecoin_amm.Amm.Deposit.Checks.{pool_grown, IsPlanned}
use solana_stablecoin_amm.Amm.Deposit.Effects.{add_liquidity-IsDeposited}
use solana_stablecoin_amm.Amm.Deposit.Value.{planned-KeepsValue, planned-minted_pos}
use solana_stablecoin_amm.Amm.Shares.{Shares, Trade, Trades, Trades-IsFair}

-- What the holders of the tokens of mint `lp` see of the pool at address `k`.
pub record Shows (k lp : Pubkey) (s : Chain) (a : Shares) : Type 0 where
  pub pool : Pool
  pub stored : s.pools k ≡ some pool
  pub lp_mint : pool.lp_mint ≡ lp
  pub mints : pool.mint_a ≢ pool.mint_b
  pub reserve_a : a.reserve_a ≡ pool.reserve_a
  pub reserve_b : a.reserve_b ≡ pool.reserve_b
  pub supply : a.supply ≡ supply_at s.ledger lp

-- What may happen to a chain, as the pool at `k` sees it: an instruction on this pool that succeeds,
-- or anything that leaves the pool as it is and mints none of its tokens. Some tokens remain, since
-- nobody can burn the locked ones.
pub data PoolStep (rt : Runtime) (k lp : Pubkey) (s s' : Chain) : Type 0 where
  swap :
      (c : PoolAccounts) (direction : SwapDirection) (amount_in min_amount_out : ℕ)
      (event : SwapExecuted)
      → c.pool ≡ k
      → Swap.swap rt c direction amount_in min_amount_out s ≡ ok (s', event)
      → PoolStep rt k lp s s'
  add_liquidity :
      (d : LiquidityAccounts) (x y min_a min_b min_lp : ℕ) (event : LiquidityAdded)
      → d.shared.pool ≡ k
      → Deposit.add_liquidity rt d x y min_a min_b min_lp s ≡ ok (s', event)
      → PoolStep rt k lp s s'
  remove_liquidity :
      (d : LiquidityAccounts) (lp_amount min_a_out min_b_out : ℕ) (event : LiquidityRemoved)
      → d.shared.pool ≡ k
      → Liquidity.remove_liquidity rt d lp_amount min_a_out min_b_out s ≡ ok (s', event)
      → PoolStep rt k lp s s'
  elsewhere :
      s'.pools k ≡ s.pools k
      → supply_at s'.ledger lp ≤ supply_at s.ledger lp
      → 0 < supply_at s'.ledger lp
      → PoolStep rt k lp s s'

pub data PoolSteps (rt : Runtime) (k lp : Pubkey) (s : Chain) : Chain → Type 0 where
  here : PoolSteps rt k lp s s
  next : {t u : Chain} → PoolSteps rt k lp s t → PoolStep rt k lp t u → PoolSteps rt k lp s u

-- A chain where the abstract state has moved on.
abbrev pub Refines : (k lp : Pubkey) → Shares → Chain → Type 0
Refines k lp a s' = (b : Shares) × Shows k lp s' b × (0 < b.supply) × Trade a b

abbrev pub shown : Pool → ℕ → Shares
shown pool supply = record {
  reserve_a = pool.reserve_a;
  reserve_b = pool.reserve_b;
  supply = supply;
}

-- Shows of a pool that is known to be stored.
at_pool :
    (k lp : Pubkey) (s : Chain) (a : Shares) (pool : Pool)
    → Shows k lp s a
    → s.pools k ≡ some pool
    → (pool.lp_mint ≡ lp)
      × (pool.mint_a ≢ pool.mint_b)
      × (a.reserve_a ≡ pool.reserve_a)
      × (a.reserve_b ≡ pool.reserve_b)
at_pool k lp s a pool h stored =
    let same : h.pool ≡ pool = (let e = h.stored in cc) in
    (rw same at h.lp_mint, rw same at h.mints, rw same at h.reserve_a, rw same at h.reserve_b)

-- The pool with other reserves shows them.
pub now_shown :
    (k lp : Pubkey) (s' : Chain) (pool pool' : Pool)
    → pool.lp_mint ≡ lp
    → pool.mint_a ≢ pool.mint_b
    → s'.pools k ≡ some pool'
    → pool' ≡ record pool { reserve_a = pool'.reserve_a; reserve_b = pool'.reserve_b }
    → Shows k lp s' (shown pool' (supply_at s'.ledger lp))
now_shown k lp s' pool pool' lp_mint mints stored same = record {
  pool = pool';
  stored = stored;
  lp_mint = ap (λ (p : Pool). p.lp_mint) same ∙ lp_mint;
  mints =
      λ e. mints (sym (ap (λ (p : Pool). p.mint_a) same) ∙ e ∙ ap (λ (p : Pool). p.mint_b) same);
  reserve_a = refl;
  reserve_b = refl;
  supply = refl;
}

module _ (rt : Runtime) (laws : TransferLaws rt) (k lp : Pubkey) (s : Chain) where
  swap-Refines :
      (c : PoolAccounts) (direction : SwapDirection) (amount_in min_amount_out : ℕ) (a : Shares)
      {s' : Chain} {event : SwapExecuted}
      → c.pool ≡ k
      → Swap.swap rt c direction amount_in min_amount_out s ≡ ok (s', event)
      → Shows k lp s a
      → 0 < a.supply
      → Refines k lp a s'
  swap-Refines c direction amount_in min_amount_out a {s'} at_k e h pos =
      let stored : s.pools c.pool ≡ some h.pool = rw at_k h.stored in
      let (q, done) =
        swap-IsSwapped rt laws c direction amount_in min_amount_out h.pool s stored h.mints e in
      let supply : supply_at s'.ledger lp ≡ supply_at s.ledger lp =
        (let same = done.moved.mints lp in rw (supply_at, same) refl) in
      (
        shown (pool_after direction h.pool q) (supply_at s'.ledger lp),
        now_shown k lp s' h.pool _ h.lp_mint h.mints (rw at_k at done.after) refl,
        omega (arith, h.supply),
        Trade.swap (supply ∙ sym h.supply) (rw (h.reserve_a, h.reserve_b) done.product),
      )

  remove_liquidity-Refines :
      (d : LiquidityAccounts) (lp_amount min_a_out min_b_out : ℕ) (a : Shares) {s' : Chain}
      {event : LiquidityRemoved}
      → d.shared.pool ≡ k
      → Liquidity.remove_liquidity rt d lp_amount min_a_out min_b_out s ≡ ok (s', event)
      → Shows k lp s a
      → 0 < a.supply
      → Refines k lp a s'
  remove_liquidity-Refines d lp_amount min_a_out min_b_out a {s'} at_k e h pos =
      let (pool, locked, q, stored, done) =
        remove_liquidity-IsWithdrawn rt d lp_amount min_a_out min_b_out s e in
      let before : s.pools k ≡ some pool = subst (λ j. s.pools j ≡ some pool) at_k stored in
      let (lp_mint, mints, ra, rb) = at_pool k lp s a pool h before in
      let lp_same : d.shared.lp_mint ≡ lp = sym done.lp_mint ∙ lp_mint in
      let r = quote_remove_liquidity-IsRemove _ _ _ _ done.quote in
      let supply : supply_at s'.ledger lp + lp_amount ≡ supply_at s.ledger lp =
        rw lp_same at done.supply in
      let value : KeepsValue pool.reserve_a pool.reserve_b (supply_at s.ledger lp) q.new_reserve_a
          q.new_reserve_b (supply_at s'.ledger lp) =
        rw lp_same at done.value in
      let after = ap (λ t. t.pools d.shared.pool) done.after ∙ written s.pools d.shared.pool _ in
      (
        shown (pool_left pool q) (supply_at s'.ledger lp),
        now_shown k lp s' pool _ lp_mint mints (rw at_k at after) refl,
        (let seeded : 0 < supply_at s'.ledger d.shared.lp_mint =
              omega (arith, done.locked_min, done.locked_covered) in
            rw lp_same at seeded),
        Trade.withdraw (omega (arith, r.lp_pos, h.supply)) (rw (ra, rb, h.supply) value),
      )

  add_liquidity-Refines :
      (d : LiquidityAccounts) (x y min_a min_b min_lp : ℕ) (a : Shares) {s' : Chain}
      {event : LiquidityAdded}
      → d.shared.pool ≡ k
      → Deposit.add_liquidity rt d x y min_a min_b min_lp s ≡ ok (s', event)
      → Shows k lp s a
      → 0 < a.supply
      → Refines k lp a s'
  add_liquidity-Refines d x y min_a min_b min_lp a {s'} at_k e h pos =
      let (pool, q, stored, done) = add_liquidity-IsDeposited rt d x y min_a min_b min_lp s e in
      let before : s.pools k ≡ some pool = subst (λ j. s.pools j ≡ some pool) at_k stored in
      let (lp_mint, mints, ra, rb) = at_pool k lp s a pool h before in
      let lp_same : d.shared.lp_mint ≡ lp = sym done.lp_mint ∙ lp_mint in
      let supply : supply_at s'.ledger lp ≡ supply_at s.ledger lp + (q.lp_to_user + q.lp_to_lock) =
        rw lp_same at done.supply in
      let planned : IsPlanned pool (supply_at s.ledger lp) (amount_at s.ledger d.locked_lp) x y q =
        rw lp_same at done.planned in
      let shared : 0 < supply_at s.ledger lp = omega (arith, pos, h.supply) in
      let more = planned-minted_pos pool _ _ x y q shared planned in
      let value = planned-KeepsValue pool _ _ _ x y q shared supply planned in
      let after = ap (λ t. t.pools d.shared.pool) done.after ∙ written s.pools d.shared.pool _ in
      (
        shown (pool_grown pool q) (supply_at s'.ledger lp),
        now_shown k lp s' pool _ lp_mint mints (rw at_k at after) refl,
        omega (arith, shared, supply),
        Trade.deposit (omega (arith, more, supply, h.supply)) (rw (ra, rb, h.supply) value),
      )

  -- On a stored pool of two different mints that has some of its tokens out, with Token-2022
  -- transfers that keep their documented effect, each step of such a sequence refines one
  -- abstract trade on the reserves and the supply: a swap that keeps the supply and does not
  -- lower the product, a deposit or a withdrawal that lowers the value of no token, or the giving
  -- up of tokens. Afterwards a pool of two different mints with the same LP mint is stored there,
  -- and some tokens remain.
  pub PoolStep-Refines :
      (a : Shares) (s' : Chain)
      → PoolStep rt k lp s s'
      → Shows k lp s a
      → 0 < a.supply
      → Refines k lp a s'
  PoolStep-Refines a s' (PoolStep.swap c direction amount_in min_amount_out event at_k e) h pos =
      swap-Refines c direction amount_in min_amount_out a at_k e h pos
  PoolStep-Refines a s' (PoolStep.add_liquidity d x y min_a min_b min_lp event at_k e) h pos =
      add_liquidity-Refines d x y min_a min_b min_lp a at_k e h pos
  PoolStep-Refines a s' (PoolStep.remove_liquidity d lp_amount min_a_out min_b_out event at_k e) h
        pos =
      remove_liquidity-Refines d lp_amount min_a_out min_b_out a at_k e h pos
  PoolStep-Refines a s' (PoolStep.elsewhere same fewer some_left) h pos = (
    shown h.pool (supply_at s'.ledger lp),
    now_shown k lp s' h.pool h.pool h.lp_mint h.mints (same ∙ h.stored) refl,
    some_left,
    Trade.give_up (sym h.reserve_a) (sym h.reserve_b) (omega (arith, fewer, h.supply)),
  )

module _ (rt : Runtime) (laws : TransferLaws rt) (k lp : Pubkey) where
  histories_refine :
      (s s' : Chain) (a : Shares)
      → PoolSteps rt k lp s s'
      → Shows k lp s a
      → 0 < a.supply
      → (b : Shares) × Shows k lp s' b × (0 < b.supply) × Trades a b
  histories_refine s s' a PoolSteps.here h pos = (a, h, pos, Trades.done)
  histories_refine s s' a (PoolSteps.next {t} earlier last) h pos =
      let (b, hb, b_pos, trades) = histories_refine s t a earlier h pos in
      let (c, hc, c_pos, trade) = PoolStep-Refines rt laws k lp t b s' last hb b_pos in
      (c, hc, c_pos, Trades.after trades b_pos trade)

  -- Over any sequence of swaps, deposits and withdrawals that succeed on a pool of two different
  -- mints, and of other steps that leave the pool as it is, mint none of its tokens and leave
  -- some of them, with Token-2022 transfers that keep their documented effect, no pool token
  -- loses value: the product of the stored reserves over the square of the live supply does not
  -- fall.
  pub PoolSteps-fair :
      (s s' : Chain) (pool : Pool)
      → PoolSteps rt k lp s s'
      → s.pools k ≡ some pool
      → pool.lp_mint ≡ lp
      → pool.mint_a ≢ pool.mint_b
      → 0 < supply_at s.ledger lp
      → (pool' : Pool) × (s'.pools k ≡ some pool')
        × KeepsValue pool.reserve_a pool.reserve_b
            (supply_at s.ledger lp)
            pool'.reserve_a
            pool'.reserve_b
            (supply_at s'.ledger lp)
  PoolSteps-fair s s' pool steps stored lp_mint mints pos =
      let (b, h, _, trades) =
        histories_refine s s' (shown pool (supply_at s.ledger lp)) steps
          (now_shown k lp s pool pool lp_mint mints stored refl) pos in
      (h.pool, h.stored, rw (sym h.reserve_a, sym h.reserve_b, sym h.supply) (Trades-IsFair trades))
