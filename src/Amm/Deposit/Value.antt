-- ===== src/Amm/Deposit/Value.antt =====
-- The value of a pool token through `add_liquidity`.
use solana_stablecoin_amm.Base.{ℕ, ◌+◌, ◌<◌, ◌≡◌, inl, inr, arith, some, ok, ap, ◌∙◌}
use solana_stablecoin_amm.Math.Value.{KeepsValue}
use solana_stablecoin_amm.Math.Add.Laws.{quote_add_liquidity-IsAdd, quote_add_liquidity-KeepsValue}
use solana_stablecoin_amm.Chain.{Runtime, supply_at}
use solana_stablecoin_amm.Chain.Laws.{written}
use solana_stablecoin_amm.State.{Pool, Chain}
use solana_stablecoin_amm.Amm.Liquidity.{LiquidityAccounts}
use solana_stablecoin_amm.Amm.Deposit.{LiquidityAdded, DepositAmounts, add_liquidity}
use solana_stablecoin_amm.Amm.Deposit.Checks.{IsPlanned, pool_grown}
use solana_stablecoin_amm.Amm.Deposit.Effects.{add_liquidity-IsDeposited}

pub planned-KeepsValue :
    (pool : Pool) (l l' locked x y : ℕ) (q : DepositAmounts)
    → 0 < l
    → l' ≡ l + (q.lp_to_user + q.lp_to_lock)
    → IsPlanned pool l locked x y q
    → KeepsValue pool.reserve_a pool.reserve_b l
        (pool.reserve_a + q.amount_a)
        (pool.reserve_b + q.amount_b)
        l'
planned-KeepsValue pool l l' locked x y q pl grown (inl (empty, _, _, _, _, _, _)) =
    absurd (omega arith)
planned-KeepsValue pool l l' locked x y q pl grown (inr (_, unlocked, (quote, e, ea, eb, elp))) =
    let h = quote_add_liquidity-IsAdd x y pool.reserve_a pool.reserve_b l e in
    let supply : l' ≡ quote.new_lp_supply = let eh = h.supply in omega arith in
    rw (ea, eb, supply)
      (rw (h.reserve_a, h.reserve_b) at
        (quote_add_liquidity-KeepsValue x y pool.reserve_a pool.reserve_b l e))

-- A deposit into a pool with pool tokens mints some.
pub planned-minted_pos :
    (pool : Pool) (l locked x y : ℕ) (q : DepositAmounts)
    → 0 < l
    → IsPlanned pool l locked x y q
    → 0 < q.lp_to_user
planned-minted_pos pool l locked x y q pl (inl (empty, _, _, _, _, _, _)) = absurd (omega arith)
planned-minted_pos pool l locked x y q pl (inr (_, _, (quote, e, _, _, elp))) =
    let h = quote_add_liquidity-IsAdd x y pool.reserve_a pool.reserve_b l e in
    omega (arith, elp, h.minted_pos)

-- An `add_liquidity` that succeeds on a pool with pool tokens lowers the value of no pool token:
-- the product of the stored reserves over the square of the live supply does not fall.
add_liquidity-KeepsValue :
    (rt : Runtime) (d : LiquidityAccounts) (x y min_a min_b min_lp : ℕ) (s : Chain) {s' : Chain}
    {event : LiquidityAdded}
    → 0 < supply_at s.ledger d.shared.lp_mint
    → add_liquidity rt d x y min_a min_b min_lp s ≡ ok (s', event)
    → (pool : Pool) × (pool' : Pool) × (s.pools d.shared.pool ≡ some pool)
      × (s'.pools d.shared.pool ≡ some pool')
      × KeepsValue pool.reserve_a pool.reserve_b
          (supply_at s.ledger d.shared.lp_mint)
          pool'.reserve_a
          pool'.reserve_b
          (supply_at s'.ledger d.shared.lp_mint)
add_liquidity-KeepsValue rt d x y min_a min_b min_lp s {s'} shared h =
    let (pool, q, stored, done) = add_liquidity-IsDeposited rt d x y min_a min_b min_lp s h in
    let after = ap (λ t. t.pools d.shared.pool) done.after in
    (
      pool,
      pool_grown pool q,
      stored,
      after ∙ written s.pools d.shared.pool (pool_grown pool q),
      planned-KeepsValue pool _ _ _ x y q shared done.supply done.planned,
    )
