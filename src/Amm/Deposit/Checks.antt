-- ===== src/Amm/Deposit/Checks.antt =====
-- What holds once the checks of `add_liquidity` have passed.
use solana_stablecoin_amm.Base.{
  ℕ, ◌+◌, ◌<◌, ◌≤◌, ◌≡◌, ◌⊎◌, inl, inr, arith, some, ok, checked_add, Bool-cases, ◌==◌,
}
use solana_stablecoin_amm.Math.{quote_initial_liquidity, AddLiquidityQuote, quote_add_liquidity}
use solana_stablecoin_amm.Chain.{Ledger, amount_at, supply_at, update}
use solana_stablecoin_amm.State.{Pool, Chain}
use solana_stablecoin_amm.Amm.{ensure_solvent, ensure_seeded}
use solana_stablecoin_amm.Amm.Liquidity.{LiquidityAccounts, LiquidityContext}
use solana_stablecoin_amm.Amm.Deposit.{
  LiquidityAdded, DepositAmounts, first_quote, later_quote, deposit_quote, Expected,
  expected_totals, add_checks, add_settle,
}

-- Which quote the amounts come from, by the supply of pool tokens.
abbrev pub IsPlanned : Pool → (lp_supply locked x y : ℕ) → DepositAmounts → Type 0
IsPlanned pool lp_supply locked x y q =
    ((lp_supply ≡ 0)
      × (pool.reserve_a ≡ 0)
      × (pool.reserve_b ≡ 0)
      × (locked ≡ 0)
      × (q.amount_a ≡ x)
      × (q.amount_b ≡ y)
      × (quote_initial_liquidity x y
          ≡ ok (record { lp_to_user = q.lp_to_user; lp_to_lock = q.lp_to_lock })))
    ⊎ ((0 < lp_supply)
        × (q.lp_to_lock ≡ 0)
        × ((quote : AddLiquidityQuote) × (quote_add_liquidity x y pool.reserve_a pool.reserve_b
                lp_supply
              ≡ ok quote)
            × (q.amount_a ≡ quote.amount_a)
            × (q.amount_b ≡ quote.amount_b)
            × (q.lp_to_user ≡ quote.lp_minted)))

pub first_quote-ok :
    (a : LiquidityContext) (x y : ℕ) {q : DepositAmounts}
    → first_quote a x y ≡ ok q
    → ((a.shared.pool.reserve_a ≡ 0) × (a.shared.pool.reserve_b ≡ 0) × (a.locked_lp.amount ≡ 0))
      × ((q.amount_a ≡ x) × (q.amount_b ≡ y))
      × (quote_initial_liquidity x y
          ≡ ok (record { lp_to_user = q.lp_to_user; lp_to_lock = q.lp_to_lock }))
unfolding first_quote
first_quote-ok a x y {q} h = ground arith

later_quote-ok :
    (a : LiquidityContext) (x y : ℕ) {q : DepositAmounts}
    → later_quote a x y ≡ ok q
    → (q.lp_to_lock ≡ 0)
      × ((quote : AddLiquidityQuote) × (quote_add_liquidity x y a.shared.pool.reserve_a
              a.shared.pool.reserve_b a.shared.lp_mint.supply
            ≡ ok quote)
          × (q.amount_a ≡ quote.amount_a)
          × (q.amount_b ≡ quote.amount_b)
          × (q.lp_to_user ≡ quote.lp_minted))
unfolding later_quote
later_quote-ok a x y {q} h = ground arith

pub deposit_quote-ok :
    (a : LiquidityContext) (x y : ℕ) {q : DepositAmounts}
    → deposit_quote a x y ≡ ok q
    → IsPlanned a.shared.pool a.shared.lp_mint.supply a.locked_lp.amount x y q
unfolding deposit_quote
deposit_quote-ok a x y {q} h = elim (Bool-cases (a.shared.lp_mint.supply == 0)) [
  | inl none_yet ↦
      let ((ra, rb, locked), (ea, eb), quote) = first_quote-ok a x y (rw none_yet at h) in
      inl (ground arith, ra, rb, locked, ea, eb, quote)
  | inr some_already ↦
      let (lock, quote) = later_quote-ok a x y (rw some_already at h) in
      inr (ground arith, lock, quote)
]

pub expected_totals-ok :
    (a : LiquidityContext) (q : DepositAmounts) {totals : Expected}
    → expected_totals a q ≡ ok totals
    → (totals.reserve_a ≡ a.shared.pool.reserve_a + q.amount_a)
      × (totals.reserve_b ≡ a.shared.pool.reserve_b + q.amount_b)
      × (totals.lp_supply ≡ a.shared.lp_mint.supply + (q.lp_to_user + q.lp_to_lock))
unfolding expected_totals checked_add
expected_totals-ok a q h = ground arith

pub add_checks-raw :
    (d : LiquidityAccounts) (a : LiquidityContext) (x y min_a min_b min_lp : ℕ) {q : DepositAmounts}
    {totals : Expected}
    → add_checks d a x y min_a min_b min_lp ≡ ok (q, totals)
    → ((deposit_quote a x y ≡ ok q) × (expected_totals a q ≡ ok totals))
      × ((min_a ≤ q.amount_a) × (min_b ≤ q.amount_b) × (min_lp ≤ q.lp_to_user))
unfolding add_checks
add_checks-raw d a x y min_a min_b min_lp h = ground arith

-- The pool with new reserves.
abbrev pub pool_grown : Pool → DepositAmounts → Pool
pool_grown pool q = record pool {
  reserve_a = pool.reserve_a + q.amount_a;
  reserve_b = pool.reserve_b + q.amount_b;
}

abbrev pub pool_at : Pool → Expected → Pool
pool_at pool totals = record pool { reserve_a = totals.reserve_a; reserve_b = totals.reserve_b }

pub add_settle-ok :
    (d : LiquidityAccounts) (a : LiquidityContext) (q : DepositAmounts) (totals : Expected)
    (l : Ledger) (s : Chain) {s' : Chain} {event : LiquidityAdded}
    → add_settle d a q totals l s ≡ ok (s', event)
    → ((s' ≡ record s {
      ledger = l;
      pools = update s.pools d.shared.pool (some (pool_at a.shared.pool totals));
    })
        × (supply_at l d.shared.lp_mint ≡ totals.lp_supply))
      × (ensure_solvent
            (pool_at a.shared.pool totals)
            (amount_at l d.shared.vault_a)
            (amount_at l d.shared.vault_b)
          ≡ ok tt)
      × (ensure_seeded (pool_at a.shared.pool totals) totals.lp_supply (amount_at l d.locked_lp)
          ≡ ok tt)
unfolding add_settle
add_settle-ok d a q totals l s h = ground arith
