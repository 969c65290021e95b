-- ===== src/History/Seeded.antt =====
-- A pool with reserves through histories of both programs.
pub mod Named
use solana_stablecoin_amm.Base.{
  ◌≡◌, ◌≢◌, ◌≤◌, ◌<◌, ◌==◌, Bool-cases, ap, refl, sym, ◌∙◌, arith, inl, inr, some, ok, ℕ,
}
use solana_stablecoin_amm.Math.{minimum_liquidity}
use solana_stablecoin_amm.Chain.{Pubkey, Ledger, Runtime, supply_at}
use solana_stablecoin_amm.Chain.Addresses.{AddressLaws}
use solana_stablecoin_amm.Chain.Laws.{written}
use solana_stablecoin_amm.Chain.Supply.{SupplyLaws}
use solana_stablecoin_amm.State.{Pool, Chain}
use solana_stablecoin_amm.Stablecoin.Program as Issuer
use solana_stablecoin_amm.Amm.Liquidity.{LiquidityAccounts}
use solana_stablecoin_amm.Amm.Deposit.{LiquidityAdded, add_liquidity}
use solana_stablecoin_amm.Amm.Deposit.Checks.{pool_grown}
use solana_stablecoin_amm.Amm.Deposit.Effects.{add_liquidity-IsDeposited}
use solana_stablecoin_amm.Amm.Program as Market
use solana_stablecoin_amm.History.Market.{deposited-IsSound}
use solana_stablecoin_amm.History.{Step, Reach, Outside, Outside-split}
use solana_stablecoin_amm.History.Calls.Issuer.{issued_mint, process-KeepsOthers}
use solana_stablecoin_amm.History.Calls.Market.{shared_mint, amm_process-KeepsOthers}
use solana_stablecoin_amm.History.Mints.{
  IsPoolMint, named_pool, issued_mint-IsCoin, shared_mint-IsPoolMint, coin_is_no_pool_mint,
  pool_mints_differ,
}
use solana_stablecoin_amm.History.Pools.{process-pools, amm_process-other_pools}
use solana_stablecoin_amm.History.Reachable.{IsFresh, IsFresh-IsSound, Reach-IsSound}
use solana_stablecoin_amm.History.Seeded.Named.{IsStocked, process-IsStocked}
use solana_stablecoin_amm.History.Sound.{IsSound}

-- Nobody can burn the locked pool tokens.
abbrev pub LeavesMinimum : Pubkey → Ledger → Ledger → Type 0
LeavesMinimum lp l l' = minimum_liquidity ≤ supply_at l' lp

-- The pool is as it was, and so is the supply, or enough of it is left.
unchanged-IsStocked :
    (k lp : Pubkey) (s s' : Chain)
    → IsStocked k lp s
    → s'.pools k ≡ s.pools k
    → minimum_liquidity ≤ supply_at s'.ledger lp
    → IsStocked k lp s'
unchanged-IsStocked k lp s s' h same enough = record {
  pool = h.pool;
  stored = same ∙ h.stored;
  of_lp = h.of_lp;
  reserve_a_pos = h.reserve_a_pos;
  reserve_b_pos = h.reserve_b_pos;
  enough = enough;
}

module _ (rt : Runtime) (laws : SupplyLaws rt) (addresses : AddressLaws rt) (k lp : Pubkey) where
  stocked-IsPoolMint : (s : Chain) → IsSound rt s → IsStocked k lp s → IsPoolMint rt k lp
  stocked-IsPoolMint s sound h =
      (h.pool.lp_mint_bump, rw h.of_lp at (sound.pools k h.pool h.stored).lp_mint)

  Step-IsStocked :
      (s s' : Chain) (step : Step rt s s')
      → Outside (LeavesMinimum lp) (Reach.next Reach.here step)
      → IsSound rt s
      → IsStocked k lp s
      → IsStocked k lp s'
  Step-IsStocked s s' (Step.stablecoin i e) quiet sound h =
      let of_pool = stocked-IsPoolMint s sound h in
      let other : issued_mint i ≢ some lp = λ p.
        coin_is_no_pool_mint rt addresses k lp lp (issued_mint-IsCoin rt s sound i lp e p) of_pool
          refl in
      let supply = process-KeepsOthers rt laws i s e lp other in
      unchanged-IsStocked k lp s s' h (ap (λ f. f k) (process-pools rt i s e))
        (omega (arith, supply, h.enough))
  Step-IsStocked s s' (Step.amm i e) quiet sound h = elim (Bool-cases (named_pool i == k)) [
    | inl here ↦
        let at : named_pool i ≡ k = ground arith in
        rw at at (process-IsStocked rt laws i lp s e (rw at h))
    | inr there ↦
        let ne : named_pool i ≢ k = ground arith in
        let of_pool = stocked-IsPoolMint s sound h in
        let other : shared_mint i ≢ some lp = λ p.
          pool_mints_differ rt addresses (named_pool i) k lp lp
            (shared_mint-IsPoolMint rt s sound i lp e p) of_pool ne refl in
        let supply = amm_process-KeepsOthers rt laws i s e lp other in
        unchanged-IsStocked k lp s s' h (amm_process-other_pools rt i s k e (λ p. ne (sym p)))
          (omega (arith, supply, h.enough))
  ]
  Step-IsStocked s s' (Step.outside l e) quiet sound h =
      unchanged-IsStocked k lp s s' h (ap (λ t. t.pools k) e) (rw e quiet.1)

  Reach-IsStocked :
      (s s' : Chain) (history : Reach rt s s')
      → Outside (LeavesMinimum lp) history
      → IsSound rt s
      → IsStocked k lp s
      → IsStocked k lp s'
  Reach-IsStocked s s' Reach.here quiet sound h = h
  Reach-IsStocked s s' (Reach.next {t} earlier last) quiet sound h =
      let (before, now) = Outside-split (LeavesMinimum lp) earlier last quiet in
      Step-IsStocked t s' last now (Reach-IsSound rt s t earlier sound)
        (Reach-IsStocked s t earlier before sound h)

deposited-IsStocked :
    (rt : Runtime) (d : LiquidityAccounts) (x y min_a min_b min_lp : ℕ) (s : Chain) {s' : Chain}
    {event : LiquidityAdded}
    → add_liquidity rt d x y min_a min_b min_lp s ≡ ok (s', event)
    → IsStocked d.shared.pool d.shared.lp_mint s'
deposited-IsStocked rt d x y min_a min_b min_lp s e =
    let (pool, q, _, done) = add_liquidity-IsDeposited rt d x y min_a min_b min_lp s e in
    record {
      pool = pool_grown pool q;
      stored = ap (λ t. t.pools d.shared.pool) done.after ∙ written s.pools d.shared.pool _;
      of_lp = done.lp_mint;
      reserve_a_pos = done.reserve_a_pos;
      reserve_b_pos = done.reserve_b_pos;
      enough = omega (arith, done.locked_min, done.locked_covered);
    }

-- Once an `add_liquidity` has succeeded on a chain that a history reaches from one where no pool,
-- configuration or role is stored, the pool has positive reserves and at least the minimum of its
-- tokens out after every later history of both programs: no sequence of swaps, deposits and
-- withdrawals empties it. Each call changes no supply but that of the mint it names, no address
-- is found for both programs, none for two keys, and what happens outside the two programs leaves
-- at least that minimum.
pub deposited_pool-IsStocked :
    (rt : Runtime) (laws : SupplyLaws rt) (addresses : AddressLaws rt) (d : LiquidityAccounts)
    (x y min_a min_b min_lp : ℕ) (fresh s s' s'' : Chain) {event : LiquidityAdded}
    → IsFresh fresh
    → Reach rt fresh s
    → add_liquidity rt d x y min_a min_b min_lp s ≡ ok (s', event)
    → (history : Reach rt s' s'') → Outside (LeavesMinimum d.shared.lp_mint) history
    → IsStocked d.shared.pool d.shared.lp_mint s''
deposited_pool-IsStocked rt laws addresses d x y min_a min_b min_lp fresh s s' s'' start before e
      history quiet =
    let sound = Reach-IsSound rt fresh s before (IsFresh-IsSound rt fresh start) in
    Reach-IsStocked rt laws addresses d.shared.pool d.shared.lp_mint s' s'' history quiet
      (deposited-IsSound rt d x y min_a min_b min_lp s e sound)
      (deposited-IsStocked rt d x y min_a min_b min_lp s e)
