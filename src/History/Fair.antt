-- ===== src/History/Fair.antt =====
-- The tokens of a pool through histories of both programs.
pub mod Steps
use solana_stablecoin_amm.Base.{◌≡◌, ◌≢◌, ◌<◌, refl, sym, arith, some}
use solana_stablecoin_amm.Math.Value.{KeepsValue}
use solana_stablecoin_amm.Chain.{Pubkey, Runtime, supply_at}
use solana_stablecoin_amm.Chain.Addresses.{AddressLaws}
use solana_stablecoin_amm.Chain.Laws.{TransferLaws}
use solana_stablecoin_amm.Chain.Supply.{SupplyLaws}
use solana_stablecoin_amm.State.{Pool, Chain}
use solana_stablecoin_amm.Amm.Shares.{Shares, Trades, Trades-IsFair}
use solana_stablecoin_amm.Amm.Shares.Refinement.{Shows, shown, now_shown, PoolStep-Refines}
use solana_stablecoin_amm.History.{Reach, Outside, Outside-split, SomeLeft}
use solana_stablecoin_amm.History.Sound.{IsSound}
use solana_stablecoin_amm.History.Mints.{IsPoolMint}
use solana_stablecoin_amm.History.Reachable.{Reach-IsSound, IsFresh, IsFresh-IsSound}
use solana_stablecoin_amm.History.Fair.Steps.{Step-PoolStep}

module _ (rt : Runtime) (transfers : TransferLaws rt) (laws : SupplyLaws rt)
    (addresses : AddressLaws rt) (k lp : Pubkey) where
  -- On a sound chain, and for a stored pool of two different mints that has some of its tokens
  -- out, every history of both programs is a sequence of abstract trades on the reserves and the
  -- live supply of the pool: swaps that keep the supply and do not lower the product, deposits
  -- and withdrawals that lower the value of no token, and the giving up of tokens. The calls keep
  -- their documented effects on balances and supplies, no address is found for both programs,
  -- none for two keys, and outside the two programs no token of the pool is issued and not all
  -- are burned.
  pub Reach-Refines :
      (s s' : Chain) (history : Reach rt s s') (a : Shares)
      → Outside (SomeLeft lp) history
      → IsSound rt s
      → Shows k lp s a
      → 0 < a.supply
      → (b : Shares) × Shows k lp s' b × (0 < b.supply) × Trades a b
  Reach-Refines s s' Reach.here a quiet sound h pos = (a, h, pos, Trades.done)
  Reach-Refines s s' (Reach.next {t} earlier last) a quiet sound h pos =
      let (before, now) = Outside-split (SomeLeft lp) earlier last quiet in
      let (b, hb, b_pos, trades) = Reach-Refines s t earlier a before sound h pos in
      let still = Reach-IsSound rt s t earlier sound in
      let of_pool : IsPoolMint rt k lp =
        (hb.pool.lp_mint_bump, rw hb.lp_mint at (still.pools k hb.pool hb.stored).lp_mint) in
      let step =
        Step-PoolStep rt laws addresses k lp t still hb.pool hb.stored of_pool
          (omega (arith, b_pos, hb.supply)) s' last now in
      let (c, hc, c_pos, trade) = PoolStep-Refines rt transfers k lp t b s' step hb b_pos in
      (c, hc, c_pos, Trades.after trades b_pos trade)

-- On a chain that a history reaches from one where no pool, configuration or role is stored, and
-- for a stored pool that has some of its tokens out: over every later history of both programs no
-- pool token loses value, that is, the product of the stored reserves over the square of the live
-- supply does not fall. The calls keep their documented effects on balances and supplies, no
-- address is found for both programs, none for two keys, and outside the two programs no token of
-- the pool is issued and not all are burned.
pub reachable_pool-fair :
    (rt : Runtime) (transfers : TransferLaws rt) (laws : SupplyLaws rt) (addresses : AddressLaws rt)
    (k : Pubkey) (fresh s s' : Chain) (pool : Pool)
    → IsFresh fresh
    → Reach rt fresh s
    → s.pools k ≡ some pool
    → 0 < supply_at s.ledger pool.lp_mint
    → (history : Reach rt s s') → Outside (SomeLeft pool.lp_mint) history
    → (pool' : Pool) × (s'.pools k ≡ some pool')
      × KeepsValue pool.reserve_a pool.reserve_b
          (supply_at s.ledger pool.lp_mint)
          pool'.reserve_a
          pool'.reserve_b
          (supply_at s'.ledger pool.lp_mint)
reachable_pool-fair rt transfers laws addresses k fresh s s' pool start before stored pos history
      quiet =
    let sound = Reach-IsSound rt fresh s before (IsFresh-IsSound rt fresh start) in
    let ordered = (sound.pools k pool stored).ordered in
    let mints : pool.mint_a ≢ pool.mint_b = omega (arith, ordered) in
    let (b, h, _, trades) =
      Reach-Refines rt transfers laws addresses k pool.lp_mint s s' history
        (shown pool (supply_at s.ledger pool.lp_mint)) quiet sound
        (now_shown k pool.lp_mint s pool pool refl mints stored refl) pos in
    (h.pool, h.stored, rw (sym h.reserve_a, sym h.reserve_b, sym h.supply) (Trades-IsFair trades))
