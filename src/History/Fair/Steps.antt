-- ===== src/History/Fair/Steps.antt =====
-- One step of a history, as a pool sees it.
use solana_stablecoin_amm.Base.{
  ◌≡◌, ◌≢◌, ◌<◌, ◌==◌, Bool-cases, ap, refl, sym, arith, inl, inr, some, ok,
}
use solana_stablecoin_amm.Chain.{Pubkey, Runtime, supply_at}
use solana_stablecoin_amm.Chain.Addresses.{AddressLaws}
use solana_stablecoin_amm.Chain.Supply.{SupplyLaws}
use solana_stablecoin_amm.State.{Pool, Chain, chain_after-ok}
use solana_stablecoin_amm.Stablecoin.Program as Issuer
use solana_stablecoin_amm.Amm.Setup.Effects.{initialize_pool-IsSetUp}
use solana_stablecoin_amm.Amm.Shares.Refinement.{PoolStep}
use solana_stablecoin_amm.Amm.Program as Market
use solana_stablecoin_amm.History.{Step, Reach, Outside, SomeLeft}
use solana_stablecoin_amm.History.Sound.{IsSound}
use solana_stablecoin_amm.History.Mints.{
  IsPoolMint, named_pool, issued_mint-IsCoin, shared_mint-IsPoolMint, coin_is_no_pool_mint,
  pool_mints_differ,
}
use solana_stablecoin_amm.History.Calls.Issuer.{issued_mint, process-KeepsOthers}
use solana_stablecoin_amm.History.Calls.Market.{shared_mint, amm_process-KeepsOthers}
use solana_stablecoin_amm.History.Pools.{process-pools, amm_process-other_pools}

-- An instruction on the stored pool itself.
named-PoolStep :
    (rt : Runtime) (i : Market.Instruction) (s : Chain) (lp : Pubkey) (pool : Pool) {s' : Chain}
    → s.pools (named_pool i) ≡ some pool
    → Market.process rt i s ≡ ok s'
    → PoolStep rt (named_pool i) lp s s'
unfolding Market.process
named-PoolStep rt (Market.initialize_pool c fee_bps) s lp pool stored e =
    let (_, _, _, i) = initialize_pool-IsSetUp rt c fee_bps s (chain_after-ok _ e).1 in
    let free = i.free in absurd (cc)
named-PoolStep rt (Market.add_liquidity d x y min_a min_b min_lp) s lp pool stored e =
    let (event, run) = chain_after-ok _ e in
    PoolStep.add_liquidity d x y min_a min_b min_lp event refl run
named-PoolStep rt (Market.remove_liquidity d lp_amount min_a_out min_b_out) s lp pool stored e =
    let (event, run) = chain_after-ok _ e in
    PoolStep.remove_liquidity d lp_amount min_a_out min_b_out event refl run
named-PoolStep rt (Market.swap c direction amount_in min_amount_out) s lp pool stored e =
    let (event, run) = chain_after-ok _ e in
    PoolStep.swap c direction amount_in min_amount_out event refl run

module _ (rt : Runtime) (laws : SupplyLaws rt) (addresses : AddressLaws rt) (k lp : Pubkey)
    (s : Chain) (sound : IsSound rt s) (pool : Pool) (stored : s.pools k ≡ some pool)
    (of_pool : IsPoolMint rt k lp) (some_out : 0 < supply_at s.ledger lp) where
  process-PoolStep :
      (i : Issuer.Instruction) {s' : Chain} → Issuer.process rt i s ≡ ok s' → PoolStep rt k lp s s'
  process-PoolStep i e =
      let other : issued_mint i ≢ some lp = λ p.
        coin_is_no_pool_mint rt addresses k lp lp (issued_mint-IsCoin rt s sound i lp e p) of_pool
          refl in
      let same = process-KeepsOthers rt laws i s e lp other in
      PoolStep.elsewhere (ap (λ f. f k) (process-pools rt i s e)) (omega (arith, same))
        (omega (arith, same, some_out))

  amm_process-PoolStep :
      (i : Market.Instruction) {s' : Chain} → Market.process rt i s ≡ ok s' → PoolStep rt k lp s s'
  amm_process-PoolStep i {s'} e = elim (Bool-cases (named_pool i == k)) [
    | inl here ↦
        let at : named_pool i ≡ k = ground arith in
        rw at at (named-PoolStep rt i s lp pool (rw at stored) e)
    | inr there ↦
        let ne : named_pool i ≢ k = ground arith in
        let other : shared_mint i ≢ some lp = λ p.
          pool_mints_differ rt addresses (named_pool i) k lp lp
            (shared_mint-IsPoolMint rt s sound i lp e p) of_pool ne refl in
        let same = amm_process-KeepsOthers rt laws i s e lp other in
        PoolStep.elsewhere (amm_process-other_pools rt i s k e (λ p. ne (sym p)))
          (omega (arith, same)) (omega (arith, same, some_out))
  ]

  pub Step-PoolStep :
      (s' : Chain) (step : Step rt s s')
      → Outside (SomeLeft lp) (Reach.next Reach.here step)
      → PoolStep rt k lp s s'
  Step-PoolStep s' (Step.stablecoin i e) quiet = process-PoolStep i e
  Step-PoolStep s' (Step.amm i e) quiet = amm_process-PoolStep i e
  Step-PoolStep s' (Step.outside l e) quiet =
      let (_, (fewer, some_left)) = quiet in
      PoolStep.elsewhere (ap (λ t. t.pools k) e) (rw e fewer) (rw e some_left)
