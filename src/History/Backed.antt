-- ===== src/History/Backed.antt =====
-- The supply of a stablecoin through histories of both programs.
pub mod Issuer
use solana_stablecoin_amm.Base.{
  ◌≡◌, ◌≢◌, ◌≤◌, ap, refl, sym, ◌∙◌, arith, inl, inr, some, none, ok, subst,
}
use solana_stablecoin_amm.Chain.{Pubkey, Runtime, Ledger, supply_at}
use solana_stablecoin_amm.Chain.Addresses.{AddressLaws}
use solana_stablecoin_amm.Chain.Laws.{written}
use solana_stablecoin_amm.Chain.Supply.{SupplyLaws}
use solana_stablecoin_amm.State.{MintConfig, Chain, chain_after-ok}
use solana_stablecoin_amm.Stablecoin.Setup.{
  InitializeStablecoinAccounts, InitializeStablecoinArgs, StablecoinInitialized,
  initialize_stablecoin, new_config,
}
use solana_stablecoin_amm.Stablecoin.Setup.Effects.{initialize_stablecoin-IsIssued}
use solana_stablecoin_amm.Stablecoin.Backing.{IsBacked, CoinStep, CoinSteps, CoinSteps-IsBacked}
use solana_stablecoin_amm.Stablecoin.Program as IssuerProgram
use solana_stablecoin_amm.Amm.Setup.Effects.{initialize_pool-IsSetUp}
use solana_stablecoin_amm.Amm.Swap.Effects.{swap-after}
use solana_stablecoin_amm.Amm.Liquidity.Effects.{remove_liquidity-IsWithdrawn}
use solana_stablecoin_amm.Amm.Deposit.Effects.{add_liquidity-IsDeposited}
use solana_stablecoin_amm.Amm.Program as Market
use solana_stablecoin_amm.History.{Step, Reach, Outside, NoneIssued, Outside-split}
use solana_stablecoin_amm.History.Sound.{IsSound, config-IsCoin}
use solana_stablecoin_amm.History.Mints.{shared_mint-IsPoolMint, coin_is_no_pool_mint, named_pool}
use solana_stablecoin_amm.History.Calls.Issuer.{initialize_stablecoin-starts}
use solana_stablecoin_amm.History.Calls.Market.{shared_mint, amm_process-KeepsOthers}
use solana_stablecoin_amm.History.Issuer.{issued-IsSound}
use solana_stablecoin_amm.History.Reachable.{Reach-IsSound, IsFresh, IsFresh-IsSound}
use solana_stablecoin_amm.History.Backed.Issuer.{process-CoinStep}

amm_process-configs :
    (rt : Runtime) (i : Market.Instruction) (s : Chain) {s' : Chain}
    → Market.process rt i s ≡ ok s'
    → s'.configs ≡ s.configs
unfolding Market.process
amm_process-configs rt (Market.initialize_pool c fee_bps) s e =
    let (_, _, _, i) = initialize_pool-IsSetUp rt c fee_bps s (chain_after-ok _ e).1 in
    ap (λ t. t.configs) i.after
amm_process-configs rt (Market.add_liquidity d x y min_a min_b min_lp) s e =
    let (_, _, _, done) =
      add_liquidity-IsDeposited rt d x y min_a min_b min_lp s (chain_after-ok _ e).1 in
    ap (λ t. t.configs) done.after
amm_process-configs rt (Market.remove_liquidity d lp_amount min_a_out min_b_out) s e =
    let (_, _, _, _, done) =
      remove_liquidity-IsWithdrawn rt d lp_amount min_a_out min_b_out s (chain_after-ok _ e).1 in
    ap (λ t. t.configs) done.after
amm_process-configs rt (Market.swap c direction amount_in min_amount_out) s e =
    let (_, _, _, _, _, _, configs, _) =
      swap-after rt c direction amount_in min_amount_out s (chain_after-ok _ e).1 in
    configs

module _ (rt : Runtime) (laws : SupplyLaws rt) (addresses : AddressLaws rt) (k mint : Pubkey) where
  amm_process-CoinStep :
      (i : Market.Instruction) (s : Chain) (config : MintConfig) {s' : Chain}
      → IsSound rt s
      → s.configs k ≡ some config
      → config.mint ≡ mint
      → Market.process rt i s ≡ ok s'
      → CoinStep rt k mint s s'
  amm_process-CoinStep i s config {s'} sound stored of_mint e =
      let coin = config-IsCoin rt s sound k mint (config, stored, of_mint) in
      let other : shared_mint i ≢ some mint = λ p.
        coin_is_no_pool_mint rt addresses (named_pool i) mint mint coin
          (shared_mint-IsPoolMint rt s sound i mint e p) refl in
      CoinStep.elsewhere config config stored
        (ap (λ f. f k) (amm_process-configs rt i s e) ∙ stored)
        (record { mint = refl; supply_cap = refl; minted = refl; burned = refl })
        (omega (arith, amm_process-KeepsOthers rt laws i s e mint other))

  Step-CoinStep :
      (s s' : Chain) (step : Step rt s s')
      → IsSound rt s
      → IsBacked k mint s
      → Outside (NoneIssued mint) (Reach.next Reach.here step)
      → CoinStep rt k mint s s'
  Step-CoinStep s s' (Step.stablecoin i e) sound h quiet =
      process-CoinStep rt laws k mint s sound h.config h.stored h.of_mint i e
  Step-CoinStep s s' (Step.amm i e) sound h quiet =
      amm_process-CoinStep i s h.config sound h.stored h.of_mint e
  Step-CoinStep s s' (Step.outside l e) sound h quiet =
      CoinStep.elsewhere h.config h.config h.stored (ap (λ t. t.configs k) e ∙ h.stored)
        (record { mint = refl; supply_cap = refl; minted = refl; burned = refl }) (rw e quiet.1)

  -- With documented calls and addresses, and nobody else issuing the coin, a backed stablecoin
  -- stays backed over every history.
  pub Reach-IsBacked :
      (s s' : Chain) (history : Reach rt s s')
      → Outside (NoneIssued mint) history
      → IsSound rt s
      → IsBacked k mint s
      → IsBacked k mint s'
  Reach-IsBacked s s' Reach.here quiet sound h = h
  Reach-IsBacked s s' (Reach.next {t} earlier last) quiet sound h =
      let (before, now) = Outside-split (NoneIssued mint) earlier last quiet in
      let backed = Reach-IsBacked s t earlier before sound h in
      CoinSteps-IsBacked rt k mint t s'
        (CoinSteps.next CoinSteps.here
          (Step-CoinStep t s' last (Reach-IsSound rt s t earlier sound) backed now))
        backed

-- Once an `initialize_stablecoin` has succeeded on a chain that a history reaches from one where
-- no pool, configuration or role is stored, every later history of both programs keeps the
-- configuration stored and of its mint, and the live supply of that mint within the cap and
-- within what was minted less what was burned. Each call changes no supply but that of the mint
-- it names and a new mint starts without any, no address is found for both programs, none for two
-- keys, and nobody outside the two programs issues the coin.
pub issued-IsBacked :
    (rt : Runtime) (laws : SupplyLaws rt) (addresses : AddressLaws rt)
    (c : InitializeStablecoinAccounts) (args : InitializeStablecoinArgs) (fresh s s' s'' : Chain)
    {event : StablecoinInitialized}
    → IsFresh fresh
    → Reach rt fresh s
    → initialize_stablecoin rt c args s ≡ ok (s', event)
    → (history : Reach rt s' s'') → Outside (NoneIssued c.mint) history
    → IsBacked c.config c.mint s''
issued-IsBacked rt laws addresses c args fresh s s' s'' start before e history quiet =
    let sound = Reach-IsSound rt fresh s before (IsFresh-IsSound rt fresh start) in
    let (_, mint_bump, config_bump, i) = initialize_stablecoin-IsIssued rt c args s e in
    let none_yet = initialize_stablecoin-starts rt laws c args s e in
    let backed : IsBacked c.config c.mint s' = record {
      config = new_config c args mint_bump config_bump;
      stored = ap (λ t. t.configs c.config) i.after ∙ written s.configs c.config _;
      of_mint = refl;
      capped = omega (arith, none_yet);
      tracked = omega (arith, none_yet);
    } in
    Reach-IsBacked rt laws addresses c.config c.mint s' s'' history quiet
      (issued-IsSound rt c args s e sound) backed
