-- ===== src/History/Pools.antt =====
-- The pools that an instruction leaves as they are.
use solana_stablecoin_amm.Base.{◌≡◌, ◌≢◌, ap, ◌∙◌, arith, ok}
use solana_stablecoin_amm.Chain.{Pubkey, Runtime}
use solana_stablecoin_amm.State.{Chain, chain_after-ok}
use solana_stablecoin_amm.Stablecoin.Setup.Effects.{initialize_stablecoin-IsIssued}
use solana_stablecoin_amm.Stablecoin.Issuance.Minting.{mint_to-IsMinted}
use solana_stablecoin_amm.Stablecoin.Issuance.Burning.{burn-IsBurned}
use solana_stablecoin_amm.Stablecoin.Admin.Effects.{
  update_config-IsUpdated, accept_admin-IsHandover,
}
use solana_stablecoin_amm.Stablecoin.Admin.Minters.{grant_minter-stored, revoke_minter-after}
use solana_stablecoin_amm.Stablecoin.Compliance.Effects.{
  set_pause-IsSwitched, set_wallet_policy-IsEnforced,
}
use solana_stablecoin_amm.Stablecoin.Program as Issuer
use solana_stablecoin_amm.Amm.Setup.Effects.{initialize_pool-IsSetUp}
use solana_stablecoin_amm.Amm.Swap.Effects.{swap-after}
use solana_stablecoin_amm.Amm.Liquidity.Effects.{remove_liquidity-IsWithdrawn}
use solana_stablecoin_amm.Amm.Deposit.Effects.{add_liquidity-IsDeposited}
use solana_stablecoin_amm.Amm.Program as Market
use solana_stablecoin_amm.History.Mints.{named_pool}

pub process-pools :
    (rt : Runtime) (i : Issuer.Instruction) (s : Chain) {s' : Chain}
    → Issuer.process rt i s ≡ ok s'
    → s'.pools ≡ s.pools
unfolding Issuer.process
process-pools rt (Issuer.initialize_stablecoin c args) s e =
    let (_, _, _, i) = initialize_stablecoin-IsIssued rt c args s (chain_after-ok _ e).1 in
    ap (λ t. t.pools) i.after
process-pools rt (Issuer.mint_to c amount) s e =
    let (_, _, _, m) = mint_to-IsMinted rt c amount s (chain_after-ok _ e).1 in m.pools
process-pools rt (Issuer.burn c amount) s e =
    let (_, _, _, _, _, b) = burn-IsBurned rt c amount s (chain_after-ok _ e).1 in b.pools
process-pools rt (Issuer.update_config c cap authority nominee) s e =
    let (_, _, _, _, _, after) =
      update_config-IsUpdated rt c cap authority nominee s (chain_after-ok _ e).1 in
    ap (λ t. t.pools) after
process-pools rt (Issuer.grant_minter c allowance) s e =
    let (_, _, _, _, _, _, _, after) =
      grant_minter-stored rt c allowance s (chain_after-ok _ e).1 in
    ap (λ t. t.pools) after
process-pools rt (Issuer.revoke_minter c) s e =
    ap (λ t. t.pools) (revoke_minter-after rt c s (chain_after-ok _ e).1)
process-pools rt (Issuer.set_wallet_policy c status) s e =
    let (_, _, _, _, _, _, _, after) =
      set_wallet_policy-IsEnforced rt c status s (chain_after-ok _ e).1 in
    ap (λ t. t.pools) after
process-pools rt (Issuer.set_pause c paused) s e =
    let (_, _, _, _, _, _, _, after) = set_pause-IsSwitched rt c paused s (chain_after-ok _ e).1 in
    ap (λ t. t.pools) after
process-pools rt (Issuer.accept_admin signer a) s e =
    let (_, _, _, after, _) = accept_admin-IsHandover rt signer a s (chain_after-ok _ e).1 in
    ap (λ t. t.pools) after

pub amm_process-other_pools :
    (rt : Runtime) (i : Market.Instruction) (s : Chain) (k : Pubkey) {s' : Chain}
    → Market.process rt i s ≡ ok s'
    → k ≢ named_pool i
    → s'.pools k ≡ s.pools k
unfolding Market.process
amm_process-other_pools rt (Market.initialize_pool c fee_bps) s k e ne =
    let (_, _, _, i) = initialize_pool-IsSetUp rt c fee_bps s (chain_after-ok _ e).1 in
    ap (λ t. t.pools k) i.after ∙ ground arith
amm_process-other_pools rt (Market.add_liquidity d x y min_a min_b min_lp) s k e ne =
    let (_, _, _, done) =
      add_liquidity-IsDeposited rt d x y min_a min_b min_lp s (chain_after-ok _ e).1 in
    ap (λ t. t.pools k) done.after ∙ ground arith
amm_process-other_pools rt (Market.remove_liquidity d lp_amount min_a_out min_b_out) s k e ne =
    let (_, _, _, _, done) =
      remove_liquidity-IsWithdrawn rt d lp_amount min_a_out min_b_out s (chain_after-ok _ e).1 in
    ap (λ t. t.pools k) done.after ∙ ground arith
amm_process-other_pools rt (Market.swap c direction amount_in min_amount_out) s k e ne =
    let (_, _, _, _, _, others, _, _) =
      swap-after rt c direction amount_in min_amount_out s (chain_after-ok _ e).1 in
    others k ne
