-- ===== src/History/Kept/Market.antt =====
-- Pools and configurations through the instructions of the AMM program.
use solana_stablecoin_amm.Base.{◌≡◌, refl, sym, subst, ok}
use solana_stablecoin_amm.Chain.{Runtime}
use solana_stablecoin_amm.State.{Chain, chain_after-ok}
use solana_stablecoin_amm.Amm.Setup.Effects.{initialize_pool-IsSetUp}
use solana_stablecoin_amm.Amm.Swap.Effects.{swap-after}
use solana_stablecoin_amm.Amm.Liquidity.Effects.{remove_liquidity-IsWithdrawn}
use solana_stablecoin_amm.Amm.Deposit.Effects.{add_liquidity-IsDeposited}
use solana_stablecoin_amm.Amm.Program.{
  Instruction, initialize_pool, add_liquidity, remove_liquidity, swap, process,
}
use solana_stablecoin_amm.History.Kept.{
  Kept-but, Kept-same, IsLaterPool, IsLaterConfig, IsLaterConfig-refl, Continues, pool-Continues,
  later_than,
}

pub amm_process-Continues :
    (rt : Runtime) (i : Instruction) (s : Chain) {s' : Chain}
    → process rt i s ≡ ok s'
    → Continues s s'
unfolding process
amm_process-Continues rt (initialize_pool c fee_bps) s {s'} e =
    let (_, _, _, i) = initialize_pool-IsSetUp rt c fee_bps s (chain_after-ok _ e).1 in
    let free = i.free in
    subst (Continues s) (sym i.after) (pool-Continues s s'.ledger c.pool _ (λ old stored. cc))
amm_process-Continues rt (add_liquidity d x y min_a min_b min_lp) s {s'} e =
    let (pool, _, stored, done) =
      add_liquidity-IsDeposited rt d x y min_a min_b min_lp s (chain_after-ok _ e).1 in
    subst (Continues s) (sym done.after) (
      pool-Continues s s'.ledger d.shared.pool _
        (later_than IsLaterPool s.pools d.shared.pool pool _ stored refl))
amm_process-Continues rt (remove_liquidity d lp_amount min_a_out min_b_out) s {s'} e =
    let (pool, _, _, stored, done) =
      remove_liquidity-IsWithdrawn rt d lp_amount min_a_out min_b_out s (chain_after-ok _ e).1 in
    subst (Continues s) (sym done.after) (
      pool-Continues s s'.ledger d.shared.pool _
        (later_than IsLaterPool s.pools d.shared.pool pool _ stored refl))
amm_process-Continues rt (swap c direction amount_in min_amount_out) s {s'} e =
    let (pool, _, stored, _, after, others, configs, _) =
      swap-after rt c direction amount_in min_amount_out s (chain_after-ok _ e).1 in
    record {
      pools =
          Kept-but IsLaterPool s.pools s'.pools c.pool _ (λ p. refl) after others
            (later_than IsLaterPool s.pools c.pool pool _ stored refl);
      configs = Kept-same IsLaterConfig s.configs s'.configs IsLaterConfig-refl configs;
    }
