-- ===== src/History/Market.antt =====
-- Soundness through the instructions of the AMM program, programs/amm/src/lib.rs.
use solana_stablecoin_amm.Base.{ℕ, ◌≤◌, ◌≡◌, refl, sym, subst, arith, some, ok, inl, inr}
use solana_stablecoin_amm.Math.{SwapQuote, max_supply_cap}
use solana_stablecoin_amm.Math.Swap.Laws.{IsSwap, quote_swap-IsSwap}
use solana_stablecoin_amm.Math.Initial.{quote_initial_liquidity-IsInitial}
use solana_stablecoin_amm.Math.Add.Laws.{quote_add_liquidity-IsAdd}
use solana_stablecoin_amm.Math.Remove.Laws.{quote_remove_liquidity-IsRemove}
use solana_stablecoin_amm.Chain.{Pubkey, Ledger, Runtime, update}
use solana_stablecoin_amm.State.{Pool, SwapDirection, a_to_b, b_to_a, Chain, chain_after-ok}
use solana_stablecoin_amm.Amm.{PoolAccounts}
use solana_stablecoin_amm.Amm.Setup
use solana_stablecoin_amm.Amm.Setup.{InitializePoolAccounts, PoolInitialized, new_pool}
use solana_stablecoin_amm.Amm.Setup.Effects.{initialize_pool-IsSetUp}
use solana_stablecoin_amm.Amm.Swap
use solana_stablecoin_amm.Amm.Swap.{SwapExecuted, oriented}
use solana_stablecoin_amm.Amm.Swap.Effects.{pool_after, swap-after}
use solana_stablecoin_amm.Amm.Liquidity
use solana_stablecoin_amm.Amm.Liquidity.{LiquidityAccounts, LiquidityRemoved}
use solana_stablecoin_amm.Amm.Liquidity.Effects.{remove_liquidity-IsWithdrawn}
use solana_stablecoin_amm.Amm.Deposit
use solana_stablecoin_amm.Amm.Deposit.{DepositAmounts, LiquidityAdded}
use solana_stablecoin_amm.Amm.Deposit.Checks.{IsPlanned, pool_grown}
use solana_stablecoin_amm.Amm.Deposit.Effects.{add_liquidity-IsDeposited}
use solana_stablecoin_amm.Amm.Program.{
  Instruction, initialize_pool, add_liquidity, remove_liquidity, swap, process,
}
use solana_stablecoin_amm.History.Everywhere.{Everywhere, Everywhere-but, Everywhere-update}
use solana_stablecoin_amm.History.Sound.{
  config-IsCoin, IsSoundPool, IsSoundConfig, IsSoundRole, IsSound,
}

-- One pool is written.
pool_written :
    (rt : Runtime) (s : Chain) (l : Ledger) (k : Pubkey) (pool : Pool)
    → IsSound rt s
    → IsSoundPool rt k pool
    → IsSound rt (record s { ledger = l; pools = update s.pools k (some pool) })
pool_written rt s l k pool h sound = record {
  pools = Everywhere-update (IsSoundPool rt) s.pools k pool sound h.pools;
  configs = h.configs;
  roles = h.roles;
}

-- Other reserves within the cap.
reserves-IsSoundPool :
    (rt : Runtime) (k : Pubkey) (pool : Pool) (x y : ℕ)
    → IsSoundPool rt k pool
    → x ≤ max_supply_cap
    → y ≤ max_supply_cap
    → IsSoundPool rt k (record pool { reserve_a = x; reserve_b = y })
reserves-IsSoundPool rt k pool x y h hx hy = record {
  address = h.address;
  vault_a = h.vault_a;
  vault_b = h.vault_b;
  lp_mint = h.lp_mint;
  locked_lp = h.locked_lp;
  coin_a = h.coin_a;
  coin_b = h.coin_b;
  ordered = h.ordered;
  fee_capped = h.fee_capped;
  decimals = h.decimals;
  capped_a = hx;
  capped_b = hy;
}

set_up-IsSound :
    (rt : Runtime) (c : InitializePoolAccounts) (fee_bps : ℕ) (s : Chain) {s' : Chain}
    {event : PoolInitialized}
    → Setup.initialize_pool rt c fee_bps s ≡ ok (s', event)
    → IsSound rt s
    → IsSound rt s'
set_up-IsSound rt c fee_bps s {s'} e h =
    let (mint_a, mint_b, bumps, i) = initialize_pool-IsSetUp rt c fee_bps s e in
    let at = i.located in
    let sound : IsSoundPool rt c.pool (new_pool c bumps fee_bps 6) = record {
      address = at.pool;
      vault_a = at.vault_a;
      vault_b = at.vault_b;
      lp_mint = at.lp_mint;
      locked_lp = at.locked_lp;
      coin_a = config-IsCoin rt s h c.config_a c.mint_a at.config_a;
      coin_b = config-IsCoin rt s h c.config_b c.mint_b at.config_b;
      ordered = i.ordered;
      fee_capped = i.fee_capped;
      decimals = refl;
      capped_a = omega arith;
      capped_b = omega arith;
    } in
    subst (IsSound rt) (sym i.after) (pool_written rt s s'.ledger c.pool _ h sound)

swapped-IsSoundPool :
    (rt : Runtime) (k : Pubkey) (direction : SwapDirection) (amount_in : ℕ) (pool : Pool)
    (q : SwapQuote)
    → IsSwap amount_in (oriented direction pool).0 (oriented direction pool).1 pool.fee_bps q
    → IsSoundPool rt k pool
    → IsSoundPool rt k (pool_after direction pool q)
swapped-IsSoundPool rt k a_to_b amount_in pool q i h =
    reserves-IsSoundPool rt k pool _ _ h i.capped_in (omega (arith, i.reserve_out, i.capped_out))
swapped-IsSoundPool rt k b_to_a amount_in pool q i h =
    reserves-IsSoundPool rt k pool _ _ h (omega (arith, i.reserve_out, i.capped_out)) i.capped_in

swapped-IsSound :
    (rt : Runtime) (c : PoolAccounts) (direction : SwapDirection) (amount_in min_amount_out : ℕ)
    (s : Chain) {s' : Chain} {event : SwapExecuted}
    → Swap.swap rt c direction amount_in min_amount_out s ≡ ok (s', event)
    → IsSound rt s
    → IsSound rt s'
swapped-IsSound rt c direction amount_in min_amount_out s {s'} e h =
    let (pool, q, stored, quote, after, others, configs, roles) =
      swap-after rt c direction amount_in min_amount_out s e in
    let sound =
      swapped-IsSoundPool rt c.pool direction amount_in pool q (quote_swap-IsSwap _ _ _ _ quote)
        (h.pools c.pool pool stored) in
    record {
      pools = Everywhere-but (IsSoundPool rt) s.pools s'.pools c.pool _ after others sound h.pools;
      configs = subst (Everywhere (IsSoundConfig rt)) (sym configs) h.configs;
      roles = subst (Everywhere IsSoundRole) (sym roles) h.roles;
    }

withdrawn-IsSound :
    (rt : Runtime) (d : LiquidityAccounts) (lp_amount min_a_out min_b_out : ℕ) (s : Chain)
    {s' : Chain} {event : LiquidityRemoved}
    → Liquidity.remove_liquidity rt d lp_amount min_a_out min_b_out s ≡ ok (s', event)
    → IsSound rt s
    → IsSound rt s'
withdrawn-IsSound rt d lp_amount min_a_out min_b_out s {s'} e h =
    let (pool, locked, q, stored, w) =
      remove_liquidity-IsWithdrawn rt d lp_amount min_a_out min_b_out s e in
    let r = quote_remove_liquidity-IsRemove _ _ _ _ w.quote in
    let old = h.pools d.shared.pool pool stored in
    subst (IsSound rt) (sym w.after) (
      pool_written rt s s'.ledger d.shared.pool _ h (
        reserves-IsSoundPool rt d.shared.pool pool _ _ old (omega (arith, r.reserve_a, r.x_capped))
          (omega (arith, r.reserve_b, r.y_capped))))

planned-IsSoundPool :
    (rt : Runtime) (k : Pubkey) (pool : Pool) (l locked x y : ℕ) (q : DepositAmounts)
    → IsPlanned pool l locked x y q
    → IsSoundPool rt k pool
    → IsSoundPool rt k (pool_grown pool q)
planned-IsSoundPool rt k pool l locked x y q (inl (_, ra, rb, _, ea, eb, quote)) h =
    let i = quote_initial_liquidity-IsInitial x y quote in
    reserves-IsSoundPool rt k pool _ _ h (omega (arith, ra, ea, i.a_capped))
      (omega (arith, rb, eb, i.b_capped))
planned-IsSoundPool rt k pool l locked x y q (inr (_, _, (quote, e, ea, eb, _))) h =
    let i = quote_add_liquidity-IsAdd x y pool.reserve_a pool.reserve_b l e in
    reserves-IsSoundPool rt k pool _ _ h (omega (arith, ea, i.reserve_a, i.capped_a))
      (omega (arith, eb, i.reserve_b, i.capped_b))

pub deposited-IsSound :
    (rt : Runtime) (d : LiquidityAccounts) (x y min_a min_b min_lp : ℕ) (s : Chain) {s' : Chain}
    {event : LiquidityAdded}
    → Deposit.add_liquidity rt d x y min_a min_b min_lp s ≡ ok (s', event)
    → IsSound rt s
    → IsSound rt s'
deposited-IsSound rt d x y min_a min_b min_lp s {s'} e h =
    let (pool, q, stored, done) = add_liquidity-IsDeposited rt d x y min_a min_b min_lp s e in
    subst (IsSound rt) (sym done.after) (
      pool_written rt s s'.ledger d.shared.pool _ h (
        planned-IsSoundPool rt d.shared.pool pool _ _ x y q done.planned
          (h.pools d.shared.pool pool stored)))

pub amm_process-IsSound :
    (rt : Runtime) (i : Instruction) (s : Chain) {s' : Chain}
    → process rt i s ≡ ok s'
    → IsSound rt s
    → IsSound rt s'
unfolding process
amm_process-IsSound rt (initialize_pool c fee_bps) s e =
    set_up-IsSound rt c fee_bps s (chain_after-ok _ e).1
amm_process-IsSound rt (add_liquidity d x y min_a min_b min_lp) s e =
    deposited-IsSound rt d x y min_a min_b min_lp s (chain_after-ok _ e).1
amm_process-IsSound rt (remove_liquidity d lp_amount min_a_out min_b_out) s e =
    withdrawn-IsSound rt d lp_amount min_a_out min_b_out s (chain_after-ok _ e).1
amm_process-IsSound rt (swap c direction amount_in min_amount_out) s e =
    swapped-IsSound rt c direction amount_in min_amount_out s (chain_after-ok _ e).1
