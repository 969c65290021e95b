-- ===== src/History/Seeded/Named.antt =====
-- The pool that an AMM instruction names, once it has reserves and pool tokens.
use solana_stablecoin_amm.Base.{ℕ, zero, suc, ◌*◌, ◌≡◌, ◌≤◌, ◌<◌, ap, sym, ◌∙◌, arith, some, ok}
use solana_stablecoin_amm.Math.{SwapQuote, minimum_liquidity}
use solana_stablecoin_amm.Math.Swap.Laws.{quote_swap-product}
use solana_stablecoin_amm.Chain.{Pubkey, Runtime, supply_at}
use solana_stablecoin_amm.Chain.Laws.{written}
use solana_stablecoin_amm.Chain.Supply.{SupplyLaws}
use solana_stablecoin_amm.State.{Pool, SwapDirection, a_to_b, b_to_a, Chain, chain_after-ok}
use solana_stablecoin_amm.Amm.{PoolAccounts}
use solana_stablecoin_amm.Amm.Context.{ensure_seeded-ok}
use solana_stablecoin_amm.Amm.Setup.Effects.{initialize_pool-IsSetUp}
use solana_stablecoin_amm.Amm.Swap.{oriented, settled}
use solana_stablecoin_amm.Amm.Swap.Effects.{swap-after}
use solana_stablecoin_amm.Amm.Liquidity.{LiquidityAccounts}
use solana_stablecoin_amm.Amm.Liquidity.Effects.{
  remove_liquidity-stages, remove_settle-ok, liquidity_context-raw,
}
use solana_stablecoin_amm.Amm.Context.{check_pool-ok}
use solana_stablecoin_amm.Amm.Deposit.Effects.{add_liquidity-stages}
use solana_stablecoin_amm.Amm.Deposit.Checks.{add_settle-ok}
use solana_stablecoin_amm.Amm.Program as Market
use solana_stablecoin_amm.History.Calls.Market.{amm_process-KeepsOthers}
use solana_stablecoin_amm.History.Mints.{named_pool}
use native.Mathlib.Nat.{mul-pos}

-- The pool has reserves, and enough pool tokens are out.
pub record IsStocked (k lp : Pubkey) (s : Chain) : Type 0 where
  pub pool : Pool
  pub stored : s.pools k ≡ some pool
  pub of_lp : pool.lp_mint ≡ lp
  pub reserve_a_pos : 0 < pool.reserve_a
  pub reserve_b_pos : 0 < pool.reserve_b
  pub enough : minimum_liquidity ≤ supply_at s.ledger lp

factors_pos : (x y : ℕ) → 0 < x * y → (0 < x) × (0 < y)
factors_pos zero y h = absurd (omega (arith, h))
factors_pos (suc x) zero h = absurd (omega (arith, h))
factors_pos (suc x) (suc y) h = (omega arith, omega arith)

settled_pos :
    (direction : SwapDirection) (amount_in : ℕ) (pool : Pool) (q : SwapQuote)
    → (oriented direction pool).0 * (oriented direction pool).1
      ≤ q.new_reserve_in * q.new_reserve_out
    → 0 < pool.reserve_a
    → 0 < pool.reserve_b
    → (0 < (settled direction q).0) × (0 < (settled direction q).1)
settled_pos a_to_b amount_in pool q grown pa pb =
    factors_pos q.new_reserve_in q.new_reserve_out (omega (arith, grown, mul-pos pa pb))
settled_pos b_to_a amount_in pool q grown pa pb =
    let (pi, po) =
      factors_pos q.new_reserve_in q.new_reserve_out (omega (arith, grown, mul-pos pb pa)) in
    (po, pi)

swap-IsStocked :
    (rt : Runtime) (laws : SupplyLaws rt) (c : PoolAccounts) (direction : SwapDirection)
    (amount_in min_amount_out : ℕ) (lp : Pubkey) (s : Chain) {s' : Chain}
    → Market.process rt (Market.swap c direction amount_in min_amount_out) s ≡ ok s'
    → IsStocked c.pool lp s
    → IsStocked c.pool lp s'
unfolding Market.process
swap-IsStocked rt laws c direction amount_in min_amount_out lp s e h =
    let (pool, q, stored, quote, after, _, _, _) =
      swap-after rt c direction amount_in min_amount_out s (chain_after-ok _ e).1 in
    let same : h.pool ≡ pool = (let x = h.stored in cc) in
    let (pa, pb) =
      settled_pos direction amount_in pool q (quote_swap-product _ _ _ _ quote)
        (rw same at h.reserve_a_pos) (rw same at h.reserve_b_pos) in
    let supply =
      amm_process-KeepsOthers rt laws (Market.swap c direction amount_in min_amount_out) s e lp
        (λ p. cc) in
    record {
      pool = _;
      stored = after;
      of_lp = rw same at h.of_lp;
      reserve_a_pos = pa;
      reserve_b_pos = pb;
      enough = omega (arith, supply, h.enough);
    }

add_liquidity-IsStocked :
    (rt : Runtime) (d : LiquidityAccounts) (x y min_a min_b min_lp : ℕ) (lp : Pubkey) (s : Chain)
    {s' : Chain}
    → Market.process rt (Market.add_liquidity d x y min_a min_b min_lp) s ≡ ok s'
    → IsStocked d.shared.pool lp s
    → IsStocked d.shared.pool lp s'
unfolding Market.process
add_liquidity-IsStocked rt d x y min_a min_b min_lp lp s {s'} e h =
    let (a, q, totals, l, ea, _, _, settle) =
      add_liquidity-stages rt d x y min_a min_b min_lp s (chain_after-ok _ e).1 in
    let (stored, _, _, checked) = liquidity_context-raw rt d s ea in
    let (_, _, _, _, of_mint) = check_pool-ok rt d.shared a.shared.pool checked in
    let same : h.pool ≡ a.shared.pool = (let x = h.stored in cc) in
    let of_lp : a.shared.pool.lp_mint ≡ lp = rw same at h.of_lp in
    let ((after, supply), _, seeded) = add_settle-ok d a q totals l s settle in
    let (pa, pb, least, covered) = ensure_seeded-ok _ _ _ seeded in
    let at : d.shared.lp_mint ≡ lp = sym of_mint ∙ of_lp in
    let now : supply_at s'.ledger lp ≡ totals.lp_supply = rw after (rw at at supply) in
    record {
      pool = _;
      stored = ap (λ t. t.pools d.shared.pool) after ∙ written s.pools d.shared.pool _;
      of_lp = of_lp;
      reserve_a_pos = pa;
      reserve_b_pos = pb;
      enough = omega (arith, now, least, covered);
    }

remove_liquidity-IsStocked :
    (rt : Runtime) (d : LiquidityAccounts) (lp_amount min_a_out min_b_out : ℕ) (lp : Pubkey)
    (s : Chain) {s' : Chain}
    → Market.process rt (Market.remove_liquidity d lp_amount min_a_out min_b_out) s ≡ ok s'
    → IsStocked d.shared.pool lp s
    → IsStocked d.shared.pool lp s'
unfolding Market.process
remove_liquidity-IsStocked rt d lp_amount min_a_out min_b_out lp s {s'} e h =
    let (a, q, l, ea, _, _, settle) =
      remove_liquidity-stages rt d lp_amount min_a_out min_b_out s (chain_after-ok _ e).1 in
    let (stored, _, _, checked) = liquidity_context-raw rt d s ea in
    let (_, _, _, _, of_mint) = check_pool-ok rt d.shared a.shared.pool checked in
    let same : h.pool ≡ a.shared.pool = (let x = h.stored in cc) in
    let of_lp : a.shared.pool.lp_mint ≡ lp = rw same at h.of_lp in
    let ((after, supply), _, seeded) = remove_settle-ok d a lp_amount q l s settle in
    let (pa, pb, least, covered) = ensure_seeded-ok _ _ _ seeded in
    let at : d.shared.lp_mint ≡ lp = sym of_mint ∙ of_lp in
    let now : supply_at s'.ledger lp ≡ q.new_lp_supply = rw after (rw at at supply) in
    record {
      pool = _;
      stored = ap (λ t. t.pools d.shared.pool) after ∙ written s.pools d.shared.pool _;
      of_lp = of_lp;
      reserve_a_pos = pa;
      reserve_b_pos = pb;
      enough = omega (arith, now, least, covered);
    }

pub process-IsStocked :
    (rt : Runtime) (laws : SupplyLaws rt) (i : Market.Instruction) (lp : Pubkey) (s : Chain)
    {s' : Chain}
    → Market.process rt i s ≡ ok s'
    → IsStocked (named_pool i) lp s
    → IsStocked (named_pool i) lp s'
unfolding Market.process
process-IsStocked rt laws (Market.initialize_pool c fee_bps) lp s e h =
    let (_, _, _, i) = initialize_pool-IsSetUp rt c fee_bps s (chain_after-ok _ e).1 in
    let free = i.free in let stored = h.stored in absurd (cc)
process-IsStocked rt laws (Market.swap c direction amount_in min_amount_out) lp s e h =
    swap-IsStocked rt laws c direction amount_in min_amount_out lp s e h
process-IsStocked rt laws (Market.add_liquidity d x y min_a min_b min_lp) lp s e h =
    add_liquidity-IsStocked rt d x y min_a min_b min_lp lp s e h
process-IsStocked rt laws (Market.remove_liquidity d lp_amount min_a_out min_b_out) lp s e h =
    remove_liquidity-IsStocked rt d lp_amount min_a_out min_b_out lp s e h
