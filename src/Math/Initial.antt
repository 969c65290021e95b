-- ===== src/Math/Initial.antt =====
-- `quote_initial_liquidity`: the first deposit of a pool.
use native.Mathlib.Nat.{mul-le-mul}
use solana_stablecoin_amm.Base.{
  ℕ, ◌+◌, ◌*◌, ◌-◌, ◌<◌, ◌≤◌, ◌≡◌, refl, arith, ltb, if◌then◌else◌, Result, ok, err, Bool-cases,
  inl, inr, pos→not-zero, ltb→lt, not-ltb→le, checked_mul-some, checked_sub-some, ◌∙◌, sym,
}
use solana_stablecoin_amm.Math.{
  MathError, insufficient_initial_liquidity, max_supply_cap, minimum_liquidity,
  InitialLiquidityQuote, quote_initial_liquidity, widen,
}
use solana_stablecoin_amm.Math.Root.Correct.{IsFloorSqrt, integer_sqrt_lem}
use solana_stablecoin_amm.Math.Range.{widen-ok, narrow-ok, mul_small}

IsFloorSqrt-le : (v r c : ℕ) → IsFloorSqrt v r → v ≤ c * c → r ≤ c
IsFloorSqrt-le v r c h le = elim (Bool-cases (ltb c r)) [
  | inl lt ↦ absurd (omega (arith, mul-le-mul (ltb→lt _ _ lt) (ltb→lt _ _ lt)))
  | inr ge ↦ not-ltb→le _ _ ge
]

-- A quote for the first deposit of `a` and `b`.
pub record IsInitial (a b : ℕ) (q : InitialLiquidityQuote) : Type 0 where
  pub a_pos : 0 < a
  pub b_pos : 0 < b
  pub a_capped : a ≤ max_supply_cap
  pub b_capped : b ≤ max_supply_cap
  pub locked : q.lp_to_lock ≡ minimum_liquidity
  pub user_pos : 0 < q.lp_to_user
  pub total : IsFloorSqrt (a * b) (q.lp_to_user + q.lp_to_lock)
  pub capped : q.lp_to_user + q.lp_to_lock ≤ max_supply_cap

-- The result once the product is known to have the floor root `r`.
abbrev pub initial_of_root : ℕ → Result MathError InitialLiquidityQuote
initial_of_root r =
    if ltb minimum_liquidity r
    then ok (record { lp_to_user = r - minimum_liquidity; lp_to_lock = minimum_liquidity })
    else err insufficient_initial_liquidity

-- With positive amounts within the cap the pool tokens of the first deposit are the floor of the
-- root of the product; the deposit is refused exactly when that does not exceed the locked
-- minimum.
pub quote_initial_liquidity_lem :
    (a b : ℕ)
    → 0 < a
    → 0 < b
    → a ≤ max_supply_cap
    → b ≤ max_supply_cap
    → (r : ℕ) × IsFloorSqrt (a * b) r × (quote_initial_liquidity a b ≡ initial_of_root r)
unfolding quote_initial_liquidity
quote_initial_liquidity_lem a b pa pb ca cb =
    let (r, e, floor) = integer_sqrt_lem (a * b) (mul_small a b ca cb) in
    let small = IsFloorSqrt-le (a * b) r max_supply_cap floor (mul-le-mul ca cb) in
    (
      r,
      floor,
      rw (pos→not-zero a pa, pos→not-zero b pb, widen-ok a ca, widen-ok b cb)
          (rw (checked_mul-some 128 a b (mul_small a b ca cb), e)
            (elim (Bool-cases (ltb minimum_liquidity r)) [
              | inl more ↦ rw (
                more,
                checked_sub-some r 1_000 (ground arith),
                narrow-ok (r - 1_000) (omega arith),
              )
              | inr few ↦ rw few refl
            ])),
    )

initial_guards :
    (a b : ℕ) {q : InitialLiquidityQuote}
    → quote_initial_liquidity a b ≡ ok q
    → (0 < a) × (0 < b) × (a ≤ max_supply_cap) × (b ≤ max_supply_cap)
unfolding quote_initial_liquidity widen
initial_guards a b {q} h = ground arith

initial_of_root-fields :
    (r : ℕ) {q : InitialLiquidityQuote}
    → initial_of_root r ≡ ok q
    → (q.lp_to_lock ≡ minimum_liquidity) × (0 < q.lp_to_user) × (q.lp_to_user + q.lp_to_lock ≡ r)
initial_of_root-fields r {q} h = ground arith

-- Every quote for a first deposit locks exactly the minimum, and splits the floor root of the
-- product between that and a positive rest for the depositor.
pub quote_initial_liquidity-IsInitial :
    (a b : ℕ) {q : InitialLiquidityQuote} → quote_initial_liquidity a b ≡ ok q → IsInitial a b q
quote_initial_liquidity-IsInitial a b {q} h =
    let (pa, pb, ca, cb) = initial_guards a b h in
    let (r, floor, e) = quote_initial_liquidity_lem a b pa pb ca cb in
    let small = IsFloorSqrt-le (a * b) r max_supply_cap floor (mul-le-mul ca cb) in
    let (lock, pos, sum) = initial_of_root-fields r (sym e ∙ h) in
    record {
      a_pos = pa;
      b_pos = pb;
      a_capped = ca;
      b_capped = cb;
      locked = lock;
      user_pos = pos;
      total = rw sum floor;
      capped = rw sum small;
    }
