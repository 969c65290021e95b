-- ===== src/Math/Remove/Laws.antt =====
-- What a successful `quote_remove_liquidity` promises to the other holders and to the pool.
use native.Mathlib.Nat.{mul-pos}
use solana_stablecoin_amm.Base.{
  ℕ, zero, suc, ◌+◌, ◌*◌, ◌<◌, ◌≤◌, ◌≡◌, arith, ok, ◌∙◌, sym, ap, div_bounds, subst,
}
use solana_stablecoin_amm.Math.{
  max_supply_cap, minimum_liquidity, RemoveLiquidityQuote, quote_remove_liquidity,
}
use solana_stablecoin_amm.Math.Value.{KeepsValue, sides-KeepsValue}
use solana_stablecoin_amm.Math.Remove.{
  withdrawal, withdrawal-le, remove_spec, quote_remove_liquidity_lem,
}

-- A quote for burning `lp` of the supply `l` against the reserves `x` and `y`.
pub record IsRemove (lp x y l : ℕ) (q : RemoveLiquidityQuote) : Type 0 where
  pub out_a : q.amount_a ≡ withdrawal lp x l
  pub out_b : q.amount_b ≡ withdrawal lp y l
  pub a_pos : 0 < q.amount_a
  pub b_pos : 0 < q.amount_b
  pub reserve_a : q.new_reserve_a + q.amount_a ≡ x
  pub reserve_b : q.new_reserve_b + q.amount_b ≡ y
  pub supply : q.new_lp_supply + lp ≡ l
  pub seeded : minimum_liquidity ≤ q.new_lp_supply
  pub lp_pos : 0 < lp
  pub x_pos : 0 < x
  pub y_pos : 0 < y
  pub x_capped : x ≤ max_supply_cap
  pub y_capped : y ≤ max_supply_cap

remove_spec-IsRemove :
    (lp x y l : ℕ) {q : RemoveLiquidityQuote}
    → (0 < l → lp ≤ l → (withdrawal lp x l ≤ x) × (withdrawal lp y l ≤ y))
    → remove_spec lp x y l ≡ ok q
    → IsRemove lp x y l q
remove_spec-IsRemove lp x y l le h = ground arith

pub quote_remove_liquidity-IsRemove :
    (lp x y l : ℕ) {q : RemoveLiquidityQuote}
    → quote_remove_liquidity lp x y l ≡ ok q
    → IsRemove lp x y l q
quote_remove_liquidity-IsRemove lp x y l h =
    remove_spec-IsRemove lp x y l
      (λ pl le. (withdrawal-le lp x l pl le, withdrawal-le lp y l pl le))
      (sym (quote_remove_liquidity_lem lp x y l) ∙ h)

-- A withdrawal in multiplied form: at most the share, and short of it by less than one unit.
withdrawal_bounds :
    (lp x l : ℕ) → 0 < l → (withdrawal lp x l * l ≤ lp * x) × (lp * x < withdrawal lp x l * l + l)
withdrawal_bounds lp x l pl = div_bounds (lp * x) l pl

-- What stays in a reserve covers the tokens that stay.
side_keeps : (lp x l w x' l' : ℕ) → x' + w ≡ x → l' + lp ≡ l → w * l ≤ lp * x → x * l' ≤ x' * l
side_keeps lp x l w x' l' ex el h =
    subst (λ (t : ℕ). t * l' ≤ x' * l) ex
      (omega
        (arith, ap (λ (t : ℕ). x' * t) el, ap (λ (t : ℕ). w * t) el, ap (λ (t : ℕ). lp * t) ex, h))

-- A withdrawal that is quoted pays each side at most its proportional share and short of it by
-- less than one unit, keeps the minimum supply, and lowers the value of no remaining pool token.
pub quote_remove_liquidity-fair :
    (lp x y l : ℕ) {q : RemoveLiquidityQuote}
    → quote_remove_liquidity lp x y l ≡ ok q
    → ((q.amount_a * l ≤ lp * x) × (lp * x < q.amount_a * l + l))
      × ((q.amount_b * l ≤ lp * y) × (lp * y < q.amount_b * l + l))
      × (minimum_liquidity ≤ q.new_lp_supply)
      × KeepsValue x y l q.new_reserve_a q.new_reserve_b q.new_lp_supply
quote_remove_liquidity-fair lp x y l {q} e =
    let h = quote_remove_liquidity-IsRemove lp x y l e in
    let pl : 0 < l = omega arith in
    let side_a : (q.amount_a * l ≤ lp * x) × (lp * x < q.amount_a * l + l) =
      rw h.out_a (withdrawal_bounds lp x l pl) in
    let side_b : (q.amount_b * l ≤ lp * y) × (lp * y < q.amount_b * l + l) =
      rw h.out_b (withdrawal_bounds lp y l pl) in
    (
      side_a,
      side_b,
      h.seeded,
      sides-KeepsValue x y l q.new_reserve_a q.new_reserve_b q.new_lp_supply
          (side_keeps lp x l q.amount_a q.new_reserve_a q.new_lp_supply h.reserve_a h.supply
            side_a.0)
          (side_keeps lp y l q.amount_b q.new_reserve_b q.new_lp_supply h.reserve_b h.supply
            side_b.0),
    )

pos_of_le : (n x' l : ℕ) → 0 < n → n ≤ x' * l → 0 < x'
pos_of_le n zero l pn h = absurd (omega arith)
pos_of_le n (suc k) l pn h = omega arith

-- A withdrawal that is quoted leaves both reserves positive.
pub quote_remove_liquidity-reserves_pos :
    (lp x y l : ℕ) {q : RemoveLiquidityQuote}
    → quote_remove_liquidity lp x y l ≡ ok q
    → (0 < q.new_reserve_a) × (0 < q.new_reserve_b)
quote_remove_liquidity-reserves_pos lp x y l {q} e =
    let h = quote_remove_liquidity-IsRemove lp x y l e in
    let (side_a, side_b, seeded, value) = quote_remove_liquidity-fair lp x y l e in
    (
      pos_of_le (x * q.new_lp_supply) q.new_reserve_a l (mul-pos h.x_pos (omega arith)) (
          side_keeps lp x l q.amount_a q.new_reserve_a q.new_lp_supply h.reserve_a h.supply
            side_a.0),
      pos_of_le (y * q.new_lp_supply) q.new_reserve_b l (mul-pos h.y_pos (omega arith)) (
          side_keeps lp y l q.amount_b q.new_reserve_b q.new_lp_supply h.reserve_b h.supply
            side_b.0),
    )
