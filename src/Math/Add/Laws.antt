-- ===== src/Math/Add/Laws.antt =====
-- What a successful `quote_add_liquidity` promises to the depositor and to the other holders.
use solana_stablecoin_amm.Base.{ℕ, ◌+◌, ◌*◌, ◌<◌, ◌≤◌, ◌≡◌, arith, ok, ◌∙◌, sym}
use solana_stablecoin_amm.Math.{
  max_supply_cap, minimum_liquidity, AddLiquidityQuote, quote_add_liquidity,
}
use solana_stablecoin_amm.Math.Value.{KeepsValue, sides-KeepsValue}
use solana_stablecoin_amm.Math.Add.{
  IsDeposit, lp_share_bounds, add_of_pair, quote_add_liquidity_lem, add_guards,
}

-- A quote for at most `a` and `b` against the reserves `x`, `y` and the supply `l`.
pub record IsAdd (a b x y l : ℕ) (q : AddLiquidityQuote) : Type 0 where
  pub deposit : IsDeposit a b x y q.amount_a q.amount_b
  pub share_a : q.lp_minted * x ≤ q.amount_a * l
  pub share_b : q.lp_minted * y ≤ q.amount_b * l
  pub minted_pos : 0 < q.lp_minted
  pub reserve_a : q.new_reserve_a ≡ x + q.amount_a
  pub reserve_b : q.new_reserve_b ≡ y + q.amount_b
  pub supply : q.new_lp_supply ≡ l + q.lp_minted
  pub capped_a : q.new_reserve_a ≤ max_supply_cap
  pub capped_b : q.new_reserve_b ≤ max_supply_cap
  pub capped_lp : q.new_lp_supply ≤ max_supply_cap
  pub seeded : minimum_liquidity ≤ l
  pub x_pos : 0 < x
  pub y_pos : 0 < y

add_of_pair-IsAdd :
    (a b x y l p r : ℕ) {q : AddLiquidityQuote}
    → IsDeposit a b x y p r
    → 0 < x
    → 0 < y
    → minimum_liquidity ≤ l
    → add_of_pair p r x y l ≡ ok q
    → IsAdd a b x y l q
add_of_pair-IsAdd a b x y l p r {q} d px py seeded h = ground (arith, lp_share_bounds p r x y l)

-- Every quote of a deposit takes no more than was offered, in the ratio of the reserves rounded
-- up, and mints no more than either proportional share; the new totals are exact and within the
-- cap.
pub quote_add_liquidity-IsAdd :
    (a b x y l : ℕ) {q : AddLiquidityQuote}
    → quote_add_liquidity a b x y l ≡ ok q
    → IsAdd a b x y l q
quote_add_liquidity-IsAdd a b x y l h =
    let ((pa, pb, px, py, seeded), (ca, cb, cx), (cy, cl)) = add_guards a b x y l h in
    let (p, r, d, e) = quote_add_liquidity_lem a b x y px py ca cb cx cy l cl pa pb seeded in
    add_of_pair-IsAdd a b x y l p r d px py seeded (sym e ∙ h)

side_keeps : (x l p m : ℕ) → m * x ≤ p * l → x * (l + m) ≤ (x + p) * l
side_keeps x l p m h = omega arith

-- A deposit that is quoted lowers the value of no pool token.
pub quote_add_liquidity-KeepsValue :
    (a b x y l : ℕ) {q : AddLiquidityQuote}
    → quote_add_liquidity a b x y l ≡ ok q
    → KeepsValue x y l q.new_reserve_a q.new_reserve_b q.new_lp_supply
quote_add_liquidity-KeepsValue a b x y l {q} e =
    let h = quote_add_liquidity-IsAdd a b x y l e in
    rw (h.reserve_a, h.reserve_b, h.supply)
      (sides-KeepsValue x y l (x + q.amount_a) (y + q.amount_b) (l + q.lp_minted)
        (side_keeps x l q.amount_a q.lp_minted h.share_a)
        (side_keeps y l q.amount_b q.lp_minted h.share_b))
