-- ===== src/Math/Swap/Laws.antt =====
-- What a successful `quote_swap` promises to the pool and to the trader.
use native.Mathlib.Nat.{
  le_refl, le_trans, mul-le-mul, le_of_mul-le-mul_right, lt_of_mul-lt-mul_right,
}
use solana_stablecoin_amm.Base.{
  ℕ, ◌+◌, ◌*◌, ◌-◌, ◌/◌, ◌<◌, ◌≤◌, ◌≡◌, arith, ok, div_bounds, le-div_of_mul-le, ◌∙◌, sym, ap,
  subst,
}
use solana_stablecoin_amm.Math.{max_supply_cap, max_fee_bps, SwapQuote, quote_swap}
use solana_stablecoin_amm.Math.Swap.{
  swap_out, swap_out_lem, swap_spec, swap_out_le, swap_out-lt, swap_out-share, denominator-pos,
  quote_swap_lem,
}

-- A quote of `a` into the reserves `x` and `y`, at the fee `f`.
pub record IsSwap (a x y f : ℕ) (q : SwapQuote) : Type 0 where
  pub amount_in_pos : 0 < a
  pub reserve_in_pos : 0 < x
  pub fee_capped : f ≤ max_fee_bps
  pub output : q.amount_out ≡ swap_out a x y f
  pub output_pos : 0 < q.amount_out
  pub reserve_in : q.new_reserve_in ≡ x + a
  pub reserve_out : q.new_reserve_out + q.amount_out ≡ y
  pub reserve_out_pos : 0 < q.new_reserve_out
  pub capped_in : q.new_reserve_in ≤ max_supply_cap
  pub capped_out : y ≤ max_supply_cap

swap_spec-IsSwap :
    (a x y f : ℕ) (q : SwapQuote)
    → (0 < x → f ≤ max_fee_bps → 0 < y → swap_out a x y f < y)
    → swap_spec a x y f ≡ ok q
    → IsSwap a x y f q
swap_spec-IsSwap a x y f q lt h = ground arith

pub quote_swap-IsSwap : (a x y f : ℕ) {q : SwapQuote} → quote_swap a x y f ≡ ok q → IsSwap a x y f q
quote_swap-IsSwap a x y f {q} h =
    swap_spec-IsSwap a x y f q (λ px hf py. swap_out-lt a x y f px hf py)
      (sym (quote_swap_lem a x y f) ∙ h)

-- The share of the output reserve, in the quote's own fields.
IsSwap-share :
    (a x y f : ℕ) {q : SwapQuote} → IsSwap a x y f q → q.amount_out * q.new_reserve_in ≤ a * y
IsSwap-share a x y f h =
    rw (h.output, h.reserve_in) (swap_out-share a x y f h.reserve_in_pos h.fee_capped)

-- Whenever a swap is quoted, the product of the reserves after it is at least the product before.
pub quote_swap-product :
    (a x y f : ℕ) {q : SwapQuote}
    → quote_swap a x y f ≡ ok q
    → x * y ≤ q.new_reserve_in * q.new_reserve_out
quote_swap-product a x y f {q} e =
    let h = quote_swap-IsSwap a x y f e in
    let share : q.amount_out * (x + a) ≤ a * y = rw h.reserve_in at (IsSwap-share a x y f h) in
    let whole : (x + a) * (q.new_reserve_out + q.amount_out) ≡ (x + a) * y =
      ap (λ (r : ℕ). (x + a) * r) h.reserve_out in
    rw h.reserve_in (omega arith)

-- When a swap and the swap of its output straight back, at any two fees, are both quoted, the
-- second returns at most what was put in.
pub quote_swap_round_trip :
    (a x y f g : ℕ) {q back : SwapQuote}
    → quote_swap a x y f ≡ ok q
    → quote_swap q.amount_out q.new_reserve_out q.new_reserve_in g ≡ ok back
    → back.amount_out ≤ a
quote_swap_round_trip a x y f g {q} {back} there again =
    let h = quote_swap-IsSwap a x y f there in
    let k = quote_swap-IsSwap _ _ _ g again in
    let forth : q.amount_out * q.new_reserve_in ≤ a * y = IsSwap-share a x y f h in
    let home : back.amount_out * (q.new_reserve_out + q.amount_out)
        ≤ q.amount_out * q.new_reserve_in =
      rw k.reserve_in at (IsSwap-share _ _ _ g k) in
    le_of_mul-le-mul_right {k = y} (le_trans (rw h.reserve_out at home) forth) (omega arith)

mono_step :
    (o e a b m x : ℕ)
    → a ≤ b
    → o * (x * 10_000 + a * m) ≤ a * m * (o + e)
    → o * (x * 10_000 + b * m) ≤ b * m * (o + e)
mono_step o e a b m x le h = omega (arith, mul-le-mul (mul-le-mul le (le_refl m)) (le_refl e))

-- A larger input gives at least as much.
swap_out_mono :
    (a b x y f : ℕ) → 0 < x → f ≤ max_fee_bps → 0 < y → a ≤ b → swap_out a x y f ≤ swap_out b x y f
swap_out_mono a b x y f px hf py le = rw out-eq (
    le-div_of_mul-le (b * (10_000 - f) * y) _ o (denominator-pos b x y f px hf) (
      subst (λ (t : ℕ). o * (x * 10_000 + b * (10_000 - f)) ≤ b * (10_000 - f) * t) whole
        (mono_step o (y - o) a b (10_000 - f) x le (rw whole (swap_out_le a x y f px hf)))))
  where
    o : ℕ
    o = swap_out a x y f

    whole : o + (y - o) ≡ y
    whole = omega (arith, swap_out-lt a x y f px hf py)

    out-eq : swap_out b x y f ≡ b * (10_000 - f) * y / (x * 10_000 + b * (10_000 - f))
    out-eq = swap_out_lem b x y f

price_step :
    (a b m o_a o_b x y : ℕ)
    → 0 < b
    → a ≤ b
    → a * m * y < o_a * (x * 10_000 + a * m) + (x * 10_000 + a * m)
    → o_b * (x * 10_000 + b * m) ≤ b * m * y
    → o_b * a < (o_a + 1) * b
price_step a b m o_a o_b x y pb le ha hb = lt_of_mul-lt-mul_right (x * 10_000 + b * m) (
    omega (
      arith,
      mul-le-mul hb (le_refl a),
      mul-le-mul ha (le_refl b),
      mul-le-mul (le_refl ((o_a + 1) * b)) (mul-le-mul le (le_refl m)),
    ))

-- Of two quotes against the same pool the one with the larger input has at least the output of
-- the other, and its price is better by less than the rounding of one unit of the smaller output.
pub quote_swap_price :
    (a b x y f : ℕ) {small large : SwapQuote}
    → a ≤ b
    → quote_swap a x y f ≡ ok small
    → quote_swap b x y f ≡ ok large
    → (small.amount_out ≤ large.amount_out) × (large.amount_out * a < (small.amount_out + 1) * b)
quote_swap_price a b x y f {small} {large} le es el =
    let hs = quote_swap-IsSwap a x y f es in
    let hl = quote_swap-IsSwap b x y f el in
    let px = hs.reserve_in_pos in
    let hf = hs.fee_capped in
    rw (hs.output, hl.output)
      (
        swap_out_mono a b x y f px hf (omega arith) le,
        price_step a b (10_000 - f) (swap_out a x y f) (swap_out b x y f) x y (omega arith) le
            (rw swap_out_lem
              (div_bounds (a * (10_000 - f) * y) _ (denominator-pos a x y f px hf)).1)
            (swap_out_le b x y f px hf),
      )
