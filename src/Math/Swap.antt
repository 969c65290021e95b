-- ===== src/Math/Swap.antt =====
-- `quote_swap`: what it returns on every input, and what it promises to the pool and the trader.
pub mod Laws
use native.Mathlib.Nat.{le_refl, mul-sub, mul-le-mul, mul-pos, le_of_mul-le-mul_right}
use solana_stablecoin_amm.Base.{
  ℕ, ◌+◌, ◌*◌, ◌-◌, ◌/◌, ◌^◌, ◌<◌, ◌≤◌, ◌≡◌, ◌≢◌, refl, arith, Bool, ◌||◌, not, ltb, leb, ◌==◌,
  if◌then◌else◌, Bool-cases, inl, inr, lt→ltb, ltb→lt, not-ltb→le, lt→not-leb, true, false, sym,
  ◌∙◌, pos→not-zero, le→leb, Result, ok, err, checked_add-some, checked_mul-some, checked_div-some,
  checked_sub-some, div_bounds, div-lt_of_lt-mul, guard, ok_or, ◌>>=◌,
}
use solana_stablecoin_amm.Math.{
  MathError, zero_amount, invalid_fee, insufficient_liquidity, zero_output, value_out_of_range,
  max_supply_cap, fee_denominator, max_fee_bps, SwapQuote, quote_swap, widen,
}
use solana_stablecoin_amm.Math.Range.{
  widen-ok, widen-err, narrow-ok, narrow-err, mul_small, mul_mul_small,
}

-- The output of the constant-product formula, with the fee taken from the input.
unfoldable pub swap_out : ℕ → ℕ → ℕ → ℕ → ℕ
swap_out a x y f = a * (10_000 - f) * y / (x * 10_000 + a * (10_000 - f))

pub swap_out_lem :
    (a x y f : ℕ) → swap_out a x y f ≡ a * (10_000 - f) * y / (x * 10_000 + a * (10_000 - f))
unfolding swap_out
swap_out_lem a x y f = refl

share_le :
    (o a m x y : ℕ)
    → 0 < m
    → m ≤ 10_000
    → o * (x * 10_000 + a * m) ≤ a * m * y
    → o * (x + a) ≤ a * y
share_le o a m x y pm hm h =
    le_of_mul-le-mul_right {k = m} (omega (arith, mul-le-mul (le_refl (o * x)) hm)) pm

module _ (a x y f : ℕ) where
  -- The errors of `quote_swap` in the order in which it finds them, and its result in closed form.
  -- No other error is there: overflow and a falling product are impossible.
  abbrev pub swap_spec : Result MathError SwapQuote
  swap_spec =
      if a == 0
      then err zero_amount
      else if x == 0 || y == 0
      then err insufficient_liquidity
      else if ltb max_fee_bps f
      then err invalid_fee
      else if ltb max_supply_cap a || ltb max_supply_cap x || ltb max_supply_cap y
      then err value_out_of_range
      else if swap_out a x y f == 0
      then err zero_output
      else if ltb max_supply_cap (x + a)
      then err value_out_of_range
      else ok (record {
        amount_out = swap_out a x y f;
        new_reserve_in = x + a;
        new_reserve_out = y - swap_out a x y f;
      })

module _ (a x y f : ℕ) (px : 0 < x) (hf : f ≤ max_fee_bps) where
  pub denominator-pos : 0 < x * 10_000 + a * (10_000 - f)
  denominator-pos = omega arith

  pub swap_out_le : swap_out a x y f * (x * 10_000 + a * (10_000 - f)) ≤ a * (10_000 - f) * y
  unfolding swap_out
  swap_out_le = (div_bounds _ _ denominator-pos).0

  -- The output is at most the fee-free share of the output reserve.
  pub swap_out-share : swap_out a x y f * (x + a) ≤ a * y
  swap_out-share =
      share_le (swap_out a x y f) a (10_000 - f) x y (omega arith) (omega arith) swap_out_le

  -- The output never empties a reserve that holds something.
  pub swap_out-lt : 0 < y → swap_out a x y f < y
  unfolding swap_out
  swap_out-lt py =
      div-lt_of_lt-mul (a * (10_000 - f) * y) _ y denominator-pos (omega (arith, mul-pos px py))

  -- The product of the reserves does not fall.
  swap_keeps_product : x * y ≤ (x + a) * (y - swap_out a x y f)
  swap_keeps_product = rw mul-sub (omega (arith, swap_out-share))

  -- Past the guards, with capped arguments, only the two last checks can fail.
  quote_swap-capped :
      0 < a
      → 0 < y
      → a ≤ max_supply_cap
      → x ≤ max_supply_cap
      → y ≤ max_supply_cap
      → quote_swap a x y f ≡ (
          if swap_out a x y f == 0
          then err zero_output
          else if ltb max_supply_cap (x + a)
          then err value_out_of_range
          else ok (record {
            amount_out = swap_out a x y f;
            new_reserve_in = x + a;
            new_reserve_out = y - swap_out a x y f;
          }))
  unfolding quote_swap swap_out
  quote_swap-capped pa py ca cx cy =
      rw (pos→not-zero a pa, pos→not-zero x px, pos→not-zero y py, le→leb _ _ hf)
        (rw (widen-ok a ca, widen-ok x cx, widen-ok y cy, checked_sub-some 10_000 f (omega arith))
          (rw
            (
              checked_mul-some 128 a (10_000 - f) (omega (arith, small)),
              checked_mul-some 128 (a * (10_000 - f)) y
                  (mul_mul_small a (10_000 - f) y ca (omega arith) cy),
              checked_mul-some 128 x 10_000 (omega arith),
              checked_add-some 128 (x * 10_000) (a * (10_000 - f)) (omega (arith, small)),
              checked_div-some _ _ denominator-pos,
            )
            (elim (Bool-cases (out == 0)) [
              | inl z ↦ rw z refl
              | inr nz ↦
                  rw
                    (
                      nz,
                      lt→ltb _ _ (swap_out-lt py),
                      checked_add-some 128 x a (omega arith),
                      checked_sub-some y out (omega (arith, swap_out-lt py)),
                      checked_mul-some 128 x y (mul_small x y cx cy),
                      checked_mul-some 128 (x + a) (y - out) (
                          omega (
                            arith,
                            mul-le-mul {m₁ = y - out} {m₂ = max_supply_cap} sum_small (omega arith),
                          )),
                      le→leb _ _ swap_keeps_product,
                      narrow-ok out (omega (arith, swap_out-lt py)),
                    )
                    (elim (Bool-cases (ltb max_supply_cap (x + a))) [
                      | inl over ↦ rw (narrow-err (x + a) (ltb→lt _ _ over), over) refl
                      | inr fits ↦ rw (
                        narrow-ok (x + a) (not-ltb→le _ _ fits),
                        narrow-ok (y - out) (omega arith),
                        fits,
                      )
                    ])
            ])))
    where
      out : ℕ
      out = swap_out a x y f

      sum_small : x + a ≤ 2_000_000_000_000_000
      sum_small = omega arith

      small : a * (10_000 - f) ≤ 10_000_000_000_000_000_000
      small = mul-le-mul {m₁ = 10_000 - f} {m₂ = 10_000} ca (omega arith)

quote_swap-uncapped :
    (a x y f : ℕ)
    → (a == 0) ≡ false
    → (x == 0 || y == 0) ≡ false
    → ltb max_fee_bps f ≡ false
    → (ltb max_supply_cap a || ltb max_supply_cap x || ltb max_supply_cap y) ≡ true
    → quote_swap a x y f ≡ err value_out_of_range
unfolding quote_swap widen
quote_swap-uncapped a x y f na nxy nf over =
    rw (na, nxy, le→leb _ _ (not-ltb→le _ _ nf))
      (elim (Bool-cases (ltb max_supply_cap a)) [
        | inl big ↦ rw big refl
        | inr small ↦ rw small (elim (Bool-cases (ltb max_supply_cap x)) [
          | inl big ↦ rw big refl
          | inr fine ↦ rw (fine, last small fine) refl
        ])
      ])
  where
    last : ltb max_supply_cap a ≡ false → ltb max_supply_cap x ≡ false → ltb max_supply_cap y ≡ true
    last p q = rw (p, q) at over

-- On all inputs `quote_swap` is its closed form: the errors in the order in which it finds them,
-- the output after the fee rounded down, and no error of overflow or of a falling product.
pub quote_swap_lem : (a x y f : ℕ) → quote_swap a x y f ≡ swap_spec a x y f
unfolding quote_swap
quote_swap_lem a x y f = elim (Bool-cases (a == 0)) [
  | inl z ↦ rw z refl
  | inr na ↦ elim (Bool-cases (x == 0 || y == 0)) [
    | inl z ↦ rw (na, z) refl
    | inr nxy ↦ elim (Bool-cases (ltb max_fee_bps f)) [
      | inl high ↦ rw (na, nxy, lt→not-leb _ _ (ltb→lt _ _ high), high) refl
      | inr nf ↦
          elim (Bool-cases (ltb max_supply_cap a || ltb max_supply_cap x || ltb max_supply_cap y)) [
            | inl over ↦
                quote_swap-uncapped a x y f na nxy nf over ∙ sym (rw (na, nxy, nf, over) refl)
            | inr fits ↦
                quote_swap-capped a x y f (ground arith) (not-ltb→le _ _ nf) (ground arith)
                  (ground arith) (ground arith) (ground arith) (ground arith)
                ∙ sym (rw (na, nxy, nf, fits) refl)
          ]
    ]
  ]
]
