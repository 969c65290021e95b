-- ===== src/Math/Add.antt =====
-- `ceil_div`, the choice of the deposited pair, and `quote_add_liquidity`.
pub mod Laws
use native.Mathlib.Nat.{
  div-add-mod', le_refl, mul-le-mul, mul-pos, div-le_self, mul-le-mul_right, div-mul-le_self,
  le_trans, le_of_mul-le-mul_right,
}
use solana_stablecoin_amm.Base.{
  ℕ, ◌+◌, ◌*◌, ◌-◌, ◌/◌, ◌%◌, ◌^◌, ◌<◌, ◌≤◌, ◌≡◌, ◌⊎◌, refl, arith, ltb, leb, ◌==◌, ◌||◌, min,
  if◌then◌else◌, Result, ok, err, Bool-cases, inl, inr, pos→not-zero, ltb→lt, not-ltb→le, leb→le,
  not-leb→lt, le→leb, le→not-ltb, lt→ltb, lt→not-leb, checked_add-some, checked_mul-some,
  checked_sub-some, checked_div-some, if-true, if-false, div_bounds, div-le_of_le-mul, ◌∙◌, sym, ap,
}
use solana_stablecoin_amm.Math.{
  MathError, zero_amount, insufficient_liquidity, invalid_liquidity_state, zero_output,
  value_out_of_range, max_supply_cap, minimum_liquidity, AddLiquidityQuote, ceil_div, widen, narrow,
  deposit_amounts, proportional, add_pair, quote_add_liquidity,
}
use solana_stablecoin_amm.Math.Range.{widen-ok, narrow-ok, narrow_lem, mul_small, proportional-ok}

-- `q` is `n / d`, rounded up.
pub record IsCeil (n d q : ℕ) : Type 0 where
  pub enough : n ≤ q * d
  pub least : q * d < n + d

-- For a positive divisor `ceil_div` returns the rounded-up quotient on all of `u128`, the largest
-- numerator included.
pub ceil_div_lem : (n d : ℕ) → n < 2 ^ 128 → 0 < d → (q : ℕ) × (ceil_div n d ≡ ok q) × IsCeil n d q
unfolding ceil_div
ceil_div_lem n d small pd = elim (Bool-cases (n % d == 0)) [
  | inl exact ↦
      (n / d, rw (pos→not-zero d pd, exact), ground (arith, div_bounds n d pd, div-add-mod' n d))
  | inr rest ↦
      let below : n / d * d < n = ground (arith, div-add-mod' n d) in
      let room : n / d + 1 < 2 ^ 128 = omega (arith, mul-le-mul (le_refl (n / d)) pd) in
      (
        n / d + 1,
        rw (pos→not-zero d pd, rest, checked_add-some 128 (n / d) 1 room),
        omega (arith, div_bounds n d pd),
      )
]

-- The amounts `p` and `r` that a deposit of at most `a` and `b` takes against the reserves `x` and
-- `y`: one of them in full and the other rounded up to the ratio of the reserves.
pub record IsDeposit (a b x y p r : ℕ) : Type 0 where
  pub a_bound : p ≤ a
  pub b_bound : r ≤ b
  pub ratio : ((p ≡ a) × IsCeil (a * y) x r) ⊎ ((r ≡ b) × IsCeil (b * x) y p)

-- Where `b` does not reach the ratio, `a` does: the amount computed from `b` is at most `a`.
other_bound : (a b x y q p : ℕ) → 0 < y → IsCeil (a * y) x q → b < q → IsCeil (b * x) y p → p ≤ a
other_bound a b x y q p py hq lt hp = elim (Bool-cases (leb p a)) [
  | inl le ↦ leb→le _ _ le
  | inr gt ↦ absurd (
      omega (
        arith,
        hq.least,
        hp.least,
        mul-le-mul lt (le_refl x),
        mul-le-mul (not-leb→lt _ _ gt) (le_refl y),
      ))
]

-- The pool tokens for `p` and `r`: the smaller of the two shares, each rounded down.
unfoldable pub lp_share : ℕ → ℕ → ℕ → ℕ → ℕ → ℕ
lp_share p r x y l = min (p * l / x) (r * l / y)

-- Neither depositor side is credited beyond its share.
pub lp_share_bounds :
    (p r x y l : ℕ) → (lp_share p r x y l * x ≤ p * l) × (lp_share p r x y l * y ≤ r * l)
unfolding lp_share
lp_share_bounds p r x y l = (
  le_trans (mul-le-mul_right x (omega arith)) (div-mul-le_self (p * l) x),
  le_trans (mul-le-mul_right y (omega arith)) (div-mul-le_self (r * l) y),
)

share_small :
    (p r x y l : ℕ)
    → p ≤ max_supply_cap
    → l ≤ max_supply_cap
    → lp_share p r x y l ≤ max_supply_cap * max_supply_cap
unfolding lp_share
share_small p r x y l hp hl = omega (arith, div-le_self (p * l) x, mul-le-mul hp hl)

-- The result for the deposited pair, against the reserves `x`, `y` and the supply `l`.
abbrev pub add_of_pair : ℕ → ℕ → ℕ → ℕ → ℕ → Result MathError AddLiquidityQuote
add_of_pair p r x y l =
    if lp_share p r x y l == 0
    then err zero_output
    else if ltb max_supply_cap (x + p)
        || ltb max_supply_cap (y + r)
        || ltb max_supply_cap (l + lp_share p r x y l)
    then err value_out_of_range
    else ok (record {
      amount_a = p;
      amount_b = r;
      lp_minted = lp_share p r x y l;
      new_reserve_a = x + p;
      new_reserve_b = y + r;
      new_lp_supply = l + lp_share p r x y l;
    })

module _ (a b x y : ℕ) (px : 0 < x) (py : 0 < y) where
  module _ (ca : a ≤ max_supply_cap) (cb : b ≤ max_supply_cap) (cx : x ≤ max_supply_cap)
      (cy : y ≤ max_supply_cap) where
    -- With positive reserves, and offers and reserves within the cap, the choice of the amounts
    -- always succeeds, with a pair as `IsDeposit` describes: the error for `a_optimal >
    -- a_desired` is never returned.
    pub deposit_amounts_lem :
        (p : ℕ) × (r : ℕ) × (deposit_amounts a b x y ≡ ok (p, r)) × IsDeposit a b x y p r
    unfolding deposit_amounts
    deposit_amounts_lem =
        let (q, eq, hq) = ceil_div_lem (a * y) x (mul_small a y ca cy) px in
        elim (Bool-cases (leb q b)) [
          | inl le ↦ (
            a,
            q,
            rw (checked_mul-some 128 a y (mul_small a y ca cy), eq, le),
            record { a_bound = le_refl a; b_bound = leb→le _ _ le; ratio = inl (refl, hq) },
          )
          | inr gt ↦
              let (p, ep, hp) = ceil_div_lem (b * x) y (mul_small b x cb cx) py in
              let bound = other_bound a b x y q p py hq (not-leb→lt _ _ gt) hp in
              (
                p,
                b,
                rw (checked_mul-some 128 a y (mul_small a y ca cy), eq, gt)
                    (rw (checked_mul-some 128 b x (mul_small b x cb cx), ep, le→leb _ _ bound)),
                record { a_bound = bound; b_bound = le_refl b; ratio = inr (refl, hp) },
              )
        ]

    module _ (l : ℕ) (cl : l ≤ max_supply_cap) where
      add_pair_lem : (p r : ℕ) → p ≤ a → r ≤ b → add_pair p r x y l ≡ add_of_pair p r x y l
      unfolding add_pair lp_share
      add_pair_lem p r hp hr =
          rw (proportional-ok p l x (omega arith) cl px, proportional-ok r l y (omega arith) cl py)
            (elim (Bool-cases (lp_share p r x y l == 0)) [
              | inl z ↦ rw z refl
              | inr nz ↦
                  rw (nz, narrow-ok p (omega arith), narrow-ok r (omega arith))
                    (rw
                      (
                        narrow_lem (lp_share p r x y l),
                        checked_add-some 128 x p (omega arith),
                        narrow_lem (x + p),
                        checked_add-some 128 y r (omega arith),
                        narrow_lem (y + r),
                        checked_add-some 128 l (lp_share p r x y l)
                            (omega (arith, share_small p r x y l (le_trans hp ca) cl)),
                        narrow_lem (l + lp_share p r x y l),
                      )
                      (ground arith))
            ])

      -- With positive reserves and offers, all of them and the supply within the cap, and at
      -- least the minimum supply, `quote_add_liquidity` takes such a pair as `IsDeposit`
      -- describes and mints the smaller of its two shares; it fails only if that is zero or a new
      -- total exceeds the cap.
      pub quote_add_liquidity_lem :
          0 < a
          → 0 < b
          → minimum_liquidity ≤ l
          → (p : ℕ) × (r : ℕ) × IsDeposit a b x y p r
            × (quote_add_liquidity a b x y l ≡ add_of_pair p r x y l)
      unfolding quote_add_liquidity
      quote_add_liquidity_lem pa pb seeded =
          let (p, r, e, d) = deposit_amounts_lem in
          (
            p,
            r,
            d,
            rw (pos→not-zero a pa, pos→not-zero b pb, pos→not-zero x px, pos→not-zero y py)
                (rw (le→leb _ _ seeded, widen-ok a ca, widen-ok b cb, widen-ok x cx, widen-ok y cy)
                  (rw (widen-ok l cl, e) (add_pair_lem p r d.a_bound d.b_bound))),
          )

-- What a quote needs of its arguments.
pub add_guards :
    (a b x y l : ℕ) {q : AddLiquidityQuote}
    → quote_add_liquidity a b x y l ≡ ok q
    → ((0 < a) × (0 < b) × (0 < x) × (0 < y) × (minimum_liquidity ≤ l))
      × ((a ≤ max_supply_cap) × (b ≤ max_supply_cap) × (x ≤ max_supply_cap))
      × ((y ≤ max_supply_cap) × (l ≤ max_supply_cap))
unfolding quote_add_liquidity widen
add_guards a b x y l h = ground arith
