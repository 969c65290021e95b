-- ===== src/Math/Remove.antt =====
-- `quote_remove_liquidity`: its closed form on every input.
pub mod Laws
use native.Mathlib.Nat.{le_trans, le_of_eq, mul-le-mul_right, mul_comm}
use solana_stablecoin_amm.Base.{
  ℕ, ◌+◌, ◌*◌, ◌-◌, ◌/◌, ◌<◌, ◌≤◌, ◌≡◌, refl, arith, true, false, ltb, leb, ◌==◌, ◌||◌,
  if◌then◌else◌, Result, ok, err, Bool-cases, if-true, if-false, inl, inr, pos→not-zero, ltb→lt,
  not-ltb→le, le→leb, lt→not-leb, checked_sub-some, div-le_of_le-mul, ◌∙◌, sym,
}
use solana_stablecoin_amm.Math.{
  MathError, zero_amount, insufficient_liquidity, invalid_liquidity_state, zero_output,
  value_out_of_range, max_supply_cap, minimum_liquidity, RemoveLiquidityQuote, widen,
  quote_remove_liquidity,
}
use solana_stablecoin_amm.Math.Range.{widen-ok, narrow-ok, proportional-ok}

-- The amount withdrawn of a reserve, rounded down.
abbrev pub withdrawal : ℕ → ℕ → ℕ → ℕ
withdrawal lp reserve l = lp * reserve / l

-- The result once every argument is in range.
abbrev pub remove_in_range : ℕ → ℕ → ℕ → ℕ → Result MathError RemoveLiquidityQuote
remove_in_range lp x y l =
    if ltb (l - lp) minimum_liquidity
    then err insufficient_liquidity
    else if withdrawal lp x l == 0 || withdrawal lp y l == 0
    then err zero_output
    else ok (record {
      amount_a = withdrawal lp x l;
      amount_b = withdrawal lp y l;
      new_reserve_a = x - withdrawal lp x l;
      new_reserve_b = y - withdrawal lp y l;
      new_lp_supply = l - lp;
    })

-- The errors of `quote_remove_liquidity` in the order in which it finds them, and its result.
abbrev pub remove_spec : ℕ → ℕ → ℕ → ℕ → Result MathError RemoveLiquidityQuote
remove_spec lp x y l =
    if lp == 0
    then err zero_amount
    else if x == 0 || y == 0
    then err insufficient_liquidity
    else if ltb l minimum_liquidity
    then err invalid_liquidity_state
    else if ltb l lp
    then err insufficient_liquidity
    else if ltb max_supply_cap x || ltb max_supply_cap y || ltb max_supply_cap l
    then err value_out_of_range
    else remove_in_range lp x y l

pub withdrawal-le : (lp x l : ℕ) → 0 < l → lp ≤ l → withdrawal lp x l ≤ x
withdrawal-le lp x l pl le =
    div-le_of_le-mul (lp * x) l x pl (le_trans (mul-le-mul_right x le) (le_of_eq (mul_comm l x)))

module _ (lp x y l : ℕ) (plp : 0 < lp) (px : 0 < x) (py : 0 < y) (seeded : minimum_liquidity ≤ l)
    (le : lp ≤ l) where
  remove-capped :
      x ≤ max_supply_cap
      → y ≤ max_supply_cap
      → l ≤ max_supply_cap
      → quote_remove_liquidity lp x y l ≡ remove_in_range lp x y l
  unfolding quote_remove_liquidity
  remove-capped cx cy cl =
      rw
        (
          pos→not-zero lp plp,
          pos→not-zero x px,
          pos→not-zero y py,
          le→leb _ _ seeded,
          le→leb _ _ le,
        )
        (rw
          (
            widen-ok lp (omega arith),
            widen-ok x cx,
            widen-ok y cy,
            widen-ok l cl,
            checked_sub-some l lp le,
          )
          (elim (Bool-cases (ltb (l - lp) minimum_liquidity)) [
            | inl few ↦ rw (few, lt→not-leb _ _ (ltb→lt _ _ few)) refl
            | inr enough ↦
                rw (enough, le→leb _ _ (not-ltb→le _ _ enough))
                  (rw
                    (
                      proportional-ok lp x l (omega arith) cx (omega arith),
                      proportional-ok lp y l (omega arith) cy (omega arith),
                    )
                    (elim (Bool-cases (withdrawal lp x l == 0 || withdrawal lp y l == 0)) [
                      | inl z ↦ rw z refl
                      | inr nz ↦ rw (
                        nz,
                        narrow-ok (withdrawal lp x l) (omega (arith, le_x)),
                        narrow-ok (withdrawal lp y l) (omega (arith, le_y)),
                        checked_sub-some x (withdrawal lp x l) le_x,
                        narrow-ok (x - withdrawal lp x l) (omega arith),
                        checked_sub-some y (withdrawal lp y l) le_y,
                        narrow-ok (y - withdrawal lp y l) (omega arith),
                        narrow-ok (l - lp) (omega arith),
                      )
                    ]))
          ]))
    where
      le_x : withdrawal lp x l ≤ x
      le_x = withdrawal-le lp x l (omega arith) le

      le_y : withdrawal lp y l ≤ y
      le_y = withdrawal-le lp y l (omega arith) le

  remove-uncapped :
      (ltb max_supply_cap x || ltb max_supply_cap y || ltb max_supply_cap l) ≡ true
      → quote_remove_liquidity lp x y l ≡ err value_out_of_range
  unfolding quote_remove_liquidity widen
  remove-uncapped over =
      rw
        (
          pos→not-zero lp plp,
          pos→not-zero x px,
          pos→not-zero y py,
          le→leb _ _ seeded,
          le→leb _ _ le,
        )
        (ground arith)

  -- Past the guards the range decides.
  remove-guarded : quote_remove_liquidity lp x y l ≡ (
      if ltb max_supply_cap x || ltb max_supply_cap y || ltb max_supply_cap l
      then err value_out_of_range
      else remove_in_range lp x y l)
  remove-guarded =
      elim (Bool-cases (ltb max_supply_cap x || ltb max_supply_cap y || ltb max_supply_cap l)) [
        | inl over ↦ remove-uncapped over ∙ sym (if-true _ _ _ over)
        | inr fits ↦
            remove-capped (ground arith) (ground arith) (ground arith) ∙ sym (if-false _ _ _ fits)
      ]

-- On all inputs `quote_remove_liquidity` is its closed form: the errors in the order in which it
-- finds them, and the rounded-down shares.
pub quote_remove_liquidity_lem :
    (lp x y l : ℕ) → quote_remove_liquidity lp x y l ≡ remove_spec lp x y l
unfolding quote_remove_liquidity
quote_remove_liquidity_lem lp x y l = elim (Bool-cases (lp == 0)) [
  | inl z ↦ rw z refl
  | inr nlp ↦ elim (Bool-cases (x == 0 || y == 0)) [
    | inl z ↦ rw (nlp, z) refl
    | inr nxy ↦ elim (Bool-cases (ltb l minimum_liquidity)) [
      | inl low ↦ rw (nlp, nxy, lt→not-leb _ _ (ltb→lt _ _ low), low) refl
      | inr seeded ↦ elim (Bool-cases (ltb l lp)) [
        | inl more ↦
            rw
              (
                nlp,
                nxy,
                le→leb _ _ (not-ltb→le _ _ seeded),
                lt→not-leb _ _ (ltb→lt _ _ more),
                seeded,
                more,
              )
              refl
        | inr le ↦
            remove-guarded lp x y l (ground arith) (ground arith) (ground arith)
              (not-ltb→le _ _ seeded) (not-ltb→le _ _ le)
            ∙ sym (rw (nlp, nxy, seeded, le) refl)
      ]
    ]
  ]
]
