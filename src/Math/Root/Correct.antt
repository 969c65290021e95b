-- ===== src/Math/Root/Correct.antt =====
-- `integer_sqrt` returns the floor of the square root, for every `u128`.
use mathlib.Core.WellFounded.{Acc}
use mathlib.Core.Logic.{dif_pos, dif_neg}
use native.Mathlib.Decide.{dec_lt}
use native.Mathlib.Nat.{add-mul, pow-suc, pow-le-pow_right, zero-add, mul-pos, mul-le-mul}
use native.Mathlib.Bridge.{le_prop}
use solana_stablecoin_amm.Base.{
  ℕ, zero, suc, ◌+◌, ◌*◌, ◌-◌, ◌/◌, ◌^◌, ◌<◌, ◌≤◌, ◌≡◌, refl, arith, ltb, leb, ok, checked_add-some,
  checked_sub-some, Bool-cases, if-true, if-false, inl, inr, ◌∙◌, ap, leb→le, le→leb, lt→not-leb,
}
use solana_stablecoin_amm.Math.Root.{
  align_bit, sqrt_turn, sqrt_loop, sqrt_above_one, integer_sqrt, lt_accessible,
}

-- The state between two turns, where `bit` was `s * s` and the root found so far is `p`.
record IsPartial (v s p remainder : ℕ) : Type 0 where
  square : p * p + remainder ≡ v
  below : v < (p + s) * (p + s)
  fits : p + s ≤ 2 ^ 64

square_le : (a b : ℕ) → a ≤ b → a * a ≤ b * b
square_le a b h = mul-le-mul h h

candidate-lt :
    (v s p remainder : ℕ) → 0 < s → IsPartial v (2 * s) p remainder → 2 * (p * s) + s * s < 2 ^ 128
candidate-lt v s p remainder pos h =
    omega (arith, square_le (p + 2 * s) (2 ^ 64) h.fits, mul-pos pos pos)

half-double : (n : ℕ) → 2 * n / 2 ^ 1 ≡ n
half-double n = omega arith

sqrt_turn-accept :
    (v s p remainder : ℕ)
    → 0 < s
    → IsPartial v (2 * s) p remainder
    → 2 * (p * s) + s * s ≤ remainder
    → (sqrt_turn (s * s) remainder (2 * (p * s))
        ≡ ok (remainder - (2 * (p * s) + s * s), (p + s) * s))
      × IsPartial v s (p + s) (remainder - (2 * (p * s) + s * s))
unfolding sqrt_turn
sqrt_turn-accept v s p remainder pos h le = (
  rw (checked_add-some 128 (2 * (p * s)) (s * s) small, le→leb _ _ le, checked_sub-some _ _ le)
      (rw (half-double, checked_add-some 128 (p * s) (s * s) (omega (arith, small)), add-mul)),
  omega arith,
)
  where
    small : 2 * (p * s) + s * s < 2 ^ 128
    small = candidate-lt v s p remainder pos h

sqrt_turn-reject :
    (v s p remainder : ℕ)
    → 0 < s
    → IsPartial v (2 * s) p remainder
    → remainder < 2 * (p * s) + s * s
    → (sqrt_turn (s * s) remainder (2 * (p * s)) ≡ ok (remainder, p * s))
      × IsPartial v s p remainder
unfolding sqrt_turn
sqrt_turn-reject v s p remainder pos h lt = (
  rw
      (
        checked_add-some 128 (2 * (p * s)) (s * s) (candidate-lt v s p remainder pos h),
        lt→not-leb _ _ lt,
      )
      (ground arith),
  omega arith,
)

-- The turn as a whole, for either outcome of its test.
sqrt_turn_lem :
    (v s p remainder : ℕ)
    → 0 < s
    → IsPartial v (2 * s) p remainder
    → (q : ℕ) × (less : ℕ) × (sqrt_turn (s * s) remainder (2 * (p * s)) ≡ ok (less, q * s))
      × IsPartial v s q less
sqrt_turn_lem v s p remainder pos h = elim (Bool-cases (leb (2 * (p * s) + s * s) remainder)) [
  | inl le ↦ let (e, k) = sqrt_turn-accept v s p remainder pos h (leb→le _ _ le) in (p + s, _, e, k)
  | inr lt ↦ let (e, k) = sqrt_turn-reject v s p remainder pos h (ground arith) in (p, _, e, k)
]

-- `r` is the floor of the square root of `v`.
abbrev pub IsFloorSqrt : ℕ → ℕ → Type 0
IsFloorSqrt v r = (r * r ≤ v) × (v < (r + 1) * (r + 1))

pow-pos : (k : ℕ) → 0 < 2 ^ k
pow-pos zero = omega arith
pow-pos (suc k) = rw pow-suc (omega (arith, pow-pos k))

sqrt_loop-done :
    (bit remainder root : ℕ) (w : Acc ◌<◌ bit) → bit ≡ 0 → sqrt_loop bit remainder root w ≡ ok root
unfolding sqrt_loop
sqrt_loop-done bit remainder root (Acc.intro _ smaller) e =
    dif_neg (dec_lt 0 bit) (λ pos. absurd (omega arith)) _ _

-- One turn of the loop, while `bit` is not zero.
sqrt_loop-turn :
    (bit remainder root less half : ℕ) (w : Acc ◌<◌ bit)
    → 0 < bit
    → sqrt_turn bit remainder root ≡ ok (less, half)
    → (next : Acc ◌<◌ (bit / 2 ^ 2)) × (sqrt_loop bit remainder root w
        ≡ sqrt_loop (bit / 2 ^ 2) less half next)
unfolding sqrt_loop
sqrt_loop-turn bit remainder root less half (Acc.intro _ smaller) pos e =
    (smaller (bit / 2 ^ 2) (omega arith), dif_pos (dec_lt 0 bit) le_prop pos _ _ ∙ rw e)

-- With `bit` at `4 ^ k`, a turn halves the step and keeps the invariant.
sqrt_loop-next :
    (k v p remainder : ℕ) {bit root : ℕ} (w : Acc ◌<◌ bit)
    → bit ≡ 2 ^ k * 2 ^ k
    → root ≡ 2 * (p * 2 ^ k)
    → IsPartial v (2 * 2 ^ k) p remainder
    → (q : ℕ) × (less : ℕ) × (next : Acc ◌<◌ (bit / 2 ^ 2)) × (sqrt_loop bit remainder root w
        ≡ sqrt_loop (bit / 2 ^ 2) less (q * 2 ^ k) next)
      × IsPartial v (2 ^ k) q less
sqrt_loop-next k v p remainder {bit} {root} w eb er h =
    let (q, less, e, after) = sqrt_turn_lem v (2 ^ k) p remainder (pow-pos k) h in
    let turned : sqrt_turn bit remainder root ≡ ok (less, q * 2 ^ k) = rw (eb, er) e in
    let pos : 0 < bit = rw eb (mul-pos (pow-pos k) (pow-pos k)) in
    let (next, step) = sqrt_loop-turn bit remainder root less (q * 2 ^ k) w pos turned in
    (q, less, next, step, after)

sqrt_loop_lem :
    (k v p remainder : ℕ) {bit root : ℕ} (w : Acc ◌<◌ bit)
    → bit ≡ 2 ^ k * 2 ^ k
    → root ≡ 2 * (p * 2 ^ k)
    → IsPartial v (2 * 2 ^ k) p remainder
    → (r : ℕ) × (sqrt_loop bit remainder root w ≡ ok r) × IsFloorSqrt v r
sqrt_loop_lem zero v p remainder {bit} w eb er h =
    let (q, less, next, step, after) = sqrt_loop-next zero v p remainder w eb er h in
    (
      q,
      step ∙ sqrt_loop-done (bit / 2 ^ 2) less (q * 1) next (omega arith) ∙ ap ok (omega arith),
      (omega arith, omega arith),
    )
sqrt_loop_lem (suc k) v p remainder {bit} w eb er h =
    let (q, less, next, step, after) = sqrt_loop-next (suc k) v p remainder w eb er h in
    let double : 2 ^ suc k ≡ 2 * 2 ^ k = omega (arith, pow-suc 2 k) in
    let quarter : bit / 2 ^ 2 ≡ 2 ^ k * 2 ^ k = rw (eb, double) (omega arith) in
    let (r, e, floor) =
      sqrt_loop_lem k v q less next quarter (rw double (omega arith)) (rw double at after) in
    (r, step ∙ e, floor)

align_bit-stop : (bit value : ℕ) (w : Acc ◌<◌ bit) → bit ≤ value → align_bit bit value w ≡ bit
unfolding align_bit
align_bit-stop bit value (Acc.intro _ smaller) le =
    dif_neg (dec_lt value bit) (λ lt. absurd (omega arith)) _ _

align_bit-turn :
    (bit value : ℕ) (w : Acc ◌<◌ bit)
    → value < bit
    → (next : Acc ◌<◌ (bit / 2 ^ 2)) × (align_bit bit value w ≡ align_bit (bit / 2 ^ 2) value next)
unfolding align_bit
align_bit-turn bit value (Acc.intro _ smaller) lt =
    (smaller (bit / 2 ^ 2) (omega arith), dif_pos (dec_lt value bit) le_prop lt _ _)

-- From a power of four whose quadruple exceeds `value`, the first loop finds the largest power of
-- four that does not.
align_bit_lem :
    (k value : ℕ) {bit : ℕ} (w : Acc ◌<◌ bit)
    → 0 < value
    → bit ≡ 2 ^ k * 2 ^ k
    → value < 2 * 2 ^ k * (2 * 2 ^ k)
    → (j : ℕ) × (align_bit bit value w ≡ 2 ^ j * 2 ^ j)
      × (j ≤ k)
      × (2 ^ j * 2 ^ j ≤ value)
      × (value < 2 * 2 ^ j * (2 * 2 ^ j))
align_bit_lem zero value {bit} w pos eb lt =
    (0, align_bit-stop bit value w (omega arith) ∙ eb, omega arith, omega arith, lt)
align_bit_lem (suc k) value {bit} w pos eb lt = elim (Bool-cases (leb bit value)) [
  | inl le ↦ (
    suc k,
    align_bit-stop bit value w (leb→le _ _ le) ∙ eb,
    omega arith,
    rw eb at (leb→le _ _ le),
    lt,
  )
  | inr gt ↦
      let double : 2 ^ suc k ≡ 2 * 2 ^ k = omega (arith, pow-suc 2 k) in
      let quarter : bit / 2 ^ 2 ≡ 2 ^ k * 2 ^ k = rw (eb, double) (omega arith) in
      let above : value < bit = ground arith in
      let (next, step) = align_bit-turn bit value w above in
      let (j, e, below, le, less) =
        align_bit_lem k value next pos quarter (rw (eb, double) at above) in
      (j, step ∙ e, omega arith, le, less)
]

start-IsPartial :
    (value j : ℕ) → j ≤ 63 → value < 2 * 2 ^ j * (2 * 2 ^ j) → IsPartial value (2 * 2 ^ j) 0 value
start-IsPartial value j le high = record {
  square = omega arith;
  below = rw zero-add high;
  fits = omega (arith, pow-le-pow_right {n = 2} (omega arith) le);
}

tiny-IsFloorSqrt : (value : ℕ) → value < 2 → IsFloorSqrt value value
tiny-IsFloorSqrt zero h = omega arith
tiny-IsFloorSqrt (suc zero) h = omega arith
tiny-IsFloorSqrt (suc (suc n)) h = absurd (omega arith)

-- Aligning `first` and running the second loop from it.
sqrt_from_lem :
    (value first : ℕ) (w : Acc ◌<◌ first) (start : (bit : ℕ) → Acc ◌<◌ bit)
    → 2 ≤ value
    → value < 2 ^ 128
    → first ≡ 2 ^ 63 * 2 ^ 63
    → let bit = align_bit first value w in
      (root : ℕ) × (sqrt_loop bit value 0 (start bit) ≡ ok root) × IsFloorSqrt value root
sqrt_from_lem value first w start more small e =
    let (j, aligned, le, low, high) = align_bit_lem 63 value w (omega arith) e (omega arith) in
    sqrt_loop_lem j value 0 value (start (align_bit first value w)) aligned (omega arith)
      (start-IsPartial value j le high)

sqrt_above_one_lem :
    (value : ℕ)
    → 2 ≤ value
    → value < 2 ^ 128
    → (root : ℕ) × (sqrt_above_one value ≡ ok root) × IsFloorSqrt value root
unfolding sqrt_above_one
sqrt_above_one_lem value more small =
    sqrt_from_lem value (2 ^ 126) (lt_accessible (2 ^ 126)) lt_accessible more small refl

-- For every `u128` both loops of `integer_sqrt` end and none of its checked operations fails, and
-- what it returns is the floor of the square root.
pub integer_sqrt_lem :
    (value : ℕ)
    → value < 2 ^ 128
    → (root : ℕ) × (integer_sqrt value ≡ ok root) × IsFloorSqrt value root
unfolding integer_sqrt
integer_sqrt_lem value small = elim (Bool-cases (ltb value 2)) [
  | inl tiny ↦ (value, if-true _ _ _ tiny, tiny-IsFloorSqrt value (ground arith))
  | inr more ↦
      let (root, e, floor) = sqrt_above_one_lem value (ground arith) small in
      (root, if-false _ _ _ more ∙ e, floor)
]
