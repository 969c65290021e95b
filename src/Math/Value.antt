-- ===== src/Math/Value.antt =====
-- The value of a pool token: the product of the reserves over the square of the supply. It is
-- compared without division: `k_new · L_old² ≥ k_old · L_new²`.
use native.Mathlib.Nat.{mul-le-mul}
use solana_stablecoin_amm.Base.{ℕ, ◌*◌, ◌≤◌, arith}

-- From the reserves `x`, `y` and the supply `l` to `x'`, `y'` and `l'` no holder loses value.
abbrev pub KeepsValue : (x y l x' y' l' : ℕ) → Type 0
KeepsValue x y l x' y' l' = x * y * (l' * l') ≤ x' * y' * (l * l)

-- It is enough that neither reserve falls behind the supply.
pub sides-KeepsValue :
    (x y l x' y' l' : ℕ) → x * l' ≤ x' * l → y * l' ≤ y' * l → KeepsValue x y l x' y' l'
sides-KeepsValue x y l x' y' l' hx hy = omega (arith, mul-le-mul hx hy)
