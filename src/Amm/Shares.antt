-- ===== src/Amm/Shares.antt =====
-- What a pool promises to the holders of its tokens, without accounts, fees or rounding: the abstract
-- specification of programs/amm/src/instructions, as a relation on the reserves and the supply.
pub mod Refinement
use solana_stablecoin_amm.Base.{ℕ, ◌+◌, ◌*◌, ◌<◌, ◌≤◌, ◌≡◌, refl, arith}
use solana_stablecoin_amm.Math.Value.{KeepsValue}
use native.Mathlib.Nat.{le_refl, mul-le-mul, mul-pos, le_of_mul-le-mul_right}

pub record Shares : Type 0 where
  pub reserve_a : ℕ
  pub reserve_b : ℕ
  pub supply : ℕ

-- What may happen to the pool in one step, and that there are tokens before and after it.
pub data Trade (a b : Shares) : Type 0 where
  swap : b.supply ≡ a.supply → a.reserve_a * a.reserve_b ≤ b.reserve_a * b.reserve_b → Trade a b
  deposit :
      a.supply < b.supply
      → KeepsValue a.reserve_a a.reserve_b a.supply b.reserve_a b.reserve_b b.supply
      → Trade a b
  withdraw :
      b.supply < a.supply
      → KeepsValue a.reserve_a a.reserve_b a.supply b.reserve_a b.reserve_b b.supply
      → Trade a b
  give_up : b.reserve_a ≡ a.reserve_a → b.reserve_b ≡ a.reserve_b → b.supply ≤ a.supply → Trade a b

pub data Trades (a : Shares) : Shares → Type 0 where
  done : Trades a a
  after : {b c : Shares} → Trades a b → 0 < b.supply → Trade b c → Trades a c

-- No token is worth less afterwards.
abbrev pub IsFair : Shares → Shares → Type 0
IsFair a b = KeepsValue a.reserve_a a.reserve_b a.supply b.reserve_a b.reserve_b b.supply

KeepsValue-trans :
    (x y l x' y' l' x'' y'' l'' : ℕ)
    → 0 < l'
    → KeepsValue x y l x' y' l'
    → KeepsValue x' y' l' x'' y'' l''
    → KeepsValue x y l x'' y'' l''
KeepsValue-trans x y l x' y' l' x'' y'' l'' pos first second =
    le_of_mul-le-mul_right {k = l' * l'}
      (omega (arith, mul-le-mul first (le_refl (l'' * l'')), mul-le-mul second (le_refl (l * l))))
      (mul-pos pos pos)

Trade-IsFair : {a b : Shares} → Trade a b → IsFair a b
Trade-IsFair {a} {b} (swap same grown) =
    let h : a.reserve_a * a.reserve_b * (a.supply * a.supply)
        ≤ b.reserve_a * b.reserve_b * (a.supply * a.supply) =
      mul-le-mul grown (le_refl _) in
    rw same h
Trade-IsFair (deposit more fair) = fair
Trade-IsFair (withdraw fewer fair) = fair
Trade-IsFair {a} {b} (give_up ea eb fewer) =
    let h : a.reserve_a * a.reserve_b * (b.supply * b.supply)
        ≤ a.reserve_a * a.reserve_b * (a.supply * a.supply) =
      mul-le-mul (le_refl (a.reserve_a * a.reserve_b)) (mul-le-mul fewer fewer) in
    rw (ea, eb) h

pub Trades-IsFair : {a b : Shares} → Trades a b → IsFair a b
Trades-IsFair done = le_refl _
Trades-IsFair {a} (after {b} {c} earlier pos step) =
    KeepsValue-trans a.reserve_a a.reserve_b a.supply b.reserve_a b.reserve_b b.supply c.reserve_a
      c.reserve_b c.supply pos (Trades-IsFair earlier) (Trade-IsFair step)
