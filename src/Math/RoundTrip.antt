-- ===== src/Math/RoundTrip.antt =====
-- A deposit followed at once by the withdrawal of the pool tokens that it minted.
use native.Mathlib.Nat.{le_of_mul-le-mul_right}
use solana_stablecoin_amm.Base.{ℕ, ◌+◌, ◌*◌, ◌<◌, ◌≤◌, ◌≡◌, arith, ok}
use solana_stablecoin_amm.Math.{
  AddLiquidityQuote, RemoveLiquidityQuote, quote_add_liquidity, quote_remove_liquidity,
}
use solana_stablecoin_amm.Math.Add.Laws.{quote_add_liquidity-IsAdd}
use solana_stablecoin_amm.Math.Remove.Laws.{quote_remove_liquidity-fair}

side_back : (w p m x l : ℕ) → 0 < l → m * x ≤ p * l → w * (l + m) ≤ m * (x + p) → w ≤ p
side_back w p m x l pl share back = le_of_mul-le-mul_right {k = l + m} (omega arith) (omega arith)

-- When a deposit and the withdrawal of the tokens that it minted are both quoted, the withdrawal
-- returns, on each side, at most the deposit.
pub deposit-withdraw :
    (a b x y l : ℕ) {added : AddLiquidityQuote} {removed : RemoveLiquidityQuote}
    → quote_add_liquidity a b x y l ≡ ok added
    → quote_remove_liquidity added.lp_minted added.new_reserve_a added.new_reserve_b
        added.new_lp_supply
      ≡ ok removed
    → (removed.amount_a ≤ added.amount_a) × (removed.amount_b ≤ added.amount_b)
deposit-withdraw a b x y l {added} {removed} there back =
    let h = quote_add_liquidity-IsAdd a b x y l there in
    let (side_a, side_b, seeded, value) = quote_remove_liquidity-fair _ _ _ _ back in
    (
      side_back removed.amount_a added.amount_a added.lp_minted x l (omega arith) h.share_a
          (rw (h.supply, h.reserve_a) at side_a.0),
      side_back removed.amount_b added.amount_b added.lp_minted y l (omega arith) h.share_b
          (rw (h.supply, h.reserve_b) at side_b.0),
    )
