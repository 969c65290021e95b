-- ===== src/Amm/Program.antt =====
-- The entry points of programs/amm/src/lib.rs: an instruction is its accounts and arguments.
use solana_stablecoin_amm.Base.{ℕ, Result}
use solana_stablecoin_amm.Chain.{Runtime, Failure}
use solana_stablecoin_amm.State.{SwapDirection, Chain, chain_after}
use solana_stablecoin_amm.Amm.{AmmError, PoolAccounts}
use solana_stablecoin_amm.Amm.Setup
use solana_stablecoin_amm.Amm.Setup.{InitializePoolAccounts}
use solana_stablecoin_amm.Amm.Swap
use solana_stablecoin_amm.Amm.Liquidity
use solana_stablecoin_amm.Amm.Liquidity.{LiquidityAccounts}
use solana_stablecoin_amm.Amm.Deposit

pub data Instruction : Type 0 where
  initialize_pool : InitializePoolAccounts → (fee_bps : ℕ) → Instruction
  add_liquidity :
      LiquidityAccounts
      → (amount_a_desired amount_b_desired amount_a_min amount_b_min min_lp_out : ℕ) → Instruction
  remove_liquidity : LiquidityAccounts → (lp_amount min_a_out min_b_out : ℕ) → Instruction
  swap : PoolAccounts → SwapDirection → (amount_in min_amount_out : ℕ) → Instruction

-- The chain after an instruction; the event is dropped.
unfoldable pub process : Runtime → Instruction → Chain → Result (Failure AmmError) Chain
process rt (initialize_pool c fee_bps) s = chain_after (Setup.initialize_pool rt c fee_bps s)
process rt (add_liquidity d x y min_a min_b min_lp) s =
    chain_after (Deposit.add_liquidity rt d x y min_a min_b min_lp s)
process rt (remove_liquidity d lp_amount min_a_out min_b_out) s =
    chain_after (Liquidity.remove_liquidity rt d lp_amount min_a_out min_b_out s)
process rt (swap c direction amount_in min_amount_out) s =
    chain_after (Swap.swap rt c direction amount_in min_amount_out s)
