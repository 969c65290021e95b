-- ===== src/Tests/Gates.antt =====
-- A swap and the gates that it passes.
use solana_stablecoin_amm.Base.{◌≡◌, refl, ok}
use solana_stablecoin_amm.State.{a_to_b}
use solana_stablecoin_amm.Amm.Gates.{IsOpen, process-IsOpen}
use solana_stablecoin_amm.Amm.Program.{Instruction, swap, process}
use solana_stablecoin_amm.Tests.Token.{rt}
use solana_stablecoin_amm.Tests.World.{start, pool_accounts}
use solana_stablecoin_amm.Tests.Programs.{swapped, swap_run}

abbrev swapping : Instruction
swapping = swap pool_accounts a_to_b 1_000 1_900

swapping_run : process rt swapping start ≡ ok swapped
unfolding process
swapping_run = rw swap_run refl

process-IsOpen_example : IsOpen rt pool_accounts start
process-IsOpen_example = process-IsOpen rt swapping pool_accounts start refl swapping_run
