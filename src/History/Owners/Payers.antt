-- ===== src/History/Owners/Payers.antt =====
-- Whose balances an instruction of the AMM lowers, over all of the calls that it makes.
use solana_stablecoin_amm.State.{Chain}
use solana_stablecoin_amm.Amm.Program as Market
