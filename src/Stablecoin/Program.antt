-- ===== src/Stablecoin/Program.antt =====
-- The entry points of programs/stablecoin/src/lib.rs: an instruction is its accounts and arguments.
use solana_stablecoin_amm.Base.{ℕ, Bool, Option, Result}
use solana_stablecoin_amm.Chain.{Pubkey, Runtime, Failure}
use solana_stablecoin_amm.State.{PolicyStatus, Chain, chain_after}
use solana_stablecoin_amm.Stablecoin.{StablecoinError}
use solana_stablecoin_amm.Stablecoin.Setup
use solana_stablecoin_amm.Stablecoin.Setup.{InitializeStablecoinAccounts, InitializeStablecoinArgs}
use solana_stablecoin_amm.Stablecoin.Issuance
use solana_stablecoin_amm.Stablecoin.Issuance.{MintToAccounts, BurnAccounts}
use solana_stablecoin_amm.Stablecoin.Admin
use solana_stablecoin_amm.Stablecoin.Admin.{UpdateConfigAccounts, MinterAccounts}
use solana_stablecoin_amm.Stablecoin.Compliance
use solana_stablecoin_amm.Stablecoin.Compliance.{SetPauseAccounts, SetWalletPolicyAccounts}

pub data Instruction : Type 0 where
  initialize_stablecoin : InitializeStablecoinAccounts → InitializeStablecoinArgs → Instruction
  grant_minter : MinterAccounts → (allowance : ℕ) → Instruction
  revoke_minter : MinterAccounts → Instruction
  set_wallet_policy : SetWalletPolicyAccounts → PolicyStatus → Instruction
  mint_to : MintToAccounts → (amount : ℕ) → Instruction
  burn : BurnAccounts → (amount : ℕ) → Instruction
  set_pause : SetPauseAccounts → (paused : Bool) → Instruction
  update_config :
      UpdateConfigAccounts
      → (supply_cap : Option ℕ) → (compliance_authority pending_admin : Option Pubkey) → Instruction
  accept_admin : (signer config : Pubkey) → Instruction

-- The chain after an instruction; the event is dropped.
unfoldable pub process : Runtime → Instruction → Chain → Result (Failure StablecoinError) Chain
process rt (initialize_stablecoin c args) s = chain_after (Setup.initialize_stablecoin rt c args s)
process rt (grant_minter c allowance) s = chain_after (Admin.grant_minter rt c allowance s)
process rt (revoke_minter c) s = chain_after (Admin.revoke_minter rt c s)
process rt (set_wallet_policy c status) s = chain_after (Compliance.set_wallet_policy rt c status s)
process rt (mint_to c amount) s = chain_after (Issuance.mint_to rt c amount s)
process rt (burn c amount) s = chain_after (Issuance.burn rt c amount s)
process rt (set_pause c paused) s = chain_after (Compliance.set_pause rt c paused s)
process rt (update_config c supply_cap compliance_authority pending_admin) s =
    chain_after (Admin.update_config rt c supply_cap compliance_authority pending_admin s)
process rt (accept_admin signer config) s = chain_after (Admin.accept_admin rt signer config s)
