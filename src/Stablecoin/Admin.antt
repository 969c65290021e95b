-- ===== src/Stablecoin/Admin.antt =====
-- The administrator's instructions: programs/stablecoin/src/instructions/update_config.rs,
-- accept_admin.rs, grant_minter.rs and revoke_minter.rs. Rent moved by creating and closing a role
-- is not modelled.
pub mod Effects
pub mod Minters
use solana_stablecoin_amm.Base.{
  ℕ, ◌+◌, Bool, true, false, not, ◌||◌, Option, some, none, [], ◌∷◌, leb, ltb, ◌==◌, if◌then◌else◌,
  Result, ok, err, ◌>>=◌, ◌>>◌, guard,
}
use solana_stablecoin_amm.Math.{max_supply_cap}
use solana_stablecoin_amm.Chain.{
  Pubkey, text, key, bump, Runtime, Failure, custom, anchor, account_already_in_use,
  constraint_seeds, load, update, is_some,
}
use solana_stablecoin_amm.State.{MintConfig, MinterRole, Chain}
use solana_stablecoin_amm.Stablecoin.{
  StablecoinError, zero_supply_cap, supply_cap_too_large, unauthorized, invalid_authority,
  zero_allowance, supply_cap_below_supply, no_config_change, invalid_pending_admin,
  no_pending_admin, require, config_seed, minter_seed, ensure_supply_tracked, check_seeds,
  check_config,
}

pub record UpdateConfigAccounts : Type 0 where
  pub admin : Pubkey
  pub mint : Pubkey
  pub config : Pubkey

pub record ConfigUpdated : Type 0 where
  pub mint : Pubkey
  pub admin : Pubkey
  pub supply_cap : ℕ
  pub compliance_authority : Pubkey
  pub pending_admin : Option Pubkey

-- `if let Some(cap) = supply_cap { … }`, at the live supply
unfoldable pub set_supply_cap :
    Option ℕ → ℕ → MintConfig → Result (Failure StablecoinError) MintConfig
set_supply_cap none supply config = ok config
set_supply_cap (some cap) supply config = do
  require (ltb 0 cap) zero_supply_cap
  require (leb cap max_supply_cap) supply_cap_too_large
  ensure_supply_tracked config supply
  require (leb supply cap) supply_cap_below_supply
  ok (record config { supply_cap = cap })

-- `if let Some(authority) = compliance_authority { … }`
unfoldable pub set_compliance_authority :
    Option Pubkey → MintConfig → Result (Failure StablecoinError) MintConfig
set_compliance_authority none config = ok config
set_compliance_authority (some authority) config = do
  require (not (authority == 0)) invalid_authority
  ok (record config { compliance_authority = authority })

-- `if let Some(authority) = pending_admin { … }`
unfoldable pub set_pending_admin :
    Option Pubkey → MintConfig → Result (Failure StablecoinError) MintConfig
set_pending_admin none config = ok config
set_pending_admin (some authority) config = do
  require (not (authority == 0)) invalid_pending_admin
  require (not (authority == config.admin)) invalid_pending_admin
  ok (record config { pending_admin = some authority })

-- The handler on the configuration that it was given.
unfoldable pub new_config :
    Option ℕ
    → Option Pubkey
    → Option Pubkey
    → ℕ
    → MintConfig
    → Result (Failure StablecoinError) MintConfig
unfolding set_supply_cap set_compliance_authority set_pending_admin
new_config supply_cap compliance_authority pending_admin supply config = do
  require (is_some supply_cap || is_some compliance_authority || is_some pending_admin)
      no_config_change
  capped ← set_supply_cap supply_cap supply config
  compliant ← set_compliance_authority compliance_authority capped
  set_pending_admin pending_admin compliant

unfoldable pub update_config :
    Runtime
    → UpdateConfigAccounts
    → Option ℕ
    → Option Pubkey
    → Option Pubkey
    → Chain
    → Result (Failure StablecoinError) (Chain × ConfigUpdated)
update_config rt c supply_cap compliance_authority pending_admin s = do
  mint ← load (s.ledger.mints c.mint)
  config ← load (s.configs c.config)
  check_config rt c.mint c.config config
  require (config.admin == c.admin) unauthorized
  changed ← new_config supply_cap compliance_authority pending_admin mint.supply config
  ok (
    record s { configs = update s.configs c.config (some changed) },
    record {
      mint = changed.mint;
      admin = changed.admin;
      supply_cap = changed.supply_cap;
      compliance_authority = changed.compliance_authority;
      pending_admin = changed.pending_admin;
    },
  )

abbrev pub is_pending : Option Pubkey → Pubkey → Bool
is_pending none k = false
is_pending (some p) k = p == k

pub record AdminAccepted : Type 0 where
  pub mint : Pubkey
  pub previous_admin : Pubkey
  pub admin : Pubkey

-- The arguments are the signer and the configuration's address.
unfoldable pub accept_admin :
    Runtime → Pubkey → Pubkey → Chain → Result (Failure StablecoinError) (Chain × AdminAccepted)
accept_admin rt signer address s = do
  config ← load (s.configs address)
  check_seeds rt (text config_seed ∷ key config.mint ∷ bump config.bump ∷ []) address
  require (is_pending config.pending_admin signer) no_pending_admin
  let changed = record config { admin = signer; pending_admin = none }
  ok (
    record s { configs = update s.configs address (some changed) },
    record { mint = config.mint; previous_admin = config.admin; admin = signer },
  )

pub record MinterAccounts : Type 0 where
  pub admin : Pubkey
  pub config : Pubkey
  pub authority : Pubkey
  pub minter_role : Pubkey

-- The constraints on `config` where the instruction does not name the mint.
unfoldable pub check_admin :
    Runtime → MinterAccounts → MintConfig → Result (Failure StablecoinError) (Unit {0})
check_admin rt c config = do
  check_seeds rt (text config_seed ∷ key config.mint ∷ bump config.bump ∷ []) c.config
  require (config.admin == c.admin) unauthorized

-- `init` with `bump`: the address must be the canonical one for the seeds, and free.
unfoldable pub init_role : Runtime → MinterAccounts → Chain → Result (Failure StablecoinError) ℕ
init_role rt c s =
    elim (rt.find_program_address (text minter_seed ∷ key c.config ∷ key c.authority ∷ [])
      rt.stablecoin_id) [
        | none ↦ err (anchor constraint_seeds)
        | some (address, found) ↦ do
          guard (address == c.minter_role) (anchor constraint_seeds)
          guard (not (is_some (s.roles c.minter_role))) (anchor account_already_in_use)
          ok found
      ]

pub record MinterGranted : Type 0 where
  pub config : Pubkey
  pub authority : Pubkey
  pub allowance : ℕ

unfoldable pub grant_minter :
    Runtime → MinterAccounts → ℕ → Chain → Result (Failure StablecoinError) (Chain × MinterGranted)
grant_minter rt c allowance s = do
  config ← load (s.configs c.config)
  found ← init_role rt c s
  check_admin rt c config
  require (ltb 0 allowance) zero_allowance
  require (not (c.authority == 0)) invalid_authority
  let role : MinterRole = record {
    config = c.config;
    authority = c.authority;
    allowance = allowance;
    minted = 0;
    bump = found;
  }
  ok (
    record s { roles = update s.roles c.minter_role (some role) },
    record { config = c.config; authority = c.authority; allowance = allowance },
  )

pub record MinterRevoked : Type 0 where
  pub config : Pubkey
  pub authority : Pubkey
  pub minted : ℕ

unfoldable pub revoke_minter :
    Runtime → MinterAccounts → Chain → Result (Failure StablecoinError) (Chain × MinterRevoked)
revoke_minter rt c s = do
  config ← load (s.configs c.config)
  role ← load (s.roles c.minter_role)
  check_admin rt c config
  check_seeds rt (text minter_seed ∷ key c.config ∷ key c.authority ∷ bump role.bump ∷ [])
      c.minter_role
  require (role.config == c.config) unauthorized
  require (role.authority == c.authority) unauthorized
  ok (
    record s { roles = update s.roles c.minter_role none },
    record { config = c.config; authority = c.authority; minted = role.minted },
  )
