-- ===== src/Stablecoin.antt =====
-- The errors, the constraints and the supply check that the stablecoin program's instructions share:
-- programs/stablecoin/src/errors.rs, programs/stablecoin/src/instructions/mod.rs, and reading the
-- Pausable extension, programs/stablecoin/src/token2022.rs.
pub mod Symbol
pub mod Backing
pub mod Program
pub mod Setup
pub mod Issuance
pub mod Admin
pub mod Compliance
use solana_stablecoin_amm.Base.{
  ℕ, Bool, true, false, not, Option, none, some, List, [], ◌∷◌, leb, ◌==◌, if◌then◌else◌, Result,
  ok, err, ◌>>=◌, ◌>>◌, guard, ok_or, checked_sub,
}
use solana_stablecoin_amm.Chain.{
  Pubkey, Mint, Ledger, Seed, text, key, bump, Runtime, Failure, custom, anchor, unreadable, invoke,
  constraint_has_one, constraint_seeds, is_address,
}
use solana_stablecoin_amm.State.{MintConfig}

pub data StablecoinError : Type 0 where
  unsupported_decimals zero_supply_cap supply_cap_too_large invalid_symbol : StablecoinError
  invalid_name invalid_uri math_overflow mint_not_rent_exempt unauthorized : StablecoinError
  zero_amount invalid_authority zero_allowance allowance_exceeded : StablecoinError
  supply_cap_exceeded wallet_not_allowed protocol_paused : StablecoinError
  counter_invariant_violation token_account_mint_mismatch policy_state_mismatch : StablecoinError
  pause_state_drift pause_state_unchanged supply_cap_below_supply no_config_change : StablecoinError
  invalid_pending_admin no_pending_admin mint_account_in_use : StablecoinError

abbrev pub Checked : Type 0
Checked = Result (Failure StablecoinError) (Unit {0})

-- `require!`
abbrev pub require : Bool → StablecoinError → Checked
require b e = guard b (custom e)

-- `has_one` with no error of its own
abbrev pub has_one : Pubkey → Pubkey → Checked
has_one stored given = guard (stored == given) (anchor constraint_has_one)

abbrev pub config_seed : List ℕ
config_seed = b'c' ∷ b'o' ∷ b'n' ∷ b'f' ∷ b'i' ∷ b'g' ∷ []

abbrev pub minter_seed : List ℕ
minter_seed = b'm' ∷ b'i' ∷ b'n' ∷ b't' ∷ b'e' ∷ b'r' ∷ []

abbrev pub policy_seed : List ℕ
policy_seed = b'p' ∷ b'o' ∷ b'l' ∷ b'i' ∷ b'c' ∷ b'y' ∷ []

unfoldable pub ensure_supply_tracked : MintConfig → ℕ → Checked
ensure_supply_tracked config supply = do
  outstanding ←
      ok_or (checked_sub config.total_minted config.total_burned)
        (custom counter_invariant_violation)
  require (leb supply outstanding) counter_invariant_violation

-- `pausable_is_paused`: the live flag of the extension.
unfoldable pub pausable_is_paused : Ledger → Pubkey → Result (Failure StablecoinError) Bool
pausable_is_paused l mint = elim (l.mints mint) [
  | none ↦ err unreadable
  | some m ↦ elim (m.paused) [ none ↦ err unreadable | some paused ↦ ok paused ]
]

module _ (rt : Runtime) where
  unfoldable pub check_seeds : List Seed → Pubkey → Checked
  check_seeds seeds address =
      guard (is_address (rt.create_program_address seeds rt.stablecoin_id) address)
        (anchor constraint_seeds)

  -- The constraints on `config` where the instruction also names the mint.
  unfoldable pub check_config : Pubkey → Pubkey → MintConfig → Checked
  check_config mint address config = do
    check_seeds (text config_seed ∷ key mint ∷ bump config.bump ∷ []) address
    has_one config.mint mint

  abbrev pub pausable_initialize :
      Pubkey → Pubkey → Ledger → Result (Failure StablecoinError) Ledger
  pausable_initialize mint authority l = invoke (rt.pausable_initialize mint authority l)

  -- `pausable_set`
  unfoldable pub pausable_set :
      Pubkey → Pubkey → Bool → Ledger → Result (Failure StablecoinError) Ledger
  pausable_set mint authority paused l =
      if paused
      then invoke (rt.pausable_pause mint authority l)
      else invoke (rt.pausable_resume mint authority l)
