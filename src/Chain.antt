-- ===== src/Chain.antt =====
-- What both programs read and write on the chain. The Solana runtime, Anchor, the system program
-- and Token-2022 are not code of the repository: what the programs call of them is the record
-- `Runtime`, a parameter of every handler, and what the programs read of their accounts is the
-- record `Ledger`. A public key is the number with its 32 bytes, most significant first, so that
-- bytewise order is the order of numbers and the default key is 0.
pub mod Addresses
pub mod Laws
pub mod Preserved
pub mod Supply
pub mod Holdings
pub mod Authorities
pub mod System
use solana_stablecoin_amm.Base.{
  ℕ, ◌≡◌, Bool, true, false, Option, none, some, List, [], ◌∷◌, if◌then◌else◌, ◌==◌, Result, ok,
  err, map_err,
}

abbrev pub Pubkey : Type 0
Pubkey = ℕ

pub data ExtensionType : Type 0 where
  default_account_state pausable metadata_pointer token_metadata : ExtensionType
  other_extension : ℕ → ExtensionType

-- A token account owned by Token-2022, as `TokenAccount` and `AccountState` show it.
pub record TokenAccount : Type 0 where
  pub mint : Pubkey
  pub owner : Pubkey
  pub amount : ℕ
  pub is_frozen : Bool

-- A mint owned by Token-2022; `paused` is its `PausableConfig`, if it has that extension.
pub record Mint : Type 0 where
  pub supply : ℕ
  pub decimals : ℕ
  pub mint_authority : Option Pubkey
  pub freeze_authority : Option Pubkey
  pub paused : Option Bool
  pub extensions : List ExtensionType

-- What the system program keeps of any address; one that was never used has no lamports.
pub record AccountInfo : Type 0 where
  pub lamports : ℕ
  pub owner : Pubkey
  pub data_len : ℕ

pub record Ledger : Type 0 where
  pub infos : Pubkey → AccountInfo
  pub accounts : Pubkey → Option TokenAccount
  pub mints : Pubkey → Option Mint

pub data Seed : Type 0 where
  text : List ℕ → Seed
  key : Pubkey → Seed
  bump : ℕ → Seed

-- The operations that the programs call. An error of a call is its code.
pub record Runtime : Type 0 where
  pub amm_id : Pubkey
  pub stablecoin_id : Pubkey
  pub create_program_address : List Seed → Pubkey → Option Pubkey
  pub find_program_address : List Seed → Pubkey → Option (Pubkey × ℕ)
  pub unix_timestamp : ℕ
  pub transfer_checked :
      (from mint to authority : Pubkey) (amount decimals : ℕ) → Ledger → Result ℕ Ledger
  pub mint_to_checked :
      (mint to authority : Pubkey) (amount decimals : ℕ) → Ledger → Result ℕ Ledger
  pub burn_checked : (mint from authority : Pubkey) (amount decimals : ℕ) → Ledger → Result ℕ Ledger
  pub freeze_account : (account mint authority : Pubkey) → Ledger → Result ℕ Ledger
  pub thaw_account : (account mint authority : Pubkey) → Ledger → Result ℕ Ledger
  pub pausable_pause : (mint authority : Pubkey) → Ledger → Result ℕ Ledger
  pub pausable_resume : (mint authority : Pubkey) → Ledger → Result ℕ Ledger
  pub system_id : Pubkey
  pub token_id : Pubkey
  pub minimum_balance : ℕ → ℕ
  pub is_exempt : (lamports data_len : ℕ) → Bool
  pub create_account :
      (from to : Pubkey) (lamports space owner : ℕ) → List Seed → Ledger → Result ℕ Ledger
  pub transfer_lamports : (from to : Pubkey) (lamports : ℕ) → Ledger → Result ℕ Ledger
  pub allocate : (account : Pubkey) (space : ℕ) → List Seed → Ledger → Result ℕ Ledger
  pub assign : (account owner : Pubkey) → List Seed → Ledger → Result ℕ Ledger
  pub initialize_account3 : (account mint authority : Pubkey) → Ledger → Result ℕ Ledger
  pub initialize_mint2 :
      (mint : Pubkey) (decimals : ℕ) (authority : Pubkey) (freeze_authority : Option Pubkey)
      → Ledger
      → Result ℕ Ledger
  pub pausable_initialize : (mint authority : Pubkey) → Ledger → Result ℕ Ledger
  pub default_account_state_initialize : (mint : Pubkey) (frozen : Bool) → Ledger → Result ℕ Ledger
  pub metadata_pointer_initialize :
      (mint : Pubkey) (authority metadata : Option Pubkey) → Ledger → Result ℕ Ledger
  pub token_metadata_initialize :
      (mint update_authority mint_authority : Pubkey) (name symbol uri : List ℕ)
      → Ledger
      → Result ℕ Ledger
  pub required_init_account_extensions : List ExtensionType → List ExtensionType
  pub account_len : List ExtensionType → Result ℕ ℕ
  pub mint_len : List ExtensionType → Result ℕ ℕ
  pub optional_non_zero : Pubkey → Result ℕ (Unit {0})
  pub metadata_len : (name symbol uri : List ℕ) → Result ℕ ℕ

-- The errors of Anchor's account validation that the programs' constraints can give.
pub data AnchorError : Type 0 where
  account_not_initialized account_already_in_use : AnchorError
  constraint_has_one constraint_seeds : AnchorError

-- How an instruction fails: by an error of the program, of Anchor, of a call, or by a `ProgramError`
-- of reading an account's bytes. A failed instruction leaves the chain as it was.
pub data Failure (E : Type 0) : Type 0 where
  custom : E → Failure E
  anchor : AnchorError → Failure E
  cpi : ℕ → Failure E
  unreadable : Failure E

-- `?` on a call of another program
abbrev pub invoke : {E A : Type 0} → Result ℕ A → Result (Failure E) A
invoke r = map_err cpi r

-- Anchor's deserialisation of an account
abbrev pub load : {E A : Type 0} → Option A → Result (Failure E) A
load none = err (anchor account_not_initialized)
load (some a) = ok a

abbrev pub amount_at : Ledger → Pubkey → ℕ
amount_at l k = elim (l.accounts k) [ none ↦ 0 | some a ↦ a.amount ]

abbrev pub supply_at : Ledger → Pubkey → ℕ
supply_at l k = elim (l.mints k) [ none ↦ 0 | some m ↦ m.supply ]

-- The data that a program stores by account address, and a write to it.
abbrev pub update {ℓ} : {A : Type ℓ} → (Pubkey → Option A) → Pubkey → Option A → Pubkey → Option A
update f k v j = if j == k then v else f j

-- `seeds = […], bump = …`: whether the seeds lead to the address.
abbrev pub is_address : Option Pubkey → Pubkey → Bool
is_address none k = false
is_address (some p) k = p == k

abbrev pub is_some {ℓ} : {A : Type ℓ} → Option A → Bool
is_some none = false
is_some (some _) = true
