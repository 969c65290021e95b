-- ===== src/Chain/Supply.antt =====
-- What the calls of the programs do to the supplies of mints. Only minting, burning and initialising
-- a mint touch one, and only that of the mint they name. The system program changes accounts that it
-- owns, and no mint is one.
use solana_stablecoin_amm.Base.{ℕ, ◌≡◌, ◌≢◌, ◌∙◌, Bool, Option, List, ok, refl}
use solana_stablecoin_amm.Chain.{Pubkey, Ledger, Seed, Runtime, supply_at}
use solana_stablecoin_amm.Chain.Preserved.{Preserves}

-- Every supply is as before, or every one but that of one mint.
abbrev pub KeepsSupply : Ledger → Ledger → Type 0
KeepsSupply l l' = (k : Pubkey) → supply_at l' k ≡ supply_at l k

abbrev pub KeepsOthers : Pubkey → Ledger → Ledger → Type 0
KeepsOthers mint l l' = (k : Pubkey) → k ≢ mint → supply_at l' k ≡ supply_at l k

-- The documented effects on supplies of a call that succeeds.
pub record SupplyLaws (rt : Runtime) : Type 0 where
  pub transfers :
      (from mint to authority amount decimals : ℕ) {l l' : Ledger}
      → rt.transfer_checked from mint to authority amount decimals l ≡ ok l'
      → KeepsSupply l l'
  pub issues :
      (mint to authority amount decimals : ℕ) {l l' : Ledger}
      → rt.mint_to_checked mint to authority amount decimals l ≡ ok l'
      → KeepsOthers mint l l'
  pub burns :
      (mint from authority amount decimals : ℕ) {l l' : Ledger}
      → rt.burn_checked mint from authority amount decimals l ≡ ok l'
      → KeepsOthers mint l l'
  pub freezes :
      (account mint authority : ℕ) {l l' : Ledger}
      → rt.freeze_account account mint authority l ≡ ok l'
      → KeepsSupply l l'
  pub thaws :
      (account mint authority : ℕ) {l l' : Ledger}
      → rt.thaw_account account mint authority l ≡ ok l'
      → KeepsSupply l l'
  pub pauses :
      (mint authority : ℕ) {l l' : Ledger}
      → rt.pausable_pause mint authority l ≡ ok l'
      → KeepsSupply l l'
  pub resumes :
      (mint authority : ℕ) {l l' : Ledger}
      → rt.pausable_resume mint authority l ≡ ok l'
      → KeepsSupply l l'
  pub creates :
      (from to lamports space owner : ℕ) (seeds : List Seed) {l l' : Ledger}
      → rt.create_account from to lamports space owner seeds l ≡ ok l'
      → KeepsSupply l l'
  pub funds :
      (from to lamports : ℕ) {l l' : Ledger}
      → rt.transfer_lamports from to lamports l ≡ ok l'
      → KeepsSupply l l'
  pub allocates :
      (account space : ℕ) (seeds : List Seed) {l l' : Ledger}
      → rt.allocate account space seeds l ≡ ok l'
      → KeepsSupply l l'
  pub assigns :
      (account owner : ℕ) (seeds : List Seed) {l l' : Ledger}
      → rt.assign account owner seeds l ≡ ok l'
      → KeepsSupply l l'
  pub opens :
      (account mint authority : ℕ) {l l' : Ledger}
      → rt.initialize_account3 account mint authority l ≡ ok l'
      → KeepsSupply l l'
  pub starts :
      (mint decimals authority : ℕ) (freeze : Option Pubkey) {l l' : Ledger}
      → rt.initialize_mint2 mint decimals authority freeze l ≡ ok l'
      → (supply_at l' mint ≡ 0) × KeepsOthers mint l l'
  pub makes_pausable :
      (mint authority : ℕ) {l l' : Ledger}
      → rt.pausable_initialize mint authority l ≡ ok l'
      → KeepsSupply l l'
  pub sets_state :
      (mint : ℕ) (frozen : Bool) {l l' : Ledger}
      → rt.default_account_state_initialize mint frozen l ≡ ok l'
      → KeepsSupply l l'
  pub points :
      (mint : ℕ) (authority metadata : Option Pubkey) {l l' : Ledger}
      → rt.metadata_pointer_initialize mint authority metadata l ≡ ok l'
      → KeepsSupply l l'
  pub describes :
      (mint update_authority mint_authority : ℕ) (name symbol uri : List ℕ) {l l' : Ledger}
      → rt.token_metadata_initialize mint update_authority mint_authority name symbol uri l ≡ ok l'
      → KeepsSupply l l'

-- The supply of any mint but the one that is minted, burned or initialised.
pub supply-Preserves :
    (rt : Runtime) (k : Pubkey)
    → SupplyLaws rt
    → Preserves rt (λ l l'. supply_at l' k ≡ supply_at l k) (λ mint. k ≢ mint) (λ account. Unit)
supply-Preserves rt k laws = record {
  same = λ l. refl;
  both = λ first second. second ∙ first;
  transfers = λ from mint to authority amount decimals h _.
      laws.transfers from mint to authority amount decimals h k;
  issues = λ mint to authority amount decimals h ne.
      laws.issues mint to authority amount decimals h k ne;
  burns = λ mint from authority amount decimals h ne _.
      laws.burns mint from authority amount decimals h k ne;
  freezes = λ account mint authority h. laws.freezes account mint authority h k;
  thaws = λ account mint authority h. laws.thaws account mint authority h k;
  pauses = λ mint authority h. laws.pauses mint authority h k;
  resumes = λ mint authority h. laws.resumes mint authority h k;
  creates =
      λ from to lamports space owner seeds h. laws.creates from to lamports space owner seeds h k;
  funds = λ from to lamports h. laws.funds from to lamports h k;
  allocates = λ account space seeds h. laws.allocates account space seeds h k;
  assigns = λ account owner seeds h. laws.assigns account owner seeds h k;
  opens = λ account mint authority h. laws.opens account mint authority h k;
  starts =
      λ mint decimals authority freeze h ne. (laws.starts mint decimals authority freeze h).1 k ne;
  makes_pausable = λ mint authority h. laws.makes_pausable mint authority h k;
  sets_state = λ mint frozen h. laws.sets_state mint frozen h k;
  points = λ mint authority metadata h. laws.points mint authority metadata h k;
  describes = λ mint update_authority mint_authority name symbol uri h.
      laws.describes mint update_authority mint_authority name symbol uri h k;
}
