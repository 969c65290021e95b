-- ===== src/Tests/Supplies.antt =====
-- The supplies of the small Token-2022 of the runs.
use solana_stablecoin_amm.Base.{ℕ, ◌≡◌, arith, Bool, Option, List, Result, ok}
use solana_stablecoin_amm.Chain.{Pubkey, Ledger, Seed, supply_at}
use solana_stablecoin_amm.Chain.Supply.{KeepsSupply, KeepsOthers, SupplyLaws}
use solana_stablecoin_amm.Tests.System.{
  create_account, transfer_lamports, allocate, assign, initialize_account3, initialize_mint2,
}
use solana_stablecoin_amm.Tests.Token.{rt, transfer, mint_to, burn, set_frozen, set_paused}

transfer-KeepsSupply :
    (from mint to authority amount decimals : ℕ) (l : Ledger) {l' : Ledger}
    → transfer from mint to authority amount decimals l ≡ ok l'
    → KeepsSupply l l'
unfolding transfer
transfer-KeepsSupply from mint to authority amount decimals l h k = ground arith

mint_to-KeepsOthers :
    (mint to authority amount decimals : ℕ) (l : Ledger) {l' : Ledger}
    → mint_to mint to authority amount decimals l ≡ ok l'
    → KeepsOthers mint l l'
unfolding mint_to
mint_to-KeepsOthers mint to authority amount decimals l h k ne = ground arith

burn-KeepsOthers :
    (mint from authority amount decimals : ℕ) (l : Ledger) {l' : Ledger}
    → burn mint from authority amount decimals l ≡ ok l'
    → KeepsOthers mint l l'
unfolding burn
burn-KeepsOthers mint from authority amount decimals l h k ne = ground arith

set_frozen-KeepsSupply :
    (frozen : Bool) (account mint authority : ℕ) (l : Ledger) {l' : Ledger}
    → set_frozen frozen account mint authority l ≡ ok l'
    → KeepsSupply l l'
unfolding set_frozen
set_frozen-KeepsSupply frozen account mint authority l h k = ground arith

set_paused-KeepsSupply :
    (paused : Bool) (mint authority : ℕ) (l : Ledger) {l' : Ledger}
    → set_paused paused mint authority l ≡ ok l'
    → KeepsSupply l l'
unfolding set_paused
set_paused-KeepsSupply paused mint authority l h k = ground arith

create_account-KeepsSupply :
    (from to lamports space owner : ℕ) (seeds : List Seed) (l : Ledger) {l' : Ledger}
    → create_account from to lamports space owner seeds l ≡ ok l'
    → KeepsSupply l l'
unfolding create_account
create_account-KeepsSupply from to lamports space owner seeds l h k = ground arith

transfer_lamports-KeepsSupply :
    (from to lamports : ℕ) (l : Ledger) {l' : Ledger}
    → transfer_lamports from to lamports l ≡ ok l'
    → KeepsSupply l l'
unfolding transfer_lamports
transfer_lamports-KeepsSupply from to lamports l h k = ground arith

initialize_account3-KeepsSupply :
    (account mint authority : ℕ) (l : Ledger) {l' : Ledger}
    → initialize_account3 account mint authority l ≡ ok l'
    → KeepsSupply l l'
unfolding initialize_account3
initialize_account3-KeepsSupply account mint authority l h k = ground arith

initialize_mint2-KeepsOthers :
    (mint decimals authority : ℕ) (freeze : Option Pubkey) (l : Ledger) {l' : Ledger}
    → initialize_mint2 mint decimals authority freeze l ≡ ok l'
    → KeepsOthers mint l l'
unfolding initialize_mint2
initialize_mint2-KeepsOthers mint decimals authority freeze l h k ne = ground arith

initialize_mint2-starts :
    (mint decimals authority : ℕ) (freeze : Option Pubkey) (l : Ledger) {l' : Ledger}
    → initialize_mint2 mint decimals authority freeze l ≡ ok l'
    → supply_at l' mint ≡ 0
unfolding initialize_mint2
initialize_mint2-starts mint decimals authority freeze l h = ground arith

allocate-KeepsSupply :
    (account space : ℕ) (seeds : List Seed) (l : Ledger) {l' : Ledger}
    → allocate account space seeds l ≡ ok l'
    → KeepsSupply l l'
unfolding allocate
allocate-KeepsSupply account space seeds l h k = ground arith

assign-KeepsSupply :
    (account owner : ℕ) (seeds : List Seed) (l : Ledger) {l' : Ledger}
    → assign account owner seeds l ≡ ok l'
    → KeepsSupply l l'
unfolding assign
assign-KeepsSupply account owner seeds l h k = ground arith

abbrev accepted : Ledger → Result ℕ Ledger
accepted l = ok l

unchanged : (l : Ledger) {l' : Ledger} → accepted l ≡ ok l' → KeepsSupply l l'
unchanged l h k = ground arith

pub supplies : SupplyLaws rt
supplies = record {
  transfers = λ from mint to authority amount decimals {l} h.
      transfer-KeepsSupply from mint to authority amount decimals l h;
  issues = λ mint to authority amount decimals {l} h.
      mint_to-KeepsOthers mint to authority amount decimals l h;
  burns = λ mint from authority amount decimals {l} h.
      burn-KeepsOthers mint from authority amount decimals l h;
  freezes = λ account mint authority {l} h. set_frozen-KeepsSupply _ account mint authority l h;
  thaws = λ account mint authority {l} h. set_frozen-KeepsSupply _ account mint authority l h;
  pauses = λ mint authority {l} h. set_paused-KeepsSupply _ mint authority l h;
  resumes = λ mint authority {l} h. set_paused-KeepsSupply _ mint authority l h;
  creates = λ from to lamports space owner seeds {l} h.
      create_account-KeepsSupply from to lamports space owner seeds l h;
  funds = λ from to lamports {l} h. transfer_lamports-KeepsSupply from to lamports l h;
  allocates = λ account space seeds {l} h. allocate-KeepsSupply account space seeds l h;
  assigns = λ account owner seeds {l} h. assign-KeepsSupply account owner seeds l h;
  opens =
      λ account mint authority {l} h. initialize_account3-KeepsSupply account mint authority l h;
  starts = λ mint decimals authority freeze {l} h. (
    initialize_mint2-starts mint decimals authority freeze l h,
    initialize_mint2-KeepsOthers mint decimals authority freeze l h,
  );
  makes_pausable = λ mint authority {l} h. unchanged l h;
  sets_state = λ mint frozen {l} h. unchanged l h;
  points = λ mint authority metadata {l} h. unchanged l h;
  describes = λ mint update_authority mint_authority name symbol uri {l} h. unchanged l h;
}
