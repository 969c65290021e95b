-- ===== src/Tests/Holdings.antt =====
-- The token accounts of the small Token-2022 of the runs.
use solana_stablecoin_amm.Base.{ℕ, ◌≡◌, ◌≢◌, arith, Bool, Option, List, Result, some, ok}
use solana_stablecoin_amm.Chain.{Pubkey, Ledger, Seed}
use solana_stablecoin_amm.Chain.Preserved.{Preserves}
use solana_stablecoin_amm.Chain.Holdings.{title, KeepsTitle, NotLowered, HoldingLaws}
use solana_stablecoin_amm.Tests.System.{
  create_account, transfer_lamports, allocate, assign, initialize_account3, initialize_mint2,
}
use solana_stablecoin_amm.Tests.Token.{rt, transfer, mint_to, burn, set_frozen, set_paused}

module _ (k : Pubkey) where
  transfer-KeepsTitle :
      (from mint to authority amount decimals : ℕ) (l : Ledger) {l' : Ledger}
      → transfer from mint to authority amount decimals l ≡ ok l'
      → KeepsTitle k l l'
  unfolding transfer
  transfer-KeepsTitle from mint to authority amount decimals l h m o held = ground arith

  transfer-NotLowered :
      (from mint to authority amount decimals : ℕ) (l : Ledger) {l' : Ledger}
      → transfer from mint to authority amount decimals l ≡ ok l'
      → k ≢ from
      → NotLowered k l l'
  unfolding transfer
  transfer-NotLowered from mint to authority amount decimals l h ne = ground arith

  mint_to-KeepsTitle :
      (mint to authority amount decimals : ℕ) (l : Ledger) {l' : Ledger}
      → mint_to mint to authority amount decimals l ≡ ok l'
      → KeepsTitle k l l'
  unfolding mint_to
  mint_to-KeepsTitle mint to authority amount decimals l h m o held = ground arith

  mint_to-NotLowered :
      (mint to authority amount decimals : ℕ) (l : Ledger) {l' : Ledger}
      → mint_to mint to authority amount decimals l ≡ ok l'
      → NotLowered k l l'
  unfolding mint_to
  mint_to-NotLowered mint to authority amount decimals l h = ground arith

  burn-KeepsTitle :
      (mint from authority amount decimals : ℕ) (l : Ledger) {l' : Ledger}
      → burn mint from authority amount decimals l ≡ ok l'
      → KeepsTitle k l l'
  unfolding burn
  burn-KeepsTitle mint from authority amount decimals l h m o held = ground arith

  burn-NotLowered :
      (mint from authority amount decimals : ℕ) (l : Ledger) {l' : Ledger}
      → burn mint from authority amount decimals l ≡ ok l'
      → k ≢ from
      → NotLowered k l l'
  unfolding burn
  burn-NotLowered mint from authority amount decimals l h ne = ground arith

  set_frozen-KeepsTitle :
      (frozen : Bool) (account mint authority : ℕ) (l : Ledger) {l' : Ledger}
      → set_frozen frozen account mint authority l ≡ ok l'
      → KeepsTitle k l l'
  unfolding set_frozen
  set_frozen-KeepsTitle frozen account mint authority l h m o held = ground arith

  set_frozen-NotLowered :
      (frozen : Bool) (account mint authority : ℕ) (l : Ledger) {l' : Ledger}
      → set_frozen frozen account mint authority l ≡ ok l'
      → NotLowered k l l'
  unfolding set_frozen
  set_frozen-NotLowered frozen account mint authority l h = ground arith

  set_paused-KeepsTitle :
      (paused : Bool) (mint authority : ℕ) (l : Ledger) {l' : Ledger}
      → set_paused paused mint authority l ≡ ok l'
      → KeepsTitle k l l'
  unfolding set_paused
  set_paused-KeepsTitle paused mint authority l h m o held = ground arith

  set_paused-NotLowered :
      (paused : Bool) (mint authority : ℕ) (l : Ledger) {l' : Ledger}
      → set_paused paused mint authority l ≡ ok l'
      → NotLowered k l l'
  unfolding set_paused
  set_paused-NotLowered paused mint authority l h = ground arith

  create_account-KeepsTitle :
      (from to lamports space owner : ℕ) (seeds : List Seed) (l : Ledger) {l' : Ledger}
      → create_account from to lamports space owner seeds l ≡ ok l'
      → KeepsTitle k l l'
  unfolding create_account
  create_account-KeepsTitle from to lamports space owner seeds l h m o held = ground arith

  create_account-NotLowered :
      (from to lamports space owner : ℕ) (seeds : List Seed) (l : Ledger) {l' : Ledger}
      → create_account from to lamports space owner seeds l ≡ ok l'
      → NotLowered k l l'
  unfolding create_account
  create_account-NotLowered from to lamports space owner seeds l h = ground arith

  transfer_lamports-KeepsTitle :
      (from to lamports : ℕ) (l : Ledger) {l' : Ledger}
      → transfer_lamports from to lamports l ≡ ok l'
      → KeepsTitle k l l'
  unfolding transfer_lamports
  transfer_lamports-KeepsTitle from to lamports l h m o held = ground arith

  transfer_lamports-NotLowered :
      (from to lamports : ℕ) (l : Ledger) {l' : Ledger}
      → transfer_lamports from to lamports l ≡ ok l'
      → NotLowered k l l'
  unfolding transfer_lamports
  transfer_lamports-NotLowered from to lamports l h = ground arith

  allocate-KeepsTitle :
      (account space : ℕ) (seeds : List Seed) (l : Ledger) {l' : Ledger}
      → allocate account space seeds l ≡ ok l'
      → KeepsTitle k l l'
  unfolding allocate
  allocate-KeepsTitle account space seeds l h m o held = ground arith

  allocate-NotLowered :
      (account space : ℕ) (seeds : List Seed) (l : Ledger) {l' : Ledger}
      → allocate account space seeds l ≡ ok l'
      → NotLowered k l l'
  unfolding allocate
  allocate-NotLowered account space seeds l h = ground arith

  assign-KeepsTitle :
      (account owner : ℕ) (seeds : List Seed) (l : Ledger) {l' : Ledger}
      → assign account owner seeds l ≡ ok l'
      → KeepsTitle k l l'
  unfolding assign
  assign-KeepsTitle account owner seeds l h m o held = ground arith

  assign-NotLowered :
      (account owner : ℕ) (seeds : List Seed) (l : Ledger) {l' : Ledger}
      → assign account owner seeds l ≡ ok l'
      → NotLowered k l l'
  unfolding assign
  assign-NotLowered account owner seeds l h = ground arith

  initialize_account3-KeepsTitle :
      (account mint authority : ℕ) (l : Ledger) {l' : Ledger}
      → initialize_account3 account mint authority l ≡ ok l'
      → KeepsTitle k l l'
  unfolding initialize_account3
  initialize_account3-KeepsTitle account mint authority l h m o held = ground arith

  initialize_account3-NotLowered :
      (account mint authority : ℕ) (l : Ledger) {l' : Ledger}
      → initialize_account3 account mint authority l ≡ ok l'
      → NotLowered k l l'
  unfolding initialize_account3
  initialize_account3-NotLowered account mint authority l h = ground arith

  initialize_mint2-KeepsTitle :
      (mint decimals authority : ℕ) (freeze : Option Pubkey) (l : Ledger) {l' : Ledger}
      → initialize_mint2 mint decimals authority freeze l ≡ ok l'
      → KeepsTitle k l l'
  unfolding initialize_mint2
  initialize_mint2-KeepsTitle mint decimals authority freeze l h m o held = ground arith

  initialize_mint2-NotLowered :
      (mint decimals authority : ℕ) (freeze : Option Pubkey) (l : Ledger) {l' : Ledger}
      → initialize_mint2 mint decimals authority freeze l ≡ ok l'
      → NotLowered k l l'
  unfolding initialize_mint2
  initialize_mint2-NotLowered mint decimals authority freeze l h = ground arith

  abbrev accepted : Ledger → Result ℕ Ledger
  accepted l = ok l

  same-KeepsTitle : (l : Ledger) {l' : Ledger} → accepted l ≡ ok l' → KeepsTitle k l l'
  same-KeepsTitle l h m o held = ground arith

  same-NotLowered : (l : Ledger) {l' : Ledger} → accepted l ≡ ok l' → NotLowered k l l'
  same-NotLowered l h = ground arith

  titles : Preserves rt (KeepsTitle k) (λ mint. Unit) (λ account. Unit)
  titles = record {
    same = λ l m o held. held;
    both = λ first second m o held. second m o (first m o held);
    transfers = λ from mint to authority amount decimals {l} h _.
        transfer-KeepsTitle from mint to authority amount decimals l h;
    issues = λ mint to authority amount decimals {l} h _.
        mint_to-KeepsTitle mint to authority amount decimals l h;
    burns = λ mint from authority amount decimals {l} h _ _.
        burn-KeepsTitle mint from authority amount decimals l h;
    freezes = λ account mint authority {l} h. set_frozen-KeepsTitle _ account mint authority l h;
    thaws = λ account mint authority {l} h. set_frozen-KeepsTitle _ account mint authority l h;
    pauses = λ mint authority {l} h. set_paused-KeepsTitle _ mint authority l h;
    resumes = λ mint authority {l} h. set_paused-KeepsTitle _ mint authority l h;
    creates = λ from to lamports space owner seeds {l} h.
        create_account-KeepsTitle from to lamports space owner seeds l h;
    funds = λ from to lamports {l} h. transfer_lamports-KeepsTitle from to lamports l h;
    allocates = λ account space seeds {l} h. allocate-KeepsTitle account space seeds l h;
    assigns = λ account owner seeds {l} h. assign-KeepsTitle account owner seeds l h;
    opens =
        λ account mint authority {l} h. initialize_account3-KeepsTitle account mint authority l h;
    starts = λ mint decimals authority freeze {l} h _.
        initialize_mint2-KeepsTitle mint decimals authority freeze l h;
    makes_pausable = λ mint authority {l} h. same-KeepsTitle l h;
    sets_state = λ mint frozen {l} h. same-KeepsTitle l h;
    points = λ mint authority metadata {l} h. same-KeepsTitle l h;
    describes = λ mint update_authority mint_authority name symbol uri {l} h. same-KeepsTitle l h;
  }

  amounts : Preserves rt (NotLowered k) (λ mint. Unit) (λ account. k ≢ account)
  amounts = record {
    same = λ l. ground arith;
    both = λ first second. omega (arith, first, second);
    transfers = λ from mint to authority amount decimals {l} h ne.
        transfer-NotLowered from mint to authority amount decimals l h ne;
    issues = λ mint to authority amount decimals {l} h _.
        mint_to-NotLowered mint to authority amount decimals l h;
    burns = λ mint from authority amount decimals {l} h _ ne.
        burn-NotLowered mint from authority amount decimals l h ne;
    freezes = λ account mint authority {l} h. set_frozen-NotLowered _ account mint authority l h;
    thaws = λ account mint authority {l} h. set_frozen-NotLowered _ account mint authority l h;
    pauses = λ mint authority {l} h. set_paused-NotLowered _ mint authority l h;
    resumes = λ mint authority {l} h. set_paused-NotLowered _ mint authority l h;
    creates = λ from to lamports space owner seeds {l} h.
        create_account-NotLowered from to lamports space owner seeds l h;
    funds = λ from to lamports {l} h. transfer_lamports-NotLowered from to lamports l h;
    allocates = λ account space seeds {l} h. allocate-NotLowered account space seeds l h;
    assigns = λ account owner seeds {l} h. assign-NotLowered account owner seeds l h;
    opens =
        λ account mint authority {l} h. initialize_account3-NotLowered account mint authority l h;
    starts = λ mint decimals authority freeze {l} h _.
        initialize_mint2-NotLowered mint decimals authority freeze l h;
    makes_pausable = λ mint authority {l} h. same-NotLowered l h;
    sets_state = λ mint frozen {l} h. same-NotLowered l h;
    points = λ mint authority metadata {l} h. same-NotLowered l h;
    describes = λ mint update_authority mint_authority name symbol uri {l} h. same-NotLowered l h;
  }

initialize_account3-opened :
    (account mint authority : ℕ) (l : Ledger) {l' : Ledger}
    → initialize_account3 account mint authority l ≡ ok l'
    → title (l'.accounts account) ≡ some (mint, authority)
unfolding initialize_account3
initialize_account3-opened account mint authority l h = ground arith

pub holdings : HoldingLaws rt
holdings = record {
  titles = titles;
  amounts = amounts;
  opened = λ account mint authority {l} h. initialize_account3-opened account mint authority l h;
}
