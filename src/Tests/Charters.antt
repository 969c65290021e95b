-- ===== src/Tests/Charters.antt =====
-- The mints of the small Token-2022 of the runs.
use solana_stablecoin_amm.Base.{ℕ, ◌≡◌, ◌≢◌, arith, Bool, Option, List, Result, some, ok}
use solana_stablecoin_amm.Chain.{Pubkey, Ledger, Seed}
use solana_stablecoin_amm.Chain.Preserved.{Preserves}
use solana_stablecoin_amm.Chain.Authorities.{charter, KeepsCharter, AuthorityLaws}
use solana_stablecoin_amm.Tests.System.{
  create_account, transfer_lamports, allocate, assign, initialize_account3, initialize_mint2,
}
use solana_stablecoin_amm.Tests.Token.{rt, transfer, mint_to, burn, set_frozen, set_paused}

module _ (k : Pubkey) where
  transfer-KeepsCharter :
      (from mint to authority amount decimals : ℕ) (l : Ledger) {l' : Ledger}
      → transfer from mint to authority amount decimals l ≡ ok l'
      → KeepsCharter k l l'
  unfolding transfer
  transfer-KeepsCharter from mint to authority amount decimals l h v held = ground arith

  mint_to-KeepsCharter :
      (mint to authority amount decimals : ℕ) (l : Ledger) {l' : Ledger}
      → mint_to mint to authority amount decimals l ≡ ok l'
      → KeepsCharter k l l'
  unfolding mint_to
  mint_to-KeepsCharter mint to authority amount decimals l h v held = ground arith

  burn-KeepsCharter :
      (mint from authority amount decimals : ℕ) (l : Ledger) {l' : Ledger}
      → burn mint from authority amount decimals l ≡ ok l'
      → KeepsCharter k l l'
  unfolding burn
  burn-KeepsCharter mint from authority amount decimals l h v held = ground arith

  set_frozen-KeepsCharter :
      (frozen : Bool) (account mint authority : ℕ) (l : Ledger) {l' : Ledger}
      → set_frozen frozen account mint authority l ≡ ok l'
      → KeepsCharter k l l'
  unfolding set_frozen
  set_frozen-KeepsCharter frozen account mint authority l h v held = ground arith

  set_paused-KeepsCharter :
      (paused : Bool) (mint authority : ℕ) (l : Ledger) {l' : Ledger}
      → set_paused paused mint authority l ≡ ok l'
      → KeepsCharter k l l'
  unfolding set_paused
  set_paused-KeepsCharter paused mint authority l h v held = ground arith

  create_account-KeepsCharter :
      (from to lamports space owner : ℕ) (seeds : List Seed) (l : Ledger) {l' : Ledger}
      → create_account from to lamports space owner seeds l ≡ ok l'
      → KeepsCharter k l l'
  unfolding create_account
  create_account-KeepsCharter from to lamports space owner seeds l h v held = ground arith

  transfer_lamports-KeepsCharter :
      (from to lamports : ℕ) (l : Ledger) {l' : Ledger}
      → transfer_lamports from to lamports l ≡ ok l'
      → KeepsCharter k l l'
  unfolding transfer_lamports
  transfer_lamports-KeepsCharter from to lamports l h v held = ground arith

  allocate-KeepsCharter :
      (account space : ℕ) (seeds : List Seed) (l : Ledger) {l' : Ledger}
      → allocate account space seeds l ≡ ok l'
      → KeepsCharter k l l'
  unfolding allocate
  allocate-KeepsCharter account space seeds l h v held = ground arith

  assign-KeepsCharter :
      (account owner : ℕ) (seeds : List Seed) (l : Ledger) {l' : Ledger}
      → assign account owner seeds l ≡ ok l'
      → KeepsCharter k l l'
  unfolding assign
  assign-KeepsCharter account owner seeds l h v held = ground arith

  initialize_account3-KeepsCharter :
      (account mint authority : ℕ) (l : Ledger) {l' : Ledger}
      → initialize_account3 account mint authority l ≡ ok l'
      → KeepsCharter k l l'
  unfolding initialize_account3
  initialize_account3-KeepsCharter account mint authority l h v held = ground arith

  initialize_mint2-KeepsCharter :
      (mint decimals authority : ℕ) (freeze : Option Pubkey) (l : Ledger) {l' : Ledger}
      → initialize_mint2 mint decimals authority freeze l ≡ ok l'
      → k ≢ mint
      → KeepsCharter k l l'
  unfolding initialize_mint2
  initialize_mint2-KeepsCharter mint decimals authority freeze l h ne v held = ground arith

  abbrev accepted : Ledger → Result ℕ Ledger
  accepted l = ok l

  same-KeepsCharter : (l : Ledger) {l' : Ledger} → accepted l ≡ ok l' → KeepsCharter k l l'
  same-KeepsCharter l h v held = ground arith

  charters : Preserves rt (KeepsCharter k) (λ mint. k ≢ mint) (λ account. Unit)
  charters = record {
    same = λ l v held. held;
    both = λ first second v held. second v (first v held);
    transfers = λ from mint to authority amount decimals {l} h _.
        transfer-KeepsCharter from mint to authority amount decimals l h;
    issues = λ mint to authority amount decimals {l} h _.
        mint_to-KeepsCharter mint to authority amount decimals l h;
    burns = λ mint from authority amount decimals {l} h _ _.
        burn-KeepsCharter mint from authority amount decimals l h;
    freezes = λ account mint authority {l} h. set_frozen-KeepsCharter _ account mint authority l h;
    thaws = λ account mint authority {l} h. set_frozen-KeepsCharter _ account mint authority l h;
    pauses = λ mint authority {l} h. set_paused-KeepsCharter _ mint authority l h;
    resumes = λ mint authority {l} h. set_paused-KeepsCharter _ mint authority l h;
    creates = λ from to lamports space owner seeds {l} h.
        create_account-KeepsCharter from to lamports space owner seeds l h;
    funds = λ from to lamports {l} h. transfer_lamports-KeepsCharter from to lamports l h;
    allocates = λ account space seeds {l} h. allocate-KeepsCharter account space seeds l h;
    assigns = λ account owner seeds {l} h. assign-KeepsCharter account owner seeds l h;
    opens =
        λ account mint authority {l} h. initialize_account3-KeepsCharter account mint authority l h;
    starts = λ mint decimals authority freeze {l} h ne.
        initialize_mint2-KeepsCharter mint decimals authority freeze l h ne;
    makes_pausable = λ mint authority {l} h. same-KeepsCharter l h;
    sets_state = λ mint frozen {l} h. same-KeepsCharter l h;
    points = λ mint authority metadata {l} h. same-KeepsCharter l h;
    describes = λ mint update_authority mint_authority name symbol uri {l} h. same-KeepsCharter l h;
  }

initialize_mint2-started :
    (mint decimals authority : ℕ) (freeze : Option Pubkey) (l : Ledger) {l' : Ledger}
    → initialize_mint2 mint decimals authority freeze l ≡ ok l'
    → charter (l'.mints mint) ≡ some (decimals, some authority, freeze)
unfolding initialize_mint2
initialize_mint2-started mint decimals authority freeze l h = ground arith

pub authorities : AuthorityLaws rt
authorities = record {
  kept = charters;
  started = λ mint decimals authority freeze {l} h.
      initialize_mint2-started mint decimals authority freeze l h;
}
