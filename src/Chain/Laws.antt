-- ===== src/Chain/Laws.antt =====
-- What the programs rely on of Token-2022: the documented effect of a call that succeeds. Nothing
-- is assumed of when a call succeeds.
use solana_stablecoin_amm.Base.{
  ℕ, ◌+◌, ◌≡◌, ◌≢◌, Bool, Option, some, none, ok, arith, Option-cases, inl, inr,
}
use solana_stablecoin_amm.Chain.{Pubkey, TokenAccount, Mint, Ledger, Runtime, amount_at, update}

-- The fields of a token account that a call of the programs, other than freezing and thawing,
-- does not change.
abbrev pub identity : Option TokenAccount → Option (Pubkey × Pubkey × Bool)
identity none = none
identity (some a) = some (a.mint, a.owner, a.is_frozen)

pub record TransferLaws (rt : Runtime) : Type 0 where
  pub moves :
      (from mint to authority amount decimals : ℕ) {l l' : Ledger}
      → rt.transfer_checked from mint to authority amount decimals l ≡ ok l'
      → from ≢ to
      → (amount_at l' from + amount ≡ amount_at l from)
        × (amount_at l' to ≡ amount_at l to + amount)
  pub others :
      (from mint to authority amount decimals : ℕ) {l l' : Ledger}
      → rt.transfer_checked from mint to authority amount decimals l ≡ ok l'
      → (k : Pubkey) → k ≢ from
      → k ≢ to
      → amount_at l' k ≡ amount_at l k
  pub identities :
      (from mint to authority amount decimals : ℕ) {l l' : Ledger}
      → rt.transfer_checked from mint to authority amount decimals l ≡ ok l'
      → (k : Pubkey) → identity (l'.accounts k) ≡ identity (l.accounts k)
  pub mints :
      (from mint to authority amount decimals : ℕ) {l l' : Ledger}
      → rt.transfer_checked from mint to authority amount decimals l ≡ ok l'
      → (k : Pubkey) → l'.mints k ≡ l.mints k

-- Minting to an account and burning from one.
pub record IssueLaws (rt : Runtime) : Type 0 where
  pub issues :
      (mint to authority amount decimals : ℕ) {l l' : Ledger}
      → rt.mint_to_checked mint to authority amount decimals l ≡ ok l'
      → amount_at l' to ≡ amount_at l to + amount
  pub issue_others :
      (mint to authority amount decimals : ℕ) {l l' : Ledger}
      → rt.mint_to_checked mint to authority amount decimals l ≡ ok l'
      → (k : Pubkey) → k ≢ to
      → amount_at l' k ≡ amount_at l k
  pub burns :
      (mint from authority amount decimals : ℕ) {l l' : Ledger}
      → rt.burn_checked mint from authority amount decimals l ≡ ok l'
      → amount_at l' from + amount ≡ amount_at l from
  pub burn_others :
      (mint from authority amount decimals : ℕ) {l l' : Ledger}
      → rt.burn_checked mint from authority amount decimals l ≡ ok l'
      → (k : Pubkey) → k ≢ from
      → amount_at l' k ≡ amount_at l k
  pub issue_identities :
      (mint to authority amount decimals : ℕ) {l l' : Ledger}
      → rt.mint_to_checked mint to authority amount decimals l ≡ ok l'
      → (k : Pubkey) → identity (l'.accounts k) ≡ identity (l.accounts k)
  pub burn_identities :
      (mint from authority amount decimals : ℕ) {l l' : Ledger}
      → rt.burn_checked mint from authority amount decimals l ≡ ok l'
      → (k : Pubkey) → identity (l'.accounts k) ≡ identity (l.accounts k)
  pub issue_supply :
      (mint to authority amount decimals : ℕ) {l l' : Ledger} {m : Mint}
      → rt.mint_to_checked mint to authority amount decimals l ≡ ok l'
      → l.mints mint ≡ some m
      → (m' : Mint) × (l'.mints mint ≡ some m') × (m'.supply ≡ m.supply + amount)
  pub burn_supply :
      (mint from authority amount decimals : ℕ) {l l' : Ledger} {m : Mint}
      → rt.burn_checked mint from authority amount decimals l ≡ ok l'
      → l.mints mint ≡ some m
      → (m' : Mint) × (l'.mints mint ≡ some m') × (m'.supply + amount ≡ m.supply)

-- A call that keeps the identity of an account keeps the account.
pub still_there :
    (l l' : Ledger) (k : Pubkey) {t : TokenAccount}
    → identity (l'.accounts k) ≡ identity (l.accounts k)
    → l.accounts k ≡ some t
    → (t' : TokenAccount) × (l'.accounts k ≡ some t')
still_there l l' k {t} same e = elim (Option-cases (l'.accounts k)) [
  | inl gone ↦ absurd (ground arith)
  | inr found ↦ found
]

pub written :
    {A : Type 0} (f : Pubkey → Option A) (k : Pubkey) (v : A) → update f k (some v) k ≡ some v
written f k v = ground arith

pub unwritten :
    {A : Type 0} (f : Pubkey → Option A) (k : Pubkey) (v : Option A) (j : Pubkey)
    → j ≢ k
    → update f k v j ≡ f j
unwritten f k v j ne = ground arith
