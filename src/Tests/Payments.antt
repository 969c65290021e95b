-- ===== src/Tests/Payments.antt =====
-- Minting and burning by the small Token-2022 of the runs.
use solana_stablecoin_amm.Base.{ℕ, ◌+◌, ◌-◌, ◌≡◌, ◌≢◌, ◌≤◌, refl, arith, some, ok}
use solana_stablecoin_amm.Chain.{Pubkey, Mint, Ledger, amount_at}
use solana_stablecoin_amm.Chain.Laws.{IssueLaws, identity}
use solana_stablecoin_amm.Amm.Liquidity.Accounts.{IsOfThree}
use solana_stablecoin_amm.Tests.Token.{rt, mint_to, burn}
use solana_stablecoin_amm.Tests.World.{pool}

mint_to-issues :
    (mint to authority amount decimals : ℕ) (l : Ledger) {l' : Ledger}
    → mint_to mint to authority amount decimals l ≡ ok l'
    → amount_at l' to ≡ amount_at l to + amount
unfolding mint_to
mint_to-issues mint to authority amount decimals l h = ground arith

mint_to-others :
    (mint to authority amount decimals : ℕ) (l : Ledger) {l' : Ledger}
    → mint_to mint to authority amount decimals l ≡ ok l'
    → (k : Pubkey) → k ≢ to
    → amount_at l' k ≡ amount_at l k
unfolding mint_to
mint_to-others mint to authority amount decimals l h k ne = ground arith

burn-burns :
    (mint from authority amount decimals : ℕ) (l : Ledger) {l' : Ledger}
    → burn mint from authority amount decimals l ≡ ok l'
    → amount_at l' from + amount ≡ amount_at l from
unfolding burn
burn-burns mint from authority amount decimals l h = ground arith

burn-others :
    (mint from authority amount decimals : ℕ) (l : Ledger) {l' : Ledger}
    → burn mint from authority amount decimals l ≡ ok l'
    → (k : Pubkey) → k ≢ from
    → amount_at l' k ≡ amount_at l k
unfolding burn
burn-others mint from authority amount decimals l h k ne = ground arith

mint_to-identities :
    (mint to authority amount decimals : ℕ) (l : Ledger) {l' : Ledger}
    → mint_to mint to authority amount decimals l ≡ ok l'
    → (k : Pubkey) → identity (l'.accounts k) ≡ identity (l.accounts k)
unfolding mint_to
mint_to-identities mint to authority amount decimals l h k = ground arith

burn-identities :
    (mint from authority amount decimals : ℕ) (l : Ledger) {l' : Ledger}
    → burn mint from authority amount decimals l ≡ ok l'
    → (k : Pubkey) → identity (l'.accounts k) ≡ identity (l.accounts k)
unfolding burn
burn-identities mint from authority amount decimals l h k = ground arith

mint_to-supply :
    (mint to authority amount decimals : ℕ) (l : Ledger) {l' : Ledger} {m : Mint}
    → mint_to mint to authority amount decimals l ≡ ok l'
    → l.mints mint ≡ some m
    → (m' : Mint) × (l'.mints mint ≡ some m') × (m'.supply ≡ m.supply + amount)
unfolding mint_to
mint_to-supply mint to authority amount decimals l {l'} {m} h e =
    (record m { supply = m.supply + amount }, ground arith, refl)

burn-supply :
    (mint from authority amount decimals : ℕ) (l : Ledger) {l' : Ledger} {m : Mint}
    → burn mint from authority amount decimals l ≡ ok l'
    → l.mints mint ≡ some m
    → (m' : Mint) × (l'.mints mint ≡ some m') × (m'.supply + amount ≡ m.supply)
unfolding burn
burn-supply mint from authority amount decimals l {l'} {m} h e =
    let enough : amount ≤ m.supply = ground arith in
    (record m { supply = m.supply - amount }, ground arith, omega (arith, enough))

pub issue : IssueLaws rt
issue = record {
  issues = λ mint to authority amount decimals {l} h.
      mint_to-issues mint to authority amount decimals l h;
  issue_others = λ mint to authority amount decimals {l} h.
      mint_to-others mint to authority amount decimals l h;
  burns = λ mint from authority amount decimals {l} h.
      burn-burns mint from authority amount decimals l h;
  burn_others = λ mint from authority amount decimals {l} h.
      burn-others mint from authority amount decimals l h;
  issue_identities = λ mint to authority amount decimals {l} h.
      mint_to-identities mint to authority amount decimals l h;
  burn_identities = λ mint from authority amount decimals {l} h.
      burn-identities mint from authority amount decimals l h;
  issue_supply = λ mint to authority amount decimals {l} h.
      mint_to-supply mint to authority amount decimals l h;
  burn_supply = λ mint from authority amount decimals {l} h.
      burn-supply mint from authority amount decimals l h;
}

pub pool-IsOfThree : IsOfThree pool
pool-IsOfThree = record { mints = ground arith; lp_a = ground arith; lp_b = ground arith }
