-- ===== src/Chain/Holdings.antt =====
-- What the calls of the programs do to token accounts: who holds them, and what they hold.
use solana_stablecoin_amm.Base.{ℕ, ◌≡◌, ◌≢◌, ◌≤◌, Option, some, none, ok, arith}
use solana_stablecoin_amm.Chain.{Pubkey, TokenAccount, Ledger, Runtime, amount_at}
use solana_stablecoin_amm.Chain.Preserved.{Preserves}

-- The mint and the owner of an account.
abbrev pub title : Option TokenAccount → Option (Pubkey × Pubkey)
title none = none
title (some t) = some (t.mint, t.owner)

abbrev pub KeepsTitle : Pubkey → Ledger → Ledger → Type 0
KeepsTitle k l l' =
    (mint owner : Pubkey)
    → title (l.accounts k) ≡ some (mint, owner)
    → title (l'.accounts k) ≡ some (mint, owner)

abbrev pub NotLowered : Pubkey → Ledger → Ledger → Type 0
NotLowered k l l' = amount_at l k ≤ amount_at l' k

-- The documented effects of a call that succeeds. None gives an account that is in use another mint or
-- owner, initialising one included, which is refused for an account in use; and only a transfer out
-- of an account or a burn from it lowers what it holds. An initialised account is for the mint and
-- the owner that were given.
pub record HoldingLaws (rt : Runtime) : Type 0 where
  pub titles : (k : Pubkey) → Preserves rt (KeepsTitle k) (λ mint. Unit) (λ account. Unit)
  pub amounts : (k : Pubkey) → Preserves rt (NotLowered k) (λ mint. Unit) (λ account. k ≢ account)
  pub opened :
      (account mint authority : ℕ) {l l' : Ledger}
      → rt.initialize_account3 account mint authority l ≡ ok l'
      → title (l'.accounts account) ≡ some (mint, authority)

abbrev pub IsOwnedBy : Ledger → Pubkey → Pubkey → Type 0
IsOwnedBy l owner k = (t : TokenAccount) × (l.accounts k ≡ some t) × (t.owner ≡ owner)

pub apart_of_owners :
    (l : Ledger) (j k mint owner other : Pubkey)
    → title (l.accounts j) ≡ some (mint, owner)
    → IsOwnedBy l other k
    → owner ≢ other
    → j ≢ k
apart_of_owners l j k mint owner other held (t, stored, owned) ne same =
    let here : title (l.accounts k) ≡ some (mint, owner) = rw same at held in ne (ground arith)
