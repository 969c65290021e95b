-- ===== src/Chain/Authorities.antt =====
-- What the calls of the programs do to the decimals and the authorities of mints.
use solana_stablecoin_amm.Base.{ℕ, ◌≡◌, ◌≢◌, Option, some, none, ok}
use solana_stablecoin_amm.Chain.{Pubkey, Mint, Ledger, Runtime}
use solana_stablecoin_amm.Chain.Preserved.{Preserves}

-- The decimals, the mint authority and the freeze authority of a mint.
abbrev pub charter : Option Mint → Option (ℕ × Option Pubkey × Option Pubkey)
charter none = none
charter (some m) = some (m.decimals, m.mint_authority, m.freeze_authority)

abbrev pub KeepsCharter : Pubkey → Ledger → Ledger → Type 0
KeepsCharter k l l' =
    (c : ℕ × Option Pubkey × Option Pubkey)
    → charter (l.mints k) ≡ some c
    → charter (l'.mints k) ≡ some c

-- The documented effects of a call that succeeds. Only initialising a mint gives it decimals and
-- authorities, the given ones.
pub record AuthorityLaws (rt : Runtime) : Type 0 where
  pub kept : (k : Pubkey) → Preserves rt (KeepsCharter k) (λ mint. k ≢ mint) (λ account. Unit)
  pub started :
      (mint decimals authority : ℕ) (freeze : Option Pubkey) {l l' : Ledger}
      → rt.initialize_mint2 mint decimals authority freeze l ≡ ok l'
      → charter (l'.mints mint) ≡ some (decimals, some authority, freeze)
