-- ===== src/Chain/Preserved.antt =====
-- What every call of the programs preserves. A relation between the ledgers before and after a call
-- may hold of minting, of burning and of initialising a mint only for some mints, and of taking
-- tokens out of an account only for some accounts; of the other calls it holds always.
use solana_stablecoin_amm.Base.{
  ℕ, ◌≡◌, Bool, Option, List, ltb, ok, inl, inr, Bool-cases, map_err-ok, arith,
}
use solana_stablecoin_amm.Chain.{Pubkey, Ledger, Seed, Runtime}
use solana_stablecoin_amm.Chain.System.{fund, provision}
use solana_stablecoin_amm.Chain.System.Stages.{top_up-stages, provision-stages}

pub record Preserves (rt : Runtime) (R : Ledger → Ledger → Type 0)
    (minting spending : Pubkey → Type 0) : Type 0 where
  pub same : (l : Ledger) → R l l
  pub both : {l m n : Ledger} → R l m → R m n → R l n
  pub transfers :
      (from mint to authority amount decimals : ℕ) {l l' : Ledger}
      → rt.transfer_checked from mint to authority amount decimals l ≡ ok l'
      → spending from
      → R l l'
  pub issues :
      (mint to authority amount decimals : ℕ) {l l' : Ledger}
      → rt.mint_to_checked mint to authority amount decimals l ≡ ok l'
      → minting mint
      → R l l'
  pub burns :
      (mint from authority amount decimals : ℕ) {l l' : Ledger}
      → rt.burn_checked mint from authority amount decimals l ≡ ok l'
      → minting mint
      → spending from
      → R l l'
  pub freezes :
      (account mint authority : ℕ) {l l' : Ledger}
      → rt.freeze_account account mint authority l ≡ ok l'
      → R l l'
  pub thaws :
      (account mint authority : ℕ) {l l' : Ledger}
      → rt.thaw_account account mint authority l ≡ ok l'
      → R l l'
  pub pauses :
      (mint authority : ℕ) {l l' : Ledger} → rt.pausable_pause mint authority l ≡ ok l' → R l l'
  pub resumes :
      (mint authority : ℕ) {l l' : Ledger} → rt.pausable_resume mint authority l ≡ ok l' → R l l'
  pub creates :
      (from to lamports space owner : ℕ) (seeds : List Seed) {l l' : Ledger}
      → rt.create_account from to lamports space owner seeds l ≡ ok l'
      → R l l'
  pub funds :
      (from to lamports : ℕ) {l l' : Ledger}
      → rt.transfer_lamports from to lamports l ≡ ok l'
      → R l l'
  pub allocates :
      (account space : ℕ) (seeds : List Seed) {l l' : Ledger}
      → rt.allocate account space seeds l ≡ ok l'
      → R l l'
  pub assigns :
      (account owner : ℕ) (seeds : List Seed) {l l' : Ledger}
      → rt.assign account owner seeds l ≡ ok l'
      → R l l'
  pub opens :
      (account mint authority : ℕ) {l l' : Ledger}
      → rt.initialize_account3 account mint authority l ≡ ok l'
      → R l l'
  pub starts :
      (mint decimals authority : ℕ) (freeze : Option Pubkey) {l l' : Ledger}
      → rt.initialize_mint2 mint decimals authority freeze l ≡ ok l'
      → minting mint
      → R l l'
  pub makes_pausable :
      (mint authority : ℕ) {l l' : Ledger}
      → rt.pausable_initialize mint authority l ≡ ok l'
      → R l l'
  pub sets_state :
      (mint : ℕ) (frozen : Bool) {l l' : Ledger}
      → rt.default_account_state_initialize mint frozen l ≡ ok l'
      → R l l'
  pub points :
      (mint : ℕ) (authority metadata : Option Pubkey) {l l' : Ledger}
      → rt.metadata_pointer_initialize mint authority metadata l ≡ ok l'
      → R l l'
  pub describes :
      (mint update_authority mint_authority : ℕ) (name symbol uri : List ℕ) {l l' : Ledger}
      → rt.token_metadata_initialize mint update_authority mint_authority name symbol uri l ≡ ok l'
      → R l l'

module _ {E : Type 0} (rt : Runtime) {R : Ledger → Ledger → Type 0}
    {minting spending : Pubkey → Type 0} (p : Preserves rt R minting spending) where
  fund-Preserves :
      (payer target deficit : ℕ) (l : Ledger) {l' : Ledger}
      → fund {E = E} rt payer target deficit l ≡ ok l'
      → R l l'
  unfolding fund
  fund-Preserves payer target deficit l {l'} h = elim (Bool-cases (ltb 0 deficit)) [
    | inl some_missing ↦ p.funds _ _ _ (map_err-ok _ _ (rw some_missing at h))
    | inr none_missing ↦
        let unchanged : l ≡ l' = (let e = rw none_missing at h in ground arith) in
        rw (← unchanged) (p.same l)
  ]

  pub provision-Preserves :
      (overflow in_use : E) (payer target owner rent_exempt space : ℕ) (seeds : List Seed)
      (l : Ledger) {l' : Ledger}
      → provision rt overflow in_use payer target owner rent_exempt space seeds l ≡ ok l'
      → R l l'
  provision-Preserves overflow in_use payer target owner rent_exempt space seeds l h =
      elim (provision-stages rt overflow in_use payer target owner rent_exempt space seeds l h) [
        | inl created ↦ p.creates _ _ _ _ _ _ created
        | inr topped ↦
            let (funded, allocated, paid, room, owned) =
              top_up-stages rt overflow in_use payer target owner rent_exempt space seeds l
                topped in
            p.both (p.both (fund-Preserves payer target _ l paid) (p.allocates _ _ _ room))
              (p.assigns _ _ _ owned)
      ]
