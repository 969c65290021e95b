-- ===== src/Chain/System/Laws.antt =====
-- What the programs rely on of the system program, and the account that `provision` leaves.
use solana_stablecoin_amm.Base.{
  ℕ, ◌+◌, ◌-◌, ◌≡◌, ◌≢◌, ◌≤◌, List, ltb, ok, inl, inr, Bool-cases, map_err-ok, ap, ◌∙◌, arith,
}
use solana_stablecoin_amm.Chain.{AccountInfo, Ledger, Seed, Runtime}
use solana_stablecoin_amm.Chain.System.{fund, top_up, provision}
use solana_stablecoin_amm.Chain.System.Stages.{top_up-stages, provision-stages}

-- The documented effects on the account of a call that succeeds.
pub record SystemLaws (rt : Runtime) : Type 0 where
  pub creates :
      (from to lamports space owner : ℕ) (seeds : List Seed) {l l' : Ledger}
      → rt.create_account from to lamports space owner seeds l ≡ ok l'
      → from ≢ to
      → l'.infos to ≡ record { lamports = lamports; owner = owner; data_len = space }
  pub transfers :
      (from to lamports : ℕ) {l l' : Ledger}
      → rt.transfer_lamports from to lamports l ≡ ok l'
      → from ≢ to
      → l'.infos to ≡ record (l.infos to) { lamports = (l.infos to).lamports + lamports }
  pub allocates :
      (account space : ℕ) (seeds : List Seed) {l l' : Ledger}
      → rt.allocate account space seeds l ≡ ok l'
      → l'.infos account ≡ record (l.infos account) { data_len = space }
  pub assigns :
      (account owner : ℕ) (seeds : List Seed) {l l' : Ledger}
      → rt.assign account owner seeds l ≡ ok l'
      → l'.infos account ≡ record (l.infos account) { owner = owner }

-- An account of a program with its space, that need not pay rent.
pub record IsProvisioned (owner rent_exempt space : ℕ) (info : AccountInfo) : Type 0 where
  pub owned : info.owner ≡ owner
  pub sized : info.data_len ≡ space
  pub funded : rent_exempt ≤ info.lamports

module _ {E : Type 0} (rt : Runtime) (laws : SystemLaws rt) (overflow in_use : E) (payer target : ℕ)
    (apart : payer ≢ target) where
  fund-ok :
      (deficit : ℕ) (l : Ledger) {l' : Ledger}
      → fund {E = E} rt payer target deficit l ≡ ok l'
      → l'.infos target ≡ record (l.infos target) { lamports = (l.infos target).lamports + deficit }
  unfolding fund
  fund-ok deficit l h = elim (Bool-cases (ltb 0 deficit)) [
    | inl some_missing ↦ laws.transfers _ _ _ (map_err-ok _ _ (rw some_missing at h)) apart
    | inr none_missing ↦ ground (arith, rw none_missing at h)
  ]

  top_up-IsProvisioned :
      (owner rent_exempt space : ℕ) (seeds : List Seed) (l : Ledger) {l' : Ledger}
      → top_up rt in_use payer target owner rent_exempt space seeds l ≡ ok l'
      → IsProvisioned owner rent_exempt space (l'.infos target)
  top_up-IsProvisioned owner rent_exempt space seeds l {l'} h =
      let (funded, allocated, ef, ea, eo) =
        top_up-stages rt overflow in_use payer target owner rent_exempt space seeds l h in
      let f = fund-ok (rent_exempt - (l.infos target).lamports) l ef in
      let a = laws.allocates target space seeds {l = funded} {l' = allocated} ea in
      let o = laws.assigns target owner seeds {l = allocated} {l' = l'} eo in
      record {
        owned = ap (λ i. i.owner) o;
        sized = ap (λ i. i.data_len) o ∙ ap (λ i. i.data_len) a;
        funded =
            omega (arith, ap (λ i. i.lamports) o, ap (λ i. i.lamports) a, ap (λ i. i.lamports) f);
      }

  pub provision-IsProvisioned :
      (owner rent_exempt space : ℕ) (seeds : List Seed) (l : Ledger) {l' : Ledger}
      → provision rt overflow in_use payer target owner rent_exempt space seeds l ≡ ok l'
      → IsProvisioned owner rent_exempt space (l'.infos target)
  provision-IsProvisioned owner rent_exempt space seeds l {l'} h =
      elim (provision-stages rt overflow in_use payer target owner rent_exempt space seeds l h) [
        | inl created ↦
            let c =
              laws.creates payer target rent_exempt space owner seeds {l = l} {l' = l'} created
                apart in
            record { owned = rw c; sized = rw c; funded = omega (arith, ap (λ i. i.lamports) c) }
        | inr topped ↦ top_up-IsProvisioned owner rent_exempt space seeds l topped
      ]
