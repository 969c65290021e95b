-- ===== src/Chain/System/Stages.antt =====
-- The calls of a `provision` that succeeds.
use solana_stablecoin_amm.Base.{
  ℕ, ◌-◌, ◌≡◌, ◌⊎◌, List, ltb, ◌==◌, ◌^◌, if◌then◌else◌, ok, Result, inl, inr, Bool-cases,
  >>=-eq-ok, ◌>>=◌, ◌&&◌, map_err-ok, guard-ok,
}
use solana_stablecoin_amm.Chain.{Ledger, Seed, Runtime, Failure, custom, invoke}
use solana_stablecoin_amm.Chain.System.{fund, top_up, provision}

module _ {E : Type 0} (rt : Runtime) (overflow in_use : E) (payer target owner : ℕ) where
  pub top_up-stages :
      (rent_exempt space : ℕ) (seeds : List Seed) (l : Ledger) {l' : Ledger}
      → top_up rt in_use payer target owner rent_exempt space seeds l ≡ ok l'
      → (funded : Ledger) × (allocated : Ledger) × (fund {E = E} rt payer target
            (rent_exempt - (l.infos target).lamports)
            l
          ≡ ok funded)
        × (rt.allocate target space seeds funded ≡ ok allocated)
        × (rt.assign target owner seeds allocated ≡ ok l')
  unfolding top_up
  top_up-stages rent_exempt space seeds l h =
      let info = l.infos target in
      let step_1 : Result (Failure E) Ledger =
        fund rt payer target (rent_exempt - info.lamports) l in
      let step_2 : Ledger → Result (Failure E) Ledger =
        λ k. invoke (rt.allocate target space seeds k) in
      let step_3 : Ledger → Result (Failure E) Ledger =
        λ k. invoke (rt.assign target owner seeds k) in
      let free =
        guard-ok (info.owner == rt.system_id && info.data_len == 0) (custom in_use)
          (step_1 >>= λ k. step_2 k >>= step_3) h in
      let (funded, ef, rest) = >>=-eq-ok step_1 (λ k. step_2 k >>= step_3) free in
      let (allocated, ea, eo) = >>=-eq-ok (step_2 funded) step_3 rest in
      (funded, allocated, ef, map_err-ok _ _ ea, map_err-ok _ _ eo)

  -- Creating the account, where the address holds no lamports, or topping it up.
  pub provision-stages :
      (rent_exempt space : ℕ) (seeds : List Seed) (l : Ledger) {l' : Ledger}
      → provision rt overflow in_use payer target owner rent_exempt space seeds l ≡ ok l'
      → (rt.create_account payer target rent_exempt space owner seeds l ≡ ok l')
        ⊎ (top_up rt in_use payer target owner rent_exempt space seeds l ≡ ok l')
  unfolding provision
  provision-stages rent_exempt space seeds l h =
      let created : Result (Failure E) Ledger =
        invoke (rt.create_account payer target rent_exempt space owner seeds l) in
      let topped = top_up rt in_use payer target owner rent_exempt space seeds l in
      let placed =
        guard-ok (ltb space (2 ^ 64)) (custom overflow)
          (if (l.infos target).lamports == 0 then created else topped) h in
      elim (Bool-cases ((l.infos target).lamports == 0)) [
        | inl unused ↦ inl (map_err-ok _ _ (rw unused at placed))
        | inr prefunded ↦ inr (rw prefunded at placed)
      ]
