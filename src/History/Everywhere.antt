-- ===== src/History/Everywhere.antt =====
-- What holds of all that a program stores.
use solana_stablecoin_amm.Base.{
  ◌≡◌, ◌≢◌, arith, none, some, Option, ◌==◌, Bool-cases, subst, sym, ◌∙◌, inl, inr,
}
use solana_stablecoin_amm.Chain.{Pubkey, update}

module _ {A : Type 0} (P : Pubkey → A → Type 0) where
  abbrev pub Everywhere : (Pubkey → Option A) → Type 0
  Everywhere f = (k : Pubkey) (v : A) → f k ≡ some v → P k v

  -- Where only one address has changed.
  pub Everywhere-but :
      (f g : Pubkey → Option A) (k : Pubkey) (v : A)
      → g k ≡ some v
      → ((j : Pubkey) → j ≢ k → g j ≡ f j)
      → P k v
      → Everywhere f
      → Everywhere g
  Everywhere-but f g k v here there p h j w e = elim (Bool-cases (j == k)) [
    | inl same ↦
        let e' : g k ≡ some w = (let jk : j ≡ k = ground arith in rw jk at e) in
        subst (P j) (ground arith) (subst (λ i. P i v) (ground arith) p)
    | inr other ↦ let ne : j ≢ k = ground arith in h j w (sym (there j ne) ∙ e)
  ]

  pub Everywhere-update :
      (f : Pubkey → Option A) (k : Pubkey) (v : A)
      → P k v
      → Everywhere f
      → Everywhere (update f k (some v))
  Everywhere-update f k v p h =
      Everywhere-but f (update f k (some v)) k v (ground arith) (λ j ne. ground arith) p h

  pub Everywhere-remove :
      (f : Pubkey → Option A) (k : Pubkey) → Everywhere f → Everywhere (update f k none)
  Everywhere-remove f k h j w e = h j w (ground arith)
