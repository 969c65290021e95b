-- ===== src/History/Kept.antt =====
-- How the accounts that the programs store may change over time.
pub mod Issuer
pub mod Market
use solana_stablecoin_amm.Base.{
  ℕ, ◌≤◌, ◌≡◌, ◌≢◌, refl, sym, ◌∙◌, ap, arith, none, some, Option, inl, inr, Bool-cases, ◌==◌,
  subst, if◌then◌else◌,
}
use solana_stablecoin_amm.Chain.{Pubkey, Ledger, update}
use solana_stablecoin_amm.State.{Pool, MintConfig, Chain}
use native.Mathlib.Nat.{le_refl, le_trans}

-- Everything that the first map stores is stored in the second, in a later state.
module _ {A : Type 0} (IsLater : A → A → Type 0) where
  abbrev pub Kept : (Pubkey → Option A) → (Pubkey → Option A) → Type 0
  Kept f g = (k : Pubkey) (v : A) → f k ≡ some v → (w : A) × (g k ≡ some w) × IsLater v w

  pub Kept-same : (f g : Pubkey → Option A) → ((v : A) → IsLater v v) → g ≡ f → Kept f g
  Kept-same f g later same k v e = (v, rw same e, later v)

  -- Where only one address has changed.
  pub Kept-but :
      (f g : Pubkey → Option A) (k : Pubkey) (new : A)
      → ((v : A) → IsLater v v)
      → g k ≡ some new
      → ((j : Pubkey) → j ≢ k → g j ≡ f j)
      → ((old : A) → f k ≡ some old → IsLater old new)
      → Kept f g
  Kept-but f g k new later here there h j v e = elim (Bool-cases (j == k)) [
    | inl same ↦ let jk : j ≡ k = ground arith in (new, rw jk here, h v (rw jk at e))
    | inr other ↦ let ne : j ≢ k = ground arith in (v, there j ne ∙ e, later v)
  ]

  pub Kept-update :
      (f : Pubkey → Option A) (k : Pubkey) (new : A)
      → ((v : A) → IsLater v v)
      → ((old : A) → f k ≡ some old → IsLater old new)
      → Kept f (update f k (some new))
  Kept-update f k new later h =
      Kept-but f (update f k (some new)) k new later (ground arith) (λ j ne. ground arith) h

  -- What is written over a stored account is in a later state than any that was stored there.
  pub later_than :
      (f : Pubkey → Option A) (k : Pubkey) (v new : A)
      → f k ≡ some v
      → IsLater v new
      → (old : A) → f k ≡ some old
      → IsLater old new
  later_than f k v new stored later old e =
      let same : v ≡ old = cc in subst (λ a. IsLater a new) same later

-- A pool's reserves are all that changes.
abbrev pub IsLaterPool : Pool → Pool → Type 0
IsLaterPool p p' = p' ≡ record p { reserve_a = p'.reserve_a; reserve_b = p'.reserve_b }

-- A configuration is of one mint, and its counters do not fall.
pub record IsLaterConfig (c c' : MintConfig) : Type 0 where
  pub mint : c'.mint ≡ c.mint
  pub symbol : c'.symbol ≡ c.symbol
  pub decimals : c'.decimals ≡ c.decimals
  pub bump : c'.bump ≡ c.bump
  pub mint_bump : c'.mint_bump ≡ c.mint_bump
  pub minted : c.total_minted ≤ c'.total_minted
  pub burned : c.total_burned ≤ c'.total_burned

pub IsLaterConfig-refl : (c : MintConfig) → IsLaterConfig c c
IsLaterConfig-refl c = record {
  mint = refl;
  symbol = refl;
  decimals = refl;
  bump = refl;
  mint_bump = refl;
  minted = le_refl _;
  burned = le_refl _;
}

-- No pool and no configuration is lost or becomes another one.
pub record Continues (s s' : Chain) : Type 0 where
  pub pools : Kept IsLaterPool s.pools s'.pools
  pub configs : Kept IsLaterConfig s.configs s'.configs

pub Continues-trans : (s t u : Chain) → Continues s t → Continues t u → Continues s u
Continues-trans s t u first second = record {
  pools = λ k p e.
      let (p', e', h') = first.pools k p e in
      let (p'', e'', h'') = second.pools k p' e' in
      (
        p'',
        e'',
        h''
            ∙ ap (λ (q : Pool). record q { reserve_a = p''.reserve_a; reserve_b = p''.reserve_b })
                h',
      );
  configs = λ k c e.
      let (c', e', h') = first.configs k c e in
      let (c'', e'', h'') = second.configs k c' e' in
      (
        c'',
        e'',
        record {
          mint = h''.mint ∙ h'.mint;
          symbol = h''.symbol ∙ h'.symbol;
          decimals = h''.decimals ∙ h'.decimals;
          bump = h''.bump ∙ h'.bump;
          mint_bump = h''.mint_bump ∙ h'.mint_bump;
          minted = le_trans h'.minted h''.minted;
          burned = le_trans h'.burned h''.burned;
        },
      );
}

-- Nothing that the two relations read has changed.
pub same-Continues : (s s' : Chain) → s'.pools ≡ s.pools → s'.configs ≡ s.configs → Continues s s'
same-Continues s s' pools configs = record {
  pools = Kept-same IsLaterPool s.pools s'.pools (λ p. refl) pools;
  configs = Kept-same IsLaterConfig s.configs s'.configs IsLaterConfig-refl configs;
}

-- One configuration is written.
pub config-Continues :
    (s : Chain) (l : Ledger) (k : Pubkey) (new : MintConfig)
    → ((old : MintConfig) → s.configs k ≡ some old → IsLaterConfig old new)
    → Continues s (record s { ledger = l; configs = update s.configs k (some new) })
config-Continues s l k new h = record {
  pools = Kept-same IsLaterPool s.pools s.pools (λ p. refl) refl;
  configs = Kept-update IsLaterConfig s.configs k new IsLaterConfig-refl h;
}

-- One pool is written.
pub pool-Continues :
    (s : Chain) (l : Ledger) (k : Pubkey) (new : Pool)
    → ((old : Pool) → s.pools k ≡ some old → IsLaterPool old new)
    → Continues s (record s { ledger = l; pools = update s.pools k (some new) })
pool-Continues s l k new h = record {
  pools = Kept-update IsLaterPool s.pools k new (λ p. refl) h;
  configs = Kept-same IsLaterConfig s.configs s.configs IsLaterConfig-refl refl;
}
