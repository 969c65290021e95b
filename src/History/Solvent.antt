-- ===== src/History/Solvent.antt =====
-- The vaults of all pools through histories of both programs.
pub mod Covered
use solana_stablecoin_amm.Base.{
  ℕ, ◌≡◌, ◌≢◌, ◌≤◌, ◌⊎◌, ◌==◌, Bool-cases, inl, inr, ap, refl, sym, ◌∙◌, arith, some, none, ok,
  subst, [], ◌∷◌,
}
use solana_stablecoin_amm.Chain.{Pubkey, Ledger, Runtime, text, key, amount_at}
use solana_stablecoin_amm.Chain.Addresses.{IsCanonical}
use solana_stablecoin_amm.Chain.Preserved.{Preserves}
use solana_stablecoin_amm.Chain.Holdings.{
  title, KeepsTitle, NotLowered, IsOwnedBy, HoldingLaws, apart_of_owners,
}
use solana_stablecoin_amm.State.{Pool, Chain}
use solana_stablecoin_amm.Stablecoin.Program as Issuer
use solana_stablecoin_amm.Amm.{pool_seed}
use solana_stablecoin_amm.Amm.Program as Market
use solana_stablecoin_amm.History.{Step, Reach, Outside, Outside-split}
use solana_stablecoin_amm.History.Calls.Issuer.{process-Preserves}
use solana_stablecoin_amm.History.Calls.Market.{AllSpent-map, amm_process-Preserves, all_spent}
use solana_stablecoin_amm.History.Everywhere.{Everywhere}
use solana_stablecoin_amm.History.Mints.{named_pool}
use solana_stablecoin_amm.History.Owners.{
  signer, amm_signer, process-owner, amm_process-AreOwned, Signed, Signed-split,
}
use solana_stablecoin_amm.History.Pools.{process-pools, amm_process-other_pools}
use solana_stablecoin_amm.History.Reachable.{Reach-IsSound, IsFresh, IsFresh-IsSound}
use solana_stablecoin_amm.History.Solvent.Covered.{IsCovered, IsSettled, process-IsSettled}
use solana_stablecoin_amm.History.Sound.{IsSound}

abbrev pub IsSolvent : Chain → Type 0
IsSolvent s = Everywhere (λ k p. IsCovered k p s.ledger) s.pools

abbrev pub IsPoolAddress : Runtime → Pubkey → Type 0
IsPoolAddress rt k =
    (mint_a : Pubkey) × (mint_b : Pubkey) × (bump : ℕ) × IsCanonical rt
      (text pool_seed ∷ key mint_a ∷ key mint_b ∷ []) rt.amm_id k bump

-- Nobody signs a transaction for a program's address.
abbrev pub IsWallet : Runtime → Pubkey → Type 0
IsWallet rt k = ¬ IsPoolAddress rt k

-- Outside the two programs nothing is taken from the accounts of a pool.
abbrev pub LeavesPools : Runtime → Ledger → Ledger → Type 0
LeavesPools rt l l' =
    (k mint pool : Pubkey)
    → IsPoolAddress rt pool
    → title (l.accounts k) ≡ some (mint, pool)
    → (title (l'.accounts k) ≡ some (mint, pool)) × NotLowered k l l'

kept-IsCovered :
    (k : Pubkey) (p : Pool) (l l' : Ledger)
    → KeepsTitle p.vault_a l l' × NotLowered p.vault_a l l'
    → KeepsTitle p.vault_b l l' × NotLowered p.vault_b l l'
    → IsCovered k p l
    → IsCovered k p l'
kept-IsCovered k p l l' (ta, na) (tb, nb) h = record {
  title_a = ta p.mint_a k h.title_a;
  title_b = tb p.mint_b k h.title_b;
  covers_a = omega (arith, h.covers_a, na);
  covers_b = omega (arith, h.covers_b, nb);
}

module _ (rt : Runtime) (laws : HoldingLaws rt) (s : Chain) (sound : IsSound rt s)
    (solvent : IsSolvent s) where
  pool-IsPoolAddress : (k : Pubkey) (p : Pool) → s.pools k ≡ some p → IsPoolAddress rt k
  pool-IsPoolAddress k p stored = (p.mint_a, p.mint_b, p.bump, (sound.pools k p stored).address)

  issuer_keeps :
      (i : Issuer.Instruction) (k vault mint : Pubkey) {s' : Chain}
      → Issuer.process rt i s ≡ ok s'
      → k ≢ signer i
      → title (s.ledger.accounts vault) ≡ some (mint, k)
      → KeepsTitle vault s.ledger s'.ledger × NotLowered vault s.ledger s'.ledger
  issuer_keeps i k vault mint e ne held = (
    process-Preserves rt (laws.titles vault) i s e (λ m named. tt) (λ a named. tt),
    process-Preserves rt (laws.amounts vault) i s e (λ m named. tt)
        (λ a named.
          apart_of_owners s.ledger vault a mint k (signer i) held (process-owner rt i s a e named)
            ne),
  )

  market_keeps :
      (i : Market.Instruction) (k vault mint : Pubkey) {s' : Chain}
      → Market.process rt i s ≡ ok s'
      → k ≢ amm_signer i
      → k ≢ named_pool i
      → title (s.ledger.accounts vault) ≡ some (mint, k)
      → KeepsTitle vault s.ledger s'.ledger × NotLowered vault s.ledger s'.ledger
  market_keeps i k vault mint e ne_signer ne_pool held =
      let apart : (a : Pubkey)
          → IsOwnedBy s.ledger (amm_signer i) a ⊎ IsOwnedBy s.ledger (named_pool i) a
          → vault ≢ a =
        λ a owned. elim owned [
          | inl by_signer ↦ apart_of_owners s.ledger vault a mint k _ held by_signer ne_signer
          | inr by_pool ↦ apart_of_owners s.ledger vault a mint k _ held by_pool ne_pool
        ] in
      (
        amm_process-Preserves rt (laws.titles vault) i s e (λ m named. tt) (all_spent i),
        amm_process-Preserves rt (laws.amounts vault) i s e (λ m named. tt)
            (AllSpent-map _ _ i apart (amm_process-AreOwned rt i s e)),
      )

  -- The pool that the instruction names.
  settled-IsCovered :
      (i : Market.Instruction) {s' : Chain}
      → Market.process rt i s ≡ ok s'
      → (x : IsSettled (named_pool i) s s')
      → IsCovered
          (named_pool i)
          (record (x.pool) { reserve_a = x.reserve_a; reserve_b = x.reserve_b })
          s'.ledger
  settled-IsCovered i e x =
      let old = solvent (named_pool i) x.pool x.before in
      let keeps = λ (vault : Pubkey).
        amm_process-Preserves rt (laws.titles vault) i s e (λ m named. tt) (all_spent i) in
      record {
        title_a = keeps x.pool.vault_a x.pool.mint_a (named_pool i) old.title_a;
        title_b = keeps x.pool.vault_b x.pool.mint_b (named_pool i) old.title_b;
        covers_a = x.covers_a;
        covers_b = x.covers_b;
      }

  named-IsCovered :
      (i : Market.Instruction) (w : Pool) {s' : Chain}
      → Market.process rt i s ≡ ok s'
      → s'.pools (named_pool i) ≡ some w
      → IsCovered (named_pool i) w s'.ledger
  named-IsCovered i w {s'} e now = elim (process-IsSettled rt laws i s e) [
    | inl settled ↦
        let after = settled.after in
        subst (λ v. IsCovered (named_pool i) v s'.ledger) (ground arith)
          (settled-IsCovered i e settled)
    | inr (pool, stored, covered) ↦
        subst (λ v. IsCovered (named_pool i) v s'.ledger) (ground arith) covered
  ]

  amm_process-IsSolvent :
      (i : Market.Instruction) {s' : Chain}
      → Market.process rt i s ≡ ok s'
      → IsWallet rt (amm_signer i)
      → IsSolvent s'
  amm_process-IsSolvent i {s'} e wallet k w now = elim (Bool-cases (named_pool i == k)) [
    | inl here ↦
        let at : named_pool i ≡ k = ground arith in rw at at (named-IsCovered i w e (rw at now))
    | inr there ↦
        let ne : k ≢ named_pool i = ground arith in
        let before : s.pools k ≡ some w = sym (amm_process-other_pools rt i s k e ne) ∙ now in
        let h = solvent k w before in
        let apart : k ≢ amm_signer i =
          λ same. wallet (rw same at (pool-IsPoolAddress k w before)) in
        kept-IsCovered k w s.ledger s'.ledger (market_keeps i k w.vault_a _ e apart ne h.title_a)
          (market_keeps i k w.vault_b _ e apart ne h.title_b) h
  ]

  process-IsSolvent :
      (i : Issuer.Instruction) {s' : Chain}
      → Issuer.process rt i s ≡ ok s'
      → IsWallet rt (signer i)
      → IsSolvent s'
  process-IsSolvent i {s'} e wallet k w now =
      let before : s.pools k ≡ some w = sym (ap (λ f. f k) (process-pools rt i s e)) ∙ now in
      let h = solvent k w before in
      let apart : k ≢ signer i = λ same. wallet (rw same at (pool-IsPoolAddress k w before)) in
      kept-IsCovered k w s.ledger s'.ledger (issuer_keeps i k w.vault_a _ e apart h.title_a)
        (issuer_keeps i k w.vault_b _ e apart h.title_b) h

  outside-IsSolvent :
      (l : Ledger) {s' : Chain}
      → s' ≡ record s { ledger = l }
      → LeavesPools rt s.ledger l
      → IsSolvent s'
  outside-IsSolvent l {s'} e leaves k w now =
      let before : s.pools k ≡ some w = sym (ap (λ t. t.pools k) e) ∙ now in
      let h = solvent k w before in
      let pool = pool-IsPoolAddress k w before in
      let (ta, na) = leaves w.vault_a w.mint_a k pool h.title_a in
      let (tb, nb) = leaves w.vault_b w.mint_b k pool h.title_b in
      rw e (record {
        title_a = ta;
        title_b = tb;
        covers_a = omega (arith, h.covers_a, na);
        covers_b = omega (arith, h.covers_b, nb);
      })

  Step-IsSolvent :
      (s' : Chain) (step : Step rt s s')
      → Outside (LeavesPools rt) (Reach.next Reach.here step)
      → Signed (IsWallet rt) (Reach.next Reach.here step)
      → IsSolvent s'
  Step-IsSolvent s' (Step.stablecoin i e) quiet signed = process-IsSolvent i e signed.1
  Step-IsSolvent s' (Step.amm i e) quiet signed = amm_process-IsSolvent i e signed.1
  Step-IsSolvent s' (Step.outside l e) quiet signed = outside-IsSolvent l e quiet.1

module _ (rt : Runtime) (laws : HoldingLaws rt) where
  Reach-IsSolvent :
      (s s' : Chain) (history : Reach rt s s')
      → Outside (LeavesPools rt) history
      → Signed (IsWallet rt) history
      → IsSound rt s
      → IsSolvent s
      → IsSolvent s'
  Reach-IsSolvent s s' Reach.here quiet signed sound h = h
  Reach-IsSolvent s s' (Reach.next {t} earlier last) quiet signed sound h =
      let (quiet_before, quiet_now) = Outside-split (LeavesPools rt) earlier last quiet in
      let (signed_before, signed_now) = Signed-split (IsWallet rt) earlier last signed in
      Step-IsSolvent rt laws t (Reach-IsSound rt s t earlier sound)
        (Reach-IsSolvent s t earlier quiet_before signed_before sound h) s' last quiet_now
        signed_now

  -- On every chain that a history of both programs reaches from one where no pool, configuration
  -- or role is stored, the vaults of every stored pool are for its mints, belong to it and cover
  -- its reserves. The calls of the system program and of Token-2022 keep their documented effects
  -- on token accounts, nobody signs for the address of a pool, and nothing outside the two
  -- programs takes tokens out of the accounts of a pool or gives them another mint or owner.
  pub reachable-IsSolvent :
      (fresh s : Chain)
      → IsFresh fresh
      → (history : Reach rt fresh s) → Outside (LeavesPools rt) history
      → Signed (IsWallet rt) history
      → IsSolvent s
  reachable-IsSolvent fresh s start history quiet signed =
      Reach-IsSolvent fresh s history quiet signed (IsFresh-IsSound rt fresh start)
        (λ k w now. let none_k = start.pools k in absurd (cc))
