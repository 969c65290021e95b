-- ===== src/History/Backed/Issuer.antt =====
-- The supply of a stablecoin through one instruction of its program, programs/stablecoin/src/lib.rs.
use solana_stablecoin_amm.Base.{
  ◌≡◌, ◌≢◌, ◌≤◌, ◌==◌, Bool-cases, ap, refl, sym, ◌∙◌, arith, inl, inr, some, ok,
}
use solana_stablecoin_amm.Chain.{Pubkey, Runtime, supply_at, update}
use solana_stablecoin_amm.Chain.Laws.{written}
use solana_stablecoin_amm.Chain.Supply.{SupplyLaws}
use solana_stablecoin_amm.State.{MintConfig, Chain, chain_after-ok}
use solana_stablecoin_amm.Stablecoin.Setup.Effects.{initialize_stablecoin-IsIssued}
use solana_stablecoin_amm.Stablecoin.Issuance.Minting.{mint_to-IsMinted}
use solana_stablecoin_amm.Stablecoin.Issuance.Burning.{burn-IsBurned}
use solana_stablecoin_amm.Stablecoin.Admin.Effects.{
  update_config-IsUpdated, accept_admin-IsHandover,
}
use solana_stablecoin_amm.Stablecoin.Admin.Minters.{grant_minter-stored, revoke_minter-after}
use solana_stablecoin_amm.Stablecoin.Compliance.Effects.{
  set_pause-IsSwitched, set_wallet_policy-IsEnforced,
}
use solana_stablecoin_amm.Stablecoin.Backing.{IsSameCoin, CoinStep, burn-of_mint}
use solana_stablecoin_amm.Stablecoin.Program as Issuer
use solana_stablecoin_amm.History.Sound.{IsSound}
use solana_stablecoin_amm.History.Calls.Issuer.{issued_mint, process-KeepsOthers}

-- An instruction of the stablecoin program, as the holders of a coin see it.
module _ (rt : Runtime) (laws : SupplyLaws rt) (k mint : Pubkey) (s : Chain) (sound : IsSound rt s)
    (config : MintConfig) (stored : s.configs k ≡ some config) (of_mint : config.mint ≡ mint) where
  -- Nothing happens to the configuration or to the supply.
  untouched :
      (s' : Chain)
      → s'.configs k ≡ s.configs k
      → supply_at s'.ledger mint ≤ supply_at s.ledger mint
      → CoinStep rt k mint s s'
  untouched s' same fewer =
      CoinStep.elsewhere config config stored (same ∙ stored)
        (record { mint = refl; supply_cap = refl; minted = refl; burned = refl }) fewer

  -- A configuration, this or another, is written with the same cap and counters.
  rewritten :
      (s' : Chain) (a : Pubkey) (old new : MintConfig)
      → s.configs a ≡ some old
      → s'.configs ≡ update s.configs a (some new)
      → IsSameCoin old new
      → supply_at s'.ledger mint ≤ supply_at s.ledger mint
      → CoinStep rt k mint s s'
  rewritten s' a old new stored_a after coin fewer = elim (Bool-cases (k == a)) [
    | inl here ↦
        let at : a ≡ k = ground arith in
        CoinStep.elsewhere old new (rw at at stored_a)
          (rw at at (ap (λ f. f a) after ∙ written s.configs a new)) coin fewer
    | inr other ↦
        untouched s' (ap (λ f. f k) after ∙ (let ne : k ≢ a = ground arith in ground arith)) fewer
  ]

  -- Only one configuration is for the mint.
  another_mint : (a : Pubkey) (c : MintConfig) → s.configs a ≡ some c → a ≢ k → c.mint ≢ mint
  another_mint a c stored_a ne same =
      let here = rw of_mint at (sound.configs k config stored).address in
      let there = rw same at (sound.configs a c stored_a).address in ne (ground arith)

  kept :
      (i : Issuer.Instruction) {s' : Chain}
      → Issuer.process rt i s ≡ ok s'
      → issued_mint i ≢ some mint
      → supply_at s'.ledger mint ≤ supply_at s.ledger mint
  kept i e ne = omega (arith, process-KeepsOthers rt laws i s e mint ne)

  initialized :
      (c : _) (args : _) {s' : Chain}
      → Issuer.process rt (Issuer.initialize_stablecoin c args) s ≡ ok s'
      → CoinStep rt k mint s s'
  unfolding Issuer.process
  initialized c args {s'} e =
      let (_, _, config_bump, i) =
        initialize_stablecoin-IsIssued rt c args s (chain_after-ok _ e).1 in
      let free = i.free in
      let apart : k ≢ c.config = λ same. (let x = rw same at stored in cc) in
      let others : c.mint ≢ mint = λ same.
        let here = rw of_mint at (sound.configs k config stored).address in
        let there = rw same at i.located.config in apart (ground arith) in
      untouched s' (ap (λ t. t.configs k) i.after ∙ ground arith)
        (kept (Issuer.initialize_stablecoin c args) e (λ p. others (cc)))

  minted :
      (c : _) (amount : _) {s' : Chain}
      → Issuer.process rt (Issuer.mint_to c amount) s ≡ ok s'
      → CoinStep rt k mint s s'
  unfolding Issuer.process
  minted c amount {s'} e =
      let (event, run) = chain_after-ok _ e in
      elim (Bool-cases (k == c.config)) [
        | inl here ↦ CoinStep.mint_to c amount event (ground arith) run
        | inr other ↦
            let (x, _, _, m) = mint_to-IsMinted rt c amount s run in
            let ne : k ≢ c.config = ground arith in
            let others = another_mint c.config x m.config_stored (λ p. ne (sym p)) in
            untouched s' (m.other_configs k ne)
              (kept (Issuer.mint_to c amount) e (λ p. others (m.config_mint ∙ cc)))
      ]

  burned :
      (c : _) (amount : _) {s' : Chain}
      → Issuer.process rt (Issuer.burn c amount) s ≡ ok s'
      → CoinStep rt k mint s s'
  unfolding Issuer.process
  burned c amount {s'} e =
      let (event, run) = chain_after-ok _ e in
      elim (Bool-cases (k == c.config)) [
        | inl here ↦ CoinStep.burn c amount event (ground arith) run
        | inr other ↦
            let (_, _, _, _, _, b) = burn-IsBurned rt c amount s run in
            let (x, stored_x, x_mint) = burn-of_mint rt c amount s run in
            let ne : k ≢ c.config = ground arith in
            let others = another_mint c.config x stored_x (λ p. ne (sym p)) in
            untouched s' (b.other_configs k ne)
              (kept (Issuer.burn c amount) e (λ p. others (x_mint ∙ cc)))
      ]

  configured :
      (c : _) (cap authority nominee : _) {s' : Chain}
      → Issuer.process rt (Issuer.update_config c cap authority nominee) s ≡ ok s'
      → CoinStep rt k mint s s'
  unfolding Issuer.process
  configured c cap authority nominee {s'} e =
      let (event, run) = chain_after-ok _ e in
      elim (Bool-cases (k == c.config)) [
        | inl here ↦ CoinStep.update_config c cap authority nominee event (ground arith) run
        | inr other ↦
            let (_, _, _, _, _, after) = update_config-IsUpdated rt c cap authority nominee s run in
            let ne : k ≢ c.config = ground arith in
            untouched s' (ap (λ t. t.configs k) after ∙ ground arith)
              (kept (Issuer.update_config c cap authority nominee) e (λ p. cc))
      ]

  pub process-CoinStep :
      (i : Issuer.Instruction) {s' : Chain}
      → Issuer.process rt i s ≡ ok s'
      → CoinStep rt k mint s s'
  unfolding Issuer.process
  process-CoinStep (Issuer.initialize_stablecoin c args) e = initialized c args e
  process-CoinStep (Issuer.mint_to c amount) e = minted c amount e
  process-CoinStep (Issuer.burn c amount) e = burned c amount e
  process-CoinStep (Issuer.update_config c cap authority nominee) e =
      configured c cap authority nominee e
  process-CoinStep (Issuer.grant_minter c allowance) {s'} e =
      let (_, _, _, _, _, _, _, after) =
        grant_minter-stored rt c allowance s (chain_after-ok _ e).1 in
      untouched s' (ap (λ t. t.configs k) after)
        (kept (Issuer.grant_minter c allowance) e (λ p. cc))
  process-CoinStep (Issuer.revoke_minter c) {s'} e =
      let after = revoke_minter-after rt c s (chain_after-ok _ e).1 in
      untouched s' (ap (λ t. t.configs k) after) (kept (Issuer.revoke_minter c) e (λ p. cc))
  process-CoinStep (Issuer.set_wallet_policy c status) {s'} e =
      let (_, _, _, _, _, _, _, after) =
        set_wallet_policy-IsEnforced rt c status s (chain_after-ok _ e).1 in
      untouched s' (ap (λ t. t.configs k) after)
        (kept (Issuer.set_wallet_policy c status) e (λ p. cc))
  process-CoinStep (Issuer.set_pause c paused) {s'} e =
      let (old, _, stored_c, _, _, _, _, after) =
        set_pause-IsSwitched rt c paused s (chain_after-ok _ e).1 in
      rewritten s' c.config old _ stored_c (ap (λ t. t.configs) after)
        (record { mint = refl; supply_cap = refl; minted = refl; burned = refl })
        (kept (Issuer.set_pause c paused) e (λ p. cc))
  process-CoinStep (Issuer.accept_admin signer a) {s'} e =
      let (old, stored_a, _, after, _) =
        accept_admin-IsHandover rt signer a s (chain_after-ok _ e).1 in
      rewritten s' a old _ stored_a (ap (λ t. t.configs) after)
        (record { mint = refl; supply_cap = refl; minted = refl; burned = refl })
        (kept (Issuer.accept_admin signer a) e (λ p. cc))
