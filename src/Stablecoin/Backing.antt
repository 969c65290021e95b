-- ===== src/Stablecoin/Backing.antt =====
-- The supply of a stablecoin against its cap and the counters of its configuration, over sequences
-- of steps.
use solana_stablecoin_amm.Base.{ℕ, ◌+◌, ◌≤◌, ◌≡◌, sym, ap, ◌∙◌, arith, none, some, Option, ok}
use solana_stablecoin_amm.Chain.{Pubkey, Runtime, supply_at}
use solana_stablecoin_amm.Chain.Laws.{written}
use solana_stablecoin_amm.State.{MintConfig, Chain}
use solana_stablecoin_amm.Stablecoin.Issuance
use solana_stablecoin_amm.Stablecoin.Issuance.{
  MintToAccounts, BurnAccounts, BurnContext, TokensMinted, TokensBurned, burn_context,
}
use solana_stablecoin_amm.Stablecoin.Issuance.Tracked.{IsTracked}
use solana_stablecoin_amm.Stablecoin.Issuance.Minting.{mint_to-IsMinted}
use solana_stablecoin_amm.Stablecoin.Issuance.Burning.{burn-IsBurned}
use solana_stablecoin_amm.Stablecoin.Admin
use solana_stablecoin_amm.Stablecoin.Admin.{UpdateConfigAccounts, ConfigUpdated}
use solana_stablecoin_amm.Stablecoin.Admin.Effects.{
  IsCap, replaced, updated, update_config-IsUpdated,
}

-- The configuration at `k` is that of `mint`, and covers its live supply.
pub record IsBacked (k mint : Pubkey) (s : Chain) : Type 0 where
  pub config : MintConfig
  pub stored : s.configs k ≡ some config
  pub of_mint : config.mint ≡ mint
  pub capped : supply_at s.ledger mint ≤ config.supply_cap
  pub tracked : IsTracked config (supply_at s.ledger mint)

-- The fields that back the supply are the same.
pub record IsSameCoin (c c' : MintConfig) : Type 0 where
  pub mint : c'.mint ≡ c.mint
  pub supply_cap : c'.supply_cap ≡ c.supply_cap
  pub minted : c'.total_minted ≡ c.total_minted
  pub burned : c'.total_burned ≡ c.total_burned

-- What may happen to a chain, as the holders of `mint` see it: an instruction on its configuration
-- that succeeds, or anything that keeps its cap and counters and mints none of it, such as a pause,
-- a hand-over, or a holder who burns tokens with Token-2022 itself.
pub data CoinStep (rt : Runtime) (k mint : Pubkey) (s s' : Chain) : Type 0 where
  mint_to :
      (c : MintToAccounts) (amount : ℕ) (event : TokensMinted)
      → c.config ≡ k
      → Issuance.mint_to rt c amount s ≡ ok (s', event)
      → CoinStep rt k mint s s'
  burn :
      (c : BurnAccounts) (amount : ℕ) (event : TokensBurned)
      → c.config ≡ k
      → Issuance.burn rt c amount s ≡ ok (s', event)
      → CoinStep rt k mint s s'
  update_config :
      (c : UpdateConfigAccounts) (cap : Option ℕ) (authority nominee : Option Pubkey)
      (event : ConfigUpdated)
      → c.config ≡ k
      → Admin.update_config rt c cap authority nominee s ≡ ok (s', event)
      → CoinStep rt k mint s s'
  elsewhere :
      (config config' : MintConfig)
      → s.configs k ≡ some config
      → s'.configs k ≡ some config'
      → IsSameCoin config config'
      → supply_at s'.ledger mint ≤ supply_at s.ledger mint
      → CoinStep rt k mint s s'

pub data CoinSteps (rt : Runtime) (k mint : Pubkey) (s : Chain) : Chain → Type 0 where
  here : CoinSteps rt k mint s s
  next : {t u : Chain} → CoinSteps rt k mint s t → CoinStep rt k mint t u → CoinSteps rt k mint s u

stored_mint :
    (k mint : Pubkey) (s : Chain) (config : MintConfig)
    → IsBacked k mint s
    → s.configs k ≡ some config
    → config.mint ≡ mint
stored_mint k mint s config h stored =
    let same : h.config ≡ config = (let e = h.stored in cc) in
    sym (ap (λ (c : MintConfig). c.mint) same) ∙ h.of_mint

-- The configuration of a burn, or of an update, is that of the mint that it names.
pub burn-of_mint :
    (rt : Runtime) (c : BurnAccounts) (amount : ℕ) (s : Chain) {s' : Chain} {event : TokensBurned}
    → Issuance.burn rt c amount s ≡ ok (s', event)
    → (config : MintConfig) × (s.configs c.config ≡ some config) × (config.mint ≡ c.mint)
burn-of_mint rt c amount s h =
    let (config, _, _, _, _, b) = burn-IsBurned rt c amount s h in
    (config, b.config_stored, b.config_mint)

update_config-of_mint :
    (rt : Runtime) (c : UpdateConfigAccounts) (cap : Option ℕ) (authority nominee : Option Pubkey)
    (s : Chain) {s' : Chain} {event : ConfigUpdated}
    → Admin.update_config rt c cap authority nominee s ≡ ok (s', event)
    → (config : MintConfig) × (s.configs c.config ≡ some config) × (config.mint ≡ c.mint)
update_config-of_mint rt c cap authority nominee s h =
    let (config, stored, (of_mint, _), _, _, _) =
      update_config-IsUpdated rt c cap authority nominee s h in
    (config, stored, of_mint)

IsCap-capped :
    (cap : Option ℕ) (supply old : ℕ) → IsCap cap supply → supply ≤ old → supply ≤ replaced cap old
IsCap-capped none supply old h le = le
IsCap-capped (some cap) supply old h le = h.2

module _ (rt : Runtime) (k mint : Pubkey) (s : Chain) where
  mint_to-IsBacked :
      (c : MintToAccounts) (amount : ℕ) {s' : Chain} {event : TokensMinted}
      → c.config ≡ k
      → Issuance.mint_to rt c amount s ≡ ok (s', event)
      → IsBacked k mint s
      → IsBacked k mint s'
  mint_to-IsBacked c amount {s'} at_k e h =
      let (config, role, policy, m) = mint_to-IsMinted rt c amount s e in
      let of_k : config.mint ≡ mint = stored_mint k mint s config h (rw at_k at m.config_stored) in
      let same : c.mint ≡ mint = sym m.config_mint ∙ of_k in
      record {
        config = record config { total_minted = config.total_minted + amount };
        stored = rw at_k at m.config_after;
        of_mint = of_k;
        capped = rw same at m.cap;
        tracked = rw same at m.tracked;
      }

  burn-IsBacked :
      (c : BurnAccounts) (amount : ℕ) {s' : Chain} {event : TokensBurned}
      → c.config ≡ k
      → Issuance.burn rt c amount s ≡ ok (s', event)
      → IsBacked k mint s
      → IsBacked k mint s'
  burn-IsBacked c amount {s'} at_k e h =
      let (config, _, _, _, _, b) = burn-IsBurned rt c amount s e in
      let (found, found_stored, of_c) = burn-of_mint rt c amount s e in
      let one : found ≡ config = (let x = b.config_stored in cc) in
      let before = rw at_k at b.config_stored in
      let of_k = stored_mint k mint s config h before in
      let same : c.mint ≡ mint = sym of_c ∙ ap (λ (x : MintConfig). x.mint) one ∙ of_k in
      let kept : h.config ≡ config = (let x = h.stored in cc) in
      let fewer = rw same at b.supply in
      let cap = ap (λ (x : MintConfig). x.supply_cap) kept in
      record {
        config = record config { total_burned = config.total_burned + amount };
        stored = rw at_k at b.config_after;
        of_mint = of_k;
        capped = omega (arith, h.capped, fewer, cap);
        tracked = rw same at b.tracked;
      }

  update_config-IsBacked :
      (c : UpdateConfigAccounts) (cap : Option ℕ) (authority nominee : Option Pubkey) {s' : Chain}
      {event : ConfigUpdated}
      → c.config ≡ k
      → Admin.update_config rt c cap authority nominee s ≡ ok (s', event)
      → IsBacked k mint s
      → IsBacked k mint s'
  update_config-IsBacked c cap authority nominee {s'} at_k e h =
      let (config, stored, _, is_cap, _, after) =
        update_config-IsUpdated rt c cap authority nominee s e in
      let (found, found_stored, of_c) = update_config-of_mint rt c cap authority nominee s e in
      let one : found ≡ config = cc (found_stored, stored) in
      let before = rw at_k at stored in
      let of_k = stored_mint k mint s config h before in
      let same : c.mint ≡ mint = sym of_c ∙ ap (λ (x : MintConfig). x.mint) one ∙ of_k in
      let kept : h.config ≡ config = (let x = h.stored in cc) in
      let ledger : s'.ledger ≡ s.ledger = ap (λ t. t.ledger) after in
      let is_cap' : IsCap cap (supply_at s.ledger mint) = rw same at is_cap in
      record {
        config = updated cap authority nominee config;
        stored = rw at_k at (
            ap (λ t. t.configs c.config) after
            ∙ written s.configs c.config (updated cap authority nominee config));
        of_mint = of_k;
        capped = rw ledger (IsCap-capped cap _ config.supply_cap is_cap' (rw kept at h.capped));
        tracked = rw ledger (rw kept at h.tracked);
      }

  elsewhere-IsBacked :
      (config config' : MintConfig) {s' : Chain}
      → s.configs k ≡ some config
      → s'.configs k ≡ some config'
      → IsSameCoin config config'
      → supply_at s'.ledger mint ≤ supply_at s.ledger mint
      → IsBacked k mint s
      → IsBacked k mint s'
  elsewhere-IsBacked config config' before after coin fewer h =
      let kept : h.config ≡ config = (let x = h.stored in cc) in
      let capped : supply_at s.ledger mint ≤ config.supply_cap = rw kept at h.capped in
      let tracked : IsTracked config (supply_at s.ledger mint) = rw kept at h.tracked in
      record {
        config = config';
        stored = after;
        of_mint = coin.mint ∙ stored_mint k mint s config h before;
        capped = omega (arith, capped, fewer, coin.supply_cap);
        tracked = omega (arith, tracked, fewer, coin.minted, coin.burned);
      }

-- Over any sequence of `mint_to`, `burn` and `update_config` that succeed on the configuration of
-- a mint, and of other steps that keep its cap and counters and mint none of it: if the live
-- supply is within the cap and within what was minted less what was burned, it still is
-- afterwards.
pub CoinSteps-IsBacked :
    (rt : Runtime) (k mint : Pubkey) (s s' : Chain)
    → CoinSteps rt k mint s s'
    → IsBacked k mint s
    → IsBacked k mint s'
CoinSteps-IsBacked rt k mint s s' CoinSteps.here h = h
CoinSteps-IsBacked rt k mint s s' (CoinSteps.next {t} earlier (CoinStep.mint_to c amount _ at_k e))
      h =
    mint_to-IsBacked rt k mint t c amount at_k e (CoinSteps-IsBacked rt k mint s t earlier h)
CoinSteps-IsBacked rt k mint s s' (CoinSteps.next {t} earlier (CoinStep.burn c amount _ at_k e)) h =
    burn-IsBacked rt k mint t c amount at_k e (CoinSteps-IsBacked rt k mint s t earlier h)
CoinSteps-IsBacked rt k mint s s'
      (CoinSteps.next {t} earlier (CoinStep.update_config c cap authority nominee _ at_k e)) h =
    update_config-IsBacked rt k mint t c cap authority nominee at_k e
      (CoinSteps-IsBacked rt k mint s t earlier h)
CoinSteps-IsBacked rt k mint s s'
      (CoinSteps.next {t} earlier (CoinStep.elsewhere config config' before after coin fewer)) h =
    elsewhere-IsBacked rt k mint t config config' before after coin fewer
      (CoinSteps-IsBacked rt k mint s t earlier h)
