-- ===== src/History/Kept/Issuer.antt =====
-- Pools and configurations through the instructions of the stablecoin program.
use solana_stablecoin_amm.Base.{ℕ, ◌≤◌, ◌≡◌, refl, sym, subst, arith, some, none, ok, ap}
use native.Mathlib.Nat.{le_refl}
use solana_stablecoin_amm.Chain.{Pubkey, Ledger, Runtime, update}
use solana_stablecoin_amm.State.{MintConfig, Chain, chain_after-ok}
use solana_stablecoin_amm.Stablecoin.Setup
use solana_stablecoin_amm.Stablecoin.Setup.{
  InitializeStablecoinAccounts, InitializeStablecoinArgs, StablecoinInitialized,
}
use solana_stablecoin_amm.Stablecoin.Setup.Effects.{initialize_stablecoin-IsIssued}
use solana_stablecoin_amm.Stablecoin.Issuance
use solana_stablecoin_amm.Stablecoin.Issuance.{
  MintToAccounts, BurnAccounts, TokensMinted, TokensBurned,
}
use solana_stablecoin_amm.Stablecoin.Issuance.Minting.{mint_to-IsMinted}
use solana_stablecoin_amm.Stablecoin.Issuance.Burning.{burn-IsBurned}
use solana_stablecoin_amm.Stablecoin.Admin.Effects.{
  updated, update_config-IsUpdated, accept_admin-IsHandover,
}
use solana_stablecoin_amm.Stablecoin.Admin.Minters.{grant_minter-stored, revoke_minter-after}
use solana_stablecoin_amm.Stablecoin.Compliance.Effects.{
  set_pause-IsSwitched, set_wallet_policy-IsEnforced,
}
use solana_stablecoin_amm.Stablecoin.Program.{
  Instruction, initialize_stablecoin, grant_minter, revoke_minter, set_wallet_policy, mint_to, burn,
  set_pause, update_config, accept_admin, process,
}
use solana_stablecoin_amm.History.Kept.{
  Kept-but, Kept-same, IsLaterPool, IsLaterConfig, IsLaterConfig-refl, Continues, same-Continues,
  config-Continues, later_than,
}

-- The fields that no instruction writes are those of `config`.
abbrev with_counters : MintConfig → ℕ → ℕ → MintConfig
with_counters config m b = record config { total_minted = m; total_burned = b }

counted-IsLaterConfig :
    (config : MintConfig) (m b : ℕ)
    → config.total_minted ≤ m
    → config.total_burned ≤ b
    → IsLaterConfig config (with_counters config m b)
counted-IsLaterConfig config m b hm hb = record {
  mint = refl;
  symbol = refl;
  decimals = refl;
  bump = refl;
  mint_bump = refl;
  minted = hm;
  burned = hb;
}

issued-Continues :
    (rt : Runtime) (c : InitializeStablecoinAccounts) (args : InitializeStablecoinArgs) (s : Chain)
    {s' : Chain} {event : StablecoinInitialized}
    → Setup.initialize_stablecoin rt c args s ≡ ok (s', event)
    → Continues s s'
issued-Continues rt c args s {s'} e =
    let (symbol_text, mint_bump, config_bump, i) = initialize_stablecoin-IsIssued rt c args s e in
    let free = i.free in
    subst (Continues s) (sym i.after) (config-Continues s s'.ledger c.config _ (λ old stored. cc))

minted-Continues :
    (rt : Runtime) (c : MintToAccounts) (amount : ℕ) (s : Chain) {s' : Chain} {event : TokensMinted}
    → Issuance.mint_to rt c amount s ≡ ok (s', event)
    → Continues s s'
minted-Continues rt c amount s {s'} e =
    let (config, role, policy, m) = mint_to-IsMinted rt c amount s e in
    record {
      pools = Kept-same IsLaterPool s.pools s'.pools (λ p. refl) m.pools;
      configs =
          Kept-but IsLaterConfig s.configs s'.configs c.config _ IsLaterConfig-refl m.config_after
            m.other_configs
            (later_than IsLaterConfig s.configs c.config config _ m.config_stored
              (counted-IsLaterConfig config _ _ (omega arith) (le_refl _)));
    }

burned-Continues :
    (rt : Runtime) (c : BurnAccounts) (amount : ℕ) (s : Chain) {s' : Chain} {event : TokensBurned}
    → Issuance.burn rt c amount s ≡ ok (s', event)
    → Continues s s'
burned-Continues rt c amount s {s'} e =
    let (config, _, _, _, _, b) = burn-IsBurned rt c amount s e in
    record {
      pools = Kept-same IsLaterPool s.pools s'.pools (λ p. refl) b.pools;
      configs =
          Kept-but IsLaterConfig s.configs s'.configs c.config _ IsLaterConfig-refl b.config_after
            b.other_configs
            (later_than IsLaterConfig s.configs c.config config _ b.config_stored
              (counted-IsLaterConfig config _ _ (le_refl _) (omega arith)));
    }

-- Fields other than the mint, the symbol, the decimals, the bumps and the counters.
reconfigured-Continues :
    (s : Chain) (l : Ledger) (k : Pubkey) (config new : MintConfig)
    → s.configs k ≡ some config
    → new ≡ record config {
      admin = new.admin;
      pending_admin = new.pending_admin;
      compliance_authority = new.compliance_authority;
      supply_cap = new.supply_cap;
      paused = new.paused;
    }
    → Continues s (record s { ledger = l; configs = update s.configs k (some new) })
reconfigured-Continues s l k config new stored same = config-Continues s l k new (
    later_than IsLaterConfig s.configs k config new stored (
      subst (IsLaterConfig config) (sym same) (record {
        mint = refl;
        symbol = refl;
        decimals = refl;
        bump = refl;
        mint_bump = refl;
        minted = le_refl _;
        burned = le_refl _;
      })))

pub process-Continues :
    (rt : Runtime) (i : Instruction) (s : Chain) {s' : Chain}
    → process rt i s ≡ ok s'
    → Continues s s'
unfolding process
process-Continues rt (initialize_stablecoin c args) s e =
    issued-Continues rt c args s (chain_after-ok _ e).1
process-Continues rt (grant_minter c allowance) s {s'} e =
    let (_, _, _, _, _, _, _, same) = grant_minter-stored rt c allowance s (chain_after-ok _ e).1 in
    same-Continues s s' (ap (λ t. t.pools) same) (ap (λ t. t.configs) same)
process-Continues rt (revoke_minter c) s {s'} e =
    let same = revoke_minter-after rt c s (chain_after-ok _ e).1 in
    same-Continues s s' (ap (λ t. t.pools) same) (ap (λ t. t.configs) same)
process-Continues rt (set_wallet_policy c status) s {s'} e =
    let (_, _, _, _, _, _, _, same) =
      set_wallet_policy-IsEnforced rt c status s (chain_after-ok _ e).1 in
    same-Continues s s' (ap (λ t. t.pools) same) (ap (λ t. t.configs) same)
process-Continues rt (mint_to c amount) s e = minted-Continues rt c amount s (chain_after-ok _ e).1
process-Continues rt (burn c amount) s e = burned-Continues rt c amount s (chain_after-ok _ e).1
process-Continues rt (set_pause c paused) s e =
    let (config, l, stored, _, _, _, _, same) =
      set_pause-IsSwitched rt c paused s (chain_after-ok _ e).1 in
    subst (Continues s) (sym same)
      (reconfigured-Continues s l c.config config (record config { paused = paused }) stored refl)
process-Continues rt (update_config c cap authority nominee) s e =
    let (config, stored, _, _, _, same) =
      update_config-IsUpdated rt c cap authority nominee s (chain_after-ok _ e).1 in
    subst (Continues s) (sym same) (
      reconfigured-Continues s s.ledger c.config config (updated cap authority nominee config)
        stored refl)
process-Continues rt (accept_admin signer config) s e =
    let (old, stored, _, same, _) =
      accept_admin-IsHandover rt signer config s (chain_after-ok _ e).1 in
    subst (Continues s) (sym same) (
      reconfigured-Continues s s.ledger config old
        (record old { admin = signer; pending_admin = none }) stored refl)
