-- ===== src/History/Issuer.antt =====
-- Soundness through the instructions of the stablecoin program, programs/stablecoin/src/lib.rs.
pub mod Configs
use solana_stablecoin_amm.Base.{ℕ, ◌+◌, ◌≡◌, sym, subst, arith, Bool, none, some, Option, ok}
use solana_stablecoin_amm.Chain.{Pubkey, Ledger, Runtime, update}
use solana_stablecoin_amm.State.{MintConfig, PolicyStatus, Chain, chain_after-ok}
use solana_stablecoin_amm.Stablecoin.Setup
use solana_stablecoin_amm.Stablecoin.Setup.{
  InitializeStablecoinAccounts, InitializeStablecoinArgs, StablecoinInitialized, new_config,
}
use solana_stablecoin_amm.Stablecoin.Setup.Effects.{initialize_stablecoin-IsIssued}
use solana_stablecoin_amm.Stablecoin.Issuance
use solana_stablecoin_amm.Stablecoin.Issuance.{
  MintToAccounts, BurnAccounts, TokensMinted, TokensBurned,
}
use solana_stablecoin_amm.Stablecoin.Issuance.Minting.{mint_to-IsMinted}
use solana_stablecoin_amm.Stablecoin.Issuance.Burning.{burn-IsBurned}
use solana_stablecoin_amm.Stablecoin.Admin
use solana_stablecoin_amm.Stablecoin.Admin.{
  UpdateConfigAccounts, ConfigUpdated, MinterAccounts, MinterGranted, MinterRevoked, AdminAccepted,
}
use solana_stablecoin_amm.Stablecoin.Admin.Effects.{
  IsCap, IsNominee, updated, update_config-IsUpdated, accept_admin-IsHandover,
}
use solana_stablecoin_amm.Stablecoin.Admin.Minters.{grant_minter-stored, revoke_minter-after}
use solana_stablecoin_amm.Stablecoin.Compliance
use solana_stablecoin_amm.Stablecoin.Compliance.{
  SetPauseAccounts, PauseChanged, SetWalletPolicyAccounts, WalletPolicyChanged,
}
use solana_stablecoin_amm.Stablecoin.Compliance.Effects.{
  set_pause-IsSwitched, set_wallet_policy-IsEnforced,
}
use solana_stablecoin_amm.Stablecoin.Program.{
  Instruction, initialize_stablecoin, grant_minter, revoke_minter, set_wallet_policy, mint_to, burn,
  set_pause, update_config, accept_admin, process,
}
use solana_stablecoin_amm.History.Everywhere.{
  Everywhere, Everywhere-but, Everywhere-update, Everywhere-remove,
}
use solana_stablecoin_amm.History.Sound.{IsSoundPool, IsSoundConfig, IsSoundRole, IsSound}
use solana_stablecoin_amm.History.Issuer.Configs.{
  config_written, update_config-IsSound, accept_admin-IsSound, paused-IsSound,
}

pub issued-IsSound :
    (rt : Runtime) (c : InitializeStablecoinAccounts) (args : InitializeStablecoinArgs) (s : Chain)
    {s' : Chain} {event : StablecoinInitialized}
    → Setup.initialize_stablecoin rt c args s ≡ ok (s', event)
    → IsSound rt s
    → IsSound rt s'
issued-IsSound rt c args s {s'} e h =
    let (symbol_text, mint_bump, config_bump, i) = initialize_stablecoin-IsIssued rt c args s e in
    let a = i.arguments in
    let sound : IsSoundConfig rt c.config (new_config c args mint_bump config_bump) = record {
      address = i.located.config;
      mint = i.located.mint;
      cap_pos = a.cap_pos;
      cap_bound = a.cap_bound;
      decimals = a.decimals;
      burned = omega arith;
      nominee = λ same. cc;
    } in
    subst (IsSound rt) (sym i.after) (config_written rt s s'.ledger c.config _ h sound)

granted-IsSound :
    (rt : Runtime) (c : MinterAccounts) (allowance : ℕ) (s : Chain) {s' : Chain}
    {event : MinterGranted}
    → Admin.grant_minter rt c allowance s ≡ ok (s', event)
    → IsSound rt s
    → IsSound rt s'
granted-IsSound rt c allowance s e h =
    let (config, found, _, _, _, positive, proper, same) = grant_minter-stored rt c allowance s e in
    subst (IsSound rt) (sym same) (record {
      pools = h.pools;
      configs = h.configs;
      roles =
          Everywhere-update IsSoundRole s.roles c.minter_role _
            (record { allowance = omega arith; authority = proper }) h.roles;
    })

revoked-IsSound :
    (rt : Runtime) (c : MinterAccounts) (s : Chain) {s' : Chain} {event : MinterRevoked}
    → Admin.revoke_minter rt c s ≡ ok (s', event)
    → IsSound rt s
    → IsSound rt s'
revoked-IsSound rt c s e h = subst (IsSound rt) (sym (revoke_minter-after rt c s e)) (record {
  pools = h.pools;
  configs = h.configs;
  roles = Everywhere-remove IsSoundRole s.roles c.minter_role h.roles;
})

minted-IsSound :
    (rt : Runtime) (c : MintToAccounts) (amount : ℕ) (s : Chain) {s' : Chain} {event : TokensMinted}
    → Issuance.mint_to rt c amount s ≡ ok (s', event)
    → IsSound rt s
    → IsSound rt s'
minted-IsSound rt c amount s {s'} e h =
    let (config, role, policy, m) = mint_to-IsMinted rt c amount s e in
    let old = h.configs c.config config m.config_stored in
    let old_role = h.roles c.minter_role role m.role_stored in
    let minter : IsSoundRole c.minter_role (record role { minted = role.minted + amount }) =
      record { allowance = m.allowance; authority = old_role.authority } in
    let counted : IsSoundConfig rt c.config
        (record config { total_minted = config.total_minted + amount }) =
      record {
        address = old.address;
        mint = old.mint;
        cap_pos = old.cap_pos;
        cap_bound = old.cap_bound;
        decimals = old.decimals;
        burned = omega (arith, old.burned);
        nominee = old.nominee;
      } in
    record {
      pools = subst (Everywhere (IsSoundPool rt)) (sym m.pools) h.pools;
      configs =
          Everywhere-but (IsSoundConfig rt) s.configs s'.configs c.config _ m.config_after
            m.other_configs counted h.configs;
      roles =
          Everywhere-but IsSoundRole s.roles s'.roles c.minter_role _ m.role_after m.other_roles
            minter h.roles;
    }

burned-IsSound :
    (rt : Runtime) (c : BurnAccounts) (amount : ℕ) (s : Chain) {s' : Chain} {event : TokensBurned}
    → Issuance.burn rt c amount s ≡ ok (s', event)
    → IsSound rt s
    → IsSound rt s'
burned-IsSound rt c amount s {s'} e h =
    let (config, _, _, _, _, b) = burn-IsBurned rt c amount s e in
    let old = h.configs c.config config b.config_stored in
    let counted : IsSoundConfig rt c.config
        (record config { total_burned = config.total_burned + amount }) =
      record {
        address = old.address;
        mint = old.mint;
        cap_pos = old.cap_pos;
        cap_bound = old.cap_bound;
        decimals = old.decimals;
        burned = omega (arith, b.tracked);
        nominee = old.nominee;
      } in
    record {
      pools = subst (Everywhere (IsSoundPool rt)) (sym b.pools) h.pools;
      configs =
          Everywhere-but (IsSoundConfig rt) s.configs s'.configs c.config _ b.config_after
            b.other_configs counted h.configs;
      roles = subst (Everywhere IsSoundRole) (sym b.roles) h.roles;
    }

enforced-IsSound :
    (rt : Runtime) (c : SetWalletPolicyAccounts) (status : PolicyStatus) (s : Chain) {s' : Chain}
    {event : WalletPolicyChanged}
    → Compliance.set_wallet_policy rt c status s ≡ ok (s', event)
    → IsSound rt s
    → IsSound rt s'
enforced-IsSound rt c status s e h =
    let (account, found, l, _, _, _, _, same) = set_wallet_policy-IsEnforced rt c status s e in
    subst (IsSound rt) (sym same) (record { pools = h.pools; configs = h.configs; roles = h.roles })

pub process-IsSound :
    (rt : Runtime) (i : Instruction) (s : Chain) {s' : Chain}
    → process rt i s ≡ ok s'
    → IsSound rt s
    → IsSound rt s'
unfolding process
process-IsSound rt (initialize_stablecoin c args) s e =
    issued-IsSound rt c args s (chain_after-ok _ e).1
process-IsSound rt (grant_minter c allowance) s e =
    granted-IsSound rt c allowance s (chain_after-ok _ e).1
process-IsSound rt (revoke_minter c) s e = revoked-IsSound rt c s (chain_after-ok _ e).1
process-IsSound rt (set_wallet_policy c status) s e =
    enforced-IsSound rt c status s (chain_after-ok _ e).1
process-IsSound rt (mint_to c amount) s e = minted-IsSound rt c amount s (chain_after-ok _ e).1
process-IsSound rt (burn c amount) s e = burned-IsSound rt c amount s (chain_after-ok _ e).1
process-IsSound rt (set_pause c paused) s e = paused-IsSound rt c paused s (chain_after-ok _ e).1
process-IsSound rt (update_config c cap authority nominee) s e =
    update_config-IsSound rt c cap authority nominee s (chain_after-ok _ e).1
process-IsSound rt (accept_admin signer config) s e =
    accept_admin-IsSound rt signer config s (chain_after-ok _ e).1
