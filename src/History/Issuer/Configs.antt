-- ===== src/History/Issuer/Configs.antt =====
-- The instructions that write one configuration and nothing else that must be sound.
use solana_stablecoin_amm.Base.{ℕ, ◌≡◌, sym, subst, Bool, none, some, Option, ok}
use solana_stablecoin_amm.Chain.{Pubkey, Ledger, Runtime, update}
use solana_stablecoin_amm.State.{MintConfig, Chain}
use solana_stablecoin_amm.Stablecoin.Admin
use solana_stablecoin_amm.Stablecoin.Admin.{
  UpdateConfigAccounts, ConfigUpdated, MinterAccounts, MinterGranted, MinterRevoked, AdminAccepted,
}
use solana_stablecoin_amm.Stablecoin.Admin.Effects.{
  IsCap, IsNominee, updated, update_config-IsUpdated, accept_admin-IsHandover,
}
use solana_stablecoin_amm.Stablecoin.Compliance
use solana_stablecoin_amm.Stablecoin.Compliance.{
  SetPauseAccounts, PauseChanged, SetWalletPolicyAccounts, WalletPolicyChanged,
}
use solana_stablecoin_amm.Stablecoin.Compliance.Effects.{set_pause-IsSwitched}
use solana_stablecoin_amm.History.Everywhere.{Everywhere-update}
use solana_stablecoin_amm.History.Sound.{IsSoundConfig, IsSound}

-- One configuration is written.
pub config_written :
    (rt : Runtime) (s : Chain) (l : Ledger) (k : Pubkey) (config : MintConfig)
    → IsSound rt s
    → IsSoundConfig rt k config
    → IsSound rt (record s { ledger = l; configs = update s.configs k (some config) })
config_written rt s l k config h sound = record {
  pools = h.pools;
  configs = Everywhere-update (IsSoundConfig rt) s.configs k config sound h.configs;
  roles = h.roles;
}

-- A configuration with a new cap, a new compliance authority or a new nominee is as sound as before.
updated-IsSoundConfig :
    (rt : Runtime) (k : Pubkey) (cap : Option ℕ) (authority nominee : Option Pubkey) (supply : ℕ)
    (config : MintConfig)
    → IsCap cap supply
    → IsNominee nominee config.admin
    → IsSoundConfig rt k config
    → IsSoundConfig rt k (updated cap authority nominee config)
updated-IsSoundConfig rt k none authority none supply config c n h = record {
  address = h.address;
  mint = h.mint;
  cap_pos = h.cap_pos;
  cap_bound = h.cap_bound;
  decimals = h.decimals;
  burned = h.burned;
  nominee = h.nominee;
}
updated-IsSoundConfig rt k none authority (some j) supply config c n h = record {
  address = h.address;
  mint = h.mint;
  cap_pos = h.cap_pos;
  cap_bound = h.cap_bound;
  decimals = h.decimals;
  burned = h.burned;
  nominee = λ same. n.1 (cc);
}
updated-IsSoundConfig rt k (some cap) authority none supply config c n h = record {
  address = h.address;
  mint = h.mint;
  cap_pos = c.0;
  cap_bound = c.1;
  decimals = h.decimals;
  burned = h.burned;
  nominee = h.nominee;
}
updated-IsSoundConfig rt k (some cap) authority (some j) supply config c n h = record {
  address = h.address;
  mint = h.mint;
  cap_pos = c.0;
  cap_bound = c.1;
  decimals = h.decimals;
  burned = h.burned;
  nominee = λ same. n.1 (cc);
}

pub update_config-IsSound :
    (rt : Runtime) (c : UpdateConfigAccounts) (cap : Option ℕ) (authority nominee : Option Pubkey)
    (s : Chain) {s' : Chain} {event : ConfigUpdated}
    → Admin.update_config rt c cap authority nominee s ≡ ok (s', event)
    → IsSound rt s
    → IsSound rt s'
update_config-IsSound rt c cap authority nominee s e h =
    let (config, stored, (_, signed), is_cap, nominated, same) =
      update_config-IsUpdated rt c cap authority nominee s e in
    subst (IsSound rt) (sym same) (
      config_written rt s s.ledger c.config _ h (
        updated-IsSoundConfig rt c.config cap authority nominee _ config is_cap
          (rw signed nominated) (h.configs c.config config stored)))

pub accept_admin-IsSound :
    (rt : Runtime) (signer address : Pubkey) (s : Chain) {s' : Chain} {event : AdminAccepted}
    → Admin.accept_admin rt signer address s ≡ ok (s', event)
    → IsSound rt s
    → IsSound rt s'
accept_admin-IsSound rt signer address s e h =
    let (config, stored, _, same, _) = accept_admin-IsHandover rt signer address s e in
    let old = h.configs address config stored in
    let sound : IsSoundConfig rt address (record config { admin = signer; pending_admin = none }) =
      record {
        address = old.address;
        mint = old.mint;
        cap_pos = old.cap_pos;
        cap_bound = old.cap_bound;
        decimals = old.decimals;
        burned = old.burned;
        nominee = λ p. cc;
      } in
    subst (IsSound rt) (sym same) (config_written rt s s.ledger address _ h sound)

pub paused-IsSound :
    (rt : Runtime) (c : SetPauseAccounts) (paused : Bool) (s : Chain) {s' : Chain}
    {event : PauseChanged}
    → Compliance.set_pause rt c paused s ≡ ok (s', event)
    → IsSound rt s
    → IsSound rt s'
paused-IsSound rt c paused s e h =
    let (config, l, stored, _, _, _, _, same) = set_pause-IsSwitched rt c paused s e in
    let old = h.configs c.config config stored in
    let sound : IsSoundConfig rt c.config (record config { paused = paused }) = record {
      address = old.address;
      mint = old.mint;
      cap_pos = old.cap_pos;
      cap_bound = old.cap_bound;
      decimals = old.decimals;
      burned = old.burned;
      nominee = old.nominee;
    } in
    subst (IsSound rt) (sym same) (config_written rt s l c.config _ h sound)
