-- ===== src/Stablecoin/Admin/Effects.antt =====
-- What `update_config` and `accept_admin` can change.
use solana_stablecoin_amm.Base.{
  guard-ok, ℕ, ◌<◌, ◌≤◌, ◌≡◌, ◌≢◌, Option, some, none, arith, ok, >>=-eq-ok, checked_sub, ap, ◌∙◌,
  subst, ◌>>=◌,
}
use solana_stablecoin_amm.Math.{max_supply_cap}
use solana_stablecoin_amm.Chain.{Pubkey, Mint, Runtime, supply_at, update}
use solana_stablecoin_amm.State.{MintConfig, Chain}
use solana_stablecoin_amm.Stablecoin.{ensure_supply_tracked, check_config}
use solana_stablecoin_amm.Stablecoin.Issuance.Tracked.{check_config-ok}
use solana_stablecoin_amm.Stablecoin.Admin.{
  UpdateConfigAccounts, ConfigUpdated, AdminAccepted, set_supply_cap, set_compliance_authority,
  set_pending_admin, new_config, update_config, accept_admin,
}

-- The field after an optional change.
abbrev pub replaced {ℓ} : {A : Type ℓ} → Option A → A → A
replaced none old = old
replaced (some new) old = new

abbrev pub replaced_pending : Option Pubkey → Option Pubkey → Option Pubkey
replaced_pending none old = old
replaced_pending (some new) old = some new

-- The bounds on a requested cap, against the live supply.
abbrev pub IsCap : Option ℕ → ℕ → Type 0
IsCap none supply = Unit
IsCap (some cap) supply = (0 < cap) × (cap ≤ max_supply_cap) × (supply ≤ cap)

abbrev pub IsNominee : Option Pubkey → Pubkey → Type 0
IsNominee none admin = Unit
IsNominee (some nominee) admin = (nominee ≢ 0) × (nominee ≢ admin)

set_supply_cap-ok :
    (cap : Option ℕ) (supply : ℕ) (config : MintConfig) {config' : MintConfig}
    → set_supply_cap cap supply config ≡ ok config'
    → IsCap cap supply × (config' ≡ record config { supply_cap = replaced cap config.supply_cap })
unfolding set_supply_cap ensure_supply_tracked checked_sub
set_supply_cap-ok none supply config h = (tt, ground arith)
set_supply_cap-ok (some cap) supply config h = ground arith

set_compliance_authority-ok :
    (authority : Option Pubkey) (config : MintConfig) {config' : MintConfig}
    → set_compliance_authority authority config ≡ ok config'
    → config'
      ≡ record config { compliance_authority = replaced authority config.compliance_authority }
unfolding set_compliance_authority
set_compliance_authority-ok none config h = ground arith
set_compliance_authority-ok (some authority) config h = ground arith

set_pending_admin-ok :
    (nominee : Option Pubkey) (config : MintConfig) {config' : MintConfig}
    → set_pending_admin nominee config ≡ ok config'
    → IsNominee nominee config.admin
      × (config' ≡ record config { pending_admin = replaced_pending nominee config.pending_admin })
unfolding set_pending_admin
set_pending_admin-ok none config h = (tt, ground arith)
set_pending_admin-ok (some nominee) config h = ground arith

-- What a configuration becomes; every field that is not written here stays as it was.
abbrev pub updated : Option ℕ → Option Pubkey → Option Pubkey → MintConfig → MintConfig
updated cap authority nominee config = record config {
  supply_cap = replaced cap config.supply_cap;
  compliance_authority = replaced authority config.compliance_authority;
  pending_admin = replaced_pending nominee config.pending_admin;
}

abbrev compliant_config : Option Pubkey → MintConfig → MintConfig
compliant_config authority c = record c {
  compliance_authority = replaced authority c.compliance_authority;
}

abbrev nominated_config : Option Pubkey → MintConfig → MintConfig
nominated_config nominee c = record c { pending_admin = replaced_pending nominee c.pending_admin }

new_config-ok :
    (cap : Option ℕ) (authority nominee : Option Pubkey) (supply : ℕ) (config : MintConfig)
    {config' : MintConfig}
    → new_config cap authority nominee supply config ≡ ok config'
    → IsCap cap supply
      × IsNominee nominee config.admin
      × (config' ≡ updated cap authority nominee config)
unfolding new_config
new_config-ok cap authority nominee supply config h =
    let rest = guard-ok _ _ _ h in
    let (capped, e1, rest1) =
      >>=-eq-ok (set_supply_cap cap supply config)
        (λ capped. set_compliance_authority authority capped >>= set_pending_admin nominee) rest in
    let (compliant, e2, e3) =
      >>=-eq-ok (set_compliance_authority authority capped) (set_pending_admin nominee) rest1 in
    let (is_cap, p1) = set_supply_cap-ok cap supply config e1 in
    let p2 = set_compliance_authority-ok authority capped e2 in
    let (nominated, p3) = set_pending_admin-ok nominee compliant e3 in
    let admin_kept = ap (λ c. c.admin) p2 ∙ ap (λ c. c.admin) p1 in
    (
      is_cap,
      subst (IsNominee nominee) admin_kept nominated,
      p3 ∙ ap (nominated_config nominee) (p2 ∙ ap (compliant_config authority) p1),
    )

update_config-raw :
    (rt : Runtime) (c : UpdateConfigAccounts) (cap : Option ℕ) (authority nominee : Option Pubkey)
    (s : Chain) {s' : Chain} {event : ConfigUpdated}
    → update_config rt c cap authority nominee s ≡ ok (s', event)
    → (m : Mint) × (config : MintConfig) × (config' : MintConfig) × (s.ledger.mints c.mint ≡ some m)
      × (s.configs c.config ≡ some config)
      × ((check_config rt c.mint c.config config ≡ ok tt) × (config.admin ≡ c.admin))
      × (new_config cap authority nominee m.supply config ≡ ok config')
      × (s' ≡ record s { configs = update s.configs c.config (some config') })
unfolding update_config
update_config-raw rt c cap authority nominee s h = ground arith

-- An `update_config` that succeeds was signed by the administrator of the stored configuration of
-- the mint that it names. A new cap is positive, within the largest cap and not below the live
-- supply of that mint; a nominee is neither the default key nor the administrator. The only
-- change to the chain is that configuration, where the cap, the compliance authority and the
-- nominee are the given ones and every other field, with the administrator and the pause flag, is
-- kept.
pub update_config-IsUpdated :
    (rt : Runtime) (c : UpdateConfigAccounts) (cap : Option ℕ) (authority nominee : Option Pubkey)
    (s : Chain) {s' : Chain} {event : ConfigUpdated}
    → update_config rt c cap authority nominee s ≡ ok (s', event)
    → (config : MintConfig) × (s.configs c.config ≡ some config)
      × ((config.mint ≡ c.mint) × (config.admin ≡ c.admin))
      × IsCap cap (supply_at s.ledger c.mint)
      × IsNominee nominee c.admin
      × (s' ≡ record s {
        configs = update s.configs c.config (some (updated cap authority nominee config));
      })
update_config-IsUpdated rt c cap authority nominee s {s'} h =
    let (m, config, config', em, ec, (tied, signed), en, es) =
      update_config-raw rt c cap authority nominee s h in
    let (is_cap, nominated, changed) = new_config-ok cap authority nominee m.supply config en in
    let live : m.supply ≡ supply_at s.ledger c.mint = ground arith in
    (
      config,
      ec,
      (check_config-ok rt c.mint c.config config tied, signed),
      subst (IsCap cap) live is_cap,
      subst (IsNominee nominee) signed nominated,
      subst (λ k. s' ≡ record s { configs = update s.configs c.config (some k) }) changed es,
    )

-- An `accept_admin` that succeeds was signed by the nominee that the configuration names. The
-- only change to the chain is that this configuration has the signer as its administrator and no
-- nominee, and the event names the old and the new administrator.
pub accept_admin-IsHandover :
    (rt : Runtime) (signer address : Pubkey) (s : Chain) {s' : Chain} {event : AdminAccepted}
    → accept_admin rt signer address s ≡ ok (s', event)
    → (config : MintConfig) × (s.configs address ≡ some config)
      × (config.pending_admin ≡ some signer)
      × (s' ≡ record s {
        configs =
            update s.configs address
              (some (record config { admin = signer; pending_admin = none }));
      })
      × (event ≡ record { mint = config.mint; previous_admin = config.admin; admin = signer })
unfolding accept_admin
accept_admin-IsHandover rt signer address s h = ground arith

-- After an `accept_admin` that succeeds, a second one on the same configuration is refused,
-- whoever signs it.
accept_admin-once :
    (rt : Runtime) (signer address : Pubkey) (s : Chain) {s' s'' : Chain}
    {event event' : AdminAccepted} (other : Pubkey)
    → accept_admin rt signer address s ≡ ok (s', event)
    → accept_admin rt other address s' ≢ ok (s'', event')
unfolding accept_admin
accept_admin-once rt signer address s other h again = ground arith
