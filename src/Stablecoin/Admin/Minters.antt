-- ===== src/Stablecoin/Admin/Minters.antt =====
-- What `grant_minter` and `revoke_minter` can change, and that a revoked role mints no more.
use solana_stablecoin_amm.Base.{ℕ, [], ◌∷◌, ap, ◌∙◌, ◌<◌, ◌≡◌, ◌≢◌, arith, some, none, ok}
use solana_stablecoin_amm.Chain.{Pubkey, Runtime, text, key, bump, update}
use solana_stablecoin_amm.Chain.Laws.{written, unwritten}
use solana_stablecoin_amm.Chain.Addresses.{IsCanonical}
use solana_stablecoin_amm.Stablecoin.{config_seed, minter_seed, check_seeds}
use solana_stablecoin_amm.State.{MintConfig, MinterRole, Chain}
use solana_stablecoin_amm.Stablecoin.Issuance.{MintToAccounts, TokensMinted, mint_to}
use solana_stablecoin_amm.Stablecoin.Issuance.Minting.{mint_to-IsMinted}
use solana_stablecoin_amm.Stablecoin.Admin.{
  MinterAccounts, MinterGranted, MinterRevoked, check_admin, init_role, grant_minter, revoke_minter,
}

-- The role that `grant_minter` stores.
abbrev pub fresh_role : MinterAccounts → ℕ → ℕ → MinterRole
fresh_role c allowance found = record {
  config = c.config;
  authority = c.authority;
  allowance = allowance;
  minted = 0;
  bump = found;
}

check_admin-ok :
    (rt : Runtime) (c : MinterAccounts) (config : MintConfig)
    → check_admin rt c config ≡ ok tt
    → config.admin ≡ c.admin
unfolding check_admin
check_admin-ok rt c config h = ground arith

init_role-free :
    (rt : Runtime) (c : MinterAccounts) (s : Chain) {found : ℕ}
    → init_role rt c s ≡ ok found
    → s.roles c.minter_role ≡ none
unfolding init_role
init_role-free rt c s h = ground arith

grant_minter-raw :
    (rt : Runtime) (c : MinterAccounts) (allowance : ℕ) (s : Chain) {s' : Chain}
    {event : MinterGranted}
    → grant_minter rt c allowance s ≡ ok (s', event)
    → (config : MintConfig) × (found : ℕ) × (s.configs c.config ≡ some config)
      × (init_role rt c s ≡ ok found)
      × (check_admin rt c config ≡ ok tt)
      × (0 < allowance)
      × (c.authority ≢ 0)
      × (s'
          ≡ record s { roles = update s.roles c.minter_role (some (fresh_role c allowance found)) })
unfolding grant_minter
grant_minter-raw rt c allowance s h = ground arith

pub grant_minter-stored :
    (rt : Runtime) (c : MinterAccounts) (allowance : ℕ) (s : Chain) {s' : Chain}
    {event : MinterGranted}
    → grant_minter rt c allowance s ≡ ok (s', event)
    → (config : MintConfig) × (found : ℕ) × (s.configs c.config ≡ some config)
      × (config.admin ≡ c.admin)
      × (s.roles c.minter_role ≡ none)
      × (0 < allowance)
      × (c.authority ≢ 0)
      × (s'
          ≡ record s { roles = update s.roles c.minter_role (some (fresh_role c allowance found)) })
grant_minter-stored rt c allowance s h =
    let (config, found, stored, free, signed, positive, proper, same) =
      grant_minter-raw rt c allowance s h in
    (
      config,
      found,
      stored,
      check_admin-ok rt c config signed,
      init_role-free rt c s free,
      positive,
      proper,
      same,
    )

check_admin-seeds :
    (rt : Runtime) (c : MinterAccounts) (config : MintConfig)
    → check_admin rt c config ≡ ok tt
    → rt.create_program_address
        (text config_seed ∷ key config.mint ∷ bump config.bump ∷ [])
        rt.stablecoin_id
      ≡ some c.config
unfolding check_admin check_seeds
check_admin-seeds rt c config h = ground arith

init_role-IsCanonical :
    (rt : Runtime) (c : MinterAccounts) (s : Chain) {found : ℕ}
    → init_role rt c s ≡ ok found
    → IsCanonical rt
        (text minter_seed ∷ key c.config ∷ key c.authority ∷ [])
        rt.stablecoin_id
        c.minter_role
        found
unfolding init_role
init_role-IsCanonical rt c s h = ground arith

-- What granting a role has done to what the program stores.
pub record IsGranted (rt : Runtime) (c : MinterAccounts) (allowance : ℕ) (s s' : Chain)
    : Type 0 where
  pub config : MintConfig
  pub config_stored : s.configs c.config ≡ some config
  pub config_derived :
      rt.create_program_address
        (text config_seed ∷ key config.mint ∷ bump config.bump ∷ [])
        rt.stablecoin_id
      ≡ some c.config
  pub signed : config.admin ≡ c.admin
  pub positive : 0 < allowance
  pub proper : c.authority ≢ 0
  pub found : ℕ
  pub located :
      IsCanonical rt
        (text minter_seed ∷ key c.config ∷ key c.authority ∷ [])
        rt.stablecoin_id
        c.minter_role
        found
  pub free : s.roles c.minter_role ≡ none
  pub granted : s'.roles c.minter_role ≡ some (fresh_role c allowance found)
  pub other_roles : (k : Pubkey) → k ≢ c.minter_role → s'.roles k ≡ s.roles k
  pub configs : s'.configs ≡ s.configs
  pub policies : s'.policies ≡ s.policies
  pub pools : s'.pools ≡ s.pools

-- A `grant_minter` that succeeds was signed by the administrator of a stored configuration whose
-- address is derived from its mint, for a positive allowance and a minter that is not the default
-- key, at the canonical address for the configuration and the minter, which held no role. Of what
-- the program stores, the only change is the new role at that address, with the given allowance
-- and nothing minted.
pub grant_minter-IsGranted :
    (rt : Runtime) (c : MinterAccounts) (allowance : ℕ) (s : Chain) {s' : Chain}
    {event : MinterGranted}
    → grant_minter rt c allowance s ≡ ok (s', event)
    → IsGranted rt c allowance s s'
grant_minter-IsGranted rt c allowance s {s'} h =
    let (config, found, stored, free, signed, positive, proper, same) =
      grant_minter-raw rt c allowance s h in
    record {
      config = config;
      config_stored = stored;
      config_derived = check_admin-seeds rt c config signed;
      signed = check_admin-ok rt c config signed;
      positive = positive;
      proper = proper;
      found = found;
      located = init_role-IsCanonical rt c s free;
      free = init_role-free rt c s free;
      granted = ap (λ t. t.roles c.minter_role) same ∙ written s.roles c.minter_role _;
      other_roles = λ k ne. rw same (unwritten s.roles c.minter_role _ k ne);
      configs = ap (λ t. t.configs) same;
      policies = ap (λ t. t.policies) same;
      pools = ap (λ t. t.pools) same;
    }

pub revoke_minter-after :
    (rt : Runtime) (c : MinterAccounts) (s : Chain) {s' : Chain} {event : MinterRevoked}
    → revoke_minter rt c s ≡ ok (s', event)
    → s' ≡ record s { roles = update s.roles c.minter_role none }
unfolding revoke_minter
revoke_minter-after rt c s h = ground arith

revoke_minter-gone :
    (rt : Runtime) (c : MinterAccounts) (s : Chain) {s' : Chain} {event : MinterRevoked}
    → revoke_minter rt c s ≡ ok (s', event)
    → s'.roles c.minter_role ≡ none
unfolding revoke_minter
revoke_minter-gone rt c s h = ground arith

-- After a `revoke_minter` that succeeds, every `mint_to` under the revoked role fails, whatever
-- its other accounts and its amount.
pub revoke_minter-stops :
    (rt : Runtime) (c : MinterAccounts) (d : MintToAccounts) (amount : ℕ) (s : Chain)
    {s' s'' : Chain} {event : MinterRevoked} {event' : TokensMinted}
    → revoke_minter rt c s ≡ ok (s', event)
    → d.minter_role ≡ c.minter_role
    → mint_to rt d amount s' ≢ ok (s'', event')
revoke_minter-stops rt c d amount s {s'} revoked same minted =
    let (config, role, policy, m) = mint_to-IsMinted rt d amount s' minted in
    let stored = m.role_stored in let gone = revoke_minter-gone rt c s revoked in cc
