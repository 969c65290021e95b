-- ===== src/Stablecoin/Issuance/Minting.antt =====
-- What a `mint_to` that succeeds has done.
use solana_stablecoin_amm.Base.{
  ℕ, ◌+◌, ◌<◌, ◌≤◌, ◌≡◌, ◌≢◌, false, arith, some, ok, >>=-eq-ok, checked_add,
}
use solana_stablecoin_amm.Chain.{Pubkey, Ledger, Runtime, invoke, supply_at}
use solana_stablecoin_amm.State.{MintConfig, MinterRole, WalletPolicy, allowed, Chain}
use solana_stablecoin_amm.Stablecoin.{ensure_supply_tracked, check_config}
use solana_stablecoin_amm.Stablecoin.Issuance.{
  MintToAccounts, MintToContext, TokensMinted, mint_to_context, mint_to_checks, mint_to_settle,
  mint_to,
}
use solana_stablecoin_amm.Stablecoin.Issuance.Tracked.{
  IsTracked, ensure_supply_tracked-ok, check_config-ok, supply_of_some,
}

-- The accounts of a `mint_to` agree with the chain and with one another.
record IsMintToContext (rt : Runtime) (c : MintToAccounts) (s : Chain) (a : MintToContext)
    : Type 0 where
  mint : s.ledger.mints c.mint ≡ some a.mint
  config : s.configs c.config ≡ some a.config
  role : s.roles c.minter_role ≡ some a.minter_role
  policy : s.policies c.wallet_policy ≡ some a.wallet_policy
  role_config : a.minter_role.config ≡ c.config
  role_authority : a.minter_role.authority ≡ c.minter
  policy_mint : a.wallet_policy.mint ≡ c.mint
  checked : check_config rt c.mint c.config a.config ≡ ok tt

mint_to_context-ok :
    (rt : Runtime) (c : MintToAccounts) (s : Chain) {a : MintToContext}
    → mint_to_context rt c s ≡ ok a
    → IsMintToContext rt c s a
unfolding mint_to_context
mint_to_context-ok rt c s {a} h = ground arith

-- What the handler's checks establish.
record IsMintable (a : MintToContext) (amount minted new_supply total_minted : ℕ) : Type 0 where
  positive : 0 < amount
  unpaused : a.config.paused ≡ false
  permitted : a.wallet_policy.status ≡ allowed
  minted_sum : minted ≡ a.minter_role.minted + amount
  allowance : minted ≤ a.minter_role.allowance
  supply_sum : new_supply ≡ a.mint.supply + amount
  cap : new_supply ≤ a.config.supply_cap
  total_sum : total_minted ≡ a.config.total_minted + amount

mint_to_checks-ok :
    (a : MintToContext) (amount : ℕ) {minted new_supply total_minted : ℕ}
    → mint_to_checks a amount ≡ ok (minted, new_supply, total_minted)
    → IsMintable a amount minted new_supply total_minted
unfolding mint_to_checks checked_add
mint_to_checks-ok a amount h = ground arith

-- What the handler writes after its call, and has checked.
mint_to_settle-ok :
    (c : MintToAccounts) (a : MintToContext) (amount minted new_supply total_minted : ℕ)
    (l : Ledger) (s : Chain) {s' : Chain} {event : TokensMinted}
    → mint_to_settle c a amount (minted, new_supply, total_minted) l s ≡ ok (s', event)
    → ((s'.configs c.config ≡ some (record (a.config) { total_minted = total_minted }))
        × (s'.roles c.minter_role ≡ some (record (a.minter_role) { minted = minted }))
        × (supply_at s'.ledger c.mint ≡ new_supply))
      × ((s'.policies ≡ s.policies) × (s'.pools ≡ s.pools) × (s'.ledger ≡ l))
      × (ensure_supply_tracked (record (a.config) { total_minted = total_minted }) new_supply
          ≡ ok tt)
unfolding mint_to_settle
mint_to_settle-ok c a amount minted new_supply total_minted l s h = ground arith

mint_to_settle-others :
    (c : MintToAccounts) (a : MintToContext) (amount minted new_supply total_minted : ℕ)
    (l : Ledger) (s : Chain) {s' : Chain} {event : TokensMinted} (k : Pubkey)
    → mint_to_settle c a amount (minted, new_supply, total_minted) l s ≡ ok (s', event)
    → (k ≢ c.config → s'.configs k ≡ s.configs k) × (k ≢ c.minter_role → s'.roles k ≡ s.roles k)
unfolding mint_to_settle
mint_to_settle-others c a amount minted new_supply total_minted l s k h = ground arith

-- What minting `amount` under a configuration, a role and a policy has done to the chain.
pub record IsMinted (c : MintToAccounts) (amount : ℕ) (config : MintConfig) (role : MinterRole)
    (policy : WalletPolicy) (s s' : Chain) : Type 0 where
  pub positive : 0 < amount
  pub unpaused : config.paused ≡ false
  pub policy_stored : s.policies c.wallet_policy ≡ some policy
  pub permitted : policy.status ≡ allowed
  pub role_stored : s.roles c.minter_role ≡ some role
  pub role_authority : role.authority ≡ c.minter
  pub role_config : role.config ≡ c.config
  pub config_stored : s.configs c.config ≡ some config
  pub config_mint : config.mint ≡ c.mint
  pub allowance : role.minted + amount ≤ role.allowance
  pub supply : supply_at s'.ledger c.mint ≡ supply_at s.ledger c.mint + amount
  pub cap : supply_at s'.ledger c.mint ≤ config.supply_cap
  pub role_after : s'.roles c.minter_role ≡ some (record role { minted = role.minted + amount })
  pub config_after :
      s'.configs c.config ≡ some (record config { total_minted = config.total_minted + amount })
  pub tracked :
      IsTracked
        (record config { total_minted = config.total_minted + amount })
        (supply_at s'.ledger c.mint)
  pub other_configs : (k : Pubkey) → k ≢ c.config → s'.configs k ≡ s.configs k
  pub other_roles : (k : Pubkey) → k ≢ c.minter_role → s'.roles k ≡ s.roles k
  pub policies : s'.policies ≡ s.policies
  pub pools : s'.pools ≡ s.pools

mint_to-stages :
    (rt : Runtime) (c : MintToAccounts) (amount : ℕ) (s : Chain) {done : Chain × TokensMinted}
    → mint_to rt c amount s ≡ ok done
    → (a : MintToContext) × (totals : ℕ × ℕ × ℕ) × (l : Ledger) × (mint_to_context rt c s ≡ ok a)
      × (mint_to_checks a amount ≡ ok totals)
      × (mint_to_settle c a amount totals l s ≡ ok done)
unfolding mint_to
mint_to-stages rt c amount s h =
    let (a, ea, rest) = >>=-eq-ok _ _ h in
    let (totals, et, last) = >>=-eq-ok _ _ rest in
    let call = rt.mint_to_checked c.mint c.destination c.config amount a.mint.decimals s.ledger in
    let (l, el, settle) =
      >>=-eq-ok (invoke call) (λ l. mint_to_settle c a amount totals l s) last in
    (a, totals, l, ea, et, settle)

-- A `mint_to` that succeeds was for a positive amount, by the minter that the role names, on an
-- unpaused mint, under a policy account that allows it. It raised the live supply by the amount
-- to at most the cap, the minter's total by the amount to at most the allowance, and the issuance
-- counter by the amount; the counters cover the new supply, and nothing else that the program
-- stores has changed.
pub mint_to-IsMinted :
    (rt : Runtime) (c : MintToAccounts) (amount : ℕ) (s : Chain) {s' : Chain} {event : TokensMinted}
    → mint_to rt c amount s ≡ ok (s', event)
    → (config : MintConfig) × (role : MinterRole) × (policy : WalletPolicy) × IsMinted c amount
        config role policy s s'
mint_to-IsMinted rt c amount s {s'} h =
    let (a, totals, l, ea, et, settle) = mint_to-stages rt c amount s h in
    let ctx = mint_to_context-ok rt c s ea in
    let m = mint_to_checks-ok a amount et in
    let ((ec, er, es), (ew, ep, el), tracked) =
      mint_to_settle-ok c a amount totals.0 totals.1 totals.2 l s settle in
    let others =
      λ (k : Pubkey). mint_to_settle-others c a amount totals.0 totals.1 totals.2 l s k settle in
    let before = supply_of_some s.ledger c.mint a.mint ctx.mint in
    (
      a.config,
      a.minter_role,
      a.wallet_policy,
      record {
        positive = m.positive;
        unpaused = m.unpaused;
        policy_stored = ctx.policy;
        permitted = m.permitted;
        role_stored = ctx.role;
        role_authority = ctx.role_authority;
        role_config = ctx.role_config;
        config_stored = ctx.config;
        config_mint = check_config-ok rt c.mint c.config a.config ctx.checked;
        allowance = rw m.minted_sum at m.allowance;
        supply = omega (arith, es, m.supply_sum, before);
        cap = omega (arith, es, m.cap);
        role_after = rw m.minted_sum at er;
        config_after = rw m.total_sum at ec;
        tracked = omega (arith, ensure_supply_tracked-ok _ _ tracked, es, m.total_sum);
        other_configs = λ k. (others k).0;
        other_roles = λ k. (others k).1;
        policies = ew;
        pools = ep;
      },
    )
