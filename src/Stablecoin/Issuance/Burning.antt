-- ===== src/Stablecoin/Issuance/Burning.antt =====
-- What a `burn` that succeeds has done.
use solana_stablecoin_amm.Base.{
  ℕ, ◌+◌, ◌-◌, ◌<◌, ◌≡◌, ◌≢◌, false, arith, some, ok, >>=-eq-ok, checked_add, checked_sub,
}
use solana_stablecoin_amm.Chain.{Pubkey, TokenAccount, Ledger, Runtime, invoke, supply_at}
use solana_stablecoin_amm.State.{MintConfig, Chain}
use solana_stablecoin_amm.Stablecoin.{ensure_supply_tracked, check_config}
use solana_stablecoin_amm.Stablecoin.Issuance.{
  BurnAccounts, BurnContext, TokensBurned, burn_context, burn_checks, burn_settle, burn,
}
use solana_stablecoin_amm.Stablecoin.Issuance.Tracked.{
  IsTracked, ensure_supply_tracked-ok, check_config-ok, supply_of_some,
}

burn_context-ok :
    (rt : Runtime) (c : BurnAccounts) (s : Chain) {a : BurnContext}
    → burn_context rt c s ≡ ok a
    → ((s.ledger.mints c.mint ≡ some a.mint)
        × (s.configs c.config ≡ some a.config)
        × (check_config rt c.mint c.config a.config ≡ ok tt))
      × ((s.ledger.accounts c.source ≡ some a.source)
          × (a.source.owner ≡ c.owner)
          × (a.source.mint ≡ c.mint))
unfolding burn_context
burn_context-ok rt c s h = ground arith

burn_checks-ok :
    (a : BurnContext) (amount : ℕ) {total_burned : ℕ}
    → burn_checks a amount ≡ ok total_burned
    → (0 < amount) × (a.config.paused ≡ false) × (total_burned ≡ a.config.total_burned + amount)
unfolding burn_checks checked_add
burn_checks-ok a amount h = ground arith

burn_settle-ok :
    (c : BurnAccounts) (a : BurnContext) (amount total_burned : ℕ) (l : Ledger) (s : Chain)
    {s' : Chain} {event : TokensBurned}
    → burn_settle c a amount total_burned l s ≡ ok (s', event)
    → ((s'.configs c.config ≡ some (record (a.config) { total_burned = total_burned }))
        × (supply_at s'.ledger c.mint + amount ≡ a.mint.supply)
        × (s'.ledger ≡ l))
      × ((s'.policies ≡ s.policies) × (s'.pools ≡ s.pools) × (s'.roles ≡ s.roles))
      × (ensure_supply_tracked
            (record (a.config) { total_burned = total_burned })
            (a.mint.supply - amount)
          ≡ ok tt)
unfolding burn_settle checked_sub
burn_settle-ok c a amount total_burned l s h = ground arith

burn_settle-others :
    (c : BurnAccounts) (a : BurnContext) (amount total_burned : ℕ) (l : Ledger) (s : Chain)
    {s' : Chain} {event : TokensBurned} (k : Pubkey)
    → burn_settle c a amount total_burned l s ≡ ok (s', event)
    → k ≢ c.config
    → s'.configs k ≡ s.configs k
unfolding burn_settle
burn_settle-others c a amount total_burned l s k h = ground arith

pub burn-stages :
    (rt : Runtime) (c : BurnAccounts) (amount : ℕ) (s : Chain) {done : Chain × TokensBurned}
    → burn rt c amount s ≡ ok done
    → (a : BurnContext) × (total_burned : ℕ) × (l : Ledger) × (burn_context rt c s ≡ ok a)
      × (burn_checks a amount ≡ ok total_burned)
      × (burn_settle c a amount total_burned l s ≡ ok done)
unfolding burn
burn-stages rt c amount s h =
    let (a, ea, rest) = >>=-eq-ok _ _ h in
    let (total, et, last) = >>=-eq-ok _ _ rest in
    let call = rt.burn_checked c.mint c.source c.owner amount a.mint.decimals s.ledger in
    let (l, el, settle) = >>=-eq-ok (invoke call) (λ l. burn_settle c a amount total l s) last in
    (a, total, l, ea, et, settle)

-- What burning `amount` under a configuration has done to the chain.
pub record IsBurned (c : BurnAccounts) (amount : ℕ) (config : MintConfig) (s s' : Chain)
    : Type 0 where
  pub positive : 0 < amount
  pub unpaused : config.paused ≡ false
  pub config_stored : s.configs c.config ≡ some config
  pub config_mint : config.mint ≡ c.mint
  pub supply : supply_at s'.ledger c.mint + amount ≡ supply_at s.ledger c.mint
  pub config_after :
      s'.configs c.config ≡ some (record config { total_burned = config.total_burned + amount })
  pub tracked :
      IsTracked
        (record config { total_burned = config.total_burned + amount })
        (supply_at s'.ledger c.mint)
  pub other_configs : (k : Pubkey) → k ≢ c.config → s'.configs k ≡ s.configs k
  pub roles : s'.roles ≡ s.roles
  pub policies : s'.policies ≡ s.policies
  pub pools : s'.pools ≡ s.pools

-- A `burn` that succeeds was for a positive amount, under the stored configuration of the mint
-- that it names, which is not paused, and by the owner of an account of that mint. It lowered the
-- live supply and raised the burn counter by the amount, so that the counters still cover the
-- supply, and changed nothing else that the program stores.
pub burn-IsBurned :
    (rt : Runtime) (c : BurnAccounts) (amount : ℕ) (s : Chain) {s' : Chain} {event : TokensBurned}
    → burn rt c amount s ≡ ok (s', event)
    → (config : MintConfig) × (source : TokenAccount) × (s.ledger.accounts c.source ≡ some source)
      × (source.owner ≡ c.owner)
      × (source.mint ≡ c.mint)
      × IsBurned c amount config s s'
burn-IsBurned rt c amount s {s'} h =
    let (a, total, l, ea, et, settle) = burn-stages rt c amount s h in
    let ((em, ec, checked), (es, eo, ek)) = burn_context-ok rt c s ea in
    let (positive, unpaused, sum) = burn_checks-ok a amount et in
    let ((config, supply, el), (ew, ep, er), tracked) =
      burn_settle-ok c a amount total l s settle in
    let before = supply_of_some s.ledger c.mint a.mint em in
    (
      a.config,
      a.source,
      es,
      eo,
      ek,
      record {
        positive = positive;
        unpaused = unpaused;
        config_stored = ec;
        config_mint = check_config-ok rt c.mint c.config a.config checked;
        supply = omega (arith, supply, before);
        config_after = rw sum at config;
        tracked = omega (arith, ensure_supply_tracked-ok _ _ tracked, supply, sum);
        other_configs = λ k. burn_settle-others c a amount total l s k settle;
        roles = er;
        policies = ew;
        pools = ep;
      },
    )
