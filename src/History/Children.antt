-- ===== src/History/Children.antt =====
-- The child accounts of a new pool: programs/amm/src/instructions/initialize_pool.rs.
use solana_stablecoin_amm.Base.{ℕ, ◌<◌, ◌≤◌, ◌≡◌, ◌≢◌, ◌∙◌, true, none, some, ok, ap, refl}
use solana_stablecoin_amm.Math.{max_fee_bps}
use solana_stablecoin_amm.Chain.{Pubkey, Mint, Ledger, Runtime}
use solana_stablecoin_amm.Chain.Laws.{written, unwritten}
use solana_stablecoin_amm.Chain.Holdings.{title, HoldingLaws}
use solana_stablecoin_amm.Chain.Authorities.{charter, AuthorityLaws}
use solana_stablecoin_amm.State.{Chain}
use solana_stablecoin_amm.Amm.Setup.{
  InitializePoolAccounts, PoolBumps, PoolInitialized, stablecoin_decimals, all_supported, create_lp,
  create_children, new_pool, initialize_pool,
}
use solana_stablecoin_amm.Amm.Setup.Effects.{IsLocated, initialize_pool-IsSetUp}
use solana_stablecoin_amm.History.Calls.Stages.{create_lp-stages}
use solana_stablecoin_amm.History.Calls.Market.{create_pda_account-Preserves}
use solana_stablecoin_amm.History.Solvent.Covered.{create_children-titles}

-- The vaults and the locked account are for the right mints and belong to the pool, and the pool
-- alone mints the pool token, which has six decimals and nobody freezes.
pub record HasChildren (c : InitializePoolAccounts) (l : Ledger) : Type 0 where
  pub vault_a : title (l.accounts c.vault_a) ≡ some (c.mint_a, c.pool)
  pub vault_b : title (l.accounts c.vault_b) ≡ some (c.mint_b, c.pool)
  pub locked_lp : title (l.accounts c.locked_lp) ≡ some (c.lp_mint, c.pool)
  pub lp_mint : charter (l.mints c.lp_mint) ≡ some (stablecoin_decimals, some c.pool, none)

-- What setting up a pool has checked, and what it has stored.
pub record IsFounded (rt : Runtime) (c : InitializePoolAccounts) (fee_bps : ℕ) (s s' : Chain)
    : Type 0 where
  pub mint_a : Mint
  pub mint_b : Mint
  pub has_mint_a : s.ledger.mints c.mint_a ≡ some mint_a
  pub has_mint_b : s.ledger.mints c.mint_b ≡ some mint_b
  pub ordered : c.mint_a < c.mint_b
  pub fee_capped : fee_bps ≤ max_fee_bps
  pub decimals_a : mint_a.decimals ≡ stablecoin_decimals
  pub decimals_b : mint_b.decimals ≡ stablecoin_decimals
  pub supported_a : all_supported mint_a.extensions ≡ true
  pub bumps : PoolBumps
  pub located : IsLocated rt c bumps s
  pub free : s.pools c.pool ≡ none
  pub founded : s'.pools c.pool ≡ some (new_pool c bumps fee_bps stablecoin_decimals)
  pub other_pools : (k : Pubkey) → k ≢ c.pool → s'.pools k ≡ s.pools k
  pub configs : s'.configs ≡ s.configs
  pub policies : s'.policies ≡ s.policies
  pub roles : s'.roles ≡ s.roles

module _ (rt : Runtime) (laws : HoldingLaws rt) (authorities : AuthorityLaws rt) where
  create_lp-charter :
      (c : InitializePoolAccounts) (bumps : PoolBumps) (decimals : ℕ) (l : Ledger) {l' : Ledger}
      → create_lp rt c bumps decimals l ≡ ok l'
      → (title (l'.accounts c.locked_lp) ≡ some (c.lp_mint, c.pool))
        × (charter (l'.mints c.lp_mint) ≡ some (decimals, some c.pool, none))
  create_lp-charter c bumps decimals l h =
      let (space, minted, lp, space', opened, _, _, e1, e2, e3, e4) =
        create_lp-stages rt c bumps decimals l h in
      let kept = authorities.kept c.lp_mint in
      let held =
        create_pda_account-Preserves rt kept _ _ _ space' _ lp e3 _
          (authorities.started _ _ _ _ e2) in
      (laws.opened _ _ _ e4, kept.opens _ _ _ e4 _ held)

  create_children-HasChildren :
      (c : InitializePoolAccounts) (bumps : PoolBumps) (decimals : ℕ) (l : Ledger) {l' : Ledger}
      → create_children rt c bumps decimals l ≡ ok l'
      → decimals ≡ stablecoin_decimals
      → HasChildren c l'
  create_children-HasChildren c bumps decimals l h six =
      let (ta, tb, (second, e3)) = create_children-titles rt laws c bumps decimals l h in
      let (locked, lp) = create_lp-charter c bumps decimals second e3 in
      record { vault_a = ta; vault_b = tb; locked_lp = locked; lp_mint = rw six at lp }

  -- An `initialize_pool` that succeeds was for two existing mints in the order of their
  -- addresses, both of six decimals and of stored configurations, the first with supported
  -- extensions only, for a fee within the largest one, at canonical addresses, of which that of
  -- the pool stored no pool. Of what the programs store, the only change is the new pool, with
  -- the given mints, children, fee and bumps and without reserves. With calls of the system
  -- program and of Token-2022 that keep their documented effects on token accounts and on the
  -- authorities of mints, the vaults are for the two mints, the locked account for the pool
  -- token, all three belong to the pool, and the pool token has six decimals, the pool as its
  -- only mint authority and no freeze authority.
  pub initialize_pool-IsFounded :
      (c : InitializePoolAccounts) (fee_bps : ℕ) (s : Chain) {s' : Chain} {event : PoolInitialized}
      → initialize_pool rt c fee_bps s ≡ ok (s', event)
      → IsFounded rt c fee_bps s s' × HasChildren c s'.ledger
  initialize_pool-IsFounded c fee_bps s {s'} h =
      let (mint_a, mint_b, bumps, i) = initialize_pool-IsSetUp rt c fee_bps s h in
      (
        record {
          mint_a = mint_a;
          mint_b = mint_b;
          has_mint_a = i.has_mint_a;
          has_mint_b = i.has_mint_b;
          ordered = i.ordered;
          fee_capped = i.fee_capped;
          decimals_a = i.decimals_a;
          decimals_b = i.decimals_b;
          supported_a = i.supported_a;
          bumps = bumps;
          located = i.located;
          free = i.free;
          founded = ap (λ t. t.pools c.pool) i.after ∙ written s.pools c.pool _;
          other_pools = λ k ne. ap (λ t. t.pools k) i.after ∙ unwritten s.pools c.pool _ k ne;
          configs = ap (λ t. t.configs) i.after;
          policies = ap (λ t. t.policies) i.after;
          roles = ap (λ t. t.roles) i.after;
        },
        create_children-HasChildren c bumps _ s.ledger i.children refl,
      )
