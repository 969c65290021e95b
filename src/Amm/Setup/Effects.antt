-- ===== src/Amm/Setup/Effects.antt =====
-- What an `initialize_pool` that succeeds has done.
use solana_stablecoin_amm.Base.{
  ℕ, ◌<◌, ◌≤◌, ◌≡◌, ◌≢◌, true, none, some, ok, arith, >>=-eq-ok, ap, sym, ◌∙◌, List, [], ◌∷◌,
}
use solana_stablecoin_amm.Math.{max_fee_bps}
use solana_stablecoin_amm.Chain.{Pubkey, Mint, Ledger, Seed, text, key, Runtime, update}
use solana_stablecoin_amm.Chain.Addresses.{IsCanonical, canonical-IsCanonical}
use solana_stablecoin_amm.Chain.System.{canonical}
use solana_stablecoin_amm.Chain.System.Laws.{SystemLaws, IsProvisioned, provision-IsProvisioned}
use solana_stablecoin_amm.State.{MintConfig, Chain}
use solana_stablecoin_amm.Amm.{
  AmmError, math_overflow, child_account_in_use, pool_seed, check_config,
}
use solana_stablecoin_amm.Amm.Setup.{
  InitializePoolAccounts, PoolBumps, PoolInitialized, vault_seed, lp_mint_seed, locked_lp_seed,
  stablecoin_decimals, all_supported, setup_context, vault_space, create_pda_account, create_vault,
  create_children, setup_checks, new_pool, initialize_pool,
}

setup_context-ok :
    (rt : Runtime) (c : InitializePoolAccounts) (s : Chain) {mint_a mint_b : Mint}
    {bumps : PoolBumps}
    → setup_context rt c s ≡ ok (mint_a, mint_b, bumps)
    → (s.ledger.mints c.mint_a ≡ some mint_a)
      × (s.ledger.mints c.mint_b ≡ some mint_b)
      × (s.pools c.pool ≡ none)
unfolding setup_context
setup_context-ok rt c s h = ground arith

-- The addresses and the configurations that the constraints have checked.
pub record IsLocated (rt : Runtime) (c : InitializePoolAccounts) (bumps : PoolBumps) (s : Chain)
    : Type 0 where
  pub pool :
      IsCanonical rt (text pool_seed ∷ key c.mint_a ∷ key c.mint_b ∷ []) rt.amm_id c.pool bumps.pool
  pub vault_a :
      IsCanonical rt
        (text vault_seed ∷ key c.pool ∷ key c.mint_a ∷ [])
        rt.amm_id
        c.vault_a
        bumps.vault_a
  pub vault_b :
      IsCanonical rt
        (text vault_seed ∷ key c.pool ∷ key c.mint_b ∷ [])
        rt.amm_id
        c.vault_b
        bumps.vault_b
  pub lp_mint :
      IsCanonical rt (text lp_mint_seed ∷ key c.pool ∷ []) rt.amm_id c.lp_mint bumps.lp_mint
  pub locked_lp :
      IsCanonical rt (text locked_lp_seed ∷ key c.pool ∷ []) rt.amm_id c.locked_lp bumps.locked_lp
  pub config_a : (x : MintConfig) × (s.configs c.config_a ≡ some x) × (x.mint ≡ c.mint_a)
  pub config_b : (x : MintConfig) × (s.configs c.config_b ≡ some x) × (x.mint ≡ c.mint_b)

setup_context-raw :
    (rt : Runtime) (c : InitializePoolAccounts) (s : Chain) {mint_a mint_b : Mint}
    {bumps : PoolBumps}
    → setup_context rt c s ≡ ok (mint_a, mint_b, bumps)
    → ((canonical {E = AmmError} rt
            (text pool_seed ∷ key c.mint_a ∷ key c.mint_b ∷ [])
            rt.amm_id
            c.pool
          ≡ ok bumps.pool)
        × (canonical {E = AmmError} rt
              (text vault_seed ∷ key c.pool ∷ key c.mint_a ∷ [])
              rt.amm_id
              c.vault_a
            ≡ ok bumps.vault_a)
        × (canonical {E = AmmError} rt
              (text vault_seed ∷ key c.pool ∷ key c.mint_b ∷ [])
              rt.amm_id
              c.vault_b
            ≡ ok bumps.vault_b)
        × (canonical {E = AmmError} rt (text lp_mint_seed ∷ key c.pool ∷ []) rt.amm_id c.lp_mint
            ≡ ok bumps.lp_mint)
        × (canonical {E = AmmError} rt (text locked_lp_seed ∷ key c.pool ∷ []) rt.amm_id c.locked_lp
            ≡ ok bumps.locked_lp))
      × ((x : MintConfig) × (s.configs c.config_a ≡ some x)
          × (check_config rt c.mint_a c.config_a x ≡ ok tt))
      × ((x : MintConfig) × (s.configs c.config_b ≡ some x)
          × (check_config rt c.mint_b c.config_b x ≡ ok tt))
unfolding setup_context
setup_context-raw rt c s h = ground arith

check_config-ok :
    (rt : Runtime) (mint address : Pubkey) (config : MintConfig)
    → check_config rt mint address config ≡ ok tt
    → config.mint ≡ mint
unfolding check_config
check_config-ok rt mint address config h = ground arith

setup_context-IsLocated :
    (rt : Runtime) (c : InitializePoolAccounts) (s : Chain) {mint_a mint_b : Mint}
    {bumps : PoolBumps}
    → setup_context rt c s ≡ ok (mint_a, mint_b, bumps)
    → IsLocated rt c bumps s
setup_context-IsLocated rt c s h =
    let ((p, va, vb, lp, locked), (x, xs, xc), (y, ys, yc)) = setup_context-raw rt c s h in
    record {
      pool = canonical-IsCanonical rt _ _ _ p;
      vault_a = canonical-IsCanonical rt _ _ _ va;
      vault_b = canonical-IsCanonical rt _ _ _ vb;
      lp_mint = canonical-IsCanonical rt _ _ _ lp;
      locked_lp = canonical-IsCanonical rt _ _ _ locked;
      config_a = (x, xs, check_config-ok rt _ _ _ xc);
      config_b = (y, ys, check_config-ok rt _ _ _ yc);
    }

setup_checks-ok :
    (c : InitializePoolAccounts) (mint_a mint_b : Mint) (fee_bps : ℕ)
    → setup_checks c mint_a mint_b fee_bps ≡ ok tt
    → (c.mint_a < c.mint_b)
      × (fee_bps ≤ max_fee_bps)
      × (mint_a.decimals ≡ stablecoin_decimals)
      × (mint_b.decimals ≡ stablecoin_decimals)
unfolding setup_checks
setup_checks-ok c mint_a mint_b fee_bps h = ground arith

vault_space-supported :
    (rt : Runtime) (mint : Pubkey) (l : Ledger) (m : Mint) {space : ℕ}
    → l.mints mint ≡ some m
    → vault_space rt mint l ≡ ok space
    → all_supported m.extensions ≡ true
unfolding vault_space
vault_space-supported rt mint l m e h = ground arith

create_children-supported :
    (rt : Runtime) (c : InitializePoolAccounts) (bumps : PoolBumps) (decimals : ℕ) (l : Ledger)
    (m : Mint) {l' : Ledger}
    → l.mints c.mint_a ≡ some m
    → create_children rt c bumps decimals l ≡ ok l'
    → all_supported m.extensions ≡ true
unfolding create_children create_vault
create_children-supported rt c bumps decimals l m e h =
    let (first, vault, _) = >>=-eq-ok _ _ h in
    let (space, sized, _) = >>=-eq-ok _ _ vault in vault_space-supported rt c.mint_a l m e sized

initialize_pool-stages :
    (rt : Runtime) (c : InitializePoolAccounts) (fee_bps : ℕ) (s : Chain) {s' : Chain}
    {event : PoolInitialized}
    → initialize_pool rt c fee_bps s ≡ ok (s', event)
    → (mint_a : Mint) × (mint_b : Mint) × (bumps : PoolBumps) × (l : Ledger) × (setup_context rt c s
        ≡ ok (mint_a, mint_b, bumps))
      × (setup_checks c mint_a mint_b fee_bps ≡ ok tt)
      × (create_children rt c bumps mint_a.decimals s.ledger ≡ ok l)
      × (s' ≡ record s {
        ledger = l;
        pools = update s.pools c.pool (some (new_pool c bumps fee_bps mint_a.decimals));
      })
unfolding initialize_pool
initialize_pool-stages rt c fee_bps s h =
    let ((mint_a, mint_b, bumps), ctx, rest) = >>=-eq-ok _ _ h in
    let (_, checked, rest') = >>=-eq-ok _ _ rest in
    let (l, children, last) = >>=-eq-ok _ _ rest' in
    (mint_a, mint_b, bumps, l, ctx, checked, children, ground arith)

-- What setting up a pool has done to the chain.
pub record IsSetUp (rt : Runtime) (c : InitializePoolAccounts) (fee_bps : ℕ) (mint_a mint_b : Mint)
    (bumps : PoolBumps) (s s' : Chain) : Type 0 where
  pub has_mint_a : s.ledger.mints c.mint_a ≡ some mint_a
  pub has_mint_b : s.ledger.mints c.mint_b ≡ some mint_b
  pub free : s.pools c.pool ≡ none
  pub located : IsLocated rt c bumps s
  pub ordered : c.mint_a < c.mint_b
  pub fee_capped : fee_bps ≤ max_fee_bps
  pub decimals_a : mint_a.decimals ≡ stablecoin_decimals
  pub decimals_b : mint_b.decimals ≡ stablecoin_decimals
  pub supported_a : all_supported mint_a.extensions ≡ true
  pub children : create_children rt c bumps stablecoin_decimals s.ledger ≡ ok s'.ledger
  pub after : s' ≡ record s {
    ledger = s'.ledger;
    pools = update s.pools c.pool (some (new_pool c bumps fee_bps stablecoin_decimals));
  }

-- An `initialize_pool` that succeeds was for two existing mints in the order of their addresses,
-- both of six decimals, the first with supported extensions only, for a fee within the largest
-- one, at an address that stored no pool. The ledger is the one that creating the four child
-- accounts leaves, and the only other change to the chain is the new pool at its address, with
-- the given mints, children, fee and bumps and without reserves.
pub initialize_pool-IsSetUp :
    (rt : Runtime) (c : InitializePoolAccounts) (fee_bps : ℕ) (s : Chain) {s' : Chain}
    {event : PoolInitialized}
    → initialize_pool rt c fee_bps s ≡ ok (s', event)
    → (mint_a : Mint) × (mint_b : Mint) × (bumps : PoolBumps) × IsSetUp rt c fee_bps mint_a mint_b
        bumps s s'
initialize_pool-IsSetUp rt c fee_bps s {s'} h =
    let (mint_a, mint_b, bumps, l, ctx, checked, children, same) =
      initialize_pool-stages rt c fee_bps s h in
    let (ea, eb, free) = setup_context-ok rt c s ctx in
    let (ordered, capped, da, db) = setup_checks-ok c mint_a mint_b fee_bps checked in
    let ledger : s'.ledger ≡ l = ap (λ t. t.ledger) same in
    (
      mint_a,
      mint_b,
      bumps,
      record {
        has_mint_a = ea;
        has_mint_b = eb;
        free = free;
        located = setup_context-IsLocated rt c s ctx;
        ordered = ordered;
        fee_capped = capped;
        decimals_a = da;
        decimals_b = db;
        supported_a =
            create_children-supported rt c bumps mint_a.decimals s.ledger mint_a ea children;
        children = rw ledger (rw da at children);
        after =
            same
            ∙ ap
                (λ (k : Ledger). record s {
                  ledger = k;
                  pools = update s.pools c.pool (some (new_pool c bumps fee_bps mint_a.decimals));
                })
                (sym ledger)
            ∙ ap
                (λ (d : ℕ). record s {
                  ledger = s'.ledger;
                  pools = update s.pools c.pool (some (new_pool c bumps fee_bps d));
                })
                da;
      },
    )

-- With a system program that keeps its documented effects, and a payer other than the target: a
-- `create_pda_account` that succeeds leaves an account of the given owner, with the given space
-- and at least the rent for it, whatever was sent to the address before.
pub create_pda_account-IsProvisioned :
    (rt : Runtime) (payer target owner space : ℕ) (seeds : List Seed) (l : Ledger) {l' : Ledger}
    → SystemLaws rt
    → payer ≢ target
    → create_pda_account rt payer target owner space seeds l ≡ ok l'
    → IsProvisioned owner (rt.minimum_balance space) space (l'.infos target)
unfolding create_pda_account
create_pda_account-IsProvisioned rt payer target owner space seeds l laws apart h =
    provision-IsProvisioned rt laws math_overflow child_account_in_use payer target apart owner
      (rt.minimum_balance space) space seeds l h
