-- ===== src/Amm/Context.antt =====
-- What holds of the accounts once `pool_context` and the shared checks have passed.
use solana_stablecoin_amm.Base.{ℕ, ◌≤◌, ◌<◌, ◌≡◌, ◌≢◌, false, some, none, arith, ok}
use solana_stablecoin_amm.Chain.{Pubkey, Runtime, Ledger, TokenAccount}
use solana_stablecoin_amm.Math.{minimum_liquidity}
use solana_stablecoin_amm.State.{Pool, Chain, MintConfig}
use solana_stablecoin_amm.Amm.{
  PoolAccounts, PoolContext, pool_context, check_pool, check_user_account, ensure_unpaused,
  ensure_solvent, ensure_seeded, ensure_children,
}

-- The accounts agree with the pool and with the chain.
pub record IsContext (c : PoolAccounts) (s : Chain) (a : PoolContext) : Type 0 where
  pub stored : s.pools c.pool ≡ some a.pool
  pub has_vault_a : s.ledger.accounts c.vault_a ≡ some a.vault_a
  pub has_vault_b : s.ledger.accounts c.vault_b ≡ some a.vault_b
  pub has_user_a : s.ledger.accounts c.user_a ≡ some a.user_a
  pub has_user_b : s.ledger.accounts c.user_b ≡ some a.user_b
  pub has_lp_mint : s.ledger.mints c.lp_mint ≡ some a.lp_mint
  pub mint_a : a.pool.mint_a ≡ c.mint_a
  pub mint_b : a.pool.mint_b ≡ c.mint_b
  pub vault_a : a.pool.vault_a ≡ c.vault_a
  pub vault_b : a.pool.vault_b ≡ c.vault_b
  pub lp_mint : a.pool.lp_mint ≡ c.lp_mint
  pub user_a_mint : a.user_a.mint ≡ c.mint_a
  pub user_b_mint : a.user_b.mint ≡ c.mint_b
  pub user_a_owner : a.user_a.owner ≡ c.user
  pub user_b_owner : a.user_b.owner ≡ c.user
  pub user_a_apart : c.user_a ≢ c.vault_a
  pub user_b_apart : c.user_b ≢ c.vault_b

pub check_pool-ok :
    (rt : Runtime) (c : PoolAccounts) (pool : Pool)
    → check_pool rt c pool ≡ ok tt
    → (pool.mint_a ≡ c.mint_a)
      × (pool.mint_b ≡ c.mint_b)
      × (pool.vault_a ≡ c.vault_a)
      × (pool.vault_b ≡ c.vault_b)
      × (pool.lp_mint ≡ c.lp_mint)
unfolding check_pool
check_pool-ok rt c pool h = ground arith

pub check_user_account-ok :
    (user reserved mint address : Pubkey) (account : TokenAccount)
    → check_user_account user reserved mint address account ≡ ok tt
    → (address ≢ reserved) × (account.mint ≡ mint) × (account.owner ≡ user)
unfolding check_user_account
check_user_account-ok user reserved mint address account h = ground arith

-- What was loaded, and the constraints that passed.
pool_context-raw :
    (rt : Runtime) (c : PoolAccounts) (s : Chain) {a : PoolContext}
    → pool_context rt c s ≡ ok a
    → ((s.pools c.pool ≡ some a.pool)
        × (s.ledger.accounts c.vault_a ≡ some a.vault_a)
        × (s.ledger.accounts c.vault_b ≡ some a.vault_b))
      × ((s.ledger.accounts c.user_a ≡ some a.user_a)
          × (s.ledger.accounts c.user_b ≡ some a.user_b)
          × (s.ledger.mints c.lp_mint ≡ some a.lp_mint))
      × ((check_pool rt c a.pool ≡ ok tt)
          × (check_user_account c.user a.pool.vault_a c.mint_a c.user_a a.user_a ≡ ok tt)
          × (check_user_account c.user a.pool.vault_b c.mint_b c.user_b a.user_b ≡ ok tt))
unfolding pool_context
pool_context-raw rt c s {a} h = ground arith

-- The constraints that passed, together with what was loaded.
pub checked-IsContext :
    (rt : Runtime) (c : PoolAccounts) (s : Chain) (a : PoolContext)
    → (s.pools c.pool ≡ some a.pool)
      × (s.ledger.accounts c.vault_a ≡ some a.vault_a)
      × (s.ledger.accounts c.vault_b ≡ some a.vault_b)
    → (s.ledger.accounts c.user_a ≡ some a.user_a)
      × (s.ledger.accounts c.user_b ≡ some a.user_b)
      × (s.ledger.mints c.lp_mint ≡ some a.lp_mint)
    → check_pool rt c a.pool ≡ ok tt
    → check_user_account c.user a.pool.vault_a c.mint_a c.user_a a.user_a ≡ ok tt
    → check_user_account c.user a.pool.vault_b c.mint_b c.user_b a.user_b ≡ ok tt
    → IsContext c s a
checked-IsContext rt c s a (p, va, vb) (ua, ub, lp) ep ea eb =
    let (ma, mb, pa, pb, pl) = check_pool-ok rt c a.pool ep in
    let (na, ka, oa) = check_user_account-ok c.user a.pool.vault_a c.mint_a c.user_a a.user_a ea in
    let (nb, kb, ob) = check_user_account-ok c.user a.pool.vault_b c.mint_b c.user_b a.user_b eb in
    record {
      stored = p;
      has_vault_a = va;
      has_vault_b = vb;
      has_user_a = ua;
      has_user_b = ub;
      has_lp_mint = lp;
      mint_a = ma;
      mint_b = mb;
      vault_a = pa;
      vault_b = pb;
      lp_mint = pl;
      user_a_mint = ka;
      user_b_mint = kb;
      user_a_owner = oa;
      user_b_owner = ob;
      user_a_apart = rw pa at na;
      user_b_apart = rw pb at nb;
    }

pub pool_context-IsContext :
    (rt : Runtime) (c : PoolAccounts) (s : Chain) {a : PoolContext}
    → pool_context rt c s ≡ ok a
    → IsContext c s a
pool_context-IsContext rt c s {a} h =
    let (vaults, users, (ep, ea, eb)) = pool_context-raw rt c s h in
    checked-IsContext rt c s a vaults users ep ea eb

pub ensure_unpaused-ok :
    (config_a config_b : MintConfig)
    → ensure_unpaused config_a config_b ≡ ok tt
    → (config_a.paused ≡ false) × (config_b.paused ≡ false)
unfolding ensure_unpaused
ensure_unpaused-ok config_a config_b h = ground arith

pub ensure_solvent-ok :
    (pool : Pool) (vault_a vault_b : ℕ)
    → ensure_solvent pool vault_a vault_b ≡ ok tt
    → (pool.reserve_a ≤ vault_a) × (pool.reserve_b ≤ vault_b)
unfolding ensure_solvent
ensure_solvent-ok pool vault_a vault_b h = ground arith

pub ok-ensure_solvent :
    (pool : Pool) (vault_a vault_b : ℕ)
    → pool.reserve_a ≤ vault_a
    → pool.reserve_b ≤ vault_b
    → ensure_solvent pool vault_a vault_b ≡ ok tt
unfolding ensure_solvent
ok-ensure_solvent pool vault_a vault_b ha hb = ground arith

pub ensure_seeded-ok :
    (pool : Pool) (lp_supply locked_lp : ℕ)
    → ensure_seeded pool lp_supply locked_lp ≡ ok tt
    → (0 < pool.reserve_a)
      × (0 < pool.reserve_b)
      × (minimum_liquidity ≤ locked_lp)
      × (locked_lp ≤ lp_supply)
unfolding ensure_seeded
ensure_seeded-ok pool lp_supply locked_lp h = ground arith

pub ok-ensure_seeded :
    (pool : Pool) (lp_supply locked_lp : ℕ)
    → 0 < pool.reserve_a
    → 0 < pool.reserve_b
    → minimum_liquidity ≤ locked_lp
    → locked_lp ≤ lp_supply
    → ensure_seeded pool lp_supply locked_lp ≡ ok tt
unfolding ensure_seeded
ok-ensure_seeded pool lp_supply locked_lp ha hb hm hl = ground arith

pub ensure_children-ok :
    (c : PoolAccounts) (a : PoolContext)
    → ensure_children c a ≡ ok tt
    → (c.vault_a ≢ c.vault_b)
      × ((a.vault_a.mint ≡ a.pool.mint_a) × (a.vault_b.mint ≡ a.pool.mint_b))
      × ((a.vault_a.owner ≡ c.pool) × (a.vault_b.owner ≡ c.pool))
      × ((a.lp_mint.mint_authority ≡ some c.pool) × (a.lp_mint.freeze_authority ≡ none))
unfolding ensure_children
ensure_children-ok c a h = ground arith

-- The accounts that a transfer of the pool touches are four different ones.
pub record AreApart (c : PoolAccounts) : Type 0 where
  pub vaults : c.vault_a ≢ c.vault_b
  pub a_in : c.user_a ≢ c.vault_a
  pub b_in : c.user_b ≢ c.vault_b
  pub a_cross : c.user_a ≢ c.vault_b
  pub b_cross : c.user_b ≢ c.vault_a
  pub users : c.user_a ≢ c.user_b

-- Two addresses that hold accounts of different mints differ.
pub apart_of_mints :
    (l : Ledger) (j k : Pubkey) (x y : TokenAccount)
    → l.accounts j ≡ some x
    → l.accounts k ≡ some y
    → x.mint ≢ y.mint
    → j ≢ k
apart_of_mints l j k x y ex ey ne e = ne (cc)

pub IsContext-AreApart :
    (c : PoolAccounts) (s : Chain) (a : PoolContext)
    → IsContext c s a
    → a.pool.mint_a ≢ a.pool.mint_b
    → ensure_children c a ≡ ok tt
    → AreApart c
IsContext-AreApart c s a h ne children =
    let (vaults, (ma, mb), owners, lp) = ensure_children-ok c a children in
    let differ = apart_of_mints s.ledger in
    record {
      vaults = vaults;
      a_in = h.user_a_apart;
      b_in = h.user_b_apart;
      a_cross = differ c.user_a c.vault_b _ _ h.has_user_a h.has_vault_b λ e. ne (ground arith);
      b_cross = differ c.user_b c.vault_a _ _ h.has_user_b h.has_vault_a λ e. ne (ground arith);
      users = differ c.user_a c.user_b _ _ h.has_user_a h.has_user_b λ e. ne (ground arith);
    }
