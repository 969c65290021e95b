-- ===== src/Amm/Liquidity/Accounts.antt =====
-- The six token accounts of a deposit or a withdrawal, after the constraints and the shared checks.
use solana_stablecoin_amm.Base.{◌≡◌, ◌≢◌, arith, some, ok, sym, ◌∙◌}
use solana_stablecoin_amm.Chain.{Pubkey, Runtime, TokenAccount}
use solana_stablecoin_amm.State.{Pool, Chain}
use solana_stablecoin_amm.Amm.{
  PoolAccounts, PoolContext, check_pool, check_user_account, ensure_children, ensure_locked_account,
}
use solana_stablecoin_amm.Amm.Context.{
  check_user_account-ok, IsContext, AreApart, IsContext-AreApart, ensure_children-ok,
  apart_of_mints, checked-IsContext,
}
use solana_stablecoin_amm.Amm.Liquidity.{
  LiquidityAccounts, LiquidityContext, liquidity_context, ensure_pool,
}

pub context-raw :
    (rt : Runtime) (d : LiquidityAccounts) (s : Chain) {a : LiquidityContext}
    → liquidity_context rt d s ≡ ok a
    → ((s.pools d.shared.pool ≡ some a.shared.pool)
        × (s.ledger.accounts d.shared.vault_a ≡ some a.shared.vault_a)
        × (s.ledger.accounts d.shared.vault_b ≡ some a.shared.vault_b)
        × (s.ledger.accounts d.locked_lp ≡ some a.locked_lp))
      × ((s.ledger.accounts d.shared.user_a ≡ some a.shared.user_a)
          × (s.ledger.accounts d.shared.user_b ≡ some a.shared.user_b)
          × (s.ledger.mints d.shared.lp_mint ≡ some a.shared.lp_mint))
      × ((check_pool rt d.shared a.shared.pool ≡ ok tt)
          × (a.shared.pool.locked_lp ≡ d.locked_lp)
          × (check_user_account d.shared.user a.shared.pool.vault_a d.shared.mint_a d.shared.user_a
                a.shared.user_a
              ≡ ok tt)
          × (check_user_account d.shared.user a.shared.pool.vault_b d.shared.mint_b d.shared.user_b
                a.shared.user_b
              ≡ ok tt))
      × ((u : TokenAccount) × (s.ledger.accounts d.user_lp ≡ some u)
          × (check_user_account d.shared.user a.shared.pool.locked_lp d.shared.lp_mint d.user_lp u
              ≡ ok tt))
unfolding liquidity_context
context-raw rt d s {a} h = ground arith

pub ensure_pool-children :
    (d : LiquidityAccounts) (a : LiquidityContext)
    → ensure_pool d a ≡ ok tt
    → (ensure_children d.shared a.shared ≡ ok tt) × (a.locked_lp.mint ≡ d.shared.lp_mint)
unfolding ensure_pool ensure_locked_account
ensure_pool-children d a h = ground arith

-- The accounts of pool tokens are two, and none of the four that hold the pool's mints.
pub record AreSix (d : LiquidityAccounts) : Type 0 where
  pub four : AreApart d.shared
  pub lp_locked : d.user_lp ≢ d.locked_lp
  pub lp_user_a : d.user_lp ≢ d.shared.user_a
  pub lp_user_b : d.user_lp ≢ d.shared.user_b
  pub lp_vault_a : d.user_lp ≢ d.shared.vault_a
  pub lp_vault_b : d.user_lp ≢ d.shared.vault_b
  pub locked_user_a : d.locked_lp ≢ d.shared.user_a
  pub locked_user_b : d.locked_lp ≢ d.shared.user_b
  pub locked_vault_a : d.locked_lp ≢ d.shared.vault_a
  pub locked_vault_b : d.locked_lp ≢ d.shared.vault_b

-- The pool's three mints are different ones.
pub record IsOfThree (pool : Pool) : Type 0 where
  pub mints : pool.mint_a ≢ pool.mint_b
  pub lp_a : pool.lp_mint ≢ pool.mint_a
  pub lp_b : pool.lp_mint ≢ pool.mint_b

-- An account of pool tokens is none of the four that hold the pool's mints.
record IsApartFromFour (c : PoolAccounts) (k : Pubkey) : Type 0 where
  user_a : k ≢ c.user_a
  user_b : k ≢ c.user_b
  vault_a : k ≢ c.vault_a
  vault_b : k ≢ c.vault_b

lp-IsApartFromFour :
    (c : PoolAccounts) (s : Chain) (a : PoolContext) (k : Pubkey) (t : TokenAccount)
    → IsContext c s a
    → IsOfThree a.pool
    → ensure_children c a ≡ ok tt
    → s.ledger.accounts k ≡ some t
    → t.mint ≡ c.lp_mint
    → IsApartFromFour c k
lp-IsApartFromFour c s a k t h three children held of_lp =
    let (_, (ma, mb), _, _) = ensure_children-ok c a children in
    let differ = apart_of_mints s.ledger k in
    let na : c.lp_mint ≢ c.mint_a = λ e. three.lp_a (h.lp_mint ∙ e ∙ sym h.mint_a) in
    let nb : c.lp_mint ≢ c.mint_b = λ e. three.lp_b (h.lp_mint ∙ e ∙ sym h.mint_b) in
    record {
      user_a = differ c.user_a t _ held h.has_user_a (λ e. na (sym of_lp ∙ e ∙ h.user_a_mint));
      user_b = differ c.user_b t _ held h.has_user_b (λ e. nb (sym of_lp ∙ e ∙ h.user_b_mint));
      vault_a = differ c.vault_a t _ held h.has_vault_a (λ e. na (sym of_lp ∙ e ∙ ma ∙ h.mint_a));
      vault_b = differ c.vault_b t _ held h.has_vault_b (λ e. nb (sym of_lp ∙ e ∙ mb ∙ h.mint_b));
    }

pub liquidity_context-AreSix :
    (rt : Runtime) (d : LiquidityAccounts) (s : Chain) {a : LiquidityContext}
    → liquidity_context rt d s ≡ ok a
    → ensure_pool d a ≡ ok tt
    → IsOfThree a.shared.pool
    → AreSix d
liquidity_context-AreSix rt d s {a} loaded checked three =
    let ((stored, va, vb, held), users, (pool, locked, ua, ub), (u, has_lp, lp)) =
      context-raw rt d s loaded in
    let ctx = checked-IsContext rt d.shared s a.shared (stored, va, vb) users pool ua ub in
    let (children, locked_mint) = ensure_pool-children d a checked in
    let (apart, of_lp, _) = check_user_account-ok _ _ _ _ u lp in
    let user = lp-IsApartFromFour d.shared s a.shared d.user_lp u ctx three children has_lp of_lp in
    let lock =
      lp-IsApartFromFour d.shared s a.shared d.locked_lp a.locked_lp ctx three children held
        locked_mint in
    record {
      four = IsContext-AreApart d.shared s a.shared ctx three.mints children;
      lp_locked = λ e. apart (e ∙ sym locked);
      lp_user_a = user.user_a;
      lp_user_b = user.user_b;
      lp_vault_a = user.vault_a;
      lp_vault_b = user.vault_b;
      locked_user_a = lock.user_a;
      locked_user_b = lock.user_b;
      locked_vault_a = lock.vault_a;
      locked_vault_b = lock.vault_b;
    }
