-- ===== src/History/Owners.antt =====
-- Who owns the accounts that an instruction takes tokens from.
pub mod Payers
use solana_stablecoin_amm.Base.{◌≡◌, ◌⊎◌, refl, inl, inr, arith, some, ok}
use solana_stablecoin_amm.Chain.{Pubkey, Runtime}
use solana_stablecoin_amm.Chain.Holdings.{IsOwnedBy}
use solana_stablecoin_amm.State.{Pool, a_to_b, b_to_a, Chain, chain_after-ok}
use solana_stablecoin_amm.Stablecoin.Issuance.{BurnAccounts, BurnContext, burn_context}
use solana_stablecoin_amm.Stablecoin.Issuance.Burning.{burn-stages}
use solana_stablecoin_amm.Stablecoin.Program as Issuer
use solana_stablecoin_amm.Amm.{PoolAccounts, PoolContext, ensure_children}
use solana_stablecoin_amm.Amm.Context.{
  IsContext, pool_context-IsContext, checked-IsContext, ensure_children-ok, check_user_account-ok,
}
use solana_stablecoin_amm.Amm.Swap.{route}
use solana_stablecoin_amm.Amm.Swap.Checks.{swap_quote-IsQuoted}
use solana_stablecoin_amm.Amm.Swap.Effects.{swap-stages}
use solana_stablecoin_amm.Amm.Liquidity.{LiquidityAccounts, LiquidityContext, liquidity_context}
use solana_stablecoin_amm.Amm.Liquidity.Effects.{remove_liquidity-stages, remove_quote-raw}
use solana_stablecoin_amm.Amm.Liquidity.Accounts.{context-raw, ensure_pool-children}
use solana_stablecoin_amm.Amm.Deposit.Effects.{add_liquidity-stages}
use solana_stablecoin_amm.Amm.Deposit.Payments.{add_checks-checked}
use solana_stablecoin_amm.Amm.Program as Market
use solana_stablecoin_amm.History.Calls.Issuer.{spent_account}
use solana_stablecoin_amm.History.Calls.Market.{AllSpent, AllSpent-map}
use solana_stablecoin_amm.History.Mints.{named_pool}
use solana_stablecoin_amm.History.{Step, Reach}

-- Who signs an instruction.
abbrev pub signer : Issuer.Instruction → Pubkey
signer (Issuer.initialize_stablecoin c args) = c.payer
signer (Issuer.grant_minter c allowance) = c.admin
signer (Issuer.revoke_minter c) = c.admin
signer (Issuer.set_wallet_policy c status) = c.compliance_authority
signer (Issuer.mint_to c amount) = c.minter
signer (Issuer.burn c amount) = c.owner
signer (Issuer.set_pause c paused) = c.authority
signer (Issuer.update_config c supply_cap authority nominee) = c.admin
signer (Issuer.accept_admin nominee config) = nominee

abbrev pub amm_signer : Market.Instruction → Pubkey
amm_signer (Market.initialize_pool c fee_bps) = c.payer
amm_signer (Market.add_liquidity d x y min_a min_b min_lp) = d.shared.user
amm_signer (Market.remove_liquidity d lp_amount min_a_out min_b_out) = d.shared.user
amm_signer (Market.swap c direction amount_in min_amount_out) = c.user

burn_context-owner :
    (rt : Runtime) (c : BurnAccounts) (s : Chain) {a : BurnContext}
    → burn_context rt c s ≡ ok a
    → (s.ledger.accounts c.source ≡ some a.source) × (a.source.owner ≡ c.owner)
unfolding burn_context
burn_context-owner rt c s h = ground arith

pub process-owner :
    (rt : Runtime) (i : Issuer.Instruction) (s : Chain) (k : Pubkey) {s' : Chain}
    → Issuer.process rt i s ≡ ok s'
    → spent_account i ≡ some k
    → IsOwnedBy s.ledger (signer i) k
unfolding Issuer.process
process-owner rt (Issuer.burn c amount) s k e same =
    let (a, _, _, ea, _, _) = burn-stages rt c amount s (chain_after-ok _ e).1 in
    let (stored, owned) = burn_context-owner rt c s ea in
    let at : c.source ≡ k = cc in (a.source, rw at at stored, owned)
process-owner rt (Issuer.initialize_stablecoin c args) s k e same = absurd (cc)
process-owner rt (Issuer.mint_to c amount) s k e same = absurd (cc)
process-owner rt (Issuer.grant_minter c allowance) s k e same = absurd (cc)
process-owner rt (Issuer.revoke_minter c) s k e same = absurd (cc)
process-owner rt (Issuer.set_wallet_policy c status) s k e same = absurd (cc)
process-owner rt (Issuer.set_pause c paused) s k e same = absurd (cc)
process-owner rt (Issuer.update_config c supply_cap authority nominee) s k e same = absurd (cc)
process-owner rt (Issuer.accept_admin signer config) s k e same = absurd (cc)

-- A vault of the pool that is stored at the address.
pub record IsVault (s : Chain) (address k : Pubkey) : Type 0 where
  pub pool : Pool
  pub stored : s.pools address ≡ some pool
  pub listed : (pool.vault_a ≡ k) ⊎ (pool.vault_b ≡ k)
  pub owned : IsOwnedBy s.ledger address k

-- The accounts of a pool instruction, with their owners.
record AreOwned (c : PoolAccounts) (s : Chain) : Type 0 where
  user_a : IsOwnedBy s.ledger c.user c.user_a
  user_b : IsOwnedBy s.ledger c.user c.user_b
  vault_a : IsVault s c.pool c.vault_a
  vault_b : IsVault s c.pool c.vault_b

IsContext-AreOwned :
    (c : PoolAccounts) (s : Chain) (a : PoolContext)
    → IsContext c s a
    → ensure_children c a ≡ ok tt
    → AreOwned c s
IsContext-AreOwned c s a h children =
    let (_, _, (oa, ob), _) = ensure_children-ok c a children in
    record {
      user_a = (a.user_a, h.has_user_a, h.user_a_owner);
      user_b = (a.user_b, h.has_user_b, h.user_b_owner);
      vault_a = record {
        pool = a.pool;
        stored = h.stored;
        listed = inl h.vault_a;
        owned = (a.vault_a, h.has_vault_a, oa);
      };
      vault_b = record {
        pool = a.pool;
        stored = h.stored;
        listed = inr h.vault_b;
        owned = (a.vault_b, h.has_vault_b, ob);
      };
    }

liquidity_context-AreOwned :
    (rt : Runtime) (d : LiquidityAccounts) (s : Chain) {a : LiquidityContext}
    → liquidity_context rt d s ≡ ok a
    → ensure_children d.shared a.shared ≡ ok tt
    → AreOwned d.shared s × IsOwnedBy s.ledger d.shared.user d.user_lp
liquidity_context-AreOwned rt d s {a} loaded children =
    let ((stored, va, vb, _), users, (pool, _, ua, ub), (u, has_lp, lp)) =
      context-raw rt d s loaded in
    let ctx = checked-IsContext rt d.shared s a.shared (stored, va, vb) users pool ua ub in
    let (_, _, owner) = check_user_account-ok _ _ _ _ u lp in
    (IsContext-AreOwned d.shared s a.shared ctx children, (u, has_lp, owner))

-- From whom an instruction may take tokens: a deposit from the user's two accounts, a withdrawal from
-- the user's pool tokens and the vaults, a swap from the user's account on the one side and the vault
-- on the other.
abbrev pub IsPayer : Market.Instruction → Chain → Pubkey → Type 0
IsPayer (Market.initialize_pool c fee_bps) s k = ⊥
IsPayer (Market.add_liquidity d x y min_a min_b min_lp) s k =
    ((k ≡ d.shared.user_a) ⊎ (k ≡ d.shared.user_b)) × IsOwnedBy s.ledger d.shared.user k
IsPayer (Market.remove_liquidity d lp_amount min_a_out min_b_out) s k =
    ((k ≡ d.user_lp) × IsOwnedBy s.ledger d.shared.user k) ⊎ IsVault s d.shared.pool k
IsPayer (Market.swap c direction amount_in min_amount_out) s k =
    ((k ≡ (route direction c).source) × IsOwnedBy s.ledger c.user k)
    ⊎ ((k ≡ (route direction c).vault_out) × IsVault s c.pool k)

pub amm_process-ArePayers :
    (rt : Runtime) (i : Market.Instruction) (s : Chain) {s' : Chain}
    → Market.process rt i s ≡ ok s'
    → AllSpent (IsPayer i s) i
unfolding Market.process
amm_process-ArePayers rt (Market.initialize_pool c fee_bps) s e = tt
amm_process-ArePayers rt (Market.add_liquidity d x y min_a min_b min_lp) s e =
    let (a, _, _, _, ea, eq, _, _) =
      add_liquidity-stages rt d x y min_a min_b min_lp s (chain_after-ok _ e).1 in
    let (children, _) =
      ensure_pool-children d a (add_checks-checked d a x y min_a min_b min_lp eq) in
    let (o, _) = liquidity_context-AreOwned rt d s ea children in
    ((inl refl, o.user_a), (inr refl, o.user_b))
amm_process-ArePayers rt (Market.remove_liquidity d lp_amount min_a_out min_b_out) s e =
    let (a, _, _, ea, eq, _, _) =
      remove_liquidity-stages rt d lp_amount min_a_out min_b_out s (chain_after-ok _ e).1 in
    let (checks, _, _, _) = remove_quote-raw d a lp_amount min_a_out min_b_out eq in
    let (children, _) = ensure_pool-children d a checks in
    let (o, user_lp) = liquidity_context-AreOwned rt d s ea children in
    (inl (refl, user_lp), inr o.vault_a, inr o.vault_b)
amm_process-ArePayers rt (Market.swap c a_to_b amount_in min_amount_out) s e =
    let (a, _, _, _, ea, eq, _, _) =
      swap-stages rt c a_to_b amount_in min_amount_out s (chain_after-ok _ e).1 in
    let quoted = swap_quote-IsQuoted c a a_to_b amount_in min_amount_out eq in
    let o = IsContext-AreOwned c s a (pool_context-IsContext rt c s ea) quoted.children in
    (inl (refl, o.user_a), inr (refl, o.vault_b))
amm_process-ArePayers rt (Market.swap c b_to_a amount_in min_amount_out) s e =
    let (a, _, _, _, ea, eq, _, _) =
      swap-stages rt c b_to_a amount_in min_amount_out s (chain_after-ok _ e).1 in
    let quoted = swap_quote-IsQuoted c a b_to_a amount_in min_amount_out eq in
    let o = IsContext-AreOwned c s a (pool_context-IsContext rt c s ea) quoted.children in
    (inl (refl, o.user_b), inr (refl, o.vault_a))

IsPayer-owned :
    (i : Market.Instruction) (s : Chain) (k : Pubkey)
    → IsPayer i s k
    → IsOwnedBy s.ledger (amm_signer i) k ⊎ IsOwnedBy s.ledger (named_pool i) k
IsPayer-owned (Market.initialize_pool c fee_bps) s k h = absurd h
IsPayer-owned (Market.add_liquidity d x y min_a min_b min_lp) s k (_, owned) = inl owned
IsPayer-owned (Market.remove_liquidity d lp_amount min_a_out min_b_out) s k (inl (_, owned)) =
    inl owned
IsPayer-owned (Market.remove_liquidity d lp_amount min_a_out min_b_out) s k (inr vault) =
    inr vault.owned
IsPayer-owned (Market.swap c direction amount_in min_amount_out) s k (inl (_, owned)) = inl owned
IsPayer-owned (Market.swap c direction amount_in min_amount_out) s k (inr (_, vault)) =
    inr vault.owned

pub amm_process-AreOwned :
    (rt : Runtime) (i : Market.Instruction) (s : Chain) {s' : Chain}
    → Market.process rt i s ≡ ok s'
    → AllSpent (λ k. IsOwnedBy s.ledger (amm_signer i) k ⊎ IsOwnedBy s.ledger (named_pool i) k) i
amm_process-AreOwned rt i s e =
    AllSpent-map _ _ i (IsPayer-owned i s) (amm_process-ArePayers rt i s e)

-- What holds of everyone who signs an instruction of a history.
abbrev pub Signed : {rt : Runtime} {s s' : Chain} → (Pubkey → Type 0) → Reach rt s s' → Type 0
Signed P Reach.here = Unit
Signed P (Reach.next earlier (Step.stablecoin i e)) = Signed P earlier × P (signer i)
Signed P (Reach.next earlier (Step.amm i e)) = Signed P earlier × P (amm_signer i)
Signed P (Reach.next earlier (Step.outside l e)) = Signed P earlier

pub Signed-split :
    {rt : Runtime} {s t u : Chain} (P : Pubkey → Type 0) (earlier : Reach rt s t)
    (last : Step rt t u)
    → Signed P (Reach.next earlier last)
    → Signed P earlier × Signed P (Reach.next Reach.here last)
Signed-split P earlier (Step.stablecoin i e) (h, last) = (h, (tt, last))
Signed-split P earlier (Step.amm i e) (h, last) = (h, (tt, last))
Signed-split P earlier (Step.outside l e) h = (h, tt)
