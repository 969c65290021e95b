-- ===== src/Amm/Gates.antt =====
-- The gates of a trade: the pause flags of the two mints and the policies of the user's accounts.
use solana_stablecoin_amm.Base.{ℕ, [], ◌∷◌, ◌≡◌, arith, false, Option, none, some, ok, subst}
use solana_stablecoin_amm.Chain.{Pubkey, TokenAccount, Runtime, text, key, bump}
use solana_stablecoin_amm.State.{
  MintConfig, WalletPolicy, is_blocked, Chain, SwapDirection, chain_after-ok,
}
use solana_stablecoin_amm.Amm.{
  config_seed, policy_seed, check_seeds, PoolAccounts, PoolContext, pool_context, check_config,
  check_policy, ensure_unpaused,
}
use solana_stablecoin_amm.Amm.Context.{
  IsContext, pool_context-IsContext, checked-IsContext, ensure_unpaused-ok,
}
use solana_stablecoin_amm.Amm.Liquidity.Accounts.{context-raw}
use solana_stablecoin_amm.Amm.Swap
use solana_stablecoin_amm.Amm.Swap.{SwapExecuted, swap_quote}
use solana_stablecoin_amm.Amm.Swap.Effects.{swap-stages}
use solana_stablecoin_amm.Amm.Liquidity.Effects.{remove_liquidity-stages}
use solana_stablecoin_amm.Amm.Deposit.Effects.{add_liquidity-stages}
use solana_stablecoin_amm.Amm.Liquidity
use solana_stablecoin_amm.Amm.Liquidity.{
  LiquidityAccounts, LiquidityContext, LiquidityRemoved, liquidity_context, ensure_pool,
  remove_quote,
}
use solana_stablecoin_amm.Amm.Deposit
use solana_stablecoin_amm.Amm.Deposit.{LiquidityAdded, add_checks}
use solana_stablecoin_amm.Amm.Program.{
  Instruction, initialize_pool, add_liquidity, remove_liquidity, swap, process,
}

-- The configuration of a mint that is not paused, at an address that the program derives for it.
pub record IsRunning (rt : Runtime) (mint address : Pubkey) (s : Chain) (config : MintConfig)
    : Type 0 where
  pub stored : s.configs address ≡ some config
  pub derived :
      rt.create_program_address
        (text config_seed ∷ key mint ∷ bump config.bump ∷ [])
        rt.stablecoin_id
      ≡ some address
  pub of_mint : config.mint ≡ mint
  pub unpaused : config.paused ≡ false

-- An account of the mint that the user owns, and a stored policy that allows it, at an address that
-- the program derives for this mint and this account.
pub record IsAllowed (rt : Runtime) (user mint account address : Pubkey) (s : Chain) : Type 0 where
  pub held : TokenAccount
  pub has_account : s.ledger.accounts account ≡ some held
  pub owned : held.owner ≡ user
  pub of_mint : held.mint ≡ mint
  pub policy : WalletPolicy
  pub stored : s.policies address ≡ some policy
  pub derived :
      rt.create_program_address
        (text policy_seed ∷ key mint ∷ key account ∷ bump policy.bump ∷ [])
        rt.stablecoin_id
      ≡ some address
  pub allowed : is_blocked policy.status ≡ false

abbrev pub IsOpen : Runtime → PoolAccounts → Chain → Type 0
IsOpen rt c s =
    ((config : MintConfig) × IsRunning rt c.mint_a c.config_a s config)
    × ((config : MintConfig) × IsRunning rt c.mint_b c.config_b s config)
    × IsAllowed rt c.user c.mint_a c.user_a c.policy_a s
    × IsAllowed rt c.user c.mint_b c.user_b c.policy_b s

-- The accounts of an instruction that trades with the pool.
abbrev pub trades : Instruction → Option PoolAccounts
trades (initialize_pool c fee_bps) = none
trades (add_liquidity d x y min_a min_b min_lp) = some d.shared
trades (remove_liquidity d lp_amount min_a_out min_b_out) = some d.shared
trades (swap c direction amount_in min_amount_out) = some c

check_config-ok :
    (rt : Runtime) (mint address : Pubkey) (config : MintConfig)
    → check_config rt mint address config ≡ ok tt
    → (rt.create_program_address
          (text config_seed ∷ key mint ∷ bump config.bump ∷ [])
          rt.stablecoin_id
        ≡ some address)
      × (config.mint ≡ mint)
unfolding check_config check_seeds
check_config-ok rt mint address config h = ground arith

check_policy-ok :
    (rt : Runtime) (mint account address : Pubkey) (policy : WalletPolicy)
    → check_policy rt mint account address policy ≡ ok tt
    → (rt.create_program_address
          (text policy_seed ∷ key mint ∷ key account ∷ bump policy.bump ∷ [])
          rt.stablecoin_id
        ≡ some address)
      × (is_blocked policy.status ≡ false)
unfolding check_policy check_seeds
check_policy-ok rt mint account address policy h = ground arith

pool_context-gates :
    (rt : Runtime) (c : PoolAccounts) (s : Chain) {a : PoolContext}
    → pool_context rt c s ≡ ok a
    → ((s.configs c.config_a ≡ some a.config_a) × (s.configs c.config_b ≡ some a.config_b))
      × ((check_config rt c.mint_a c.config_a a.config_a ≡ ok tt)
          × (check_config rt c.mint_b c.config_b a.config_b ≡ ok tt))
      × ((p : WalletPolicy) × (s.policies c.policy_a ≡ some p)
          × (check_policy rt c.mint_a c.user_a c.policy_a p ≡ ok tt))
      × ((p : WalletPolicy) × (s.policies c.policy_b ≡ some p)
          × (check_policy rt c.mint_b c.user_b c.policy_b p ≡ ok tt))
unfolding pool_context
pool_context-gates rt c s {a} h = ground arith

liquidity_context-gates :
    (rt : Runtime) (d : LiquidityAccounts) (s : Chain) {a : LiquidityContext}
    → liquidity_context rt d s ≡ ok a
    → ((s.configs d.shared.config_a ≡ some a.shared.config_a)
        × (s.configs d.shared.config_b ≡ some a.shared.config_b))
      × ((check_config rt d.shared.mint_a d.shared.config_a a.shared.config_a ≡ ok tt)
          × (check_config rt d.shared.mint_b d.shared.config_b a.shared.config_b ≡ ok tt))
      × ((p : WalletPolicy) × (s.policies d.shared.policy_a ≡ some p)
          × (check_policy rt d.shared.mint_a d.shared.user_a d.shared.policy_a p ≡ ok tt))
      × ((p : WalletPolicy) × (s.policies d.shared.policy_b ≡ some p)
          × (check_policy rt d.shared.mint_b d.shared.user_b d.shared.policy_b p ≡ ok tt))
unfolding liquidity_context
liquidity_context-gates rt d s {a} h = ground arith

check_policy-IsAllowed :
    (rt : Runtime) (user mint account address : Pubkey) (s : Chain) (held : TokenAccount)
    → s.ledger.accounts account ≡ some held
    → held.owner ≡ user
    → held.mint ≡ mint
    → (p : WalletPolicy) × (s.policies address ≡ some p)
      × (check_policy rt mint account address p ≡ ok tt)
    → IsAllowed rt user mint account address s
check_policy-IsAllowed rt user mint account address s held has_account owned of_mint
      (p, stored, checked) =
    let (derived, allowed) = check_policy-ok rt mint account address p checked in
    record {
      held = held;
      has_account = has_account;
      owned = owned;
      of_mint = of_mint;
      policy = p;
      stored = stored;
      derived = derived;
      allowed = allowed;
    }

-- The gates, once the accounts are loaded and the mints are found to run.
opened :
    (rt : Runtime) (c : PoolAccounts) (s : Chain) (a : PoolContext)
    → IsContext c s a
    → ((s.configs c.config_a ≡ some a.config_a) × (s.configs c.config_b ≡ some a.config_b))
      × ((check_config rt c.mint_a c.config_a a.config_a ≡ ok tt)
          × (check_config rt c.mint_b c.config_b a.config_b ≡ ok tt))
      × ((p : WalletPolicy) × (s.policies c.policy_a ≡ some p)
          × (check_policy rt c.mint_a c.user_a c.policy_a p ≡ ok tt))
      × ((p : WalletPolicy) × (s.policies c.policy_b ≡ some p)
          × (check_policy rt c.mint_b c.user_b c.policy_b p ≡ ok tt))
    → ensure_unpaused a.config_a a.config_b ≡ ok tt
    → IsOpen rt c s
opened rt c s a ctx ((ea, eb), (ca, cb), pa, pb) running =
    let (ra, rb) = ensure_unpaused-ok a.config_a a.config_b running in
    let (da, of_a) = check_config-ok rt c.mint_a c.config_a a.config_a ca in
    let (db, of_b) = check_config-ok rt c.mint_b c.config_b a.config_b cb in
    (
      (a.config_a, record { stored = ea; derived = da; of_mint = of_a; unpaused = ra }),
      (a.config_b, record { stored = eb; derived = db; of_mint = of_b; unpaused = rb }),
      check_policy-IsAllowed rt c.user c.mint_a c.user_a c.policy_a s a.user_a ctx.has_user_a
          ctx.user_a_owner ctx.user_a_mint pa,
      check_policy-IsAllowed rt c.user c.mint_b c.user_b c.policy_b s a.user_b ctx.has_user_b
          ctx.user_b_owner ctx.user_b_mint pb,
    )

swap_quote-running :
    (c : PoolAccounts) (a : PoolContext) (direction : SwapDirection) (amount_in min_amount_out : ℕ)
    {quoted : _}
    → swap_quote c a direction amount_in min_amount_out ≡ ok quoted
    → ensure_unpaused a.config_a a.config_b ≡ ok tt
unfolding swap_quote
swap_quote-running c a direction amount_in min_amount_out h = ground arith

remove_quote-running :
    (d : LiquidityAccounts) (a : LiquidityContext) (lp_amount min_a_out min_b_out : ℕ) {q : _}
    → remove_quote d a lp_amount min_a_out min_b_out ≡ ok q
    → ensure_unpaused a.shared.config_a a.shared.config_b ≡ ok tt
unfolding remove_quote ensure_pool
remove_quote-running d a lp_amount min_a_out min_b_out h = ground arith

add_checks-running :
    (d : LiquidityAccounts) (a : LiquidityContext) (x y min_a min_b min_lp : ℕ) {q : _}
    → add_checks d a x y min_a min_b min_lp ≡ ok q
    → ensure_unpaused a.shared.config_a a.shared.config_b ≡ ok tt
unfolding add_checks ensure_pool
add_checks-running d a x y min_a min_b min_lp h = ground arith

swap-IsOpen :
    (rt : Runtime) (c : PoolAccounts) (direction : SwapDirection) (amount_in min_amount_out : ℕ)
    (s : Chain) {done : Chain × SwapExecuted}
    → Swap.swap rt c direction amount_in min_amount_out s ≡ ok done
    → IsOpen rt c s
swap-IsOpen rt c direction amount_in min_amount_out s h =
    let (a, k, q, _, ea, eq, _, _) = swap-stages rt c direction amount_in min_amount_out s h in
    opened rt c s a (pool_context-IsContext rt c s ea) (pool_context-gates rt c s ea)
      (swap_quote-running c a direction amount_in min_amount_out eq)

liquidity-IsOpen :
    (rt : Runtime) (d : LiquidityAccounts) (s : Chain) (a : LiquidityContext)
    → liquidity_context rt d s ≡ ok a
    → ensure_unpaused a.shared.config_a a.shared.config_b ≡ ok tt
    → IsOpen rt d.shared s
liquidity-IsOpen rt d s a ea running =
    let ((stored, va, vb, _), users, (pool, _, ua, ub), _) = context-raw rt d s ea in
    let ctx = checked-IsContext rt d.shared s a.shared (stored, va, vb) users pool ua ub in
    opened rt d.shared s a.shared ctx (liquidity_context-gates rt d s ea) running

remove_liquidity-IsOpen :
    (rt : Runtime) (d : LiquidityAccounts) (lp_amount min_a_out min_b_out : ℕ) (s : Chain)
    {done : Chain × LiquidityRemoved}
    → Liquidity.remove_liquidity rt d lp_amount min_a_out min_b_out s ≡ ok done
    → IsOpen rt d.shared s
remove_liquidity-IsOpen rt d lp_amount min_a_out min_b_out s h =
    let (a, _, _, ea, eq, _, _) = remove_liquidity-stages rt d lp_amount min_a_out min_b_out s h in
    liquidity-IsOpen rt d s a ea (remove_quote-running d a lp_amount min_a_out min_b_out eq)

add_liquidity-IsOpen :
    (rt : Runtime) (d : LiquidityAccounts) (x y min_a min_b min_lp : ℕ) (s : Chain)
    {done : Chain × LiquidityAdded}
    → Deposit.add_liquidity rt d x y min_a min_b min_lp s ≡ ok done
    → IsOpen rt d.shared s
add_liquidity-IsOpen rt d x y min_a min_b min_lp s h =
    let (a, _, _, _, ea, eq, _, _) = add_liquidity-stages rt d x y min_a min_b min_lp s h in
    liquidity-IsOpen rt d s a ea (add_checks-running d a x y min_a min_b min_lp eq)

-- A deposit, a withdrawal or a swap that succeeds was between two mints whose stored
-- configurations are of those mints, at addresses derived from them, and not paused. For each of
-- the two mints the user owns the given account of it, and a policy that does not block it is
-- stored at an address derived from that mint and that account.
pub process-IsOpen :
    (rt : Runtime) (i : Instruction) (c : PoolAccounts) (s : Chain) {s' : Chain}
    → trades i ≡ some c
    → process rt i s ≡ ok s'
    → IsOpen rt c s
unfolding process
process-IsOpen rt (initialize_pool d fee_bps) c s same h = cc
process-IsOpen rt (add_liquidity d x y min_a min_b min_lp) c s same h =
    let shared : d.shared ≡ c = cc in
    subst (λ k. IsOpen rt k s) shared
      (add_liquidity-IsOpen rt d x y min_a min_b min_lp s (chain_after-ok _ h).1)
process-IsOpen rt (remove_liquidity d lp_amount min_a_out min_b_out) c s same h =
    let shared : d.shared ≡ c = cc in
    subst (λ k. IsOpen rt k s) shared
      (remove_liquidity-IsOpen rt d lp_amount min_a_out min_b_out s (chain_after-ok _ h).1)
process-IsOpen rt (swap d direction amount_in min_amount_out) c s same h =
    let shared : d ≡ c = cc in
    subst (λ k. IsOpen rt k s) shared
      (swap-IsOpen rt d direction amount_in min_amount_out s (chain_after-ok _ h).1)
