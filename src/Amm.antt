-- ===== src/Amm.antt =====
-- The errors, the shared checks and the account constraints of the AMM program:
-- programs/amm/src/errors.rs, programs/amm/src/instructions/mod.rs and the parts of the
-- `#[derive(Accounts)]` structs that its instructions share. An account is passed by its address;
-- loading it is Anchor's deserialisation, which refuses an address that holds no such account.
pub mod Context
pub mod Program
pub mod Setup
pub mod Swap
pub mod Liquidity
pub mod Deposit
pub mod Shares
pub mod Gates
use solana_stablecoin_amm.Base.{
  ℕ, Bool, true, false, not, ◌&&◌, Option, none, some, List, [], ◌∷◌, ltb, leb, ◌==◌, if◌then◌else◌,
  Result, ok, err, ◌>>=◌, ◌>>◌, guard,
}
use solana_stablecoin_amm.Math.{MathError, minimum_liquidity}
use solana_stablecoin_amm.Chain.{
  Pubkey, TokenAccount, Mint, Seed, text, key, bump, Runtime, Failure, custom, anchor,
  constraint_has_one, constraint_seeds, load, is_address,
}
use solana_stablecoin_amm.State.{MintConfig, WalletPolicy, PolicyStatus, Pool, Chain, is_blocked}

pub data AmmError : Type 0 where
  identical_mints invalid_mint_order fee_too_high decimals_mismatch : AmmError
  unsupported_mint_extension invalid_stablecoin_config protocol_paused : AmmError
  wallet_not_allowed slippage_exceeded vault_balance_invariant lp_supply_invariant : AmmError
  locked_liquidity_invariant duplicate_account token_account_mint_mismatch : AmmError
  invalid_token_owner constant_product_violation zero_amount invalid_fee : AmmError
  insufficient_liquidity insufficient_initial_liquidity zero_output : AmmError
  invalid_liquidity_state value_out_of_range math_overflow child_account_in_use : AmmError
  invalid_mint_authority : AmmError

-- `impl From<MathError> for AmmError`
abbrev pub from_math : MathError → Failure AmmError
from_math MathError.zero_amount = custom zero_amount
from_math MathError.invalid_fee = custom invalid_fee
from_math MathError.insufficient_liquidity = custom insufficient_liquidity
from_math MathError.insufficient_initial_liquidity = custom insufficient_initial_liquidity
from_math MathError.zero_output = custom zero_output
from_math MathError.invalid_liquidity_state = custom invalid_liquidity_state
from_math MathError.value_out_of_range = custom value_out_of_range
from_math MathError.math_overflow = custom math_overflow

abbrev pub Checked : Type 0
Checked = Result (Failure AmmError) (Unit {0})

-- `require!`
abbrev pub require : Bool → AmmError → Checked
require b e = guard b (custom e)

unfoldable pub ensure_unpaused : MintConfig → MintConfig → Checked
ensure_unpaused config_a config_b =
    require (not config_a.paused && not config_b.paused) protocol_paused

unfoldable pub ensure_solvent : Pool → ℕ → ℕ → Checked
ensure_solvent pool vault_a vault_b =
    require (leb pool.reserve_a vault_a && leb pool.reserve_b vault_b) vault_balance_invariant

unfoldable pub ensure_seeded : Pool → ℕ → ℕ → Checked
ensure_seeded pool lp_supply locked_lp = do
  require (ltb 0 pool.reserve_a && ltb 0 pool.reserve_b && leb minimum_liquidity lp_supply)
      invalid_liquidity_state
  require (leb minimum_liquidity locked_lp && leb locked_lp lp_supply) locked_liquidity_invariant

abbrev pub is_key : Option Pubkey → Pubkey → Bool
is_key none k = false
is_key (some p) k = p == k

abbrev pub is_none : Option Pubkey → Bool
is_none none = true
is_none (some _) = false

-- The accounts that every pool instruction names, by address.
pub record PoolAccounts : Type 0 where
  pub user : Pubkey
  pub pool : Pubkey
  pub mint_a : Pubkey
  pub mint_b : Pubkey
  pub config_a : Pubkey
  pub config_b : Pubkey
  pub vault_a : Pubkey
  pub vault_b : Pubkey
  pub lp_mint : Pubkey
  pub user_a : Pubkey
  pub user_b : Pubkey
  pub policy_a : Pubkey
  pub policy_b : Pubkey

-- The same accounts as they are read when the instruction starts.
pub record PoolContext : Type 0 where
  pub pool : Pool
  pub config_a : MintConfig
  pub config_b : MintConfig
  pub vault_a : TokenAccount
  pub vault_b : TokenAccount
  pub lp_mint : Mint
  pub user_a : TokenAccount
  pub user_b : TokenAccount

unfoldable pub ensure_children : PoolAccounts → PoolContext → Checked
ensure_children c a = do
  require (not (c.vault_a == c.vault_b)) duplicate_account
  require (a.vault_a.mint == a.pool.mint_a && a.vault_b.mint == a.pool.mint_b)
      token_account_mint_mismatch
  require (a.vault_a.owner == c.pool && a.vault_b.owner == c.pool) invalid_token_owner
  require (a.lp_mint.decimals == a.pool.decimals) decimals_mismatch
  require (is_key a.lp_mint.mint_authority c.pool && is_none a.lp_mint.freeze_authority)
      invalid_mint_authority

-- The pool's address and key, the LP mint's, and the locked account.
unfoldable pub ensure_locked_account : Pubkey → Pubkey → TokenAccount → Checked
ensure_locked_account pool lp_mint locked_lp = do
  require (locked_lp.mint == lp_mint) token_account_mint_mismatch
  require (locked_lp.owner == pool) invalid_token_owner

-- Constraints of the account structs.
abbrev pub has_one : Pubkey → Pubkey → Checked
has_one stored given = guard (stored == given) (anchor constraint_has_one)

abbrev pub pool_seed : List ℕ
pool_seed = b'p' ∷ b'o' ∷ b'o' ∷ b'l' ∷ []

abbrev pub config_seed : List ℕ
config_seed = b'c' ∷ b'o' ∷ b'n' ∷ b'f' ∷ b'i' ∷ b'g' ∷ []

abbrev pub policy_seed : List ℕ
policy_seed = b'p' ∷ b'o' ∷ b'l' ∷ b'i' ∷ b'c' ∷ b'y' ∷ []

module _ (rt : Runtime) where
  unfoldable pub check_seeds : List Seed → Pubkey → Pubkey → Checked
  check_seeds seeds program address =
      guard (is_address (rt.create_program_address seeds program) address) (anchor constraint_seeds)

  -- The constraints on `config_a`, or on `config_b`.
  unfoldable pub check_config : Pubkey → Pubkey → MintConfig → Checked
  check_config mint address config = do
    check_seeds (text config_seed ∷ key mint ∷ bump config.bump ∷ []) rt.stablecoin_id address
    require (config.mint == mint) invalid_stablecoin_config

  -- The constraints on `policy_a`, or on `policy_b`.
  unfoldable pub check_policy : Pubkey → Pubkey → Pubkey → WalletPolicy → Checked
  check_policy mint account address policy = do
    check_seeds (text policy_seed ∷ key mint ∷ key account ∷ bump policy.bump ∷ []) rt.stablecoin_id
        address
    require (not (is_blocked policy.status)) wallet_not_allowed

  -- The constraints on the pool that all instructions share.
  unfoldable pub check_pool : PoolAccounts → Pool → Checked
  check_pool c pool = do
    check_seeds (text pool_seed ∷ key pool.mint_a ∷ key pool.mint_b ∷ bump pool.bump ∷ []) rt.amm_id
        c.pool
    has_one pool.mint_a c.mint_a
    has_one pool.mint_b c.mint_b
    has_one pool.vault_a c.vault_a
    has_one pool.vault_b c.vault_b
    has_one pool.lp_mint c.lp_mint

-- The constraints on a token account of the user: it is not the pool's own, it holds the mint, and
-- the user owns it.
unfoldable pub check_user_account : Pubkey → Pubkey → Pubkey → Pubkey → TokenAccount → Checked
check_user_account user reserved mint address account = do
  require (not (address == reserved)) duplicate_account
  require (account.mint == mint) token_account_mint_mismatch
  require (account.owner == user) invalid_token_owner

-- Loading the accounts that all instructions share, and checking their constraints.
unfoldable pub pool_context : Runtime → PoolAccounts → Chain → Result (Failure AmmError) PoolContext
pool_context rt c s = do
  pool ← load (s.pools c.pool)
  mint_a ← load (s.ledger.mints c.mint_a)
  mint_b ← load (s.ledger.mints c.mint_b)
  config_a ← load (s.configs c.config_a)
  config_b ← load (s.configs c.config_b)
  vault_a ← load (s.ledger.accounts c.vault_a)
  vault_b ← load (s.ledger.accounts c.vault_b)
  lp_mint ← load (s.ledger.mints c.lp_mint)
  user_a ← load (s.ledger.accounts c.user_a)
  user_b ← load (s.ledger.accounts c.user_b)
  policy_a ← load (s.policies c.policy_a)
  policy_b ← load (s.policies c.policy_b)
  check_pool rt c pool
  check_config rt c.mint_a c.config_a config_a
  check_config rt c.mint_b c.config_b config_b
  check_user_account c.user pool.vault_a c.mint_a c.user_a user_a
  check_user_account c.user pool.vault_b c.mint_b c.user_b user_b
  check_policy rt c.mint_a c.user_a c.policy_a policy_a
  check_policy rt c.mint_b c.user_b c.policy_b policy_b
  ok (record {
    pool = pool;
    config_a = config_a;
    config_b = config_b;
    vault_a = vault_a;
    vault_b = vault_b;
    lp_mint = lp_mint;
    user_a = user_a;
    user_b = user_b;
  })
