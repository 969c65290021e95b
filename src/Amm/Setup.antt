-- ===== src/Amm/Setup.antt =====
-- `initialize_pool`: programs/amm/src/instructions/initialize_pool.rs. Its handler is the composition
-- of the checks, the creation of the four child accounts, and the write of the pool. Rent that
-- creating the pool account moves is not modelled.
pub mod Effects
use solana_stablecoin_amm.Base.{
  ℕ, Bool, true, false, not, ◌&&◌, none, some, List, [], ◌∷◌, leb, ltb, ◌==◌, if◌then◌else◌, Result,
  ok, err, ◌>>=◌, ◌>>◌, guard,
}
use solana_stablecoin_amm.Math.{max_fee_bps}
use solana_stablecoin_amm.Chain.{
  Pubkey, Mint, ExtensionType, default_account_state, pausable, metadata_pointer, token_metadata,
  other_extension, Ledger, Seed, text, key, bump, Runtime, Failure, anchor, unreadable,
  account_already_in_use, load, invoke, update, is_some,
}
use solana_stablecoin_amm.Chain.System.{canonical, provision}
use solana_stablecoin_amm.State.{Pool, Chain}
use solana_stablecoin_amm.Amm.{
  AmmError, identical_mints, invalid_mint_order, fee_too_high, decimals_mismatch,
  unsupported_mint_extension, math_overflow, child_account_in_use, Checked, require, pool_seed,
  check_config,
}

pub record InitializePoolAccounts : Type 0 where
  pub payer : Pubkey
  pub mint_a : Pubkey
  pub mint_b : Pubkey
  pub config_a : Pubkey
  pub config_b : Pubkey
  pub pool : Pubkey
  pub vault_a : Pubkey
  pub vault_b : Pubkey
  pub lp_mint : Pubkey
  pub locked_lp : Pubkey

-- `ctx.bumps`
pub record PoolBumps : Type 0 where
  pub pool : ℕ
  pub vault_a : ℕ
  pub vault_b : ℕ
  pub lp_mint : ℕ
  pub locked_lp : ℕ

pub record PoolInitialized : Type 0 where
  pub pool : Pubkey
  pub mint_a : Pubkey
  pub mint_b : Pubkey
  pub lp_mint : Pubkey
  pub fee_bps : ℕ
  pub decimals : ℕ

abbrev pub vault_seed : List ℕ
vault_seed = b'v' ∷ b'a' ∷ b'u' ∷ b'l' ∷ b't' ∷ []

abbrev pub lp_mint_seed : List ℕ
lp_mint_seed = b'l' ∷ b'p' ∷ b'_' ∷ b'm' ∷ b'i' ∷ b'n' ∷ b't' ∷ []

abbrev pub locked_lp_seed : List ℕ
locked_lp_seed = b'l' ∷ b'o' ∷ b'c' ∷ b'k' ∷ b'e' ∷ b'd' ∷ b'_' ∷ b'l' ∷ b'p' ∷ []

abbrev pub stablecoin_decimals : ℕ
stablecoin_decimals = 6

-- `SUPPORTED_MINT_EXTENSIONS.contains(extension)`
abbrev pub is_supported : ExtensionType → Bool
is_supported default_account_state = true
is_supported pausable = true
is_supported metadata_pointer = true
is_supported token_metadata = true
is_supported (other_extension n) = false

abbrev pub all_supported : List ExtensionType → Bool
all_supported [] = true
all_supported (e ∷ es) = is_supported e && all_supported es

module _ (rt : Runtime) where
  -- The constraints on the accounts.
  unfoldable pub setup_context :
      InitializePoolAccounts → Chain → Result (Failure AmmError) (Mint × Mint × PoolBumps)
  setup_context c s = do
    mint_a ← load (s.ledger.mints c.mint_a)
    mint_b ← load (s.ledger.mints c.mint_b)
    config_a ← load (s.configs c.config_a)
    config_b ← load (s.configs c.config_b)
    pool ← canonical rt (text pool_seed ∷ key c.mint_a ∷ key c.mint_b ∷ []) rt.amm_id c.pool
    guard (not (is_some (s.pools c.pool))) (anchor account_already_in_use)
    check_config rt c.mint_a c.config_a config_a
    check_config rt c.mint_b c.config_b config_b
    vault_a ← canonical rt (text vault_seed ∷ key c.pool ∷ key c.mint_a ∷ []) rt.amm_id c.vault_a
    vault_b ← canonical rt (text vault_seed ∷ key c.pool ∷ key c.mint_b ∷ []) rt.amm_id c.vault_b
    lp_mint ← canonical rt (text lp_mint_seed ∷ key c.pool ∷ []) rt.amm_id c.lp_mint
    locked_lp ← canonical rt (text locked_lp_seed ∷ key c.pool ∷ []) rt.amm_id c.locked_lp
    let bumps : PoolBumps = record {
      pool = pool;
      vault_a = vault_a;
      vault_b = vault_b;
      lp_mint = lp_mint;
      locked_lp = locked_lp;
    }
    ok (mint_a, mint_b, bumps)

  unfoldable pub vault_space : Pubkey → Ledger → Result (Failure AmmError) ℕ
  vault_space mint l = elim (l.mints mint) [
    | none ↦ err unreadable
    | some m ↦ do
      require (all_supported m.extensions) unsupported_mint_extension
      invoke (rt.account_len (rt.required_init_account_extensions m.extensions))
  ]

  unfoldable pub create_pda_account :
      (payer target owner space : ℕ) → List Seed → Ledger → Result (Failure AmmError) Ledger
  create_pda_account payer target owner space seeds l =
      provision rt math_overflow child_account_in_use payer target owner (rt.minimum_balance space)
        space seeds l

  unfoldable pub create_vault :
      (payer vault mint pool : Pubkey) → List Seed → Ledger → Result (Failure AmmError) Ledger
  create_vault payer vault mint pool seeds l = do
    space ← vault_space mint l
    created ← create_pda_account payer vault rt.token_id space seeds l
    invoke (rt.initialize_account3 vault mint pool created)

  -- The LP mint and the account that holds its locked tokens.
  unfoldable pub create_lp :
      InitializePoolAccounts → PoolBumps → ℕ → Ledger → Result (Failure AmmError) Ledger
  create_lp c bumps decimals l = do
    mint_space ← invoke (rt.mint_len [])
    minted ←
        create_pda_account c.payer c.lp_mint rt.token_id mint_space
          (text lp_mint_seed ∷ key c.pool ∷ bump bumps.lp_mint ∷ []) l
    lp ← invoke (rt.initialize_mint2 c.lp_mint decimals c.pool none minted)
    account_space ← invoke (rt.account_len [])
    opened ←
        create_pda_account c.payer c.locked_lp rt.token_id account_space
          (text locked_lp_seed ∷ key c.pool ∷ bump bumps.locked_lp ∷ []) lp
    invoke (rt.initialize_account3 c.locked_lp c.lp_mint c.pool opened)

  -- All four child accounts, in the handler's order.
  unfoldable pub create_children :
      InitializePoolAccounts → PoolBumps → ℕ → Ledger → Result (Failure AmmError) Ledger
  create_children c bumps decimals l = do
    first ←
        create_vault c.payer c.vault_a c.mint_a c.pool
          (text vault_seed ∷ key c.pool ∷ key c.mint_a ∷ bump bumps.vault_a ∷ []) l
    second ←
        create_vault c.payer c.vault_b c.mint_b c.pool
          (text vault_seed ∷ key c.pool ∷ key c.mint_b ∷ bump bumps.vault_b ∷ []) first
    create_lp c bumps decimals second

-- The checks of the handler.
unfoldable pub setup_checks : InitializePoolAccounts → Mint → Mint → ℕ → Checked
setup_checks c mint_a mint_b fee_bps = do
  require (not (c.mint_a == c.mint_b)) identical_mints
  require (ltb c.mint_a c.mint_b) invalid_mint_order
  require (leb fee_bps max_fee_bps) fee_too_high
  require (mint_a.decimals == mint_b.decimals && mint_a.decimals == stablecoin_decimals)
      decimals_mismatch

-- The pool that the handler stores.
abbrev pub new_pool : InitializePoolAccounts → PoolBumps → ℕ → ℕ → Pool
new_pool c bumps fee_bps decimals = record {
  mint_a = c.mint_a;
  mint_b = c.mint_b;
  vault_a = c.vault_a;
  vault_b = c.vault_b;
  lp_mint = c.lp_mint;
  locked_lp = c.locked_lp;
  reserve_a = 0;
  reserve_b = 0;
  fee_bps = fee_bps;
  decimals = decimals;
  bump = bumps.pool;
  vault_a_bump = bumps.vault_a;
  vault_b_bump = bumps.vault_b;
  lp_mint_bump = bumps.lp_mint;
  locked_lp_bump = bumps.locked_lp;
}

unfoldable pub initialize_pool :
    Runtime
    → InitializePoolAccounts
    → ℕ
    → Chain
    → Result (Failure AmmError) (Chain × PoolInitialized)
initialize_pool rt c fee_bps s = do
  (mint_a, mint_b, bumps) ← setup_context rt c s
  _ ← setup_checks c mint_a mint_b fee_bps
  l ← create_children rt c bumps mint_a.decimals s.ledger
  let pool = new_pool c bumps fee_bps mint_a.decimals
  ok (
    record s { ledger = l; pools = update s.pools c.pool (some pool) },
    record {
      pool = c.pool;
      mint_a = c.mint_a;
      mint_b = c.mint_b;
      lp_mint = c.lp_mint;
      fee_bps = fee_bps;
      decimals = mint_a.decimals;
    },
  )
