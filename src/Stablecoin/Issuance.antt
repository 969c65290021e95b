-- ===== src/Stablecoin/Issuance.antt =====
-- `mint_to` and `burn`: programs/stablecoin/src/instructions/mint_to.rs and burn.rs.
pub mod Tracked
pub mod Minting
pub mod Burning
use solana_stablecoin_amm.Base.{
  ℕ, not, some, [], ◌∷◌, leb, ltb, ◌==◌, if◌then◌else◌, Result, ok, err, ◌>>=◌, ◌>>◌, ok_or, guard,
  checked_add, checked_sub,
}
use solana_stablecoin_amm.Chain.{
  Pubkey, TokenAccount, Mint, Ledger, text, key, bump, Runtime, Failure, custom, load, invoke,
  update,
}
use solana_stablecoin_amm.State.{MintConfig, MinterRole, WalletPolicy, is_blocked, Chain}
use solana_stablecoin_amm.Stablecoin.{
  StablecoinError, math_overflow, unauthorized, zero_amount, allowance_exceeded,
  supply_cap_exceeded, wallet_not_allowed, protocol_paused, counter_invariant_violation,
  token_account_mint_mismatch, require, has_one, minter_seed, policy_seed, ensure_supply_tracked,
  check_seeds, check_config,
}

pub record MintToAccounts : Type 0 where
  pub minter : Pubkey
  pub mint : Pubkey
  pub config : Pubkey
  pub minter_role : Pubkey
  pub destination : Pubkey
  pub wallet_policy : Pubkey

-- The accounts as they are read when `mint_to` starts.
pub record MintToContext : Type 0 where
  pub mint : Mint
  pub config : MintConfig
  pub minter_role : MinterRole
  pub destination : TokenAccount
  pub wallet_policy : WalletPolicy

pub record TokensMinted : Type 0 where
  pub mint : Pubkey
  pub minter : Pubkey
  pub destination : Pubkey
  pub amount : ℕ
  pub minter_minted : ℕ
  pub supply : ℕ

unfoldable pub mint_to_context :
    Runtime → MintToAccounts → Chain → Result (Failure StablecoinError) MintToContext
mint_to_context rt c s = do
  mint ← load (s.ledger.mints c.mint)
  config ← load (s.configs c.config)
  minter_role ← load (s.roles c.minter_role)
  destination ← load (s.ledger.accounts c.destination)
  wallet_policy ← load (s.policies c.wallet_policy)
  check_config rt c.mint c.config config
  check_seeds rt (text minter_seed ∷ key c.config ∷ key c.minter ∷ bump minter_role.bump ∷ [])
      c.minter_role
  require (minter_role.config == c.config) unauthorized
  require (minter_role.authority == c.minter) unauthorized
  require (destination.mint == c.mint) token_account_mint_mismatch
  check_seeds rt (text policy_seed ∷ key c.mint ∷ key c.destination ∷ bump wallet_policy.bump ∷ [])
      c.wallet_policy
  has_one wallet_policy.mint c.mint
  ok (record {
    mint = mint;
    config = config;
    minter_role = minter_role;
    destination = destination;
    wallet_policy = wallet_policy;
  })

-- The checks of the handler before its call: the new `minted`, supply and `total_minted`.
unfoldable pub mint_to_checks : MintToContext → ℕ → Result (Failure StablecoinError) (ℕ × ℕ × ℕ)
mint_to_checks a amount = do
  require (ltb 0 amount) zero_amount
  require (not a.config.paused) protocol_paused
  require (not (is_blocked a.wallet_policy.status)) wallet_not_allowed
  ensure_supply_tracked a.config a.mint.supply
  minted ← ok_or (checked_add 64 a.minter_role.minted amount) (custom math_overflow)
  require (leb minted a.minter_role.allowance) allowance_exceeded
  new_supply ← ok_or (checked_add 64 a.mint.supply amount) (custom math_overflow)
  require (leb new_supply a.config.supply_cap) supply_cap_exceeded
  total_minted ← ok_or (checked_add 128 a.config.total_minted amount) (custom math_overflow)
  ok (minted, new_supply, total_minted)

-- From the reload on, against the ledger that the call left.
unfoldable pub mint_to_settle :
    MintToAccounts
    → MintToContext
    → ℕ
    → ℕ × ℕ × ℕ
    → Ledger
    → Chain
    → Result (Failure StablecoinError) (Chain × TokensMinted)
mint_to_settle c a amount (minted, new_supply, total_minted) l s = do
  mint ← load (l.mints c.mint)
  require (mint.supply == new_supply) counter_invariant_violation
  let role = record (a.minter_role) { minted = minted }
  let config = record (a.config) { total_minted = total_minted }
  ensure_supply_tracked config new_supply
  ok (
    record s {
      ledger = l;
      roles = update s.roles c.minter_role (some role);
      configs = update s.configs c.config (some config);
    },
    record {
      mint = c.mint;
      minter = c.minter;
      destination = c.destination;
      amount = amount;
      minter_minted = minted;
      supply = new_supply;
    },
  )

unfoldable pub mint_to :
    Runtime → MintToAccounts → ℕ → Chain → Result (Failure StablecoinError) (Chain × TokensMinted)
mint_to rt c amount s = do
  a ← mint_to_context rt c s
  totals ← mint_to_checks a amount
  l ← invoke (rt.mint_to_checked c.mint c.destination c.config amount a.mint.decimals s.ledger)
  mint_to_settle c a amount totals l s

pub record BurnAccounts : Type 0 where
  pub owner : Pubkey
  pub mint : Pubkey
  pub config : Pubkey
  pub source : Pubkey

pub record BurnContext : Type 0 where
  pub mint : Mint
  pub config : MintConfig
  pub source : TokenAccount

pub record TokensBurned : Type 0 where
  pub mint : Pubkey
  pub owner : Pubkey
  pub source : Pubkey
  pub amount : ℕ
  pub supply : ℕ

unfoldable pub burn_context :
    Runtime → BurnAccounts → Chain → Result (Failure StablecoinError) BurnContext
burn_context rt c s = do
  mint ← load (s.ledger.mints c.mint)
  config ← load (s.configs c.config)
  source ← load (s.ledger.accounts c.source)
  check_config rt c.mint c.config config
  require (source.mint == c.mint) token_account_mint_mismatch
  require (source.owner == c.owner) unauthorized
  ok (record { mint = mint; config = config; source = source })

-- The checks before the call: the new `total_burned`.
unfoldable pub burn_checks : BurnContext → ℕ → Result (Failure StablecoinError) ℕ
burn_checks a amount = do
  require (ltb 0 amount) zero_amount
  require (not a.config.paused) protocol_paused
  ensure_supply_tracked a.config a.mint.supply
  ok_or (checked_add 128 a.config.total_burned amount) (custom math_overflow)

unfoldable pub burn_settle :
    BurnAccounts
    → BurnContext
    → ℕ
    → ℕ
    → Ledger
    → Chain
    → Result (Failure StablecoinError) (Chain × TokensBurned)
burn_settle c a amount total_burned l s = do
  new_supply ← ok_or (checked_sub a.mint.supply amount) (custom math_overflow)
  mint ← load (l.mints c.mint)
  require (mint.supply == new_supply) counter_invariant_violation
  let config = record (a.config) { total_burned = total_burned }
  ensure_supply_tracked config new_supply
  ok (
    record s { ledger = l; configs = update s.configs c.config (some config) },
    record {
      mint = c.mint;
      owner = c.owner;
      source = c.source;
      amount = amount;
      supply = new_supply;
    },
  )

unfoldable pub burn :
    Runtime → BurnAccounts → ℕ → Chain → Result (Failure StablecoinError) (Chain × TokensBurned)
burn rt c amount s = do
  a ← burn_context rt c s
  total_burned ← burn_checks a amount
  l ← invoke (rt.burn_checked c.mint c.source c.owner amount a.mint.decimals s.ledger)
  burn_settle c a amount total_burned l s
