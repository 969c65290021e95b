-- ===== src/Stablecoin/Compliance.antt =====
-- The instructions of the compliance authority: programs/stablecoin/src/instructions/set_pause.rs and
-- set_wallet_policy.rs, with the pausing calls of programs/stablecoin/src/token2022.rs. Rent moved by
-- creating a policy account is not modelled.
pub mod Effects
use solana_stablecoin_amm.Base.{
  ℕ, Bool, true, false, not, ◌||◌, Option, some, none, [], ◌∷◌, ◌==◌, if◌then◌else◌, Result, ok,
  err, ◌>>=◌, ◌>>◌, guard, ok_or,
}
use solana_stablecoin_amm.Chain.{
  Pubkey, TokenAccount, Ledger, text, key, bump, Runtime, Failure, custom, anchor, unreadable,
  constraint_seeds, invoke, load, update,
}
use solana_stablecoin_amm.State.{MintConfig, PolicyStatus, is_blocked, WalletPolicy, Chain}
use solana_stablecoin_amm.Stablecoin.{
  StablecoinError, unauthorized, token_account_mint_mismatch, policy_state_mismatch,
  pause_state_drift, pause_state_unchanged, Checked, require, policy_seed, pausable_is_paused,
  check_config, pausable_set,
}

abbrev pub bool_eq : Bool → Bool → Bool
bool_eq true b = b
bool_eq false b = not b

pub record SetPauseAccounts : Type 0 where
  pub authority : Pubkey
  pub mint : Pubkey
  pub config : Pubkey

pub record PauseChanged : Type 0 where
  pub mint : Pubkey
  pub authority : Pubkey
  pub paused : Bool

-- The constraints on the accounts.
unfoldable pub set_pause_context :
    Runtime → SetPauseAccounts → Chain → Result (Failure StablecoinError) MintConfig
set_pause_context rt c s = do
  _ ← load (s.ledger.mints c.mint)
  config ← load (s.configs c.config)
  check_config rt c.mint c.config config
  require ((config.admin == c.authority) || (config.compliance_authority == c.authority))
      unauthorized
  ok config

-- The handler up to the call of Token-2022.
unfoldable pub pause_checks : SetPauseAccounts → MintConfig → Bool → Ledger → Checked
pause_checks c config paused l = do
  live ← pausable_is_paused l c.mint
  require (bool_eq live config.paused) pause_state_drift
  require (not (bool_eq live paused)) pause_state_unchanged

-- The handler from that call on.
unfoldable pub pause_settle :
    SetPauseAccounts
    → MintConfig
    → Bool
    → Ledger
    → Chain
    → Result (Failure StablecoinError) (Chain × PauseChanged)
pause_settle c config paused ledger s = do
  after ← pausable_is_paused ledger c.mint
  require (bool_eq after paused) pause_state_drift
  let changed = record config { paused = paused }
  ok (
    record s { ledger = ledger; configs = update s.configs c.config (some changed) },
    record { mint = c.mint; authority = c.authority; paused = paused },
  )

unfoldable pub set_pause :
    Runtime
    → SetPauseAccounts
    → Bool
    → Chain
    → Result (Failure StablecoinError) (Chain × PauseChanged)
set_pause rt c paused s = do
  config ← set_pause_context rt c s
  _ ← pause_checks c config paused s.ledger
  ledger ← pausable_set rt c.mint c.config paused s.ledger
  pause_settle c config paused ledger s

pub record SetWalletPolicyAccounts : Type 0 where
  pub compliance_authority : Pubkey
  pub mint : Pubkey
  pub config : Pubkey
  pub token_account : Pubkey
  pub wallet_policy : Pubkey

pub record WalletPolicyChanged : Type 0 where
  pub mint : Pubkey
  pub token_account : Pubkey
  pub owner : Pubkey
  pub status : PolicyStatus
  pub updated_by : Pubkey
  pub updated_at : ℕ

-- The live state of the token account.
unfoldable pub is_frozen : Ledger → Pubkey → Result (Failure StablecoinError) Bool
is_frozen l account = elim (l.accounts account) [
  | none ↦ err unreadable
  | some a ↦ ok (a.is_frozen)
]

-- `init_if_needed` with `bump`: the address must be the canonical one for the seeds. An account
-- that is there already is taken as it is.
unfoldable pub init_policy : Runtime → SetWalletPolicyAccounts → Result (Failure StablecoinError) ℕ
init_policy rt c =
    elim (rt.find_program_address (text policy_seed ∷ key c.mint ∷ key c.token_account ∷ [])
      rt.stablecoin_id) [
        | none ↦ err (anchor constraint_seeds)
        | some (address, found) ↦ do
          guard (address == c.wallet_policy) (anchor constraint_seeds)
          ok found
      ]

-- The constraints on the accounts; the results are the token account and the policy's bump.
unfoldable pub policy_context :
    Runtime → SetWalletPolicyAccounts → Chain → Result (Failure StablecoinError) (TokenAccount × ℕ)
policy_context rt c s = do
  _ ← load (s.ledger.mints c.mint)
  config ← load (s.configs c.config)
  account ← load (s.ledger.accounts c.token_account)
  found ← init_policy rt c
  check_config rt c.mint c.config config
  require (config.compliance_authority == c.compliance_authority) unauthorized
  require (account.mint == c.mint) token_account_mint_mismatch
  ok (account, found)

-- Freezing or thawing, where the account is not yet as asked.
unfoldable pub enforce :
    Runtime
    → SetWalletPolicyAccounts
    → PolicyStatus
    → Ledger
    → Result (Failure StablecoinError) Ledger
enforce rt c status l = do
  frozen ← is_frozen l c.token_account
  if bool_eq (is_blocked status) frozen
      then ok l
      else (if is_blocked status
          then invoke (rt.freeze_account c.token_account c.mint c.config l)
          else invoke (rt.thaw_account c.token_account c.mint c.config l))

-- The handler from there on.
unfoldable pub policy_settle :
    Runtime
    → SetWalletPolicyAccounts
    → PolicyStatus
    → TokenAccount
    → ℕ
    → Ledger
    → Chain
    → Result (Failure StablecoinError) (Chain × WalletPolicyChanged)
policy_settle rt c status account found ledger s = do
  after ← is_frozen ledger c.token_account
  require (bool_eq after (is_blocked status)) policy_state_mismatch
  let policy : WalletPolicy = record {
    mint = c.mint;
    token_account = c.token_account;
    owner = account.owner;
    status = status;
    updated_at = rt.unix_timestamp;
    updated_by = c.compliance_authority;
    bump = found;
  }
  ok (
    record s { ledger = ledger; policies = update s.policies c.wallet_policy (some policy) },
    record {
      mint = c.mint;
      token_account = c.token_account;
      owner = account.owner;
      status = status;
      updated_by = c.compliance_authority;
      updated_at = rt.unix_timestamp;
    },
  )

unfoldable pub set_wallet_policy :
    Runtime
    → SetWalletPolicyAccounts
    → PolicyStatus
    → Chain
    → Result (Failure StablecoinError) (Chain × WalletPolicyChanged)
set_wallet_policy rt c status s = do
  checked ← policy_context rt c s
  ledger ← enforce rt c status s.ledger
  policy_settle rt c status checked.0 checked.1 ledger s
