-- ===== src/Stablecoin/Setup.antt =====
-- `initialize_stablecoin`: programs/stablecoin/src/instructions/initialize_stablecoin.rs, with
-- `pausable_initialize` of programs/stablecoin/src/token2022.rs. Its handler is the composition of the
-- checks, the creation of the mint, the calls that set it up, and the write of the configuration.
-- Rent that creating the configuration's account moves is not modelled.
pub mod Effects
use solana_stablecoin_amm.Base.{
  ℕ, zero, suc, true, false, not, ◌&&◌, none, some, List, [], ◌∷◌, leb, ltb, ◌==◌, if◌then◌else◌,
  Result, ok, err, ◌>>=◌, ◌>>◌, guard, ok_or, checked_add,
}
use solana_stablecoin_amm.Math.{max_supply_cap}
use solana_stablecoin_amm.Chain.{
  Pubkey, ExtensionType, default_account_state, pausable, metadata_pointer, Ledger, Seed, text, key,
  bump, Runtime, Failure, custom, anchor, account_already_in_use, invoke, update, is_some,
}
use solana_stablecoin_amm.Chain.System.{canonical, provision}
use solana_stablecoin_amm.State.{MintConfig, Chain}
use solana_stablecoin_amm.Stablecoin.{
  StablecoinError, unsupported_decimals, zero_supply_cap, supply_cap_too_large, invalid_name,
  invalid_uri, math_overflow, mint_not_rent_exempt, mint_account_in_use, Checked, require,
  config_seed, pausable_initialize,
}
use solana_stablecoin_amm.Stablecoin.Symbol.{is_empty, normalize_symbol}

pub record InitializeStablecoinAccounts : Type 0 where
  pub payer : Pubkey
  pub mint : Pubkey
  pub config : Pubkey

-- The instruction's arguments; a text is the list of its bytes.
pub record InitializeStablecoinArgs : Type 0 where
  pub symbol : List ℕ
  pub name : List ℕ
  pub uri : List ℕ
  pub decimals : ℕ
  pub supply_cap : ℕ

pub record StablecoinInitialized : Type 0 where
  pub mint : Pubkey
  pub config : Pubkey
  pub admin : Pubkey
  pub symbol : List ℕ
  pub decimals : ℕ
  pub supply_cap : ℕ

abbrev pub mint_seed : List ℕ
mint_seed = b'm' ∷ b'i' ∷ b'n' ∷ b't' ∷ []

abbrev pub stablecoin_decimals : ℕ
stablecoin_decimals = 6

abbrev pub max_name_len : ℕ
max_name_len = 32

abbrev pub max_uri_len : ℕ
max_uri_len = 200

abbrev pub mint_extensions : List ExtensionType
mint_extensions = default_account_state ∷ pausable ∷ metadata_pointer ∷ []

abbrev pub length : List ℕ → ℕ
length [] = 0
length (b ∷ bs) = suc (length bs)

-- The constraints on the accounts: the bumps of the mint and of the configuration.
unfoldable pub setup_context :
    Runtime
    → InitializeStablecoinAccounts
    → List ℕ
    → Chain
    → Result (Failure StablecoinError) (ℕ × ℕ)
setup_context rt c symbol s = do
  config_bump ← canonical rt (text config_seed ∷ key c.mint ∷ []) rt.stablecoin_id c.config
  guard (not (is_some (s.configs c.config))) (anchor account_already_in_use)
  mint_bump ← canonical rt (text mint_seed ∷ text symbol ∷ []) rt.stablecoin_id c.mint
  ok (mint_bump, config_bump)

-- The checks of the arguments; the result is the symbol's text.
unfoldable pub setup_checks : InitializeStablecoinArgs → Result (Failure StablecoinError) (List ℕ)
setup_checks args = do
  require (args.decimals == stablecoin_decimals) unsupported_decimals
  require (ltb 0 args.supply_cap) zero_supply_cap
  require (leb args.supply_cap max_supply_cap) supply_cap_too_large
  require (not (is_empty args.name) && leb (length args.name) max_name_len) invalid_name
  require (not (is_empty args.uri) && leb (length args.uri) max_uri_len) invalid_uri
  normalize_symbol args.symbol

module _ (rt : Runtime) where
  unfoldable pub create_mint_account :
      (payer mint rent_exempt space : ℕ)
      → List Seed
      → Ledger
      → Result (Failure StablecoinError) Ledger
  create_mint_account payer mint rent_exempt space seeds l =
      provision rt math_overflow mint_account_in_use payer mint rt.token_id rent_exempt space seeds
        l

  -- The mint's account, of the length without metadata and with the rent for them.
  unfoldable pub create_mint :
      InitializeStablecoinAccounts
      → InitializeStablecoinArgs
      → List ℕ
      → ℕ
      → Ledger
      → Result (Failure StablecoinError) Ledger
  create_mint c args symbol_text mint_bump l = do
    base_len ← invoke (rt.mint_len mint_extensions)
    _ ← invoke (rt.optional_non_zero c.config)
    metadata_len ← invoke (rt.metadata_len args.name symbol_text args.uri)
    final_len ← ok_or (checked_add 64 base_len metadata_len) (custom math_overflow)
    create_mint_account c.payer c.mint (rt.minimum_balance final_len) base_len
        (text mint_seed ∷ text args.symbol ∷ bump mint_bump ∷ []) l

  -- The extensions before the mint, the mint, and its metadata.
  unfoldable pub set_up_mint :
      InitializeStablecoinAccounts
      → InitializeStablecoinArgs
      → List ℕ
      → Ledger
      → Result (Failure StablecoinError) Ledger
  set_up_mint c args symbol_text l = do
    frozen ← invoke (rt.default_account_state_initialize c.mint true l)
    pausing ← pausable_initialize rt c.mint c.config frozen
    pointing ← invoke (rt.metadata_pointer_initialize c.mint (some c.config) (some c.mint) pausing)
    minting ← invoke (rt.initialize_mint2 c.mint args.decimals c.config (some c.config) pointing)
    invoke (
        rt.token_metadata_initialize c.mint c.config c.config args.name symbol_text args.uri
          minting)

  unfoldable pub build_mint :
      InitializeStablecoinAccounts
      → InitializeStablecoinArgs
      → List ℕ
      → ℕ
      → Ledger
      → Result (Failure StablecoinError) Ledger
  build_mint c args symbol_text mint_bump l = do
    created ← create_mint c args symbol_text mint_bump l
    set_up_mint c args symbol_text created

  unfoldable pub ensure_exempt : Pubkey → Ledger → Checked
  ensure_exempt mint l =
      require (rt.is_exempt (l.infos mint).lamports (l.infos mint).data_len) mint_not_rent_exempt

-- The configuration that the handler stores.
abbrev pub new_config :
    InitializeStablecoinAccounts
    → InitializeStablecoinArgs
    → (mint_bump config_bump : ℕ) → MintConfig
new_config c args mint_bump config_bump = record {
  admin = c.payer;
  pending_admin = none;
  compliance_authority = c.payer;
  mint = c.mint;
  symbol = args.symbol;
  decimals = args.decimals;
  supply_cap = args.supply_cap;
  total_minted = 0;
  total_burned = 0;
  paused = false;
  bump = config_bump;
  mint_bump = mint_bump;
}

-- The handler from the check of the rent on.
unfoldable pub store_config :
    Runtime
    → InitializeStablecoinAccounts
    → InitializeStablecoinArgs
    → (mint_bump config_bump : ℕ) → Ledger
    → Chain
    → Result (Failure StablecoinError) (Chain × StablecoinInitialized)
store_config rt c args mint_bump config_bump l s = do
  ensure_exempt rt c.mint l
  let config = new_config c args mint_bump config_bump
  ok (
    record s { ledger = l; configs = update s.configs c.config (some config) },
    record {
      mint = c.mint;
      config = c.config;
      admin = c.payer;
      symbol = args.symbol;
      decimals = args.decimals;
      supply_cap = args.supply_cap;
    },
  )

unfoldable pub initialize_stablecoin :
    Runtime
    → InitializeStablecoinAccounts
    → InitializeStablecoinArgs
    → Chain
    → Result (Failure StablecoinError) (Chain × StablecoinInitialized)
initialize_stablecoin rt c args s = do
  bumps ← setup_context rt c args.symbol s
  symbol_text ← setup_checks args
  l ← build_mint rt c args symbol_text bumps.0 s.ledger
  store_config rt c args bumps.0 bumps.1 l s
