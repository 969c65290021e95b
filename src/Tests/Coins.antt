-- ===== src/Tests/Coins.antt =====
-- The first half of a history of both programs: two coins, and a user who may hold them.
use solana_stablecoin_amm.Base.{ℕ, ◌≡◌, refl, false, some, none, [], ◌∷◌, ok, checked_add}
use solana_stablecoin_amm.Chain.{Pubkey, Ledger, update}
use solana_stablecoin_amm.Chain.System.{canonical, provision}
use solana_stablecoin_amm.State.{MintConfig, WalletPolicy, Chain, allowed}
use solana_stablecoin_amm.Stablecoin
use solana_stablecoin_amm.Stablecoin.Symbol.{
  utf8_start, utf8_next, is_utf8_from, from_utf8, normalize_symbol,
}
use solana_stablecoin_amm.Stablecoin.Setup
use solana_stablecoin_amm.Stablecoin.Setup.{
  InitializeStablecoinAccounts, InitializeStablecoinArgs, create_mint_account, create_mint,
  set_up_mint, build_mint, ensure_exempt, store_config,
}
use solana_stablecoin_amm.Stablecoin.Compliance
use solana_stablecoin_amm.Stablecoin.Compliance.{
  SetWalletPolicyAccounts, init_policy, policy_context, enforce, is_frozen, policy_settle,
}
use solana_stablecoin_amm.Stablecoin.Program as Issuer
use solana_stablecoin_amm.Amm.Program as Market
use solana_stablecoin_amm.History.{Step, Reach}
use solana_stablecoin_amm.Tests.System.{create_account, initialize_mint2}
use solana_stablecoin_amm.Tests.Token.{rt, set_frozen}
use solana_stablecoin_amm.Tests.World.{value_of, empty, start}
use solana_stablecoin_amm.Tests.Setups.{args}

abbrev pub after_issuer : Issuer.Instruction → Chain → Chain
after_issuer i s = value_of s (Issuer.process rt i s)

abbrev pub after_market : Market.Instruction → Chain → Chain
after_market i s = value_of s (Market.process rt i s)

abbrev pub fresh : Chain
fresh = record start { configs = empty; roles = empty; policies = empty; pools = empty }

abbrev pub issue : Pubkey → Pubkey → ℕ → Issuer.Instruction
issue mint config letter =
    Issuer.initialize_stablecoin (record { payer = 5; mint = mint; config = config })
      (record args { symbol = letter ∷ 0 ∷ 0 ∷ 0 ∷ 0 ∷ 0 ∷ 0 ∷ 0 ∷ [] })

abbrev pub allow : Pubkey → Pubkey → Pubkey → Pubkey → Issuer.Instruction
allow mint config account address =
    Issuer.set_wallet_policy
      (record {
        compliance_authority = 5;
        mint = mint;
        config = config;
        token_account = account;
        wallet_policy = address;
      })
      allowed

-- What one instruction stores, with the accounts of Token-2022 as they are at the next one.
pub then_issuer :
    {s0 : Chain} (s s' : Chain) (i : Issuer.Instruction) (l : Ledger)
    → Issuer.process rt i s ≡ ok (record s' { ledger = l })
    → Reach rt s0 s
    → Reach rt s0 s'
then_issuer s s' i l e h =
    Reach.next (Reach.next h (Step.stablecoin i e)) (Step.outside s'.ledger refl)

pub then_market :
    {s0 : Chain} (s s' : Chain) (i : Market.Instruction) (l : Ledger)
    → Market.process rt i s ≡ ok (record s' { ledger = l })
    → Reach rt s0 s
    → Reach rt s0 s'
then_market s s' i l e h = Reach.next (Reach.next h (Step.amm i e)) (Step.outside s'.ledger refl)

abbrev pub coin : Pubkey → ℕ → MintConfig
coin mint letter = record {
  admin = 5;
  pending_admin = none;
  compliance_authority = 5;
  mint = mint;
  symbol = letter ∷ 0 ∷ 0 ∷ 0 ∷ 0 ∷ 0 ∷ 0 ∷ 0 ∷ [];
  decimals = 6;
  supply_cap = 5_000;
  total_minted = 0;
  total_burned = 0;
  paused = false;
  bump = 255;
  mint_bump = 254;
}

abbrev pub issued_a : Chain
issued_a = record fresh { configs = update empty 1_210 (some (coin 10 b'A')) }

pub issued_a_run :
    Issuer.process rt (issue 10 1_210 b'A') fresh
    ≡ ok (record issued_a { ledger = (after_issuer (issue 10 1_210 b'A') fresh).ledger })
unfolding Issuer.process Setup.initialize_stablecoin Setup.setup_context canonical
    Setup.setup_checks normalize_symbol from_utf8 is_utf8_from utf8_next utf8_start build_mint
    create_mint create_mint_account provision set_up_mint ensure_exempt store_config create_account
    initialize_mint2 checked_add
issued_a_run = refl

abbrev pub issued_b : Chain
issued_b = record issued_a { configs = update issued_a.configs 1_211 (some (coin 11 b'B')) }

pub issued_b_run :
    Issuer.process rt (issue 11 1_211 b'B') issued_a
    ≡ ok (record issued_b { ledger = (after_issuer (issue 11 1_211 b'B') issued_a).ledger })
unfolding Issuer.process Setup.initialize_stablecoin Setup.setup_context canonical
    Setup.setup_checks normalize_symbol from_utf8 is_utf8_from utf8_next utf8_start build_mint
    create_mint create_mint_account provision set_up_mint ensure_exempt store_config create_account
    initialize_mint2 checked_add
issued_b_run = refl

abbrev pub policy_of : Pubkey → Pubkey → WalletPolicy
policy_of mint account = record {
  mint = mint;
  token_account = account;
  owner = 5;
  status = allowed;
  updated_at = 1_700_000_000;
  updated_by = 5;
  bump = 255;
}

abbrev pub allowed_a : Chain
allowed_a = record issued_b { policies = update empty 12_122 (some (policy_of 10 22)) }

pub allowed_a_run :
    Issuer.process rt (allow 10 1_210 22 12_122) issued_b
    ≡ ok (record allowed_a { ledger = (after_issuer (allow 10 1_210 22 12_122) issued_b).ledger })
unfolding Issuer.process Compliance.set_wallet_policy init_policy policy_context enforce is_frozen
    policy_settle Stablecoin.check_seeds Stablecoin.check_config set_frozen
allowed_a_run = refl

abbrev pub allowed_b : Chain
allowed_b = record allowed_a {
  policies = update allowed_a.policies 12_133 (some (policy_of 11 23));
}

pub allowed_b_run :
    Issuer.process rt (allow 11 1_211 23 12_133) allowed_a
    ≡ ok (record allowed_b { ledger = (after_issuer (allow 11 1_211 23 12_133) allowed_a).ledger })
unfolding Issuer.process Compliance.set_wallet_policy init_policy policy_context enforce is_frozen
    policy_settle Stablecoin.check_seeds Stablecoin.check_config set_frozen
allowed_b_run = refl
