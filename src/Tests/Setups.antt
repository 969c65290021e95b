-- ===== src/Tests/Setups.antt =====
-- Runs of the two instructions that set up a pool and a stablecoin.
use solana_stablecoin_amm.Base.{ℕ, ◌+◌, ◌≡◌, ◌↔◌, refl, arith, List, [], ◌∷◌, ◌++◌, ok, checked_add}
use solana_stablecoin_amm.Chain.{Ledger, Seed}
use solana_stablecoin_amm.Chain.System.{canonical, fund, top_up, provision}
use solana_stablecoin_amm.Chain.System.Laws.{SystemLaws, IsProvisioned}
use solana_stablecoin_amm.State.{Chain}
use solana_stablecoin_amm.Amm.{check_seeds, check_config}
use solana_stablecoin_amm.Amm.Setup.{
  InitializePoolAccounts, PoolInitialized, setup_context, vault_space, create_pda_account,
  create_vault, create_lp, create_children, setup_checks, initialize_pool,
}
use solana_stablecoin_amm.Amm.Setup.Effects.{create_pda_account-IsProvisioned}
use solana_stablecoin_amm.Stablecoin.Symbol.{
  utf8_start, utf8_next, is_utf8_from, from_utf8, normalize_symbol,
}
use solana_stablecoin_amm.Stablecoin.Symbol.Laws.{IsSymbol, replicate, normalize_symbol_iff}
use solana_stablecoin_amm.Stablecoin.Setup
use solana_stablecoin_amm.Stablecoin.Setup.{
  InitializeStablecoinAccounts, InitializeStablecoinArgs, StablecoinInitialized,
  create_mint_account, create_mint, set_up_mint, build_mint, ensure_exempt, store_config,
  initialize_stablecoin,
}
use solana_stablecoin_amm.Stablecoin.Setup.Effects.{
  IsIssued, initialize_stablecoin-IsIssued, create_mint_account-IsProvisioned,
}
use solana_stablecoin_amm.History.Children.{IsFounded, HasChildren, initialize_pool-IsFounded}
use solana_stablecoin_amm.Tests.Holdings.{holdings}
use solana_stablecoin_amm.Tests.Charters.{authorities}
use solana_stablecoin_amm.Tests.System.{
  create_account, transfer_lamports, allocate, assign, initialize_account3, initialize_mint2, put,
  wallet,
}
use solana_stablecoin_amm.Tests.Token.{rt}
use solana_stablecoin_amm.Tests.World.{chain_of, value_of, empty, start, ledger}

create_account-creates :
    (from to lamports space owner : ℕ) (seeds : List Seed) (l : Ledger) {l' : Ledger}
    → create_account from to lamports space owner seeds l ≡ ok l'
    → l'.infos to ≡ record { lamports = lamports; owner = owner; data_len = space }
unfolding create_account
create_account-creates from to lamports space owner seeds l h = ground arith

transfer_lamports-transfers :
    (from to lamports : ℕ) (l : Ledger) {l' : Ledger}
    → transfer_lamports from to lamports l ≡ ok l'
    → l'.infos to ≡ record (l.infos to) { lamports = (l.infos to).lamports + lamports }
unfolding transfer_lamports
transfer_lamports-transfers from to lamports l h = ground arith

allocate-allocates :
    (account space : ℕ) (seeds : List Seed) (l : Ledger) {l' : Ledger}
    → allocate account space seeds l ≡ ok l'
    → l'.infos account ≡ record (l.infos account) { data_len = space }
unfolding allocate
allocate-allocates account space seeds l h = ground arith

assign-assigns :
    (account owner : ℕ) (seeds : List Seed) (l : Ledger) {l' : Ledger}
    → assign account owner seeds l ≡ ok l'
    → l'.infos account ≡ record (l.infos account) { owner = owner }
unfolding assign
assign-assigns account owner seeds l h = ground arith

system_laws : SystemLaws rt
system_laws = record {
  creates = λ from to lamports space owner seeds {l} h _.
      create_account-creates from to lamports space owner seeds l h;
  transfers = λ from to lamports {l} h _. transfer_lamports-transfers from to lamports l h;
  allocates = λ account space seeds {l} h. allocate-allocates account space seeds l h;
  assigns = λ account owner seeds {l} h. assign-assigns account owner seeds l h;
}

-- The pool's accounts, on a chain that has no pool yet but has sent 7 lamports to a vault.
abbrev pub setting_up : InitializePoolAccounts
setting_up = record {
  payer = 5;
  mint_a = 10;
  mint_b = 11;
  config_a = 1_210;
  config_b = 1_211;
  pool = 11_111;
  vault_a = 122_120;
  vault_b = 122_121;
  lp_mint = 7_012_211;
  locked_lp = 9_012_211;
}

abbrev teased : Ledger
teased = record ledger { infos = put ledger.infos 122_121 (wallet 7) }

abbrev bare : Chain
bare = record start { ledger = teased; pools = empty }

abbrev pool_initialized : PoolInitialized
pool_initialized = record {
  pool = 11_111;
  mint_a = 10;
  mint_b = 11;
  lp_mint = 7_012_211;
  fee_bps = 30;
  decimals = 6;
}

abbrev set_up : Chain
set_up = chain_of bare (initialize_pool rt setting_up 30 bare)

initialize_pool_run : initialize_pool rt setting_up 30 bare ≡ ok (set_up, pool_initialized)
unfolding initialize_pool setup_context canonical check_seeds check_config setup_checks
    create_children create_vault vault_space create_pda_account provision top_up fund create_lp
    create_account transfer_lamports allocate assign initialize_account3 initialize_mint2
initialize_pool_run = refl

initialize_pool-IsFounded_example :
    IsFounded rt setting_up 30 bare set_up × HasChildren setting_up set_up.ledger
initialize_pool-IsFounded_example =
    initialize_pool-IsFounded rt holdings authorities setting_up 30 bare initialize_pool_run

abbrev topped_up : Ledger
topped_up = value_of teased (create_pda_account rt 5 122_121 3 165 [] teased)

create_pda_account_run : create_pda_account rt 5 122_121 3 165 [] teased ≡ ok topped_up
unfolding create_pda_account provision top_up fund transfer_lamports allocate assign
create_pda_account_run = refl

create_pda_account-IsProvisioned_example : IsProvisioned 3 1_650 165 (topped_up.infos 122_121)
create_pda_account-IsProvisioned_example =
    create_pda_account-IsProvisioned rt 5 122_121 3 165 [] teased system_laws (ground arith)
      create_pda_account_run

abbrev usd : List ℕ
usd = b'U' ∷ b'S' ∷ b'D' ∷ 0 ∷ 0 ∷ 0 ∷ 0 ∷ 0 ∷ []

abbrev usd_text : List ℕ
usd_text = b'U' ∷ b'S' ∷ b'D' ∷ []

normalize_symbol_iff_example :
    (normalize_symbol usd ≡ ok usd_text)
    ↔ (IsSymbol usd_text × ((n : ℕ) × (usd ≡ usd_text ++ replicate n 0)))
normalize_symbol_iff_example = normalize_symbol_iff usd usd_text

abbrev issuing : InitializeStablecoinAccounts
issuing = record { payer = 5; mint = 13; config = 1_213 }

abbrev pub args : InitializeStablecoinArgs
args = record { symbol = usd; name = usd_text; uri = usd_text; decimals = 6; supply_cap = 5_000 }

abbrev stablecoin_initialized : StablecoinInitialized
stablecoin_initialized = record {
  mint = 13;
  config = 1_213;
  admin = 5;
  symbol = usd;
  decimals = 6;
  supply_cap = 5_000;
}

abbrev issued : Chain
issued = chain_of start (initialize_stablecoin rt issuing args start)

initialize_stablecoin_run :
    initialize_stablecoin rt issuing args start ≡ ok (issued, stablecoin_initialized)
unfolding initialize_stablecoin Setup.setup_context canonical Setup.setup_checks normalize_symbol
    from_utf8 is_utf8_from utf8_next utf8_start build_mint create_mint create_mint_account provision
    set_up_mint ensure_exempt store_config create_account initialize_mint2 checked_add
initialize_stablecoin_run = refl

initialize_stablecoin-IsIssued_example :
    (symbol_text : List ℕ) × (mint_bump : ℕ) × (config_bump : ℕ) × IsIssued rt issuing args
      symbol_text mint_bump config_bump start issued
initialize_stablecoin-IsIssued_example =
    initialize_stablecoin-IsIssued rt issuing args start initialize_stablecoin_run

abbrev placed : Ledger
placed = value_of ledger (create_mint_account rt 5 13 3_340 234 [] ledger)

create_mint_account_run : create_mint_account rt 5 13 3_340 234 [] ledger ≡ ok placed
unfolding create_mint_account provision create_account
create_mint_account_run = refl

create_mint_account-IsProvisioned_example : IsProvisioned 3 3_340 234 (placed.infos 13)
create_mint_account-IsProvisioned_example =
    create_mint_account-IsProvisioned rt 5 13 3_340 234 [] ledger system_laws (ground arith)
      create_mint_account_run
