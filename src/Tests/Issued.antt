-- ===== src/Tests/Issued.antt =====
-- A history of one stablecoin: it is issued, a minter is granted an allowance, a wallet is allowed,
-- and tokens are minted to it.
use solana_stablecoin_amm.Base.{◌≡◌, refl, arith, some, [], ◌∷◌, ok, checked_add, checked_sub}
use solana_stablecoin_amm.Chain.{Ledger, update}
use solana_stablecoin_amm.Chain.System.{canonical, provision}
use solana_stablecoin_amm.State.{Chain}
use solana_stablecoin_amm.Stablecoin.{check_seeds, check_config, ensure_supply_tracked}
use solana_stablecoin_amm.Stablecoin.Symbol.{
  utf8_start, utf8_next, is_utf8_from, from_utf8, normalize_symbol,
}
use solana_stablecoin_amm.Stablecoin.Setup
use solana_stablecoin_amm.Stablecoin.Setup.{
  InitializeStablecoinAccounts, InitializeStablecoinArgs, StablecoinInitialized,
  create_mint_account, create_mint, set_up_mint, build_mint, ensure_exempt, store_config,
}
use solana_stablecoin_amm.Stablecoin.Issuance.{
  mint_to_context, mint_to_checks, mint_to_settle, mint_to,
}
use solana_stablecoin_amm.Stablecoin.Admin.{check_admin, init_role, grant_minter}
use solana_stablecoin_amm.Stablecoin.Compliance.{
  init_policy, policy_context, enforce, is_frozen, policy_settle, set_wallet_policy,
}
use solana_stablecoin_amm.Stablecoin.Backing.{IsBacked}
use solana_stablecoin_amm.Stablecoin.Program as Issuer
use solana_stablecoin_amm.History.{Step, Reach, Outside, NoneIssued}
use solana_stablecoin_amm.History.Backed.{issued-IsBacked}
use solana_stablecoin_amm.Tests.System.{create_account, initialize_mint2}
use solana_stablecoin_amm.Tests.Token
use solana_stablecoin_amm.Tests.Token.{rt, addresses, set_frozen}
use solana_stablecoin_amm.Tests.World.{chain_of, stablecoin, ledger}
use solana_stablecoin_amm.Tests.Setups.{args}
use solana_stablecoin_amm.Tests.Supplies.{supplies}
use solana_stablecoin_amm.Tests.Coins.{fresh, allow, issued_a, after_issuer}
use solana_stablecoin_amm.Tests.Histories.{fresh-IsFresh}

abbrev issuing : InitializeStablecoinAccounts
issuing = record { payer = 5; mint = 10; config = 1_210 }

abbrev coin_args : InitializeStablecoinArgs
coin_args = record args { symbol = b'A' ∷ 0 ∷ 0 ∷ 0 ∷ 0 ∷ 0 ∷ 0 ∷ 0 ∷ [] }

abbrev issued : Chain
issued = chain_of fresh (Setup.initialize_stablecoin rt issuing coin_args fresh)

abbrev stablecoin_issued : StablecoinInitialized
stablecoin_issued = record {
  mint = 10;
  config = 1_210;
  admin = 5;
  symbol = coin_args.symbol;
  decimals = 6;
  supply_cap = 5_000;
}

issued_run : Setup.initialize_stablecoin rt issuing coin_args fresh ≡ ok (issued, stablecoin_issued)
unfolding Setup.initialize_stablecoin Setup.setup_context canonical Setup.setup_checks
    normalize_symbol from_utf8 is_utf8_from utf8_next utf8_start build_mint create_mint
    create_mint_account provision set_up_mint ensure_exempt store_config create_account
    initialize_mint2 checked_add
issued_run = refl

-- Token-2022 with the new mint and a wallet for it.
abbrev coin_ledger : Ledger
coin_ledger = record ledger { mints = update ledger.mints 10 (some (stablecoin 1_210 0)) }

abbrev opened : Chain
opened = record issued_a { ledger = coin_ledger }

opened_same : opened ≡ record issued { ledger = coin_ledger }
unfolding Setup.initialize_stablecoin Setup.setup_context canonical Setup.setup_checks
    normalize_symbol from_utf8 is_utf8_from utf8_next utf8_start build_mint create_mint
    create_mint_account provision set_up_mint ensure_exempt store_config create_account
    initialize_mint2 checked_add
opened_same = refl

abbrev granting : Issuer.Instruction
granting =
    Issuer.grant_minter (record { admin = 5; config = 1_210; authority = 6; minter_role = 24_106 })
      2_000

abbrev granted : Chain
granted = record opened {
  roles =
      update opened.roles 24_106 (
        some (record { config = 1_210; authority = 6; allowance = 2_000; minted = 0; bump = 255 }));
}

granted_run : Issuer.process rt granting opened ≡ ok granted
unfolding Issuer.process grant_minter check_admin init_role check_seeds
granted_run = refl

abbrev permitted : Chain
permitted = after_issuer (allow 10 1_210 22 12_122) granted

permitted_run : Issuer.process rt (allow 10 1_210 22 12_122) granted ≡ ok permitted
unfolding Issuer.process set_wallet_policy init_policy policy_context enforce is_frozen
    policy_settle check_seeds check_config set_frozen
permitted_run = refl

abbrev minting : Issuer.Instruction
minting =
    Issuer.mint_to
      (record {
        minter = 6;
        mint = 10;
        config = 1_210;
        minter_role = 24_106;
        destination = 22;
        wallet_policy = 12_122;
      })
      1_500

abbrev minted : Chain
minted = after_issuer minting permitted

minted_run : Issuer.process rt minting permitted ≡ ok minted
unfolding Issuer.process set_wallet_policy init_policy policy_context enforce is_frozen
    policy_settle set_frozen mint_to mint_to_context mint_to_checks mint_to_settle check_seeds
    check_config ensure_supply_tracked checked_add checked_sub Token.mint_to
minted_run = refl

abbrev later : Reach rt issued minted
later =
    Reach.next
      (Reach.next
        (Reach.next (Reach.next Reach.here (Step.outside coin_ledger opened_same))
          (Step.stablecoin granting granted_run))
        (Step.stablecoin (allow 10 1_210 22 12_122) permitted_run))
      (Step.stablecoin minting minted_run)

later-NoneIssued : Outside (NoneIssued 10) later
later-NoneIssued = (tt, ground arith)

issued-IsBacked_example : IsBacked 1_210 10 minted
issued-IsBacked_example =
    issued-IsBacked rt supplies addresses issuing coin_args fresh fresh issued minted fresh-IsFresh
      Reach.here issued_run later later-NoneIssued
