-- ===== src/Tests/Issuer.antt =====
-- Runs of the stablecoin program's instructions on a concrete chain.
use solana_stablecoin_amm.Base.{
  ℕ, [], ◌∷◌, ◌≡◌, ◌⊎◌, refl, true, not, some, none, ok, checked_add, checked_sub,
}
use solana_stablecoin_amm.Chain.{TokenAccount, Ledger, text, key, supply_at, update}
use solana_stablecoin_amm.State.{MintConfig, MinterRole, WalletPolicy, blocked, Chain}
use solana_stablecoin_amm.Stablecoin.{
  policy_seed, check_seeds, check_config, ensure_supply_tracked, pausable_is_paused, pausable_set,
}
use solana_stablecoin_amm.Stablecoin.Issuance.{
  MintToAccounts, TokensMinted, mint_to_context, mint_to_checks, mint_to_settle, mint_to,
  BurnAccounts, TokensBurned, burn_context, burn_checks, burn_settle, burn,
}
use solana_stablecoin_amm.Stablecoin.Issuance.Minting.{IsMinted, mint_to-IsMinted}
use solana_stablecoin_amm.Stablecoin.Issuance.Burning.{IsBurned, burn-IsBurned}
use solana_stablecoin_amm.Stablecoin.Admin.{
  UpdateConfigAccounts, ConfigUpdated, AdminAccepted, set_supply_cap, set_compliance_authority,
  set_pending_admin, new_config, update_config, accept_admin,
}
use solana_stablecoin_amm.Stablecoin.Admin.Effects.{
  IsCap, IsNominee, updated, update_config-IsUpdated, accept_admin-IsHandover,
}
use solana_stablecoin_amm.Stablecoin.Compliance.{
  SetPauseAccounts, PauseChanged, set_pause_context, pause_checks, pause_settle, set_pause,
  SetWalletPolicyAccounts, WalletPolicyChanged, is_frozen, init_policy, policy_context, enforce,
  policy_settle, set_wallet_policy,
}
use solana_stablecoin_amm.Stablecoin.Compliance.Effects.{
  stored_policy, set_pause-IsSwitched, set_wallet_policy-IsEnforced,
}
use solana_stablecoin_amm.Tests.Token
use solana_stablecoin_amm.Tests.Token.{rt, set_frozen, set_paused}
use solana_stablecoin_amm.Tests.World.{chain_of, start}

abbrev pub minting : MintToAccounts
minting = record {
  minter = 6;
  mint = 10;
  config = 1_210;
  minter_role = 24_106;
  destination = 22;
  wallet_policy = 12_122;
}

abbrev pub tokens_minted : TokensMinted
tokens_minted = record {
  mint = 10;
  minter = 6;
  destination = 22;
  amount = 25_000;
  minter_minted = 125_000;
  supply = 1_075_007;
}

abbrev pub minted : Chain
minted = chain_of start (mint_to rt minting 25_000 start)

pub mint_to_run : mint_to rt minting 25_000 start ≡ ok (minted, tokens_minted)
unfolding mint_to mint_to_context mint_to_checks mint_to_settle check_seeds check_config
    ensure_supply_tracked checked_add checked_sub Token.mint_to
mint_to_run = refl

mint_to-IsMinted_example :
    (config : MintConfig) × (role : MinterRole) × (policy : WalletPolicy) × IsMinted minting 25_000
      config role policy start minted
mint_to-IsMinted_example = mint_to-IsMinted rt minting 25_000 start mint_to_run

abbrev burning : BurnAccounts
burning = record { owner = 5; mint = 10; config = 1_210; source = 22 }

abbrev burnt : Chain
burnt = chain_of start (burn rt burning 30_000 start)

abbrev tokens_burned : TokensBurned
tokens_burned = record { mint = 10; owner = 5; source = 22; amount = 30_000; supply = 1_020_007 }

burn_run : burn rt burning 30_000 start ≡ ok (burnt, tokens_burned)
unfolding burn burn_context burn_checks burn_settle check_seeds check_config ensure_supply_tracked
    checked_add checked_sub Token.burn
burn_run = refl

burn-IsBurned_example :
    (config : MintConfig) × (source : TokenAccount) × (start.ledger.accounts 22 ≡ some source)
    × (source.owner ≡ 5)
    × (source.mint ≡ 10)
    × IsBurned burning 30_000 config start burnt
burn-IsBurned_example = burn-IsBurned rt burning 30_000 start burn_run

abbrev updating : UpdateConfigAccounts
updating = record { admin = 3; mint = 10; config = 1_210 }

abbrev config_updated : ConfigUpdated
config_updated = record {
  mint = 10;
  admin = 3;
  supply_cap = 2_000_000;
  compliance_authority = 7;
  pending_admin = some 9;
}

abbrev recapped : Chain
recapped = chain_of start (update_config rt updating (some 2_000_000) none (some 9) start)

update_config_run :
    update_config rt updating (some 2_000_000) none (some 9) start ≡ ok (recapped, config_updated)
unfolding update_config new_config set_supply_cap set_compliance_authority set_pending_admin
    check_seeds check_config ensure_supply_tracked checked_sub
update_config_run = refl

update_config-IsUpdated_example :
    (config : MintConfig) × (start.configs 1_210 ≡ some config)
    × ((config.mint ≡ 10) × (config.admin ≡ 3))
    × IsCap (some 2_000_000) (supply_at start.ledger 10)
    × IsNominee (some 9) 3
    × (recapped ≡ record start {
      configs = update start.configs 1_210 (some (updated (some 2_000_000) none (some 9) config));
    })
update_config-IsUpdated_example =
    update_config-IsUpdated rt updating (some 2_000_000) none (some 9) start update_config_run

abbrev handed_over : Chain
handed_over = chain_of start (accept_admin rt 4 1_210 start)

abbrev admin_accepted : AdminAccepted
admin_accepted = record { mint = 10; previous_admin = 3; admin = 4 }

accept_admin_run : accept_admin rt 4 1_210 start ≡ ok (handed_over, admin_accepted)
unfolding accept_admin check_seeds
accept_admin_run = refl

accept_admin-IsHandover_example :
    (config : MintConfig) × (start.configs 1_210 ≡ some config)
    × (config.pending_admin ≡ some 4)
    × (handed_over ≡ record start {
      configs =
          update start.configs 1_210 (some (record config { admin = 4; pending_admin = none }));
    })
    × (admin_accepted ≡ record { mint = config.mint; previous_admin = config.admin; admin = 4 })
accept_admin-IsHandover_example = accept_admin-IsHandover rt 4 1_210 start accept_admin_run

abbrev pausing : SetPauseAccounts
pausing = record { authority = 7; mint = 10; config = 1_210 }

abbrev paused_chain : Chain
paused_chain = chain_of start (set_pause rt pausing true start)

abbrev pause_changed : PauseChanged
pause_changed = record { mint = 10; authority = 7; paused = true }

set_pause_run : set_pause rt pausing true start ≡ ok (paused_chain, pause_changed)
unfolding set_pause set_pause_context pause_checks pause_settle pausable_is_paused pausable_set
    check_seeds check_config set_paused
set_pause_run = refl

set_pause-IsSwitched_example :
    (config : MintConfig) × (after : Ledger) × (start.configs 1_210 ≡ some config)
    × ((config.mint ≡ 10) × ((config.admin ≡ 7) ⊎ (config.compliance_authority ≡ 7)))
    × (config.paused ≡ not true)
    × (pausable_is_paused start.ledger 10 ≡ ok config.paused)
    × (pausable_is_paused paused_chain.ledger 10 ≡ ok true)
    × (paused_chain ≡ record start {
      ledger = after;
      configs = update start.configs 1_210 (some (record config { paused = true }));
    })
set_pause-IsSwitched_example = set_pause-IsSwitched rt pausing true start set_pause_run

abbrev blocking : SetWalletPolicyAccounts
blocking = record {
  compliance_authority = 7;
  mint = 10;
  config = 1_210;
  token_account = 22;
  wallet_policy = 12_122;
}

abbrev blocked_chain : Chain
blocked_chain = chain_of start (set_wallet_policy rt blocking blocked start)

abbrev policy_changed : WalletPolicyChanged
policy_changed = record {
  mint = 10;
  token_account = 22;
  owner = 5;
  status = blocked;
  updated_by = 7;
  updated_at = 1_700_000_000;
}

set_wallet_policy_run :
    set_wallet_policy rt blocking blocked start ≡ ok (blocked_chain, policy_changed)
unfolding set_wallet_policy init_policy policy_context enforce is_frozen policy_settle check_seeds
    check_config set_frozen
set_wallet_policy_run = refl

set_wallet_policy-IsEnforced_example :
    (account : TokenAccount) × (found : ℕ) × (after : Ledger) × (((config : MintConfig)
        × (start.configs 1_210 ≡ some config)
        × (config.mint ≡ 10)
        × (config.compliance_authority ≡ 7))
      × (rt.find_program_address (text policy_seed ∷ key 10 ∷ key 22 ∷ []) rt.stablecoin_id
          ≡ some (12_122, found)))
    × (start.ledger.accounts 22 ≡ some account)
    × (account.mint ≡ 10)
    × (is_frozen blocked_chain.ledger 22 ≡ ok true)
    × (blocked_chain ≡ record start {
      ledger = after;
      policies =
          update start.policies 12_122
            (some (stored_policy rt blocking blocked account.owner found));
    })
set_wallet_policy-IsEnforced_example =
    set_wallet_policy-IsEnforced rt blocking blocked start set_wallet_policy_run
