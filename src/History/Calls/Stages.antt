-- ===== src/History/Calls/Stages.antt =====
-- The calls of each handler, in order.
use solana_stablecoin_amm.Base.{
  ℕ, ◌+◌, checked_add, [], ◌∷◌, ◌≡◌, ◌⊎◌, arith, Bool, true, none, some, List, ok,
}
use solana_stablecoin_amm.Chain.{Pubkey, Ledger, Runtime, text, bump, Seed, key}
use solana_stablecoin_amm.State.{PolicyStatus, Chain}
use solana_stablecoin_amm.Stablecoin.{pausable_set}
use solana_stablecoin_amm.Stablecoin.Setup.{
  InitializeStablecoinAccounts, InitializeStablecoinArgs, mint_seed, mint_extensions,
  create_mint_account, create_mint, set_up_mint,
}
use solana_stablecoin_amm.Stablecoin.Issuance
use solana_stablecoin_amm.Stablecoin.Issuance.{
  MintToAccounts, MintToContext, TokensMinted, mint_to_context, mint_to_settle, BurnAccounts,
  BurnContext, TokensBurned, burn_context, burn_settle,
}
use solana_stablecoin_amm.Stablecoin.Compliance
use solana_stablecoin_amm.Stablecoin.Compliance.{
  SetPauseAccounts, PauseChanged, pause_settle, SetWalletPolicyAccounts, WalletPolicyChanged,
  is_frozen, enforce, policy_settle,
}
use solana_stablecoin_amm.Amm.Setup.{
  InitializePoolAccounts, PoolBumps, lp_mint_seed, locked_lp_seed, vault_space, create_pda_account,
  create_vault, create_lp,
}

pub create_mint-account :
    (rt : Runtime) (c : InitializeStablecoinAccounts) (args : InitializeStablecoinArgs)
    (symbol_text : List ℕ) (mint_bump : ℕ) (l : Ledger) {l' : Ledger}
    → create_mint rt c args symbol_text mint_bump l ≡ ok l'
    → (base_len : ℕ) × (metadata_len : ℕ) × (rt.mint_len mint_extensions ≡ ok base_len)
      × (rt.metadata_len args.name symbol_text args.uri ≡ ok metadata_len)
      × (create_mint_account rt c.payer c.mint
            (rt.minimum_balance (base_len + metadata_len))
            base_len
            (text mint_seed ∷ text args.symbol ∷ bump mint_bump ∷ [])
            l
          ≡ ok l')
unfolding create_mint checked_add
create_mint-account rt c args symbol_text mint_bump l h = ground arith

pub set_up_mint-stages :
    (rt : Runtime) (c : InitializeStablecoinAccounts) (args : InitializeStablecoinArgs)
    (symbol_text : List ℕ) (l : Ledger) {l' : Ledger}
    → set_up_mint rt c args symbol_text l ≡ ok l'
    → (l1 : Ledger) × (l2 : Ledger) × (l3 : Ledger) × (l4 : Ledger)
      × (rt.default_account_state_initialize c.mint true l ≡ ok l1)
      × (rt.pausable_initialize c.mint c.config l1 ≡ ok l2)
      × (rt.metadata_pointer_initialize c.mint (some c.config) (some c.mint) l2 ≡ ok l3)
      × (rt.initialize_mint2 c.mint args.decimals c.config (some c.config) l3 ≡ ok l4)
      × (rt.token_metadata_initialize c.mint c.config c.config args.name symbol_text args.uri l4
          ≡ ok l')
unfolding set_up_mint
set_up_mint-stages rt c args symbol_text l h = ground arith

pub mint_to-call :
    (rt : Runtime) (c : MintToAccounts) (amount : ℕ) (s : Chain) {s' : Chain} {event : TokensMinted}
    → Issuance.mint_to rt c amount s ≡ ok (s', event)
    → (a : MintToContext) × (mint_to_context rt c s ≡ ok a)
      × (rt.mint_to_checked c.mint c.destination c.config amount a.mint.decimals s.ledger
          ≡ ok s'.ledger)
unfolding Issuance.mint_to mint_to_settle
mint_to-call rt c amount s h = ground arith

pub burn-call :
    (rt : Runtime) (c : BurnAccounts) (amount : ℕ) (s : Chain) {s' : Chain} {event : TokensBurned}
    → Issuance.burn rt c amount s ≡ ok (s', event)
    → (a : BurnContext) × (burn_context rt c s ≡ ok a)
      × (rt.burn_checked c.mint c.source c.owner amount a.mint.decimals s.ledger ≡ ok s'.ledger)
unfolding Issuance.burn burn_settle
burn-call rt c amount s h = ground arith

pub set_pause-call :
    (rt : Runtime) (c : SetPauseAccounts) (paused : Bool) (s : Chain) {s' : Chain}
    {event : PauseChanged}
    → Compliance.set_pause rt c paused s ≡ ok (s', event)
    → pausable_set rt c.mint c.config paused s.ledger ≡ ok s'.ledger
unfolding Compliance.set_pause pause_settle
set_pause-call rt c paused s h = ground arith

pub set_wallet_policy-call :
    (rt : Runtime) (c : SetWalletPolicyAccounts) (status : PolicyStatus) (s : Chain) {s' : Chain}
    {event : WalletPolicyChanged}
    → Compliance.set_wallet_policy rt c status s ≡ ok (s', event)
    → enforce rt c status s.ledger ≡ ok s'.ledger
unfolding Compliance.set_wallet_policy policy_settle
set_wallet_policy-call rt c status s h = ground arith

pub enforce-call :
    (rt : Runtime) (c : SetWalletPolicyAccounts) (status : PolicyStatus) (l : Ledger) {l' : Ledger}
    → enforce rt c status l ≡ ok l'
    → (l ≡ l')
      ⊎ (rt.freeze_account c.token_account c.mint c.config l ≡ ok l')
      ⊎ (rt.thaw_account c.token_account c.mint c.config l ≡ ok l')
unfolding enforce is_frozen
enforce-call rt c status l h = ground arith

pub create_vault-stages :
    (rt : Runtime) (payer vault mint pool : Pubkey) (seeds : List Seed) (l : Ledger) {l' : Ledger}
    → create_vault rt payer vault mint pool seeds l ≡ ok l'
    → (space : ℕ) × (created : Ledger) × (vault_space rt mint l ≡ ok space)
      × (create_pda_account rt payer vault rt.token_id space seeds l ≡ ok created)
      × (rt.initialize_account3 vault mint pool created ≡ ok l')
unfolding create_vault
create_vault-stages rt payer vault mint pool seeds l h = ground arith

pub create_lp-stages :
    (rt : Runtime) (c : InitializePoolAccounts) (bumps : PoolBumps) (decimals : ℕ) (l : Ledger)
    {l' : Ledger}
    → create_lp rt c bumps decimals l ≡ ok l'
    → (mint_space : ℕ) × (minted : Ledger) × (lp : Ledger) × (space : ℕ) × (opened : Ledger)
      × (rt.mint_len [] ≡ ok mint_space)
      × (rt.account_len [] ≡ ok space)
      × (create_pda_account rt c.payer c.lp_mint rt.token_id mint_space
            (text lp_mint_seed ∷ key c.pool ∷ bump bumps.lp_mint ∷ [])
            l
          ≡ ok minted)
      × (rt.initialize_mint2 c.lp_mint decimals c.pool none minted ≡ ok lp)
      × (create_pda_account rt c.payer c.locked_lp rt.token_id space
            (text locked_lp_seed ∷ key c.pool ∷ bump bumps.locked_lp ∷ [])
            lp
          ≡ ok opened)
      × (rt.initialize_account3 c.locked_lp c.lp_mint c.pool opened ≡ ok l')
unfolding create_lp
create_lp-stages rt c bumps decimals l h = ground arith
