-- ===== src/State.antt =====
-- The accounts that the two programs own: programs/stablecoin/src/state and programs/amm/src/state.rs,
-- and the chain as the handlers see it. The reserved bytes at the end of each account, always zero,
-- are left out.
use solana_stablecoin_amm.Base.{ℕ, ◌≡◌, Bool, true, false, Option, List, Result, ok, err, arith}
use solana_stablecoin_amm.Chain.{Pubkey, Ledger}

pub record MintConfig : Type 0 where
  pub admin : Pubkey
  pub pending_admin : Option Pubkey
  pub compliance_authority : Pubkey
  pub mint : Pubkey
  pub symbol : List ℕ
  pub decimals : ℕ
  pub supply_cap : ℕ
  pub total_minted : ℕ
  pub total_burned : ℕ
  pub paused : Bool
  pub bump : ℕ
  pub mint_bump : ℕ

pub record MinterRole : Type 0 where
  pub config : Pubkey
  pub authority : Pubkey
  pub allowance : ℕ
  pub minted : ℕ
  pub bump : ℕ

pub data PolicyStatus : Type 0 where
  allowed blocked : PolicyStatus

abbrev pub is_blocked : PolicyStatus → Bool
is_blocked allowed = false
is_blocked blocked = true

pub record WalletPolicy : Type 0 where
  pub mint : Pubkey
  pub token_account : Pubkey
  pub owner : Pubkey
  pub status : PolicyStatus
  pub updated_at : ℕ
  pub updated_by : Pubkey
  pub bump : ℕ

pub record Pool : Type 0 where
  pub mint_a : Pubkey
  pub mint_b : Pubkey
  pub vault_a : Pubkey
  pub vault_b : Pubkey
  pub lp_mint : Pubkey
  pub locked_lp : Pubkey
  pub reserve_a : ℕ
  pub reserve_b : ℕ
  pub fee_bps : ℕ
  pub decimals : ℕ
  pub bump : ℕ
  pub vault_a_bump : ℕ
  pub vault_b_bump : ℕ
  pub lp_mint_bump : ℕ
  pub locked_lp_bump : ℕ

pub data SwapDirection : Type 0 where
  a_to_b b_to_a : SwapDirection

-- The accounts of both programs by address, and those of Token-2022.
pub record Chain : Type 0 where
  pub ledger : Ledger
  pub configs : Pubkey → Option MintConfig
  pub roles : Pubkey → Option MinterRole
  pub policies : Pubkey → Option WalletPolicy
  pub pools : Pubkey → Option Pool

-- The chain of a result; the event is dropped.
abbrev pub chain_after : {E A : Type 0} → Result E (Chain × A) → Result E Chain
chain_after (ok (s, event)) = ok s
chain_after (err e) = err e

pub chain_after-ok :
    {E A : Type 0} (r : Result E (Chain × A)) {s : Chain}
    → chain_after r ≡ ok s
    → (event : A) × (r ≡ ok (s, event))
chain_after-ok (ok (s', event)) h = (event, ground arith)
chain_after-ok (err e) h = cc
