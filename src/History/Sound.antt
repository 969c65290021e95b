-- ===== src/History/Sound.antt =====
-- Soundness of every account that the two programs store.
use solana_stablecoin_amm.Base.{◌<◌, ◌≤◌, ◌≡◌, ◌≢◌, some, ℕ, List, [], ◌∷◌}
use solana_stablecoin_amm.Math.{max_supply_cap, max_fee_bps}
use solana_stablecoin_amm.State.{Pool, MintConfig, MinterRole, Chain}
use solana_stablecoin_amm.Chain.{Pubkey, text, key, Runtime}
use solana_stablecoin_amm.Chain.Addresses.{IsCanonical}
use solana_stablecoin_amm.Stablecoin.{config_seed}
use solana_stablecoin_amm.Stablecoin.Setup.{mint_seed}
use solana_stablecoin_amm.Amm.{pool_seed}
use solana_stablecoin_amm.Amm.Setup.{vault_seed, lp_mint_seed, locked_lp_seed}
use solana_stablecoin_amm.History.Everywhere.{Everywhere}

-- A mint at the canonical address for some symbol.
abbrev pub IsCoin : Runtime → Pubkey → Type 0
IsCoin rt mint =
    (symbol : List ℕ) × (mint_bump : ℕ) × IsCanonical rt (text mint_seed ∷ text symbol ∷ [])
      rt.stablecoin_id mint mint_bump

-- A pool stands, with all its children, at the canonical addresses. It is of two coins in the order of
-- their mints, with a capped fee and reserves within the cap.
pub record IsSoundPool (rt : Runtime) (k : Pubkey) (p : Pool) : Type 0 where
  pub address :
      IsCanonical rt (text pool_seed ∷ key p.mint_a ∷ key p.mint_b ∷ []) rt.amm_id k p.bump
  pub vault_a :
      IsCanonical rt
        (text vault_seed ∷ key k ∷ key p.mint_a ∷ [])
        rt.amm_id
        p.vault_a
        p.vault_a_bump
  pub vault_b :
      IsCanonical rt
        (text vault_seed ∷ key k ∷ key p.mint_b ∷ [])
        rt.amm_id
        p.vault_b
        p.vault_b_bump
  pub lp_mint : IsCanonical rt (text lp_mint_seed ∷ key k ∷ []) rt.amm_id p.lp_mint p.lp_mint_bump
  pub locked_lp :
      IsCanonical rt (text locked_lp_seed ∷ key k ∷ []) rt.amm_id p.locked_lp p.locked_lp_bump
  pub coin_a : IsCoin rt p.mint_a
  pub coin_b : IsCoin rt p.mint_b
  pub ordered : p.mint_a < p.mint_b
  pub fee_capped : p.fee_bps ≤ max_fee_bps
  pub decimals : p.decimals ≡ 6
  pub capped_a : p.reserve_a ≤ max_supply_cap
  pub capped_b : p.reserve_b ≤ max_supply_cap

-- A configuration stands at the canonical address for its mint, and its mint at the one for its symbol.
-- It has a positive cap within the largest one and has not counted more burned than
-- minted; nobody is nominated in their own place.
pub record IsSoundConfig (rt : Runtime) (k : Pubkey) (c : MintConfig) : Type 0 where
  pub address : IsCanonical rt (text config_seed ∷ key c.mint ∷ []) rt.stablecoin_id k c.bump
  pub mint :
      IsCanonical rt (text mint_seed ∷ text c.symbol ∷ []) rt.stablecoin_id c.mint c.mint_bump
  pub cap_pos : 0 < c.supply_cap
  pub cap_bound : c.supply_cap ≤ max_supply_cap
  pub decimals : c.decimals ≡ 6
  pub burned : c.total_burned ≤ c.total_minted
  pub nominee : c.pending_admin ≢ some c.admin

-- A minter has not minted more than the allowance.
pub record IsSoundRole (k : Pubkey) (r : MinterRole) : Type 0 where
  pub allowance : r.minted ≤ r.allowance
  pub authority : r.authority ≢ 0

pub record IsSound (rt : Runtime) (s : Chain) : Type 0 where
  pub pools : Everywhere (IsSoundPool rt) s.pools
  pub configs : Everywhere (IsSoundConfig rt) s.configs
  pub roles : Everywhere IsSoundRole s.roles

pub config-IsCoin :
    (rt : Runtime) (s : Chain)
    → IsSound rt s
    → (k mint : Pubkey) → (x : MintConfig) × (s.configs k ≡ some x) × (x.mint ≡ mint)
    → IsCoin rt mint
config-IsCoin rt s h k mint (x, stored, same) =
    (x.symbol, x.mint_bump, rw same at (h.configs k x stored).mint)
