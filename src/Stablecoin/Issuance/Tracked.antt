-- ===== src/Stablecoin/Issuance/Tracked.antt =====
-- The counters of a mint configuration against the live supply.
use solana_stablecoin_amm.Base.{ℕ, ◌+◌, ◌≤◌, ◌≡◌, refl, arith, some, ok, checked_sub}
use solana_stablecoin_amm.Chain.{Pubkey, Mint, Ledger, Runtime, supply_at}
use solana_stablecoin_amm.State.{MintConfig}
use solana_stablecoin_amm.Stablecoin.{ensure_supply_tracked, check_config}

-- The counters cover the supply: issuance less the tracked burns is at least the live supply.
abbrev pub IsTracked : MintConfig → ℕ → Type 0
IsTracked config supply = config.total_burned + supply ≤ config.total_minted

pub ensure_supply_tracked-ok :
    (config : MintConfig) (supply : ℕ)
    → ensure_supply_tracked config supply ≡ ok tt
    → IsTracked config supply
unfolding ensure_supply_tracked checked_sub
ensure_supply_tracked-ok config supply h = ground arith

pub check_config-ok :
    (rt : Runtime) (mint address : Pubkey) (config : MintConfig)
    → check_config rt mint address config ≡ ok tt
    → config.mint ≡ mint
unfolding check_config
check_config-ok rt mint address config h = ground arith

pub supply_of_some :
    (l : Ledger) (k : Pubkey) (m : Mint) → l.mints k ≡ some m → supply_at l k ≡ m.supply
supply_of_some l k m e = rw (e, supply_at) refl
