-- ===== src/Chain/System.antt =====
-- Creating an account at a program address: `create_pda_account` of
-- programs/amm/src/instructions/initialize_pool.rs and `create_mint_account` of
-- programs/stablecoin/src/instructions/initialize_stablecoin.rs, which agree but for their errors and
-- for who computes the rent. Both start from `canonical`, Anchor's `seeds` with a bare `bump`.
pub mod Stages
pub mod Laws
use solana_stablecoin_amm.Base.{
  ℕ, ◌-◌, ◌^◌, none, some, List, ltb, ◌==◌, ◌&&◌, if◌then◌else◌, Result, ok, err, ◌>>=◌, ◌>>◌,
  guard,
}
use solana_stablecoin_amm.Chain.{
  Pubkey, Ledger, Seed, Runtime, Failure, custom, anchor, constraint_seeds, invoke,
}

module _ {E : Type 0} (rt : Runtime) where
  -- The bump of the canonical address for the seeds, which must be the one given.
  unfoldable pub canonical : List Seed → Pubkey → Pubkey → Result (Failure E) ℕ
  canonical seeds program address = elim (rt.find_program_address seeds program) [
    | none ↦ err (anchor constraint_seeds)
    | some (found, bump) ↦ do guard (found == address) (anchor constraint_seeds); ok bump
  ]

  -- `if deficit > 0 { transfer(…) }`
  unfoldable pub fund : (payer target deficit : ℕ) → Ledger → Result (Failure E) Ledger
  fund payer target deficit l =
      if ltb 0 deficit then invoke (rt.transfer_lamports payer target deficit l) else ok l

  -- An address that holds lamports: it is topped up, allocated and assigned, if nobody uses it.
  unfoldable pub top_up :
      (in_use : E) (payer target owner rent_exempt space : ℕ)
      → List Seed
      → Ledger
      → Result (Failure E) Ledger
  top_up in_use payer target owner rent_exempt space seeds l = do
    let info = l.infos target
    guard (info.owner == rt.system_id && info.data_len == 0) (custom in_use)
    funded ← fund payer target (rent_exempt - info.lamports) l
    allocated ← invoke (rt.allocate target space seeds funded)
    invoke (rt.assign target owner seeds allocated)

  unfoldable pub provision :
      (overflow in_use : E) (payer target owner rent_exempt space : ℕ)
      → List Seed
      → Ledger
      → Result (Failure E) Ledger
  provision overflow in_use payer target owner rent_exempt space seeds l = do
    guard (ltb space (2 ^ 64)) (custom overflow)
    if (l.infos target).lamports == 0
        then invoke (rt.create_account payer target rent_exempt space owner seeds l)
        else top_up in_use payer target owner rent_exempt space seeds l
