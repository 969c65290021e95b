-- ===== src/Chain/Addresses.antt =====
-- Program addresses, and what the programs rely on of them: that no address is found twice. Only
-- what the proofs use of that is stated.
use solana_stablecoin_amm.Base.{ℕ, ◌≡◌, ◌≢◌, List, [], ◌∷◌, some, ok, arith}
use solana_stablecoin_amm.Chain.{Pubkey, Seed, text, key, Runtime}
use solana_stablecoin_amm.Chain.System.{canonical}

-- The canonical address of a program for the seeds, with its bump.
abbrev pub IsCanonical : Runtime → List Seed → Pubkey → Pubkey → ℕ → Type 0
IsCanonical rt seeds program k bump = rt.find_program_address seeds program ≡ some (k, bump)

pub record AddressLaws (rt : Runtime) : Type 0 where
  pub programs_differ : rt.amm_id ≢ rt.stablecoin_id
  pub one_program :
      (seeds seeds' : List Seed) (program program' k bump bump' : ℕ)
      → IsCanonical rt seeds program k bump
      → IsCanonical rt seeds' program' k bump'
      → program ≡ program'
  pub one_key :
      (tag : List ℕ) (a a' program k bump bump' : ℕ)
      → IsCanonical rt (text tag ∷ key a ∷ []) program k bump
      → IsCanonical rt (text tag ∷ key a' ∷ []) program k bump'
      → a ≡ a'

pub canonical-IsCanonical :
    {E : Type 0} (rt : Runtime) (seeds : List Seed) (program k : Pubkey) {bump : ℕ}
    → canonical {E = E} rt seeds program k ≡ ok bump
    → IsCanonical rt seeds program k bump
unfolding canonical
canonical-IsCanonical rt seeds program k h = ground arith
