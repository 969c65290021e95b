-- ===== src/History/Reachable.antt =====
-- The chains that a history of both programs reaches.
use solana_stablecoin_amm.Base.{ap, refl, ℕ, ◌≡◌, ◌≢◌, arith, ok, none, some, subst, sym}
use solana_stablecoin_amm.Math.{SwapQuote}
use solana_stablecoin_amm.Chain.{Pubkey, Runtime}
use solana_stablecoin_amm.Chain.Laws.{TransferLaws}
use solana_stablecoin_amm.State.{Pool, Chain, SwapDirection}
use solana_stablecoin_amm.Amm.{PoolAccounts}
use solana_stablecoin_amm.Amm.Swap.{SwapExecuted, swap}
use solana_stablecoin_amm.Amm.Swap.Effects.{IsSwapped, swap-after, swap-IsSwapped}
use solana_stablecoin_amm.History.{Step, Reach}
use solana_stablecoin_amm.History.Sound.{IsSound}
use solana_stablecoin_amm.History.Kept.{Continues, Continues-trans, same-Continues}
use solana_stablecoin_amm.History.Kept.Issuer.{process-Continues}
use solana_stablecoin_amm.History.Kept.Market.{amm_process-Continues}
use solana_stablecoin_amm.History.Issuer.{process-IsSound}
use solana_stablecoin_amm.History.Market.{amm_process-IsSound}

Step-IsSound : (rt : Runtime) (s s' : Chain) → Step rt s s' → IsSound rt s → IsSound rt s'
Step-IsSound rt s s' (Step.stablecoin i e) h = process-IsSound rt i s e h
Step-IsSound rt s s' (Step.amm i e) h = amm_process-IsSound rt i s e h
Step-IsSound rt s s' (Step.outside l e) h =
    subst (IsSound rt) (sym e) (record { pools = h.pools; configs = h.configs; roles = h.roles })

-- Every history of instructions of both programs and of outside steps keeps what is stored sound:
-- a pool and its children are at their canonical addresses, it is of two coins of the stablecoin
-- program in the order of their mints, with six decimals, a capped fee and capped reserves; a
-- configuration is at the canonical address for its mint, its mint at that for its symbol, and it
-- has a positive and capped cap, six decimals, no more burned than minted, and does not nominate
-- its administrator; a role has not minted beyond its allowance and is not for the default key.
pub Reach-IsSound : (rt : Runtime) (s s' : Chain) → Reach rt s s' → IsSound rt s → IsSound rt s'
Reach-IsSound rt s s' Reach.here h = h
Reach-IsSound rt s s' (Reach.next {t} earlier last) h =
    Step-IsSound rt t s' last (Reach-IsSound rt s t earlier h)

Step-Continues : (rt : Runtime) (s s' : Chain) → Step rt s s' → Continues s s'
Step-Continues rt s s' (Step.stablecoin i e) = process-Continues rt i s e
Step-Continues rt s s' (Step.amm i e) = amm_process-Continues rt i s e
Step-Continues rt s s' (Step.outside l e) =
    same-Continues s s' (ap (λ t. t.pools) e) (ap (λ t. t.configs) e)

-- In every history of instructions of both programs and of outside steps, a pool that was stored
-- is stored ever after, with nothing changed but its reserves; and a configuration that was
-- stored is stored ever after, with the same mint, symbol, decimals and bumps and with counters
-- that have not fallen.
pub Reach-Continues : (rt : Runtime) (s s' : Chain) → Reach rt s s' → Continues s s'
Reach-Continues rt s s' Reach.here = same-Continues s s refl refl
Reach-Continues rt s s' (Reach.next {t} earlier last) =
    Continues-trans s t s' (Reach-Continues rt s t earlier) (Step-Continues rt t s' last)

-- Nothing is stored yet.
pub record IsFresh (s : Chain) : Type 0 where
  pub pools : (k : Pubkey) → s.pools k ≡ none
  pub configs : (k : Pubkey) → s.configs k ≡ none
  pub roles : (k : Pubkey) → s.roles k ≡ none

pub IsFresh-IsSound : (rt : Runtime) (s : Chain) → IsFresh s → IsSound rt s
IsFresh-IsSound rt s h = record {
  pools = λ k v e. let none_k = h.pools k in cc;
  configs = λ k v e. let none_k = h.configs k in cc;
  roles = λ k v e. let none_k = h.roles k in cc;
}

-- On every chain that a history reaches from one where no pool, configuration or role is stored,
-- with Token-2022 transfers that keep their documented effect, a `swap` that succeeds has done to
-- the chain all that a swap of two different mints does.
pub reachable-swap :
    (rt : Runtime) (laws : TransferLaws rt) (c : PoolAccounts) (direction : SwapDirection)
    (amount_in min_amount_out : ℕ) (fresh s : Chain) {s' : Chain} {event : SwapExecuted}
    → IsFresh fresh
    → Reach rt fresh s
    → swap rt c direction amount_in min_amount_out s ≡ ok (s', event)
    → (pool : Pool) × (q : SwapQuote) × (s.pools c.pool ≡ some pool)
      × IsSwapped c direction amount_in min_amount_out pool q s s'
reachable-swap rt laws c direction amount_in min_amount_out fresh s start history e =
    let (pool, _, stored, _, _, _, _, _) = swap-after rt c direction amount_in min_amount_out s e in
    let ordered =
      ((Reach-IsSound rt fresh s history (IsFresh-IsSound rt fresh start)).pools c.pool pool
        stored).ordered in
    let ne : pool.mint_a ≢ pool.mint_b = omega (arith, ordered) in
    let (q, done) =
      swap-IsSwapped rt laws c direction amount_in min_amount_out pool s stored ne e in
    (pool, q, stored, done)
