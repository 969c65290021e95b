-- ===== src/History.antt =====
-- Histories of the chain: any order of the instructions of both programs, and whatever else happens to
-- the accounts of Token-2022 and of the system program in between.
pub mod Everywhere
pub mod Sound
pub mod Issuer
pub mod Market
pub mod Kept
pub mod Calls
pub mod Mints
pub mod Backed
pub mod Fair
pub mod Trading
pub mod Seeded
pub mod Pools
pub mod Owners
pub mod Solvent
pub mod Children
pub mod Reachable
use solana_stablecoin_amm.Base.{◌≡◌, ◌≤◌, ◌<◌, ok}
use solana_stablecoin_amm.Chain.{Pubkey, Ledger, Runtime, supply_at}
use solana_stablecoin_amm.State.{Chain}
use solana_stablecoin_amm.Stablecoin
use solana_stablecoin_amm.Stablecoin.Program
use solana_stablecoin_amm.Amm.Program.{process as amm_process, Instruction as AmmInstruction}

-- One step: an instruction that succeeds, or something outside the two programs. An instruction that
-- fails changes nothing, and is no step.
pub data Step (rt : Runtime) (s s' : Chain) : Type 0 where
  stablecoin : (i : Program.Instruction) → Program.process rt i s ≡ ok s' → Step rt s s'
  amm : (i : AmmInstruction) → amm_process rt i s ≡ ok s' → Step rt s s'
  outside : (l : Ledger) → s' ≡ record s { ledger = l } → Step rt s s'

pub data Reach (rt : Runtime) (s : Chain) : Chain → Type 0 where
  here : Reach rt s s
  next : {t u : Chain} → Reach rt s t → Step rt t u → Reach rt s u

-- What every outside step of a history does to the accounts of Token-2022.
abbrev pub Outside :
    {rt : Runtime} {s s' : Chain} → (Ledger → Ledger → Type 0) → Reach rt s s' → Type 0
Outside P Reach.here = Unit
Outside P (Reach.next {t} earlier (Step.stablecoin i e)) = Outside P earlier
Outside P (Reach.next {t} earlier (Step.amm i e)) = Outside P earlier
Outside P (Reach.next {t} earlier (Step.outside l e)) = Outside P earlier × P t.ledger l

pub Outside-split :
    {rt : Runtime} {s t u : Chain} (P : Ledger → Ledger → Type 0) (earlier : Reach rt s t)
    (last : Step rt t u)
    → Outside P (Reach.next earlier last)
    → Outside P earlier × Outside P (Reach.next Reach.here last)
Outside-split P earlier (Step.stablecoin i e) h = (h, tt)
Outside-split P earlier (Step.amm i e) h = (h, tt)
Outside-split P earlier (Step.outside l e) (h, last) = (h, (tt, last))

-- Nobody else issues tokens of the mint: its authority is an address for which only a program signs.
abbrev pub NoneIssued : Pubkey → Ledger → Ledger → Type 0
NoneIssued mint l l' = supply_at l' mint ≤ supply_at l mint

-- Nor are all of them burned.
abbrev pub SomeLeft : Pubkey → Ledger → Ledger → Type 0
SomeLeft mint l l' = (supply_at l' mint ≤ supply_at l mint) × (0 < supply_at l' mint)
