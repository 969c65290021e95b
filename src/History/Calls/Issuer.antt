-- ===== src/History/Calls/Issuer.antt =====
-- The calls of the instructions of the stablecoin program,
-- programs/stablecoin/src/lib.rs.
use solana_stablecoin_amm.Base.{
  ℕ, ◌≡◌, ◌≢◌, inl, inr, ◌∙◌, refl, Bool, true, false, none, some, Option, List, ok, >>=-eq-ok,
  map_err-ok,
}
use solana_stablecoin_amm.Chain.{Pubkey, Ledger, Runtime, supply_at}
use solana_stablecoin_amm.Chain.Preserved.{Preserves, provision-Preserves}
use solana_stablecoin_amm.Chain.Supply.{SupplyLaws, supply-Preserves}
use solana_stablecoin_amm.State.{PolicyStatus, Chain, chain_after-ok}
use solana_stablecoin_amm.Stablecoin.{math_overflow, mint_account_in_use, pausable_set}
use solana_stablecoin_amm.Stablecoin.Setup
use solana_stablecoin_amm.Stablecoin.Setup.{
  InitializeStablecoinAccounts, InitializeStablecoinArgs, StablecoinInitialized, mint_seed,
  mint_extensions, create_mint_account, create_mint, set_up_mint, build_mint,
}
use solana_stablecoin_amm.Stablecoin.Setup.Effects.{initialize_stablecoin-IsIssued}
use solana_stablecoin_amm.Stablecoin.Admin.Effects.{
  update_config-IsUpdated, accept_admin-IsHandover,
}
use solana_stablecoin_amm.Stablecoin.Admin.Minters.{grant_minter-stored, revoke_minter-after}
use solana_stablecoin_amm.Stablecoin.Compliance.{SetWalletPolicyAccounts, enforce}
use solana_stablecoin_amm.Stablecoin.Program.{
  Instruction, initialize_stablecoin, grant_minter, revoke_minter, set_wallet_policy, mint_to, burn,
  set_pause, update_config, accept_admin, process,
}
use solana_stablecoin_amm.History.Calls.Stages.{
  create_mint-account, set_up_mint-stages, mint_to-call, burn-call, set_pause-call,
  set_wallet_policy-call, enforce-call,
}

-- The mint whose supply the instruction is about, if it is about one.
abbrev pub issued_mint : Instruction → Option Pubkey
issued_mint (initialize_stablecoin c args) = some c.mint
issued_mint (grant_minter c allowance) = none
issued_mint (revoke_minter c) = none
issued_mint (set_wallet_policy c status) = none
issued_mint (mint_to c amount) = some c.mint
issued_mint (burn c amount) = some c.mint
issued_mint (set_pause c paused) = none
issued_mint (update_config c cap authority nominee) = none
issued_mint (accept_admin signer config) = none

-- The account that the instruction takes tokens from, if it does.
abbrev pub spent_account : Instruction → Option Pubkey
spent_account (initialize_stablecoin c args) = none
spent_account (grant_minter c allowance) = none
spent_account (revoke_minter c) = none
spent_account (set_wallet_policy c status) = none
spent_account (mint_to c amount) = none
spent_account (burn c amount) = some c.source
spent_account (set_pause c paused) = none
spent_account (update_config c cap authority nominee) = none
spent_account (accept_admin signer config) = none

module _ (rt : Runtime) {R : Ledger → Ledger → Type 0} {minting spending : Pubkey → Type 0}
    (p : Preserves rt R minting spending) where
  create_mint-Preserves :
      (c : InitializeStablecoinAccounts) (args : InitializeStablecoinArgs) (symbol_text : List ℕ)
      (mint_bump : ℕ) (l : Ledger) {l' : Ledger}
      → create_mint rt c args symbol_text mint_bump l ≡ ok l'
      → R l l'
  unfolding create_mint_account
  create_mint-Preserves c args symbol_text mint_bump l h =
      let (_, _, _, _, created) = create_mint-account rt c args symbol_text mint_bump l h in
      provision-Preserves rt p math_overflow mint_account_in_use _ _ _ _ _ _ l created

  build_mint-Preserves :
      (c : InitializeStablecoinAccounts) (args : InitializeStablecoinArgs) (symbol_text : List ℕ)
      (mint_bump : ℕ) (l : Ledger) {l' : Ledger}
      → build_mint rt c args symbol_text mint_bump l ≡ ok l'
      → minting c.mint
      → R l l'
  unfolding build_mint
  build_mint-Preserves c args symbol_text mint_bump l h may =
      let (created, e, rest) = >>=-eq-ok _ _ h in
      let (_, _, _, _, e1, e2, e3, e4, e5) =
        set_up_mint-stages rt c args symbol_text created rest in
      p.both (create_mint-Preserves c args symbol_text mint_bump l e) (
        p.both (p.sets_state _ _ e1) (
          p.both (p.makes_pausable _ _ e2) (
            p.both (p.points _ _ _ e3)
              (p.both (p.starts _ _ _ _ e4 may) (p.describes _ _ _ _ _ _ e5)))))

  pausable_set-Preserves :
      (mint authority : Pubkey) (paused : Bool) (l : Ledger) {l' : Ledger}
      → pausable_set rt mint authority paused l ≡ ok l'
      → R l l'
  unfolding pausable_set
  pausable_set-Preserves mint authority true l h = p.pauses _ _ (map_err-ok _ _ h)
  pausable_set-Preserves mint authority false l h = p.resumes _ _ (map_err-ok _ _ h)

  enforce-Preserves :
      (c : SetWalletPolicyAccounts) (status : PolicyStatus) (l : Ledger) {l' : Ledger}
      → enforce rt c status l ≡ ok l'
      → R l l'
  enforce-Preserves c status l h = elim (enforce-call rt c status l h) [
    | inl same ↦ rw (← same) (p.same l)
    | inr (inl frozen) ↦ p.freezes _ _ _ frozen
    | inr (inr thawed) ↦ p.thaws _ _ _ thawed
  ]

  pub process-Preserves :
      (i : Instruction) (s : Chain) {s' : Chain}
      → process rt i s ≡ ok s'
      → ((k : Pubkey) → issued_mint i ≡ some k → minting k)
      → ((k : Pubkey) → spent_account i ≡ some k → spending k)
      → R s.ledger s'.ledger
  unfolding process
  process-Preserves (initialize_stablecoin c args) s e may spend =
      let (symbol_text, mint_bump, _, i) =
        initialize_stablecoin-IsIssued rt c args s (chain_after-ok _ e).1 in
      build_mint-Preserves c args symbol_text mint_bump s.ledger i.built (may c.mint refl)
  process-Preserves (grant_minter c allowance) s e may spend =
      let (_, _, _, _, _, _, _, after) =
        grant_minter-stored rt c allowance s (chain_after-ok _ e).1 in
      rw after (p.same s.ledger)
  process-Preserves (revoke_minter c) s e may spend =
      rw (revoke_minter-after rt c s (chain_after-ok _ e).1) (p.same s.ledger)
  process-Preserves (set_wallet_policy c status) s e may spend =
      enforce-Preserves c status s.ledger
        (set_wallet_policy-call rt c status s (chain_after-ok _ e).1)
  process-Preserves (mint_to c amount) s e may spend =
      let (_, _, call) = mint_to-call rt c amount s (chain_after-ok _ e).1 in
      p.issues _ _ _ _ _ call (may c.mint refl)
  process-Preserves (burn c amount) s e may spend =
      let (_, _, call) = burn-call rt c amount s (chain_after-ok _ e).1 in
      p.burns _ _ _ _ _ call (may c.mint refl) (spend c.source refl)
  process-Preserves (set_pause c paused) s e may spend =
      pausable_set-Preserves c.mint c.config paused s.ledger
        (set_pause-call rt c paused s (chain_after-ok _ e).1)
  process-Preserves (update_config c cap authority nominee) s e may spend =
      let (_, _, _, _, _, after) =
        update_config-IsUpdated rt c cap authority nominee s (chain_after-ok _ e).1 in
      rw after (p.same s.ledger)
  process-Preserves (accept_admin signer config) s e may spend =
      let (_, _, _, after, _) = accept_admin-IsHandover rt signer config s (chain_after-ok _ e).1 in
      rw after (p.same s.ledger)

build_mint-starts :
    (rt : Runtime) (laws : SupplyLaws rt) (c : InitializeStablecoinAccounts)
    (args : InitializeStablecoinArgs) (symbol_text : List ℕ) (mint_bump : ℕ) (l : Ledger)
    {l' : Ledger}
    → build_mint rt c args symbol_text mint_bump l ≡ ok l'
    → supply_at l' c.mint ≡ 0
unfolding build_mint
build_mint-starts rt laws c args symbol_text mint_bump l h =
    let (created, _, rest) =
      >>=-eq-ok (create_mint rt c args symbol_text mint_bump l) (set_up_mint rt c args symbol_text)
        h in
    let (_, _, _, _, _, _, _, e4, e5) = set_up_mint-stages rt c args symbol_text created rest in
    laws.describes _ _ _ _ _ _ e5 c.mint ∙ (laws.starts _ _ _ _ e4).0

-- A new stablecoin has none out.
pub initialize_stablecoin-starts :
    (rt : Runtime) (laws : SupplyLaws rt) (c : InitializeStablecoinAccounts)
    (args : InitializeStablecoinArgs) (s : Chain) {s' : Chain} {event : StablecoinInitialized}
    → Setup.initialize_stablecoin rt c args s ≡ ok (s', event)
    → supply_at s'.ledger c.mint ≡ 0
initialize_stablecoin-starts rt laws c args s e =
    let (symbol_text, mint_bump, _, i) = initialize_stablecoin-IsIssued rt c args s e in
    build_mint-starts rt laws c args symbol_text mint_bump s.ledger i.built

pub process-KeepsOthers :
    (rt : Runtime) (laws : SupplyLaws rt) (i : Instruction) (s : Chain) {s' : Chain}
    → process rt i s ≡ ok s'
    → (k : Pubkey) → issued_mint i ≢ some k
    → supply_at s'.ledger k ≡ supply_at s.ledger k
process-KeepsOthers rt laws i s e k ne =
    process-Preserves rt (supply-Preserves rt k laws) i s e (λ m named same. ne (cc))
      (λ a named. tt)
