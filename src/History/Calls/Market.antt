-- ===== src/History/Calls/Market.antt =====
-- The calls of the instructions of the AMM program, programs/amm/src/lib.rs.
use solana_stablecoin_amm.Base.{
  ℕ, ◌≡◌, ◌≢◌, arith, refl, none, some, Option, List, ok, inl, inr, ltb, Bool-cases, >>=-eq-ok,
  map_err-ok,
}
use solana_stablecoin_amm.Math.{RemoveLiquidityQuote}
use solana_stablecoin_amm.Chain.{Pubkey, Ledger, Seed, Runtime, supply_at, invoke}
use solana_stablecoin_amm.Chain.Preserved.{Preserves, provision-Preserves}
use solana_stablecoin_amm.Chain.Supply.{SupplyLaws, supply-Preserves}
use solana_stablecoin_amm.State.{SwapDirection, Chain, chain_after-ok}
use solana_stablecoin_amm.Amm.{PoolAccounts, math_overflow, child_account_in_use}
use solana_stablecoin_amm.Amm.Setup.{
  InitializePoolAccounts, PoolBumps, create_pda_account, create_vault, create_lp, create_children,
}
use solana_stablecoin_amm.Amm.Setup.Effects.{initialize_pool-IsSetUp}
use solana_stablecoin_amm.Amm.Swap.{route, swap_transfers}
use solana_stablecoin_amm.Amm.Swap.Effects.{swap-stages, swap_settle-ok}
use solana_stablecoin_amm.Amm.Liquidity.{LiquidityAccounts, LiquidityContext, remove_transfers}
use solana_stablecoin_amm.Amm.Liquidity.Effects.{remove_liquidity-stages, remove_settle-ok}
use solana_stablecoin_amm.Amm.Deposit.{DepositAmounts, mint_locked, add_transfers}
use solana_stablecoin_amm.Amm.Deposit.Checks.{add_settle-ok}
use solana_stablecoin_amm.Amm.Deposit.Effects.{add_liquidity-stages}
use solana_stablecoin_amm.Amm.Program.{
  Instruction, initialize_pool, add_liquidity, remove_liquidity, swap, process,
}
use solana_stablecoin_amm.History.Calls.Stages.{create_vault-stages, create_lp-stages}

-- The pool token whose supply the instruction is about, if it is about one.
abbrev pub shared_mint : Instruction → Option Pubkey
shared_mint (initialize_pool c fee_bps) = some c.lp_mint
shared_mint (add_liquidity d x y min_a min_b min_lp) = some d.shared.lp_mint
shared_mint (remove_liquidity d lp_amount min_a_out min_b_out) = some d.shared.lp_mint
shared_mint (swap c direction amount_in min_amount_out) = none

-- A condition on every account that a transfer or a burn of the instruction takes tokens from, which
-- `amm_process-Preserves` asks for call by call.
abbrev pub AllSpent : (Pubkey → Type 0) → Instruction → Type 0
AllSpent P (initialize_pool c fee_bps) = Unit
AllSpent P (add_liquidity d x y min_a min_b min_lp) = P d.shared.user_a × P d.shared.user_b
AllSpent P (remove_liquidity d lp_amount min_a_out min_b_out) =
    P d.user_lp × P d.shared.vault_a × P d.shared.vault_b
AllSpent P (swap c direction amount_in min_amount_out) =
    P (route direction c).source × P (route direction c).vault_out

module _ (rt : Runtime) {R : Ledger → Ledger → Type 0} {minting spending : Pubkey → Type 0}
    (p : Preserves rt R minting spending) where
  pub create_pda_account-Preserves :
      (payer target owner space : ℕ) (seeds : List Seed) (l : Ledger) {l' : Ledger}
      → create_pda_account rt payer target owner space seeds l ≡ ok l'
      → R l l'
  unfolding create_pda_account
  create_pda_account-Preserves payer target owner space seeds l h =
      provision-Preserves rt p math_overflow child_account_in_use payer target owner _ space seeds l
        h

  pub create_vault-Preserves :
      (payer vault mint pool : Pubkey) (seeds : List Seed) (l : Ledger) {l' : Ledger}
      → create_vault rt payer vault mint pool seeds l ≡ ok l'
      → R l l'
  create_vault-Preserves payer vault mint pool seeds l h =
      let (space, _, _, created, opened) = create_vault-stages rt payer vault mint pool seeds l h in
      p.both (create_pda_account-Preserves payer vault rt.token_id space seeds l created)
        (p.opens _ _ _ opened)

  pub create_lp-Preserves :
      (c : InitializePoolAccounts) (bumps : PoolBumps) (decimals : ℕ) (l : Ledger) {l' : Ledger}
      → create_lp rt c bumps decimals l ≡ ok l'
      → minting c.lp_mint
      → R l l'
  create_lp-Preserves c bumps decimals l h may =
      let (space, minted, lp, space', opened, _, _, e1, e2, e3, e4) =
        create_lp-stages rt c bumps decimals l h in
      p.both (create_pda_account-Preserves _ _ _ space _ l e1) (
        p.both (p.starts _ _ _ _ e2 may)
          (p.both (create_pda_account-Preserves _ _ _ space' _ lp e3) (p.opens _ _ _ e4)))

  create_children-Preserves :
      (c : InitializePoolAccounts) (bumps : PoolBumps) (decimals : ℕ) (l : Ledger) {l' : Ledger}
      → create_children rt c bumps decimals l ≡ ok l'
      → minting c.lp_mint
      → R l l'
  unfolding create_children
  create_children-Preserves c bumps decimals l h may =
      let (first, e1, rest) = >>=-eq-ok _ _ h in
      let (second, e2, e3) = >>=-eq-ok _ _ rest in
      p.both (create_vault-Preserves _ _ _ _ _ l e1) (
        p.both (create_vault-Preserves _ _ _ _ _ first e2)
          (create_lp-Preserves c bumps decimals second e3 may))

  swap_transfers-Preserves :
      (c : PoolAccounts) (decimals : ℕ) (direction : SwapDirection) (amount_in amount_out : ℕ)
      (l : Ledger) {l' : Ledger}
      → swap_transfers rt c decimals direction amount_in amount_out l ≡ ok l'
      → spending (route direction c).source × spending (route direction c).vault_out
      → R l l'
  unfolding swap_transfers
  swap_transfers-Preserves c decimals direction amount_in amount_out l h (source, vault) =
      let (paid, first, second) = >>=-eq-ok _ _ h in
      p.both (p.transfers _ _ _ _ _ _ (map_err-ok _ _ first) source)
        (p.transfers _ _ _ _ _ _ (map_err-ok _ _ second) vault)

  remove_transfers-Preserves :
      (d : LiquidityAccounts) (a : LiquidityContext) (lp_amount : ℕ) (q : RemoveLiquidityQuote)
      (l : Ledger) {l' : Ledger}
      → remove_transfers rt d a lp_amount q l ≡ ok l'
      → minting d.shared.lp_mint
      → spending d.user_lp × spending d.shared.vault_a × spending d.shared.vault_b
      → R l l'
  unfolding remove_transfers
  remove_transfers-Preserves d a lp_amount q l h may (user_lp, vault_a, vault_b) =
      let (burnt, first, rest) = >>=-eq-ok _ _ h in
      let (paid, second, third) = >>=-eq-ok _ _ rest in
      p.both (p.burns _ _ _ _ _ (map_err-ok _ _ first) may user_lp) (
        p.both (p.transfers _ _ _ _ _ _ (map_err-ok _ _ second) vault_a)
          (p.transfers _ _ _ _ _ _ (map_err-ok _ _ third) vault_b))

  mint_locked-Preserves :
      (d : LiquidityAccounts) (a : LiquidityContext) (n : ℕ) (l : Ledger) {l' : Ledger}
      → mint_locked rt d a n l ≡ ok l'
      → minting d.shared.lp_mint
      → R l l'
  unfolding mint_locked
  mint_locked-Preserves d a n l {l'} h may = elim (Bool-cases (ltb 0 n)) [
    | inl some_locked ↦ p.issues _ _ _ _ _ (map_err-ok _ _ (rw some_locked at h)) may
    | inr none_locked ↦
        let unchanged : l ≡ l' = (let e = rw none_locked at h in ground arith) in
        rw (← unchanged) (p.same l)
  ]

  add_transfers-Preserves :
      (d : LiquidityAccounts) (a : LiquidityContext) (q : DepositAmounts) (l : Ledger) {l' : Ledger}
      → add_transfers rt d a q l ≡ ok l'
      → minting d.shared.lp_mint
      → spending d.shared.user_a × spending d.shared.user_b
      → R l l'
  unfolding add_transfers
  add_transfers-Preserves d a q l h may (user_a, user_b) =
      let (paid_a, first, rest) = >>=-eq-ok _ _ h in
      let (paid_b, second, rest') = >>=-eq-ok _ _ rest in
      let c = d.shared in
      let (locked, third, fourth) =
        >>=-eq-ok (mint_locked rt d a q.lp_to_lock paid_b)
          (λ k. invoke (
            rt.mint_to_checked c.lp_mint d.user_lp c.pool q.lp_to_user a.shared.lp_mint.decimals k))
          rest' in
      p.both (p.transfers _ _ _ _ _ _ (map_err-ok _ _ first) user_a) (
        p.both (p.transfers _ _ _ _ _ _ (map_err-ok _ _ second) user_b) (
          p.both (mint_locked-Preserves d a q.lp_to_lock paid_b third may)
            (p.issues _ _ _ _ _ (map_err-ok _ _ fourth) may)))

  pub amm_process-Preserves :
      (i : Instruction) (s : Chain) {s' : Chain}
      → process rt i s ≡ ok s'
      → ((k : Pubkey) → shared_mint i ≡ some k → minting k)
      → AllSpent spending i
      → R s.ledger s'.ledger
  unfolding process
  amm_process-Preserves (initialize_pool c fee_bps) s e may spend =
      let (_, _, bumps, i) = initialize_pool-IsSetUp rt c fee_bps s (chain_after-ok _ e).1 in
      create_children-Preserves c bumps _ s.ledger i.children (may c.lp_mint refl)
  amm_process-Preserves (add_liquidity d x y min_a min_b min_lp) s e may spend =
      let (a, q, totals, l, _, _, el, settle) =
        add_liquidity-stages rt d x y min_a min_b min_lp s (chain_after-ok _ e).1 in
      let ((after, _), _, _) = add_settle-ok d a q totals l s settle in
      rw after (add_transfers-Preserves d a q s.ledger el (may d.shared.lp_mint refl) spend)
  amm_process-Preserves (remove_liquidity d lp_amount min_a_out min_b_out) s e may spend =
      let (a, q, l, _, _, el, settle) =
        remove_liquidity-stages rt d lp_amount min_a_out min_b_out s (chain_after-ok _ e).1 in
      let ((after, _), _, _) = remove_settle-ok d a lp_amount q l s settle in
      rw after
        (remove_transfers-Preserves d a lp_amount q s.ledger el (may d.shared.lp_mint refl) spend)
  amm_process-Preserves (swap c direction amount_in min_amount_out) s e may spend =
      let (a, j, q, l, _, _, el, settle) =
        swap-stages rt c direction amount_in min_amount_out s (chain_after-ok _ e).1 in
      let ((after, _), _, _) = swap_settle-ok c a direction amount_in j q l s settle in
      rw after (swap_transfers-Preserves c _ direction amount_in q.amount_out s.ledger el spend)

pub all_spent : (i : Instruction) → AllSpent (λ account. Unit) i
all_spent (initialize_pool c fee_bps) = tt
all_spent (add_liquidity d x y min_a min_b min_lp) = (tt, tt)
all_spent (remove_liquidity d lp_amount min_a_out min_b_out) = (tt, tt, tt)
all_spent (swap c direction amount_in min_amount_out) = (tt, tt)

pub amm_process-KeepsOthers :
    (rt : Runtime) (laws : SupplyLaws rt) (i : Instruction) (s : Chain) {s' : Chain}
    → process rt i s ≡ ok s'
    → (k : Pubkey) → shared_mint i ≢ some k
    → supply_at s'.ledger k ≡ supply_at s.ledger k
amm_process-KeepsOthers rt laws i s e k ne =
    amm_process-Preserves rt (supply-Preserves rt k laws) i s e (λ m named same. ne (cc))
      (all_spent i)

pub AllSpent-map :
    (P Q : Pubkey → Type 0) (i : Instruction)
    → ((k : Pubkey) → P k → Q k)
    → AllSpent P i
    → AllSpent Q i
AllSpent-map P Q (initialize_pool c fee_bps) f h = tt
AllSpent-map P Q (add_liquidity d x y min_a min_b min_lp) f (a, b) = (f _ a, f _ b)
AllSpent-map P Q (remove_liquidity d lp_amount min_a_out min_b_out) f (lp, a, b) =
    (f _ lp, f _ a, f _ b)
AllSpent-map P Q (swap c direction amount_in min_amount_out) f (a, b) = (f _ a, f _ b)
