-- ===== src/Amm/Deposit/Completion.antt =====
-- The last stage of `add_liquidity`, after its calls of Token-2022.
use solana_stablecoin_amm.Base.{
  ℕ, ◌+◌, ◌<◌, ◌≤◌, ◌≡◌, refl, arith, ◌∙◌, some, ok, ltb, ◌==◌, >>=-eq-ok, map_err-ok, Bool-cases,
  inl, inr,
}
use solana_stablecoin_amm.Math.{minimum_liquidity}
use solana_stablecoin_amm.Math.Initial.{quote_initial_liquidity-IsInitial}
use solana_stablecoin_amm.Chain.{Pubkey, Runtime, Ledger, Mint, TokenAccount, update, invoke}
use solana_stablecoin_amm.Chain.Laws.{TransferLaws, IssueLaws, identity, still_there}
use solana_stablecoin_amm.State.{Chain}
use solana_stablecoin_amm.Amm.{ensure_seeded, ensure_solvent}
use solana_stablecoin_amm.Amm.Context.{
  ensure_solvent-ok, ok-ensure_solvent, ensure_seeded-ok, ok-ensure_seeded,
}
use solana_stablecoin_amm.Amm.Swap.Effects.{amount_of_some}
use solana_stablecoin_amm.Amm.Liquidity.{LiquidityAccounts, LiquidityContext, liquidity_context}
use solana_stablecoin_amm.Amm.Liquidity.Effects.{ensure_pool-ok}
use solana_stablecoin_amm.Amm.Liquidity.Accounts.{IsOfThree, liquidity_context-AreSix, context-raw}
use solana_stablecoin_amm.Amm.Deposit.{
  LiquidityAdded, DepositAmounts, later_quote, deposit_quote, Expected, add_checks, mint_locked,
  add_transfers, add_settle, add_liquidity,
}
use solana_stablecoin_amm.Amm.Deposit.Checks.{
  first_quote-ok, add_checks-raw, expected_totals-ok, pool_at,
}
use solana_stablecoin_amm.Amm.Deposit.Payments.{add_checks-checked, add_transfers-ArePaidIn}

later_quote-seeded :
    (a : LiquidityContext) (x y : ℕ) {q : DepositAmounts}
    → later_quote a x y ≡ ok q
    → (ensure_seeded a.shared.pool a.shared.lp_mint.supply a.locked_lp.amount ≡ ok tt)
      × (q.lp_to_lock ≡ 0)
unfolding later_quote
later_quote-seeded a x y h = ground arith

-- What the last check reads: positive reserves, and locked tokens that the supply covers.
record IsSeeded (a : LiquidityContext) (q : DepositAmounts) : Type 0 where
  pos_a : 0 < a.shared.pool.reserve_a + q.amount_a
  pos_b : 0 < a.shared.pool.reserve_b + q.amount_b
  locked_min : minimum_liquidity ≤ a.locked_lp.amount + q.lp_to_lock
  covered :
      a.locked_lp.amount + q.lp_to_lock ≤ a.shared.lp_mint.supply + (q.lp_to_user + q.lp_to_lock)

deposit_quote-IsSeeded :
    (a : LiquidityContext) (x y : ℕ) {q : DepositAmounts}
    → deposit_quote a x y ≡ ok q
    → IsSeeded a q
unfolding deposit_quote
deposit_quote-IsSeeded a x y {q} h = elim (Bool-cases (a.shared.lp_mint.supply == 0)) [
  | inl none_yet ↦
      let ((_, _, locked), (ea, eb), quote) = first_quote-ok a x y (rw none_yet at h) in
      let i = quote_initial_liquidity-IsInitial x y quote in
      record {
        pos_a = omega (arith, ea, i.a_pos);
        pos_b = omega (arith, eb, i.b_pos);
        locked_min = omega (arith, i.locked);
        covered = omega (arith, locked);
      }
  | inr some_already ↦
      let (seeded, lock) = later_quote-seeded a x y (rw some_already at h) in
      let (pa, pb, locked_min, covered) = ensure_seeded-ok _ _ _ seeded in
      record {
        pos_a = omega (arith, pa);
        pos_b = omega (arith, pb);
        locked_min = omega (arith, locked_min);
        covered = omega (arith, covered);
      }
]

-- The last stage succeeds when the supply is the expected one and the two checks pass.
settle_succeeds :
    (d : LiquidityAccounts) (a : LiquidityContext) (q : DepositAmounts) (totals : Expected)
    (l : Ledger) (s : Chain) (va vb locked : TokenAccount) (m : Mint)
    → l.accounts d.shared.vault_a ≡ some va
    → l.accounts d.shared.vault_b ≡ some vb
    → l.accounts d.locked_lp ≡ some locked
    → l.mints d.shared.lp_mint ≡ some m
    → m.supply ≡ totals.lp_supply
    → ensure_solvent (pool_at a.shared.pool totals) va.amount vb.amount ≡ ok tt
    → ensure_seeded (pool_at a.shared.pool totals) totals.lp_supply locked.amount ≡ ok tt
    → (done : Chain × LiquidityAdded) × (add_settle d a q totals l s ≡ ok done)
unfolding add_settle
settle_succeeds d a q totals l s va vb locked m ea eb ek em supply solvent seeded = (
  (
    record s {
      ledger = l;
      pools = update s.pools d.shared.pool (some (pool_at a.shared.pool totals));
    },
    record {
      pool = d.shared.pool;
      user = d.shared.user;
      amount_a = q.amount_a;
      amount_b = q.amount_b;
      lp_minted = q.lp_to_user;
      reserve_a = totals.reserve_a;
      reserve_b = totals.reserve_b;
      lp_supply = totals.lp_supply;
    },
  ),
  rw (ea, eb, em, ek) (rw (supply, solvent, seeded) (ground arith)),
)

module _ (rt : Runtime) (laws : TransferLaws rt) (issue : IssueLaws rt) where
  -- What minting the locked tokens keeps of the accounts, and does to the LP mint.
  mint_locked-keeps :
      (d : LiquidityAccounts) (a : LiquidityContext) (n : ℕ) (l : Ledger) (m : Mint) {l' : Ledger}
      → l.mints d.shared.lp_mint ≡ some m
      → mint_locked rt d a n l ≡ ok l'
      → ((k : Pubkey) → identity (l'.accounts k) ≡ identity (l.accounts k))
        × ((m' : Mint) × (l'.mints d.shared.lp_mint ≡ some m') × (m'.supply ≡ m.supply + n))
  unfolding mint_locked
  mint_locked-keeps d a n l m {l'} has_m h = elim (Bool-cases (ltb 0 n)) [
    | inl some_locked ↦
        let minting = map_err-ok _ _ (rw some_locked at h) in
        (issue.issue_identities _ _ _ _ _ minting, issue.issue_supply _ _ _ _ _ minting has_m)
    | inr none_locked ↦
        let same : l ≡ l' = (let e = rw none_locked at h in ground arith) in
        let zero_locked : n ≡ 0 = ground arith in
        ((λ k. rw (← same) refl), (m, rw (← same) has_m, rw zero_locked (omega arith)))
  ]

  -- What the calls keep of the accounts, and do to the LP mint.
  add_transfers-keeps :
      (d : LiquidityAccounts) (a : LiquidityContext) (q : DepositAmounts) (l : Ledger) {l' : Ledger}
      → l.mints d.shared.lp_mint ≡ some a.shared.lp_mint
      → add_transfers rt d a q l ≡ ok l'
      → ((k : Pubkey) → identity (l'.accounts k) ≡ identity (l.accounts k))
        × ((m : Mint) × (l'.mints d.shared.lp_mint ≡ some m)
            × (m.supply ≡ a.shared.lp_mint.supply + (q.lp_to_user + q.lp_to_lock)))
  unfolding add_transfers
  add_transfers-keeps d a q l lp h =
      let (paid_a, first, rest) = >>=-eq-ok _ _ h in
      let (paid_b, second, rest') = >>=-eq-ok _ _ rest in
      let c = d.shared in
      let (l3, third, fourth) =
        >>=-eq-ok (mint_locked rt d a q.lp_to_lock paid_b)
          (λ k. invoke (
            rt.mint_to_checked c.lp_mint d.user_lp c.pool q.lp_to_user a.shared.lp_mint.decimals k))
          rest' in
      let paying_a = map_err-ok _ _ first in
      let paying_b = map_err-ok _ _ second in
      let minting = map_err-ok _ _ fourth in
      let before =
        laws.mints _ _ _ _ _ _ paying_b c.lp_mint
        ∙ laws.mints _ _ _ _ _ _ paying_a c.lp_mint
        ∙ lp in
      let (same, (m, has_m, sum)) =
        mint_locked-keeps d a q.lp_to_lock paid_b a.shared.lp_mint before third in
      let (m', has_m', sum') = issue.issue_supply _ _ _ _ _ minting has_m in
      (
        (λ k.
            issue.issue_identities _ _ _ _ _ minting k
            ∙ same k
            ∙ laws.identities _ _ _ _ _ _ paying_b k
            ∙ laws.identities _ _ _ _ _ _ paying_a k),
        (m', has_m', omega (arith, sum, sum')),
      )

  -- On a pool of three different mints, with Token-2022 calls that keep their documented effects:
  -- once the accounts are loaded, and the checks, the amounts and the calls have passed,
  -- `add_liquidity` succeeds, on a first deposit and on a later one, so none of the checks of the
  -- reloaded accounts can fail.
  pub add_liquidity_completes :
      (d : LiquidityAccounts) (x y min_a min_b min_lp : ℕ) (a : LiquidityContext)
      (q : DepositAmounts) (totals : Expected) (l : Ledger) (s : Chain)
      → IsOfThree a.shared.pool
      → liquidity_context rt d s ≡ ok a
      → add_checks d a x y min_a min_b min_lp ≡ ok (q, totals)
      → add_transfers rt d a q s.ledger ≡ ok l
      → (done : Chain × LiquidityAdded) × (add_liquidity rt d x y min_a min_b min_lp s ≡ ok done)
  unfolding add_liquidity
  add_liquidity_completes d x y min_a min_b min_lp a q totals l s three ea eq el =
      let checks = add_checks-checked d a x y min_a min_b min_lp eq in
      let ((quote, summed), _) = add_checks-raw d a x y min_a min_b min_lp eq in
      let seeded = deposit_quote-IsSeeded a x y quote in
      let (ra, rb, total) = expected_totals-ok a q summed in
      let (sa, sb) = ensure_solvent-ok _ _ _ (ensure_pool-ok d a checks).1 in
      let ((_, has_a, has_b, has_locked), (_, _, has_lp), _, _) = context-raw rt d s ea in
      let paid =
        add_transfers-ArePaidIn rt laws issue d a q s.ledger
          (liquidity_context-AreSix rt d s ea checks three) el in
      let (same, (m, has_m, sum)) = add_transfers-keeps d a q s.ledger has_lp el in
      let (va, fa) = still_there s.ledger l d.shared.vault_a (same d.shared.vault_a) has_a in
      let (vb, fb) = still_there s.ledger l d.shared.vault_b (same d.shared.vault_b) has_b in
      let (k, fk) = still_there s.ledger l d.locked_lp (same d.locked_lp) has_locked in
      let covers_a : totals.reserve_a ≤ va.amount = omega (
        arith,
        sa,
        ra,
        paid.vault_a,
        amount_of_some l _ va fa,
        amount_of_some s.ledger _ _ has_a,
      ) in
      let covers_b : totals.reserve_b ≤ vb.amount = omega (
        arith,
        sb,
        rb,
        paid.vault_b,
        amount_of_some l _ vb fb,
        amount_of_some s.ledger _ _ has_b,
      ) in
      let locked : k.amount ≡ a.locked_lp.amount + q.lp_to_lock =
        omega
          (arith, paid.locked, amount_of_some l _ k fk, amount_of_some s.ledger _ _ has_locked) in
      let (done, settled) =
        settle_succeeds d a q totals l s va vb k m fa fb fk has_m (omega (arith, sum, total))
          (ok-ensure_solvent (pool_at a.shared.pool totals) va.amount vb.amount covers_a covers_b)
          (ok-ensure_seeded (pool_at a.shared.pool totals) totals.lp_supply k.amount
            (omega (arith, ra, seeded.pos_a)) (omega (arith, rb, seeded.pos_b))
            (omega (arith, locked, seeded.locked_min))
            (omega (arith, locked, total, seeded.covered))) in
      (done, rw (ea, eq, el) settled)
