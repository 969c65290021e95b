-- ===== src/Amm/Deposit/Payments.antt =====
-- The balances after an `add_liquidity`.
use solana_stablecoin_amm.Base.{
  ℕ, ◌+◌, ◌≡◌, ◌≢◌, refl, ap, sym, subst, ◌∙◌, arith, some, ok, inl, inr, ltb, Bool-cases,
  >>=-eq-ok, map_err-ok,
}
use solana_stablecoin_amm.Chain.{Pubkey, Runtime, Ledger, amount_at, supply_at, invoke}
use solana_stablecoin_amm.Chain.Laws.{TransferLaws, IssueLaws}
use solana_stablecoin_amm.State.{Pool, Chain}
use solana_stablecoin_amm.Amm.Context.{check_pool-ok}
use solana_stablecoin_amm.Amm.Liquidity.{LiquidityAccounts, LiquidityContext, ensure_pool}
use solana_stablecoin_amm.Amm.Liquidity.Effects.{liquidity_context-raw}
use solana_stablecoin_amm.Amm.Liquidity.Accounts.{AreSix, IsOfThree, liquidity_context-AreSix}
use solana_stablecoin_amm.Amm.Deposit.{
  LiquidityAdded, DepositAmounts, add_checks, mint_locked, add_transfers, add_liquidity,
}
use solana_stablecoin_amm.Amm.Deposit.Checks.{IsPlanned, add_settle-ok}
use solana_stablecoin_amm.Amm.Deposit.Effects.{
  add_liquidity-stages, IsDeposited, staged-IsDeposited,
}

-- The amounts are paid into the vaults, the pool tokens are minted to the user and to the locked
-- account, and nothing else moves.
pub record ArePaidIn (d : LiquidityAccounts) (q : DepositAmounts) (l l' : Ledger) : Type 0 where
  pub minted : amount_at l' d.user_lp ≡ amount_at l d.user_lp + q.lp_to_user
  pub locked : amount_at l' d.locked_lp ≡ amount_at l d.locked_lp + q.lp_to_lock
  pub user_a : amount_at l' d.shared.user_a + q.amount_a ≡ amount_at l d.shared.user_a
  pub user_b : amount_at l' d.shared.user_b + q.amount_b ≡ amount_at l d.shared.user_b
  pub vault_a : amount_at l' d.shared.vault_a ≡ amount_at l d.shared.vault_a + q.amount_a
  pub vault_b : amount_at l' d.shared.vault_b ≡ amount_at l d.shared.vault_b + q.amount_b
  pub others :
      (k : Pubkey)
      → k ≢ d.user_lp
      → k ≢ d.locked_lp
      → k ≢ d.shared.user_a
      → k ≢ d.shared.user_b
      → k ≢ d.shared.vault_a
      → k ≢ d.shared.vault_b
      → amount_at l' k ≡ amount_at l k

pub add_checks-checked :
    (d : LiquidityAccounts) (a : LiquidityContext) (x y min_a min_b min_lp : ℕ) {q : _}
    → add_checks d a x y min_a min_b min_lp ≡ ok q
    → ensure_pool d a ≡ ok tt
unfolding add_checks
add_checks-checked d a x y min_a min_b min_lp h = ground arith

module _ (rt : Runtime) (laws : TransferLaws rt) (issue : IssueLaws rt) where
  pub mint_locked-ok :
      (d : LiquidityAccounts) (a : LiquidityContext) (n : ℕ) (l : Ledger) {l' : Ledger}
      → mint_locked rt d a n l ≡ ok l'
      → (amount_at l' d.locked_lp ≡ amount_at l d.locked_lp + n)
        × ((k : Pubkey) → k ≢ d.locked_lp → amount_at l' k ≡ amount_at l k)
  unfolding mint_locked
  mint_locked-ok d a n l {l'} h = elim (Bool-cases (ltb 0 n)) [
    | inl some_locked ↦
        let minting = map_err-ok _ _ (rw some_locked at h) in
        (issue.issues _ _ _ _ _ minting, issue.issue_others _ _ _ _ _ minting)
    | inr none_locked ↦
        let same : l ≡ l' = (let e = rw none_locked at h in ground arith) in
        let zero_locked : n ≡ 0 = ground arith in
        (rw (← same, zero_locked) (omega arith), λ k ne. rw (← same) refl)
  ]

  pub add_transfers-ArePaidIn :
      (d : LiquidityAccounts) (a : LiquidityContext) (q : DepositAmounts) (l : Ledger) {l' : Ledger}
      → AreSix d
      → add_transfers rt d a q l ≡ ok l'
      → ArePaidIn d q l l'
  unfolding add_transfers
  add_transfers-ArePaidIn d a q l {l'} six h =
      let (paid_a, first, rest) = >>=-eq-ok _ _ h in
      let (paid_b, second, rest') = >>=-eq-ok _ _ rest in
      let c = d.shared in
      let (l3, third, fourth) =
        >>=-eq-ok (mint_locked rt d a q.lp_to_lock paid_b)
          (λ k. invoke (
            rt.mint_to_checked c.lp_mint d.user_lp c.pool q.lp_to_user a.shared.lp_mint.decimals k))
          rest' in
      let paying_a = map_err-ok _ _ first in
      let paying_b = map_err-ok _ _ second in
      let minting = map_err-ok _ _ fourth in
      let stay_1 = laws.others _ _ _ _ _ _ paying_a in
      let stay_2 = laws.others _ _ _ _ _ _ paying_b in
      let (locked, stay_3) = mint_locked-ok d a q.lp_to_lock paid_b third in
      let stay_4 = issue.issue_others _ _ _ _ _ minting in
      let minted = issue.issues _ _ _ _ _ minting in
      let four = six.four in
      let (out_a, in_a) = laws.moves _ _ _ _ _ _ paying_a four.a_in in
      let (out_b, in_b) = laws.moves _ _ _ _ _ _ paying_b four.b_in in
      record {
        minted = omega (
          arith,
          stay_1 d.user_lp six.lp_user_a six.lp_vault_a,
          stay_2 d.user_lp six.lp_user_b six.lp_vault_b,
          stay_3 d.user_lp six.lp_locked,
          minted,
        );
        locked = omega (
          arith,
          stay_1 d.locked_lp six.locked_user_a six.locked_vault_a,
          stay_2 d.locked_lp six.locked_user_b six.locked_vault_b,
          locked,
          stay_4 d.locked_lp (λ e. six.lp_locked (sym e)),
        );
        user_a = omega (
          arith,
          out_a,
          stay_2 c.user_a four.users four.a_cross,
          stay_3 c.user_a (λ e. six.locked_user_a (sym e)),
          stay_4 c.user_a (λ e. six.lp_user_a (sym e)),
        );
        user_b = omega (
          arith,
          stay_1 c.user_b (λ e. four.users (sym e)) four.b_cross,
          out_b,
          stay_3 c.user_b (λ e. six.locked_user_b (sym e)),
          stay_4 c.user_b (λ e. six.lp_user_b (sym e)),
        );
        vault_a = omega (
          arith,
          in_a,
          stay_2 c.vault_a (λ e. four.b_cross (sym e)) four.vaults,
          stay_3 c.vault_a (λ e. six.locked_vault_a (sym e)),
          stay_4 c.vault_a (λ e. six.lp_vault_a (sym e)),
        );
        vault_b = omega (
          arith,
          stay_1 c.vault_b (λ e. four.a_cross (sym e)) (λ e. four.vaults (sym e)),
          in_b,
          stay_3 c.vault_b (λ e. six.locked_vault_b (sym e)),
          stay_4 c.vault_b (λ e. six.lp_vault_b (sym e)),
        );
        others = λ k np nl na nb va vb. stay_4 k np ∙ stay_3 k nl ∙ stay_2 k nb vb ∙ stay_1 k na va;
      }

  -- An `add_liquidity` that succeeds on a pool of three different mints, with Token-2022 calls
  -- that keep their documented effects, ran at the amounts of the first quote on an empty pool
  -- without pool tokens, and of the later quote at the live supply otherwise, within the three
  -- bounds. It moved exactly these two amounts from the user to the vaults, minted exactly these
  -- pool tokens to the user and to the locked account, and changed no other balance. The supply
  -- of pool tokens grew by what was minted, the locked account holds at least the minimum and is
  -- covered by the supply, the reserves are positive, grew by the amounts and are covered by the
  -- vaults, and of what the programs store only the reserves of this pool changed.
  pub add_liquidity-IsPaid :
      (d : LiquidityAccounts) (x y min_a min_b min_lp : ℕ) (pool : Pool) (s : Chain) {s' : Chain}
      {event : LiquidityAdded}
      → s.pools d.shared.pool ≡ some pool
      → IsOfThree pool
      → add_liquidity rt d x y min_a min_b min_lp s ≡ ok (s', event)
      → (q : DepositAmounts) × IsDeposited d x y min_a min_b min_lp pool q s s'
        × ArePaidIn d q s.ledger s'.ledger
  add_liquidity-IsPaid d x y min_a min_b min_lp pool s {s'} stored three h =
      let (a, q, totals, l, ea, eq, el, settle) =
        add_liquidity-stages rt d x y min_a min_b min_lp s h in
      let (stored', lp, held, checked) = liquidity_context-raw rt d s ea in
      let same : a.shared.pool ≡ pool = cc (stored', stored) in
      let done =
        staged-IsDeposited d a x y min_a min_b min_lp q totals l s (rw (lp, supply_at) refl)
          (rw (held, amount_at) refl) (check_pool-ok rt d.shared a.shared.pool checked).4 eq
          settle in
      let ledger : s'.ledger ≡ l =
        (let ((after, _), _, _) = add_settle-ok d a q totals l s settle in
          ap (λ t. t.ledger) after) in
      let six =
        liquidity_context-AreSix rt d s ea (add_checks-checked d a x y min_a min_b min_lp eq)
          (rw same three) in
      (
        q,
        subst (λ k. IsDeposited d x y min_a min_b min_lp k q s s') same done,
        rw ledger (add_transfers-ArePaidIn d a q s.ledger six el),
      )

  pub add_liquidity-ArePaidIn :
      (d : LiquidityAccounts) (x y min_a min_b min_lp : ℕ) (pool : Pool) (s : Chain) {s' : Chain}
      {event : LiquidityAdded}
      → s.pools d.shared.pool ≡ some pool
      → IsOfThree pool
      → add_liquidity rt d x y min_a min_b min_lp s ≡ ok (s', event)
      → (q : DepositAmounts) × IsPlanned pool
          (supply_at s.ledger d.shared.lp_mint)
          (amount_at s.ledger d.locked_lp)
          x
          y
          q
        × ArePaidIn d q s.ledger s'.ledger
  add_liquidity-ArePaidIn d x y min_a min_b min_lp pool s stored three h =
      let (q, done, paid) = add_liquidity-IsPaid d x y min_a min_b min_lp pool s stored three h in
      (q, done.planned, paid)
