-- ===== src/Amm/Liquidity/Payments.antt =====
-- The balances after a `remove_liquidity`.
use solana_stablecoin_amm.Base.{
  ℕ, ◌+◌, ◌≡◌, ◌≢◌, arith, refl, ap, sym, subst, ◌∙◌, some, ok, >>=-eq-ok, map_err-ok,
}
use solana_stablecoin_amm.Math.{RemoveLiquidityQuote, quote_remove_liquidity}
use solana_stablecoin_amm.Chain.{Pubkey, Runtime, Ledger, amount_at, supply_at}
use solana_stablecoin_amm.Chain.Laws.{TransferLaws, IssueLaws}
use solana_stablecoin_amm.State.{Pool, Chain}
use solana_stablecoin_amm.Amm.Context.{check_pool-ok}
use solana_stablecoin_amm.Amm.Liquidity.{
  LiquidityAccounts, LiquidityContext, LiquidityRemoved, remove_transfers, remove_liquidity,
}
use solana_stablecoin_amm.Amm.Liquidity.Effects.{
  liquidity_context-raw, remove_liquidity-stages, remove_quote-raw, remove_settle-ok, IsWithdrawn,
  staged-IsWithdrawn,
}
use solana_stablecoin_amm.Amm.Liquidity.Accounts.{AreSix, IsOfThree, liquidity_context-AreSix}

-- The pool tokens `lp` are burned, `x` and `y` are paid out of the vaults, and nothing else moves.
pub record ArePaidOut (d : LiquidityAccounts) (lp x y : ℕ) (l l' : Ledger) : Type 0 where
  pub burned : amount_at l' d.user_lp + lp ≡ amount_at l d.user_lp
  pub user_a : amount_at l' d.shared.user_a ≡ amount_at l d.shared.user_a + x
  pub user_b : amount_at l' d.shared.user_b ≡ amount_at l d.shared.user_b + y
  pub vault_a : amount_at l' d.shared.vault_a + x ≡ amount_at l d.shared.vault_a
  pub vault_b : amount_at l' d.shared.vault_b + y ≡ amount_at l d.shared.vault_b
  pub others :
      (k : Pubkey)
      → k ≢ d.user_lp
      → k ≢ d.shared.user_a
      → k ≢ d.shared.user_b
      → k ≢ d.shared.vault_a
      → k ≢ d.shared.vault_b
      → amount_at l' k ≡ amount_at l k

module _ (rt : Runtime) (laws : TransferLaws rt) (issue : IssueLaws rt) where
  pub remove_transfers-ArePaidOut :
      (d : LiquidityAccounts) (a : LiquidityContext) (lp_amount : ℕ) (q : RemoveLiquidityQuote)
      (l : Ledger) {l' : Ledger}
      → AreSix d
      → remove_transfers rt d a lp_amount q l ≡ ok l'
      → ArePaidOut d lp_amount q.amount_a q.amount_b l l'
  unfolding remove_transfers
  remove_transfers-ArePaidOut d a lp_amount q l {l'} six h =
      let (burnt, first, rest) = >>=-eq-ok _ _ h in
      let (paid, second, third) = >>=-eq-ok _ _ rest in
      let burning = map_err-ok _ _ first in
      let paying_a = map_err-ok _ _ second in
      let paying_b = map_err-ok _ _ third in
      let stay_1 = issue.burn_others _ _ _ _ _ burning in
      let stay_2 = laws.others _ _ _ _ _ _ paying_a in
      let stay_3 = laws.others _ _ _ _ _ _ paying_b in
      let four = six.four in
      let c = d.shared in
      let burned = issue.burns _ _ _ _ _ burning in
      let (out_a, in_a) = laws.moves _ _ _ _ _ _ paying_a (λ e. four.a_in (sym e)) in
      let (out_b, in_b) = laws.moves _ _ _ _ _ _ paying_b (λ e. four.b_in (sym e)) in
      record {
        burned = omega (
          arith,
          stay_2 d.user_lp six.lp_vault_a six.lp_user_a,
          stay_3 d.user_lp six.lp_vault_b six.lp_user_b,
          burned,
        );
        user_a = omega (
          arith,
          stay_1 c.user_a (λ e. six.lp_user_a (sym e)),
          stay_3 c.user_a four.a_cross four.users,
          in_a,
        );
        user_b = omega (
          arith,
          stay_1 c.user_b (λ e. six.lp_user_b (sym e)),
          stay_2 c.user_b four.b_cross (λ e. four.users (sym e)),
          in_b,
        );
        vault_a = omega (
          arith,
          stay_1 c.vault_a (λ e. six.lp_vault_a (sym e)),
          stay_3 c.vault_a four.vaults (λ e. four.b_cross (sym e)),
          out_a,
        );
        vault_b = omega (
          arith,
          stay_1 c.vault_b (λ e. six.lp_vault_b (sym e)),
          stay_2 c.vault_b (λ e. four.vaults (sym e)) (λ e. four.a_cross (sym e)),
          out_b,
        );
        others = λ k np na nb va vb. stay_3 k vb nb ∙ stay_2 k va na ∙ stay_1 k np;
      }

  -- A `remove_liquidity` that succeeds on a pool of three different mints, with Token-2022 calls
  -- that keep their documented effects, ran at the quote of the pool's reserves and the live
  -- supply of pool tokens, within the slippage bounds. It took exactly the given pool tokens from
  -- the user, lowered their supply by them, paid exactly the two amounts of that quote from the
  -- vaults to the user, and changed no other balance. The locked tokens are at least the minimum
  -- and still covered by the supply, the vaults cover the new reserves, no pool token has lost
  -- value, and of what the programs store only the reserves of this pool changed.
  pub remove_liquidity-IsPaid :
      (d : LiquidityAccounts) (lp_amount min_a_out min_b_out : ℕ) (pool : Pool) (s : Chain)
      {s' : Chain} {event : LiquidityRemoved}
      → s.pools d.shared.pool ≡ some pool
      → IsOfThree pool
      → remove_liquidity rt d lp_amount min_a_out min_b_out s ≡ ok (s', event)
      → (locked : ℕ) × (q : RemoveLiquidityQuote) × IsWithdrawn d lp_amount min_a_out min_b_out pool
          locked q s s'
        × ArePaidOut d lp_amount q.amount_a q.amount_b s.ledger s'.ledger
  remove_liquidity-IsPaid d lp_amount min_a_out min_b_out pool s {s'} stored three h =
      let (a, q, l, ea, eq, el, settle) =
        remove_liquidity-stages rt d lp_amount min_a_out min_b_out s h in
      let (stored', lp, held, checked) = liquidity_context-raw rt d s ea in
      let same : a.shared.pool ≡ pool = cc (stored', stored) in
      let (checks, _, _, _) = remove_quote-raw d a lp_amount min_a_out min_b_out eq in
      let done =
        staged-IsWithdrawn d a lp_amount min_a_out min_b_out q l s (rw (lp, supply_at) refl)
          (rw (held, amount_at) refl) (check_pool-ok rt d.shared a.shared.pool checked).4 eq
          settle in
      let ledger : s'.ledger ≡ l =
        (let ((after, _), _, _) = remove_settle-ok d a lp_amount q l s settle in
          ap (λ t. t.ledger) after) in
      let six = liquidity_context-AreSix rt d s ea checks (rw same three) in
      (
        a.locked_lp.amount,
        q,
        subst (λ k. IsWithdrawn d lp_amount min_a_out min_b_out k a.locked_lp.amount q s s') same
            done,
        rw ledger (remove_transfers-ArePaidOut d a lp_amount q s.ledger six el),
      )

  pub remove_liquidity-ArePaidOut :
      (d : LiquidityAccounts) (lp_amount min_a_out min_b_out : ℕ) (pool : Pool) (s : Chain)
      {s' : Chain} {event : LiquidityRemoved}
      → s.pools d.shared.pool ≡ some pool
      → IsOfThree pool
      → remove_liquidity rt d lp_amount min_a_out min_b_out s ≡ ok (s', event)
      → (q : RemoveLiquidityQuote) × (quote_remove_liquidity lp_amount pool.reserve_a pool.reserve_b
            (supply_at s.ledger d.shared.lp_mint)
          ≡ ok q)
        × ArePaidOut d lp_amount q.amount_a q.amount_b s.ledger s'.ledger
  remove_liquidity-ArePaidOut d lp_amount min_a_out min_b_out pool s stored three h =
      let (_, q, done, paid) =
        remove_liquidity-IsPaid d lp_amount min_a_out min_b_out pool s stored three h in
      (q, done.quote, paid)
