-- ===== src/Amm/Liquidity/Completion.antt =====
-- The last stage of `remove_liquidity`, after its calls of Token-2022.
use solana_stablecoin_amm.Base.{ℕ, ◌+◌, ◌≤◌, ◌≡◌, arith, ◌∙◌, some, ok, >>=-eq-ok, map_err-ok}
use solana_stablecoin_amm.Math.{RemoveLiquidityQuote}
use solana_stablecoin_amm.Math.Remove.Laws.{
  quote_remove_liquidity-IsRemove, quote_remove_liquidity-reserves_pos,
}
use solana_stablecoin_amm.Chain.{Pubkey, Runtime, Ledger, Mint, TokenAccount, update}
use solana_stablecoin_amm.Chain.Laws.{TransferLaws, IssueLaws, identity, still_there}
use solana_stablecoin_amm.State.{Chain}
use solana_stablecoin_amm.Amm.{ensure_seeded, ensure_solvent}
use solana_stablecoin_amm.Amm.Context.{
  ensure_solvent-ok, ok-ensure_solvent, ensure_seeded-ok, ok-ensure_seeded,
}
use solana_stablecoin_amm.Amm.Swap.Effects.{amount_of_some}
use solana_stablecoin_amm.Amm.Liquidity.{
  LiquidityAccounts, LiquidityContext, liquidity_context, LiquidityRemoved, remove_quote,
  remove_transfers, remove_settle, remove_liquidity,
}
use solana_stablecoin_amm.Amm.Liquidity.Effects.{remove_quote-raw, ensure_pool-ok, pool_left}
use solana_stablecoin_amm.Amm.Liquidity.Accounts.{IsOfThree, liquidity_context-AreSix, context-raw}
use solana_stablecoin_amm.Amm.Liquidity.Payments.{remove_transfers-ArePaidOut}

remove_quote-locked :
    (d : LiquidityAccounts) (a : LiquidityContext) (lp_amount min_a_out min_b_out : ℕ)
    {q : RemoveLiquidityQuote}
    → remove_quote d a lp_amount min_a_out min_b_out ≡ ok q
    → (ensure_seeded a.shared.pool a.shared.lp_mint.supply a.locked_lp.amount ≡ ok tt)
      × (a.locked_lp.amount ≤ q.new_lp_supply)
unfolding remove_quote
remove_quote-locked d a lp_amount min_a_out min_b_out h = ground arith

-- The last stage succeeds when the supply is the expected one and the vaults cover the reserves.
settle_succeeds :
    (d : LiquidityAccounts) (a : LiquidityContext) (lp_amount : ℕ) (q : RemoveLiquidityQuote)
    (l : Ledger) (s : Chain) (va vb : TokenAccount) (m : Mint)
    → l.accounts d.shared.vault_a ≡ some va
    → l.accounts d.shared.vault_b ≡ some vb
    → l.mints d.shared.lp_mint ≡ some m
    → m.supply ≡ q.new_lp_supply
    → ensure_solvent (pool_left a.shared.pool q) va.amount vb.amount ≡ ok tt
    → ensure_seeded (pool_left a.shared.pool q) q.new_lp_supply a.locked_lp.amount ≡ ok tt
    → (done : Chain × LiquidityRemoved) × (remove_settle d a lp_amount q l s ≡ ok done)
unfolding remove_settle
settle_succeeds d a lp_amount q l s va vb m ea eb em supply solvent seeded = (
  (
    record s {
      ledger = l;
      pools = update s.pools d.shared.pool (some (pool_left a.shared.pool q));
    },
    record {
      pool = d.shared.pool;
      user = d.shared.user;
      lp_burned = lp_amount;
      amount_a = q.amount_a;
      amount_b = q.amount_b;
      reserve_a = q.new_reserve_a;
      reserve_b = q.new_reserve_b;
      lp_supply = q.new_lp_supply;
    },
  ),
  rw (ea, eb, em) (rw (supply, solvent, seeded) (ground arith)),
)

module _ (rt : Runtime) (laws : TransferLaws rt) (issue : IssueLaws rt) where
  -- What the calls keep of the accounts, and do to the LP mint.
  remove_transfers-keeps :
      (d : LiquidityAccounts) (a : LiquidityContext) (lp_amount : ℕ) (q : RemoveLiquidityQuote)
      (l : Ledger) {l' : Ledger}
      → l.mints d.shared.lp_mint ≡ some a.shared.lp_mint
      → remove_transfers rt d a lp_amount q l ≡ ok l'
      → ((k : Pubkey) → identity (l'.accounts k) ≡ identity (l.accounts k))
        × ((m : Mint) × (l'.mints d.shared.lp_mint ≡ some m)
            × (m.supply + lp_amount ≡ a.shared.lp_mint.supply))
  unfolding remove_transfers
  remove_transfers-keeps d a lp_amount q l lp h =
      let (burnt, first, rest) = >>=-eq-ok _ _ h in
      let (paid, second, third) = >>=-eq-ok _ _ rest in
      let burning = map_err-ok _ _ first in
      let paying_a = map_err-ok _ _ second in
      let paying_b = map_err-ok _ _ third in
      let (m, has_m, sum) = issue.burn_supply _ _ _ _ _ burning lp in
      (
        (λ k.
            laws.identities _ _ _ _ _ _ paying_b k
            ∙ laws.identities _ _ _ _ _ _ paying_a k
            ∙ issue.burn_identities _ _ _ _ _ burning k),
        (m, laws.mints _ _ _ _ _ _ paying_b _ ∙ laws.mints _ _ _ _ _ _ paying_a _ ∙ has_m, sum),
      )

  -- On a pool of three different mints, with Token-2022 calls that keep their documented effects:
  -- once the accounts are loaded, and the checks, the quote and the three calls have passed,
  -- `remove_liquidity` succeeds, so none of the checks of the reloaded accounts can fail.
  pub remove_liquidity_completes :
      (d : LiquidityAccounts) (lp_amount min_a_out min_b_out : ℕ) (a : LiquidityContext)
      (q : RemoveLiquidityQuote) (l : Ledger) (s : Chain)
      → IsOfThree a.shared.pool
      → liquidity_context rt d s ≡ ok a
      → remove_quote d a lp_amount min_a_out min_b_out ≡ ok q
      → remove_transfers rt d a lp_amount q s.ledger ≡ ok l
      → (done : Chain × LiquidityRemoved) × (remove_liquidity rt d lp_amount min_a_out min_b_out s
          ≡ ok done)
  unfolding remove_liquidity
  remove_liquidity_completes d lp_amount min_a_out min_b_out a q l s three ea eq el =
      let (checks, quote, _, _) = remove_quote-raw d a lp_amount min_a_out min_b_out eq in
      let (seeded, covered) = remove_quote-locked d a lp_amount min_a_out min_b_out eq in
      let (_, _, locked_min, _) = ensure_seeded-ok _ _ _ seeded in
      let (_, solvent) = ensure_pool-ok d a checks in
      let (sa, sb) = ensure_solvent-ok _ _ _ solvent in
      let quoted = map_err-ok _ _ quote in
      let r = quote_remove_liquidity-IsRemove _ _ _ _ quoted in
      let (pa, pb) = quote_remove_liquidity-reserves_pos _ _ _ _ quoted in
      let ((_, has_a, has_b, _), (_, _, has_lp), _, _) = context-raw rt d s ea in
      let paid =
        remove_transfers-ArePaidOut rt laws issue d a lp_amount q s.ledger
          (liquidity_context-AreSix rt d s ea checks three) el in
      let (same, (m, has_m, sum)) = remove_transfers-keeps d a lp_amount q s.ledger has_lp el in
      let (va, fa) = still_there s.ledger l d.shared.vault_a (same d.shared.vault_a) has_a in
      let (vb, fb) = still_there s.ledger l d.shared.vault_b (same d.shared.vault_b) has_b in
      let covers_a : q.new_reserve_a ≤ va.amount = omega (
        arith,
        sa,
        r.reserve_a,
        paid.vault_a,
        amount_of_some l _ va fa,
        amount_of_some s.ledger _ _ has_a,
      ) in
      let covers_b : q.new_reserve_b ≤ vb.amount = omega (
        arith,
        sb,
        r.reserve_b,
        paid.vault_b,
        amount_of_some l _ vb fb,
        amount_of_some s.ledger _ _ has_b,
      ) in
      let (done, settled) =
        settle_succeeds d a lp_amount q l s va vb m fa fb has_m (omega (arith, sum, r.supply))
          (ok-ensure_solvent (pool_left a.shared.pool q) va.amount vb.amount covers_a covers_b)
          (ok-ensure_seeded (pool_left a.shared.pool q) q.new_lp_supply a.locked_lp.amount pa pb
            locked_min covered) in
      (done, rw (ea, eq, el) settled)
