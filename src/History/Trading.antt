-- ===== src/History/Trading.antt =====
-- Deposits and withdrawals on the chains that a history of both programs reaches.
use solana_stablecoin_amm.Base.{ℕ, ◌≡◌, sym, arith, some, ok}
use solana_stablecoin_amm.Math.{RemoveLiquidityQuote, quote_remove_liquidity}
use solana_stablecoin_amm.Chain.{Pubkey, Runtime, amount_at, supply_at}
use solana_stablecoin_amm.Chain.Addresses.{AddressLaws}
use solana_stablecoin_amm.Chain.Laws.{TransferLaws, IssueLaws}
use solana_stablecoin_amm.State.{Pool, Chain}
use solana_stablecoin_amm.Amm.Liquidity.{LiquidityAccounts, LiquidityRemoved, remove_liquidity}
use solana_stablecoin_amm.Amm.Liquidity.Accounts.{IsOfThree}
use solana_stablecoin_amm.Amm.Liquidity.Effects.{remove_liquidity-IsWithdrawn}
use solana_stablecoin_amm.Amm.Liquidity.Payments.{ArePaidOut, remove_liquidity-ArePaidOut}
use solana_stablecoin_amm.Amm.Deposit.{DepositAmounts, LiquidityAdded, add_liquidity}
use solana_stablecoin_amm.Amm.Deposit.Checks.{IsPlanned}
use solana_stablecoin_amm.Amm.Deposit.Effects.{add_liquidity-IsDeposited}
use solana_stablecoin_amm.Amm.Deposit.Payments.{ArePaidIn, add_liquidity-ArePaidIn}
use solana_stablecoin_amm.History.{Reach}
use solana_stablecoin_amm.History.Sound.{IsSound}
use solana_stablecoin_amm.History.Mints.{IsPoolMint, coin_is_no_pool_mint}
use solana_stablecoin_amm.History.Reachable.{IsFresh, IsFresh-IsSound, Reach-IsSound}

-- Every stored pool is of three mints: its two coins and its tokens.
IsSound-IsOfThree :
    (rt : Runtime) (addresses : AddressLaws rt) (s : Chain) (k : Pubkey) (pool : Pool)
    → IsSound rt s
    → s.pools k ≡ some pool
    → IsOfThree pool
IsSound-IsOfThree rt addresses s k pool sound stored =
    let h = sound.pools k pool stored in
    let apart = coin_is_no_pool_mint rt addresses k in
    let lp : IsPoolMint rt k pool.lp_mint = (pool.lp_mint_bump, h.lp_mint) in
    let ordered = h.ordered in
    record {
      mints = omega (arith, ordered);
      lp_a = λ e. apart pool.mint_a pool.lp_mint h.coin_a lp (sym e);
      lp_b = λ e. apart pool.mint_b pool.lp_mint h.coin_b lp (sym e);
    }

module _ (rt : Runtime) (laws : TransferLaws rt) (issue : IssueLaws rt) (addresses : AddressLaws rt)
    (fresh s : Chain) where
  -- On every chain that a history reaches from one where no pool, configuration or role is
  -- stored, a `remove_liquidity` that succeeds took exactly the given pool tokens from the user
  -- and paid exactly the two amounts of the quote, at the stored reserves and the live supply,
  -- from the vaults to the user; no other balance changed. The calls keep their documented
  -- effects, no address is found for both programs, and none for two keys.
  pub reachable-remove_liquidity :
      (d : LiquidityAccounts) (lp_amount min_a_out min_b_out : ℕ) {s' : Chain}
      {event : LiquidityRemoved}
      → IsFresh fresh
      → Reach rt fresh s
      → remove_liquidity rt d lp_amount min_a_out min_b_out s ≡ ok (s', event)
      → (pool : Pool) × (q : RemoveLiquidityQuote) × (s.pools d.shared.pool ≡ some pool)
        × (quote_remove_liquidity lp_amount pool.reserve_a pool.reserve_b
              (supply_at s.ledger d.shared.lp_mint)
            ≡ ok q)
        × ArePaidOut d lp_amount q.amount_a q.amount_b s.ledger s'.ledger
  reachable-remove_liquidity d lp_amount min_a_out min_b_out start history e =
      let sound = Reach-IsSound rt fresh s history (IsFresh-IsSound rt fresh start) in
      let (pool, _, _, stored, _) =
        remove_liquidity-IsWithdrawn rt d lp_amount min_a_out min_b_out s e in
      let three = IsSound-IsOfThree rt addresses s d.shared.pool pool sound stored in
      let (q, quote, paid) =
        remove_liquidity-ArePaidOut rt laws issue d lp_amount min_a_out min_b_out pool s stored
          three e in
      (pool, q, stored, quote, paid)

  -- On every chain that a history reaches from one where no pool, configuration or role is
  -- stored, an `add_liquidity` that succeeds moved exactly the two planned amounts from the user
  -- to the vaults and minted exactly the planned pool tokens to the user and to the locked
  -- account; no other balance changed. The calls keep their documented effects, no address is
  -- found for both programs, and none for two keys.
  pub reachable-add_liquidity :
      (d : LiquidityAccounts) (x y min_a min_b min_lp : ℕ) {s' : Chain} {event : LiquidityAdded}
      → IsFresh fresh
      → Reach rt fresh s
      → add_liquidity rt d x y min_a min_b min_lp s ≡ ok (s', event)
      → (pool : Pool) × (q : DepositAmounts) × (s.pools d.shared.pool ≡ some pool)
        × IsPlanned pool
            (supply_at s.ledger d.shared.lp_mint)
            (amount_at s.ledger d.locked_lp)
            x
            y
            q
        × ArePaidIn d q s.ledger s'.ledger
  reachable-add_liquidity d x y min_a min_b min_lp start history e =
      let sound = Reach-IsSound rt fresh s history (IsFresh-IsSound rt fresh start) in
      let (pool, _, stored, _) = add_liquidity-IsDeposited rt d x y min_a min_b min_lp s e in
      let three = IsSound-IsOfThree rt addresses s d.shared.pool pool sound stored in
      let (q, planned, paid) =
        add_liquidity-ArePaidIn rt laws issue d x y min_a min_b min_lp pool s stored three e in
      (pool, q, stored, planned, paid)
