-- ===== src/Amm/Swap/Transfers.antt =====
-- The balances after the two transfers of a swap.
use solana_stablecoin_amm.Base.{ℕ, ◌+◌, ◌≡◌, ◌≢◌, arith, sym, ◌∙◌, ok, >>=-eq-ok, map_err-ok}
use solana_stablecoin_amm.Chain.{Pubkey, Runtime, Ledger, amount_at}
use solana_stablecoin_amm.Chain.Laws.{TransferLaws, identity}
use solana_stablecoin_amm.State.{SwapDirection, a_to_b, b_to_a}
use solana_stablecoin_amm.Amm.{PoolAccounts}
use solana_stablecoin_amm.Amm.Context.{AreApart}
use solana_stablecoin_amm.Amm.Swap.{Route, route, swap_transfers}

-- The four accounts of a route are different ones.
record IsRoute (r : Route) : Type 0 where
  pay : r.source ≢ r.vault_in
  pull : r.vault_out ≢ r.destination
  vaults : r.vault_in ≢ r.vault_out
  ends : r.source ≢ r.destination
  into_out : r.source ≢ r.vault_out
  out_of_in : r.destination ≢ r.vault_in

route-IsRoute :
    (direction : SwapDirection) (c : PoolAccounts) → AreApart c → IsRoute (route direction c)
route-IsRoute a_to_b c h = record {
  pay = h.a_in;
  pull = λ e. h.b_in (sym e);
  vaults = h.vaults;
  ends = h.users;
  into_out = h.a_cross;
  out_of_in = h.b_cross;
}
route-IsRoute b_to_a c h = record {
  pay = h.b_in;
  pull = λ e. h.a_in (sym e);
  vaults = λ e. h.vaults (sym e);
  ends = λ e. h.users (sym e);
  into_out = h.b_cross;
  out_of_in = h.a_cross;
}

-- What the transfers of `amount_in` and `amount_out` along a route change, and nothing else.
pub record AreMoved (r : Route) (amount_in amount_out : ℕ) (l l' : Ledger) : Type 0 where
  pub source : amount_at l' r.source + amount_in ≡ amount_at l r.source
  pub vault_in : amount_at l' r.vault_in ≡ amount_at l r.vault_in + amount_in
  pub vault_out : amount_at l' r.vault_out + amount_out ≡ amount_at l r.vault_out
  pub destination : amount_at l' r.destination ≡ amount_at l r.destination + amount_out
  pub others :
      (k : Pubkey)
      → k ≢ r.source
      → k ≢ r.vault_in
      → k ≢ r.vault_out
      → k ≢ r.destination
      → amount_at l' k ≡ amount_at l k
  pub identities : (k : Pubkey) → identity (l'.accounts k) ≡ identity (l.accounts k)
  pub mints : (k : Pubkey) → l'.mints k ≡ l.mints k

module _ (rt : Runtime) (laws : TransferLaws rt) where
  two_transfers-AreMoved :
      (r : Route) (user pool amount_in amount_out decimals : ℕ) {l paid l' : Ledger}
      → IsRoute r
      → rt.transfer_checked r.source r.source_mint r.vault_in user amount_in decimals l ≡ ok paid
      → rt.transfer_checked r.vault_out r.destination_mint r.destination pool amount_out decimals
          paid
        ≡ ok l'
      → AreMoved r amount_in amount_out l l'
  two_transfers-AreMoved r user pool amount_in amount_out decimals {l} {paid} {l'} apart first
        second =
      let (out_1, in_1) = laws.moves _ _ _ _ _ _ first apart.pay in
      let (out_2, in_2) = laws.moves _ _ _ _ _ _ second apart.pull in
      let stay_1 = laws.others _ _ _ _ _ _ first in
      let stay_2 = laws.others _ _ _ _ _ _ second in
      record {
        source = omega (arith, stay_2 r.source apart.into_out apart.ends);
        vault_in = stay_2 r.vault_in apart.vaults (λ e. apart.out_of_in (sym e)) ∙ in_1;
        vault_out =
            omega
              (arith, stay_1 r.vault_out (λ e. apart.into_out (sym e)) (λ e. apart.vaults (sym e)));
        destination = omega (arith, stay_1 r.destination (λ e. apart.ends (sym e)) apart.out_of_in);
        others = λ k ns ni no nd. stay_2 k no nd ∙ stay_1 k ns ni;
        identities =
            λ k. laws.identities _ _ _ _ _ _ second k ∙ laws.identities _ _ _ _ _ _ first k;
        mints = λ k. laws.mints _ _ _ _ _ _ second k ∙ laws.mints _ _ _ _ _ _ first k;
      }

  pub swap_transfers-AreMoved :
      (c : PoolAccounts) (decimals : ℕ) (direction : SwapDirection) (amount_in amount_out : ℕ)
      {l l' : Ledger}
      → AreApart c
      → swap_transfers rt c decimals direction amount_in amount_out l ≡ ok l'
      → AreMoved (route direction c) amount_in amount_out l l'
  unfolding swap_transfers
  swap_transfers-AreMoved c decimals direction amount_in amount_out {l} apart h =
      let (paid, first, second) = >>=-eq-ok _ _ h in
      two_transfers-AreMoved (route direction c) c.user c.pool amount_in amount_out decimals
        (route-IsRoute direction c apart) (map_err-ok _ _ first) (map_err-ok _ _ second)
