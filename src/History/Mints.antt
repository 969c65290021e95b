-- ===== src/History/Mints.antt =====
-- The mints that the instructions of the two programs are about: coins of the stablecoin program, and
-- pool tokens of the AMM.
use solana_stablecoin_amm.Base.{◌≡◌, ◌≢◌, sym, ◌∙◌, some, ok, [], ◌∷◌, ℕ}
use solana_stablecoin_amm.Chain.{Pubkey, Runtime, text, key}
use solana_stablecoin_amm.Chain.Addresses.{IsCanonical, AddressLaws}
use solana_stablecoin_amm.State.{Pool, Chain, chain_after-ok}
use solana_stablecoin_amm.Stablecoin.Setup.Effects.{initialize_stablecoin-IsIssued}
use solana_stablecoin_amm.Stablecoin.Issuance.Minting.{mint_to-IsMinted}
use solana_stablecoin_amm.Stablecoin.Backing.{burn-of_mint}
use solana_stablecoin_amm.Stablecoin.Program as Issuer
use solana_stablecoin_amm.Amm.Setup.{lp_mint_seed}
use solana_stablecoin_amm.Amm.Setup.Effects.{initialize_pool-IsSetUp}
use solana_stablecoin_amm.Amm.Liquidity.Effects.{remove_liquidity-IsWithdrawn}
use solana_stablecoin_amm.Amm.Deposit.Effects.{add_liquidity-IsDeposited}
use solana_stablecoin_amm.Amm.Program as Market
use solana_stablecoin_amm.History.Sound.{IsCoin, IsSound, config-IsCoin}
use solana_stablecoin_amm.History.Calls.Issuer.{issued_mint}
use solana_stablecoin_amm.History.Calls.Market.{shared_mint}

-- The mint of the tokens of the pool at `k`.
abbrev pub IsPoolMint : Runtime → Pubkey → Pubkey → Type 0
IsPoolMint rt k mint =
    (mint_bump : ℕ) × IsCanonical rt (text lp_mint_seed ∷ key k ∷ []) rt.amm_id mint mint_bump

-- The pool that an instruction names.
abbrev pub named_pool : Market.Instruction → Pubkey
named_pool (Market.initialize_pool c fee_bps) = c.pool
named_pool (Market.add_liquidity d x y min_a min_b min_lp) = d.shared.pool
named_pool (Market.remove_liquidity d lp_amount min_a_out min_b_out) = d.shared.pool
named_pool (Market.swap c direction amount_in min_amount_out) = c.pool

module _ (rt : Runtime) (s : Chain) (sound : IsSound rt s) where
  pub issued_mint-IsCoin :
      (i : Issuer.Instruction) (mint : Pubkey) {s' : Chain}
      → Issuer.process rt i s ≡ ok s'
      → issued_mint i ≡ some mint
      → IsCoin rt mint
  unfolding Issuer.process
  issued_mint-IsCoin (Issuer.initialize_stablecoin c args) mint e same =
      let (_, mint_bump, _, i) =
        initialize_stablecoin-IsIssued rt c args s (chain_after-ok _ e).1 in
      let at : c.mint ≡ mint = cc in (args.symbol, mint_bump, rw at at i.located.mint)
  issued_mint-IsCoin (Issuer.mint_to c amount) mint e same =
      let (config, _, _, m) = mint_to-IsMinted rt c amount s (chain_after-ok _ e).1 in
      config-IsCoin rt s sound c.config mint (config, m.config_stored, m.config_mint ∙ cc)
  issued_mint-IsCoin (Issuer.burn c amount) mint e same =
      let (config, stored, of_mint) = burn-of_mint rt c amount s (chain_after-ok _ e).1 in
      config-IsCoin rt s sound c.config mint (config, stored, of_mint ∙ cc)
  issued_mint-IsCoin (Issuer.grant_minter c allowance) mint e same = absurd (cc)
  issued_mint-IsCoin (Issuer.revoke_minter c) mint e same = absurd (cc)
  issued_mint-IsCoin (Issuer.set_wallet_policy c status) mint e same = absurd (cc)
  issued_mint-IsCoin (Issuer.set_pause c paused) mint e same = absurd (cc)
  issued_mint-IsCoin (Issuer.update_config c cap authority nominee) mint e same = absurd (cc)
  issued_mint-IsCoin (Issuer.accept_admin signer config) mint e same = absurd (cc)

  stored-IsPoolMint :
      (k mint : Pubkey) (pool : Pool)
      → s.pools k ≡ some pool
      → pool.lp_mint ≡ mint
      → IsPoolMint rt k mint
  stored-IsPoolMint k mint pool stored same =
      (pool.lp_mint_bump, rw same at (sound.pools k pool stored).lp_mint)

  pub shared_mint-IsPoolMint :
      (i : Market.Instruction) (mint : Pubkey) {s' : Chain}
      → Market.process rt i s ≡ ok s'
      → shared_mint i ≡ some mint
      → IsPoolMint rt (named_pool i) mint
  unfolding Market.process
  shared_mint-IsPoolMint (Market.initialize_pool c fee_bps) mint e same =
      let (_, _, bumps, i) = initialize_pool-IsSetUp rt c fee_bps s (chain_after-ok _ e).1 in
      let at : c.lp_mint ≡ mint = cc in (bumps.lp_mint, rw at at i.located.lp_mint)
  shared_mint-IsPoolMint (Market.add_liquidity d x y min_a min_b min_lp) mint e same =
      let (pool, _, stored, done) =
        add_liquidity-IsDeposited rt d x y min_a min_b min_lp s (chain_after-ok _ e).1 in
      stored-IsPoolMint d.shared.pool mint pool stored (done.lp_mint ∙ cc)
  shared_mint-IsPoolMint (Market.remove_liquidity d lp_amount min_a_out min_b_out) mint e same =
      let (pool, _, _, stored, done) =
        remove_liquidity-IsWithdrawn rt d lp_amount min_a_out min_b_out s (chain_after-ok _ e).1 in
      stored-IsPoolMint d.shared.pool mint pool stored (done.lp_mint ∙ cc)
  shared_mint-IsPoolMint (Market.swap c direction amount_in min_amount_out) mint e same =
      absurd (cc)

module _ (rt : Runtime) (laws : AddressLaws rt) where
  -- No coin is a pool token.
  pub coin_is_no_pool_mint :
      (k mint other : Pubkey) → IsCoin rt mint → IsPoolMint rt k other → mint ≢ other
  coin_is_no_pool_mint k mint other (symbol, b, coin) (b', lp) same =
      laws.programs_differ (sym (laws.one_program _ _ _ _ other b b' (rw same at coin) lp))

  -- Two pools have two mints.
  pub pool_mints_differ :
      (j k mint other : Pubkey)
      → IsPoolMint rt j mint
      → IsPoolMint rt k other
      → j ≢ k
      → mint ≢ other
  pool_mints_differ j k mint other (b, lp) (b', lp') ne same =
      ne (laws.one_key lp_mint_seed j k rt.amm_id other b b' (rw same at lp) lp')
