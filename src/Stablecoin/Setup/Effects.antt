-- ===== src/Stablecoin/Setup/Effects.antt =====
-- What an `initialize_stablecoin` that succeeds has done.
use solana_stablecoin_amm.Base.{
  ℕ, ◌<◌, ◌≤◌, ◌≡◌, ◌≢◌, true, false, none, some, List, [], ◌∷◌, ok, arith, sym, ap, ◌∙◌, >>=-eq-ok,
}
use solana_stablecoin_amm.Math.{max_supply_cap}
use solana_stablecoin_amm.Chain.{Pubkey, Ledger, Seed, text, key, Runtime, update}
use solana_stablecoin_amm.Chain.Addresses.{IsCanonical, canonical-IsCanonical}
use solana_stablecoin_amm.Chain.System.{canonical}
use solana_stablecoin_amm.Chain.System.Laws.{SystemLaws, IsProvisioned, provision-IsProvisioned}
use solana_stablecoin_amm.State.{Chain}
use solana_stablecoin_amm.Stablecoin.{
  StablecoinError, math_overflow, mint_account_in_use, config_seed,
}
use solana_stablecoin_amm.Stablecoin.Symbol.{is_empty, normalize_symbol}
use solana_stablecoin_amm.Stablecoin.Setup.{
  InitializeStablecoinAccounts, InitializeStablecoinArgs, StablecoinInitialized, mint_seed,
  stablecoin_decimals, max_name_len, max_uri_len, length, setup_context, setup_checks,
  create_mint_account, build_mint, store_config, ensure_exempt, new_config, initialize_stablecoin,
}

setup_context-free :
    (rt : Runtime) (c : InitializeStablecoinAccounts) (symbol : List ℕ) (s : Chain) {bumps : ℕ × ℕ}
    → setup_context rt c symbol s ≡ ok bumps
    → s.configs c.config ≡ none
unfolding setup_context
setup_context-free rt c symbol s h = ground arith

-- The canonical addresses of the configuration and of the mint.
pub record IsLocated (rt : Runtime) (c : InitializeStablecoinAccounts) (symbol : List ℕ)
    (mint_bump config_bump : ℕ) : Type 0 where
  pub config :
      IsCanonical rt (text config_seed ∷ key c.mint ∷ []) rt.stablecoin_id c.config config_bump
  pub mint : IsCanonical rt (text mint_seed ∷ text symbol ∷ []) rt.stablecoin_id c.mint mint_bump

setup_context-raw :
    (rt : Runtime) (c : InitializeStablecoinAccounts) (symbol : List ℕ) (s : Chain) {bumps : ℕ × ℕ}
    → setup_context rt c symbol s ≡ ok bumps
    → (canonical {E = StablecoinError} rt
          (text config_seed ∷ key c.mint ∷ [])
          rt.stablecoin_id
          c.config
        ≡ ok bumps.1)
      × (canonical {E = StablecoinError} rt
            (text mint_seed ∷ text symbol ∷ [])
            rt.stablecoin_id
            c.mint
          ≡ ok bumps.0)
unfolding setup_context
setup_context-raw rt c symbol s h = ground arith

setup_context-IsLocated :
    (rt : Runtime) (c : InitializeStablecoinAccounts) (symbol : List ℕ) (s : Chain) {bumps : ℕ × ℕ}
    → setup_context rt c symbol s ≡ ok bumps
    → IsLocated rt c symbol bumps.0 bumps.1
setup_context-IsLocated rt c symbol s h =
    let (config, mint) = setup_context-raw rt c symbol s h in
    record {
      config = canonical-IsCanonical rt _ _ _ config;
      mint = canonical-IsCanonical rt _ _ _ mint;
    }

-- What the arguments are when the checks have passed.
pub record IsIssuable (args : InitializeStablecoinArgs) (symbol_text : List ℕ) : Type 0 where
  pub decimals : args.decimals ≡ stablecoin_decimals
  pub cap_pos : 0 < args.supply_cap
  pub cap_bound : args.supply_cap ≤ max_supply_cap
  pub named : is_empty args.name ≡ false
  pub name_bound : length args.name ≤ max_name_len
  pub located : is_empty args.uri ≡ false
  pub uri_bound : length args.uri ≤ max_uri_len
  pub symbol : normalize_symbol args.symbol ≡ ok symbol_text

setup_checks-IsIssuable :
    (args : InitializeStablecoinArgs) {symbol_text : List ℕ}
    → setup_checks args ≡ ok symbol_text
    → IsIssuable args symbol_text
unfolding setup_checks
setup_checks-IsIssuable args h = ground arith

ensure_exempt-ok :
    (rt : Runtime) (mint : Pubkey) (l : Ledger)
    → ensure_exempt rt mint l ≡ ok tt
    → rt.is_exempt (l.infos mint).lamports (l.infos mint).data_len ≡ true
unfolding ensure_exempt
ensure_exempt-ok rt mint l h = ground arith

store_config-ok :
    (rt : Runtime) (c : InitializeStablecoinAccounts) (args : InitializeStablecoinArgs)
    (mint_bump config_bump : ℕ) (l : Ledger) (s : Chain) {s' : Chain}
    {event : StablecoinInitialized}
    → store_config rt c args mint_bump config_bump l s ≡ ok (s', event)
    → (ensure_exempt rt c.mint l ≡ ok tt)
      × (s' ≡ record s {
        ledger = l;
        configs = update s.configs c.config (some (new_config c args mint_bump config_bump));
      })
unfolding store_config
store_config-ok rt c args mint_bump config_bump l s h = ground arith

initialize_stablecoin-stages :
    (rt : Runtime) (c : InitializeStablecoinAccounts) (args : InitializeStablecoinArgs) (s : Chain)
    {done : Chain × StablecoinInitialized}
    → initialize_stablecoin rt c args s ≡ ok done
    → (bumps : ℕ × ℕ) × (symbol_text : List ℕ) × (l : Ledger) × (setup_context rt c args.symbol s
        ≡ ok bumps)
      × (setup_checks args ≡ ok symbol_text)
      × (build_mint rt c args symbol_text bumps.0 s.ledger ≡ ok l)
      × (store_config rt c args bumps.0 bumps.1 l s ≡ ok done)
unfolding initialize_stablecoin
initialize_stablecoin-stages rt c args s h =
    let (bumps, ctx, rest) = >>=-eq-ok _ _ h in
    let (symbol_text, checked, last) = >>=-eq-ok _ _ rest in
    let (l, built, stored) =
      >>=-eq-ok (build_mint rt c args symbol_text bumps.0 s.ledger)
        (λ l. store_config rt c args bumps.0 bumps.1 l s) last in
    (bumps, symbol_text, l, ctx, checked, built, stored)

-- What issuing a stablecoin has done to the chain.
pub record IsIssued (rt : Runtime) (c : InitializeStablecoinAccounts)
    (args : InitializeStablecoinArgs) (symbol_text : List ℕ) (mint_bump config_bump : ℕ)
    (s s' : Chain) : Type 0 where
  pub arguments : IsIssuable args symbol_text
  pub free : s.configs c.config ≡ none
  pub located : IsLocated rt c args.symbol mint_bump config_bump
  pub built : build_mint rt c args symbol_text mint_bump s.ledger ≡ ok s'.ledger
  pub exempt :
      rt.is_exempt (s'.ledger.infos c.mint).lamports (s'.ledger.infos c.mint).data_len ≡ true
  pub after : s' ≡ record s {
    ledger = s'.ledger;
    configs = update s.configs c.config (some (new_config c args mint_bump config_bump));
  }

-- An `initialize_stablecoin` that succeeds was for six decimals, a positive supply cap within the
-- largest one, a name and a URI that are not empty and within their bounds, a symbol that
-- `normalize_symbol` accepts, and an address that stored no configuration. Its mint is exempt
-- from rent in the ledger that it leaves, and of what the program stores only the new
-- configuration at its address changed, with the payer as administrator and compliance authority,
-- nothing minted or burned, and not paused.
pub initialize_stablecoin-IsIssued :
    (rt : Runtime) (c : InitializeStablecoinAccounts) (args : InitializeStablecoinArgs) (s : Chain)
    {s' : Chain} {event : StablecoinInitialized}
    → initialize_stablecoin rt c args s ≡ ok (s', event)
    → (symbol_text : List ℕ) × (mint_bump : ℕ) × (config_bump : ℕ) × IsIssued rt c args symbol_text
        mint_bump config_bump s s'
initialize_stablecoin-IsIssued rt c args s {s'} h =
    let (bumps, symbol_text, l, ctx, checked, built, stored) =
      initialize_stablecoin-stages rt c args s h in
    let (exempt, same) = store_config-ok rt c args bumps.0 bumps.1 l s stored in
    let ledger : s'.ledger ≡ l = ap (λ t. t.ledger) same in
    (
      symbol_text,
      bumps.0,
      bumps.1,
      record {
        arguments = setup_checks-IsIssuable args checked;
        free = setup_context-free rt c args.symbol s ctx;
        located = setup_context-IsLocated rt c args.symbol s ctx;
        built = rw ledger built;
        exempt = rw ledger (ensure_exempt-ok rt c.mint l exempt);
        after =
            same
            ∙ ap
                (λ (k : Ledger). record s {
                  ledger = k;
                  configs = update s.configs c.config (some (new_config c args bumps.0 bumps.1));
                })
                (sym ledger);
      },
    )

pub create_mint_account-IsProvisioned :
    (rt : Runtime) (payer mint rent_exempt space : ℕ) (seeds : List Seed) (l : Ledger) {l' : Ledger}
    → SystemLaws rt
    → payer ≢ mint
    → create_mint_account rt payer mint rent_exempt space seeds l ≡ ok l'
    → IsProvisioned rt.token_id rent_exempt space (l'.infos mint)
unfolding create_mint_account
create_mint_account-IsProvisioned rt payer mint rent_exempt space seeds l laws apart h =
    provision-IsProvisioned rt laws math_overflow mint_account_in_use payer mint apart rt.token_id
      rent_exempt space seeds l h
