-- ===== src/Stablecoin/Compliance/Effects.antt =====
-- What `set_pause` and `set_wallet_policy` can change, and that the stored state agrees with
-- Token-2022's.
use solana_stablecoin_amm.Base.{
  ℕ, [], ◌∷◌, ◌≡◌, ◌⊎◌, arith, Bool, true, false, not, some, ok, ◌>>=◌, >>=-eq-ok,
}
use solana_stablecoin_amm.Chain.{Pubkey, TokenAccount, Ledger, text, key, Runtime, update}
use solana_stablecoin_amm.State.{
  MintConfig, PolicyStatus, allowed, blocked, is_blocked, WalletPolicy, Chain,
}
use solana_stablecoin_amm.Stablecoin.{policy_seed, check_config, pausable_is_paused, pausable_set}
use solana_stablecoin_amm.Stablecoin.Issuance.Tracked.{check_config-ok}
use solana_stablecoin_amm.Stablecoin.Compliance.{
  pause_checks, pause_settle, policy_settle, SetPauseAccounts, PauseChanged, set_pause_context,
  set_pause, SetWalletPolicyAccounts, WalletPolicyChanged, is_frozen, init_policy, policy_context,
  enforce, set_wallet_policy,
}

set_pause_context-ok :
    (rt : Runtime) (c : SetPauseAccounts) (s : Chain) {config : MintConfig}
    → set_pause_context rt c s ≡ ok config
    → (s.configs c.config ≡ some config)
      × (check_config rt c.mint c.config config ≡ ok tt)
      × ((config.admin ≡ c.authority) ⊎ (config.compliance_authority ≡ c.authority))
unfolding set_pause_context
set_pause_context-ok rt c s h = ground arith

pause_checks-ok :
    (c : SetPauseAccounts) (config : MintConfig) (paused : Bool) (l : Ledger)
    → pause_checks c config paused l ≡ ok tt
    → (pausable_is_paused l c.mint ≡ ok config.paused) × (config.paused ≡ not paused)
unfolding pause_checks
pause_checks-ok c config true l h = ground arith
pause_checks-ok c config false l h = ground arith

pause_settle-ok :
    (c : SetPauseAccounts) (config : MintConfig) (paused : Bool) (ledger : Ledger) (s : Chain)
    {s' : Chain} {event : PauseChanged}
    → pause_settle c config paused ledger s ≡ ok (s', event)
    → (pausable_is_paused ledger c.mint ≡ ok paused)
      × (s' ≡ record s {
        ledger = ledger;
        configs = update s.configs c.config (some (record config { paused = paused }));
      })
unfolding pause_settle
pause_settle-ok c config true ledger s h = ground arith
pause_settle-ok c config false ledger s h = ground arith

set_pause-stages :
    (rt : Runtime) (c : SetPauseAccounts) (paused : Bool) (s : Chain) {done : Chain × PauseChanged}
    → set_pause rt c paused s ≡ ok done
    → (config : MintConfig) × (ledger : Ledger) × (set_pause_context rt c s ≡ ok config)
      × (pause_checks c config paused s.ledger ≡ ok tt)
      × (pause_settle c config paused ledger s ≡ ok done)
unfolding set_pause
set_pause-stages rt c paused s h =
    let (config, ec, rest) = >>=-eq-ok _ _ h in
    let set = pausable_set rt c.mint c.config paused s.ledger in
    let settle = λ (l : Ledger). pause_settle c config paused l s in
    let (_, checked, last) =
      >>=-eq-ok (pause_checks c config paused s.ledger) (λ _. set >>= settle) rest in
    let (ledger, _, settled) = >>=-eq-ok set settle last in (config, ledger, ec, checked, settled)

-- A `set_pause` that succeeds was signed by the administrator or the compliance authority of the
-- stored configuration of the mint that it names, and switched the stored flag to the requested
-- one from its opposite. Before and after it, the stored flag is the one that the mint's
-- extension has. Of what the program stores, only the flag of that configuration changed.
pub set_pause-IsSwitched :
    (rt : Runtime) (c : SetPauseAccounts) (paused : Bool) (s : Chain) {s' : Chain}
    {event : PauseChanged}
    → set_pause rt c paused s ≡ ok (s', event)
    → (config : MintConfig) × (ledger : Ledger) × (s.configs c.config ≡ some config)
      × ((config.mint ≡ c.mint)
          × ((config.admin ≡ c.authority) ⊎ (config.compliance_authority ≡ c.authority)))
      × (config.paused ≡ not paused)
      × (pausable_is_paused s.ledger c.mint ≡ ok config.paused)
      × (pausable_is_paused s'.ledger c.mint ≡ ok paused)
      × (s' ≡ record s {
        ledger = ledger;
        configs = update s.configs c.config (some (record config { paused = paused }));
      })
set_pause-IsSwitched rt c paused s h =
    let (config, ledger, context, checked, settled) = set_pause-stages rt c paused s h in
    let (stored, tied, signed) = set_pause_context-ok rt c s context in
    let of_mint = check_config-ok rt c.mint c.config config tied in
    let (before, switched) = pause_checks-ok c config paused s.ledger checked in
    let (after, same) = pause_settle-ok c config paused ledger s settled in
    (config, ledger, stored, (of_mint, signed), switched, before, rw same after, same)

policy_context-ok :
    (rt : Runtime) (c : SetWalletPolicyAccounts) (s : Chain) {account : TokenAccount} {found : ℕ}
    → policy_context rt c s ≡ ok (account, found)
    → (s.ledger.accounts c.token_account ≡ some account)
      × (account.mint ≡ c.mint)
      × ((config : MintConfig) × (s.configs c.config ≡ some config)
          × (check_config rt c.mint c.config config ≡ ok tt)
          × (config.compliance_authority ≡ c.compliance_authority))
      × (init_policy rt c ≡ ok found)
unfolding policy_context
policy_context-ok rt c s h = ground arith

init_policy-ok :
    (rt : Runtime) (c : SetWalletPolicyAccounts) {found : ℕ}
    → init_policy rt c ≡ ok found
    → rt.find_program_address
        (text policy_seed ∷ key c.mint ∷ key c.token_account ∷ [])
        rt.stablecoin_id
      ≡ some (c.wallet_policy, found)
unfolding init_policy
init_policy-ok rt c h = ground arith

-- The policy that the instruction stores.
abbrev pub stored_policy :
    Runtime → SetWalletPolicyAccounts → PolicyStatus → Pubkey → ℕ → WalletPolicy
stored_policy rt c status owner found = record {
  mint = c.mint;
  token_account = c.token_account;
  owner = owner;
  status = status;
  updated_at = rt.unix_timestamp;
  updated_by = c.compliance_authority;
  bump = found;
}

policy_settle-ok :
    (rt : Runtime) (c : SetWalletPolicyAccounts) (status : PolicyStatus) (account : TokenAccount)
    (found : ℕ) (ledger : Ledger) (s : Chain) {s' : Chain} {event : WalletPolicyChanged}
    → policy_settle rt c status account found ledger s ≡ ok (s', event)
    → (is_frozen ledger c.token_account ≡ ok (is_blocked status))
      × (s' ≡ record s {
        ledger = ledger;
        policies =
            update s.policies c.wallet_policy
              (some (stored_policy rt c status account.owner found));
      })
unfolding policy_settle
policy_settle-ok rt c allowed account found ledger s h = ground arith
policy_settle-ok rt c blocked account found ledger s h = ground arith

set_wallet_policy-stages :
    (rt : Runtime) (c : SetWalletPolicyAccounts) (status : PolicyStatus) (s : Chain)
    {done : Chain × WalletPolicyChanged}
    → set_wallet_policy rt c status s ≡ ok done
    → (checked : TokenAccount × ℕ) × (ledger : Ledger) × (policy_context rt c s ≡ ok checked)
      × (enforce rt c status s.ledger ≡ ok ledger)
      × (policy_settle rt c status checked.0 checked.1 ledger s ≡ ok done)
unfolding set_wallet_policy
set_wallet_policy-stages rt c status s h =
    let (checked, context, rest) = >>=-eq-ok _ _ h in
    let (ledger, enforced, settled) =
      >>=-eq-ok (enforce rt c status s.ledger)
        (λ l. policy_settle rt c status checked.0 checked.1 l s) rest in
    (checked, ledger, context, enforced, settled)

-- A `set_wallet_policy` that succeeds was signed by the compliance authority of the stored
-- configuration of the mint that it names, for a token account of that mint, and at the canonical
-- address for the mint and the account. Afterwards the account is frozen exactly when the stored
-- policy blocks it, and of what the program stores only the policy at its address changed.
pub set_wallet_policy-IsEnforced :
    (rt : Runtime) (c : SetWalletPolicyAccounts) (status : PolicyStatus) (s : Chain) {s' : Chain}
    {event : WalletPolicyChanged}
    → set_wallet_policy rt c status s ≡ ok (s', event)
    → (account : TokenAccount) × (found : ℕ) × (ledger : Ledger) × (((config : MintConfig)
          × (s.configs c.config ≡ some config)
          × (config.mint ≡ c.mint)
          × (config.compliance_authority ≡ c.compliance_authority))
        × (rt.find_program_address
              (text policy_seed ∷ key c.mint ∷ key c.token_account ∷ [])
              rt.stablecoin_id
            ≡ some (c.wallet_policy, found)))
      × (s.ledger.accounts c.token_account ≡ some account)
      × (account.mint ≡ c.mint)
      × (is_frozen s'.ledger c.token_account ≡ ok (is_blocked status))
      × (s' ≡ record s {
        ledger = ledger;
        policies =
            update s.policies c.wallet_policy
              (some (stored_policy rt c status account.owner found));
      })
set_wallet_policy-IsEnforced rt c status s {s'} h =
    let ((account, found), ledger, context, enforced, settled) =
      set_wallet_policy-stages rt c status s h in
    let (stored, of_mint, (config, found_config, tied, signed), address) =
      policy_context-ok rt c s context in
    let (after, same) = policy_settle-ok rt c status account found ledger s settled in
    (
      account,
      found,
      ledger,
      (
        (config, found_config, check_config-ok rt c.mint c.config config tied, signed),
        init_policy-ok rt c address,
      ),
      stored,
      of_mint,
      rw same after,
      same,
    )
