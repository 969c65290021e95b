-- ===== src/Tests/Token.antt =====
-- A small Token-2022 that keeps the laws the AMM relies on, and the addresses of the runs.
use solana_stablecoin_amm.Base.{
  ℕ, ◌+◌, ◌*◌, ◌-◌, ◌≡◌, ◌≢◌, arith, Bool, true, false, not, ◌&&◌, ◌||◌, sym, ◌∙◌, Option, some,
  none, List, [], ◌∷◌, leb, ◌==◌, if◌then◌else◌, Result, ok, err,
}
use solana_stablecoin_amm.Chain.{
  Pubkey, TokenAccount, Ledger, Seed, text, key, bump, Runtime, amount_at, update,
}
use solana_stablecoin_amm.Chain.Addresses.{AddressLaws}
use solana_stablecoin_amm.Amm.{pool_seed}
use solana_stablecoin_amm.Tests.System.{
  create_account, transfer_lamports, allocate, assign, initialize_account3, initialize_mint2,
}
use solana_stablecoin_amm.Chain.Laws.{TransferLaws, identity}

abbrev pub credited : TokenAccount → ℕ → TokenAccount
credited a n = record a { amount = a.amount + n }

abbrev pub debited : TokenAccount → ℕ → TokenAccount
debited a n = record a { amount = a.amount - n }

unfoldable pub transfer : (from mint to authority amount decimals : ℕ) → Ledger → Result ℕ Ledger
transfer from mint to authority amount decimals l = elim (l.accounts from) [
  | none ↦ err 0
  | some a ↦ elim (l.accounts to) [
    | none ↦ err 0
    | some b ↦
        if leb amount a.amount && not (from == to)
        then ok (record l {
          accounts =
              update (update l.accounts from (some (debited a amount))) to
                (some (credited b amount));
        })
        else err 1
  ]
]

unfoldable pub mint_to : (mint to authority amount decimals : ℕ) → Ledger → Result ℕ Ledger
mint_to mint to authority amount decimals l = elim (l.accounts to) [
  | none ↦ err 0
  | some a ↦ elim (l.mints mint) [
    | none ↦ err 0
    | some m ↦ ok (record l {
      accounts = update l.accounts to (some (credited a amount));
      mints = update l.mints mint (some (record m { supply = m.supply + amount }));
    })
  ]
]

unfoldable pub burn : (mint from authority amount decimals : ℕ) → Ledger → Result ℕ Ledger
burn mint from authority amount decimals l = elim (l.accounts from) [
  | none ↦ err 0
  | some a ↦ elim (l.mints mint) [
    | none ↦ err 0
    | some m ↦
        if leb amount a.amount && leb amount m.supply
        then ok (record l {
          accounts = update l.accounts from (some (debited a amount));
          mints = update l.mints mint (some (record m { supply = m.supply - amount }));
        })
        else err 1
  ]
]

unfoldable pub set_frozen : Bool → (account mint authority : Pubkey) → Ledger → Result ℕ Ledger
set_frozen frozen account mint authority l = elim (l.accounts account) [
  | none ↦ err 0
  | some a ↦
      ok
        (record l { accounts = update l.accounts account (some (record a { is_frozen = frozen })) })
]

unfoldable pub set_paused : Bool → (mint authority : Pubkey) → Ledger → Result ℕ Ledger
set_paused paused mint authority l = elim (l.mints mint) [
  | none ↦ err 0
  | some m ↦
      ok (record l { mints = update l.mints mint (some (record m { paused = some paused })) })
]

-- Addresses that tell the seeds of the runs apart.
abbrev pub address : List Seed → Pubkey → Option Pubkey
address (text t ∷ key a ∷ bump b ∷ []) program = some (1_000 + 100 * program + a)
address (text t ∷ key a ∷ key b ∷ bump c ∷ []) program =
    some (10_000 + 1_000 * program + 10 * a + b)
address _ program = none

abbrev pub tag : List ℕ → ℕ
tag (a ∷ b ∷ c ∷ d ∷ e ∷ f ∷ g ∷ []) = 7_000_000
tag (a ∷ b ∷ c ∷ d ∷ e ∷ f ∷ g ∷ h ∷ i ∷ []) = 9_000_000
tag _ = 0

abbrev pub mint_of : List ℕ → Pubkey
mint_of (a ∷ u) = if a == b'A' then 10 else if a == b'B' then 11 else 13
mint_of [] = 13

abbrev candidate : List Seed → Pubkey → Option (Pubkey × ℕ)
candidate (text t ∷ key a ∷ []) program = some (tag t + 1_000 + 100 * program + a, 255)
candidate (text t ∷ text u ∷ []) program = some (mint_of u, 254)
candidate (text t ∷ key a ∷ key b ∷ []) program = some (10_000 + 1_000 * program + 10 * a + b, 255)
candidate _ program = none

-- The AMM has the addresses of one pool, and the stablecoin program has all others.
abbrev home : Pubkey → Pubkey
home k =
    if k == 11_111 || k == 122_120 || k == 122_121 || k == 7_012_211 || k == 9_012_211 then 1 else 2

abbrev at_home : Pubkey → Option (Pubkey × ℕ) → Option (Pubkey × ℕ)
at_home program none = none
at_home program (some (k, b)) = if home k == program then some (k, b) else none

abbrev pub canonical : List Seed → Pubkey → Option (Pubkey × ℕ)
canonical seeds program = at_home program (candidate seeds program)

abbrev pub rt : Runtime
rt = record {
  amm_id = 1;
  stablecoin_id = 2;
  create_program_address = address;
  find_program_address = canonical;
  unix_timestamp = 1_700_000_000;
  transfer_checked = transfer;
  mint_to_checked = mint_to;
  burn_checked = burn;
  freeze_account = set_frozen true;
  thaw_account = set_frozen false;
  pausable_pause = set_paused true;
  pausable_resume = set_paused false;
  system_id = 0;
  token_id = 3;
  minimum_balance = λ space. 10 * space;
  is_exempt = λ lamports data_len. leb (10 * data_len) lamports;
  create_account = create_account;
  transfer_lamports = transfer_lamports;
  allocate = allocate;
  assign = assign;
  initialize_account3 = initialize_account3;
  initialize_mint2 = initialize_mint2;
  pausable_initialize = λ mint authority l. ok l;
  default_account_state_initialize = λ mint frozen l. ok l;
  metadata_pointer_initialize = λ mint authority metadata l. ok l;
  token_metadata_initialize = λ mint update_authority mint_authority name symbol uri l. ok l;
  required_init_account_extensions = λ extensions. [];
  account_len = λ extensions. ok 165;
  mint_len = λ extensions. ok 234;
  optional_non_zero = λ k. if k == 0 then err 2 else ok tt;
  metadata_len = λ name symbol uri. ok 100;
}

transfer-moves :
    (from mint to authority amount decimals : ℕ) (l : Ledger) {l' : Ledger}
    → transfer from mint to authority amount decimals l ≡ ok l'
    → from ≢ to
    → (amount_at l' from + amount ≡ amount_at l from) × (amount_at l' to ≡ amount_at l to + amount)
unfolding transfer
transfer-moves from mint to authority amount decimals l h ne = ground arith

transfer-others :
    (from mint to authority amount decimals : ℕ) (l : Ledger) {l' : Ledger}
    → transfer from mint to authority amount decimals l ≡ ok l'
    → (k : Pubkey) → k ≢ from
    → k ≢ to
    → amount_at l' k ≡ amount_at l k
unfolding transfer
transfer-others from mint to authority amount decimals l h k nf nt = ground arith

transfer-identities :
    (from mint to authority amount decimals : ℕ) (l : Ledger) {l' : Ledger}
    → transfer from mint to authority amount decimals l ≡ ok l'
    → (k : Pubkey) → identity (l'.accounts k) ≡ identity (l.accounts k)
unfolding transfer
transfer-identities from mint to authority amount decimals l h k = ground arith

transfer-mints :
    (from mint to authority amount decimals : ℕ) (l : Ledger) {l' : Ledger}
    → transfer from mint to authority amount decimals l ≡ ok l'
    → (k : Pubkey) → l'.mints k ≡ l.mints k
unfolding transfer
transfer-mints from mint to authority amount decimals l h k = ground arith

pub laws : TransferLaws rt
laws = record {
  moves = λ from mint to authority amount decimals {l} h.
      transfer-moves from mint to authority amount decimals l h;
  others = λ from mint to authority amount decimals {l} h.
      transfer-others from mint to authority amount decimals l h;
  identities = λ from mint to authority amount decimals {l} h.
      transfer-identities from mint to authority amount decimals l h;
  mints = λ from mint to authority amount decimals {l} h.
      transfer-mints from mint to authority amount decimals l h;
}

at_home-home :
    (program : Pubkey) (r : Option (Pubkey × ℕ)) (k b : ℕ)
    → at_home program r ≡ some (k, b)
    → (home k ≡ program) × (r ≡ some (k, b))
at_home-home program (some (j, c)) k b h = ground arith
at_home-home program none k b h = absurd (cc)

one_program :
    (seeds seeds' : List Seed) (program program' k b b' : ℕ)
    → canonical seeds program ≡ some (k, b)
    → canonical seeds' program' ≡ some (k, b')
    → program ≡ program'
one_program seeds seeds' program program' k b b' h h' =
    let (here, _) = at_home-home program (candidate seeds program) k b h in
    let (there, _) = at_home-home program' (candidate seeds' program') k b' h' in sym here ∙ there

one_key :
    (t : List ℕ) (a a' program k b b' : ℕ)
    → canonical (text t ∷ key a ∷ []) program ≡ some (k, b)
    → canonical (text t ∷ key a' ∷ []) program ≡ some (k, b')
    → a ≡ a'
one_key t a a' program k b b' h h' =
    let (_, here) = at_home-home program (candidate (text t ∷ key a ∷ []) program) k b h in
    let (_, there) = at_home-home program (candidate (text t ∷ key a' ∷ []) program) k b' h' in
    ground arith

-- The user, 5, is no pool.
pub pool_address_apart :
    (a b bump' : ℕ) → canonical (text pool_seed ∷ key a ∷ key b ∷ []) 1 ≢ some (5, bump')
pool_address_apart a b bump' h =
    let (_, here) = at_home-home 1 (candidate (text pool_seed ∷ key a ∷ key b ∷ []) 1) 5 bump' h in
    absurd (ground arith)

pub addresses : AddressLaws rt
addresses = record { programs_differ = ground arith; one_program = one_program; one_key = one_key }
