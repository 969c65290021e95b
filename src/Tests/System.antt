-- ===== src/Tests/System.antt =====
-- A small system program that keeps the laws that creating accounts relies on, and the calls of
-- Token-2022 that set up mints and accounts.
use solana_stablecoin_amm.Base.{
  ℕ, ◌+◌, ◌-◌, Bool, true, false, ◌&&◌, Option, none, some, List, [], leb, ◌==◌, if◌then◌else◌,
  Result, ok, err,
}
use solana_stablecoin_amm.Chain.{Pubkey, AccountInfo, TokenAccount, Mint, Ledger, Seed, update}

abbrev pub put : (Pubkey → AccountInfo) → Pubkey → AccountInfo → Pubkey → AccountInfo
put f k v j = if j == k then v else f j

abbrev pub unused : Pubkey → AccountInfo
unused k = record { lamports = 0; owner = 0; data_len = 0 }

abbrev pub wallet : ℕ → AccountInfo
wallet lamports = record { lamports = lamports; owner = 0; data_len = 0 }

abbrev pub with_lamports : AccountInfo → ℕ → AccountInfo
with_lamports info n = record info { lamports = n }

unfoldable pub create_account :
    (from to lamports space owner : ℕ) → List Seed → Ledger → Result ℕ Ledger
create_account from to lamports space owner seeds l =
    if leb lamports (l.infos from).lamports && (l.infos to).lamports == 0
    then ok (record l {
      infos =
          put (put l.infos from (with_lamports (l.infos from) ((l.infos from).lamports - lamports)))
            to (record { lamports = lamports; owner = owner; data_len = space });
    })
    else err 0

unfoldable pub transfer_lamports : (from to lamports : ℕ) → Ledger → Result ℕ Ledger
transfer_lamports from to lamports l =
    if leb lamports (l.infos from).lamports
    then ok (record l {
      infos =
          put (put l.infos from (with_lamports (l.infos from) ((l.infos from).lamports - lamports)))
            to (with_lamports (l.infos to) ((l.infos to).lamports + lamports));
    })
    else err 1

unfoldable pub allocate : (account space : ℕ) → List Seed → Ledger → Result ℕ Ledger
allocate account space seeds l =
    ok (record l { infos = put l.infos account (record (l.infos account) { data_len = space }) })

unfoldable pub assign : (account owner : ℕ) → List Seed → Ledger → Result ℕ Ledger
assign account owner seeds l =
    ok (record l { infos = put l.infos account (record (l.infos account) { owner = owner }) })

-- The accounts of a mint with the extensions start frozen.
abbrev pub has_pause : Option Bool → Bool
has_pause none = false
has_pause (some p) = true

unfoldable pub initialize_account3 : (account mint authority : Pubkey) → Ledger → Result ℕ Ledger
initialize_account3 account mint authority l = elim (l.accounts account) [
  | some t ↦ err 2
  | none ↦ elim (l.mints mint) [
    | none ↦ err 0
    | some m ↦
        let opened : TokenAccount = record {
          mint = mint;
          owner = authority;
          amount = 0;
          is_frozen = has_pause m.paused;
        } in
        ok (record l { accounts = update l.accounts account (some opened) })
  ]
]

unfoldable pub initialize_mint2 :
    (mint decimals authority : ℕ) → Option Pubkey → Ledger → Result ℕ Ledger
initialize_mint2 mint decimals authority freeze_authority l =
    let created : Mint = record {
      supply = 0;
      decimals = decimals;
      mint_authority = some authority;
      freeze_authority = freeze_authority;
      paused = none;
      extensions = [];
    } in
    ok (record l { mints = update l.mints mint (some created) })
