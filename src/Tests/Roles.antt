-- ===== src/Tests/Roles.antt =====
-- Runs of granting and revoking a minter's role.
use solana_stablecoin_amm.Base.{◌≡◌, ◌≢◌, refl, ok}
use solana_stablecoin_amm.State.{Chain}
use solana_stablecoin_amm.Stablecoin.{check_seeds}
use solana_stablecoin_amm.Stablecoin.Issuance.{MintToAccounts, TokensMinted, mint_to}
use solana_stablecoin_amm.Stablecoin.Admin.{
  MinterAccounts, MinterGranted, MinterRevoked, check_admin, init_role, grant_minter, revoke_minter,
}
use solana_stablecoin_amm.Stablecoin.Admin.Minters.{
  IsGranted, grant_minter-IsGranted, revoke_minter-stops,
}
use solana_stablecoin_amm.Tests.Token.{rt}
use solana_stablecoin_amm.Tests.World.{chain_of, start}

-- A second minter, 8, and the one that the chain has.
abbrev newcomer : MinterAccounts
newcomer = record { admin = 3; config = 1_210; authority = 8; minter_role = 24_108 }

abbrev incumbent : MinterAccounts
incumbent = record { admin = 3; config = 1_210; authority = 6; minter_role = 24_106 }

abbrev minter_granted : MinterGranted
minter_granted = record { config = 1_210; authority = 8; allowance = 70_000 }

abbrev minter_revoked : MinterRevoked
minter_revoked = record { config = 1_210; authority = 6; minted = 100_000 }

abbrev granted : Chain
granted = chain_of start (grant_minter rt newcomer 70_000 start)

abbrev revoked : Chain
revoked = chain_of start (revoke_minter rt incumbent start)

grant_minter_run : grant_minter rt newcomer 70_000 start ≡ ok (granted, minter_granted)
unfolding grant_minter check_admin init_role check_seeds
grant_minter_run = refl

revoke_minter_run : revoke_minter rt incumbent start ≡ ok (revoked, minter_revoked)
unfolding revoke_minter check_admin check_seeds
revoke_minter_run = refl

grant_minter-IsGranted_example : IsGranted rt newcomer 70_000 start granted
grant_minter-IsGranted_example = grant_minter-IsGranted rt newcomer 70_000 start grant_minter_run

abbrev minting : MintToAccounts
minting = record {
  minter = 6;
  mint = 10;
  config = 1_210;
  minter_role = 24_106;
  destination = 22;
  wallet_policy = 12_122;
}

abbrev never_minted : TokensMinted
never_minted = record {
  mint = 10;
  minter = 6;
  destination = 22;
  amount = 1;
  minter_minted = 100_001;
  supply = 1_050_008;
}

revoke_minter-stops_example : mint_to rt minting 1 revoked ≢ ok (revoked, never_minted)
revoke_minter-stops_example =
    revoke_minter-stops rt incumbent minting 1 start revoke_minter_run refl
