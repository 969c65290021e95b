-- ===== src/Lib.antt =====
-- A verification library of the Solana stablecoin AMM: two Anchor programs, programs/stablecoin,
-- which issues stablecoins on Token-2022 under caps, allowances, a pause and wallet policies, and
-- programs/amm, a constant-product pool of two such stablecoins.
-- The AMM reads the stablecoin program's configurations and policies (it trades only for wallets
-- that those allow, on mints that are not paused), and both call Token-2022 for every movement of
-- tokens. Solana, Anchor and Token-2022 are not code of the repository: the record `Runtime` of
-- Chain.antt holds the operations that the programs call and is a parameter of every handler,
-- Chain/Laws.antt states what Token-2022 documents of transfers, mints and burns that succeed,
-- and Chain/System/Laws.antt what the system program documents of its calls; Chain/Supply.antt,
-- Chain/Holdings.antt, Chain/Authorities.antt and Chain/Addresses.antt state what both document
-- of supplies, of token accounts, of the authorities of mints and of program addresses. An
-- instruction is a function from the chain (State.antt) to a new chain and the event that it
-- emits, or to an error; a failed instruction leaves the chain as it was.
-- The files:
--   Base: Boolean tests on numbers, `Result` with its do blocks, `require!` and `?`, the checked
--     operations of a given width, and lemmas on division.
--   Math: programs/amm/src/math.rs: `integer_sqrt` in Math/Root, `quote_swap`,
--     `quote_initial_liquidity`, `quote_add_liquidity`, `quote_remove_liquidity`, `ceil_div`,
--     `widen` and `narrow` in Math. Closed forms and laws are in Math/Swap, Math/Initial,
--     Math/Add, Math/Remove and Math/RoundTrip.
--   Chain: what both programs read and call of the runtime.
--   Chain/System: how both programs create an account at a program address, which may have been
--     sent lamports before.
--   State: the accounts that both programs own, and the chain.
--   Amm: programs/amm/src/errors.rs, programs/amm/src/instructions/mod.rs and the account
--     constraints.
--   Amm/Setup: programs/amm/src/instructions/initialize_pool.rs.
--   Amm/Swap: programs/amm/src/instructions/swap.rs.
--   Amm/Liquidity: programs/amm/src/instructions/remove_liquidity.rs, and the accounts of
--     add_liquidity.rs.
--   Amm/Deposit: programs/amm/src/instructions/add_liquidity.rs.
--   Amm/Program: the entry points of programs/amm/src/lib.rs.
--   Amm/Shares: the abstract specification of what a pool promises to the holders of its tokens.
--   Stablecoin: programs/stablecoin/src/errors.rs, programs/stablecoin/src/token2022.rs and
--     programs/stablecoin/src/instructions/mod.rs.
--   Stablecoin/Symbol: `normalize_symbol` of
--     programs/stablecoin/src/instructions/initialize_stablecoin.rs.
--   Stablecoin/Setup: the rest of that file.
--   Stablecoin/Issuance: mint_to.rs and burn.rs of programs/stablecoin/src/instructions.
--   Stablecoin/Admin: update_config.rs, accept_admin.rs, grant_minter.rs and revoke_minter.rs of
--     the same folder.
--   Stablecoin/Compliance: set_pause.rs and set_wallet_policy.rs of the same folder.
--   Stablecoin/Backing: the supply of a stablecoin against its cap and counters, over sequences
--     of steps.
--   Stablecoin/Program: the entry points of programs/stablecoin/src/lib.rs.
--   History: sequences of the instructions of both programs and of whatever happens outside them.
--     History/Calls follows the calls of each handler; History/Sound, History/Kept,
--     History/Backed, History/Fair, History/Solvent, History/Seeded and History/Trading are about
--     what is stored, a stablecoin's supply, a pool's tokens, its vaults, its reserves, and
--     deposits and withdrawals over such sequences; History/Owners and History/Children are about
--     whose balances an instruction of the AMM lowers and about the accounts that a new pool
--     gets.
--   Tests: runs of the models on concrete inputs, with a small Token-2022 and a chain to run on.
-- Machine integers are natural numbers; each checked operation fails exactly at the width of the
-- source. There is no fuel: the two loops of `integer_sqrt` recur on the accessibility of `bit`,
-- which each turn divides by four. A public key is a number, the default key is 0, and a
-- timestamp is a natural number.
-- Not modelled: the rent that Anchor's `init` and `close` move for the accounts that the programs
-- own, Anchor's discriminators and account owners, the reserved bytes of the accounts, and the
-- checks of the system program and of Token-2022 themselves, which are inside their calls.
pub mod Base
pub mod Math
pub mod Chain
pub mod State
pub mod Amm
pub mod Stablecoin
pub mod History
pub mod Tests
