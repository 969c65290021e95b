-- ===== src/Tests.antt =====
-- Runs of the models on concrete inputs.
pub mod Quotes
pub mod System
pub mod Token
pub mod Setups
pub mod Coins
pub mod Histories
pub mod Gates
pub mod Payments
pub mod Completions
pub mod Supplies
pub mod Holdings
pub mod Charters
pub mod Vaults
pub mod Trading
pub mod Issued
pub mod Shares
pub mod World
pub mod Programs
pub mod Issuer
pub mod Roles
