-- ===== src/History/Calls.antt =====
-- The calls of Token-2022 and of the system program in the instructions of both programs.
pub mod Stages
pub mod Issuer
pub mod Market
