-- ===== src/Keeper.antt =====
-- be/src/keeper: the job that keeps ledger entries from expiring.
pub mod Ttl
pub mod Client
pub mod Run
pub mod Tests
