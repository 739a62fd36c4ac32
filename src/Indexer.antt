-- ===== src/Indexer.antt =====
-- be/src/indexer: the cache of the contracts in Postgres, followed from events or rebuilt from state.
pub mod Chain
pub mod Decode
pub mod Tables
pub mod Apply
pub mod Poll
pub mod Counts
pub mod Rebuild
pub mod Reader
pub mod Doctor
mod Samples
mod Tests
