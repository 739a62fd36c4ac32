-- ===== src/Scanner.antt =====
-- fe/src/modules/scanner/lib: the desk that hands out race packs with no network.
pub mod Verify
pub mod Tests
pub mod Store
pub mod Verdict
pub mod Desk
pub mod Drift
pub mod Send
