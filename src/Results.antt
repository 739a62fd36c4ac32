-- ===== src/Results.antt =====
-- be/src/results: reading a results file and deciding which rows are safe to publish on chain.
pub mod Row
pub mod Csv
pub mod Lines
pub mod Anomaly
pub mod Review
