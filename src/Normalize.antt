-- ===== src/Normalize.antt =====
-- Normalization of source values (crates/logscope-normalize).
pub mod Epoch
pub mod Severity
mod Tests
