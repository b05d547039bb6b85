-- ===== src/Jobs.antt =====
-- Background jobs (crates/logscope-jobs).
pub mod Control
pub mod Runner
mod Tests
