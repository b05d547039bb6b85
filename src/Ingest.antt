-- ===== src/Ingest.antt =====
-- Readers of crates/logscope-ingest.
pub mod Jsonl
mod Tests
