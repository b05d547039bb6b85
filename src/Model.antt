-- ===== src/Model.antt =====
-- The canonical data model (crates/logscope-model).
pub mod Digest
pub mod Utf8
pub mod TraceIds
pub mod Value
mod Tests
