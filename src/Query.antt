-- ===== src/Query.antt =====
-- The query compiler of crates/logscope-query.
pub mod Tokens
pub mod Sql
pub mod Leaves
pub mod Compile
pub mod Placeholders
pub mod Bound
pub mod Reached
pub mod Compiled
pub mod SeverityExists
mod Tests
