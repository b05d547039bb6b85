-- ===== src/QueryLang/Resolve.antt =====
-- The tables and translations of the resolver (crates/logscope-query-lang/src/resolve.rs).
pub mod Fields
pub mod Literals
pub mod Typed
pub mod Notes
pub mod Engine
pub mod Checks
pub mod Canonical
pub mod Attributes
pub mod Exprs
pub mod Ensures
pub mod Meaning
pub mod SoundFields
pub mod SoundPatterns
pub mod SoundCanonical
pub mod SoundAttributes
pub mod SoundExprs
pub mod Outcome
pub mod Names
pub mod Levels
pub mod Wildcard
pub mod Translated
pub mod Samples
mod Tests
