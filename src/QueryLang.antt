-- ===== src/QueryLang.antt =====
-- The query language of crates/logscope-query-lang.
pub mod Diag
pub mod Token
pub mod Lexer
pub mod Ast
pub mod Highlight
pub mod Parser
pub mod Format
pub mod Resolve
pub mod Analysis
mod Tests
