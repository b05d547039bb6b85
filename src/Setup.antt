-- ===== src/Setup.antt =====
-- The setup program (tools/logscope-setup).
pub mod Payload
mod Tests
