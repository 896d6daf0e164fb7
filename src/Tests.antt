-- ===== src/Tests.antt =====
-- Runs of the definitions on concrete inputs.
pub mod MultiLevel
pub mod Rules
pub mod Sync
pub mod Oco
pub mod Signals
pub mod Risk
