-- ===== src/Rules.antt =====
-- services/rules-engine/internal: the strategies, their store, and the events that change it.
pub mod Strategy
pub mod Payload
pub mod Store
pub mod Sync
pub mod Matcher
pub mod Signals
