-- ===== src/Oco.antt =====
-- services/trade-execution/internal/oco: one-cancels-other orders. `Types` holds a group with its prices,
-- `Updates` what a broker update does to it, `Placing` the placement of its legs, `Tasks` the timers,
-- modifications and cancellations, `Manager` the registry of groups and broker ids.
pub mod Types
pub mod Updates
pub mod Placing
pub mod Tasks
pub mod Manager
pub mod Entry
pub mod Reload
pub mod States
pub mod Steps
pub mod Plain
pub mod Index
pub mod Registry
pub mod Recovered
pub mod Runs
pub mod Legs
pub mod Rows
pub mod Rebuilt
pub mod Restart
