-- ===== src/MultiLevel.antt =====
-- services/trade-execution/internal/multilevel: exits of one position at several price levels.
-- `Types` holds the group of one entry order with its price rules and `Split` divides quantities.
-- `Effects` has the calls of the handlers, `Rebalance` and `Paper` what happens after an exit, `Exits` the
-- handler of a price tick, `Broker` the handlers of broker events, `Cancellation` the
-- cancellations of a group.
pub mod Split
pub mod Types
pub mod Reload
pub mod Effects
pub mod Rebalance
pub mod Paper
pub mod Exits
pub mod Broker
pub mod Cancellation
pub mod Trailing
