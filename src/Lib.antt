-- ===== src/Lib.antt =====
-- Verification of parts of an algorithmic trading platform, written in Go as a set of services. A rules
-- engine matches market news with the strategies of its users and sends trade signals; a trade execution
-- service places the orders and, for a position with several exit levels, watches prices and the broker's
-- answers until the position is closed; a risk service checks orders before they are traded.
--
-- Parts and files:
--   MultiLevel/Types      services/trade-execution/internal/multilevel/types.go: `Group`, `Level`
--                         (ExitLevelState), the triggers, the trailing stop-loss and the tick size.
--   MultiLevel/Split      multilevel/manager.go: computeInitialExitQtys and computeRebalancedQtys.
--   MultiLevel/Effects    the calls to the broker, the repository, the indexes and the hooks.
--   MultiLevel/Rebalance  multilevel/manager.go: rebalanceAndModifyLevels.
--   MultiLevel/Paper      multilevel/manager.go: recordPaperExit, recordPaperPartialExit, finishGroupPaper.
--   MultiLevel/Exits      multilevel/manager.go: one price tick for a group (runEvalJob, evaluateSLLevels,
--                         evaluateTPLevels, evaluateTrailingSL).
--   MultiLevel/Broker     multilevel/manager.go: OnEntryFill, onMultiLevelFilled, onSingleSLFilled.
--   MultiLevel/Cancellation  multilevel/manager.go: cancelGroupInternal, CancelGroupsByStrategy and
--                         CancelGroupForExit, for one group.
--   MultiLevel/Reload     multilevel/reload.go, and persistExitLevels of multilevel/manager.go.
--   MultiLevel/Trailing   the trailing stop-loss over several ticks.
--   Rules/Strategy        services/rules-engine/internal/models/strategy.go and the validation of
--                         startup/bootstrap.go.
--   Rules/Payload         services/rules-engine/internal/configsync: event.go and mapper.go.
--   Rules/Store           services/rules-engine/internal/configstore: store.go and config_store.go.
--   Rules/Sync            services/rules-engine/internal: configsync/consumer.go and startup/bootstrap.go, what
--                         feeds the store. A message is an event, or nothing where it does not parse.
--   Rules/Matcher         services/rules-engine/internal/matcher/evaluator.go: the conditions of a strategy
--                         against an event. strings.EqualFold folds the letters of ASCII only.
--   Oco/Types             services/trade-execution/internal/oco/types.go and internal/models/order.go: the group
--                         and the state of one-cancels-other orders, and their prices.
--   Oco/Updates           oco/manager.go: handleEntryUpdate, handleSLLegUpdate, handleTPLegUpdate.
--   Oco/Placing           oco/manager.go: placeOCOLegs in two parts, buildLegOrder, placeLegWithRetry.
--   Oco/Tasks             oco/manager.go and trailing.go: timers, new quantities, cancelLeg, CancelGroup and the
--                         trailing of the stop-loss leg.
--   Oco/Manager           oco/manager.go: HandleBrokerUpdate, the groups and the index of broker ids.
--   Oco/Entry             oco/manager.go: CreateOCOEntry and AdoptOrder.
--   Oco/Reload            oco/manager.go: Reload, reconstructGroup and inferState.
--   Oco/Rows              services/trade-execution/internal/repository/order_repository.go: what Update writes, and
--                         the rows of a group whose legs are placed.
--   Oco/States, Steps     a group over updates and tasks in any order; Plain, Index, Registry and Runs do so for
--                         the registry, Legs for the placement of legs, Restart, Recovered, Rows and
--                         Rebuilt for the recovery and the rows that it reads.
--   Rules/Signals         services/rules-engine/internal/consumer/market_data.go, models/order.go, models/event.go
--                         and repository/trade_signal_repository.go: events, market data, orders and the table of
--                         signals.
--   Rules/Signals/Window, Pricing, Match: consumer/handler.go: isWithinTradeWindow, the prices and the quantity
--                         of an order, and processMatch with its checks in their order.
--   Rules/Signals/Calls   sequences of handled matches, for Daily and Early.
--   Rules/Signals/Engine  engine/deduper.go, engine/engine.go (EvaluateEvent) and HandleEvent of the handler.
--   Risk                  services/risk-management/internal: the checks before a trade, on what Redis holds of one
--                         user, and the updates after it.
--   Base                  shared helpers; Tests holds runs on concrete inputs.
--
-- How the code is modelled. A handler is a function from the state to the new state and the list of the
-- calls that it makes or starts, in order (`Outcome`); a goroutine that only calls the broker is such a
-- call. Mutexes are left out: a handler runs to its end before the next one, as the locks and the
-- `evaluating` flag make it do for one group. Timestamps, logging and the fields that only travel into
-- orders are left out. int32 arithmetic keeps its wrap-around (`Base/Int`), and so does int64 in the tick
-- size; other int64 amounts are integers.
-- Prices and percentages are of any type with the operations of `Base/Float`; exact fractions are an
-- instance, on which the definitions run. A map is an association list with each key once (`Base/Dict`),
-- so an iteration order that Go leaves open is never relied on. All loops are structural recursion, so
-- nothing runs on fuel.
--
-- One-cancels-other groups change between the calls of a task, since the broker is called without the lock:
-- a step relation lets updates, tasks and cancellations come in any order. A task whose group is no longer
-- registered is left out of the registry. The answers of the broker are arguments; those to repeated calls
-- are a function of the attempt. A broadcast is in the list of calls also where no broadcaster is set.
--
-- A handled match reads the zones, the clocks, the order id and the success of its queries from its answers;
-- the table of signals is a list of rows. The lock of a strategy makes its matches follow each other, so a
-- run is a list of matches. The times of the table have no zone: a row holds the time that the clock of the
-- service shows, as the driver writes it, and the queries read it as a time in India and take the date of
-- the session's zone. The zones of the service and of the database are therefore arguments (`Zones`).
-- Saving a signal may fail, and the order goes out all the same, as in the code.
--
-- Hypotheses about floats stand in `MultiLevel.Exits.Levels.Splits`: percentages of the kind are positive,
-- and each share that is computed with them has the floor and the rounding of an exact fraction.
-- `MultiLevel.Exits.Whole` shows them for whole percentages and exact fractions.
--
-- Not modelled: the indexes of the multi-level manager, the bodies of the calls to the broker,
-- the paper monitor, the schedulers, the
-- user configuration service, the repositories but for the table of signals
-- and what an update of an order writes, the scores of matches, the pool
-- of workers, the clients and the gateway. JSON parsing, SQL, sockets
-- and the message broker are outside.
pub mod Base
pub mod MultiLevel
pub mod Rules
pub mod Oco
pub mod Risk
pub mod Tests
