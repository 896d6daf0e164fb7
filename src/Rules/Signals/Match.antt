-- ===== src/Rules/Signals/Match.antt =====
-- services/rules-engine/internal/consumer/handler.go: `processMatch` and `HandleEvent`. Matches are
-- handled one after another; the lock of a strategy makes that so for other events too.
use algo_treading.Base.{
  ℕ, ◌+◌, Bool, true, not, ◌&&◌, String, List, [], ◌∷◌, Option, none, some, if◌then◌else◌, ◌⊎◌, inl,
  inr,
}
use algo_treading.Base.Int.{pos, leb_ℤ, wrap32}
use algo_treading.Base.Float.{Float}
use algo_treading.MultiLevel.Types.{nought}
use algo_treading.Rules.Strategy.{Strategy}
use algo_treading.Rules.Matcher.{abs}
use algo_treading.Rules.Signals.{
  Event, RuleMatch, OrderRequest, MarketDataResult, InvalidOrder, Signal, Zones, has_signal_today,
  get_strategy_trades_today, validate_order,
}
use algo_treading.Rules.Signals.Window.{is_within_trade_window}
use algo_treading.Rules.Signals.Pricing.{Skip, Failure, Stop, new_order_request, priced, sized}

-- What the outside answers while a match is handled: the zones, the clocks, the new order id, the cached tick size,
-- whether the two queries and the insertion succeed, and whether the order goes to Kafka.
pub record Answers {ℓ} (F : Type ℓ) : Type ℓ where
  pub zones : Zones
  pub minute : ℕ
  pub now : ℕ
  pub timestamp : ℕ
  pub order_id : String
  pub cached_tick : Option F
  pub lock_known : Bool
  pub count_known : Bool
  pub saved : Bool

abbrev pub and_then {ℓ} : {A B : Type ℓ} → Stop ⊎ A → (A → Stop ⊎ B) → Stop ⊎ B
and_then (inl stop) next = inl stop
and_then (inr a) next = next a

abbrev pub unless {ℓ} : {A : Type ℓ} → Option Stop → Stop ⊎ A → Stop ⊎ A
unless (some stop) next = inl stop
unless none next = next

module _ {ℓ} {F : Type ℓ} ⦃f : Float F⦄ where
  open f use {lt, le, eq}

  unfoldable pub lock_stop : Answers F → List Signal → Event F → ℕ → Strategy F → Option Stop
  lock_stop a table e since s =
      if not a.lock_known
      then some (Stop.skip Skip.lock_unknown)
      else if has_signal_today a.zones s.strategy_id e.stock_code since a.now table
      then some (Stop.skip Skip.already_traded)
      else none

  -- The count is converted to int32.
  unfoldable pub cap_stop : Answers F → List Signal → ℕ → Strategy F → Option Stop
  cap_stop a table since s =
      let limit = s.risk_limits.max_trades_per_strategy in
      let trades = get_strategy_trades_today a.zones s.strategy_id since a.now table in
      if leb_ℤ limit (pos 0)
      then none
      else if not a.count_known
      then some (Stop.skip Skip.count_unknown)
      else if leb_ℤ limit (wrap32 (pos trades))
      then some (Stop.skip Skip.cap_reached)
      else none

  unfoldable pub window_stop : Answers F → Strategy F → Option Stop
  window_stop a s =
      let c = s.trade_config in
      if is_within_trade_window c.trade_window_start c.trade_window_end a.minute
      then none
      else some (Stop.skip Skip.outside_window)

  unfoldable pub quantity_stop : Strategy F → Option Stop
  quantity_stop s =
      if eq s.risk_limits.max_amount_per_stock nought && leb_ℤ s.trade_config.quantity (pos 0)
      then some (Stop.abort Failure.bad_quantity)
      else none

  unfoldable pub own_tick : Option (MarketDataResult F) → F
  own_tick none = nought
  own_tick (some md) = md.tick_size

  unfoldable pub or_cached : F → Option F → F
  or_cached own none = own
  or_cached own (some t) = if lt nought t then t else own

  -- The tick size of the market data, or else the cached one.
  unfoldable pub resolve_tick : Option F → Option (MarketDataResult F) → F
  unfolding own_tick or_cached
  resolve_tick cached md =
      if le (own_tick md) nought then or_cached (own_tick md) cached else own_tick md

  -- The live change is checked against the maximum once more.
  unfoldable pub live_stop : Strategy F → MarketDataResult F → Option Stop
  live_stop s md =
      let max = s.conditions.max_pct_change in
      if le md.ltp nought
      then some (Stop.abort Failure.no_price)
      else if lt nought max && le max (abs md.percent_change)
      then some (Stop.skip Skip.change_above_max)
      else none

  unfoldable pub approve_unless : OrderRequest F → Option InvalidOrder → Stop ⊎ OrderRequest F
  approve_unless o none = inr (record o { risk_approved = true; risk_score = nought })
  approve_unless o (some error) = inl (Stop.abort (Failure.invalid_order error))

  -- The risk service is not asked: the order is approved.
  unfoldable pub approve : OrderRequest F → Stop ⊎ OrderRequest F
  unfolding approve_unless
  approve o = approve_unless o (validate_order o)

  -- The order as it is before its prices are decided.
  unfoldable pub draft :
      Answers F → Event F → RuleMatch F → Strategy F → MarketDataResult F → OrderRequest F
  unfolding new_order_request
  draft a e m s md = record (new_order_request a.order_id m e s) {
    price = md.ltp;
    pct_change_status = m.pct_change_status;
    current_pct_change = md.percent_change;
  }

  unfoldable pub build_order :
      Answers F
      → Event F
      → RuleMatch F
      → Strategy F
      → F
      → Option (MarketDataResult F)
      → Stop ⊎ OrderRequest F
  unfolding draft priced sized approve live_stop
  build_order a e m s tick none = inl (Stop.abort Failure.no_market_data)
  build_order a e m s tick (some md) = unless (live_stop s md) (
      and_then (priced m.pct_change_status s e md tick (draft a e m s md))
        (λ p. and_then (sized s p) approve))

  unfoldable pub order_for :
      Answers F
      → List Signal
      → Event F
      → Option (MarketDataResult F)
      → RuleMatch F
      → Option (Strategy F)
      → Stop ⊎ OrderRequest F
  unfolding window_stop lock_stop cap_stop quantity_stop resolve_tick build_order
  order_for a table e md m none = inl (Stop.abort Failure.no_strategy)
  order_for a table e md m (some s) =
      let tick = resolve_tick a.cached_tick md in
      unless (window_stop a s) (
        unless (lock_stop a table e m.updated_at s) (
          unless (cap_stop a table m.updated_at s) (
            unless (quantity_stop s) (
              if le tick nought
              then inl (Stop.abort Failure.no_tick_size)
              else build_order a e m s tick md))))

  -- The row that `SaveTradeSignal` inserts.
  abbrev pub signal_of : OrderRequest F → ℕ → Signal
  signal_of o written = record {
    order_id = o.order_id;
    strategy_id = o.strategy_id;
    stock_code = o.stock_code;
    status = "PENDING";
    created_at = written;
  }

  -- The time that the service's clock shows when the order is made.
  abbrev pub written : Answers F → ℕ
  written a = a.timestamp + a.zones.process

  unfoldable pub save_trade_signal : Answers F → Stop ⊎ OrderRequest F → List Signal → List Signal
  save_trade_signal a (inl stop) table = table
  save_trade_signal a (inr o) table = if a.saved then signal_of o (written a) ∷ table else table

  -- The order, if there is one, goes to Kafka whether or not it is saved.
  unfoldable pub process_match :
      Answers F
      → Event F
      → Option (MarketDataResult F)
      → RuleMatch F
      → List Signal
      → List Signal × (Stop ⊎ OrderRequest F)
  unfolding order_for save_trade_signal
  process_match a e md m table =
      let result = order_for a table e md m m.strategy in (save_trade_signal a result table, result)

  unfoldable pub process_matches :
      (RuleMatch F → Answers F)
      → Event F
      → Option (MarketDataResult F)
      → List (RuleMatch F)
      → List Signal
      → List Signal × List (Stop ⊎ OrderRequest F)
  unfolding process_match
  process_matches answers e md [] table = (table, [])
  process_matches answers e md (m ∷ ms) table =
      let first = process_match (answers m) e md m table in
      let rest = process_matches answers e md ms first.0 in (rest.0, first.1 ∷ rest.1)
