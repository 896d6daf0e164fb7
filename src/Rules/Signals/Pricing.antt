-- ===== src/Rules/Signals/Pricing.antt =====
-- services/rules-engine/internal/consumer: the rounding of prices to ticks, and the prices, the type and
-- the quantity of an order (`NewOrderRequest` and the second half of `processMatch`).
use algo_treading.Base.{
  ℕ, ◌/◌, zero, suc, Bool, not, ◌&&◌, ◌||◌, String, ◌==◌, if◌then◌else◌, ◌⊎◌, inl, inr,
}
use algo_treading.Base.Int.{ℤ, pos, negsuc, ltb_ℤ, ◌+ℤ◌, ◌*ℤ◌, wrap32}
use algo_treading.Base.Float.{Float, trunc_div}
use algo_treading.MultiLevel.Types.{nought}
use algo_treading.Rules.Strategy.{Strategy}
use algo_treading.Rules.Matcher.{PctChangeStatus, full}
use algo_treading.Rules.Signals.{
  Event, RuleMatch, OrderRequest, MarketDataResult, InvalidOrder, round_float, scale,
}

-- Why no order is made: `skip` returns nil, `abort` returns an error.
pub data Skip : Type 0 where
  outside_window lock_unknown already_traded count_unknown cap_reached : Skip
  change_above_max bad_sizing_price too_expensive : Skip

pub data Failure : Type 0 where
  no_strategy bad_quantity no_tick_size no_market_data no_price bad_limit_price : Failure
  invalid_order : InvalidOrder → Failure

pub data Stop : Type 0 where
  skip : Skip → Stop
  abort : Failure → Stop

-- A price in units of 10^-8, rounded to a multiple of a tick in the same units; Go's division goes towards
-- zero.
unfoldable pub round_ticks : ℤ → ℕ → ℤ
unfolding trunc_div ◌+ℤ◌ ◌*ℤ◌
round_ticks price tick = ◌*ℤ◌ (trunc_div (price +ℤ pos (tick / 2)) tick) (pos tick)

module _ {ℓ} {F : Type ℓ} ⦃f : Float F⦄ where
  open f use {of_int, ratio, add, sub, mul, div, floor, to_int, lt, le, eq}

  unfoldable pub round_scaled : F → ℤ → ℤ → F
  unfolding round_ticks
  round_scaled price scaled (pos zero) = price
  round_scaled price scaled (pos (suc n)) = div (of_int (round_ticks scaled (suc n))) scale
  round_scaled price scaled (negsuc n) = price

  unfoldable pub round_to_tick_size : F → F → F
  unfolding round_scaled
  round_to_tick_size price tick_size =
      if le tick_size nought
      then price
      else round_scaled price (round_float (mul price scale)) (round_float (mul tick_size scale))

  abbrev product_type_of : Strategy F → String
  product_type_of s =
      let c = s.trade_config in
      if c.order_type == "BRACKET"
      then if c.stop_loss_type == "TRAILING" then "INTRADAY" else "BRACKET"
      else if c.product_type == ""
      then "INTRADAY"
      else c.product_type

  unfoldable pub new_order_request : String → RuleMatch F → Event F → Strategy F → OrderRequest F
  new_order_request id m e s =
      let c = s.trade_config in
      record {
        order_id = id;
        user_id = s.user_id;
        strategy_id = s.strategy_id;
        strategy_name = s.strategy_name;
        event_id = e.event_id;
        stock_code = e.stock_code;
        symbol = e.symbol;
        exchange = e.market.exchange;
        order_type = c.order_type;
        order_side = "BUY";
        quantity = c.quantity;
        price = nought;
        stop_loss = nought;
        take_profit = nought;
        validity = "DAY";
        match_score = m.match_score;
        impact_score = e.market.impact_score;
        sentiment = e.market.sentiment;
        news_category = e.market.category;
        risk_approved = Bool.false;
        risk_score = nought;
        stop_loss_type = if c.stop_loss_type == "" then "FIXED" else c.stop_loss_type;
        take_profit_type = c.take_profit_type;
        stop_loss_pct = c.stop_loss_pct;
        take_profit_pct = c.take_profit_pct;
        trailing_sl_pct = c.trailing_sl_pct;
        multi_level_sl = c.multi_level_sl;
        multi_level_tp = c.multi_level_tp;
        product_type = product_type_of s;
        trading_mode = s.trading_mode;
        pct_change_status = PctChangeStatus.unset;
        current_pct_change = nought;
        max_monitor_price = nought;
        auto_square_off_time =
            if s.risk_limits.enable_auto_square_off then s.risk_limits.auto_square_off_time else "";
      }

  -- A price that many percent above or below a base.
  abbrev pub raised_by : F → F → F
  raised_by base pct = mul base (add (ratio 1 1) (div pct full))

  abbrev pub lowered_by : F → F → F
  lowered_by base pct = mul base (sub (ratio 1 1) (div pct full))

  -- The stop loss and the target from a base price: none for several levels, or without a percentage.
  unfoldable pub with_exits : Strategy F → F → F → OrderRequest F → OrderRequest F
  unfolding round_to_tick_size
  with_exits s base tick o =
      let c = s.trade_config in
      record o {
        stop_loss =
            if not (c.stop_loss_type == "MULTI_LEVEL") && lt nought c.stop_loss_pct
            then round_to_tick_size (lowered_by base c.stop_loss_pct) tick
            else o.stop_loss;
        take_profit =
            if not (c.take_profit_type == "MULTI_LEVEL") && lt nought c.take_profit_pct
            then round_to_tick_size (raised_by base c.take_profit_pct) tick
            else o.take_profit;
      }

  -- The limit price half a percent above a price.
  abbrev limit_over : F → F → F
  limit_over price tick = round_to_tick_size (mul price (ratio 1005 1000)) tick

  abbrev immediate_product : Strategy F → String
  immediate_product s =
      let c = s.trade_config in
      if c.stop_loss_type == "TRAILING"
        || c.stop_loss_type == "MULTI_LEVEL"
        || c.take_profit_type == "MULTI_LEVEL"
      then "INTRADAY"
      else "BRACKET"

  unfoldable pub immediate_order : Strategy F → F → F → OrderRequest F → OrderRequest F
  unfolding round_to_tick_size with_exits
  immediate_order s ltp tick o = with_exits s ltp tick (record o {
    order_type = "LIMIT";
    price = limit_over ltp tick;
    product_type = immediate_product s;
  })

  -- The price from which the target of a pending order is reckoned.
  abbrev reference_price : Event F → MarketDataResult F → F
  reference_price e md =
      let close = if le e.prev_close nought then md.prev_close else e.prev_close in
      if le close nought then md.ltp else close

  unfoldable pub pending_order : Strategy F → F → F → OrderRequest F → Stop ⊎ (OrderRequest F × F)
  unfolding round_to_tick_size with_exits
  pending_order s reference tick o =
      let target = raised_by reference s.conditions.min_pct_change in
      let limit = limit_over target tick in
      let max = s.conditions.max_pct_change in
      if le limit nought
      then inl (Stop.abort Failure.bad_limit_price)
      else inr (
        with_exits s target tick (record o {
          order_type = "STOP_LOSS";
          price = target;
          product_type = "BRACKET";
          max_monitor_price =
              if lt nought max then raised_by reference max else o.max_monitor_price;
        }),
        limit,
      )

  -- The order with its prices, and the price that its quantity is computed from.
  unfoldable pub priced :
      PctChangeStatus
      → Strategy F
      → Event F
      → MarketDataResult F
      → F
      → OrderRequest F
      → Stop ⊎ (OrderRequest F × F)
  unfolding immediate_order pending_order with_exits
  priced PctChangeStatus.within_range s e md tick o =
      let order = immediate_order s md.ltp tick o in inr (order, order.price)
  priced PctChangeStatus.below_min s e md tick o = pending_order s (reference_price e md) tick o
  priced _ s e md tick o = inr (with_exits s md.ltp tick o, md.ltp)

  -- The quantity that 98% of the budget buys; the conversion to int32, which Go leaves open where the number
  -- does not fit, wraps.
  unfoldable pub affordable : F → F → ℤ
  affordable budget price = wrap32 (to_int (floor (div (mul budget (ratio 98 100)) price)))

  unfoldable pub sized : Strategy F → OrderRequest F × F → Stop ⊎ OrderRequest F
  unfolding affordable
  sized s (o, price) =
      let budget = s.risk_limits.max_amount_per_stock in
      let n = affordable budget price in
      if lt nought budget
      then if le price nought
        then inl (Stop.skip Skip.bad_sizing_price)
        else if ltb_ℤ n (pos 1)
        then inl (Stop.skip Skip.too_expensive)
        else inr (record o { quantity = n })
      else inr o
