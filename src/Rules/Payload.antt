-- ===== src/Rules/Payload.antt =====
-- services/rules-engine/internal/configsync: the events of the configuration topic (event.go) and the
-- translation of their payload into a strategy (mapper.go).
use algo_treading.Base.{ℕ, Bool, ◌||◌, String, ◌==◌, List, map, Option, none, some, if◌then◌else◌}
use algo_treading.Base.Int.{ℤ}
use algo_treading.Base.Float.{Float}
use algo_treading.MultiLevel.Split.{LevelConfig}
use algo_treading.MultiLevel.Types.{nought}
use algo_treading.Rules.Strategy.{Conditions, TradeConfig, RiskLimits, Strategy}

-- The constants of `ConfigEventType`, and any other string.
pub data ConfigEventType : Type 0 where
  created updated deleted paused resumed other : ConfigEventType

pub record ConditionsPayload {ℓ} (F : Type ℓ) : Type ℓ where
  pub match_all_news : Bool
  pub impact_score_min : ℤ
  pub impact_score_max : ℤ
  pub sentiments : List String
  pub categories : List String
  pub market_cap_types : List String
  pub min_market_cap : F
  pub max_market_cap : F
  pub min_price_change_pct : F
  pub max_price_change_pct : F
  pub exchanges : List String

pub record TradeConfigPayload {ℓ} (F : Type ℓ) : Type ℓ where
  pub order_type : String
  pub product_type : String
  pub validity : String
  pub quantity : ℤ
  pub exchange : String
  pub order_side : String
  pub limit_price : F
  pub stop_loss_pct : F
  pub take_profit_pct : F
  pub trailing_sl_pct : F
  pub stop_loss_type : String
  pub take_profit_type : String
  pub multi_level_sl : List (LevelConfig F)
  pub multi_level_tp : List (LevelConfig F)
  pub trade_window_start : String
  pub trade_window_end : String

pub record RiskLimitsPayload {ℓ} (F : Type ℓ) : Type ℓ where
  pub max_daily_trades : ℤ
  pub max_per_trade_risk : F
  pub max_portfolio_exposure_pct : F
  pub max_loss_per_day : F
  pub enable_risk_checks : Bool
  pub enable_auto_square_off : Bool
  pub auto_square_off_time : String
  pub max_amount_per_stock : F
  pub max_trades_per_strategy : ℤ

pub record StrategyPayload {ℓ} (F : Type ℓ) : Type ℓ where
  pub strategy_id : String
  pub user_id : String
  pub strategy_name : String
  pub active : Bool
  pub trading_mode : String
  pub conditions : ConditionsPayload F
  pub trade_config : TradeConfigPayload F
  pub risk_limits : RiskLimitsPayload F
  pub version : ℕ

pub record ConfigEvent {ℓ} (F : Type ℓ) : Type ℓ where
  pub kind : ConfigEventType
  pub user_id : String
  pub strategy_id : String
  pub version : ℕ
  pub config : Option (StrategyPayload F)

unfoldable pub normalize_order_type : String → String
normalize_order_type v =
    if v == "ORDER_TYPE_MARKET" || v == "MARKET"
    then "MARKET"
    else if v == "ORDER_TYPE_LIMIT" || v == "LIMIT"
    then "LIMIT"
    else if v == "ORDER_TYPE_BRACKET" || v == "BRACKET"
    then "BRACKET"
    else "MARKET"

unfoldable pub normalize_exchange : String → String
normalize_exchange v =
    if v == "EXCHANGE_NSE" || v == "NSE"
    then "NSE"
    else if v == "EXCHANGE_BSE" || v == "BSE"
    then "BSE"
    else v

unfoldable pub normalize_order_side : String → String
normalize_order_side v =
    if v == "ORDER_SIDE_BUY" || v == "BUY"
    then "BUY"
    else if v == "ORDER_SIDE_SELL" || v == "SELL"
    then "SELL"
    else "BUY"

unfoldable pub normalize_validity : String → String
normalize_validity v = if v == "" then "DAY" else v

unfoldable pub normalize_stop_loss_type : String → String
normalize_stop_loss_type v =
    if v == "FIXED" || v == "STOP_LOSS_TYPE_FIXED"
    then "FIXED"
    else if v == "TRAILING" || v == "STOP_LOSS_TYPE_TRAILING"
    then "TRAILING"
    else if v == "MULTI_LEVEL" || v == "STOP_LOSS_TYPE_MULTI_LEVEL"
    then "MULTI_LEVEL"
    else "FIXED"

unfoldable pub normalize_take_profit_type : String → String
normalize_take_profit_type v =
    if v == "MULTI_LEVEL" || v == "TAKE_PROFIT_TYPE_MULTI_LEVEL" then "MULTI_LEVEL" else "FIXED"

unfoldable pub normalize_product_type : String → String
normalize_product_type v = if v == "" then "INTRADAY" else v

module _ {ℓ} {F : Type ℓ} ⦃f : Float F⦄ where
  -- A field that the payload does not have keeps Go's zero value.
  unfoldable pub to_conditions : ConditionsPayload F → Conditions F
  to_conditions c = record {
    match_all_news = c.match_all_news;
    impact_score_min = c.impact_score_min;
    impact_score_max = c.impact_score_max;
    sentiments = c.sentiments;
    categories = c.categories;
    price_range = record { min = nought; max = nought };
    min_pct_change = c.min_price_change_pct;
    max_pct_change = c.max_price_change_pct;
    exchanges = map normalize_exchange c.exchanges;
    market_cap_types = c.market_cap_types;
    market_cap_range = record { min = c.min_market_cap; max = c.max_market_cap };
  }

  unfoldable pub to_trade_config : TradeConfigPayload F → TradeConfig F
  to_trade_config t = record {
    order_type = normalize_order_type t.order_type;
    quantity = t.quantity;
    max_position_size = nought;
    stop_loss_pct = t.stop_loss_pct;
    take_profit_pct = t.take_profit_pct;
    exchange = normalize_exchange t.exchange;
    order_side = normalize_order_side t.order_side;
    validity = normalize_validity t.validity;
    limit_price = t.limit_price;
    stop_loss_type = normalize_stop_loss_type t.stop_loss_type;
    take_profit_type = normalize_take_profit_type t.take_profit_type;
    trailing_sl_pct = t.trailing_sl_pct;
    product_type = normalize_product_type t.product_type;
    multi_level_sl = t.multi_level_sl;
    multi_level_tp = t.multi_level_tp;
    trade_window_start = t.trade_window_start;
    trade_window_end = t.trade_window_end;
  }

  unfoldable pub to_risk_limits : RiskLimitsPayload F → RiskLimits F
  to_risk_limits r = record {
    max_daily_trades = r.max_daily_trades;
    max_loss_per_day = r.max_loss_per_day;
    max_position_size = nought;
    max_per_trade_risk = r.max_per_trade_risk;
    position_sizing = "";
    enable_auto_square_off = r.enable_auto_square_off;
    auto_square_off_time = r.auto_square_off_time;
    max_amount_per_stock = r.max_amount_per_stock;
    max_trades_per_strategy = r.max_trades_per_strategy;
  }

  -- `ToModelStrategy`, which fails on a payload without the ids.
  unfoldable pub to_model_strategy : StrategyPayload F → Option (Strategy F)
  to_model_strategy p =
      if p.user_id == "" || p.strategy_id == ""
      then none
      else some (record {
        strategy_id = p.strategy_id;
        user_id = p.user_id;
        strategy_name = p.strategy_name;
        version = p.version;
        active = p.active;
        trading_mode = p.trading_mode;
        conditions = to_conditions p.conditions;
        trade_config = to_trade_config p.trade_config;
        risk_limits = to_risk_limits p.risk_limits;
      })
