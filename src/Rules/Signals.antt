-- ===== src/Rules/Signals.antt =====
-- services/rules-engine/internal/consumer/market_data.go, models/order.go, models/event.go: market events,
-- their market data, the orders made of them, and the table of signals. Prices are exact where the code
-- converts them to int64; credentials, log lines and the front end's fields are left out.
pub mod Window
pub mod Pricing
pub mod Match
pub mod Engine
pub mod Guards
pub mod Calls
pub mod Daily
pub mod Early
pub mod Evaluated
pub mod Outage
pub mod Ticks
pub mod Dedup
use algo_treading.Base.{
  ℕ, suc, ◌+◌, ◌-◌, ◌*◌, ◌/◌, Bool, not, ◌&&◌, ◌||◌, String, ◌==◌, List, [], ◌∷◌, Option, none,
  some, any, eqb, leb, if◌then◌else◌,
}
use algo_treading.Base.Int.{ℤ, pos, negsuc, leb_ℤ, ltb_ℤ, eqb_ℤ}
use algo_treading.Base.Float.{Float}
use algo_treading.Base.Text.{equal_fold}
use algo_treading.MultiLevel.Split.{LevelConfig}
use algo_treading.MultiLevel.Types.{nought}
use algo_treading.Rules.Strategy.{Strategy, outside_scores}
use algo_treading.Rules.Matcher.{MarketEvent, PctChangeStatus}

-- `MarketEvent`, with the part that the conditions read as `market`.
pub record Event {ℓ} (F : Type ℓ) : Type ℓ where
  pub event_id : String
  pub stock_code : ℤ
  pub nse_code : ℤ
  pub bse_code : ℤ
  pub symbol : String
  pub prev_close : F
  pub market : MarketEvent F

pub record RuleMatch {ℓ} (F : Type ℓ) : Type ℓ where
  pub strategy : Option (Strategy F)
  -- The strategy's `UpdatedAt`, in seconds.
  pub updated_at : ℕ
  pub match_score : F
  pub matched_conditions : List String
  pub failed_conditions : List String
  pub event_id : String
  pub pct_change_status : PctChangeStatus

pub record OrderRequest {ℓ} (F : Type ℓ) : Type ℓ where
  pub order_id : String
  pub user_id : String
  pub strategy_id : String
  pub strategy_name : String
  pub event_id : String
  pub stock_code : ℤ
  pub symbol : String
  pub exchange : String
  pub order_type : String
  pub order_side : String
  pub quantity : ℤ
  pub price : F
  pub stop_loss : F
  pub take_profit : F
  pub validity : String
  pub match_score : F
  pub impact_score : ℤ
  pub sentiment : String
  pub news_category : String
  pub risk_approved : Bool
  pub risk_score : F
  pub stop_loss_type : String
  pub take_profit_type : String
  pub stop_loss_pct : F
  pub take_profit_pct : F
  pub trailing_sl_pct : F
  pub multi_level_sl : List (LevelConfig F)
  pub multi_level_tp : List (LevelConfig F)
  pub product_type : String
  pub trading_mode : String
  pub pct_change_status : PctChangeStatus
  pub current_pct_change : F
  pub max_monitor_price : F
  pub auto_square_off_time : String

pub record MarketDataResult {ℓ} (F : Type ℓ) : Type ℓ where
  pub ltp : F
  pub prev_close : F
  pub tick_size : F
  pub percent_change : F
  pub exchange : String
  pub token : ℤ

-- The fields of the stored market data.
pub record Quote {ℓ} (F : Type ℓ) : Type ℓ where
  pub ltp : F
  pub prev_close : F
  pub tick_size : F
  pub percent_change : F

-- The errors of `Validate`, of an event and of an order.
pub data InvalidEvent : Type 0 where
  event_id stock_code exchange impact_score : InvalidEvent

pub data InvalidOrder : Type 0 where
  order_id user_id strategy_id stock_code exchange quantity price order_type : InvalidOrder

-- The zones of the service and of the database session, in seconds east of Greenwich.
pub record Zones : Type 0 where
  pub process : ℕ
  pub session : ℕ

-- A row of `trade_signals`. The column has no zone: it keeps the time of the service's clock on the wall,
-- in seconds.
pub record Signal : Type 0 where
  pub order_id : String
  pub strategy_id : String
  pub stock_code : ℤ
  pub status : String
  pub created_at : ℕ

-- `(NOW() AT TIME ZONE 'Asia/Kolkata')::date`: the date in India of a time in seconds.
abbrev pub date_in_india : ℕ → ℕ
date_in_india now = (now + 19800) / 86400

-- `(created_at AT TIME ZONE 'Asia/Kolkata')::date`: the stored time is taken for one in India, and the date
-- is that of the session's zone.
abbrev pub row_date : Zones → ℕ → ℕ
row_date zones wall = (wall + zones.session - 19800) / 86400

-- The rows that `GetStrategyTradesToday` counts. The time of the change is compared as the service's clock
-- shows it.
abbrev pub counts : Zones → String → ℕ → ℕ → Signal → Bool
counts zones strategy since today s =
    s.strategy_id == strategy
    && eqb (row_date zones s.created_at) today
    && leb (since + zones.process) s.created_at
    && not (s.status == "FAILED" || s.status == "CANCELLED")

-- The rows that `HasSignalToday` looks for.
abbrev pub locks : Zones → String → ℤ → ℕ → ℕ → Signal → Bool
locks zones strategy stock since today s =
    counts zones strategy since today s && eqb_ℤ s.stock_code stock

unfoldable pub has_signal_today : Zones → String → ℤ → ℕ → ℕ → List Signal → Bool
has_signal_today zones strategy stock since now =
    any (locks zones strategy stock since (date_in_india now))

unfoldable pub count_rows : (Signal → Bool) → List Signal → ℕ
count_rows p [] = 0
count_rows p (s ∷ rest) = (if p s then 1 else 0) + count_rows p rest

unfoldable pub get_strategy_trades_today : Zones → String → ℕ → ℕ → List Signal → ℕ
unfolding count_rows
get_strategy_trades_today zones strategy since now =
    count_rows (counts zones strategy since (date_in_india now))

abbrev pub or_else {ℓ} : {A : Type ℓ} → Option A → Option A → Option A
or_else none b = b
or_else (some a) b = some a

module _ {ℓ} {F : Type ℓ} ⦃f : Float F⦄ where
  open f use {of_int, ratio, add, sub, mul, div, floor, to_int, lt, le}

  -- A missing type of event, which `Validate` sets to news, is not read by anything here.
  unfoldable pub validate_event : Event F → Option InvalidEvent
  validate_event e =
      if e.event_id == ""
      then some InvalidEvent.event_id
      else if leb_ℤ e.stock_code (pos 0)
      then some InvalidEvent.stock_code
      else if e.market.exchange == ""
      then some InvalidEvent.exchange
      else if outside_scores e.market.impact_score
      then some InvalidEvent.impact_score
      else none

  unfoldable pub validate_order : OrderRequest F → Option InvalidOrder
  validate_order o =
      if o.order_id == ""
      then some InvalidOrder.order_id
      else if o.user_id == ""
      then some InvalidOrder.user_id
      else if o.strategy_id == ""
      then some InvalidOrder.strategy_id
      else if leb_ℤ o.stock_code (pos 0)
      then some InvalidOrder.stock_code
      else if o.exchange == ""
      then some InvalidOrder.exchange
      else if leb_ℤ o.quantity (pos 0)
      then some InvalidOrder.quantity
      else if le o.price nought
      then some InvalidOrder.price
      else if not (o.order_type == "MARKET")
          && not (o.order_type == "LIMIT")
          && not (o.order_type == "BRACKET")
          && not (o.order_type == "STOP_LOSS")
      then some InvalidOrder.order_type
      else none

  -- The market data of one exchange, if it has a token, a price and a tick size.
  unfoldable pub usable_quote : String → ℤ → Option (Quote F) → Option (MarketDataResult F)
  usable_quote place token none = none
  usable_quote place token (some q) =
      if le q.ltp nought || le q.tick_size nought
      then none
      else some (record {
        ltp = q.ltp;
        prev_close = q.prev_close;
        tick_size = q.tick_size;
        percent_change = q.percent_change;
        exchange = place;
        token = token;
      })

  unfoldable pub from_exchange :
      (String → ℤ → Option (Quote F)) → String → Event F → Option (MarketDataResult F)
  unfolding usable_quote
  from_exchange redis place e =
      let token = if place == "nse" then e.nse_code else e.bse_code in
      if leb_ℤ token (pos 0) then none else usable_quote place token (redis place token)

  -- `getMarketDataFromRedis`: the cache is a function from an exchange and a token, `none` being a miss, an
  -- error or a value that does not parse. The event's own exchange is asked first.
  unfoldable pub get_market_data_from_redis :
      (String → ℤ → Option (Quote F)) → Event F → Option (MarketDataResult F)
  unfolding from_exchange
  get_market_data_from_redis redis e =
      if equal_fold e.market.exchange "bse" || equal_fold e.market.exchange "bse_eq"
      then or_else (from_exchange redis "bse" e) (from_exchange redis "nse" e)
      else or_else (from_exchange redis "nse" e) (from_exchange redis "bse" e)

  -- Go's `math.Round`: to the nearest integer, halves away from zero.
  abbrev pub round_float : F → ℤ
  round_float x =
      if lt x nought
      then to_int (sub nought (floor (add (sub nought x) (ratio 1 2))))
      else to_int (floor (add x (ratio 1 2)))

  abbrev pub scale : F
  scale = ratio (100 * 1000 * 1000) 1
