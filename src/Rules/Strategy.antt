-- ===== src/Rules/Strategy.antt =====
-- services/rules-engine/internal/models/strategy.go: a strategy and its validation. Timestamps and the
-- front end's credentials are left out; `nil` slices are empty lists.
use algo_treading.Base.{
  ℕ, Bool, not, ◌&&◌, ◌||◌, String, ◌==◌, List, Option, none, some, if◌then◌else◌,
}
use algo_treading.Base.Int.{ℤ, pos, ltb_ℤ, leb_ℤ}
use algo_treading.Base.Float.{Float}
use algo_treading.MultiLevel.Split.{LevelConfig}
use algo_treading.MultiLevel.Types.{nought}

-- `PriceRange` and `MarketCapRange`.
pub record Range {ℓ} (F : Type ℓ) : Type ℓ where
  pub min : F
  pub max : F

pub record Conditions {ℓ} (F : Type ℓ) : Type ℓ where
  pub match_all_news : Bool
  pub impact_score_min : ℤ
  pub impact_score_max : ℤ
  pub sentiments : List String
  pub categories : List String
  pub price_range : Range F
  pub min_pct_change : F
  pub max_pct_change : F
  pub exchanges : List String
  pub market_cap_types : List String
  pub market_cap_range : Range F

pub record TradeConfig {ℓ} (F : Type ℓ) : Type ℓ where
  pub order_type : String
  pub quantity : ℤ
  pub max_position_size : F
  pub stop_loss_pct : F
  pub take_profit_pct : F
  pub exchange : String
  pub order_side : String
  pub validity : String
  pub limit_price : F
  pub stop_loss_type : String
  pub take_profit_type : String
  pub trailing_sl_pct : F
  pub product_type : String
  pub multi_level_sl : List (LevelConfig F)
  pub multi_level_tp : List (LevelConfig F)
  pub trade_window_start : String
  pub trade_window_end : String

pub record RiskLimits {ℓ} (F : Type ℓ) : Type ℓ where
  pub max_daily_trades : ℤ
  pub max_loss_per_day : F
  pub max_position_size : F
  pub max_per_trade_risk : F
  pub position_sizing : String
  pub enable_auto_square_off : Bool
  pub auto_square_off_time : String
  pub max_amount_per_stock : F
  pub max_trades_per_strategy : ℤ

pub record Strategy {ℓ} (F : Type ℓ) : Type ℓ where
  pub strategy_id : String
  pub user_id : String
  pub strategy_name : String
  pub version : ℕ
  pub active : Bool
  pub trading_mode : String
  pub conditions : Conditions F
  pub trade_config : TradeConfig F
  pub risk_limits : RiskLimits F

-- The errors of `Validate`.
pub data Invalid : Type 0 where
  strategy_id user_id impact_score quantity order_type : Invalid

abbrev pub outside_scores : ℤ → Bool
outside_scores n = ltb_ℤ n (pos 0) || ltb_ℤ (pos 10) n

module _ {ℓ} {F : Type ℓ} ⦃f : Float F⦄ where
  open f use {eq, lt}

  unfoldable pub validate : Strategy F → Option Invalid
  validate s =
      let kind = s.trade_config.order_type in
      if s.strategy_id == ""
      then some Invalid.strategy_id
      else if s.user_id == ""
      then some Invalid.user_id
      else if outside_scores s.conditions.impact_score_min
          || outside_scores s.conditions.impact_score_max
      then some Invalid.impact_score
      else if eq s.risk_limits.max_amount_per_stock nought && leb_ℤ s.trade_config.quantity (pos 0)
      then some Invalid.quantity
      else if not (kind == "MARKET")
          && not (kind == "LIMIT")
          && not (kind == "BRACKET")
          && not (kind == "STOP_LOSS")
      then some Invalid.order_type
      else none

  -- `validateStrategyConfig` of the bootstrapper: whether the strategy is loaded.
  unfoldable pub is_loadable : Strategy F → Bool
  is_loadable s =
      let c = s.conditions in
      let both = lt nought c.min_pct_change && lt nought c.max_pct_change in
      not (s.strategy_id == "")
      && not (s.user_id == "")
      && not (ltb_ℤ c.impact_score_max c.impact_score_min)
      && not (both && lt c.max_pct_change c.min_pct_change)
      && not (leb_ℤ s.trade_config.quantity (pos 0))
      && not (ltb_ℤ s.risk_limits.max_daily_trades (pos 0))
