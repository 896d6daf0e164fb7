-- ===== src/MultiLevel/Types.antt =====
-- services/trade-execution/internal/multilevel/types.go: the state of one group and its price rules.
-- Timestamps, locks and the fields that only travel into orders (validity, event, credentials) are
-- left out; prices are any type of floats.
use algo_treading.Base.{Bool, true, false, not, ◌&&◌, ◌||◌, String, ◌==◌, List, if◌then◌else◌}
use algo_treading.Base.Int.{ℤ, pos, ◌+ℤ◌, ◌*ℤ◌, wrap64}
use algo_treading.Base.Float.{Float, trunc_div}
use algo_treading.MultiLevel.Split.{LevelConfig}

pub data GroupState : Type 0 where
  active completed cancelled : GroupState

pub data LevelStatus : Type 0 where
  pending active triggered cancelled : LevelStatus

-- `models.MLExitTypeSL` and `models.MLExitTypeTP`.
pub data ExitType : Type 0 where
  sl tp : ExitType

abbrev pub is_live : GroupState → Bool
is_live GroupState.active = true
is_live _ = false

abbrev pub is_active : LevelStatus → Bool
is_active LevelStatus.active = true
is_active _ = false

abbrev pub is_triggered : LevelStatus → Bool
is_triggered LevelStatus.triggered = true
is_triggered _ = false

abbrev pub sl_mode_fixed : String
sl_mode_fixed = "FIXED"

abbrev pub sl_mode_trailing : String
sl_mode_trailing = "TRAILING"

abbrev pub mode_multi_level : String
mode_multi_level = "MULTI_LEVEL"

-- `ExitLevelState`.
pub record Level {ℓ} (F : Type ℓ) : Type ℓ where
  pub level_num : ℤ
  pub trigger_price : F
  pub exit_qty : ℤ
  pub original_exit_qty : ℤ
  pub status : LevelStatus
  pub broker_order_id : String
  pub exit_order_id : String
  pub exit_price : F

-- `Group`.
pub record Group {ℓ} (F : Type ℓ) : Type ℓ where
  pub group_id : String
  pub entry_order_id : String
  pub user_id : String
  pub strategy_id : String
  pub symbol : String
  pub stock_code : ℤ
  pub order_side : String
  pub fill_price : F
  pub total_qty : ℤ
  pub sl_levels : List (Level F)
  pub tp_levels : List (Level F)
  pub sl_mode : String
  pub fixed_sl_pct : F
  pub trailing_sl_pct : F
  pub highest_price : F
  pub current_sl_trigger : F
  pub single_sl_broker_id : String
  pub tp_mode : String
  pub state : GroupState
  pub remaining_qty : ℤ
  pub trading_mode : String
  pub has_auth : Bool
  pub sl_level_configs : List (LevelConfig F)
  pub tp_level_configs : List (LevelConfig F)
  pub entry_filled : Bool
  pub evaluating : Bool

module _ {ℓ} {F : Type ℓ} where
  unfoldable pub mark_cancelled : Level F → Level F
  mark_cancelled l = record l { status = LevelStatus.cancelled }

  unfoldable pub try_mark_triggered : Level F → F → Level F × Bool
  try_mark_triggered l price =
      if is_active l.status
      then (record l { status = LevelStatus.triggered; exit_price = price }, true)
      else (l, false)

  -- The compare-and-swap on `evaluating`.
  unfoldable pub try_claim_evaluation : Group F → Group F × Bool
  try_claim_evaluation g =
      if g.evaluating then (g, false) else (record g { evaluating = true }, true)

  unfoldable pub release_evaluation : Group F → Group F
  release_evaluation g = record g { evaluating = false }

  unfoldable pub exit_side : Group F → String
  exit_side g = if g.order_side == "BUY" then "SELL" else "BUY"

-- The rounding of paise to a multiple of five, in int64 arithmetic.
unfoldable pub tick_of : ℤ → ℤ
unfolding ◌*ℤ◌ ◌+ℤ◌ trunc_div wrap64
tick_of paise = wrap64 (◌*ℤ◌ (trunc_div (wrap64 (paise +ℤ pos 2)) 5) (pos 5))

module _ {ℓ} {F : Type ℓ} ⦃f : Float F⦄ where
  open f use {of_int, ratio, add, sub, mul, div, to_int, lt, le}

  unfoldable pub round_nse : F → F
  unfolding tick_of
  round_nse price =
      div (of_int (tick_of (to_int (add (mul price (ratio 100 1)) (ratio 5 10))))) (ratio 100 1)

  -- `price * (1 - pct/100)` and `price * (1 + pct/100)`.
  abbrev pub below : F → F → F
  below price pct = mul price (sub (ratio 1 1) (div pct (ratio 100 1)))

  abbrev pub above : F → F → F
  above price pct = mul price (add (ratio 1 1) (div pct (ratio 100 1)))

  unfoldable pub calc_sl_trigger_price : Group F → F → F
  unfolding round_nse
  calc_sl_trigger_price g pct =
      if g.order_side == "BUY"
      then round_nse (below g.fill_price pct)
      else round_nse (above g.fill_price pct)

  unfoldable pub calc_tp_limit_price : Group F → F → F
  unfolding round_nse
  calc_tp_limit_price g pct =
      if g.order_side == "BUY"
      then round_nse (above g.fill_price pct)
      else round_nse (below g.fill_price pct)

  unfoldable pub sl_breached : Group F → F → F → Bool
  sl_breached g trigger ltp = if g.order_side == "BUY" then le ltp trigger else le trigger ltp

  unfoldable pub tp_reached : Group F → F → F → Bool
  tp_reached g limit ltp = if g.order_side == "BUY" then le limit ltp else le ltp limit

  abbrev pub nought : F
  nought = ratio 0 1

  abbrev pub is_pos : F → Bool
  is_pos x = lt nought x

  -- The smallest change, in percent, for which a new trigger is sent.
  unfoldable pub min_change : Group F → F
  min_change g = if le g.trailing_sl_pct nought then ratio 1 10 else g.trailing_sl_pct

  -- `(a - b) / c * 100`.
  abbrev pub change_pct : F → F → F → F
  change_pct a b c = mul (div (sub a b) c) (ratio 100 1)

  unfoldable pub trail_buy : Group F → F → F × Bool
  unfolding round_nse min_change
  trail_buy g ltp =
      let trigger = round_nse (below ltp g.trailing_sl_pct) in
      let cur = g.current_sl_trigger in
      if le ltp g.highest_price
      then (nought, false)
      else if is_pos cur && le trigger cur
      then (nought, false)
      else if is_pos cur && lt (change_pct trigger cur cur) (min_change g)
      then (nought, false)
      else (trigger, true)

  unfoldable pub trail_sell : Group F → F → F × Bool
  unfolding round_nse min_change
  trail_sell g ltp =
      let trigger = round_nse (above ltp g.trailing_sl_pct) in
      let cur = g.current_sl_trigger in
      if le g.highest_price nought || le g.highest_price ltp
      then (nought, false)
      else if is_pos cur && le cur trigger
      then (nought, false)
      else if is_pos cur && lt (change_pct cur trigger cur) (min_change g)
      then (nought, false)
      else (trigger, true)

  unfoldable pub calc_trailing_sl : Group F → F → F × Bool
  unfolding trail_buy trail_sell
  calc_trailing_sl g ltp =
      if not (g.sl_mode == sl_mode_trailing) || g.single_sl_broker_id == ""
      then (nought, false)
      else if g.order_side == "BUY"
      then trail_buy g ltp
      else trail_sell g ltp
