-- ===== src/Oco/Types.antt =====
-- services/trade-execution/internal/oco/types.go and internal/models/order.go: the states of a group, the
-- group and its prices. Timestamps, credentials and the fields that only travel into orders (exchange,
-- stock code, product, validity, event) are left out; prices are any type of floats.
use algo_treading.Base.{
  Bool, true, false, not, ◌||◌, String, ◌==◌, [], ◌∷◌, Option, none, some, if◌then◌else◌,
}
use algo_treading.Base.Int.{ℤ, pos, leb_ℤ}
use algo_treading.Base.Float.{Float}
use algo_treading.Base.Text.{is_one_of}
use algo_treading.MultiLevel.Types.{round_nse, below, above, nought}

pub data OcoState : Type 0 where
  pending_entry placing_legs legs_submitted active sl_triggered : OcoState
  tp_triggered completed failed cancelled : OcoState

unfoldable pub is_terminal : OcoState → Bool
is_terminal OcoState.completed = true
is_terminal OcoState.failed = true
is_terminal OcoState.cancelled = true
is_terminal _ = false

-- `StateActive` or `StateLegsSubmitted`.
abbrev pub is_open : OcoState → Bool
is_open OcoState.active = true
is_open OcoState.legs_submitted = true
is_open _ = false

abbrev pub is_pending_entry : OcoState → Bool
is_pending_entry OcoState.pending_entry = true
is_pending_entry _ = false

abbrev pub is_submitted : OcoState → Bool
is_submitted OcoState.legs_submitted = true
is_submitted _ = false

abbrev pub is_active : OcoState → Bool
is_active OcoState.active = true
is_active _ = false

abbrev pub is_failed : OcoState → Bool
is_failed OcoState.failed = true
is_failed _ = false

pub data OcoRole : Type 0 where
  entry sl_leg tp_leg : OcoRole

abbrev pub role_name : OcoRole → String
role_name OcoRole.entry = "ENTRY"
role_name OcoRole.sl_leg = "SL_LEG"
role_name OcoRole.tp_leg = "TP_LEG"

-- `OCOGroup`; `partial_fill_cancel` says whether `PartialFillCancelFunc` is set.
pub record Group {ℓ} (F : Type ℓ) : Type ℓ where
  pub group_id : String
  pub user_id : String
  pub strategy_id : String
  pub symbol : String
  pub entry_order_id : String
  pub entry_broker_id : String
  pub entry_fill_price : F
  pub sl_order_id : String
  pub sl_broker_id : String
  pub sl_trigger_price : F
  pub sl_limit_price : F
  pub tp_order_id : String
  pub tp_broker_id : String
  pub tp_limit_price : F
  pub sl_percent : F
  pub tp_percent : F
  pub trailing_sl : Bool
  pub trailing_sl_pct : F
  pub state : OcoState
  pub highest_price : F
  pub pnl : F
  pub sl_leg_confirmed : Bool
  pub tp_leg_confirmed : Bool
  pub quantity : ℤ
  pub order_side : String
  pub filled_qty : ℤ
  pub partial_fill_active : Bool
  pub partial_fill_cancel : Bool
  pub partial_fill_timer_started : Bool

-- The part of `models.Order` that the package reads or writes.
pub record Order {ℓ} (F : Type ℓ) : Type ℓ where
  pub order_id : String
  pub user_id : String
  pub strategy_id : String
  pub symbol : String
  pub order_type : String
  pub order_side : String
  pub quantity : ℤ
  pub price : Option F
  pub stop_loss : Option F
  pub take_profit : Option F
  pub status : String
  pub indira_order_id : Option String
  pub filled_price : Option F
  pub filled_quantity : ℤ
  pub stop_loss_type : Option String
  pub trailing_sl_pct : Option F
  pub highest_price : Option F
  pub oco_group_id : Option String
  pub oco_role : Option String

unfoldable pub is_filled_status : String → Bool
is_filled_status = is_one_of ("FILLED" ∷ "EXECUTED" ∷ "TRADED" ∷ [])

unfoldable pub is_partially_filled_status : String → Bool
is_partially_filled_status =
    is_one_of ("PARTIALLY_FILLED" ∷ "PARTIALLY TRADED" ∷ "PARTIALLY EXECUTED" ∷ [])

unfoldable pub is_terminal_status : String → Bool
is_terminal_status = is_one_of (
    "FILLED" ∷ "EXECUTED" ∷ "TRADED" ∷ "CANCELLED" ∷ "REJECTED" ∷ "A.REJECTED" ∷ "FAILED"
    ∷ "EXPIRED" ∷ [])

module _ {ℓ} {F : Type ℓ} where
  unfoldable pub exit_side : Group F → String
  exit_side g = if g.order_side == "BUY" then "SELL" else "BUY"

  -- The quantity of the legs: what is filled, or all of the order.
  unfoldable pub leg_qty : Group F → ℤ
  leg_qty g = if leb_ℤ g.filled_qty (pos 0) then g.quantity else g.filled_qty

module _ {ℓ} {F : Type ℓ} ⦃f : Float F⦄ where
  open f use {ratio, add, sub, mul, div, lt, le}

  -- `trigger * (1 - 0.005)` and `trigger * (1 + 0.005)`.
  abbrev pub limit_below : F → F
  limit_below trigger = mul trigger (sub (ratio 1 1) (ratio 5 1000))

  abbrev pub limit_above : F → F
  limit_above trigger = mul trigger (add (ratio 1 1) (ratio 5 1000))

  -- Trigger and limit of the stop-loss leg.
  unfoldable pub calculate_sl_from_fill : Group F → F → F × F
  calculate_sl_from_fill g fill =
      if g.order_side == "BUY"
      then (let trigger = below fill g.sl_percent in
          (round_nse trigger, round_nse (limit_below trigger)))
      else (let trigger = above fill g.sl_percent in
          (round_nse trigger, round_nse (limit_above trigger)))

  unfoldable pub calculate_tp_from_fill : Group F → F → F
  calculate_tp_from_fill g fill =
      if g.order_side == "BUY"
      then round_nse (above fill g.tp_percent)
      else round_nse (below fill g.tp_percent)

  -- The smallest change, in percent, for which a new trigger is sent.
  unfoldable pub min_pct : Group F → F
  min_pct g =
      if le g.trailing_sl_pct nought || lt (ratio 5 10) g.trailing_sl_pct
      then ratio 1 10
      else g.trailing_sl_pct

  -- The absolute change of the trigger, in percent.
  abbrev pub change_of : Group F → F → F
  change_of g trigger =
      let c = mul (div (sub trigger g.sl_trigger_price) g.sl_trigger_price) (ratio 100 1) in
      if lt c nought then sub nought c else c

  -- Trigger and limit that the stop-loss leg trails to, if it moves.
  unfoldable pub calculate_trailing_sl : Group F → F → Option (F × F)
  unfolding min_pct
  calculate_trailing_sl g ltp =
      let trigger = mul g.sl_trigger_price (div ltp g.highest_price) in
      let buy = g.order_side == "BUY" in
      let limit = if buy then limit_below trigger else limit_above trigger in
      if not g.trailing_sl || not (is_active g.state)
      then none
      else if le g.highest_price nought || le g.sl_trigger_price nought
      then none
      else if (if buy then le ltp g.highest_price else le g.highest_price ltp)
      then none
      else if (if buy then le trigger g.sl_trigger_price else le g.sl_trigger_price trigger)
      then none
      else if lt (change_of g trigger) (min_pct g)
      then none
      else some (round_nse trigger, round_nse limit)
