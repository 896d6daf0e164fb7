-- ===== src/Oco/Placing.antt =====
-- services/trade-execution/internal/oco/manager.go: the placement of the legs after the entry filled
-- (placeOCOLegs, buildLegOrder, placeLegWithRetry). Other updates may come between `begin_legs` and
-- `end_legs`, since the group is not locked while the broker answers.
use algo_treading.Base.{
  ℕ, zero, suc, ◌+◌, Bool, true, false, not, ◌&&◌, ◌||◌, String, ◌==◌, List, [], ◌∷◌, ◌++◌, Option,
  none, some, if◌then◌else◌,
}
use algo_treading.Base.Int.{pos}
use algo_treading.Base.Float.{Float}
use algo_treading.MultiLevel.Types.{nought}
use algo_treading.MultiLevel.Effects.{when}
use algo_treading.Oco.Types.{
  OcoState, OcoRole, Group, Order, role_name, exit_side, leg_qty, calculate_sl_from_fill,
  calculate_tp_from_fill,
}
use algo_treading.Oco.Updates.{Effect, Outcome, check_legs_confirmed}

-- What a placement came to: the leg is off, or the broker refused it or gave it an id.
pub data Placed : Type 0 where
  skipped refused : Placed
  placed : String → Placed

abbrev pub id_of : Placed → String
id_of (Placed.placed id) = id
id_of _ = ""

abbrev pub is_refused : Placed → Bool
is_refused Placed.refused = true
is_refused _ = false

-- The trigger and limit of the stop-loss leg, and the limit of the take-profit leg, where they are on.
pub record LegPrices {ℓ} (F : Type ℓ) : Type ℓ where
  pub sl : Option (F × F)
  pub tp : Option F

module _ {ℓ} {F : Type ℓ} ⦃f : Float F⦄ where
  open f use {lt, le}

  -- The stop-loss is on the wrong side of the fill price.
  unfoldable pub sl_misplaced : Group F → F → Bool
  sl_misplaced g trigger =
      g.order_side == "BUY" && le g.entry_fill_price trigger
      || g.order_side == "SELL" && le trigger g.entry_fill_price

  unfoldable pub tp_misplaced : Group F → F → Bool
  tp_misplaced g limit =
      g.order_side == "BUY" && le limit g.entry_fill_price
      || g.order_side == "SELL" && le g.entry_fill_price limit

  -- The prices of the legs that are on, or nothing where none is or one is misplaced.
  unfoldable pub leg_prices : Group F → Option (LegPrices F)
  unfolding sl_misplaced tp_misplaced
  leg_prices g =
      let has_sl = lt nought g.sl_percent in
      let has_tp = lt nought g.tp_percent in
      let sl = calculate_sl_from_fill g g.entry_fill_price in
      let tp = calculate_tp_from_fill g g.entry_fill_price in
      if not has_sl && not has_tp
      then none
      else if has_sl && sl_misplaced g sl.0
      then none
      else if has_tp && tp_misplaced g tp
      then none
      else some
          (record { sl = if has_sl then some sl else none; tp = if has_tp then some tp else none })

  unfoldable pub build_leg_order : Group F → String → String → F → Option F → OcoRole → Order F
  build_leg_order g id kind price trigger role = record {
    order_id = id;
    user_id = g.user_id;
    strategy_id = g.strategy_id;
    symbol = g.symbol;
    order_type = kind;
    order_side = exit_side g;
    quantity = leg_qty g;
    price = some price;
    stop_loss = trigger;
    take_profit = none;
    status = "RECEIVED";
    indira_order_id = none;
    filled_price = none;
    filled_quantity = pos 0;
    stop_loss_type = none;
    trailing_sl_pct = none;
    highest_price = none;
    oco_group_id = some g.group_id;
    oco_role = some (role_name role);
  }

  unfoldable pub with_sl : String → Option (F × F) → Group F → Group F
  with_sl id none g = record g { sl_leg_confirmed = true }
  with_sl id (some (trigger, limit)) g = record g {
    sl_order_id = id;
    sl_trigger_price = trigger;
    sl_limit_price = limit;
  }

  unfoldable pub with_tp : String → Option F → Group F → Group F
  with_tp id none g = record g { tp_leg_confirmed = true }
  with_tp id (some limit) g = record g { tp_order_id = id; tp_limit_price = limit }

  abbrev pub sl_order_of : String → Option (F × F) → Group F → List (Effect F)
  sl_order_of id none g = []
  sl_order_of id (some (trigger, limit)) g =
      Effect.create_order (build_leg_order g id "STOP_LOSS" limit (some trigger) OcoRole.sl_leg)
      ∷ []

  abbrev pub tp_order_of : String → Option F → Group F → List (Effect F)
  tp_order_of id none g = []
  tp_order_of id (some limit) g =
      Effect.create_order (build_leg_order g id "LIMIT" limit none OcoRole.tp_leg) ∷ []

  -- The group, and the orders that are created and then placed. A group with no prices fails.
  unfoldable pub begin_with : String → String → Option (LegPrices F) → Group F → Outcome F
  unfolding with_sl with_tp
  begin_with sl_id tp_id none g = (record g { state = OcoState.failed }, [])
  begin_with sl_id tp_id (some p) g = (
    with_tp tp_id p.tp (with_sl sl_id p.sl g),
    sl_order_of sl_id p.sl g ++ tp_order_of tp_id p.tp g,
  )

  -- The first part of `placeOCOLegs`, with the new ids of the orders.
  unfoldable pub begin_legs : String → String → Group F → Outcome F
  unfolding begin_with
  begin_legs sl_id tp_id g = begin_with sl_id tp_id (leg_prices g) g

  -- The broker id of a placed leg, if it is not empty, is kept; the leg counts as confirmed.
  unfoldable pub register_sl : String → Group F → Group F
  register_sl id g = if id == "" then g else record g { sl_broker_id = id; sl_leg_confirmed = true }

  unfoldable pub register_tp : String → Group F → Group F
  register_tp id g = if id == "" then g else record g { tp_broker_id = id; tp_leg_confirmed = true }

  abbrev pub indexed : String → List (Effect F)
  indexed id = when (not (id == "")) (Effect.index id ∷ [])

  -- Legs that are submitted, and active at once where both are confirmed.
  unfoldable pub submit_legs : Group F → List (Effect F) → String → Outcome F
  submit_legs g calls message =
      let checked = check_legs_confirmed (record g { state = OcoState.legs_submitted }) in
      (checked.0, calls ++ (checked.1 ++ (Effect.broadcast message ∷ [])))

  -- A stop-loss leg that the broker refused, with a take-profit leg that it did not.
  unfoldable pub drop_tp : String → Group F → Outcome F
  drop_tp id g = (
    record (if id == "" then g else record g { tp_broker_id = id }) { state = OcoState.failed },
    indexed id ++ (Effect.cancel_leg id ∷ Effect.broadcast "oco_legs_failed" ∷ []),
  )

  -- The last part of `placeOCOLegs`, under the lock of the group.
  unfoldable pub end_legs : Placed → Placed → Group F → Outcome F
  unfolding register_sl register_tp submit_legs drop_tp
  end_legs sl tp g =
      if is_refused sl && is_refused tp
      then (
        record g { state = OcoState.failed },
        Effect.schedule_cleanup ∷ Effect.broadcast "oco_legs_failed" ∷ [],
      )
      else if is_refused sl
      then drop_tp (id_of tp) g
      else if is_refused tp
      then submit_legs (record (register_sl (id_of sl) g) { tp_leg_confirmed = true })
          (indexed (id_of sl)) "oco_tp_rejected"
      else submit_legs (register_tp (id_of tp) (register_sl (id_of sl) g))
          (indexed (id_of sl) ++ indexed (id_of tp)) "oco_legs_submitted"

-- `maxLegPlacementRetries`.
abbrev pub max_leg_placement_retries : ℕ
max_leg_placement_retries = 3

-- The attempts that are left, from that one on; `answers` is what the broker says to each.
unfoldable pub place_from : (ℕ → Option String) → ℕ → ℕ → Placed
place_from answers attempt zero = Placed.refused
place_from answers attempt (suc left) =
    let rest = place_from answers (attempt + 1) left in
    elim (answers attempt) [ none ↦ rest | some id ↦ Placed.placed id ]

unfoldable pub place_leg_with_retry : (ℕ → Option String) → Placed
unfolding place_from
place_leg_with_retry answers = place_from answers 0 max_leg_placement_retries
