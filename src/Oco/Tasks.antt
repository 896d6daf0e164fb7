-- ===== src/Oco/Tasks.antt =====
-- services/trade-execution/internal/oco/manager.go and trailing.go: what runs beside the broker updates of
-- a group. Timers of partial fills, new quantities, the cancellation of a leg or of the group, and the
-- trailing of the stop-loss leg.
use algo_treading.Base.{
  ℕ, zero, suc, ◌+◌, Bool, true, false, not, ◌&&◌, ◌||◌, String, ◌==◌, [], ◌∷◌, ◌++◌, Option, none,
  some, if◌then◌else◌,
}
use algo_treading.Base.Int.{ℤ, pos}
use algo_treading.Base.Float.{Float}
use algo_treading.MultiLevel.Types.{nought}
use algo_treading.MultiLevel.Effects.{when}
use algo_treading.Oco.Types.{
  OcoState, Group, Order, is_terminal, is_open, is_active, is_failed, is_pending_entry, exit_side,
  leg_qty, calculate_trailing_sl,
}
use algo_treading.Oco.Updates.{Effect, Outcome}

-- The broker's answer to a cancellation: done, not needed any more, or an error.
pub data CancelAnswer : Type 0 where
  done gone failed : CancelAnswer

-- The calls of the loop that cancels an order, with that many attempts left.
unfoldable pub cancel_calls : (ℕ → CancelAnswer) → ℕ → ℕ → ℕ
cancel_calls answers attempt zero = 0
cancel_calls answers attempt (suc left) =
    let rest = cancel_calls answers (attempt + 1) left in
    elim (answers attempt) [ CancelAnswer.failed ↦ suc rest | _ ↦ 1 ]

-- The number of calls of the broker that `cancelLeg` and `cancelEntryRemaining` make.
unfoldable pub cancel_leg_calls : (ℕ → CancelAnswer) → String → ℕ
unfolding cancel_calls
cancel_leg_calls answers id = if id == "" then 0 else cancel_calls answers 0 3

module _ {ℓ} {F : Type ℓ} where
  -- `cancelLeg`: whatever the broker answers, the group is completed at the end.
  unfoldable pub cancel_leg : String → Group F → Outcome F
  cancel_leg id g =
      if id == ""
      then (g, [])
      else (record g { state = OcoState.completed }, Effect.broadcast "oco_completed" ∷ [])

  -- `startPartialFillTimer` after the legs were placed for a partial fill.
  unfoldable pub after_partial_legs : Group F → Outcome F
  after_partial_legs g =
      if not (is_failed g.state) && g.partial_fill_active && not g.partial_fill_timer_started
      then (
        record g { partial_fill_timer_started = true; partial_fill_cancel = true },
        Effect.start_timer ∷ [],
      )
      else (g, [])

  -- The timer ran out, and `cancelEntryRemaining` follows.
  unfoldable pub timer_expired : Group F → Outcome F
  timer_expired g = if not g.partial_fill_active then (g, []) else (
    record g {
      partial_fill_active = false;
      partial_fill_timer_started = false;
      partial_fill_cancel = false;
    },
    when (not (g.entry_broker_id == "")) (Effect.cancel_entry g.entry_broker_id ∷ [])
        ++ (Effect.broadcast "oco_partial_fill_timeout" ∷ []),
  )

  -- The order that `modifyLegsQty` and `ModifySLLeg` send for a leg.
  unfoldable pub modified_leg : Group F → String → String → String → ℤ → F → Option F → Order F
  modified_leg g id broker_id kind qty price trigger = record {
    order_id = id;
    user_id = "";
    strategy_id = "";
    symbol = g.symbol;
    order_type = kind;
    order_side = exit_side g;
    quantity = qty;
    price = some price;
    stop_loss = trigger;
    take_profit = none;
    status = "";
    indira_order_id = some broker_id;
    filled_price = none;
    filled_quantity = pos 0;
    stop_loss_type = none;
    trailing_sl_pct = none;
    highest_price = none;
    oco_group_id = none;
    oco_role = none;
  }

  unfoldable pub modify_legs_qty : ℤ → Group F → Outcome F
  unfolding modified_leg
  modify_legs_qty qty g = (
    record g { filled_qty = qty },
    when (not (g.sl_broker_id == "")) (
          Effect.modify_order (
            modified_leg g g.sl_order_id g.sl_broker_id "STOP_LOSS" qty g.sl_limit_price
              (some g.sl_trigger_price))
          ∷ [])
        ++ when (not (g.tp_broker_id == "")) (
            Effect.modify_order
              (modified_leg g g.tp_order_id g.tp_broker_id "LIMIT" qty g.tp_limit_price none)
            ∷ []),
  )

  -- `CancelGroup` of a group that was found: an error where it is over.
  unfoldable pub cancel_group : Group F → Outcome F × Bool
  cancel_group g =
      let entry = is_pending_entry g.state && not (g.entry_broker_id == "") in
      let calls =
        when entry (Effect.cancel_leg g.entry_broker_id ∷ [])
        ++ when (is_open g.state) (
            when (not (g.sl_broker_id == "")) (Effect.cancel_leg g.sl_broker_id ∷ [])
            ++ when (not (g.tp_broker_id == "")) (Effect.cancel_leg g.tp_broker_id ∷ [])) in
      if is_terminal g.state then ((g, []), false) else (
        (record g { state = OcoState.cancelled }, calls ++ (Effect.schedule_cleanup ∷ [])),
        true,
      )

module _ {ℓ} {F : Type ℓ} ⦃f : Float F⦄ where
  open f use {lt}

  -- `ModifySLLeg`: `accepts` is the broker's last answer. False stands for an error.
  unfoldable pub modify_sl_leg : Bool → F → F → F → Group F → Outcome F × Bool
  unfolding modified_leg
  modify_sl_leg accepts trigger limit highest g =
      let order =
        modified_leg g g.sl_order_id g.sl_broker_id "STOP_LOSS" (leg_qty g) limit (some trigger) in
      let calls = Effect.modify_order order ∷ [] in
      let after = record g {
        sl_trigger_price = trigger;
        sl_limit_price = limit;
        highest_price = if lt nought highest then highest else g.highest_price;
      } in
      if not (is_active g.state) || g.sl_broker_id == ""
      then ((g, []), false)
      else if not accepts
      then ((g, calls), false)
      else ((after, calls), true)

  unfoldable pub trail_to : Bool → F → Option (F × F) → Group F → Outcome F
  unfolding modify_sl_leg
  trail_to accepts ltp none g = (g, [])
  trail_to accepts ltp (some (trigger, limit)) g = (modify_sl_leg accepts trigger limit ltp g).0

  -- `evaluateTrailing`, with the broker's answer to a modification.
  unfoldable pub evaluate_trailing : Bool → F → Group F → Outcome F
  unfolding trail_to
  evaluate_trailing accepts ltp g = trail_to accepts ltp (calculate_trailing_sl g ltp) g
