-- ===== src/MultiLevel/Cancellation.antt =====
-- services/trade-execution/internal/multilevel/manager.go: the cancellations of a group.
use algo_treading.Base.{
  Bool, not, ◌&&◌, String, ◌==◌, List, [], ◌∷◌, ◌++◌, Option, none, some, if◌then◌else◌,
}
use algo_treading.Base.Int.{pos, ltb_ℤ}
use algo_treading.Base.Float.{Float}
use algo_treading.MultiLevel.Types.{
  GroupState, LevelStatus, ExitType, Level, Group, is_live, is_active, nought,
}
use algo_treading.MultiLevel.Effects.{
  Effect, level_status, unregister, unsubscribe, forget_sl, forget_level, cancel_order, filled_qty,
  when, Outcome,
}
use algo_treading.MultiLevel.Paper.{record_paper_partial_exit}
use algo_treading.MultiLevel.Broker.{cancel_levels, cancel_orders}

module _ {ℓ} {F : Type ℓ} ⦃f : Float F⦄ where
  open f use {lt}

  -- `cancelGroupInternal`.
  unfoldable pub cancel_group_internal : Group F → Outcome F
  unfolding cancel_levels cancel_orders
  cancel_group_internal g =
      let bid = g.single_sl_broker_id in
      let live = g.trading_mode == "LIVE" && g.has_auth in
      let ended = record g { state = GroupState.cancelled } in
      let swept = record ended {
        sl_levels = cancel_levels g.sl_levels;
        tp_levels = cancel_levels g.tp_levels;
      } in
      if not (is_live g.state) then (g, []) else (
        if live then swept else ended,
        unregister
            ∷ unsubscribe
            ∷ (when (not (bid == "")) (forget_sl bid ∷ [])
                ++ when live (
                    when (not (bid == "")) (cancel_order bid ∷ [])
                    ++ (cancel_orders g.sl_levels ++ cancel_orders g.tp_levels))),
      )

  unfoldable pub paper_exit_at : Option F → Group F → List (Effect F)
  unfolding record_paper_partial_exit
  paper_exit_at none g = []
  paper_exit_at (some ltp) g = when (lt nought ltp) (
      record_paper_partial_exit g g.remaining_qty ltp "STRATEGY_DEACTIVATED" (pos 0)
      ++ (filled_qty (pos 0) ∷ []))

  -- One group of `CancelGroupsByStrategy`, with the price that was looked up, if it was.
  unfoldable pub cancel_for_strategy : Option F → Group F → Outcome F
  unfolding paper_exit_at
  cancel_for_strategy ltp g = if not (is_live g.state) then (g, []) else (
    record g { state = GroupState.cancelled },
    when (g.trading_mode == "PAPER" && ltb_ℤ (pos 0) g.remaining_qty) (paper_exit_at ltp g)
        ++ (unregister ∷ unsubscribe ∷ []),
  )

  -- `cancelTPOrder` on the levels with a broker order; `accepts` is the broker's answer.
  unfoldable pub cancel_tp_levels : (String → Bool) → List (Level F) → List (Level F)
  cancel_tp_levels accepts [] = []
  cancel_tp_levels accepts (l ∷ ls) =
      let rest = cancel_tp_levels accepts ls in
      if is_active l.status && not (l.broker_order_id == "") && accepts l.broker_order_id
      then record l { status = LevelStatus.cancelled } ∷ rest
      else l ∷ rest

  unfoldable pub cancel_tp_calls : (String → Bool) → List (Level F) → List (Effect F)
  cancel_tp_calls accepts [] = []
  cancel_tp_calls accepts (l ∷ ls) =
      let rest = cancel_tp_calls accepts ls in
      let bid = l.broker_order_id in
      let done =
        forget_level bid ∷ level_status ExitType.tp l.level_num LevelStatus.cancelled nought ∷ [] in
      if is_active l.status && not (bid == "")
      then cancel_order bid ∷ (when (accepts bid) done ++ rest)
      else rest

  unfoldable pub cancel_group_for_exit : Bool → (String → Bool) → F → String → Group F → Outcome F
  unfolding cancel_tp_levels cancel_tp_calls record_paper_partial_exit
  cancel_group_for_exit has_broker accepts exit_price reason g =
      let reachable = has_broker && g.has_auth in
      let bid = g.single_sl_broker_id in
      let after = record g {
        state = GroupState.cancelled;
        single_sl_broker_id = "";
        tp_levels = if reachable then cancel_tp_levels accepts g.tp_levels else g.tp_levels;
      } in
      let paper =
        g.trading_mode == "PAPER" && ltb_ℤ (pos 0) g.remaining_qty && lt nought exit_price in
      if not (is_live g.state) then (g, []) else (
        after,
        when reachable (
              cancel_tp_calls accepts g.tp_levels ++ when (not (bid == "")) (cancel_order bid ∷ []))
            ++ (when paper (
                  record_paper_partial_exit g g.remaining_qty exit_price reason (pos 0)
                  ++ (filled_qty (pos 0) ∷ []))
                ++ (unregister ∷ unsubscribe ∷ forget_sl "" ∷ [])),
      )
