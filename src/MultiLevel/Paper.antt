-- ===== src/MultiLevel/Paper.antt =====
-- services/trade-execution/internal/multilevel/manager.go: a paper exit of a level and the end of a group.
use algo_treading.Base.{not, ◌&&◌, String, ◌==◌, List, [], ◌∷◌, ◌++◌, if◌then◌else◌}
use algo_treading.Base.Int.{ℤ, pos, ◌-ℤ◌, ltb_ℤ, leb_ℤ, eqb_ℤ, ◌+32◌, ◌-32◌}
use algo_treading.Base.Float.{Float}
use algo_treading.MultiLevel.Types.{
  GroupState, LevelStatus, ExitType, Level, Group, is_triggered, nought,
}
use algo_treading.MultiLevel.Effects.{
  Effect, Hooks, when, other_side, exit_name, Outcome, level_status, partial_exit, filled_qty,
  qty_updated, level_triggered, sl_moved, group_completed, unregister, unsubscribe, forget_sl,
}
use algo_treading.MultiLevel.Rebalance.{rebalance_side}

module _ {ℓ} {F : Type ℓ} ⦃f : Float F⦄ where
  open f use {of_int, ratio, add, sub, mul, div, lt, le}

  unfoldable pub profit : Group F → F → ℤ → F
  profit g exit_price qty =
      if g.order_side == "BUY"
      then mul (sub exit_price g.fill_price) (of_int qty)
      else mul (sub g.fill_price exit_price) (of_int qty)

  -- `recordPaperPartialExit`: the row of the closed position.
  unfoldable pub record_paper_partial_exit : Group F → ℤ → F → String → ℤ → List (Effect F)
  unfolding profit
  record_paper_partial_exit g qty exit_price reason level_num =
      if leb_ℤ qty (pos 0)
      then []
      else partial_exit qty exit_price (profit g exit_price qty) reason level_num ∷ []

  -- The trigger price of the level with that number, or the given price.
  unfoldable pub trigger_of : List (Level F) → ℤ → F → F
  trigger_of [] n default = default
  trigger_of (l ∷ ls) n default =
      if eqb_ℤ l.level_num n then l.trigger_price else trigger_of ls n default

  unfoldable pub compute_new_sl_after_tp : Group F → ℤ → F → F
  unfolding trigger_of ◌-ℤ◌
  compute_new_sl_after_tp g level_num exit_price =
      if eqb_ℤ level_num (pos 1)
      then g.fill_price
      else trigger_of g.tp_levels (level_num -ℤ pos 1) exit_price

  unfoldable pub finish_group : Group F → List (Effect F)
  finish_group g =
      unregister
      ∷ unsubscribe
      ∷ when (not (g.single_sl_broker_id == "")) (forget_sl g.single_sl_broker_id ∷ [])

  unfoldable pub exit_value : F → List (Level F) → F
  exit_value acc [] = acc
  exit_value acc (l ∷ ls) =
      exit_value
        (if is_triggered l.status
          then add acc (mul l.exit_price (of_int l.original_exit_qty))
          else acc)
        ls

  unfoldable pub exited_qty : ℤ → List (Level F) → ℤ
  exited_qty acc [] = acc
  exited_qty acc (l ∷ ls) =
      exited_qty (if is_triggered l.status then acc +32 l.original_exit_qty else acc) ls

  unfoldable pub average_exit : Group F → F → F
  unfolding exit_value exited_qty
  average_exit g last_exit_price =
      let value = exit_value (exit_value nought g.sl_levels) g.tp_levels in
      let qty = exited_qty (exited_qty (pos 0) g.sl_levels) g.tp_levels in
      if ltb_ℤ (pos 0) qty then div value (of_int qty) else last_exit_price

  unfoldable pub finish_group_paper : Hooks → Group F → F → List (Effect F)
  unfolding finish_group average_exit profit
  finish_group_paper h g last_exit_price =
      let avg = average_exit g last_exit_price in
      finish_group g ++ when h.on_completed (group_completed (profit g avg g.total_qty) avg ∷ [])

  -- The decrement of `RemainingQty`, which completes the group at zero or below.
  unfoldable pub take_qty : ℤ → Group F → Group F
  take_qty qty g =
      let remaining = g.remaining_qty -32 qty in
      record g {
        remaining_qty = remaining;
        state = if leb_ℤ remaining (pos 0) then GroupState.completed else g.state;
      }

  unfoldable pub sl_moves : Hooks → ExitType → F → List (Effect F)
  sl_moves h ExitType.sl new_sl = []
  sl_moves h ExitType.tp new_sl = when (h.on_sl_moved && lt nought new_sl) (sl_moved new_sl ∷ [])

  unfoldable pub record_paper_exit : Hooks → ExitType → Level F → ℤ → F → Group F → Outcome F
  unfolding take_qty rebalance_side record_paper_partial_exit compute_new_sl_after_tp
      finish_group_paper sl_moves
  record_paper_exit h t level qty exit_price g =
      let taken = take_qty qty g in
      let remaining = taken.remaining_qty in
      let left = ltb_ℤ (pos 0) remaining in
      let balanced = if left then rebalance_side (other_side t) remaining taken else (taken, []) in
      let after = balanced.0 in
      let new_sl = compute_new_sl_after_tp after level.level_num exit_price in
      (
        after,
        (level_status t level.level_num LevelStatus.triggered exit_price ∷ [])
            ++ (record_paper_partial_exit g qty exit_price (exit_name t) level.level_num
                ++ ((filled_qty remaining ∷ when h.on_qty_updated (qty_updated remaining ∷ []))
                    ++ (balanced.1
                        ++ (when h.on_level_triggered
                              (level_triggered t level.level_num exit_price remaining ∷ [])
                            ++ (sl_moves h t new_sl
                                ++ when (not left) (finish_group_paper h after exit_price)))))),
      )
