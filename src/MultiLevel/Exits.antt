-- ===== src/MultiLevel/Exits.antt =====
-- services/trade-execution/internal/multilevel/manager.go: what a price tick does to one group. A handler
-- returns the new group and, in order, the calls that it makes or starts.
pub mod Levels
pub mod Sold
pub mod Invariant
pub mod Ticks
pub mod Runs
pub mod Whole
use algo_treading.Base.{
  ℕ, Bool, true, false, not, ◌&&◌, ◌||◌, String, ◌==◌, List, [], ◌∷◌, ◌++◌, map, Option, none, some,
  if◌then◌else◌,
}
use algo_treading.Base.Int.{ℤ, pos, ◌+ℤ◌, ◌-ℤ◌, ltb_ℤ, leb_ℤ, eqb_ℤ, ◌+32◌, ◌-32◌}
use algo_treading.Base.Float.{Float}
use algo_treading.MultiLevel.Split.{LevelConfig, compute_rebalanced_qtys}
use algo_treading.MultiLevel.Types.{
  GroupState, LevelStatus, ExitType, Level, Group, is_live, is_active, is_triggered, sl_mode_fixed,
  sl_mode_trailing, mode_multi_level, try_mark_triggered, mark_cancelled, try_claim_evaluation,
  release_evaluation, sl_breached, tp_reached, calc_trailing_sl, nought,
}
use algo_treading.MultiLevel.Effects.{
  Effect, Hooks, when, Outcome, skip, modify_sl, place_market, replace_sl, replace_sl_trailing,
}
use algo_treading.MultiLevel.Paper.{finish_group, take_qty, record_paper_exit}

module _ {ℓ} {F : Type ℓ} ⦃f : Float F⦄ where
  open f use {of_int, ratio, add, sub, mul, div, lt, le}

  -- The first active level whose trigger is met, marked as triggered.
  unfoldable pub trigger_first : (F → Bool) → F → List (Level F) → Option (Level F × List (Level F))
  unfolding try_mark_triggered
  trigger_first met ltp [] = none
  trigger_first met ltp (l ∷ ls) =
      let later = skip l (trigger_first met ltp ls) in
      let marked = try_mark_triggered l ltp in
      if is_active l.status && met l.trigger_price && marked.1
      then some (marked.0, marked.0 ∷ ls)
      else later

  -- `evaluateTrailingSL`, up to the broker's answer.
  unfoldable pub evaluate_trailing_sl : Group F → F → Group F × List (Effect F)
  unfolding calc_trailing_sl
  evaluate_trailing_sl g ltp =
      let moved = calc_trailing_sl g ltp in
      if moved.1
      then (
        record g { highest_price = ltp },
        modify_sl g.single_sl_broker_id g.remaining_qty moved.0 ∷ [],
      )
      else (g, [])

  -- The broker confirmed the modification: only now the trigger is advanced.
  unfoldable pub trailing_sl_modified : Group F → F → Group F
  trailing_sl_modified g trigger = record g { current_sl_trigger = trigger }

  unfoldable pub fire_sl : Hooks → Group F → F → Level F × List (Level F) → Outcome F
  unfolding record_paper_exit
  fire_sl h g ltp (level, levels) =
      let fired = record g { sl_levels = levels } in
      if g.trading_mode == "LIVE"
      then (fired, place_market level.exit_qty ltp ExitType.sl level.level_num ∷ [])
      else record_paper_exit h ExitType.sl level level.exit_qty ltp fired

  unfoldable pub evaluate_sl_levels : Hooks → Group F → F → Outcome F × Bool
  unfolding evaluate_trailing_sl trigger_first sl_breached fire_sl
  evaluate_sl_levels h g ltp =
      if g.sl_mode == sl_mode_trailing && not (g.single_sl_broker_id == "")
      then (evaluate_trailing_sl g ltp, false)
      else if not (g.sl_mode == mode_multi_level)
      then ((g, []), false)
      else if g.trading_mode == "LIVE"
      then ((g, []), false)
      else elim (trigger_first (λ t. sl_breached g t ltp) ltp g.sl_levels) [
        | none ↦ ((g, []), false)
        | some hit ↦ (fire_sl h g ltp hit, true)
      ]

  -- The single stop-loss order is re-sized to the reduced position.
  unfoldable pub resize_sl : Group F → ℤ → List (Effect F)
  resize_sl g remaining =
      if g.single_sl_broker_id == ""
      then []
      else if g.sl_mode == sl_mode_fixed
      then replace_sl remaining ∷ []
      else if g.sl_mode == sl_mode_trailing
      then replace_sl_trailing remaining ∷ []
      else []

  unfoldable pub fire_tp : Hooks → Group F → F → Level F × List (Level F) → Outcome F
  unfolding record_paper_exit take_qty resize_sl finish_group
  fire_tp h g ltp (level, levels) =
      let fired = record g { tp_levels = levels } in
      let taken = take_qty level.exit_qty fired in
      if g.trading_mode == "LIVE"
      then (
        taken,
        place_market level.exit_qty ltp ExitType.tp level.level_num
            ∷ (resize_sl taken taken.remaining_qty
                ++ when (leb_ℤ taken.remaining_qty (pos 0)) (finish_group taken)),
      )
      else record_paper_exit h ExitType.tp level level.exit_qty ltp fired

  unfoldable pub evaluate_tp_levels : Hooks → Group F → F → Outcome F
  unfolding trigger_first tp_reached fire_tp
  evaluate_tp_levels h g ltp =
      if g.tp_mode == mode_multi_level && g.trading_mode == "LIVE"
      then (g, [])
      else elim (trigger_first (λ t. tp_reached g t ltp) ltp g.tp_levels) [
        | none ↦ (g, [])
        | some hit ↦ fire_tp h g ltp hit
      ]

  unfoldable pub evaluate : Hooks → Group F → F → Outcome F
  unfolding evaluate_sl_levels evaluate_tp_levels
  evaluate h g ltp =
      let (first, fired) = evaluate_sl_levels h g ltp in
      let second = evaluate_tp_levels h first.0 ltp in
      if fired then first else (second.0, first.1 ++ second.1)

  -- The part of `runEvalJob` after the claim.
  unfoldable pub run_claimed : Hooks → Group F → F → Group F × Bool → Outcome F
  unfolding release_evaluation evaluate
  run_claimed h g ltp (claimed, ok) =
      let out = evaluate h claimed ltp in
      if not ok
      then (g, [])
      else if is_live claimed.state
      then (release_evaluation out.0, out.1)
      else (release_evaluation claimed, [])

  -- One tick for the group, by a worker.
  unfoldable pub run_eval_job : Hooks → Group F → F → Outcome F
  unfolding try_claim_evaluation run_claimed
  run_eval_job h g ltp = run_claimed h g ltp (try_claim_evaluation g)
