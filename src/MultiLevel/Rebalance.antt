-- ===== src/MultiLevel/Rebalance.antt =====
-- services/trade-execution/internal/multilevel/manager.go: `rebalanceAndModifyLevels`.
use algo_treading.Base.{Bool, not, ◌&&◌, ◌||◌, ◌==◌, List, [], ◌∷◌, if◌then◌else◌}
use algo_treading.Base.Int.{ℤ, eqb_ℤ}
use algo_treading.Base.Float.{Float}
use algo_treading.MultiLevel.Split.{LevelConfig, compute_rebalanced_qtys}
use algo_treading.MultiLevel.Types.{ExitType, Level, Group, is_active, nought}
use algo_treading.MultiLevel.Effects.{
  Effect, is_nil, Outcome, levels_of, configs_of, with_levels, modify_level,
}

module _ {ℓ} {F : Type ℓ} ⦃f : Float F⦄ where
  open f use {of_int, ratio, add, sub, mul, div, lt, le}

  -- The percentage of the first configuration with that number, or zero.
  unfoldable pub qty_pct_of : List (LevelConfig F) → ℤ → F
  qty_pct_of [] n = nought
  qty_pct_of (c ∷ cs) n = if eqb_ℤ c.level_num n then c.qty_pct else qty_pct_of cs n

  unfoldable pub takes_part : List (LevelConfig F) → Level F → Bool
  unfolding qty_pct_of
  takes_part configs l = is_active l.status && not (le (qty_pct_of configs l.level_num) nought)

  unfoldable pub active_pcts : List (LevelConfig F) → List (Level F) → List F
  unfolding takes_part qty_pct_of
  active_pcts configs [] = []
  active_pcts configs (l ∷ ls) =
      let rest = active_pcts configs ls in
      if takes_part configs l then qty_pct_of configs l.level_num ∷ rest else rest

  unfoldable pub sum_pcts : F → List F → F
  sum_pcts acc [] = acc
  sum_pcts acc (p ∷ ps) = sum_pcts (add acc p) ps

  -- Writes the new quantities to the levels that take part, in order.
  unfoldable pub assign_qtys : List (LevelConfig F) → List (Level F) → List ℤ → List (Level F)
  unfolding takes_part
  assign_qtys configs [] qs = []
  assign_qtys configs (l ∷ ls) [] = l ∷ ls
  assign_qtys configs (l ∷ ls) (q ∷ qs) =
      let given = record l { exit_qty = q } ∷ assign_qtys configs ls qs in
      let kept = l ∷ assign_qtys configs ls (q ∷ qs) in if takes_part configs l then given else kept

  -- The broker orders whose quantity changed.
  unfoldable pub changed_orders : ExitType → List (Level F) → List (Level F) → List (Effect F)
  changed_orders t (l ∷ ls) (n ∷ ns) =
      let rest = changed_orders t ls ns in
      if n.broker_order_id == "" || eqb_ℤ n.exit_qty l.exit_qty
      then rest
      else modify_level n.exit_order_id n.broker_order_id n.exit_qty n.trigger_price t ∷ rest
  changed_orders t _ _ = []

  -- `rebalanceAndModifyLevels`.
  unfoldable pub rebalance_levels : List (LevelConfig F) → ℤ → List (Level F) → List (Level F)
  unfolding active_pcts sum_pcts assign_qtys
  rebalance_levels configs remaining levels =
      let pcts = active_pcts configs levels in
      let total_pct = sum_pcts nought pcts in
      if is_nil pcts || le total_pct nought
      then levels
      else assign_qtys configs levels (compute_rebalanced_qtys pcts total_pct remaining)

  unfoldable pub rebalance_side : ExitType → ℤ → Group F → Outcome F
  unfolding rebalance_levels changed_orders
  rebalance_side t remaining g =
      let levels = rebalance_levels (configs_of t g) remaining (levels_of t g) in
      (with_levels t levels g, changed_orders t (levels_of t g) levels)
