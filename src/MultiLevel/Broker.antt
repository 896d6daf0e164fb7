-- ===== src/MultiLevel/Broker.antt =====
-- services/trade-execution/internal/multilevel/manager.go: the fill of the entry and fills of the
-- broker's exit orders, for one group.
pub mod Entry
pub mod Fills
pub mod Cancel
use algo_treading.Base.{
  Bool, true, false, not, ◌&&◌, ◌||◌, String, ◌==◌, List, [], ◌∷◌, ◌++◌, Option, none, some,
  if◌then◌else◌,
}
use algo_treading.Base.Int.{ℤ, pos, ltb_ℤ, leb_ℤ, eqb_ℤ}
use algo_treading.Base.Float.{Float}
use algo_treading.Base.Sort.{sort_from}
use algo_treading.MultiLevel.Split.{LevelConfig, compute_initial_exit_qtys}
use algo_treading.MultiLevel.Types.{
  GroupState, LevelStatus, ExitType, Level, Group, is_live, is_active, sl_mode_fixed,
  sl_mode_trailing, mode_multi_level, calc_sl_trigger_price, calc_tp_limit_price, nought,
}
use algo_treading.MultiLevel.Effects.{
  Effect, level_status, level_triggered, unregister, unsubscribe, forget_sl, forget_level,
  cancel_order, persist_levels, place_fixed_sl, place_trailing_sl, place_multi_sl, place_multi_tp,
  subscribe, partial_exit, filled_qty, Hooks, when, Outcome, is_nil, levels_of, configs_of,
  with_levels, other_side,
}
use algo_treading.MultiLevel.Paper.{take_qty, finish_group, record_paper_partial_exit, profit}
use algo_treading.MultiLevel.Rebalance.{rebalance_side}

abbrev pub is_open : LevelStatus → Bool
is_open LevelStatus.pending = true
is_open LevelStatus.active = true
is_open _ = false

module _ {ℓ} {F : Type ℓ} ⦃f : Float F⦄ where
  open f use {lt}

  abbrev pub price_or_zero : Option F → F
  price_or_zero none = nought
  price_or_zero (some p) = p

  -- The states of the levels, for triggers that `price` computes and ids that `id` gives.
  unfoldable pub build_levels :
      (F → F) → (ℤ → String) → List (LevelConfig F) → List ℤ → List (Level F)
  build_levels price id (c ∷ cs) (q ∷ qs) =
      record {
        level_num = c.level_num;
        trigger_price = price c.price_pct;
        exit_qty = q;
        original_exit_qty = q;
        status = LevelStatus.active;
        broker_order_id = "";
        exit_order_id = id c.level_num;
        exit_price = nought;
      }
      ∷ build_levels price id cs qs
  build_levels price id _ _ = []

  unfoldable pub sort_configs : List (LevelConfig F) → List (LevelConfig F)
  unfolding sort_from
  sort_configs cs = sort_from (λ a b. ltb_ℤ a.level_num b.level_num) [] cs

  -- The levels that were passed, if there are any, or the stored ones.
  unfoldable pub choose_configs : List (LevelConfig F) → List (LevelConfig F) → List (LevelConfig F)
  choose_configs passed stored = if is_nil passed then stored else passed

  -- The group with the quantities and prices of the fill.
  unfoldable pub take_fill : Group F → F → ℤ → List (LevelConfig F) → List (LevelConfig F) → Group F
  take_fill g fill_price qty sl_configs tp_configs = record g {
    fill_price = fill_price;
    total_qty = qty;
    remaining_qty = qty;
    entry_filled = true;
    highest_price = fill_price;
    sl_level_configs = sl_configs;
    tp_level_configs = tp_configs;
  }

  -- The state after the entry filled, without the orders that are placed for it.
  unfoldable pub fill_entry :
      (ExitType → ℤ → String)
      → Group F
      → F
      → ℤ
      → List (LevelConfig F)
      → List (LevelConfig F)
      → Group F
  unfolding choose_configs sort_configs build_levels take_fill
  fill_entry id g fill_price qty sl tp =
      let sl_configs = sort_configs (choose_configs sl g.sl_level_configs) in
      let tp_configs = sort_configs (choose_configs tp g.tp_level_configs) in
      let filled = take_fill g fill_price qty sl_configs tp_configs in
      record filled {
        sl_levels =
            g.sl_levels
            ++ build_levels (calc_sl_trigger_price filled) (id ExitType.sl) sl_configs
                (compute_initial_exit_qtys sl_configs qty);
        tp_levels =
            g.tp_levels
            ++ build_levels (calc_tp_limit_price filled) (id ExitType.tp) tp_configs
                (compute_initial_exit_qtys tp_configs qty);
      }

  unfoldable pub place_sl_orders : Group F → ℤ → List (Effect F)
  place_sl_orders g qty =
      if g.sl_mode == sl_mode_fixed
      then place_fixed_sl qty ∷ []
      else if g.sl_mode == sl_mode_trailing
      then place_trailing_sl ∷ []
      else if g.sl_mode == mode_multi_level
      then place_multi_sl ∷ []
      else []

  unfoldable pub on_entry_fill :
      (ExitType → ℤ → String)
      → Group F
      → F
      → ℤ
      → List (LevelConfig F)
      → List (LevelConfig F)
      → Outcome F
  unfolding fill_entry place_sl_orders
  on_entry_fill id g fill_price qty sl tp =
      let filled = fill_entry id g fill_price qty sl tp in
      if g.entry_filled then (g, []) else (
        filled,
        persist_levels
            ∷ (when (g.trading_mode == "LIVE") (
                  place_sl_orders g qty
                  ++ when (g.tp_mode == mode_multi_level) (place_multi_tp ∷ []))
                ++ (subscribe ∷ [])),
      )

  -- `cancelRemainingMLOrders`: the levels, and the calls for their broker orders.
  unfoldable pub cancel_levels : List (Level F) → List (Level F)
  cancel_levels [] = []
  cancel_levels (l ∷ ls) =
      let rest = cancel_levels ls in
      if is_active l.status then record l { status = LevelStatus.cancelled } ∷ rest else l ∷ rest

  unfoldable pub cancel_orders : List (Level F) → List (Effect F)
  cancel_orders [] = []
  cancel_orders (l ∷ ls) =
      let rest = cancel_orders ls in
      if is_active l.status && not (l.broker_order_id == "")
      then forget_level l.broker_order_id ∷ cancel_order l.broker_order_id ∷ rest
      else rest

  unfoldable pub find_level : ℤ → List (Level F) → Option (Level F)
  find_level n [] = none
  find_level n (l ∷ ls) = if eqb_ℤ l.level_num n then some l else find_level n ls

  unfoldable pub replace_level : ℤ → Level F → List (Level F) → List (Level F)
  replace_level n new [] = []
  replace_level n new (l ∷ ls) =
      if eqb_ℤ l.level_num n then new ∷ ls else l ∷ replace_level n new ls

  -- The last quantity left: every other order goes.
  unfoldable pub close_group : Group F → Outcome F
  unfolding cancel_levels cancel_orders finish_group
  close_group g =
      let closed = record g {
        sl_levels = cancel_levels g.sl_levels;
        tp_levels = cancel_levels g.tp_levels;
        single_sl_broker_id = "";
      } in
      let bid = g.single_sl_broker_id in
      (
        closed,
        when (not (bid == "")) (forget_sl bid ∷ cancel_order bid ∷ []) ++ finish_group closed,
      )

  unfoldable pub fill_level : ExitType → Level F → F → Group F → Outcome F
  fill_level t l price g =
      let hit = record l { status = LevelStatus.triggered; exit_price = price } in
      let marked = with_levels t (replace_level l.level_num hit (levels_of t g)) g in
      let taken = take_qty l.exit_qty marked in
      let closed = close_group taken in
      let same = rebalance_side t taken.remaining_qty taken in
      let both = rebalance_side (other_side t) taken.remaining_qty same.0 in
      let first =
        forget_level l.broker_order_id
        ∷ level_status t l.level_num LevelStatus.triggered price
        ∷ [] in
      if leb_ℤ taken.remaining_qty (pos 0)
      then (
        closed.0,
        first
            ++ (cancel_orders (levels_of t taken)
                ++ (cancel_orders (levels_of (other_side t) taken) ++ closed.1)),
      )
      else (both.0, first ++ (same.1 ++ both.1))

  -- `onMultiLevelFilled`, once the level is looked up: one that is not known, or not active any more, is
  -- left alone.
  unfoldable pub on_level : ExitType → F → Group F → Option (Level F) → Outcome F
  on_level t price g none = (g, [])
  on_level t price g (some l) = if is_active l.status then fill_level t l price g else (g, [])

  unfoldable pub on_multi_level_filled : ExitType → ℤ → Option F → Group F → Outcome F
  on_multi_level_filled t n fill_price g =
      on_level t (price_or_zero fill_price) g (find_level n (levels_of t g))

  unfoldable pub cancel_open : List (Level F) → List (Level F)
  cancel_open [] = []
  cancel_open (l ∷ ls) =
      let rest = cancel_open ls in
      if is_open l.status then record l { status = LevelStatus.cancelled } ∷ rest else l ∷ rest

  unfoldable pub cancel_open_orders : String → List (Level F) → List (Effect F)
  cancel_open_orders tp_mode [] = []
  cancel_open_orders tp_mode (l ∷ ls) =
      let rest = cancel_open_orders tp_mode ls in
      if is_open l.status && tp_mode == mode_multi_level && not (l.broker_order_id == "")
      then forget_level l.broker_order_id ∷ cancel_order l.broker_order_id ∷ rest
      else rest

  unfoldable pub cancelled_rows : List (Level F) → List (Effect F)
  cancelled_rows [] = []
  cancelled_rows (l ∷ ls) =
      let rest = cancelled_rows ls in
      elim l.status [
        | LevelStatus.cancelled ↦
            level_status ExitType.tp l.level_num LevelStatus.cancelled nought ∷ rest
        | _ ↦ rest
      ]

  unfoldable pub on_single_sl_filled : Hooks → Option F → ℤ → Group F → Outcome F
  unfolding take_qty cancel_open cancel_open_orders cancelled_rows finish_group
  on_single_sl_filled h fill_price filled g =
      let price = price_or_zero fill_price in
      let taken = take_qty filled g in
      let after = record taken { tp_levels = cancel_open taken.tp_levels } in
      let remaining = after.remaining_qty in
      (
        after,
        cancel_open_orders g.tp_mode g.tp_levels
            ++ (cancelled_rows after.tp_levels
                ++ (level_status ExitType.sl (pos 0) LevelStatus.triggered price
                    ∷ (when (leb_ℤ remaining (pos 0)) (finish_group after)
                        ++ when (g.trading_mode == "PAPER" && h.on_level_triggered)
                            (level_triggered ExitType.sl (pos 0) price remaining ∷ [])))),
      )
