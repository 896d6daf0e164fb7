-- ===== src/Tests/MultiLevel.antt =====
-- A paper position with exit levels, on exact fractions.
use algo_treading.Base.{
  ℕ, ◌*◌, ◌+◌, ◌≤◌, ◌≡◌, refl, false, true, String, List, [], ◌∷◌, map, none, some, arith, All,
  length,
}
use algo_treading.Base.Int.{ℤ, pos, ◌*ℤ◌, ◌-32◌, wrap32}
use algo_treading.Base.Float.{Frac, exact, div_frac, trunc_div}
use algo_treading.MultiLevel.Split.{
  LevelConfig, portion, compute_rebalanced_qtys, compute_initial_exit_qtys,
}
use algo_treading.MultiLevel.Split.Adjust.{Sums}
use algo_treading.MultiLevel.Split.Initial.{sum_ℤ, InRange, compute_initial_exit_qtys-sum}
use algo_treading.MultiLevel.Split.Rebalanced.{compute_rebalanced_qtys-Sums}
use algo_treading.MultiLevel.Split.Whole.{percent, percent-AreExactShares}
use algo_treading.MultiLevel.Types.{
  GroupState, LevelStatus, ExitType, Level, Group, min_change, tick_of,
}
use algo_treading.MultiLevel.Effects.{Hooks}
use algo_treading.MultiLevel.Exits.Invariant.{Holds}
use algo_treading.MultiLevel.Exits.Ticks.{Sells}
use algo_treading.MultiLevel.Exits.Runs.{run_ticks, run_ticks-Sells}
use algo_treading.MultiLevel.Exits.Whole.{IsWhole, IsWhole-Splits}
use algo_treading.MultiLevel.Broker.{
  choose_configs, find_level, on_entry_fill, on_multi_level_filled,
}
use algo_treading.MultiLevel.Cancellation.{
  cancel_group_internal, cancel_for_strategy, cancel_group_for_exit,
}
use algo_treading.MultiLevel.Broker.Entry.{Fitting, on_entry_fill-Holds}
use algo_treading.MultiLevel.Broker.Cancel.{CancelsOnce, cancel-CancelsOnce, on_entry_fill-once}
use algo_treading.MultiLevel.Broker.Fills.{
  IsClosed, on_multi_level_filled-once, on_multi_level_filled-IsClosed,
}
use algo_treading.MultiLevel.Reload.{EntryRow, restored_group, persist_exit_levels}
use algo_treading.MultiLevel.Reload.Rebuilt.{as_new, restored_group-persist_exit_levels}
use algo_treading.MultiLevel.Trailing.{Tighten, triggers, triggers-Tighten, tick_of_lem}

abbrev config : ℕ → ℕ → ℕ → LevelConfig Frac
config n price_pct qty_pct = record {
  level_num = pos n;
  price_pct = percent price_pct;
  qty_pct = percent qty_pct;
}

abbrev stops : List (LevelConfig Frac)
stops = config 2 4 50 ∷ config 1 2 50 ∷ []

abbrev targets : List (LevelConfig Frac)
targets = config 1 3 50 ∷ config 2 6 30 ∷ config 3 10 20 ∷ []

abbrev waiting : Group Frac
waiting = record {
  group_id = "g1";
  entry_order_id = "e1";
  user_id = "u1";
  strategy_id = "s1";
  symbol = "INFY";
  stock_code = pos 1594;
  order_side = "BUY";
  fill_price = percent 0;
  total_qty = pos 7;
  sl_levels = [];
  tp_levels = [];
  sl_mode = "MULTI_LEVEL";
  fixed_sl_pct = percent 0;
  trailing_sl_pct = percent 0;
  highest_price = percent 0;
  current_sl_trigger = percent 0;
  single_sl_broker_id = "";
  tp_mode = "MULTI_LEVEL";
  state = GroupState.active;
  remaining_qty = pos 7;
  trading_mode = "PAPER";
  has_auth = false;
  sl_level_configs = stops;
  tp_level_configs = targets;
  entry_filled = false;
  evaluating = false;
}

abbrev ids : ExitType → ℤ → String
ids t n = ""

abbrev all_hooks : Hooks
all_hooks = record {
  on_completed = true;
  on_level_triggered = true;
  on_qty_updated = true;
  on_sl_moved = true;
}

abbrev in_range : (0 ≤ 3) × (3 ≤ 7)
in_range = (omega arith, omega arith)

stops-Fitting : Fitting IsWhole 7 (choose_configs [] stops)
unfolding choose_configs portion ◌*ℤ◌ div_frac trunc_div wrap32
stops-Fitting = (omega arith, (((49, refl), in_range), (((49, refl), in_range), tt)))

targets-Fitting : Fitting IsWhole 7 (choose_configs [] targets)
unfolding choose_configs portion ◌*ℤ◌ div_frac trunc_div wrap32
targets-Fitting = (
  omega arith,
  (
    ((49, refl), in_range),
    (((29, refl), (omega arith, omega arith)), (((19, refl), (omega arith, omega arith)), tt)),
  ),
)

abbrev filled : Group Frac
filled = (on_entry_fill ids waiting (percent 100) (pos 7) [] []).0

on_entry_fill-Holds_example :
    Holds IsWhole 7 (on_entry_fill ids waiting (percent 100) (pos 7) [] []).0
on_entry_fill-Holds_example =
    on_entry_fill-Holds IsWhole 7 (omega arith) (omega arith) ids waiting (percent 100) [] [] refl
      refl refl refl refl stops-Fitting targets-Fitting

run_ticks-Sells_example :
    Sells IsWhole 7 (run_ticks all_hooks filled (percent 104 ∷ percent 97 ∷ percent 95 ∷ []))
run_ticks-Sells_example =
    run_ticks-Sells IsWhole-Splits all_hooks 7 filled (percent 104 ∷ percent 97 ∷ percent 95 ∷ []) (
      on_entry_fill-Holds IsWhole 7 (omega arith) (omega arith) ids waiting (percent 100) [] [] refl
        refl refl refl refl stops-Fitting targets-Fitting)

compute_rebalanced_qtys-Sums_example :
    Sums
      (compute_rebalanced_qtys (percent 50 ∷ percent 30 ∷ percent 20 ∷ []) (percent 100) (pos 7))
      7
compute_rebalanced_qtys-Sums_example =
    compute_rebalanced_qtys-Sums (percent 50 ∷ percent 30 ∷ percent 20 ∷ []) (percent 100)
      (50 ∷ 30 ∷ 20 ∷ []) 7 100 (omega arith) refl
      (percent-AreExactShares 7 (50 ∷ 30 ∷ 20 ∷ []) (omega arith)) (omega arith)

compute_initial_exit_qtys-sum_example :
    let out = compute_initial_exit_qtys stops (pos 7) in
    (sum_ℤ out ≡ pos 7) × All (InRange 7) out × (length out ≡ 2)
unfolding portion ◌*ℤ◌ div_frac trunc_div wrap32
compute_initial_exit_qtys-sum_example =
    compute_initial_exit_qtys-sum (config 2 4 50) (config 1 2 50 ∷ []) 7 (omega arith) (omega arith)
      (in_range, (in_range, tt))

on_multi_level_filled-once_example :
    let after = (on_multi_level_filled ExitType.tp (pos 1) (some (percent 103)) filled).0 in
    on_multi_level_filled ExitType.tp (pos 1) none after ≡ (after, [])
on_multi_level_filled-once_example =
    on_multi_level_filled-once ExitType.tp (pos 1) (some (percent 103)) none filled

abbrev last_target : Level Frac
last_target = record {
  level_num = pos 1;
  trigger_price = percent 103;
  exit_qty = pos 7;
  original_exit_qty = pos 7;
  status = LevelStatus.active;
  broker_order_id = "B1";
  exit_order_id = "x1";
  exit_price = percent 0;
}

abbrev nearly_done : Group Frac
nearly_done = record waiting { tp_levels = last_target ∷ []; single_sl_broker_id = "S1" }

on_multi_level_filled-IsClosed_example :
    IsClosed (on_multi_level_filled ExitType.tp (pos 1) (some (percent 103)) nearly_done).0
unfolding find_level ◌-32◌
on_multi_level_filled-IsClosed_example =
    on_multi_level_filled-IsClosed ExitType.tp (pos 1) last_target (some (percent 103)) nearly_done
      refl refl refl

abbrev trailing : Group Frac
trailing = record waiting {
  sl_mode = "TRAILING";
  trailing_sl_pct = percent 2;
  highest_price = percent 100;
  current_sl_trigger = percent 98;
  single_sl_broker_id = "S1";
}

triggers-Tighten_example :
    Tighten "BUY"
      (min_change trailing)
      (percent 98)
      (triggers trailing (percent 103 ∷ percent 101 ∷ percent 110 ∷ []))
triggers-Tighten_example = triggers-Tighten trailing (percent 103 ∷ percent 101 ∷ percent 110 ∷ [])

abbrev stopped : Group Frac
stopped = record waiting { state = GroupState.completed; remaining_qty = pos 0 }

tick_of_lem_example :
    (m : ℕ) × (tick_of (pos 10003) ≡ pos (5 * m)) × (5 * m ≤ 10003 + 2) × (10003 ≤ 5 * m + 2)
tick_of_lem_example = tick_of_lem 10003 (omega arith)

on_entry_fill-once_example :
    let after = (on_entry_fill ids waiting (percent 100) (pos 7) [] []).0 in
    on_entry_fill ids after (percent 101) (pos 9) stops [] ≡ (after, [])
on_entry_fill-once_example =
    on_entry_fill-once ids waiting (percent 100) (percent 101) (pos 7) (pos 9) [] [] stops []

cancel-CancelsOnce_example :
    CancelsOnce cancel_group_internal filled
    × CancelsOnce (cancel_for_strategy (some (percent 101))) filled
    × CancelsOnce (cancel_group_for_exit true (λ _. true) (percent 101) "MANUAL") filled
cancel-CancelsOnce_example =
    cancel-CancelsOnce (some (percent 101)) true (λ _. true) (percent 101) "MANUAL" filled

abbrev entry_row : EntryRow Frac
entry_row = record {
  order_id = "e1";
  user_id = "u1";
  strategy_id = "s1";
  symbol = "INFY";
  stock_code = pos 1594;
  order_side = "BUY";
  trading_mode = "LIVE";
  filled_quantity = pos 7;
  filled_price = some (percent 10000);
}

abbrev rebuilt : Group Frac
rebuilt = restored_group "g2" entry_row (percent 10000) (persist_exit_levels filled)

restored_group-persist_exit_levels_example :
    (rebuilt.sl_levels ≡ map as_new filled.sl_levels)
    × (rebuilt.tp_levels ≡ map as_new filled.tp_levels)
    × (rebuilt.remaining_qty ≡ pos 7)
restored_group-persist_exit_levels_example =
    restored_group-persist_exit_levels "g2" entry_row (percent 10000) filled
