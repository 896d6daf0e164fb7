-- ===== src/Tests/Oco.antt =====
-- A long position of ten shares with a stop-loss of two percent and a take-profit of three.
use algo_treading.Base.{
  ◌≡◌, ℕ, ◌≤◌, refl, true, false, [], ◌∷◌, Option, none, some, inl, if◌then◌else◌, ◌==◌, eqb,
  String, List,
}
use algo_treading.Base.Int.{pos, ◌*ℤ◌, ◌-ℤ◌}
use algo_treading.Base.Float.{Frac, exact, div_frac}
use algo_treading.Base.Dict.{lookup, insert}
use algo_treading.MultiLevel.Split.Whole.{percent}
use algo_treading.Base.Text.{is_one_of, equal_fold}
use algo_treading.Oco.Types.{
  OcoState, Group, Order, is_filled_status, is_terminal, is_partially_filled_status,
  is_terminal_status,
}
use algo_treading.Oco.Updates.{BrokerStatus, Effect}
use algo_treading.MultiLevel.Types.{nought, round_nse}
use algo_treading.Oco.Types.{calculate_sl_from_fill, calculate_tp_from_fill}
use algo_treading.Oco.Updates.{entry_filled}
use algo_treading.Oco.Placing.{
  Placed, LegPrices, leg_prices, begin_legs, begin_with, end_legs, sl_misplaced, tp_misplaced,
  place_leg_with_retry,
}
use algo_treading.Oco.Tasks.{CancelAnswer, cancel_leg_calls, cancel_group, modify_sl_leg}
use algo_treading.Oco.Manager.{new_oco_manager, route, handle_broker_update}
use algo_treading.Oco.Reload.{
  reload, by_group, reconstruct_group, infer_state, status_of, state_of, restore, restore_entry,
  is_confirmed_on_exchange,
}
use algo_treading.Oco.States.{Moves, is_closing}
use algo_treading.Oco.Steps.{here, next, updated, ended, Step-Moves, Reach-closing}
use algo_treading.Oco.Registry.{Indexed}
use algo_treading.Oco.Runs.{start, later, Runs-new_oco_manager}
use algo_treading.Oco.Runs
use algo_treading.Oco.Legs.{
  FirstAccepted, end_legs-state, cancel_group-end_legs, place_leg_with_retry-FirstAccepted,
  cancel_leg_calls_bounds,
}
use algo_treading.Oco.Restart.{reconstruct_group-entry_order}
use algo_treading.Oco.Rows.{update_rows}
use algo_treading.Oco.Rebuilt.{
  Restored, stored, reconstruct_group-end_legs, reconstruct_group-modify_sl_leg,
}
use algo_treading.Oco.Entry.{EntryRequest, entry_group, entry_order}

abbrev request : EntryRequest Frac
request = record {
  group_id = "g1";
  entry_order_id = "o1";
  user_id = "u1";
  strategy_id = "s1";
  symbol = "TCS";
  order_side = "BUY";
  quantity = pos 10;
  entry_trigger_price = percent 100;
  sl_percent = percent 2;
  tp_percent = percent 3;
  trailing_sl = true;
  trailing_sl_pct = percent 0;
}

abbrev waiting : Group Frac
waiting = entry_group request "b1"

abbrev fill : Order Frac
fill = record (entry_order request "EXECUTED" (some "b1")) {
  filled_price = some (percent 100);
  filled_quantity = pos 10;
}

abbrev filled : Group Frac
filled = record waiting {
  state = OcoState.placing_legs;
  entry_fill_price = percent 100;
  highest_price = percent 100;
  filled_qty = pos 10;
}

abbrev open_group : Group Frac
open_group = record filled {
  state = OcoState.active;
  sl_order_id = "o2";
  sl_broker_id = "b2";
  sl_trigger_price = percent 98;
  tp_order_id = "o3";
  tp_broker_id = "b3";
  tp_limit_price = percent 103;
}

abbrev tp_fill : Order Frac
tp_fill = record fill { indira_order_id = some "b3"; filled_price = some (percent 103) }

abbrev exiting : Group Frac
exiting = record open_group { state = OcoState.tp_triggered; pnl = percent 30 }

Step-Moves_example :
    Moves filled.state (end_legs (Placed.placed "b2") (Placed.placed "b3") filled).0.state
unfolding entry_group
Step-Moves_example = Step-Moves (ended (Placed.placed "b2") (Placed.placed "b3") refl)

-- The stop-loss leg executes too, after the take-profit leg did.
Reach-closing_example :
    let after = (route BrokerStatus.executed "b2" fill exiting).0 in
    (is_closing after.state ≡ true) × (after.pnl ≡ percent 30)
unfolding entry_group
Reach-closing_example = Reach-closing (next here (updated BrokerStatus.executed "b2" fill)) refl

abbrev submitted : List (Order Frac)
submitted = entry_order request "SUBMITTED" (some "b1") ∷ []

restarted : Runs.Runs new_oco_manager (reload submitted new_oco_manager)
unfolding lookup insert by_group reconstruct_group restore infer_state status_of state_of
    is_filled_status is_partially_filled_status is_terminal_status is_terminal entry_order is_one_of
    equal_fold restore_entry
restarted =
    later start (Runs.reloaded submitted ((λ _. inl refl, λ _. inl refl, λ _. inl refl), tt))

-- A restart finds the submitted entry, and the entry fills.
Runs-new_oco_manager_example :
    Indexed (handle_broker_update fill "EXECUTED" (reload submitted new_oco_manager)).0
Runs-new_oco_manager_example = Runs-new_oco_manager (later restarted (Runs.updated fill "EXECUTED"))

abbrev prices : LegPrices Frac
prices = record {
  sl = some (calculate_sl_from_fill filled (percent 100));
  tp = some (calculate_tp_from_fill filled (percent 100));
}

end_legs-state_example :
    (end_legs (Placed.placed "b2") Placed.refused (begin_legs "o2" "o3" filled).0).0.state
    ≡ OcoState.active
unfolding leg_prices entry_group sl_misplaced tp_misplaced calculate_sl_from_fill
    calculate_tp_from_fill ◌*ℤ◌ round_nse div_frac ◌-ℤ◌
end_legs-state_example =
    end_legs-state "o2" "o3" prices (Placed.placed "b2") Placed.refused filled refl refl tt

cancel_group-end_legs_example :
    let after = (cancel_group filled).0 in
    (after.0.state ≡ OcoState.cancelled)
    × (after.1 ≡ Effect.schedule_cleanup ∷ [])
    × ((end_legs (Placed.placed "b2") (Placed.placed "b3") after.0).0.state ≡ OcoState.active)
unfolding entry_group
cancel_group-end_legs_example = cancel_group-end_legs filled "b2" "b3" refl refl refl

abbrev second_time : ℕ → Option String
second_time n = if eqb n 1 then some "b2" else none

place_leg_with_retry-FirstAccepted_example :
    FirstAccepted second_time 0 3 (place_leg_with_retry second_time)
place_leg_with_retry-FirstAccepted_example = place_leg_with_retry-FirstAccepted second_time

at_most_three_calls :
    let n = cancel_leg_calls (λ k. CancelAnswer.failed) "b2" in
    (("b2" == "") ≡ true → n ≡ 0) × (("b2" == "") ≡ false → (1 ≤ n) × (n ≤ 3))
at_most_three_calls = cancel_leg_calls_bounds (λ k. CancelAnswer.failed) "b2"

reconstruct_group-entry_order_example :
    (g : Group Frac) × (reconstruct_group "g1" (entry_order request "SUBMITTED" (some "b1") ∷ [])
      ≡ some g)
    × (g.state ≡ OcoState.pending_entry)
    × (g.sl_percent ≡ nought)
    × (g.tp_percent ≡ nought)
    × ((begin_legs "o2" "o3" (entry_filled fill g).0).0.state ≡ OcoState.failed)
    × ((begin_legs "o2" "o3" (entry_filled fill g).0).1 ≡ [])
unfolding ◌*ℤ◌
reconstruct_group-entry_order_example =
    reconstruct_group-entry_order request "b1" "o2" "o3" fill refl

reconstruct_group-end_legs_example :
    Restored request (pos 10) "b2" "PENDING" "b3" "PENDING" filled (begin_legs "o2" "o3" filled)
unfolding leg_prices entry_group sl_misplaced tp_misplaced calculate_sl_from_fill
    calculate_tp_from_fill ◌*ℤ◌ round_nse div_frac ◌-ℤ◌ is_confirmed_on_exchange is_filled_status
    is_one_of equal_fold
reconstruct_group-end_legs_example =
    reconstruct_group-end_legs request (pos 10) "o2" "o3" "b2" "b3" "PENDING" "PENDING"
      (calculate_sl_from_fill filled (percent 100)) (calculate_tp_from_fill filled (percent 100))
      filled refl refl refl (refl, refl) (refl, refl)

-- What was written when the legs were placed.
abbrev open_rows : List (Order Frac)
open_rows = stored request (pos 10) "b2" "PENDING" "b3" "PENDING" filled (
    begin_with "o2" "o3"
      (some (record { sl = some (percent 98, percent 97); tp = some (percent 103) })) filled)

reconstruct_group-modify_sl_leg_example :
    let out = (modify_sl_leg true (percent 99) (percent 98) (percent 101) open_group).0 in
    (out.0.sl_trigger_price ≡ percent 99)
    × (m : Order Frac) × (out.1 ≡ Effect.modify_order m ∷ [])
    × (k : Group Frac) × (reconstruct_group "g1" (update_rows m open_rows) ≡ some k)
    × (k.sl_trigger_price ≡ percent 98)
    × (k.state ≡ OcoState.legs_submitted)
unfolding is_confirmed_on_exchange is_filled_status is_one_of equal_fold entry_group
reconstruct_group-modify_sl_leg_example =
    reconstruct_group-modify_sl_leg request (pos 10) "o2" "o3" "b2" "b3" "PENDING" "PENDING"
      (percent 98, percent 97) (percent 103) filled open_group (percent 99) (percent 98)
      (percent 101) refl refl (refl, refl) refl refl refl
