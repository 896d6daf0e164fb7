-- ===== src/Oco/Reload.antt =====
-- services/trade-execution/internal/oco/manager.go: the groups that are rebuilt from stored orders after a
-- restart (Reload, reconstructGroup, inferState, isConfirmedOnExchange). Credentials are left out.
use algo_treading.Base.{
  Bool, true, false, not, ◌&&◌, ◌||◌, String, ◌==◌, List, [], ◌∷◌, ◌++◌, Option, none, some,
  if◌then◌else◌,
}
use algo_treading.Base.Int.{pos, leb_ℤ, ltb_ℤ}
use algo_treading.Base.Float.{Float}
use algo_treading.Base.Dict.{Dict, lookup, insert}
use algo_treading.Base.Text.{is_one_of}
use algo_treading.MultiLevel.Types.{nought}
use algo_treading.Oco.Types.{
  OcoState, Group, Order, is_terminal, is_filled_status, is_partially_filled_status,
  is_terminal_status,
}
use algo_treading.Oco.Manager.{Manager}

unfoldable pub is_confirmed_on_exchange : String → Bool
is_confirmed_on_exchange = is_one_of (
    "PENDING" ∷ "OPEN" ∷ "TRIGGER PENDING" ∷ "TRIGGER_PENDING" ∷ "AFTER MARKET ORDER REQ RECEIVED"
    ∷ "PARTIALLY_FILLED" ∷ "PARTIALLY TRADED" ∷ [])

-- The state for the statuses of entry, stop-loss leg and take-profit leg; empty where there is none.
unfoldable pub state_of : String → String → String → OcoState
state_of entry sl tp =
    let filled = is_filled_status entry in
    let terminal = is_terminal_status entry in
    let partly = is_partially_filled_status entry in
    if not filled && not terminal && not partly
    then OcoState.pending_entry
    else if terminal && not filled && not partly
    then OcoState.failed
    else if sl == "" && tp == ""
    then OcoState.placing_legs
    else if is_filled_status sl || is_filled_status tp
    then OcoState.completed
    else if is_confirmed_on_exchange sl && (is_confirmed_on_exchange tp || tp == "")
    then OcoState.active
    else OcoState.legs_submitted

abbrev pub has_role : String → Option String → Bool
has_role role none = false
has_role role (some r) = r == role

abbrev pub remember : String → String → Dict String → Dict String
remember id group_id index = if id == "" then index else insert id group_id index

module _ {ℓ} {F : Type ℓ} where
  -- The status of the last order with that role.
  unfoldable pub status_of : String → List (Order F) → String → String
  status_of role [] found = found
  status_of role (o ∷ os) found =
      status_of role os (if has_role role o.oco_role then o.status else found)

  unfoldable pub infer_state : List (Order F) → OcoState
  unfolding status_of state_of
  infer_state os =
      state_of (status_of "ENTRY" os "") (status_of "SL_LEG" os "") (status_of "TP_LEG" os "")

abbrev pub or_old {ℓ} : {A : Type ℓ} → A → Option A → A
or_old old none = old
or_old old (some new) = new

module _ {ℓ} {F : Type ℓ} ⦃f : Float F⦄ where
  open f use {lt}

  -- The fill price that is restored: the order's price, if it is positive, or the traded price.
  unfoldable pub restored_price : Order F → F → F
  restored_price o old = elim o.price [
    | none ↦ or_old old o.filled_price
    | some p ↦ if lt nought p then p else or_old old o.filled_price
  ]

  unfoldable pub restore_entry : Order F → Group F → Group F
  unfolding restored_price
  restore_entry o g = record g {
    user_id = o.user_id;
    entry_order_id = o.order_id;
    symbol = o.symbol;
    quantity = o.quantity;
    order_side = o.order_side;
    filled_qty = if leb_ℤ o.filled_quantity (pos 0) then g.filled_qty else o.filled_quantity;
    strategy_id = o.strategy_id;
    entry_broker_id = or_old g.entry_broker_id o.indira_order_id;
    entry_fill_price = restored_price o g.entry_fill_price;
    highest_price = or_old (restored_price o g.highest_price) o.highest_price;
    sl_percent = or_old g.sl_percent o.stop_loss;
    tp_percent = or_old g.tp_percent o.take_profit;
    trailing_sl = has_role "TRAILING" o.stop_loss_type || g.trailing_sl;
    trailing_sl_pct = or_old g.trailing_sl_pct o.trailing_sl_pct;
  }

  unfoldable pub restore_sl : Order F → Group F → Group F
  restore_sl o g = record g {
    sl_order_id = o.order_id;
    sl_broker_id = or_old g.sl_broker_id o.indira_order_id;
    sl_trigger_price = or_old g.sl_trigger_price o.stop_loss;
    sl_limit_price = or_old g.sl_limit_price o.price;
  }

  unfoldable pub restore_tp : Order F → Group F → Group F
  restore_tp o g = record g {
    tp_order_id = o.order_id;
    tp_broker_id = or_old g.tp_broker_id o.indira_order_id;
    tp_limit_price = or_old g.tp_limit_price o.price;
  }

  -- The orders of a group, one after the other; an order without a role is passed over.
  unfoldable pub restore : List (Order F) → Group F → Group F
  unfolding restore_entry restore_sl restore_tp
  restore [] g = g
  restore (o ∷ os) g = restore os (
      if has_role "ENTRY" o.oco_role
      then restore_entry o g
      else if has_role "SL_LEG" o.oco_role
      then restore_sl o g
      else if has_role "TP_LEG" o.oco_role
      then restore_tp o g
      else g)

  abbrev pub blank_group : String → Group F
  blank_group group_id = record {
    group_id = group_id;
    user_id = "";
    strategy_id = "";
    symbol = "";
    entry_order_id = "";
    entry_broker_id = "";
    entry_fill_price = nought;
    sl_order_id = "";
    sl_broker_id = "";
    sl_trigger_price = nought;
    sl_limit_price = nought;
    tp_order_id = "";
    tp_broker_id = "";
    tp_limit_price = nought;
    sl_percent = nought;
    tp_percent = nought;
    trailing_sl = false;
    trailing_sl_pct = nought;
    state = OcoState.pending_entry;
    highest_price = nought;
    pnl = nought;
    sl_leg_confirmed = false;
    tp_leg_confirmed = false;
    quantity = pos 0;
    order_side = "";
    filled_qty = pos 0;
    partial_fill_active = false;
    partial_fill_cancel = false;
    partial_fill_timer_started = false;
  }

  -- A group whose entry is partly filled waits for the rest of it again.
  abbrev pub waits_for_rest : Group F → Bool
  waits_for_rest g =
      not (leb_ℤ g.filled_qty (pos 0))
      && ltb_ℤ g.filled_qty g.quantity
      && not (g.sl_broker_id == "")

  unfoldable pub reconstruct_group : String → List (Order F) → Option (Group F)
  unfolding restore infer_state
  reconstruct_group group_id os =
      let g = record (restore os (blank_group group_id)) { state = infer_state os } in
      if is_terminal g.state
      then none
      else some (record g { partial_fill_active = waits_for_rest g || g.partial_fill_active })

  abbrev pub or_nothing : Option (List (Order F)) → List (Order F)
  or_nothing none = []
  or_nothing (some os) = os

  -- The orders by their group, those without one left out.
  unfoldable pub by_group : List (Order F) → Dict (List (Order F)) → Dict (List (Order F))
  by_group [] m = m
  by_group (o ∷ os) m = by_group os (elim o.oco_group_id [
    | none ↦ m
    | some id ↦ insert id (or_nothing (lookup id m) ++ (o ∷ [])) m
  ])

  abbrev pub with_timer : Group F → Group F
  with_timer g =
      if g.partial_fill_active
      then record g { partial_fill_timer_started = true; partial_fill_cancel = true }
      else g

  unfoldable pub load_group : String → Option (Group F) → Manager F → Manager F
  load_group group_id none m = m
  load_group group_id (some g) m = record {
    groups = insert group_id (with_timer g) m.groups;
    broker_index =
        remember g.tp_broker_id group_id
          (remember g.sl_broker_id group_id (remember g.entry_broker_id group_id m.broker_index));
  }

  unfoldable pub load_groups : Dict (List (Order F)) → Manager F → Manager F
  unfolding reconstruct_group load_group
  load_groups [] m = m
  load_groups ((group_id, os) ∷ rest) m =
      load_groups rest (load_group group_id (reconstruct_group group_id os) m)

  -- `Reload` of the orders that the repository gives.
  unfoldable pub reload : List (Order F) → Manager F → Manager F
  unfolding by_group load_groups
  reload os m = load_groups (by_group os []) m
