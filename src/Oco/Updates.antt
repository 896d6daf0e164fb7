-- ===== src/Oco/Updates.antt =====
-- services/trade-execution/internal/oco/manager.go: what a broker update of the entry or of a leg does to
-- its group (handleEntryUpdate, handleSLLegUpdate, handleTPLegUpdate, checkLegsConfirmed). A handler
-- returns the group and, in order, the calls that it makes or starts.
use algo_treading.Base.{
  Bool, true, false, not, ◌&&◌, ◌||◌, String, ◌==◌, List, [], ◌∷◌, ◌++◌, Option, none, some,
  if◌then◌else◌,
}
use algo_treading.Base.Int.{ℤ, pos, leb_ℤ}
use algo_treading.Base.Float.{Float}
use algo_treading.Base.Text.{is_one_of, trim_space}
use algo_treading.MultiLevel.Types.{nought}
use algo_treading.MultiLevel.Effects.{when}
use algo_treading.Oco.Types.{
  OcoState, OcoRole, Group, Order, is_open, is_pending_entry, is_submitted, leg_qty,
}

-- The broker's statuses that the handlers tell apart.
pub data BrokerStatus : Type 0 where
  executed partial rejected cancelled confirmed other : BrokerStatus

-- The status in capitals, without spaces around it.
unfoldable pub broker_status : String → BrokerStatus
broker_status text =
    let s = trim_space text in
    if is_one_of ("EXECUTED" ∷ "TRADED" ∷ []) s
    then BrokerStatus.executed
    else if is_one_of ("PARTIALLY TRADED" ∷ "PARTIALLY EXECUTED" ∷ "PARTIALLY_FILLED" ∷ []) s
    then BrokerStatus.partial
    else if is_one_of ("REJECTED" ∷ "A.REJECTED" ∷ []) s
    then BrokerStatus.rejected
    else if is_one_of ("CANCELLED" ∷ []) s
    then BrokerStatus.cancelled
    else if is_one_of
        ("PENDING" ∷ "OPEN" ∷ "TRIGGER PENDING" ∷ "TRIGGER_PENDING"
          ∷ "AFTER MARKET ORDER REQ RECEIVED" ∷ [])
        s
    then BrokerStatus.confirmed
    else BrokerStatus.other

-- Goroutines that the handlers start, broker and repository calls, and the broadcast to the front end,
-- which is left out by the code where no broadcaster is set. `place_legs true` starts the timer of a
-- partial fill after the legs; `index id` stores the group under that broker id.
pub data Effect {ℓ} (F : Type ℓ) : Type ℓ where
  place_legs : Bool → Effect F
  modify_legs : ℤ → Effect F
  cancel_leg : String → Effect F
  schedule_cleanup : Effect F
  stop_timer : Effect F
  start_timer : Effect F
  cancel_entry : String → Effect F
  index : String → Effect F
  create_order : Order F → Effect F
  modify_order : Order F → Effect F
  broadcast : String → Effect F

abbrev pub Outcome {ℓ} : Type ℓ → Type ℓ
Outcome F = Group F × List (Effect F)

module _ {ℓ} {F : Type ℓ} ⦃f : Float F⦄ where
  open f use {of_int, sub, mul, lt, le}

  abbrev pub positive_or : F → Option F → F
  positive_or default none = default
  positive_or default (some p) = if lt nought p then p else default

  -- The traded price, or else the order's, if they are positive, or else zero.
  unfoldable pub fill_price_of : Order F → F
  fill_price_of o = positive_or (positive_or nought o.price) o.filled_price

  -- The rest of an entry that was partly filled.
  unfoldable pub entry_completed : Group F → Outcome F
  entry_completed g = (
    record g {
      partial_fill_cancel = false;
      partial_fill_active = false;
      partial_fill_timer_started = false;
      filled_qty = g.quantity;
    },
    when g.partial_fill_cancel (stop_timer ∷ []) ++ (modify_legs g.quantity ∷ []),
  )

  -- The group whose entry filled at that price, and whose legs are to be placed.
  abbrev pub entered : ℤ → F → Bool → Group F → Group F
  entered qty price part g = record g {
    filled_qty = qty;
    partial_fill_active = part;
    entry_fill_price = price;
    highest_price = price;
    state = OcoState.placing_legs;
  }

  unfoldable pub entry_filled : Order F → Group F → Outcome F
  unfolding fill_price_of
  entry_filled o g =
      let price = fill_price_of o in
      if not (is_pending_entry g.state)
      then (g, [])
      else if le price nought
      then (record g { state = OcoState.failed }, [])
      else (entered g.quantity price g.partial_fill_active g, place_legs false ∷ [])

  unfoldable pub entry_partly_filled : Order F → Group F → Outcome F
  unfolding fill_price_of
  entry_partly_filled o g =
      let price = fill_price_of o in
      let qty = o.filled_quantity in
      if leb_ℤ qty (pos 0)
      then (g, [])
      else if is_pending_entry g.state && not g.partial_fill_active
      then (if le price nought then (g, []) else (entered qty price true g, place_legs true ∷ []))
      else if g.partial_fill_active
      then (record g { filled_qty = qty }, modify_legs qty ∷ [])
      else (g, [])

  -- A rejected or cancelled entry; what is filled of it keeps its legs.
  unfoldable pub entry_refused : Group F → Outcome F
  entry_refused g =
      if g.partial_fill_active
      then (
        record g {
          partial_fill_cancel = false;
          partial_fill_active = false;
          partial_fill_timer_started = false;
        },
        when g.partial_fill_cancel (stop_timer ∷ []),
      )
      else (
        record g { state = OcoState.failed },
        schedule_cleanup ∷ broadcast "oco_entry_rejected" ∷ [],
      )

  unfoldable pub handle_entry_update : BrokerStatus → Order F → Group F → Outcome F
  unfolding entry_completed entry_filled entry_partly_filled entry_refused
  handle_entry_update BrokerStatus.executed o g =
      if g.partial_fill_active then entry_completed g else entry_filled o g
  handle_entry_update BrokerStatus.partial o g = entry_partly_filled o g
  handle_entry_update BrokerStatus.rejected o g = entry_refused g
  handle_entry_update BrokerStatus.cancelled o g = entry_refused g
  handle_entry_update _ o g = (g, [])

  unfoldable pub check_legs_confirmed : Group F → Outcome F
  check_legs_confirmed g =
      let sl_ok = g.sl_leg_confirmed || g.sl_broker_id == "" in
      let tp_ok = g.tp_leg_confirmed || g.tp_broker_id == "" in
      if is_submitted g.state && (sl_ok && tp_ok)
      then (record g { state = OcoState.active }, broadcast "oco_legs_confirmed" ∷ [])
      else (g, [])

  -- The profit of an exit at the traded price; unchanged where the update has none.
  unfoldable pub realised : Option F → Group F → F
  unfolding leg_qty
  realised none g = g.pnl
  realised (some price) g =
      if g.order_side == "BUY"
      then mul (sub price g.entry_fill_price) (of_int (leg_qty g))
      else mul (sub g.entry_fill_price price) (of_int (leg_qty g))

  -- A leg executed; `sibling` is the broker id of the other one.
  unfoldable pub leg_executed : OcoState → String → Order F → Group F → Outcome F
  unfolding realised
  leg_executed triggered sibling o g =
      let after = record g { state = triggered; pnl = realised o.filled_price g } in
      if not (is_open g.state)
      then (g, [])
      else if sibling == ""
      then (record after { state = OcoState.completed }, broadcast "oco_completed" ∷ [])
      else (after, cancel_leg sibling ∷ [])

  unfoldable pub leg_partly_filled : OcoState → String → Group F → Outcome F
  leg_partly_filled triggered sibling g =
      if is_open g.state then (record g { state = triggered }, cancel_leg sibling ∷ []) else (g, [])

  unfoldable pub leg_cancelled : String → Group F → Outcome F
  leg_cancelled sibling g =
      if is_open g.state
      then (record g { state = OcoState.cancelled }, cancel_leg sibling ∷ schedule_cleanup ∷ [])
      else (g, [])

  unfoldable pub handle_sl_leg_update : BrokerStatus → Order F → Group F → Outcome F
  unfolding check_legs_confirmed leg_executed leg_partly_filled leg_cancelled
  handle_sl_leg_update BrokerStatus.confirmed o g =
      if g.sl_leg_confirmed
      then (g, [])
      else check_legs_confirmed (record g { sl_leg_confirmed = true })
  handle_sl_leg_update BrokerStatus.executed o g =
      leg_executed OcoState.sl_triggered g.tp_broker_id o g
  handle_sl_leg_update BrokerStatus.rejected o g =
      (record g { state = OcoState.failed }, cancel_leg g.tp_broker_id ∷ schedule_cleanup ∷ [])
  handle_sl_leg_update BrokerStatus.partial o g =
      leg_partly_filled OcoState.sl_triggered g.tp_broker_id g
  handle_sl_leg_update BrokerStatus.cancelled o g = leg_cancelled g.tp_broker_id g
  handle_sl_leg_update BrokerStatus.other o g = (g, [])

  unfoldable pub handle_tp_leg_update : BrokerStatus → Order F → Group F → Outcome F
  unfolding check_legs_confirmed leg_executed leg_partly_filled leg_cancelled
  handle_tp_leg_update BrokerStatus.confirmed o g =
      if g.tp_leg_confirmed
      then (g, [])
      else check_legs_confirmed (record g { tp_leg_confirmed = true })
  handle_tp_leg_update BrokerStatus.executed o g =
      leg_executed OcoState.tp_triggered g.sl_broker_id o g
  -- The stop-loss leg stays.
  handle_tp_leg_update BrokerStatus.rejected o g = (g, broadcast "oco_tp_rejected" ∷ [])
  handle_tp_leg_update BrokerStatus.partial o g =
      leg_partly_filled OcoState.tp_triggered g.sl_broker_id g
  handle_tp_leg_update BrokerStatus.cancelled o g = leg_cancelled g.sl_broker_id g
  handle_tp_leg_update BrokerStatus.other o g = (g, [])

  -- The handler for the order's role in the group.
  unfoldable pub handle_role : OcoRole → BrokerStatus → Order F → Group F → Outcome F
  unfolding handle_entry_update handle_sl_leg_update handle_tp_leg_update
  handle_role OcoRole.entry status o g = handle_entry_update status o g
  handle_role OcoRole.sl_leg status o g = handle_sl_leg_update status o g
  handle_role OcoRole.tp_leg status o g = handle_tp_leg_update status o g
