-- ===== src/Oco/Entry.antt =====
-- services/trade-execution/internal/oco/manager.go: a new group, for a new entry order (CreateOCOEntry) or
-- for an order that was placed before (AdoptOrder). The ids that `uuid.New` gives are arguments.
use algo_treading.Base.{
  ℕ, zero, suc, ◌+◌, Bool, true, false, String, ◌==◌, List, [], ◌∷◌, Option, none, some,
  if◌then◌else◌,
}
use algo_treading.Base.Int.{ℤ, pos}
use algo_treading.Base.Float.{Float}
use algo_treading.MultiLevel.Types.{nought, round_nse}
use algo_treading.Oco.Types.{OcoState, OcoRole, Group, Order, role_name}
use algo_treading.Oco.Manager.{Manager, register}

-- The broker's answer to the placement of an entry: an id, an expired session (401), a session that is not
-- ready (AU004), or a refusal for good.
pub data EntryAnswer : Type 0 where
  accepted : String → EntryAnswer
  expired not_ready refused : EntryAnswer

-- The attempts that are left; `refreshes n` says whether new credentials are found before attempt n.
unfoldable pub place_entry_from : (ℕ → EntryAnswer) → (ℕ → Bool) → ℕ → ℕ → Option String
place_entry_from answers refreshes attempt zero = none
place_entry_from answers refreshes attempt (suc left) =
    let rest = place_entry_from answers refreshes (attempt + 1) left in
    elim (answers attempt) [
      | EntryAnswer.accepted id ↦ some id
      | EntryAnswer.expired ↦ if refreshes (attempt + 1) then rest else none
      | EntryAnswer.not_ready ↦ rest
      | EntryAnswer.refused ↦ none
    ]

-- `maxEntryRetries` and the first attempt.
abbrev pub entry_attempts : ℕ
entry_attempts = 3

unfoldable pub place_entry : (ℕ → EntryAnswer) → (ℕ → Bool) → Option String
unfolding place_entry_from
place_entry answers refreshes = place_entry_from answers refreshes 0 entry_attempts

-- What `CreateOCOEntry` is called with, and the new ids.
pub record EntryRequest {ℓ} (F : Type ℓ) : Type ℓ where
  pub group_id : String
  pub entry_order_id : String
  pub user_id : String
  pub strategy_id : String
  pub symbol : String
  pub order_side : String
  pub quantity : ℤ
  pub entry_trigger_price : F
  pub sl_percent : F
  pub tp_percent : F
  pub trailing_sl : Bool
  pub trailing_sl_pct : F

module _ {ℓ} {F : Type ℓ} ⦃f : Float F⦄ where
  open f use {ratio, mul, lt}

  unfoldable pub entry_group : EntryRequest F → String → Group F
  entry_group r broker_id = record {
    group_id = r.group_id;
    user_id = r.user_id;
    strategy_id = r.strategy_id;
    symbol = r.symbol;
    entry_order_id = r.entry_order_id;
    entry_broker_id = broker_id;
    entry_fill_price = nought;
    sl_order_id = "";
    sl_broker_id = "";
    sl_trigger_price = nought;
    sl_limit_price = nought;
    tp_order_id = "";
    tp_broker_id = "";
    tp_limit_price = nought;
    sl_percent = r.sl_percent;
    tp_percent = r.tp_percent;
    trailing_sl = r.trailing_sl;
    trailing_sl_pct = r.trailing_sl_pct;
    state = OcoState.pending_entry;
    highest_price = nought;
    pnl = nought;
    sl_leg_confirmed = false;
    tp_leg_confirmed = false;
    quantity = r.quantity;
    order_side = r.order_side;
    filled_qty = pos 0;
    partial_fill_active = false;
    partial_fill_cancel = false;
    partial_fill_timer_started = false;
  }

  unfoldable pub entry_limit_price : EntryRequest F → F
  entry_limit_price r =
      if r.order_side == "BUY"
      then round_nse (mul r.entry_trigger_price (ratio 1005 1000))
      else round_nse (mul r.entry_trigger_price (ratio 995 1000))

  -- The entry order with that status, and the broker id if it has one.
  unfoldable pub entry_order : EntryRequest F → String → Option String → Order F
  unfolding entry_limit_price
  entry_order r status broker_id = record {
    order_id = r.entry_order_id;
    user_id = r.user_id;
    strategy_id = r.strategy_id;
    symbol = r.symbol;
    order_type = "LIMIT";
    order_side = r.order_side;
    quantity = r.quantity;
    price = some (entry_limit_price r);
    stop_loss = none;
    take_profit = none;
    status = status;
    indira_order_id = broker_id;
    filled_price = none;
    filled_quantity = pos 0;
    stop_loss_type = if r.trailing_sl then some "TRAILING" else none;
    trailing_sl_pct = if lt nought r.trailing_sl_pct then some r.trailing_sl_pct else none;
    highest_price = none;
    oco_group_id = some r.group_id;
    oco_role = some (role_name OcoRole.entry);
  }

  -- `persisted` says whether the order was stored, and `id` is the broker's, if it placed the order. The
  -- group is nothing where an error is returned; then the rows of the repository, in order.
  unfoldable pub create_oco_entry :
      Bool
      → Option String
      → EntryRequest F
      → Manager F
      → Option (Group F) × Manager F × List (Order F)
  unfolding entry_group entry_order
  create_oco_entry false id r m = (none, m, [])
  create_oco_entry true none r m =
      (none, m, entry_order r "RECEIVED" none ∷ entry_order r "FAILED" none ∷ [])
  create_oco_entry true (some id) r m = (
    some (entry_group r id),
    register (entry_group r id) m,
    entry_order r "RECEIVED" none ∷ entry_order r "SUBMITTED" (some id) ∷ [],
  )

  -- The group of an adopted order.
  unfoldable pub adopted_group : String → Order F → String → F → F → Bool → F → Group F
  unfolding entry_group
  adopted_group group_id o broker_id sl tp trailing pct =
      entry_group
        (record {
          group_id = group_id;
          entry_order_id = o.order_id;
          user_id = o.user_id;
          strategy_id = o.strategy_id;
          symbol = o.symbol;
          order_side = o.order_side;
          quantity = o.quantity;
          entry_trigger_price = nought;
          sl_percent = sl;
          tp_percent = tp;
          trailing_sl = trailing;
          trailing_sl_pct = pct;
        })
        broker_id

  -- An order without a broker id is passed over.
  unfoldable pub adopt_id :
      Option String → String → Order F → F → F → Bool → F → Manager F → Manager F
  unfolding adopted_group
  adopt_id none group_id o sl tp trailing pct m = m
  adopt_id (some id) group_id o sl tp trailing pct m =
      if id == "" then m else register (adopted_group group_id o id sl tp trailing pct) m

  unfoldable pub adopt_order : String → Order F → F → F → Bool → F → Manager F → Manager F
  unfolding adopt_id
  adopt_order group_id o sl tp trailing pct m =
      adopt_id o.indira_order_id group_id o sl tp trailing pct m
