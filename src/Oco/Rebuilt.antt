-- ===== src/Oco/Rebuilt.antt =====
-- What the reconstruction of a group makes of the rows that were written when its legs were placed.
use algo_treading.Base.{
  true, false, ◌==◌, ◌||◌, eq_iff, Bool-cases, inl, inr, String, List, [], ◌∷◌, some, ◌≡◌, refl,
  sym, ap, ◌∙◌, arith,
}
use mathlib.Core.Path.{subst}
use algo_treading.Base.Int.{ℤ}
use algo_treading.Base.Float.{Float}
use algo_treading.Base.Text.{is_one_of, equal_fold}
use algo_treading.Oco.Types.{OcoState, Group, Order, is_filled_status, is_terminal, leg_qty}
use algo_treading.Oco.Updates.{Effect, Outcome, check_legs_confirmed}
use algo_treading.Oco.Placing.{
  Placed, begin_legs, begin_with, leg_prices, with_sl, with_tp, build_leg_order, end_legs,
  register_sl, register_tp, submit_legs,
}
use algo_treading.Oco.Tasks.{modify_sl_leg, modified_leg}
use algo_treading.Oco.Entry.{EntryRequest, entry_order}
use algo_treading.Oco.Reload.{
  reconstruct_group, restore, restore_entry, restore_sl, restore_tp, infer_state, status_of,
  state_of, is_confirmed_on_exchange, blank_group, waits_for_rest,
}
use algo_treading.Oco.Rows.{update_row, update_rows, created_orders, leg_row, leg_rows, filled_row}

-- A status of an order that rests at the exchange.
abbrev pub Rests : String → Type 0
Rests s = (is_confirmed_on_exchange s ≡ true) × (is_filled_status s ≡ false)

named_lem : (s : String) → is_confirmed_on_exchange s ≡ true → (s == "") ≡ false
unfolding is_confirmed_on_exchange is_one_of equal_fold
named_lem s h = elim (Bool-cases (s == "")) [
  | inl e ↦
      absurd
        (let empty = subst (λ z. is_confirmed_on_exchange z ≡ true) ((eq_iff s "").0 e) h in cc)
  | inr e ↦ e
]

executed_lem : is_filled_status "EXECUTED" ≡ true
unfolding is_filled_status is_one_of equal_fold
executed_lem = refl

state_of-active : (s t : String) → Rests s → Rests t → state_of "EXECUTED" s t ≡ OcoState.active
unfolding state_of
state_of-active s t (cs, fs) (ct, ft) =
    rw (executed_lem, named_lem s cs, fs, ft, cs, ct) (ground arith)

no_status : (is_filled_status "" ≡ false) × (is_confirmed_on_exchange "" ≡ false)
unfolding is_filled_status is_confirmed_on_exchange is_one_of equal_fold
no_status = (refl, refl)

-- A leg that was changed has no status in its row.
state_of-changed : (t : String) → Rests t → state_of "EXECUTED" "" t ≡ OcoState.legs_submitted
unfolding state_of
state_of-changed t (ct, ft) =
    rw (executed_lem, named_lem t ct, no_status.0, no_status.1, ft) (ground arith)

module _ {ℓ} {F : Type ℓ} ⦃f : Float F⦄ where
  -- What a broker update or the trailing of the stop-loss goes by.
  abbrev pub legs_of : Group F → String × String × String × F × F × String × String × F
  legs_of g = (
    g.entry_broker_id, g.sl_order_id, g.sl_broker_id, g.sl_trigger_price, g.sl_limit_price,
    g.tp_order_id, g.tp_broker_id, g.tp_limit_price,
  )

  abbrev pub with_state : OcoState → Group F → Group F
  with_state s g = record g { state = s }

  -- The group of those rows, in a given state.
  abbrev rebuilt : OcoState → String → List (Order F) → Group F
  rebuilt state group_id rows =
      let g = with_state state (restore rows (blank_group group_id)) in
      record g { partial_fill_active = waits_for_rest g || g.partial_fill_active }

  reconstruct_group-rebuilt :
      (state : OcoState) (group_id : String) (rows : List (Order F))
      → infer_state rows ≡ state
      → is_terminal state ≡ false
      → reconstruct_group group_id rows ≡ some (rebuilt state group_id rows)
  unfolding reconstruct_group
  reconstruct_group-rebuilt state group_id rows e live = rw (e, live) refl

  -- The rows after both legs are placed.
  abbrev pub stored :
      EntryRequest F → ℤ → String → String → String → String → Group F → Outcome F → List (Order F)
  stored r filled a s b t g begun =
      filled_row r g.entry_broker_id filled
      ∷ leg_rows (created_orders begun.1) ((a, s) ∷ (b, t) ∷ [])

  -- The group after the broker accepted both.
  abbrev pub placed_group : String → String → Outcome F → Group F
  placed_group a b begun = (end_legs (Placed.placed a) (Placed.placed b) begun.0).0

  -- The ids that the broker gave are kept.
  placed_lem :
      (a b : String) (g : Group F)
      → (a == "") ≡ false
      → (b == "") ≡ false
      → legs_of (end_legs (Placed.placed a) (Placed.placed b) g).0
        ≡ legs_of (record g { sl_broker_id = a; tp_broker_id = b })
  unfolding end_legs register_sl register_tp submit_legs check_legs_confirmed
  placed_lem a b g named_a named_b = ground arith

  legs_core :
      (r : EntryRequest F) (filled : ℤ) (sl_id tp_id a b s t : String) (sl : F × F) (tp : F)
      (g : Group F)
      → (a == "") ≡ false
      → (b == "") ≡ false
      → let begun = begin_with sl_id tp_id (some (record { sl = some sl; tp = some tp })) g in
        let h = rebuilt OcoState.active g.group_id (stored r filled a s b t g begun) in
        (legs_of h ≡ legs_of (placed_group a b begun))
        × (infer_state (stored r filled a s b t g begun) ≡ state_of "EXECUTED" s t)
        × (h.group_id ≡ g.group_id)
        × (h.order_side ≡ r.order_side)
        × (h.quantity ≡ r.quantity)
  unfolding begin_with with_sl with_tp restore restore_entry restore_sl restore_tp infer_state
      status_of filled_row leg_rows leg_row update_row created_orders build_leg_order entry_order
  legs_core r filled sl_id tp_id a b s t sl tp g named_a named_b =
      let begun = begin_with sl_id tp_id (some (record { sl = some sl; tp = some tp })) g in
      (sym (placed_lem a b begun.0 named_a named_b), refl, refl, refl, refl)

  -- The rebuilt group is active and has the legs of the running one.
  abbrev pub Restored :
      EntryRequest F → ℤ → String → String → String → String → Group F → Outcome F → Type ℓ
  Restored r filled a s b t g begun =
      (h : Group F) × (reconstruct_group g.group_id (stored r filled a s b t g begun) ≡ some h)
      × (legs_of h ≡ legs_of (placed_group a b begun))
      × (h.state ≡ OcoState.active)
      × (h.group_id ≡ g.group_id)
      × (h.order_side ≡ r.order_side)
      × (h.quantity ≡ r.quantity)

  -- After both legs are placed, at the prices that the fill gives, and rest at the exchange, a restart
  -- rebuilds the group from the rows that were written: it is active, with the ids and the prices of the
  -- legs and the side and quantity of the entry, as long as the legs are not changed.
  pub reconstruct_group-end_legs :
      (r : EntryRequest F) (filled : ℤ) (sl_id tp_id a b s t : String) (sl : F × F) (tp : F)
      (g : Group F)
      → leg_prices g ≡ some (record { sl = some sl; tp = some tp })
      → (a == "") ≡ false
      → (b == "") ≡ false
      → Rests s
      → Rests t
      → Restored r filled a s b t g (begin_legs sl_id tp_id g)
  unfolding begin_legs is_terminal
  reconstruct_group-end_legs r filled sl_id tp_id a b s t sl tp g prices named_a named_b rests_s
        rests_t =
      let begun = begin_with sl_id tp_id (some (record { sl = some sl; tp = some tp })) g in
      let (legs, state, id, side, quantity) =
        legs_core r filled sl_id tp_id a b s t sl tp g named_a named_b in
      let rows = stored r filled a s b t g begun in
      subst (λ p. Restored r filled a s b t g (begin_with sl_id tp_id p g)) (sym prices)
        (
          rebuilt OcoState.active g.group_id rows,
          reconstruct_group-rebuilt OcoState.active g.group_id rows
              (state ∙ state_of-active s t rests_s rests_t) refl,
          legs,
          refl,
          id,
          side,
          quantity,
        )

  -- The rows when the stop-loss leg was changed since.
  abbrev changed_rows : Order F → List (Order F) → List (Order F)
  changed_rows m (entry ∷ sl ∷ rest) = entry ∷ update_row sl m ∷ rest
  changed_rows m rows = rows

  changed_lem :
      (r : EntryRequest F) (filled : ℤ) (sl_id tp_id a b s t : String) (sl : F × F) (tp : F)
      (g : Group F) (m : Order F)
      → m.status ≡ ""
      → let begun = begin_with sl_id tp_id (some (record { sl = some sl; tp = some tp })) g in
        let rows = changed_rows m (stored r filled a s b t g begun) in
        ((rebuilt OcoState.legs_submitted g.group_id rows).sl_trigger_price ≡ sl.0)
        × (infer_state rows ≡ state_of "EXECUTED" "" t)
  unfolding begin_with with_sl with_tp restore restore_entry restore_sl restore_tp infer_state
      status_of filled_row leg_rows leg_row update_row created_orders build_leg_order entry_order
  changed_lem r filled sl_id tp_id a b s t sl tp g m blank =
      (refl, ap (λ z. state_of "EXECUTED" z t) blank)

  update_rows_lem :
      (r : EntryRequest F) (filled : ℤ) (sl_id tp_id a b s t : String) (sl : F × F) (tp : F)
      (g : Group F) (m : Order F)
      → m.order_id ≡ sl_id
      → (r.entry_order_id == sl_id) ≡ false
      → (tp_id == sl_id) ≡ false
      → let begun = begin_with sl_id tp_id (some (record { sl = some sl; tp = some tp })) g in
        let rows = stored r filled a s b t g begun in changed_rows m rows ≡ update_rows m rows
  unfolding begin_with with_sl with_tp filled_row leg_rows leg_row update_row update_rows
      created_orders build_leg_order entry_order
  update_rows_lem r filled sl_id tp_id a b s t sl tp g m is_sl entry_differs tp_differs =
      rw (is_sl, entry_differs, tp_differs, (eq_iff sl_id sl_id).1 refl) refl

  modify_sl_leg_lem :
      (trigger limit highest : F) (h : Group F)
      → h.state ≡ OcoState.active
      → (h.sl_broker_id == "") ≡ false
      → let out = (modify_sl_leg true trigger limit highest h).0 in
        (out.0.sl_trigger_price ≡ trigger)
        × (out.1
            ≡ Effect.modify_order (
                modified_leg h h.sl_order_id h.sl_broker_id "STOP_LOSS"
                  (leg_qty h)
                  limit
                  (some trigger))
              ∷ [])
  unfolding modify_sl_leg
  modify_sl_leg_lem trigger limit highest h active named = rw (active, named) (refl, refl)

  -- A stop-loss leg that was moved at the broker: the group has the new trigger, but a restart rebuilds it
  -- from the row with the trigger of the placement, and as though its legs were not confirmed, where the
  -- three orders have different ids.
  pub reconstruct_group-modify_sl_leg :
      (r : EntryRequest F) (filled : ℤ) (sl_id tp_id a b s t : String) (sl : F × F) (tp : F)
      (g h : Group F) (trigger limit highest : F)
      → h.state ≡ OcoState.active
      → (h.sl_broker_id == "") ≡ false
      → Rests t
      → h.sl_order_id ≡ sl_id
      → (r.entry_order_id == sl_id) ≡ false
      → (tp_id == sl_id) ≡ false
      → let begun = begin_with sl_id tp_id (some (record { sl = some sl; tp = some tp })) g in
        let out = (modify_sl_leg true trigger limit highest h).0 in
        (out.0.sl_trigger_price ≡ trigger)
        × (m : Order F) × (out.1 ≡ Effect.modify_order m ∷ [])
        × (k : Group F) × (reconstruct_group g.group_id
              (update_rows m (stored r filled a s b t g begun))
            ≡ some k)
        × (k.sl_trigger_price ≡ sl.0)
        × (k.state ≡ OcoState.legs_submitted)
  unfolding modified_leg is_terminal
  reconstruct_group-modify_sl_leg r filled sl_id tp_id a b s t sl tp g h trigger limit highest
        active named rests is_sl entry_differs tp_differs =
      let begun = begin_with sl_id tp_id (some (record { sl = some sl; tp = some tp })) g in
      let m =
        modified_leg h h.sl_order_id h.sl_broker_id "STOP_LOSS" (leg_qty h) limit (some trigger) in
      let (now, sent) = modify_sl_leg_lem trigger limit highest h active named in
      let (kept, state) = changed_lem r filled sl_id tp_id a b s t sl tp g m refl in
      let rows = changed_rows m (stored r filled a s b t g begun) in
      (
        now,
        m,
        sent,
        rebuilt OcoState.legs_submitted g.group_id rows,
        ap (reconstruct_group g.group_id) (
              sym (
                update_rows_lem r filled sl_id tp_id a b s t sl tp g m is_sl entry_differs
                  tp_differs))
            ∙ reconstruct_group-rebuilt OcoState.legs_submitted g.group_id rows
                (state ∙ state_of-changed t rests) refl,
        kept,
        refl,
      )
