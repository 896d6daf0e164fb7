-- ===== src/Oco/States.antt =====
-- The states that a group goes through, and its profit, over broker updates and tasks in any order.
use algo_treading.Base.{
  Bool, true, false, not, ◌&&◌, String, ◌==◌, [], ◌≡◌, refl, if◌then◌else◌, arith,
}
use algo_treading.Base.Int.{pos, leb_ℤ}
use algo_treading.Base.Float.{Float}
use algo_treading.MultiLevel.Types.{nought}
use algo_treading.Oco.Types.{
  OcoState, OcoRole, Group, Order, is_terminal, is_open, is_pending_entry, is_submitted,
}
use algo_treading.Oco.Updates.{
  BrokerStatus, Outcome, entry_completed, entry_filled, entry_partly_filled, entry_refused,
  handle_entry_update, check_legs_confirmed, leg_executed, leg_partly_filled, leg_cancelled,
  handle_sl_leg_update, handle_tp_leg_update, handle_role, fill_price_of, realised,
}

-- An exit is under way or the group is over.
abbrev pub is_closing : OcoState → Bool
is_closing OcoState.sl_triggered = true
is_closing OcoState.tp_triggered = true
is_closing OcoState.completed = true
is_closing OcoState.failed = true
is_closing OcoState.cancelled = true
is_closing _ = false

abbrev pub is_placing : OcoState → Bool
is_placing OcoState.placing_legs = true
is_placing _ = false

-- The state machine of a group.
pub data Moves : OcoState → OcoState → Type 0 where
  stays : {s : OcoState} → Moves s s
  fills : {s : OcoState} → is_pending_entry s ≡ true → Moves s OcoState.placing_legs
  submits : {s : OcoState} → is_placing s ≡ true → Moves s OcoState.legs_submitted
  activates : {s : OcoState} → is_placing s ≡ true → Moves s OcoState.active
  confirms : {s : OcoState} → is_submitted s ≡ true → Moves s OcoState.active
  sl_triggers : {s : OcoState} → is_open s ≡ true → Moves s OcoState.sl_triggered
  tp_triggers : {s : OcoState} → is_open s ≡ true → Moves s OcoState.tp_triggered
  exits : {s : OcoState} → is_open s ≡ true → Moves s OcoState.completed
  closes : {s : OcoState} → is_closing s ≡ true → Moves s OcoState.completed
  cancels : {s : OcoState} → is_terminal s ≡ false → Moves s OcoState.cancelled
  fails : {s : OcoState} → is_terminal s ≡ false → Moves s OcoState.failed

open_terminal : (s : OcoState) → is_open s ≡ true → is_terminal s ≡ false
unfolding is_terminal
open_terminal s h = ground arith

open_closing : (s : OcoState) → is_open s ≡ true → is_closing s ≡ false
open_closing s h = ground arith

pending_closing : (s : OcoState) → is_pending_entry s ≡ true → is_closing s ≡ false
pending_closing s h = ground arith

pub placing_closing : (s : OcoState) → is_placing s ≡ true → is_closing s ≡ false
placing_closing s h = ground arith

submitted_open : (s : OcoState) → is_submitted s ≡ true → is_open s ≡ true
submitted_open s h = ground arith

pending_terminal : (s : OcoState) → is_pending_entry s ≡ true → is_terminal s ≡ false
unfolding is_terminal
pending_terminal s h = ground arith

pub placing_terminal : (s : OcoState) → is_placing s ≡ true → is_terminal s ≡ false
unfolding is_terminal
placing_terminal s h = ground arith

-- A group that is closing stays so.
pub Moves-closing : {s t : OcoState} → Moves s t → is_closing s ≡ true → is_closing t ≡ true
Moves-closing stays h = h
Moves-closing {s} (fills p) h = cc (pending_closing s p)
Moves-closing {s} (submits p) h = cc (placing_closing s p)
Moves-closing {s} (activates p) h = cc (placing_closing s p)
Moves-closing {s} (confirms p) h = cc (open_closing s (submitted_open s p))
Moves-closing (sl_triggers p) h = refl
Moves-closing (tp_triggers p) h = refl
Moves-closing (exits p) h = refl
Moves-closing (closes p) h = refl
Moves-closing (cancels p) h = refl
Moves-closing (fails p) h = refl

pub of_not : (b : Bool) → not b ≡ false → b ≡ true
of_not true e = refl
of_not false e = cc

pub both : (a b : Bool) → (a && b) ≡ true → (a ≡ true) × (b ≡ true)
both a b e = ground arith

module _ {ℓ} {F : Type ℓ} where
  -- A move of the state machine that keeps the profit of a group that is closing.
  abbrev pub Sound : Group F → Group F → Type ℓ
  Sound g h = Moves g.state h.state × (is_closing g.state ≡ true → h.pnl ≡ g.pnl)

  pub Sound-if :
      (g : Group F) (b : Bool) (x y : Outcome F)
      → (b ≡ true → Sound g x.0)
      → (b ≡ false → Sound g y.0)
      → Sound g (if b then x else y).0
  Sound-if g true x y p q = p refl
  Sound-if g false x y p q = q refl

  pub unchanged : (g : Group F) → Sound g g
  unchanged g = (stays, λ _. refl)

  pub opened : (g h : Group F) → is_open g.state ≡ true → Moves g.state h.state → Sound g h
  opened g h o m = (m, λ c. cc (open_closing g.state o))

module _ {ℓ} {F : Type ℓ} ⦃f : Float F⦄ where
  open f use {le}

  entry_filled-Sound : (o : Order F) (g : Group F) → Sound g (entry_filled o g).0
  unfolding entry_filled
  entry_filled-Sound o g =
      Sound-if g (not (is_pending_entry g.state)) (g, []) _ (λ _. unchanged g)
        λ pending.
          let p = of_not (is_pending_entry g.state) pending in
          Sound-if g (le (fill_price_of o) nought) _ _
            (λ _. (fails (pending_terminal g.state p), λ _. refl)) (λ _. (fills p, λ _. refl))

  entry_partly_filled-Sound : (o : Order F) (g : Group F) → Sound g (entry_partly_filled o g).0
  unfolding entry_partly_filled
  entry_partly_filled-Sound o g =
      Sound-if g (leb_ℤ o.filled_quantity (pos 0)) (g, []) _ (λ _. unchanged g)
        λ _.
          Sound-if g (is_pending_entry g.state && not g.partial_fill_active) _ _
            (λ e.
              let p = both (is_pending_entry g.state) (not g.partial_fill_active) e in
              Sound-if g (le (fill_price_of o) nought) (g, []) _ (λ _. unchanged g)
                (λ _. (fills p.0, λ _. refl)))
            (λ _.
              Sound-if g g.partial_fill_active _ (g, []) (λ _. (stays, λ _. refl))
                (λ _. unchanged g))

  entry_refused-Sound : (g : Group F) → is_terminal g.state ≡ false → Sound g (entry_refused g).0
  unfolding entry_refused
  entry_refused-Sound g live =
      Sound-if g g.partial_fill_active _ _ (λ _. (stays, λ _. refl)) (λ _. (fails live, λ _. refl))

  handle_entry_update-Sound :
      (status : BrokerStatus) (o : Order F) (g : Group F)
      → is_terminal g.state ≡ false
      → Sound g (handle_entry_update status o g).0
  unfolding handle_entry_update entry_completed
  handle_entry_update-Sound BrokerStatus.executed o g live =
      Sound-if g g.partial_fill_active _ (entry_filled o g) (λ _. (stays, λ _. refl))
        (λ _. entry_filled-Sound o g)
  handle_entry_update-Sound BrokerStatus.partial o g live = entry_partly_filled-Sound o g
  handle_entry_update-Sound BrokerStatus.rejected o g live = entry_refused-Sound g live
  handle_entry_update-Sound BrokerStatus.cancelled o g live = entry_refused-Sound g live
  handle_entry_update-Sound BrokerStatus.confirmed o g live = unchanged g
  handle_entry_update-Sound BrokerStatus.other o g live = unchanged g

  pub check_legs_confirmed-Sound : (g : Group F) → Sound g (check_legs_confirmed g).0
  unfolding check_legs_confirmed
  check_legs_confirmed-Sound g =
      Sound-if g _ _ (g, [])
        (λ e. let s = (both (is_submitted g.state) _ e).0 in (confirms s, λ _. refl))
        (λ _. unchanged g)

  leg_executed-Sound :
      (triggered : OcoState) (sibling : String) (o : Order F) (g : Group F)
      → (is_open g.state ≡ true → Moves g.state triggered)
      → Sound g (leg_executed triggered sibling o g).0
  unfolding leg_executed
  leg_executed-Sound triggered sibling o g m =
      Sound-if g (not (is_open g.state)) (g, []) _ (λ _. unchanged g)
        λ closed.
          let p = of_not (is_open g.state) closed in
          Sound-if g (sibling == "") _ _
            (λ _.
              opened g (record g { state = OcoState.completed; pnl = realised o.filled_price g }) p
                (exits p))
            (λ _.
              opened g (record g { state = triggered; pnl = realised o.filled_price g }) p (m p))

  leg_partly_filled-Sound :
      (triggered : OcoState) (sibling : String) (g : Group F)
      → (is_open g.state ≡ true → Moves g.state triggered)
      → Sound g (leg_partly_filled triggered sibling g).0
  unfolding leg_partly_filled
  leg_partly_filled-Sound triggered sibling g m =
      Sound-if g (is_open g.state) _ (g, []) (λ p. (m p, λ _. refl)) (λ _. unchanged g)

  leg_cancelled-Sound : (sibling : String) (g : Group F) → Sound g (leg_cancelled sibling g).0
  unfolding leg_cancelled
  leg_cancelled-Sound sibling g =
      Sound-if g (is_open g.state) _ (g, []) (λ p. (cancels (open_terminal g.state p), λ _. refl))
        (λ _. unchanged g)

  handle_sl_leg_update-Sound :
      (status : BrokerStatus) (o : Order F) (g : Group F)
      → is_terminal g.state ≡ false
      → Sound g (handle_sl_leg_update status o g).0
  unfolding handle_sl_leg_update
  handle_sl_leg_update-Sound BrokerStatus.confirmed o g live =
      Sound-if g g.sl_leg_confirmed (g, []) _ (λ _. unchanged g)
        (λ _. check_legs_confirmed-Sound (record g { sl_leg_confirmed = true }))
  handle_sl_leg_update-Sound BrokerStatus.executed o g live =
      leg_executed-Sound OcoState.sl_triggered g.tp_broker_id o g (λ p. sl_triggers p)
  handle_sl_leg_update-Sound BrokerStatus.rejected o g live = (fails live, λ _. refl)
  handle_sl_leg_update-Sound BrokerStatus.partial o g live =
      leg_partly_filled-Sound OcoState.sl_triggered g.tp_broker_id g (λ p. sl_triggers p)
  handle_sl_leg_update-Sound BrokerStatus.cancelled o g live = leg_cancelled-Sound g.tp_broker_id g
  handle_sl_leg_update-Sound BrokerStatus.other o g live = unchanged g

  handle_tp_leg_update-Sound :
      (status : BrokerStatus) (o : Order F) (g : Group F)
      → Sound g (handle_tp_leg_update status o g).0
  unfolding handle_tp_leg_update
  handle_tp_leg_update-Sound BrokerStatus.confirmed o g =
      Sound-if g g.tp_leg_confirmed (g, []) _ (λ _. unchanged g)
        (λ _. check_legs_confirmed-Sound (record g { tp_leg_confirmed = true }))
  handle_tp_leg_update-Sound BrokerStatus.executed o g =
      leg_executed-Sound OcoState.tp_triggered g.sl_broker_id o g (λ p. tp_triggers p)
  handle_tp_leg_update-Sound BrokerStatus.rejected o g = unchanged g
  handle_tp_leg_update-Sound BrokerStatus.partial o g =
      leg_partly_filled-Sound OcoState.tp_triggered g.sl_broker_id g (λ p. tp_triggers p)
  handle_tp_leg_update-Sound BrokerStatus.cancelled o g = leg_cancelled-Sound g.sl_broker_id g
  handle_tp_leg_update-Sound BrokerStatus.other o g = unchanged g

  pub handle_role-Sound :
      (role : OcoRole) (status : BrokerStatus) (o : Order F) (g : Group F)
      → is_terminal g.state ≡ false
      → Sound g (handle_role role status o g).0
  unfolding handle_role
  handle_role-Sound OcoRole.entry status o g live = handle_entry_update-Sound status o g live
  handle_role-Sound OcoRole.sl_leg status o g live = handle_sl_leg_update-Sound status o g live
  handle_role-Sound OcoRole.tp_leg status o g live = handle_tp_leg_update-Sound status o g
