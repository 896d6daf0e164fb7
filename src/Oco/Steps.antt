-- ===== src/Oco/Steps.antt =====
-- A group over broker updates, tasks and cancellations that come in any order.
use algo_treading.Base.{
  Bool, true, false, not, ◌&&◌, ◌||◌, String, ◌==◌, List, [], ◌++◌, Option, none, some, ◌≡◌, refl,
  sym, ap, ◌∙◌, if◌then◌else◌, Bool-cases, inl, inr,
}
use mathlib.Core.Path.{subst}
use algo_treading.Base.Int.{ℤ}
use algo_treading.Base.Float.{Float}
use algo_treading.Oco.Types.{
  OcoState, OcoRole, Group, Order, is_terminal, is_active, calculate_trailing_sl,
}
use algo_treading.Oco.Updates.{BrokerStatus, Effect, Outcome, handle_role, check_legs_confirmed}
use algo_treading.Oco.Placing.{
  Placed, LegPrices, begin_legs, begin_with, end_legs, leg_prices, with_sl, with_tp, register_sl,
  register_tp, submit_legs, drop_tp, id_of, is_refused, indexed,
}
use algo_treading.Oco.Tasks.{
  cancel_leg, after_partial_legs, timer_expired, modify_legs_qty, modify_sl_leg, cancel_group,
  evaluate_trailing, trail_to,
}
use algo_treading.Oco.Manager.{route, backfill, late_role, late_update}
use algo_treading.Oco.States.{
  Moves, stays, submits, activates, closes, cancels, fails, is_closing, is_placing, Sound, Sound-if,
  unchanged, handle_role-Sound, placing_closing, placing_terminal, Moves-closing,
}

module _ {ℓ} {F : Type ℓ} where
  same_if :
      (g : Group F) (b : Bool) (x y : Outcome F)
      → (x.0.state ≡ g.state) × (x.0.pnl ≡ g.pnl)
      → (y.0.state ≡ g.state) × (y.0.pnl ≡ g.pnl)
      → let z = if b then x else y in (z.0.state ≡ g.state) × (z.0.pnl ≡ g.pnl)
  same_if g true x y p q = p
  same_if g false x y p q = q

  backfill-same :
      (role : OcoRole) (id : String) (g : Group F)
      → let h = (backfill role id g).0 in (h.state ≡ g.state) × (h.pnl ≡ g.pnl)
  unfolding backfill
  backfill-same OcoRole.entry id g = (refl, refl)
  backfill-same OcoRole.sl_leg id g =
      same_if g (g.sl_broker_id == "") _ (g, []) (refl, refl) (refl, refl)
  backfill-same OcoRole.tp_leg id g =
      same_if g (g.tp_broker_id == "") _ (g, []) (refl, refl) (refl, refl)

  Sound-from : (g h k : Group F) → (h.state ≡ g.state) × (h.pnl ≡ g.pnl) → Sound h k → Sound g k
  Sound-from g h k (s, p) (m, keeps) =
      (subst (λ z. Moves z k.state) s m, λ c. keeps (ap is_closing s ∙ c) ∙ p)

module _ {ℓ} {F : Type ℓ} ⦃f : Float F⦄ where
  placing : (g h : Group F) → is_placing g.state ≡ true → Moves g.state h.state → Sound g h
  placing g h p m = (m, λ c. cc (placing_closing g.state p))

  with_sl-state :
      (id : String) (o : Option (F × F)) (g : Group F) → (with_sl id o g).state ≡ g.state
  unfolding with_sl
  with_sl-state id none g = refl
  with_sl-state id (some p) g = refl

  with_tp-state : (id : String) (o : Option F) (g : Group F) → (with_tp id o g).state ≡ g.state
  unfolding with_tp
  with_tp-state id none g = refl
  with_tp-state id (some p) g = refl

  begin_with-Moves :
      (sl_id tp_id : String) (o : Option (LegPrices F)) (g : Group F)
      → is_placing g.state ≡ true
      → Moves g.state (begin_with sl_id tp_id o g).0.state
  unfolding begin_with
  begin_with-Moves sl_id tp_id none g p = fails (placing_terminal g.state p)
  begin_with-Moves sl_id tp_id (some prices) g p =
      subst (λ s. Moves g.state s)
        (sym (
          with_tp-state tp_id prices.tp (with_sl sl_id prices.sl g)
          ∙ with_sl-state sl_id prices.sl g))
        stays

  submit_legs-Moves :
      (s : OcoState) (g : Group F) (calls : List (Effect F)) (message : String)
      → is_placing s ≡ true
      → Moves s (submit_legs g calls message).0.state
  unfolding submit_legs check_legs_confirmed
  submit_legs-Moves s g calls message p =
      elim (Bool-cases (
        (g.sl_leg_confirmed || g.sl_broker_id == "")
        && (g.tp_leg_confirmed || g.tp_broker_id == ""))) [
          | inl e ↦ rw e (activates p)
          | inr e ↦ rw e (submits p)
        ]

  Moves-if :
      (s : OcoState) (b : Bool) (x y : Outcome F)
      → Moves s x.0.state
      → Moves s y.0.state
      → Moves s (if b then x else y).0.state
  Moves-if s true x y p q = p
  Moves-if s false x y p q = q

  end_legs-Moves :
      (sl tp : Placed) (g : Group F)
      → is_placing g.state ≡ true
      → Moves g.state (end_legs sl tp g).0.state
  unfolding end_legs drop_tp
  end_legs-Moves sl tp g p =
      let live = placing_terminal g.state p in
      Moves-if g.state (is_refused sl && is_refused tp) _ _ (fails live) (
        Moves-if g.state (is_refused sl) (drop_tp (id_of tp) g) _ (fails live) (
          Moves-if g.state (is_refused tp) _ _
            (submit_legs-Moves g.state
              (record (register_sl (id_of sl) g) { tp_leg_confirmed = true }) (indexed (id_of sl))
              "oco_tp_rejected" p)
            (submit_legs-Moves g.state (register_tp (id_of tp) (register_sl (id_of sl) g))
              (indexed (id_of sl) ++ indexed (id_of tp)) "oco_legs_submitted" p)))

  modify_sl_leg-Sound :
      (accepts : Bool) (trigger limit ltp : F) (g : Group F)
      → Sound g (modify_sl_leg accepts trigger limit ltp g).0.0
  unfolding modify_sl_leg
  modify_sl_leg-Sound accepts trigger limit ltp g =
      elim (Bool-cases (not (is_active g.state) || g.sl_broker_id == "")) [
        | inl e ↦ rw e (unchanged g)
        | inr e ↦ elim (Bool-cases (not accepts)) [
          | inl k ↦ rw (e, k) (unchanged g)
          | inr k ↦ rw (e, k) (stays, λ _. refl)
        ]
      ]

  trail_to-Sound :
      (accepts : Bool) (ltp : F) (o : Option (F × F)) (g : Group F)
      → Sound g (trail_to accepts ltp o g).0
  unfolding trail_to
  trail_to-Sound accepts ltp none g = unchanged g
  trail_to-Sound accepts ltp (some p) g = modify_sl_leg-Sound accepts p.0 p.1 ltp g

  cancel_group-Sound : (g : Group F) → Sound g (cancel_group g).0.0
  unfolding cancel_group
  cancel_group-Sound g = elim (Bool-cases (is_terminal g.state)) [
    | inl e ↦ rw e (unchanged g)
    | inr e ↦ rw e (cancels e, λ _. refl)
  ]

  late_update-Sound :
      (role : Option OcoRole) (status : BrokerStatus) (id : String) (o : Order F) (g : Group F)
      → is_terminal g.state ≡ false
      → Sound g (late_update role status id o g).0
  late_update-Sound none status id o g live = unchanged g
  late_update-Sound (some role) status id o g live =
      let h = (backfill role id g).0 in
      let same = backfill-same role id g in
      Sound-from g h (handle_role role status o h).0 same
        (handle_role-Sound role status o h (ap is_terminal same.0 ∙ live))

  route-Sound :
      (status : BrokerStatus) (id : String) (o : Order F) (g : Group F)
      → Sound g (route status id o g).0
  unfolding route
  route-Sound status id o g =
      Sound-if g (is_terminal g.state) (g, []) _ (λ _. unchanged g)
        λ live.
          Sound-if g (id == g.entry_broker_id) (handle_role OcoRole.entry status o g) _
            (λ _. handle_role-Sound OcoRole.entry status o g live)
            λ _.
              Sound-if g (id == g.sl_broker_id) (handle_role OcoRole.sl_leg status o g) _
                (λ _. handle_role-Sound OcoRole.sl_leg status o g live)
                λ _.
                  Sound-if g (id == g.tp_broker_id) (handle_role OcoRole.tp_leg status o g) _
                    (λ _. handle_role-Sound OcoRole.tp_leg status o g live)
                    (λ _. late_update-Sound (late_role o.oco_role) status id o g live)

  -- What can happen to a group. The legs are placed while the group is still in that state; a leg is
  -- cancelled by a task that was started when the group began to close.
  pub data Step (g : Group F) : Group F → Type ℓ where
    updated : (status : BrokerStatus) (id : String) (o : Order F) → Step g (route status id o g).0
    began : (sl_id tp_id : String) → is_placing g.state ≡ true → Step g (begin_legs sl_id tp_id g).0
    ended : (sl tp : Placed) → is_placing g.state ≡ true → Step g (end_legs sl tp g).0
    leg_gone : (id : String) → is_closing g.state ≡ true → Step g (cancel_leg id g).0
    waited : Step g (after_partial_legs g).0
    expired : Step g (timer_expired g).0
    resized : (qty : ℤ) → Step g (modify_legs_qty qty g).0
    trailed : (accepts : Bool) (ltp : F) → Step g (evaluate_trailing accepts ltp g).0
    cancelled : Step g (cancel_group g).0.0

  pub data Reach (g : Group F) : Group F → Type ℓ where
    here : Reach g g
    next : {h k : Group F} → Reach g h → Step h k → Reach g k

  Step-Sound : {g h : Group F} → Step g h → Sound g h
  unfolding cancel_leg after_partial_legs timer_expired modify_legs_qty evaluate_trailing begin_legs
  Step-Sound {g} (updated status id o) = route-Sound status id o g
  Step-Sound {g} (began sl_id tp_id p) =
      placing g (begin_legs sl_id tp_id g).0 p (begin_with-Moves sl_id tp_id (leg_prices g) g p)
  Step-Sound {g} (ended sl tp p) = placing g (end_legs sl tp g).0 p (end_legs-Moves sl tp g p)
  Step-Sound {g} (leg_gone id c) =
      Sound-if g (id == "") (g, []) _ (λ _. unchanged g) (λ _. (closes c, λ _. refl))
  Step-Sound {g} waited = Sound-if g _ _ (g, []) (λ _. (stays, λ _. refl)) (λ _. unchanged g)
  Step-Sound {g} expired =
      Sound-if g (not g.partial_fill_active) (g, []) _ (λ _. unchanged g) (λ _. (stays, λ _. refl))
  Step-Sound {g} (resized qty) = (stays, λ _. refl)
  Step-Sound {g} (trailed accepts ltp) = trail_to-Sound accepts ltp (calculate_trailing_sl g ltp) g
  Step-Sound {g} cancelled = cancel_group-Sound g

  -- Every step follows the state machine.
  pub Step-Moves : {g h : Group F} → Step g h → Moves g.state h.state
  Step-Moves step = (Step-Sound step).0

  -- Once a group closes, it stays closing, and its profit never changes again.
  pub Reach-closing :
      {g h : Group F}
      → Reach g h
      → is_closing g.state ≡ true
      → (is_closing h.state ≡ true) × (h.pnl ≡ g.pnl)
  Reach-closing here c = (c, refl)
  Reach-closing (next r step) c =
      let (c', p) = Reach-closing r c in
      let sound = Step-Sound step in (Moves-closing sound.0 c', sound.1 c' ∙ p)
