-- ===== src/Oco/Registry.antt =====
-- The registry over broker updates, new groups, tasks and clean-ups that come in any order.
use algo_treading.Base.{
  Bool, true, false, ◌&&◌, String, ◌==◌, eq_iff, List, [], ◌∷◌, ◌++◌, Option, none, some, ◌≡◌, refl,
  sym, ◌∙◌, if◌then◌else◌, Bool-cases, inl, inr, arith,
}
use mathlib.Core.Path.{subst}
use algo_treading.Base.Int.{ℤ}
use algo_treading.Base.Float.{Float}
use algo_treading.Base.Dict.{Dict, lookup, insert, lookup-insert}
use algo_treading.Oco.Types.{OcoState, OcoRole, Group, Order, is_terminal}
use algo_treading.Oco.Updates.{
  BrokerStatus, broker_status, Effect, Outcome, handle_role, check_legs_confirmed,
}
use algo_treading.Oco.Placing.{
  Placed, LegPrices, begin_with, end_legs, with_sl, with_tp, register_sl, register_tp, submit_legs,
  drop_tp, id_of, is_refused, indexed,
}
use algo_treading.Oco.Tasks.{
  cancel_leg, after_partial_legs, timer_expired, cancel_group, modify_legs_qty, modify_sl_leg,
  trail_to,
}
use algo_treading.Oco.Manager.{
  Manager, index_all, put, on_found, on_group, or_else, handle_id, group_of, backfill, late_role,
  late_update, route, route_in, handle_broker_update,
}
use algo_treading.Oco.Plain.{ids, Plain, handle_role-Plain}
use algo_treading.Oco.Index.{
  Own, Held, Grows-Held, lookup-insert_self, insert-Grows, After, Plain-After, After-then, After-if,
  still, backfill-After,
}

-- A broker id that is stored only if it is not empty.
abbrev pub OwnIf : Dict String → String → String → Type 0
OwnIf m group_id id = (id == "") ≡ false → Own m group_id id

pub OwnIf-insert :
    (group_id id other : String) (m : Dict String)
    → OwnIf m group_id other
    → OwnIf (insert id group_id m) group_id other
OwnIf-insert group_id id other m own e = elim (Bool-cases (id == other)) [
  | inl same ↦ inr (lookup-insert id other group_id m ∙ rw same refl)
  | inr differs ↦ elim (own e) [
    | inl free ↦ inl (lookup-insert id other group_id m ∙ rw differs free)
    | inr mine ↦ inr (lookup-insert id other group_id m ∙ rw differs mine)
  ]
]

or_else-Own :
    (m : Dict String) (id : String) (x field : Option String) (group_id : String)
    → lookup id m ≡ x
    → or_else x field ≡ some group_id
    → Own m group_id id
or_else-Own m id none field group_id e h = inl e
or_else-Own m id (some other) field group_id e h = inr (e ∙ h)

module _ {ℓ} {F : Type ℓ} where
  -- Every registered group stands under its id, and each of its broker ids leads to it.
  pub record Indexed (m : Manager F) : Type ℓ where
    pub held :
        (group_id : String) (g : Group F)
        → lookup group_id m.groups ≡ some g
        → Held m.broker_index group_id (ids g)

  pub put-Indexed :
      (group_id : String) (x : Outcome F) (m : Manager F)
      → After group_id m.broker_index x
      → Indexed m
      → Indexed (put group_id x m)
  unfolding put
  put-Indexed group_id x m (h, grows) inv = record {
    held = λ k g e.
        (let found = sym (lookup-insert group_id k x.0 m.groups) ∙ e in
          subst (λ z. Held (index_all z x.1 m.broker_index) k (ids g)) (sym h.0)
            (elim (Bool-cases (group_id == k)) [
              | inl same ↦
                  let it : some x.0 ≡ some g = rw same at found in
                  let here : x.0 ≡ g = cc in
                  subst (λ z. Held (index_all group_id x.1 m.broker_index) z (ids g))
                    ((eq_iff group_id k).0 same)
                    (subst (λ z. Held (index_all group_id x.1 m.broker_index) group_id (ids z)) here
                      h)
              | inr differs ↦
                  Grows-Held m.broker_index (index_all group_id x.1 m.broker_index) k (ids g) grows
                    (inv.held k g (rw differs at found))
            ]));
  }

  -- A task that keeps its group's ids in the index.
  abbrev pub Keeps : (Group F → Outcome F) → String → Manager F → Type ℓ
  Keeps task group_id m =
      (g : Group F) → Held m.broker_index group_id (ids g) → After group_id m.broker_index (task g)

  on_found-Indexed :
      (group_id : String) (o : Option (Group F)) (task : Group F → Outcome F) (m : Manager F)
      → lookup group_id m.groups ≡ o
      → Keeps task group_id m
      → Indexed m
      → Indexed (on_found group_id o task m).0
  unfolding on_found
  on_found-Indexed group_id none task m e keeps inv = inv
  on_found-Indexed group_id (some g) task m e keeps inv =
      put-Indexed group_id (task g) m (keeps g (inv.held group_id g e)) inv

  pub on_group-Indexed :
      (group_id : String) (task : Group F → Outcome F) (m : Manager F)
      → Keeps task group_id m
      → Indexed m
      → Indexed (on_group group_id task m).0
  unfolding on_group
  on_group-Indexed group_id task m keeps inv =
      on_found-Indexed group_id (lookup group_id m.groups) task m refl keeps inv

module _ {ℓ} {F : Type ℓ} ⦃f : Float F⦄ where
  role-After :
      (role : OcoRole) (status : BrokerStatus) (o : Order F) (group_id : String) (m : Dict String)
      (g : Group F)
      → Held m group_id (ids g)
      → After group_id m (handle_role role status o g)
  role-After role status o group_id m g h =
      Plain-After group_id m g (handle_role role status o g)
        (handle_role-Plain role status o g group_id m) h

  late_update-After :
      (role : Option OcoRole) (status : BrokerStatus) (id : String) (o : Order F)
      (group_id : String) (m : Dict String) (g : Group F)
      → Own m group_id id
      → Held m group_id (ids g)
      → After group_id m (late_update role status id o g)
  late_update-After none status id o group_id m g own h = still group_id m g h
  late_update-After (some role) status id o group_id m g own h =
      let filled = backfill role id g in
      let after = backfill-After role id group_id m g own h in
      After-then group_id m filled (handle_role role status o filled.0) after
        (role-After role status o group_id (index_all group_id filled.1 m) filled.0 after.0)

  route-After :
      (status : BrokerStatus) (id : String) (o : Order F) (group_id : String) (m : Dict String)
      (g : Group F)
      → Own m group_id id
      → Held m group_id (ids g)
      → After group_id m (route status id o g)
  unfolding route
  route-After status id o group_id m g own h =
      After-if group_id m (is_terminal g.state) (g, []) _ (still group_id m g h)
        (After-if group_id m (id == g.entry_broker_id) (handle_role OcoRole.entry status o g) _
          (role-After OcoRole.entry status o group_id m g h)
          (After-if group_id m (id == g.sl_broker_id) (handle_role OcoRole.sl_leg status o g) _
            (role-After OcoRole.sl_leg status o group_id m g h)
            (After-if group_id m (id == g.tp_broker_id) (handle_role OcoRole.tp_leg status o g) _
              (role-After OcoRole.tp_leg status o group_id m g h)
              (late_update-After (late_role o.oco_role) status id o group_id m g own h))))

  route_in-Indexed :
      (status : BrokerStatus) (id : String) (o : Order F) (at : Option String) (m : Manager F)
      → ((group_id : String) → at ≡ some group_id → Own m.broker_index group_id id)
      → Indexed m
      → Indexed (route_in status id o at m).0
  route_in-Indexed status id o none m own inv = inv
  route_in-Indexed status id o (some group_id) m own inv =
      on_group-Indexed group_id (route status id o) m
        (λ g h. route-After status id o group_id m.broker_index g (own group_id refl) h) inv

  handle_id-Indexed :
      (id : Option String) (o : Order F) (status : String) (m : Manager F)
      → Indexed m
      → Indexed (handle_id id o status m).0
  unfolding group_of
  handle_id-Indexed none o status m inv = inv
  handle_id-Indexed (some id) o status m inv =
      route_in-Indexed (broker_status status) id o (group_of o id m) m
        (λ group_id e.
          or_else-Own m.broker_index id (lookup id m.broker_index) o.oco_group_id group_id refl e)
        inv

  -- An update of any order keeps the index of broker ids complete.
  pub handle_broker_update-Indexed :
      (o : Order F) (status : String) (m : Manager F)
      → Indexed m
      → Indexed (handle_broker_update o status m).0
  unfolding handle_broker_update
  handle_broker_update-Indexed o status m inv = handle_id-Indexed o.indira_order_id o status m inv

  pub task-Indexed :
      (group_id : String) (task : Group F → Outcome F) (m : Manager F)
      → ((g : Group F) → Plain group_id m.broker_index g (task g))
      → Indexed m
      → Indexed (on_group group_id task m).0
  task-Indexed group_id task m plain inv =
      on_group-Indexed group_id task m
        (λ g h. Plain-After group_id m.broker_index g (task g) (plain g) h) inv

  pub cancel_group-Plain :
      (g : Group F) (group_id : String) (m : Dict String) → Plain group_id m g (cancel_group g).0
  unfolding cancel_group index_all
  cancel_group-Plain g group_id m = (ground arith, ground arith)

  pub cancel_leg-Plain :
      (id : String) (g : Group F) (group_id : String) (m : Dict String)
      → Plain group_id m g (cancel_leg id g)
  unfolding cancel_leg index_all
  cancel_leg-Plain id g group_id m = (ground arith, ground arith)

  pub begin_with-Plain :
      (sl_id tp_id : String) (o : Option (LegPrices F)) (g : Group F) (group_id : String)
      (m : Dict String)
      → Plain group_id m g (begin_with sl_id tp_id o g)
  unfolding begin_with with_sl with_tp index_all
  begin_with-Plain sl_id tp_id none g group_id m = (refl, refl)
  begin_with-Plain sl_id tp_id (some p) g group_id m = (ground arith, ground arith)

  pub after_partial_legs-Plain :
      (g : Group F) (group_id : String) (m : Dict String)
      → Plain group_id m g (after_partial_legs g)
  unfolding after_partial_legs index_all
  after_partial_legs-Plain g group_id m = (ground arith, ground arith)

  pub timer_expired-Plain :
      (g : Group F) (group_id : String) (m : Dict String) → Plain group_id m g (timer_expired g)
  unfolding timer_expired index_all
  timer_expired-Plain g group_id m = (ground arith, ground arith)

  pub modify_legs_qty-Plain :
      (qty : ℤ) (g : Group F) (group_id : String) (m : Dict String)
      → Plain group_id m g (modify_legs_qty qty g)
  unfolding modify_legs_qty index_all
  modify_legs_qty-Plain qty g group_id m = (refl, ground arith)

  pub trail_to-Plain :
      (accepts : Bool) (ltp : F) (o : Option (F × F)) (g : Group F) (group_id : String)
      (m : Dict String)
      → Plain group_id m g (trail_to accepts ltp o g)
  unfolding trail_to modify_sl_leg index_all
  trail_to-Plain accepts ltp none g group_id m = (refl, refl)
  trail_to-Plain accepts ltp (some (trigger, limit)) g group_id m = (ground arith, ground arith)

  check_legs_confirmed-Plain :
      (g : Group F) (group_id : String) (m : Dict String)
      → Plain group_id m g (check_legs_confirmed g)
  unfolding check_legs_confirmed index_all
  check_legs_confirmed-Plain g group_id m = (ground arith, ground arith)

  After-indexed :
      (group_id id : String) (m : Dict String) (g h : Group F)
      → OwnIf m group_id id
      → ((id == "") ≡ true → ids h ≡ ids g)
      → ((n : Dict String)
          → (id == "") ≡ false
          → lookup id n ≡ some group_id
          → Held n group_id (ids g)
          → Held n group_id (ids h))
      → Held m group_id (ids g)
      → After group_id m (h, indexed id)
  unfolding index_all
  After-indexed group_id id m g h own keep fill held = elim (Bool-cases (id == "")) [
    | inl e ↦ rw e (subst (Held m group_id) (sym (keep e)) held, λ k other z. z)
    | inr e ↦
        let grows = insert-Grows id group_id m (own e) in
        rw e (
          fill (insert id group_id m) e (lookup-insert_self id group_id m)
              (Grows-Held m (insert id group_id m) group_id (ids g) grows held),
          grows,
        )
  ]

  register_sl-After :
      (group_id id : String) (m : Dict String) (g : Group F)
      → OwnIf m group_id id
      → Held m group_id (ids g)
      → After group_id m (register_sl id g, indexed id)
  unfolding register_sl
  register_sl-After group_id id m g own held =
      After-indexed group_id id m g (register_sl id g) own (λ e. rw e refl)
        (λ n e leads (o, en, s, t). rw e (o, en, (λ _. leads), t)) held

  register_tp-After :
      (group_id id : String) (m : Dict String) (g : Group F)
      → OwnIf m group_id id
      → Held m group_id (ids g)
      → After group_id m (register_tp id g, indexed id)
  unfolding register_tp
  register_tp-After group_id id m g own held =
      After-indexed group_id id m g (register_tp id g) own (λ e. rw e refl)
        (λ n e leads (o, en, s, t). rw e (o, en, s, (λ _. leads))) held

  submit_legs-After :
      (group_id : String) (m : Dict String) (g : Group F) (calls : List (Effect F))
      (message : String)
      → After group_id m (g, calls)
      → After group_id m (submit_legs g calls message)
  unfolding submit_legs index_all
  submit_legs-After group_id m g calls message after =
      let h = record g { state = OcoState.legs_submitted } in
      let n = index_all group_id calls m in
      let checked = check_legs_confirmed h in
      let sent : List (Effect F) = Effect.broadcast message ∷ [] in
      let steady =
        Plain-After group_id n h checked (check_legs_confirmed-Plain h group_id n) after.0 in
      After-then group_id m (h, calls) (checked.0, checked.1 ++ sent) after
        (After-then group_id n checked (checked.0, sent) steady (steady.0, λ k other e. e))

  drop_tp-After :
      (group_id id : String) (m : Dict String) (g : Group F)
      → OwnIf m group_id id
      → Held m group_id (ids g)
      → After group_id m (drop_tp id g)
  unfolding drop_tp index_all
  drop_tp-After group_id id m g own held =
      let h : Group F = if id == "" then g else record g { tp_broker_id = id } in
      let sent : List (Effect F) = Effect.cancel_leg id ∷ Effect.broadcast "oco_legs_failed" ∷ [] in
      let after =
        After-indexed group_id id m g h own (λ e. rw e refl)
          (λ n e leads (o, en, s, t). rw e (o, en, s, (λ _. leads))) held in
      After-then group_id m (h, indexed id) (record h { state = OcoState.failed }, sent) after
        (after.0, λ k other e. e)

  OwnIf-indexed :
      (group_id id other : String) (m : Dict String) (g : Group F)
      → OwnIf m group_id other
      → let calls : List (Effect F) = indexed id in
        OwnIf (index_all group_id calls m) group_id other
  unfolding index_all
  OwnIf-indexed group_id id other m g own = elim (Bool-cases (id == "")) [
    | inl e ↦ rw e own
    | inr e ↦ rw e (OwnIf-insert group_id id other m own)
  ]

  pub end_legs-After :
      (sl tp : Placed) (group_id : String) (m : Dict String) (g : Group F)
      → OwnIf m group_id (id_of sl)
      → OwnIf m group_id (id_of tp)
      → Held m group_id (ids g)
      → After group_id m (end_legs sl tp g)
  unfolding end_legs index_all
  end_legs-After sl tp group_id m g own_sl own_tp held =
      let one = register_sl (id_of sl) g in
      let after_one = register_sl-After group_id (id_of sl) m g own_sl held in
      let n = index_all {F = F} group_id (indexed (id_of sl)) m in
      let after_two =
        After-then group_id m (one, indexed (id_of sl))
          (register_tp (id_of tp) one, indexed (id_of tp)) after_one
          (register_tp-After group_id (id_of tp) n one
            (OwnIf-indexed group_id (id_of sl) (id_of tp) m g own_tp) after_one.0) in
      After-if group_id m (is_refused sl && is_refused tp) _ _ (held, λ k other e. e)
        (After-if group_id m (is_refused sl) (drop_tp (id_of tp) g) _
          (drop_tp-After group_id (id_of tp) m g own_tp held)
          (After-if group_id m (is_refused tp) _ _
            (submit_legs-After group_id m (record one { tp_leg_confirmed = true })
              (indexed (id_of sl)) "oco_tp_rejected" after_one)
            (submit_legs-After group_id m (register_tp (id_of tp) one)
              (indexed (id_of sl) ++ indexed (id_of tp)) "oco_legs_submitted" after_two)))
