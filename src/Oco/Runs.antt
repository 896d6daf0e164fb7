-- ===== src/Oco/Runs.antt =====
-- The registry over broker updates, new groups, tasks and clean-ups that come in any order.
use algo_treading.Base.Int.{ℤ}
use algo_treading.Base.{
  List, Bool, true, false, String, ◌==◌, eq_iff, [], ◌∷◌, Option, none, some, ◌≡◌, ◌≢◌, refl, sym,
  ◌∙◌, Bool-cases, inl, inr,
}
use mathlib.Core.Path.{subst}
use algo_treading.Base.Float.{Float}
use algo_treading.Base.Dict.{Dict, lookup, lookup-delete}
use algo_treading.Oco.Types.{Group, Order, calculate_trailing_sl}
use algo_treading.Oco.Updates.{Effect}
use algo_treading.Oco.Placing.{Placed, begin_legs, end_legs, leg_prices, id_of}
use algo_treading.Oco.Tasks.{
  cancel_leg, after_partial_legs, timer_expired, cancel_group, modify_legs_qty, evaluate_trailing,
}
use algo_treading.Oco.Manager.{
  Manager, new_oco_manager, put, index_all, register, on_group, cleanup, forget,
  handle_broker_update,
}
use algo_treading.Oco.Entry.{
  EntryRequest, entry_group, create_oco_entry, adopted_group, adopt_id, adopt_order,
}
use algo_treading.Oco.Index.{Points, Own, insert-Grows, lookup-insert_self}
use algo_treading.Oco.Reload.{by_group, reload}
use algo_treading.Oco.Recovered.{OwnsRows, reload-Indexed}
use algo_treading.Oco.Registry.{
  modify_legs_qty-Plain, trail_to-Plain, Indexed, OwnIf, put-Indexed, on_group-Indexed,
  task-Indexed, cancel_group-Plain, cancel_leg-Plain, begin_with-Plain, after_partial_legs-Plain,
  timer_expired-Plain, end_legs-After, handle_broker_update-Indexed,
}

forget-Points :
    (m n : Dict String) (gone id kept x : String)
    → gone ≢ kept
    → Points m gone id
    → Points m kept x
    → Points n kept x
    → Points (forget id n) kept x
forget-Points m n gone id kept x differ p q r nonempty = elim (Bool-cases (id == "")) [
  | inl e ↦ rw e (r nonempty)
  | inr e ↦ rw e (
      lookup-delete id x n ∙ elim (Bool-cases (id == x)) [
        | inl same ↦ absurd (
            differ (
              let at_x = subst (λ z. lookup z m ≡ some gone) ((eq_iff id x).0 same) (p e) in
              let both : some gone ≡ some kept = sym at_x ∙ q nonempty in cc))
        | inr other ↦ rw other (r nonempty)
      ])
]

module _ {ℓ} {F : Type ℓ} where
  register-Indexed :
      (g : Group F) (m : Manager F)
      → g.sl_broker_id ≡ ""
      → g.tp_broker_id ≡ ""
      → Own m.broker_index g.group_id g.entry_broker_id
      → Indexed m
      → Indexed (register g m)
  unfolding register put index_all
  register-Indexed g m no_sl no_tp own inv =
      put-Indexed g.group_id (g, Effect.index g.entry_broker_id ∷ []) m
        (
          (
            refl,
            (λ _. lookup-insert_self g.entry_broker_id g.group_id m.broker_index),
            (λ h. cc ((eq_iff g.sl_broker_id "").1 no_sl)),
            (λ h. cc ((eq_iff g.tp_broker_id "").1 no_tp)),
          ),
          insert-Grows g.entry_broker_id g.group_id m.broker_index own,
        )
        inv

  cleanup-Indexed :
      (group_id : String) (g : Group F) (m : Manager F)
      → lookup group_id m.groups ≡ some g
      → Indexed m
      → Indexed (cleanup g m)
  unfolding cleanup
  cleanup-Indexed group_id g m found inv = record {
    held = λ k h e.
        (let (own, en, s, t) = inv.held group_id g found in
          let at_k = sym (lookup-delete g.group_id k m.groups) ∙ e in
          elim (Bool-cases (g.group_id == k)) [
            | inl same ↦ absurd (let clash : none ≡ some h = rw same at at_k in cc)
            | inr other ↦
                let (own', en', s', t') = inv.held k h (rw other at at_k) in
                let differ : group_id ≢ k = λ same. cc ((eq_iff g.group_id k).1 (own ∙ same)) in
                let kept : (x : String)
                    → Points m.broker_index k x
                    → Points (cleanup g m).broker_index k x =
                  λ x p.
                    forget-Points m.broker_index
                      (forget g.sl_broker_id (forget g.entry_broker_id m.broker_index)) group_id
                      g.tp_broker_id k x differ t p
                      (forget-Points m.broker_index (forget g.entry_broker_id m.broker_index)
                        group_id g.sl_broker_id k x differ s p
                        (forget-Points m.broker_index m.broker_index group_id g.entry_broker_id k x
                          differ en p p)) in
                (own', kept h.entry_broker_id en', kept h.sl_broker_id s', kept h.tp_broker_id t')
          ]);
  }

module _ {ℓ} {F : Type ℓ} ⦃f : Float F⦄ where
  -- What can happen to the registry, a reload included. The broker gives ids that are free or the group's
  -- own, and so are those in the rows of a group.
  pub data Step (m : Manager F) : Manager F → Type ℓ where
    updated : (o : Order F) (status : String) → Step m (handle_broker_update o status m).0
    created :
        (persisted : Bool) (answer : Option String) (r : EntryRequest F)
        → ((id : String) → answer ≡ some id → Own m.broker_index r.group_id id)
        → Step m (create_oco_entry persisted answer r m).1
    adopted :
        (group_id : String) (o : Order F) (sl tp : F) (trailing : Bool) (pct : F)
        → ((id : String) → o.indira_order_id ≡ some id → Own m.broker_index group_id id)
        → Step m (adopt_order group_id o sl tp trailing pct m)
    began :
        (group_id sl_id tp_id : String) → Step m (on_group group_id (begin_legs sl_id tp_id) m).0
    ended :
        (group_id : String) (sl tp : Placed)
        → OwnIf m.broker_index group_id (id_of sl)
        → OwnIf m.broker_index group_id (id_of tp)
        → Step m (on_group group_id (end_legs sl tp) m).0
    leg_gone : (group_id id : String) → Step m (on_group group_id (cancel_leg id) m).0
    waited : (group_id : String) → Step m (on_group group_id after_partial_legs m).0
    expired : (group_id : String) → Step m (on_group group_id timer_expired m).0
    resized : (group_id : String) (qty : ℤ) → Step m (on_group group_id (modify_legs_qty qty) m).0
    trailed :
        (group_id : String) (accepts : Bool) (ltp : F)
        → Step m (on_group group_id (evaluate_trailing accepts ltp) m).0
    reloaded : (os : List (Order F)) → OwnsRows (by_group os []) m → Step m (reload os m)
    cancelled : (group_id : String) → Step m (on_group group_id (λ g. (cancel_group g).0) m).0
    cleaned :
        (group_id : String) (g : Group F) → lookup group_id m.groups ≡ some g → Step m (cleanup g m)

  pub data Runs (m : Manager F) : Manager F → Type ℓ where
    start : Runs m m
    later : {n k : Manager F} → Runs m n → Step n k → Runs m k

  create_oco_entry-Indexed :
      (persisted : Bool) (answer : Option String) (r : EntryRequest F) (m : Manager F)
      → ((id : String) → answer ≡ some id → Own m.broker_index r.group_id id)
      → Indexed m
      → Indexed (create_oco_entry persisted answer r m).1
  unfolding create_oco_entry entry_group
  create_oco_entry-Indexed false answer r m own inv = inv
  create_oco_entry-Indexed true none r m own inv = inv
  create_oco_entry-Indexed true (some id) r m own inv =
      register-Indexed (entry_group r id) m refl refl (own id refl) inv

  adopt_id-Indexed :
      (answer : Option String) (group_id : String) (o : Order F) (sl tp : F) (trailing : Bool)
      (pct : F) (m : Manager F)
      → ((id : String) → answer ≡ some id → Own m.broker_index group_id id)
      → Indexed m
      → Indexed (adopt_id answer group_id o sl tp trailing pct m)
  unfolding adopt_id adopted_group entry_group
  adopt_id-Indexed none group_id o sl tp trailing pct m own inv = inv
  adopt_id-Indexed (some id) group_id o sl tp trailing pct m own inv =
      elim (Bool-cases (id == "")) [
        | inl e ↦ rw e inv
        | inr e ↦ rw e (
            register-Indexed (adopted_group group_id o id sl tp trailing pct) m refl refl
              (own id refl) inv)
      ]

  Step-Indexed : {m n : Manager F} → Step m n → Indexed m → Indexed n
  unfolding begin_legs adopt_order evaluate_trailing
  Step-Indexed {m} (updated o status) inv = handle_broker_update-Indexed o status m inv
  Step-Indexed {m} (created persisted answer r own) inv =
      create_oco_entry-Indexed persisted answer r m own inv
  Step-Indexed {m} (adopted group_id o sl tp trailing pct own) inv =
      adopt_id-Indexed o.indira_order_id group_id o sl tp trailing pct m own inv
  Step-Indexed {m} (began group_id sl_id tp_id) inv =
      task-Indexed group_id (begin_legs sl_id tp_id) m
        (λ g. begin_with-Plain sl_id tp_id (leg_prices g) g group_id m.broker_index) inv
  Step-Indexed {m} (ended group_id sl tp own_sl own_tp) inv =
      on_group-Indexed group_id (end_legs sl tp) m
        (λ g held. end_legs-After sl tp group_id m.broker_index g own_sl own_tp held) inv
  Step-Indexed {m} (leg_gone group_id id) inv =
      task-Indexed group_id (cancel_leg id) m (λ g. cancel_leg-Plain id g group_id m.broker_index)
        inv
  Step-Indexed {m} (waited group_id) inv =
      task-Indexed group_id after_partial_legs m
        (λ g. after_partial_legs-Plain g group_id m.broker_index) inv
  Step-Indexed {m} (expired group_id) inv =
      task-Indexed group_id timer_expired m (λ g. timer_expired-Plain g group_id m.broker_index) inv
  Step-Indexed {m} (resized group_id qty) inv =
      task-Indexed group_id (modify_legs_qty qty) m
        (λ g. modify_legs_qty-Plain qty g group_id m.broker_index) inv
  Step-Indexed {m} (trailed group_id accepts ltp) inv =
      task-Indexed group_id (evaluate_trailing accepts ltp) m
        (λ g. trail_to-Plain accepts ltp (calculate_trailing_sl g ltp) g group_id m.broker_index)
        inv
  Step-Indexed {m} (reloaded os owns) inv = reload-Indexed os m owns inv
  Step-Indexed {m} (cancelled group_id) inv =
      task-Indexed group_id (λ g. (cancel_group g).0) m
        (λ g. cancel_group-Plain g group_id m.broker_index) inv
  Step-Indexed {m} (cleaned group_id g found) inv = cleanup-Indexed group_id g m found inv

  new_oco_manager-Indexed : Indexed {F = F} new_oco_manager
  unfolding lookup
  new_oco_manager-Indexed = record { held = λ k g e. absurd cc }

  Runs-Indexed : {m n : Manager F} → Runs m n → Indexed m → Indexed n
  Runs-Indexed start inv = inv
  Runs-Indexed (later r step) inv = Step-Indexed step (Runs-Indexed r inv)

  -- In every registry that can be reached from a new one, by updates, new groups, tasks, clean-ups and
  -- reloads, each group stands under its own id, and each of its broker ids that is not empty leads to it,
  -- as long as neither the broker nor a stored row gives an id that leads to another group.
  pub Runs-new_oco_manager : {m : Manager F} → Runs new_oco_manager m → Indexed m
  Runs-new_oco_manager r = Runs-Indexed r new_oco_manager-Indexed
