-- ===== src/Oco/Recovered.antt =====
-- The registry after a restart: the groups that are loaded from their rows.
use algo_treading.Base.{
  String, ◌==◌, eq_iff, List, [], ◌∷◌, Option, none, some, ◌≡◌, refl, sym, ◌∙◌, Bool-cases, inl,
  inr, arith,
}
use mathlib.Core.Path.{subst}
use algo_treading.Base.Float.{Float}
use algo_treading.Base.Dict.{Dict, insert, lookup-insert}
use algo_treading.Oco.Types.{Group, Order}
use algo_treading.Oco.Manager.{Manager}
use algo_treading.Oco.Reload.{
  remember, restore, restore_entry, restore_sl, restore_tp, blank_group, with_timer, by_group,
  reconstruct_group, load_group, load_groups, reload,
}
use algo_treading.Oco.Plain.{ids}
use algo_treading.Oco.Index.{Points, Held, Grows, Grows-Held, insert-Grows, lookup-insert_self}
use algo_treading.Oco.Registry.{Indexed, OwnIf, OwnIf-insert}

remember-Grows :
    (id group_id : String) (m : Dict String)
    → OwnIf m group_id id
    → Grows m (remember id group_id m) × Points (remember id group_id m) group_id id
remember-Grows id group_id m own = elim (Bool-cases (id == "")) [
  | inl e ↦ rw e ((λ k other z. z), λ named. absurd cc)
  | inr e ↦ rw e (insert-Grows id group_id m (own e), λ named. lookup-insert_self id group_id m)
]

OwnIf-remember :
    (id group_id other : String) (m : Dict String)
    → OwnIf m group_id other
    → OwnIf (remember id group_id m) group_id other
OwnIf-remember id group_id other m own = elim (Bool-cases (id == "")) [
  | inl e ↦ rw e own
  | inr e ↦ rw e (OwnIf-insert group_id id other m own)
]

module _ {ℓ} {F : Type ℓ} where
  -- A group that is stored under its id, with an index that holds what the old one did and its ids.
  insert-Indexed :
      (group_id : String) (x : Group F) (n : Dict String) (m : Manager F)
      → Held n group_id (ids x)
      → Grows m.broker_index n
      → Indexed m
      → Indexed (record { groups = insert group_id x m.groups; broker_index = n })
  insert-Indexed group_id x n m held grows inv = record {
    held = λ k g e.
        (let found = sym (lookup-insert group_id k x m.groups) ∙ e in
          elim (Bool-cases (group_id == k)) [
            | inl same ↦
                let it : some x ≡ some g = rw same at found in
                let here : x ≡ g = cc in
                subst (λ z. Held n z (ids g)) ((eq_iff group_id k).0 same)
                  (subst (λ z. Held n group_id (ids z)) here held)
            | inr differs ↦
                Grows-Held m.broker_index n k (ids g) grows (inv.held k g (rw differs at found))
          ]);
  }

  -- The stored broker ids are free, or lead to the group already.
  abbrev pub OwnsIds : Dict String → String → Option (Group F) → Type 0
  OwnsIds index group_id none = Unit
  OwnsIds index group_id (some g) =
      OwnIf index group_id g.entry_broker_id
      × OwnIf index group_id g.sl_broker_id
      × OwnIf index group_id g.tp_broker_id

module _ {ℓ} {F : Type ℓ} ⦃f : Float F⦄ where
  with_timer-ids : (g : Group F) → ids (with_timer g) ≡ ids g
  with_timer-ids g = ground arith

  load_group-Indexed :
      (group_id : String) (o : Option (Group F)) (m : Manager F)
      → ((g : Group F) → o ≡ some g → g.group_id ≡ group_id)
      → OwnsIds m.broker_index group_id o
      → Indexed m
      → Indexed (load_group group_id o m)
  unfolding load_group
  load_group-Indexed group_id none m own_id owns inv = inv
  load_group-Indexed group_id (some g) m own_id (entry, sl, tp) inv =
      let i0 = m.broker_index in
      let i1 = remember g.entry_broker_id group_id i0 in
      let i2 = remember g.sl_broker_id group_id i1 in
      let (grow1, has1) = remember-Grows g.entry_broker_id group_id i0 entry in
      let (grow2, has2) =
        remember-Grows g.sl_broker_id group_id i1
          (OwnIf-remember g.entry_broker_id group_id g.sl_broker_id i0 sl) in
      let (grow3, has3) = remember-Grows g.tp_broker_id group_id i2 (
        OwnIf-remember g.sl_broker_id group_id g.tp_broker_id i1
          (OwnIf-remember g.entry_broker_id group_id g.tp_broker_id i0 tp)) in
      let n = remember g.tp_broker_id group_id i2 in
      insert-Indexed group_id (with_timer g) n m
        (subst (Held n group_id) (sym (with_timer-ids g)) (
          own_id g refl,
          (λ h. grow3 g.entry_broker_id group_id (grow2 g.entry_broker_id group_id (has1 h))),
          (λ h. grow3 g.sl_broker_id group_id (has2 h)),
          has3,
        ))
        (λ k other e. grow3 k other (grow2 k other (grow1 k other e))) inv

  restore-group_id : (os : List (Order F)) (g : Group F) → (restore os g).group_id ≡ g.group_id
  unfolding restore restore_entry restore_sl restore_tp
  restore-group_id [] g = refl
  restore-group_id (o ∷ os) g = restore-group_id os _ ∙ ground arith

  -- The rows of each group have broker ids that lead to no other group.
  abbrev pub OwnsRows : Dict (List (Order F)) → Manager F → Type 0
  OwnsRows [] m = Unit
  OwnsRows ((group_id, os) ∷ rest) m =
      OwnsIds m.broker_index group_id (reconstruct_group group_id os)
      × OwnsRows rest (load_group group_id (reconstruct_group group_id os) m)

  reconstruct_group-group_id :
      (group_id : String) (os : List (Order F)) (g : Group F)
      → reconstruct_group group_id os ≡ some g
      → g.group_id ≡ group_id
  unfolding reconstruct_group
  reconstruct_group-group_id group_id os g e =
      let kept = restore-group_id os (blank_group group_id) in ground (arith, kept)

  load_groups-Indexed :
      (rows : Dict (List (Order F))) (m : Manager F)
      → OwnsRows rows m
      → Indexed m
      → Indexed (load_groups rows m)
  unfolding load_groups
  load_groups-Indexed [] m owns inv = inv
  load_groups-Indexed ((group_id, os) ∷ rest) m (own, owns) inv =
      load_groups-Indexed rest (load_group group_id (reconstruct_group group_id os) m) owns (
        load_group-Indexed group_id (reconstruct_group group_id os) m
          (reconstruct_group-group_id group_id os) own inv)

  pub reload-Indexed :
      (os : List (Order F)) (m : Manager F)
      → OwnsRows (by_group os []) m
      → Indexed m
      → Indexed (reload os m)
  unfolding reload
  reload-Indexed os m owns inv = load_groups-Indexed (by_group os []) m owns inv
