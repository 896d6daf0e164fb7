-- ===== src/Oco/Index.antt =====
-- The index of broker ids: each id of a registered group leads to the group.
use algo_treading.Base.{
  Bool, true, false, String, ◌==◌, eq_iff, List, [], ◌∷◌, ◌++◌, none, some, ◌≡◌, refl, sym, ◌∙◌,
  if◌then◌else◌, Bool-cases, inl, inr, ◌⊎◌,
}
use mathlib.Core.Path.{subst}
use algo_treading.Base.Dict.{Dict, lookup, insert, lookup-insert}
use algo_treading.Oco.Types.{OcoRole, Group}
use algo_treading.Oco.Updates.{Effect, Outcome}
use algo_treading.Oco.Manager.{index_all, backfill}
use algo_treading.Oco.Plain.{ids, Plain}

-- The id, if it is not empty, leads to the group.
abbrev pub Points : Dict String → String → String → Type 0
Points m group_id id = (id == "") ≡ false → lookup id m ≡ some group_id

-- What the index held, it still holds.
abbrev pub Grows : Dict String → Dict String → Type 0
Grows m n = (k group_id : String) → lookup k m ≡ some group_id → lookup k n ≡ some group_id

-- The id is free, or leads to the group already.
abbrev pub Own : Dict String → String → String → Type 0
Own m group_id id = (lookup id m ≡ none) ⊎ (lookup id m ≡ some group_id)

abbrev pub Held : Dict String → String → String × String × String × String → Type 0
Held m group_id (own, entry, sl, tp) =
    (own ≡ group_id) × Points m group_id entry × Points m group_id sl × Points m group_id tp

pub Grows-Held :
    (m n : Dict String) (group_id : String) (x : String × String × String × String)
    → Grows m n
    → Held m group_id x
    → Held n group_id x
Grows-Held m n group_id (own, entry, sl, tp) grows (o, e, s, t) =
    (o, λ h. grows entry group_id (e h), λ h. grows sl group_id (s h), λ h. grows tp group_id (t h))

pub lookup-insert_self :
    (id group_id : String) (m : Dict String) → lookup id (insert id group_id m) ≡ some group_id
lookup-insert_self id group_id m = lookup-insert id id group_id m ∙ rw ((eq_iff id id).1 refl) refl

pub insert-Grows :
    (id group_id : String) (m : Dict String) → Own m group_id id → Grows m (insert id group_id m)
insert-Grows id group_id m own k other e =
    lookup-insert id k group_id m ∙ elim (Bool-cases (id == k)) [
      | inl same ↦ rw same (elim own [
        | inl free ↦ absurd (
            let at_k = subst (λ z. lookup z m ≡ none) ((eq_iff id k).0 same) free in
            let clash : none ≡ some other = sym at_k ∙ e in cc)
        | inr mine ↦ sym (subst (λ z. lookup z m ≡ some group_id) ((eq_iff id k).0 same) mine) ∙ e
      ])
      | inr differs ↦ rw differs e
    ]

module _ {ℓ} {F : Type ℓ} where
  -- What the outcome of a handler does to the ids of its group and to the index.
  abbrev pub After : String → Dict String → Outcome F → Type 0
  After group_id m x =
      Held (index_all group_id x.1 m) group_id (ids x.0) × Grows m (index_all group_id x.1 m)

  pub Plain-After :
      (group_id : String) (m : Dict String) (g : Group F) (x : Outcome F)
      → Plain group_id m g x
      → Held m group_id (ids g)
      → After group_id m x
  Plain-After group_id m g x (same, still) h =
      subst (λ n. Held n group_id (ids x.0) × Grows m n) (sym still)
        (subst (Held m group_id) (sym same) h, λ k other e. e)

  index_all-append :
      (group_id : String) (xs ys : List (Effect F)) (m : Dict String)
      → index_all group_id (xs ++ ys) m ≡ index_all group_id ys (index_all group_id xs m)
  unfolding index_all
  index_all-append group_id [] ys m = refl
  index_all-append group_id (Effect.index id ∷ xs) ys m =
      index_all-append group_id xs ys (insert id group_id m)
  index_all-append group_id (Effect.place_legs b ∷ xs) ys m = index_all-append group_id xs ys m
  index_all-append group_id (Effect.modify_legs q ∷ xs) ys m = index_all-append group_id xs ys m
  index_all-append group_id (Effect.cancel_leg b ∷ xs) ys m = index_all-append group_id xs ys m
  index_all-append group_id (Effect.schedule_cleanup ∷ xs) ys m = index_all-append group_id xs ys m
  index_all-append group_id (Effect.stop_timer ∷ xs) ys m = index_all-append group_id xs ys m
  index_all-append group_id (Effect.start_timer ∷ xs) ys m = index_all-append group_id xs ys m
  index_all-append group_id (Effect.cancel_entry b ∷ xs) ys m = index_all-append group_id xs ys m
  index_all-append group_id (Effect.create_order b ∷ xs) ys m = index_all-append group_id xs ys m
  index_all-append group_id (Effect.modify_order b ∷ xs) ys m = index_all-append group_id xs ys m
  index_all-append group_id (Effect.broadcast b ∷ xs) ys m = index_all-append group_id xs ys m

  pub After-then :
      (group_id : String) (m : Dict String) (x y : Outcome F)
      → After group_id m x
      → After group_id (index_all group_id x.1 m) y
      → After group_id m (y.0, x.1 ++ y.1)
  After-then group_id m x y (h, grows) (k, more) =
      subst (λ n. Held n group_id (ids y.0) × Grows m n) (sym (index_all-append group_id x.1 y.1 m))
        (k, λ key other e. more key other (grows key other e))

  pub After-if :
      (group_id : String) (m : Dict String) (b : Bool) (x y : Outcome F)
      → After group_id m x
      → After group_id m y
      → After group_id m (if b then x else y)
  After-if group_id m true x y p q = p
  After-if group_id m false x y p q = q

  pub still :
      (group_id : String) (m : Dict String) (g : Group F)
      → Held m group_id (ids g)
      → After group_id m (g, [])
  unfolding index_all
  still group_id m g h = (h, λ k other e. e)

  pub backfill-After :
      (role : OcoRole) (id group_id : String) (m : Dict String) (g : Group F)
      → Own m group_id id
      → Held m group_id (ids g)
      → After group_id m (backfill role id g)
  unfolding backfill index_all
  backfill-After OcoRole.entry id group_id m g own h = still group_id m g h
  backfill-After OcoRole.sl_leg id group_id m g own h =
      let grows = insert-Grows id group_id m own in
      let (o, e, s, t) = Grows-Held m (insert id group_id m) group_id (ids g) grows h in
      After-if group_id m (g.sl_broker_id == "") _ (g, [])
        ((o, e, (λ _. lookup-insert_self id group_id m), t), grows) (still group_id m g h)
  backfill-After OcoRole.tp_leg id group_id m g own h =
      let grows = insert-Grows id group_id m own in
      let (o, e, s, t) = Grows-Held m (insert id group_id m) group_id (ids g) grows h in
      After-if group_id m (g.tp_broker_id == "") _ (g, [])
        ((o, e, s, (λ _. lookup-insert_self id group_id m)), grows) (still group_id m g h)
