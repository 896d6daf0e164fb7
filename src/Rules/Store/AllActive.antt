-- ===== src/Rules/Store/AllActive.antt =====
-- rebuildAllActive: the flat list that the matching engine walks holds exactly the active strategies.
use algo_treading.Base.{
  ◌≡◌, refl, ap, sym, ◌∙◌, ◌⊎◌, inl, inr, String, ◌==◌, eq_iff, List, [], ◌∷◌, Option, none, some,
  Bool-cases, In, In-append_left, In-append_right, In-append_cases, ◌↔◌,
}
use mathlib.Core.Path.{subst}
use algo_treading.Base.Dict.{Dict, lookup}
use algo_treading.Base.Sort.{sort_strings, In-sort_strings}
use algo_treading.Rules.Strategy.{Strategy}
use algo_treading.Rules.Store.{UserView, keys, or_empty, view_of, keep, pick, flatten, finalize}

In-keys {ℓ} : {V : Type ℓ} (k : String) (v : V) (m : Dict V) → lookup k m ≡ some v → In k (keys m)
unfolding lookup
In-keys k v [] e = absurd cc
In-keys k v (entry ∷ m) e = elim (Bool-cases (entry.0 == k)) [
  | inl same ↦ inl (sym ((eq_iff entry.0 k).0 same))
  | inr other ↦ inr (In-keys k v m (rw other at e))
]

module _ {ℓ} {F : Type ℓ} where
  -- The strategy is active in the view of some user.
  abbrev pub IsActive : Dict (UserView F) → Strategy F → Type ℓ
  IsActive m s =
      (u : String) × (v : UserView F) × (id : String) × (lookup u m ≡ some v)
      × (lookup id v.active ≡ some s)

  keep-rest :
      (s : Strategy F) (o : Option (Strategy F)) (rest : List (Strategy F))
      → In s rest
      → In s (keep o rest)
  keep-rest s none rest h = h
  keep-rest s (some t) rest h = inr h

  keep-cases :
      (s : Strategy F) (o : Option (Strategy F)) (rest : List (Strategy F))
      → In s (keep o rest)
      → (o ≡ some s) ⊎ In s rest
  keep-cases s none rest h = inr h
  keep-cases s (some t) rest (inl e) = inl (ap some (sym e))
  keep-cases s (some t) rest (inr h) = inr h

  In-pick :
      (m : Dict (Strategy F)) (ids : List String) (id : String) (s : Strategy F)
      → In id ids
      → lookup id m ≡ some s
      → In s (pick m ids)
  unfolding pick
  In-pick m [] id s h e = absurd h.1
  In-pick m (j ∷ ids) id s (inl k) e =
      let found : lookup j m ≡ some s = ap (λ z. lookup z m) (sym k) ∙ e in
      subst (λ o. In s (keep o (pick m ids))) (sym found) (inl refl)
  In-pick m (j ∷ ids) id s (inr h) e =
      keep-rest s (lookup j m) (pick m ids) (In-pick m ids id s h e)

  pick-In :
      (m : Dict (Strategy F)) (ids : List String) (s : Strategy F)
      → In s (pick m ids)
      → (id : String) × (lookup id m ≡ some s)
  unfolding pick
  pick-In m [] s h = absurd h.1
  pick-In m (j ∷ ids) s h = elim (keep-cases s (lookup j m) (pick m ids) h) [
    | inl e ↦ (j, e)
    | inr k ↦ pick-In m ids s k
  ]

  In-flatten :
      (m : Dict (UserView F)) (us : List String) (u : String) (s : Strategy F)
      → In u us
      → In s (pick (view_of u m).active (sort_strings (keys (view_of u m).active)))
      → In s (flatten m us)
  unfolding flatten
  In-flatten m [] u s h k = absurd h.1
  In-flatten m (w ∷ us) u s (inl e) k = In-append_left s _ (flatten m us) (rw e at k)
  In-flatten m (w ∷ us) u s (inr h) k =
      In-append_right s (pick (view_of w m).active (sort_strings (keys (view_of w m).active)))
        (flatten m us) (In-flatten m us u s h k)

  flatten-In :
      (m : Dict (UserView F)) (us : List String) (s : Strategy F)
      → In s (flatten m us)
      → (u : String) × (id : String) × (lookup id (view_of u m).active ≡ some s)
  unfolding flatten
  flatten-In m [] s h = absurd h.1
  flatten-In m (u ∷ us) s h =
      let active = (view_of u m).active in
      elim (In-append_cases s (pick active (sort_strings (keys active))) (flatten m us) h) [
        | inl k ↦ let (id, e) = pick-In active (sort_strings (keys active)) s k in (u, id, e)
        | inr k ↦ flatten-In m us s k
      ]

  view_found :
      (o : Option (UserView F)) (id : String) (s : Strategy F)
      → lookup id (or_empty o).active ≡ some s
      → (v : UserView F) × (o ≡ some v) × (lookup id v.active ≡ some s)
  unfolding lookup
  view_found none id s e = absurd cc
  view_found (some v) id s e = (v, refl, e)

  -- A strategy stands in the flat list of a snapshot exactly if it is active for some user.
  pub all_active_iff :
      (m : Dict (UserView F)) (s : Strategy F) → In s (finalize m).all_active ↔ IsActive m s
  unfolding finalize view_of
  all_active_iff m s = (
    λ h.
        (let (u, id, e) = flatten-In m (sort_strings (keys m)) s h in
          let (v, found, e') = view_found (lookup u m) id s e in (u, v, id, found, e')),
    λ (u, v, id, found, e).
        In-flatten m (sort_strings (keys m)) u s (In-sort_strings u (keys m) (In-keys u v m found))
          (rw (view_of, found)
            (In-pick v.active (sort_strings (keys v.active)) id s
              (In-sort_strings id (keys v.active) (In-keys id s v.active e)) e)),
  )
