-- ===== src/Rules/Sync/Loaded.antt =====
-- What readers find after the bootstrap.
use algo_treading.Base.{
  ◌≡◌, refl, ap, sym, ◌∙◌, Bool, true, false, ◌&&◌, String, ◌==◌, eq_iff, List, [], ◌∷◌, Option,
  none, some, inl, inr, In, Bool-cases, eqb, ltb, length, if◌then◌else◌,
}
use mathlib.Core.Path.{subst}
use algo_treading.Base.Float.{Float}
use algo_treading.Base.Dict.{Dict, lookup, insert, lookup-insert}
use algo_treading.Rules.Strategy.{Strategy, is_loadable}
use algo_treading.Rules.Store.{
  UserView, Writer, Applied, applied, failed, bulk_load, load_from, view_of, or_empty, or_else,
  find_in, get_strategy, commit, finalize, metrics,
}
use algo_treading.Rules.Store.Wellformed.{load_from-NonePaused}
use algo_treading.Rules.Sync.{valid_only, bootstrap}

chosen {ℓ κ} :
    {A : Type ℓ} (P : A → Type κ) (b : Bool) (x y : A)
    → (b ≡ true → P x)
    → P y
    → P (if b then x else y)
chosen P true x y p q = p refl
chosen P false x y p q = q

module _ {ℓ} {F : Type ℓ} ⦃f : Float F⦄ where
  abbrev AllSome {κ} : (Strategy F → Type κ) → List (Option (Strategy F)) → Type κ
  AllSome P [] = Unit
  AllSome P (none ∷ ss) = AllSome P ss
  AllSome P (some s ∷ ss) = P s × AllSome P ss

  AllSome-In :
      (xs ys : List (Option (Strategy F)))
      → ((x : Option (Strategy F)) → In x xs → In x ys)
      → AllSome (λ s. In (some s) ys) xs
  AllSome-In [] ys h = tt
  AllSome-In (none ∷ xs) ys h = AllSome-In xs ys (λ x k. h x (inr k))
  AllSome-In (some s ∷ xs) ys h = (h (some s) (inl refl), AllSome-In xs ys (λ x k. h x (inr k)))

  -- The strategy is one of those fetched, is active and passes the checks.
  abbrev pub IsKept : List (Option (Strategy F)) → Strategy F → Type ℓ
  IsKept fetched s = In (some s) fetched × (is_loadable s ≡ true)

  valid_only-AllSome :
      (fetched ss : List (Option (Strategy F)))
      → AllSome (λ s. In (some s) fetched) ss
      → AllSome (IsKept fetched) (valid_only ss)
  unfolding valid_only
  valid_only-AllSome fetched [] h = tt
  valid_only-AllSome fetched (none ∷ ss) h = valid_only-AllSome fetched ss h
  valid_only-AllSome fetched (some s ∷ ss) (h, hs) = elim (Bool-cases (is_loadable s)) [
    | inl e ↦ rw e ((h, e), valid_only-AllSome fetched ss hs)
    | inr e ↦ rw e (valid_only-AllSome fetched ss hs)
  ]

  -- The strategy stands under its own ids.
  abbrev Stands {κ} : (Strategy F → Type κ) → String → String → Strategy F → Type κ
  Stands P u id s = P s × ((s.user_id ≡ u) × ((s.strategy_id ≡ id) × (s.active ≡ true)))

  abbrev AllStand {κ} : (Strategy F → Type κ) → Dict (UserView F) → Type (ℓ ⊔ κ)
  AllStand P m =
      (u : String) (v : UserView F)
      → lookup u m ≡ some v
      → (id : String) (s : Strategy F) → lookup id v.active ≡ some s
      → Stands P u id s

  view_of-Stands {κ} :
      (P : Strategy F → Type κ) (m : Dict (UserView F))
      → AllStand P m
      → (u id : String) (s : Strategy F) → (o : Option (UserView F)) → lookup u m ≡ o
      → lookup id (or_empty o).active ≡ some s
      → Stands P u id s
  unfolding lookup
  view_of-Stands P m h u id s none e k = absurd cc
  view_of-Stands P m h u id s (some v) e k = h u v e id s k

  module _ {κ} (P : Strategy F → Type κ) (s : Strategy F) (m : Dict (UserView F)) where
    with_strategy : UserView F
    with_strategy =
        let v = or_empty (lookup s.user_id m) in
        record v { active = insert s.strategy_id s v.active }

    with_strategy-Stands :
        (id : String) (s' : Strategy F)
        → P s
        → s.active ≡ true
        → AllStand P m
        → lookup id with_strategy.active ≡ some s'
        → Stands P s.user_id id s'
    unfolding with_strategy
    with_strategy-Stands id s' p on h k =
        let old = or_empty (lookup s.user_id m) in
        let inside = sym (lookup-insert s.strategy_id id s old.active) ∙ k in
        elim (Bool-cases (s.strategy_id == id)) [
          | inl b ↦
              let it : some s ≡ some s' = rw b at inside in
              let same : s ≡ s' = cc in
              subst (Stands P s.user_id id) same (p, (refl, ((eq_iff s.strategy_id id).0 b, on)))
          | inr b ↦ view_of-Stands P m h s.user_id id s' (lookup s.user_id m) refl (rw b at inside)
        ]

    insert-AllStand :
        P s → s.active ≡ true → AllStand P m → AllStand P (insert s.user_id with_strategy m)
    insert-AllStand p on h u v e id s' k =
        let found = sym (lookup-insert s.user_id u with_strategy m) ∙ e in
        elim (Bool-cases (s.user_id == u)) [
          | inl a ↦
              let same : some with_strategy ≡ some v = rw a at found in
              let view : with_strategy ≡ v = cc in
              let here =
                with_strategy-Stands id s' p on h (ap (λ z. lookup id z.active) view ∙ k) in
              subst (λ z. Stands P z id s') ((eq_iff s.user_id u).0 a) here
          | inr a ↦ h u v (rw a at found) id s' k
        ]

    load_one-AllStand :
        P s → AllStand P m → AllStand P (if s.active then insert s.user_id with_strategy m else m)
    load_one-AllStand p h =
        chosen (AllStand P) s.active (insert s.user_id with_strategy m) m
          (λ on. insert-AllStand p on h) h

  load_from-AllStand {κ} :
      (P : Strategy F → Type κ) (ss : List (Option (Strategy F))) (m : Dict (UserView F))
      → AllSome P ss
      → AllStand P m
      → AllStand P (load_from m ss)
  unfolding load_from view_of with_strategy
  load_from-AllStand P [] m ps h = h
  load_from-AllStand P (none ∷ ss) m ps h = load_from-AllStand P ss m ps h
  load_from-AllStand P (some s ∷ ss) m (p, ps) h =
      load_from-AllStand P ss _ ps (load_one-AllStand P s m p h)

  find_in-active :
      (id : String) (o : Option (UserView F)) (s : Strategy F)
      → ((v : UserView F) → o ≡ some v → v.paused ≡ [])
      → find_in id o ≡ some s
      → (v : UserView F) × ((o ≡ some v) × (lookup id v.active ≡ some s))
  unfolding find_in lookup
  find_in-active id none s h e = absurd cc
  find_in-active id (some v) s h e =
      (v, (refl, only_active (lookup id v.active) (ap (lookup id) (h v refl)) e))
    where
      only_active :
          (x : Option (Strategy F)) {y : Option (Strategy F)}
          → y ≡ none
          → or_else x y ≡ some s
          → x ≡ some s
      only_active none p q = sym p ∙ q
      only_active (some z) p q = q

  get_strategy-bulk_load {κ} :
      (P : Strategy F → Type κ) (ss : List (Option (Strategy F))) (w : Writer F) (u id : String)
      (s : Strategy F)
      → AllSome P ss
      → get_strategy u id (bulk_load ss w) ≡ some s
      → Stands P u id s
  unfolding get_strategy bulk_load commit finalize lookup
  get_strategy-bulk_load P ss w u id s ps e =
      let (v, (found, inside)) =
        find_in-active id (lookup u (load_from [] ss)) s
          (load_from-NonePaused ss [] (λ u v e. absurd cc) u) e in
      load_from-AllStand P ss [] ps (λ u v e. absurd cc) u v found id s inside

  -- A strategy that readers find after a bootstrap that fetched strategies is one of those fetched, is
  -- active, passes the checks and carries the ids under which it is found.
  pub get_strategy-bootstrap :
      (fetched : List (Option (Strategy F))) (w : Writer F) (u id : String) (s : Strategy F)
      → get_strategy u id (bootstrap (some fetched) w).1 ≡ some s
      → IsKept fetched s × ((s.user_id ≡ u) × ((s.strategy_id ≡ id) × (s.active ≡ true)))
  unfolding bootstrap
  get_strategy-bootstrap fetched w u id s e =
      let loaded = bulk_load (valid_only fetched) w in
      let same =
        chosen (λ (z : Applied × Writer F). z.1 ≡ loaded)
          (eqb (metrics loaded).1 0 && ltb 0 (length fetched)) (failed _, loaded)
          (applied true, loaded) (λ _. refl) refl in
      get_strategy-bulk_load (IsKept fetched) (valid_only fetched) w u id s
        (valid_only-AllSome fetched fetched (AllSome-In fetched fetched (λ x k. k)))
        (sym (ap (get_strategy u id) same) ∙ e)
