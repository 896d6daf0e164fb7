-- ===== src/Rules/Store/Wellformed.antt =====
-- No strategy of a user is active and paused at once, and readers see what the writer works on.
use algo_treading.Base.{
  ℕ, ◌≡◌, refl, ap, sym, ◌∙◌, Bool, true, false, not, String, ◌==◌, List, [], ◌∷◌, Option, none,
  some, Bool-cases, Option-cases, inl, inr, if◌then◌else◌,
}
use mathlib.Core.Path.{subst}
use algo_treading.Base.Dict.{Dict, lookup, insert, delete, lookup-insert, lookup-delete}
use algo_treading.Rules.Strategy.{Strategy}
use algo_treading.Rules.Store.{
  UserView, Writer, Applied, applied, missing_ids, key, stale, unnamed, is_stale, is_some, has,
  view_of, or_empty, finalize, commit, put_active, apply_upsert, move_to_paused, pause_in,
  apply_pause, move_to_active, resume_in, apply_resume, bury, delete_in, apply_delete, load_from,
  bulk_load,
}
use algo_treading.Rules.Store.Events.{Event, apply, run}

module _ {ℓ} {F : Type ℓ} where
  abbrev pub Apart : UserView F → Type ℓ
  Apart v = (id : String) → has id v.active ≡ true → lookup id v.paused ≡ none

  abbrev pub AllApart : Dict (UserView F) → Type ℓ
  AllApart m = (u : String) (v : UserView F) → lookup u m ≡ some v → Apart v

  pub record WellFormed (w : Writer F) : Type ℓ where
    pub synced : w.published ≡ w.current
    pub apart : AllApart w.current.by_user

  guarded :
      (b : Bool) (x y : Applied × Writer F)
      → WellFormed x.1
      → WellFormed y.1
      → WellFormed (if b then x else y).1
  guarded true x y p q = p
  guarded false x y p q = q

  AllApart-insert :
      (u : String) (next : UserView F) (m : Dict (UserView F))
      → Apart next
      → AllApart m
      → AllApart (insert u next m)
  AllApart-insert u next m a h u' v e =
      let found = sym (lookup-insert u u' next m) ∙ e in
      elim (Bool-cases (u == u')) [
        | inl k ↦
            let same : some next ≡ some v = rw k at found in
            let view : next ≡ v = cc in subst Apart view a
        | inr k ↦ h u' v (rw k at found)
      ]

  Apart-put :
      (id : String) (s : Strategy F) (v : UserView F)
      → Apart v
      → Apart (record { active = insert id s v.active; paused = delete id v.paused })
  Apart-put id s v a id' h = lookup-delete id id' v.paused ∙ elim (Bool-cases (id == id')) [
    | inl e ↦ rw e refl
    | inr e ↦
        let held = ap is_some (sym (lookup-insert id id' s v.active)) ∙ h in
        rw e (a id' (rw e at held))
  ]

  Apart-shelve :
      (id : String) (s : Strategy F) (v : UserView F)
      → Apart v
      → Apart (record { active = delete id v.active; paused = insert id s v.paused })
  Apart-shelve id s v a id' h =
      let held = ap is_some (sym (lookup-delete id id' v.active)) ∙ h in
      lookup-insert id id' s v.paused ∙ elim (Bool-cases (id == id')) [
        | inl e ↦ absurd (let gone : false ≡ true = rw e at held in cc)
        | inr e ↦ rw e (a id' (rw e at held))
      ]

  Apart-drop :
      (id : String) (v : UserView F)
      → Apart v
      → Apart (record { active = delete id v.active; paused = delete id v.paused })
  Apart-drop id v a id' h =
      let held = ap is_some (sym (lookup-delete id id' v.active)) ∙ h in
      lookup-delete id id' v.paused
      ∙ elim (Bool-cases (id == id')) [ inl e ↦ rw e refl | inr e ↦ rw e (a id' (rw e at held)) ]

  Apart-or_empty :
      (o : Option (UserView F)) → ((v : UserView F) → o ≡ some v → Apart v) → Apart (or_empty o)
  unfolding lookup
  Apart-or_empty none h = λ id e. refl
  Apart-or_empty (some v) h = h v refl

  commit-WellFormed :
      (u : String) (next : UserView F) (w w' : Writer F)
      → Apart next
      → AllApart w.current.by_user
      → WellFormed (commit (insert u next w.current.by_user) w')
  unfolding commit finalize
  commit-WellFormed u next w w' a h = record {
    synced = refl;
    apart = AllApart-insert u next w.current.by_user a h;
  }

  put_active-WellFormed :
      (s : Strategy F) (version : ℕ) (w : Writer F)
      → WellFormed w
      → WellFormed (put_active s version w)
  unfolding put_active view_of
  put_active-WellFormed s version w h =
      let v = or_empty (lookup s.user_id w.current.by_user) in
      let next : UserView F = record {
        active = insert s.strategy_id (record s { version = version }) v.active;
        paused = delete s.strategy_id v.paused;
      } in
      commit-WellFormed s.user_id next w
        (record w { versions = insert (key s.user_id s.strategy_id) version w.versions })
        (Apart-put s.strategy_id (record s { version = version }) v
          (Apart-or_empty (lookup s.user_id w.current.by_user) (h.apart s.user_id)))
        h.apart

  apply_upsert-WellFormed :
      (s : Option (Strategy F)) (version : ℕ) (w : Writer F)
      → WellFormed w
      → WellFormed (apply_upsert s version w).1
  unfolding apply_upsert
  apply_upsert-WellFormed none version w h = h
  apply_upsert-WellFormed (some s) version w h =
      guarded (unnamed s.user_id s.strategy_id) (missing_ids, w) _ h
        (guarded (not s.active) (applied false, w) _ h
          (guarded (is_stale w s.user_id s.strategy_id version) (applied false, w)
            (applied true, put_active s version w) h (put_active-WellFormed s version w h)))

  module _ (u id : String) (version : ℕ) (w : Writer F) (h : WellFormed w) where
    move_to_paused-WellFormed :
        (v : UserView F) (s : Strategy F) → Apart v → WellFormed (move_to_paused u id version v s w)
    unfolding move_to_paused
    move_to_paused-WellFormed v s a =
        commit-WellFormed u (record { active = delete id v.active; paused = insert id s v.paused })
          w (record w { versions = insert (key u id) version w.versions }) (Apart-shelve id s v a)
          h.apart

    move_to_active-WellFormed :
        (v : UserView F) (s : Strategy F) → Apart v → WellFormed (move_to_active u id version v s w)
    unfolding move_to_active
    move_to_active-WellFormed v s a =
        let on : Strategy F = record s { active = true; version = version } in
        commit-WellFormed u (record { active = insert id on v.active; paused = delete id v.paused })
          w (record w { versions = insert (key u id) version w.versions }) (Apart-put id on v a)
          h.apart

    pause_in-WellFormed :
        (o : Option (UserView F))
        → lookup u w.current.by_user ≡ o
        → WellFormed (pause_in u id version w o).1
    unfolding pause_in
    pause_in-WellFormed none e = h
    pause_in-WellFormed (some v) e = elim (Option-cases (lookup id v.active)) [
      | inl k ↦ rw (k, pause_in) h
      | inr (s, k) ↦ rw (k, pause_in) (move_to_paused-WellFormed v s (h.apart u v e))
    ]

    resume_in-WellFormed :
        (o : Option (UserView F))
        → lookup u w.current.by_user ≡ o
        → WellFormed (resume_in u id version w o).1
    unfolding resume_in
    resume_in-WellFormed none e = h
    resume_in-WellFormed (some v) e = elim (Option-cases (lookup id v.paused)) [
      | inl k ↦ rw (k, resume_in) h
      | inr (s, k) ↦ rw (k, resume_in) (move_to_active-WellFormed v s (h.apart u v e))
    ]

    delete_in-WellFormed :
        (o : Option (UserView F))
        → lookup u w.current.by_user ≡ o
        → WellFormed (delete_in u id w o).1
    unfolding delete_in
    delete_in-WellFormed none e = h
    delete_in-WellFormed (some v) e =
        commit-WellFormed u (record { active = delete id v.active; paused = delete id v.paused }) w
          w (Apart-drop id v (h.apart u v e)) h.apart

    bury-WellFormed : WellFormed (bury u id version w)
    unfolding bury
    bury-WellFormed = record { synced = h.synced; apart = h.apart }

    at_bury : lookup u (bury u id version w).current.by_user ≡ lookup u w.current.by_user
    unfolding bury
    at_bury = refl

  -- Every operation, on each of its branches, keeps a writer well formed: no strategy of a user becomes
  -- active and paused at once, and the store publishes the snapshot that the writer works on.
  pub apply-WellFormed : (e : Event F) (w : Writer F) → WellFormed w → WellFormed (apply e w).1
  unfolding apply apply_pause apply_resume apply_delete
  apply-WellFormed (Event.upsert s version) w h = apply_upsert-WellFormed s version w h
  apply-WellFormed (Event.pause u id version) w h =
      let o = lookup u w.current.by_user in
      guarded (unnamed u id) (missing_ids, w) _ h
        (guarded (is_stale w u id version) (applied false, w) (pause_in u id version w o) h
          (pause_in-WellFormed u id version w h o refl))
  apply-WellFormed (Event.resume u id version) w h =
      let o = lookup u w.current.by_user in
      guarded (unnamed u id) (missing_ids, w) _ h
        (guarded (is_stale w u id version) (applied false, w) (resume_in u id version w o) h
          (resume_in-WellFormed u id version w h o refl))
  apply-WellFormed (Event.remove u id version) w h =
      let buried = bury u id version w in
      let o = lookup u w.current.by_user in
      guarded (unnamed u id) (missing_ids, w) _ h
        (guarded (stale w.tombstones (key u id) version) (applied false, w)
          (delete_in u id buried o) h
          (delete_in-WellFormed u id version buried (bury-WellFormed u id version w h) o
            (at_bury u id version w h)))

  pub run-WellFormed : (es : List (Event F)) (w : Writer F) → WellFormed w → WellFormed (run es w)
  unfolding run
  run-WellFormed [] w h = h
  run-WellFormed (e ∷ es) w h = run-WellFormed es (apply e w).1 (apply-WellFormed e w h)

  abbrev pub NonePaused : Dict (UserView F) → Type ℓ
  NonePaused m = (u : String) (v : UserView F) → lookup u m ≡ some v → v.paused ≡ []

  NonePaused-or_empty :
      (o : Option (UserView F))
      → ((v : UserView F) → o ≡ some v → v.paused ≡ [])
      → (or_empty o).paused ≡ []
  NonePaused-or_empty none h = refl
  NonePaused-or_empty (some v) h = h v refl

  NonePaused-insert :
      (u : String) (next : UserView F) (m : Dict (UserView F))
      → next.paused ≡ []
      → NonePaused m
      → NonePaused (insert u next m)
  NonePaused-insert u next m a h u' v e =
      let found = sym (lookup-insert u u' next m) ∙ e in
      elim (Bool-cases (u == u')) [
        | inl k ↦
            let same : some next ≡ some v = rw k at found in
            let view : next ≡ v = cc in subst (λ z. z.paused ≡ []) view a
        | inr k ↦ h u' v (rw k at found)
      ]

  pub load_from-NonePaused :
      (ss : List (Option (Strategy F))) (m : Dict (UserView F))
      → NonePaused m
      → NonePaused (load_from m ss)
  unfolding load_from view_of
  load_from-NonePaused [] m h = h
  load_from-NonePaused (none ∷ ss) m h = load_from-NonePaused ss m h
  load_from-NonePaused (some s ∷ ss) m h = load_from-NonePaused ss _ (loaded s.active)
    where
      v : UserView F
      v = or_empty (lookup s.user_id m)

      next : Dict (UserView F)
      next = insert s.user_id (record v { active = insert s.strategy_id s v.active }) m

      loaded : (b : Bool) → NonePaused (if b then next else m)
      loaded true =
          NonePaused-insert s.user_id (record v { active = insert s.strategy_id s v.active }) m
            (NonePaused-or_empty (lookup s.user_id m) (h s.user_id)) h
      loaded false = h

  pub bulk_load-WellFormed :
      (ss : List (Option (Strategy F))) (w : Writer F) → WellFormed (bulk_load ss w)
  unfolding bulk_load commit finalize lookup
  bulk_load-WellFormed ss w = record {
    synced = refl;
    apart = λ u v e id h.
        (let none_paused = load_from-NonePaused ss [] (λ u v e. absurd cc) u v e in
          ap (lookup id) none_paused);
  }

  -- Once the store is loaded, whatever strategies it is given, no sequence of events makes a strategy of a
  -- user active and paused at once, or lets readers see another snapshot than the writer's.
  pub run-bulk_load :
      (ss : List (Option (Strategy F))) (es : List (Event F)) (w : Writer F)
      → WellFormed (run es (bulk_load ss w))
  run-bulk_load ss es w = run-WellFormed es (bulk_load ss w) (bulk_load-WellFormed ss w)
