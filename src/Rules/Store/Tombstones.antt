-- ===== src/Rules/Store/Tombstones.antt =====
-- A deleted strategy does not come back with an old version.
use algo_treading.Base.{
  ℕ, ◌≤◌, ◌≡◌, refl, ap, sym, ◌∙◌, Bool, true, false, not, ◌||◌, String, ◌==◌, eq_iff, List, [],
  ◌∷◌, Option, none, some, Bool-cases, Option-cases, inl, inr, if◌then◌else◌, arith, leb, All,
}
use mathlib.Core.Path.{subst}
use algo_treading.Base.Dict.{Dict, lookup, insert, lookup-insert}
use algo_treading.Rules.Strategy.{Strategy}
use algo_treading.Rules.Store.{
  UserView, Writer, Applied, applied, key, stale, unnamed, missing_ids, is_stale, commit,
  put_active, apply_upsert, move_to_paused, pause_in, apply_pause, move_to_active, resume_in,
  apply_resume, bury, delete_in, apply_delete, find_in, or_else, get_strategy,
}
use algo_treading.Rules.Store.Events.{Event, apply, run}
use algo_treading.Rules.Store.Contents.{
  current_of, replaced, current_of-put_active, current_of-move_to_paused, current_of-move_to_active,
  current_of-delete_in,
}

-- The tombstone of the key is at least that version.
abbrev pub AtLeast : ℕ → Option ℕ → Type 0
AtLeast n none = ⊥
AtLeast n (some m) = n ≤ m

-- Whether a stored version makes one stale.
abbrev pub covers : ℕ → Option ℕ → Bool
covers v none = false
covers v (some last) = leb v last

covers-AtLeast : (o : Option ℕ) (n v : ℕ) → AtLeast n o → v ≤ n → covers v o ≡ true
covers-AtLeast none n v h le = absurd h
covers-AtLeast (some t) n v h le = ground arith

stale-AtLeast :
    (m : Dict ℕ) (k : String) (n v : ℕ) → AtLeast n (lookup k m) → v ≤ n → stale m k v ≡ true
unfolding stale
stale-AtLeast m k n v h le = covers-AtLeast (lookup k m) n v h le

newer-AtLeast : (o : Option ℕ) (n v : ℕ) → AtLeast n o → covers v o ≡ false → n ≤ v
newer-AtLeast none n v h e = absurd h
newer-AtLeast (some t) n v h e = ground arith

-- A tombstone that replaces another one is newer.
insert-AtLeast :
    (m : Dict ℕ) (k j : String) (n v : ℕ)
    → AtLeast n (lookup k m)
    → stale m j v ≡ false
    → AtLeast n (lookup k (insert j v m))
unfolding stale
insert-AtLeast m k j n v h fresh =
    subst (AtLeast n) (sym (lookup-insert j k v m)) (elim (Bool-cases (j == k)) [
      | inl e ↦
          let same : j ≡ k = (eq_iff j k).0 e in
          rw e
            (newer-AtLeast (lookup k m) n v h (ap (λ z. covers v (lookup z m)) (sym same) ∙ fresh))
      | inr e ↦ rw e h
    ])

module _ {ℓ} {F : Type ℓ} where
  pub IsSynced : Writer F → Type ℓ
  IsSynced w = w.published ≡ w.current

  -- Deleted at that version or a later one: the strategy is gone and its tombstone stands.
  pub record Gone (u id : String) (version : ℕ) (w : Writer F) : Type ℓ where
    pub buried : AtLeast version (lookup (key u id) w.tombstones)
    pub absent : current_of u id w ≡ none
    pub synced : w.published ≡ w.current

  -- The event does not bring a newer version of the strategy.
  abbrev pub IsOld : String → String → ℕ → Event F → Type 0
  IsOld u id version (Event.upsert none v) = Unit
  IsOld u id version (Event.upsert (some s) v) = s.user_id ≡ u → s.strategy_id ≡ id → v ≤ version
  IsOld u id version _ = Unit

  absent_kept :
      (u id u' id' : String) (x : Option (Strategy F)) (w : Writer F)
      → current_of u id w ≡ none
      → (u' ≡ u → id' ≡ id → x ≡ none)
      → replaced u' id' x (λ u id. current_of u id w) u id ≡ none
  absent_kept u id u' id' x w gone h = elim (Bool-cases (u' == u)) [
    | inl e ↦ elim (Bool-cases (id' == id)) [
      | inl k ↦ rw (e, k) (h ((eq_iff u' u).0 e) ((eq_iff id' id).0 k))
      | inr k ↦ rw (e, k) gone
    ]
    | inr e ↦ rw e gone
  ]

  replaced_self :
      (u id : String) (x : Option (Strategy F)) (old : String → String → Option (Strategy F))
      → replaced u id x old u id ≡ x
  replaced_self u id x old =
      let same_u : (u == u) ≡ true = (eq_iff u u).1 refl in
      let same_id : (id == id) ≡ true = (eq_iff id id).1 refl in rw (same_u, same_id) refl

  or_else-none : (o : Option (Strategy F)) (s : Strategy F) → or_else o (some s) ≡ none → ⊥
  or_else-none none s e = cc
  or_else-none (some t) s e = cc

  -- A strategy in a view of the user is not absent.
  active-absent :
      (u id : String) (v : UserView F) (s : Strategy F) (w : Writer F)
      → lookup u w.current.by_user ≡ some v
      → lookup id v.active ≡ some s
      → current_of u id w ≡ none
      → ⊥
  unfolding current_of find_in
  active-absent u id v s w found e gone =
      let held : find_in id (some v) ≡ none = ap (find_in id) (sym found) ∙ gone in
      let first : some s ≡ none = ap (λ o. or_else o (lookup id v.paused)) (sym e) ∙ held in cc

  paused-absent :
      (u id : String) (v : UserView F) (s : Strategy F) (w : Writer F)
      → lookup u w.current.by_user ≡ some v
      → lookup id v.paused ≡ some s
      → current_of u id w ≡ none
      → ⊥
  unfolding current_of find_in
  paused-absent u id v s w found e gone =
      let held : find_in id (some v) ≡ none = ap (find_in id) (sym found) ∙ gone in
      or_else-none (lookup id v.active) s (ap (or_else (lookup id v.active)) (sym e) ∙ held)

  module _ (u id : String) (version : ℕ) where
    put_active-Gone :
        (s : Strategy F) (v : ℕ) (w : Writer F)
        → is_stale w s.user_id s.strategy_id v ≡ false
        → IsOld u id version (Event.upsert (some s) v)
        → Gone u id version w
        → Gone u id version (put_active s v w)
    unfolding put_active commit is_stale
    put_active-Gone s v w fresh old g = record {
      buried = g.buried;
      absent =
          current_of-put_active s v w u id
          ∙ absent_kept u id s.user_id s.strategy_id (some (record s { version = v })) w g.absent
              (λ same_u same_id.
                (let is_old =
                    stale-AtLeast w.tombstones (key u id) version v g.buried (old same_u same_id) in
                  let same : key s.user_id s.strategy_id ≡ key u id = cc in
                  let now : stale w.tombstones (key s.user_id s.strategy_id) v ≡ true =
                    ap (λ k. stale w.tombstones k v) same ∙ is_old in
                  absurd (
                    let clash : true ≡ false =
                      ap (λ b. b || stale w.versions (key s.user_id s.strategy_id) v) (sym now)
                      ∙ fresh in
                    cc)));
      synced = refl;
    }

    move_to_paused-Gone :
        (u' id' : String) (v : ℕ) (view : UserView F) (s : Strategy F) (w : Writer F)
        → lookup u' w.current.by_user ≡ some view
        → lookup id' view.active ≡ some s
        → Gone u id version w
        → Gone u id version (move_to_paused u' id' v view s w)
    unfolding move_to_paused commit
    move_to_paused-Gone u' id' v view s w e k g = record {
      buried = g.buried;
      absent =
          current_of-move_to_paused u' id' v view s w e u id
          ∙ absent_kept u id u' id' (some s) w g.absent (λ same_u same_id.
            absurd (active-absent u id view s w (rw same_u at e) (rw same_id at k) g.absent));
      synced = refl;
    }

    pause_in-Gone :
        (u' id' : String) (v : ℕ) (w : Writer F) (o : Option (UserView F))
        → lookup u' w.current.by_user ≡ o
        → Gone u id version w
        → Gone u id version (pause_in u' id' v w o).1
    unfolding pause_in
    pause_in-Gone u' id' v w none e g = g
    pause_in-Gone u' id' v w (some view) e g = elim (Option-cases (lookup id' view.active)) [
      | inl k ↦ rw (k, pause_in) g
      | inr (s, k) ↦ rw (k, pause_in) (move_to_paused-Gone u' id' v view s w e k g)
    ]

    move_to_active-Gone :
        (u' id' : String) (v : ℕ) (view : UserView F) (s : Strategy F) (w : Writer F)
        → lookup u' w.current.by_user ≡ some view
        → lookup id' view.paused ≡ some s
        → Gone u id version w
        → Gone u id version (move_to_active u' id' v view s w)
    unfolding move_to_active commit
    move_to_active-Gone u' id' v view s w e k g = record {
      buried = g.buried;
      absent =
          current_of-move_to_active u' id' v view s w e u id
          ∙ absent_kept u id u' id' (some (record s { active = true; version = v })) w g.absent
              (λ same_u same_id.
                absurd (paused-absent u id view s w (rw same_u at e) (rw same_id at k) g.absent));
      synced = refl;
    }

    resume_in-Gone :
        (u' id' : String) (v : ℕ) (w : Writer F) (o : Option (UserView F))
        → lookup u' w.current.by_user ≡ o
        → Gone u id version w
        → Gone u id version (resume_in u' id' v w o).1
    unfolding resume_in
    resume_in-Gone u' id' v w none e g = g
    resume_in-Gone u' id' v w (some view) e g = elim (Option-cases (lookup id' view.paused)) [
      | inl k ↦ rw (k, resume_in) g
      | inr (s, k) ↦ rw (k, resume_in) (move_to_active-Gone u' id' v view s w e k g)
    ]

    delete_in-Gone :
        (u' id' : String) (w : Writer F) (o : Option (UserView F))
        → lookup u' w.current.by_user ≡ o
        → Gone u id version w
        → Gone u id version (delete_in u' id' w o).1
    unfolding delete_in commit
    delete_in-Gone u' id' w none e g = g
    delete_in-Gone u' id' w (some view) e g = record {
      buried = g.buried;
      absent =
          current_of-delete_in u' id' view w u id e
          ∙ absent_kept u id u' id' none w g.absent (λ _ _. refl);
      synced = refl;
    }

    bury-Gone :
        (u' id' : String) (v : ℕ) (w : Writer F)
        → stale w.tombstones (key u' id') v ≡ false
        → Gone u id version w
        → Gone u id version (bury u' id' v w)
    unfolding bury current_of
    bury-Gone u' id' v w fresh g = record {
      buried = insert-AtLeast w.tombstones (key u id) (key u' id') version v g.buried fresh;
      absent = g.absent;
      synced = g.synced;
    }

    guarded-Gone :
        (a b : Bool) (x y z : Applied × Writer F)
        → Gone u id version x.1
        → Gone u id version y.1
        → (a ≡ false → b ≡ false → Gone u id version z.1)
        → Gone u id version (if a then x else if b then y else z).1
    guarded-Gone true b x y z p q r = p
    guarded-Gone false true x y z p q r = q
    guarded-Gone false false x y z p q r = r refl refl

    apply_upsert-Gone :
        (s : Option (Strategy F)) (v : ℕ) (w : Writer F)
        → IsOld u id version (Event.upsert s v)
        → Gone u id version w
        → Gone u id version (apply_upsert s v w).1
    unfolding apply_upsert
    apply_upsert-Gone none v w old g = g
    apply_upsert-Gone (some s) v w old g =
        guarded-Gone (unnamed s.user_id s.strategy_id) (not s.active) (missing_ids, w)
          (applied false, w)
          (if is_stale w s.user_id s.strategy_id v
            then (applied false, w)
            else (applied true, put_active s v w))
          g g
          (λ _ _. elim (Bool-cases (is_stale w s.user_id s.strategy_id v)) [
            | inl e ↦ rw e g
            | inr e ↦ rw e (put_active-Gone s v w e old g)
          ])

    at_bury :
        (u' id' : String) (v : ℕ) (w : Writer F)
        → lookup u' (bury u' id' v w).current.by_user ≡ lookup u' w.current.by_user
    unfolding bury
    at_bury u' id' v w = refl

    pub apply-Gone :
        (e : Event F) (w : Writer F)
        → IsOld u id version e
        → Gone u id version w
        → Gone u id version (apply e w).1
    unfolding apply apply_pause apply_resume apply_delete
    apply-Gone (Event.upsert s v) w old g = apply_upsert-Gone s v w old g
    apply-Gone (Event.pause u' id' v) w old g =
        guarded-Gone (unnamed u' id') (is_stale w u' id' v) (missing_ids, w) (applied false, w)
          (pause_in u' id' v w (lookup u' w.current.by_user)) g g
          (λ _ _. pause_in-Gone u' id' v w (lookup u' w.current.by_user) refl g)
    apply-Gone (Event.resume u' id' v) w old g =
        guarded-Gone (unnamed u' id') (is_stale w u' id' v) (missing_ids, w) (applied false, w)
          (resume_in u' id' v w (lookup u' w.current.by_user)) g g
          (λ _ _. resume_in-Gone u' id' v w (lookup u' w.current.by_user) refl g)
    apply-Gone (Event.remove u' id' v) w old g =
        guarded-Gone (unnamed u' id') (stale w.tombstones (key u' id') v) (missing_ids, w)
          (applied false, w) (delete_in u' id' (bury u' id' v w) (lookup u' w.current.by_user)) g g
          (λ _ fresh.
            delete_in-Gone u' id' (bury u' id' v w) (lookup u' w.current.by_user)
              (at_bury u' id' v w) (bury-Gone u' id' v w fresh g))

    pub run-Gone :
        (es : List (Event F)) (w : Writer F)
        → All (IsOld u id version) es
        → Gone u id version w
        → Gone u id version (run es w)
    unfolding run
    run-Gone [] w old g = g
    run-Gone (e ∷ es) w (o, os) g = run-Gone es (apply e w).1 os (apply-Gone e w o g)

    pub Gone-get_strategy : (w : Writer F) → Gone u id version w → get_strategy u id w ≡ none
    unfolding get_strategy current_of
    Gone-get_strategy w g = ap (λ s. find_in id (lookup u s.by_user)) g.synced ∙ g.absent

    buried_now :
        (w : Writer F)
        → AtLeast version (lookup (key u id) (insert (key u id) version w.tombstones))
    buried_now w =
        let same : (key u id == key u id) ≡ true = (eq_iff (key u id) (key u id)).1 refl in
        subst (AtLeast version) (sym (lookup-insert (key u id) (key u id) version w.tombstones))
          (rw same (omega arith))

    deleted :
        (w : Writer F) (o : Option (UserView F))
        → w.published ≡ w.current
        → lookup u w.current.by_user ≡ o
        → Gone u id version (delete_in u id (bury u id version w) o).1
    unfolding delete_in bury commit current_of find_in
    deleted w none sync e = record {
      buried = buried_now w;
      absent = ap (find_in id) e;
      synced = sync;
    }
    deleted w (some v) sync e = record {
      buried = buried_now w;
      absent =
          current_of-delete_in u id v (bury u id version w) u id e
          ∙ replaced_self u id none (λ u id. current_of u id (bury u id version w));
      synced = refl;
    }

    pub apply_delete-Gone :
        (w : Writer F)
        → w.published ≡ w.current
        → unnamed u id ≡ false
        → stale w.tombstones (key u id) version ≡ false
        → Gone u id version (apply_delete u id version w).1
    unfolding apply_delete
    apply_delete-Gone w sync named fresh =
        rw (named, fresh) (deleted w (lookup u w.current.by_user) sync refl)

    -- A strategy that is deleted stays deleted, whatever events follow, as long as none of them brings
    -- a version of it that is newer than the deletion.
    pub run-apply_delete :
        (w : Writer F) (es : List (Event F))
        → w.published ≡ w.current
        → unnamed u id ≡ false
        → stale w.tombstones (key u id) version ≡ false
        → All (IsOld u id version) es
        → get_strategy u id (run es (apply_delete u id version w).1) ≡ none
    run-apply_delete w es sync named fresh old =
        let after = (apply_delete u id version w).1 in
        Gone-get_strategy (run es after)
          (run-Gone es after old (apply_delete-Gone w sync named fresh))
