-- ===== src/Rules/Store/Redelivery.antt =====
-- Events that come after one of the same strategy that is as new.
use algo_treading.Base.{
  ℕ, ◌≤◌, ◌≡◌, sym, ◌||◌, refl, ap, ◌∙◌, inl, inr, Bool, true, false, not, String, ◌==◌, eq_iff,
  Option, none, some, Option-cases, if◌then◌else◌, arith,
}
use mathlib.Core.Path.{subst}
use algo_treading.Base.Dict.{Dict, lookup, insert, lookup-insert}
use algo_treading.Rules.Strategy.{Strategy}
use algo_treading.Rules.Store.{
  UserView, Writer, Applied, applied, missing_ids, key, stale, unnamed, is_stale, commit,
  put_active, apply_upsert, move_to_paused, pause_in, apply_pause, move_to_active, resume_in,
  apply_resume, bury, delete_in, apply_delete,
}
use algo_treading.Rules.Store.Events.{Event, apply}
use algo_treading.Rules.Store.Tombstones.{covers}

stale-insert : (k : String) (v : ℕ) (m : Dict ℕ) → stale (insert k v m) k v ≡ true
unfolding stale
stale-insert k v m =
    let same : (k == k) ≡ true = (eq_iff k k).1 refl in
    let found = lookup-insert k k v m in
    let here : lookup k (insert k v m) ≡ some v = found ∙ rw same refl in
    rw (stale, here) (ground arith)

covers-le : (o : Option ℕ) (v older : ℕ) → covers v o ≡ true → older ≤ v → covers older o ≡ true
covers-le none v older h le = absurd cc
covers-le (some last) v older h le = ground arith

stale-le :
    (m : Dict ℕ) (k : String) (v older : ℕ)
    → stale m k v ≡ true
    → older ≤ v
    → stale m k older ≡ true
unfolding stale
stale-le m k v older h le = covers-le (lookup k m) v older h le

module _ {ℓ} {F : Type ℓ} where
  -- The last of three results of a test, if it says that the event was applied.
  applied_last :
      (a b : Bool) (w : Writer F) (x : Applied × Writer F)
      → (if a then (missing_ids, w) else if b then (applied false, w) else x).0 ≡ applied true
      → (if a then (missing_ids, w) else if b then (applied false, w) else x) ≡ x
  applied_last true b w x h = absurd cc
  applied_last false true w x h = absurd cc
  applied_last false false w x h = refl

  versions-stale :
      (u id : String) (v : ℕ) (w : Writer F)
      → stale w.versions (key u id) v ≡ true
      → is_stale w u id v ≡ true
  unfolding is_stale
  versions-stale u id v w e = ground (arith, e)

  is_stale-le :
      (u id : String) (v older : ℕ) (w : Writer F)
      → is_stale w u id v ≡ true
      → older ≤ v
      → is_stale w u id older ≡ true
  unfolding is_stale
  is_stale-le u id v older w h le =
      ground
        (arith, stale-le w.tombstones (key u id) v older, stale-le w.versions (key u id) v older)

  put_active-stale :
      (s : Strategy F) (v : ℕ) (w : Writer F)
      → is_stale (put_active s v w) s.user_id s.strategy_id v ≡ true
  unfolding put_active commit
  put_active-stale s v w =
      versions-stale s.user_id s.strategy_id v (put_active s v w)
        (stale-insert (key s.user_id s.strategy_id) v w.versions)

  module _ (u id : String) (v : ℕ) (w : Writer F) where
    move_to_paused-stale :
        (view : UserView F) (s : Strategy F)
        → is_stale (move_to_paused u id v view s w) u id v ≡ true
    unfolding move_to_paused commit
    move_to_paused-stale view s =
        versions-stale u id v (move_to_paused u id v view s w)
          (stale-insert (key u id) v w.versions)

    move_to_active-stale :
        (view : UserView F) (s : Strategy F)
        → is_stale (move_to_active u id v view s w) u id v ≡ true
    unfolding move_to_active commit
    move_to_active-stale view s =
        versions-stale u id v (move_to_active u id v view s w)
          (stale-insert (key u id) v w.versions)

    pause_in-stale :
        (o : Option (UserView F))
        → (pause_in u id v w o).0 ≡ applied true
        → is_stale (pause_in u id v w o).1 u id v ≡ true
    unfolding pause_in
    pause_in-stale none = λ h. absurd cc
    pause_in-stale (some view) = elim (Option-cases (lookup id view.active)) [
      | inl k ↦ rw (k, pause_in) (λ h. absurd cc)
      | inr (s, k) ↦ rw (k, pause_in) (λ h. move_to_paused-stale view s)
    ]

    resume_in-stale :
        (o : Option (UserView F))
        → (resume_in u id v w o).0 ≡ applied true
        → is_stale (resume_in u id v w o).1 u id v ≡ true
    unfolding resume_in
    resume_in-stale none = λ h. absurd cc
    resume_in-stale (some view) = elim (Option-cases (lookup id view.paused)) [
      | inl k ↦ rw (k, resume_in) (λ h. absurd cc)
      | inr (s, k) ↦ rw (k, resume_in) (λ h. move_to_active-stale view s)
    ]

    delete_in-buried :
        (o : Option (UserView F))
        → stale (delete_in u id (bury u id v w) o).1.tombstones (key u id) v ≡ true
    unfolding delete_in bury commit
    delete_in-buried none = stale-insert (key u id) v w.tombstones
    delete_in-buried (some view) = stale-insert (key u id) v w.tombstones

  -- The user of an event's strategy.
  abbrev pub user_of : Event F → String
  user_of (Event.upsert none v) = ""
  user_of (Event.upsert (some s) v) = s.user_id
  user_of (Event.pause u id v) = u
  user_of (Event.resume u id v) = u
  user_of (Event.remove u id v) = u

  abbrev pub id_of : Event F → String
  id_of (Event.upsert none v) = ""
  id_of (Event.upsert (some s) v) = s.strategy_id
  id_of (Event.pause u id v) = id
  id_of (Event.resume u id v) = id
  id_of (Event.remove u id v) = id

  abbrev pub version_of : Event F → ℕ
  version_of (Event.upsert s v) = v
  version_of (Event.pause u id v) = v
  version_of (Event.resume u id v) = v
  version_of (Event.remove u id v) = v

  abbrev pub is_removal : Event F → Bool
  is_removal (Event.upsert s v) = false
  is_removal (Event.pause u id v) = false
  is_removal (Event.resume u id v) = false
  is_removal (Event.remove u id v) = true

  -- What turns away an event for a strategy with a version.
  abbrev guards : Bool → String → String → ℕ → Writer F → Bool
  guards removal u id v w = if removal then stale w.tombstones (key u id) v else is_stale w u id v

  guards-apply :
      (e : Event F) (w : Writer F)
      → unnamed (user_of e) (id_of e) ≡ false
      → (apply e w).0 ≡ applied true
      → guards (is_removal e) (user_of e) (id_of e) (version_of e) (apply e w).1 ≡ true
  unfolding apply apply_upsert apply_pause apply_resume apply_delete
  guards-apply (Event.upsert none v) w named h = absurd cc
  guards-apply (Event.upsert (some s) v) w named h =
      let second : Applied × Writer F =
        if is_stale w s.user_id s.strategy_id v
        then (applied false, w)
        else (applied true, put_active s v w) in
      let e = applied_last (unnamed s.user_id s.strategy_id) (not s.active) w second h in
      let last =
        applied_last false (is_stale w s.user_id s.strategy_id v) w (applied true, put_active s v w)
          (sym (ap (λ r. r.0) e) ∙ h) in
      subst (λ r. is_stale r.1 s.user_id s.strategy_id v ≡ true) (sym (e ∙ last))
        (put_active-stale s v w)
  guards-apply (Event.pause u id v) w named h =
      let e =
        applied_last (unnamed u id) (is_stale w u id v) w
          (pause_in u id v w (lookup u w.current.by_user)) h in
      subst (λ r. is_stale r.1 u id v ≡ true) (sym e)
        (pause_in-stale u id v w (lookup u w.current.by_user) (sym (ap (λ r. r.0) e) ∙ h))
  guards-apply (Event.resume u id v) w named h =
      let e =
        applied_last (unnamed u id) (is_stale w u id v) w
          (resume_in u id v w (lookup u w.current.by_user)) h in
      subst (λ r. is_stale r.1 u id v ≡ true) (sym e)
        (resume_in-stale u id v w (lookup u w.current.by_user) (sym (ap (λ r. r.0) e) ∙ h))
  guards-apply (Event.remove u id v) w named h =
      let e =
        applied_last (unnamed u id) (stale w.tombstones (key u id) v) w
          (delete_in u id (bury u id v w) (lookup u w.current.by_user)) h in
      subst (λ r. stale r.1.tombstones (key u id) v ≡ true) (sym e)
        (delete_in-buried u id v w (lookup u w.current.by_user))

  -- The events that a guard turns away.
  refused :
      (e : Event F) (w : Writer F)
      → unnamed (user_of e) (id_of e) ≡ false
      → guards (is_removal e) (user_of e) (id_of e) (version_of e) w ≡ true
      → apply e w ≡ (applied false, w)
  unfolding apply apply_upsert apply_pause apply_resume apply_delete
  refused (Event.upsert none v) w named h = absurd cc
  refused (Event.upsert (some s) v) w named h = rw (named, h) (ground arith)
  refused (Event.pause u id v) w named h = rw (named, h) refl
  refused (Event.resume u id v) w named h = rw (named, h) refl
  refused (Event.remove u id v) w named h = rw (named, h) refl

  guards-le :
      (first second : Bool) (u id : String) (v older : ℕ) (w : Writer F)
      → not second || first ≡ true
      → older ≤ v
      → guards first u id v w ≡ true
      → guards second u id older w ≡ true
  unfolding is_stale
  guards-le true true u id v older w both le h = stale-le w.tombstones (key u id) v older h le
  guards-le true false u id v older w both le h =
      ground (arith, stale-le w.tombstones (key u id) v older)
  guards-le false false u id v older w both le h = is_stale-le u id v older w h le
  guards-le false true u id v older w both le h = absurd cc

  -- An event for a strategy that comes directly after one of the same strategy which was applied and whose
  -- version is at least as new is not applied and changes nothing, unless it deletes the strategy and the
  -- first one did not.
  pub apply-superseded :
      (first second : Event F) (w : Writer F)
      → unnamed (user_of first) (id_of first) ≡ false
      → user_of second ≡ user_of first
      → id_of second ≡ id_of first
      → version_of second ≤ version_of first
      → not (is_removal second) || is_removal first ≡ true
      → (apply first w).0 ≡ applied true
      → apply second (apply first w).1 ≡ (applied false, (apply first w).1)
  apply-superseded first second w named same_user same_id older both h =
      let after = (apply first w).1 in
      let turned_away =
        guards-le (is_removal first) (is_removal second) (user_of first) (id_of first)
          (version_of first) (version_of second) after both older (guards-apply first w named h) in
      refused second after (coe 0 1 (i. unnamed (sym same_user i) (sym same_id i) ≡ false) named) (
        coe 0 1
          (i.
            guards (is_removal second) (sym same_user i) (sym same_id i) (version_of second) after
            ≡ true)
          turned_away)
