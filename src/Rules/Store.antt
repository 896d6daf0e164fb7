-- ===== src/Rules/Store.antt =====
-- services/rules-engine/internal/configstore: the published snapshot and its copy-on-write writer. A
-- snapshot's time and the locks are left out; a map that is `nil` is an empty dictionary.
pub mod Events
pub mod Contents
pub mod Tombstones
pub mod Wellformed
pub mod Gets
pub mod Redelivery
pub mod AllActive
use algo_treading.Base.{
  ℕ, ◌+◌, Bool, true, false, not, ◌&&◌, ◌||◌, String, ◌==◌, ◌++◌, List, [], ◌∷◌, map, Option, none,
  some, leb, length, if◌then◌else◌,
}
use algo_treading.Base.Dict.{Dict, lookup, insert, delete}
use algo_treading.Base.Sort.{sort_strings}
use algo_treading.Rules.Strategy.{Strategy}
use algo_treading.Base.Text.{append}

pub record UserView {ℓ} (F : Type ℓ) : Type ℓ where
  pub active : Dict (Strategy F)
  pub paused : Dict (Strategy F)

pub record Snapshot {ℓ} (F : Type ℓ) : Type ℓ where
  pub by_user : Dict (UserView F)
  pub all_active : List (Strategy F)
  pub total_users : ℕ
  pub total_strategies : ℕ
  pub total_active : ℕ
  pub total_paused : ℕ

-- `Writer`, with the snapshot that its store has published.
pub record Writer {ℓ} (F : Type ℓ) : Type ℓ where
  pub published : Snapshot F
  pub current : Snapshot F
  pub tombstones : Dict ℕ
  pub versions : Dict ℕ

-- What an `Apply` method returns: whether it applied the event, or its error.
pub data Applied : Type 0 where
  applied : Bool → Applied
  failed : String → Applied

unfoldable pub key : String → String → String
key user_id strategy_id = append user_id (append "|" strategy_id)

-- The guard `version <= m[k]`, which lets a key that is not there pass.
unfoldable pub stale : Dict ℕ → String → ℕ → Bool
stale m k version = elim (lookup k m) [ none ↦ false | some last ↦ leb version last ]

abbrev pub keys {ℓ} : {V : Type ℓ} → Dict V → List String
keys = map (λ e. e.0)

abbrev pub unnamed : String → String → Bool
unnamed u id = u == "" || id == ""

abbrev pub missing_ids : Applied
missing_ids = failed "missing user_id/strategy_id"

abbrev pub is_some {κ} : {V : Type κ} → Option V → Bool
is_some none = false
is_some (some _) = true

abbrev pub has {κ} : {V : Type κ} → String → Dict V → Bool
has k m = is_some (lookup k m)

module _ {ℓ} {F : Type ℓ} where
  abbrev pub empty_view : UserView F
  empty_view = record { active = []; paused = [] }

  abbrev pub or_empty : Option (UserView F) → UserView F
  or_empty none = empty_view
  or_empty (some v) = v

  unfoldable pub view_of : String → Dict (UserView F) → UserView F
  view_of u m = or_empty (lookup u m)

  abbrev pub keep : Option (Strategy F) → List (Strategy F) → List (Strategy F)
  keep none rest = rest
  keep (some s) rest = s ∷ rest

  -- The strategies of the map under those ids.
  unfoldable pub pick : Dict (Strategy F) → List String → List (Strategy F)
  pick m [] = []
  pick m (id ∷ ids) = keep (lookup id m) (pick m ids)

  unfoldable pub flatten : Dict (UserView F) → List String → List (Strategy F)
  flatten m [] = []
  flatten m (u ∷ us) =
      let active = (view_of u m).active in pick active (sort_strings (keys active)) ++ flatten m us

  unfoldable pub count_active : Dict (UserView F) → ℕ
  count_active [] = 0
  count_active ((_, v) ∷ m) = length v.active + count_active m

  unfoldable pub count_paused : Dict (UserView F) → ℕ
  count_paused [] = 0
  count_paused ((_, v) ∷ m) = length v.paused + count_paused m

  -- `Finalize` of a snapshot with these users.
  unfoldable pub finalize : Dict (UserView F) → Snapshot F
  finalize m = record {
    by_user = m;
    all_active = flatten m (sort_strings (keys m));
    total_users = length m;
    total_strategies = count_active m + count_paused m;
    total_active = count_active m;
    total_paused = count_paused m;
  }

  unfoldable pub commit : Dict (UserView F) → Writer F → Writer F
  commit m w = record w { published = finalize m; current = finalize m }

  -- Both version guards.
  unfoldable pub is_stale : Writer F → String → String → ℕ → Bool
  is_stale w u id version =
      stale w.tombstones (key u id) version || stale w.versions (key u id) version

  unfoldable pub put_active : Strategy F → ℕ → Writer F → Writer F
  put_active s version w =
      let v = view_of s.user_id w.current.by_user in
      let next : UserView F = record {
        active = insert s.strategy_id (record s { version = version }) v.active;
        paused = delete s.strategy_id v.paused;
      } in
      commit (insert s.user_id next w.current.by_user)
        (record w { versions = insert (key s.user_id s.strategy_id) version w.versions })

  unfoldable pub apply_upsert : Option (Strategy F) → ℕ → Writer F → Applied × Writer F
  apply_upsert none version w = (failed "strategy is nil", w)
  apply_upsert (some s) version w =
      if unnamed s.user_id s.strategy_id
      then (missing_ids, w)
      else if not s.active
      then (applied false, w)
      else if is_stale w s.user_id s.strategy_id version
      then (applied false, w)
      else (applied true, put_active s version w)

  unfoldable pub move_to_paused :
      String → String → ℕ → UserView F → Strategy F → Writer F → Writer F
  move_to_paused u id version v s w =
      let next : UserView F = record {
        active = delete id v.active;
        paused = insert id s v.paused;
      } in
      commit (insert u next w.current.by_user)
        (record w { versions = insert (key u id) version w.versions })

  unfoldable pub pause_in :
      String → String → ℕ → Writer F → Option (UserView F) → Applied × Writer F
  pause_in u id version w none = (applied false, w)
  pause_in u id version w (some v) = elim (lookup id v.active) [
    | none ↦ (applied false, w)
    | some s ↦ (applied true, move_to_paused u id version v s w)
  ]

  unfoldable pub apply_pause : String → String → ℕ → Writer F → Applied × Writer F
  apply_pause u id version w =
      if unnamed u id
      then (missing_ids, w)
      else if is_stale w u id version
      then (applied false, w)
      else pause_in u id version w (lookup u w.current.by_user)

  unfoldable pub move_to_active :
      String → String → ℕ → UserView F → Strategy F → Writer F → Writer F
  move_to_active u id version v s w =
      let next : UserView F = record {
        active = insert id (record s { active = true; version = version }) v.active;
        paused = delete id v.paused;
      } in
      commit (insert u next w.current.by_user)
        (record w { versions = insert (key u id) version w.versions })

  unfoldable pub resume_in :
      String → String → ℕ → Writer F → Option (UserView F) → Applied × Writer F
  resume_in u id version w none = (applied false, w)
  resume_in u id version w (some v) = elim (lookup id v.paused) [
    | none ↦ (applied false, w)
    | some s ↦ (applied true, move_to_active u id version v s w)
  ]

  unfoldable pub apply_resume : String → String → ℕ → Writer F → Applied × Writer F
  apply_resume u id version w =
      if unnamed u id
      then (missing_ids, w)
      else if is_stale w u id version
      then (applied false, w)
      else resume_in u id version w (lookup u w.current.by_user)

  unfoldable pub bury : String → String → ℕ → Writer F → Writer F
  bury u id version w = record w {
    tombstones = insert (key u id) version w.tombstones;
    versions = insert (key u id) version w.versions;
  }

  unfoldable pub delete_in : String → String → Writer F → Option (UserView F) → Applied × Writer F
  delete_in u id w none = (applied false, w)
  delete_in u id w (some v) =
      let next : UserView F = record { active = delete id v.active; paused = delete id v.paused } in
      (applied (has id v.active || has id v.paused), commit (insert u next w.current.by_user) w)

  -- Only the tombstones guard a deletion.
  unfoldable pub apply_delete : String → String → ℕ → Writer F → Applied × Writer F
  apply_delete u id version w =
      if unnamed u id
      then (missing_ids, w)
      else if stale w.tombstones (key u id) version
      then (applied false, w)
      else delete_in u id (bury u id version w) (lookup u w.current.by_user)

  -- `NewWriter` of a new store.
  unfoldable pub new_writer : Writer F
  new_writer = record {
    published = finalize [];
    current = finalize [];
    tombstones = [];
    versions = [];
  }

  unfoldable pub load_from : Dict (UserView F) → List (Option (Strategy F)) → Dict (UserView F)
  load_from m [] = m
  load_from m (none ∷ ss) = load_from m ss
  load_from m (some s ∷ ss) =
      let v = view_of s.user_id m in
      let next = insert s.user_id (record v { active = insert s.strategy_id s v.active }) m in
      load_from (if s.active then next else m) ss

  -- Replaces the snapshot; the writer keeps its tombstones and versions.
  unfoldable pub bulk_load : List (Option (Strategy F)) → Writer F → Writer F
  bulk_load ss w = commit (load_from [] ss) w

  abbrev pub or_else : Option (Strategy F) → Option (Strategy F) → Option (Strategy F)
  or_else none o = o
  or_else (some s) o = some s

  -- A view's strategy, active or paused.
  unfoldable pub find_in : String → Option (UserView F) → Option (Strategy F)
  find_in id none = none
  find_in id (some v) = or_else (lookup id v.active) (lookup id v.paused)

  unfoldable pub get_strategy : String → String → Writer F → Option (Strategy F)
  get_strategy u id w = find_in id (lookup u w.published.by_user)

  -- `Metrics`, without the time: users, strategies, active, paused.
  unfoldable pub metrics : Writer F → ℕ × ℕ × ℕ × ℕ
  metrics w =
      let s = w.published in (s.total_users, s.total_strategies, s.total_active, s.total_paused)
