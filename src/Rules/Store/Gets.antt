-- ===== src/Rules/Store/Gets.antt =====
-- What a reader finds after each operation of the writer.
use algo_treading.Base.{
  ℕ, ◌≡◌, refl, ap, sym, ◌∙◌, Bool, true, false, not, ◌&&◌, String, ◌==◌, eq_iff, Option, none,
  some, Bool-cases, Option-cases, inl, inr, if◌then◌else◌,
}
use algo_treading.Base.Dict.{lookup}
use algo_treading.Rules.Strategy.{Strategy}
use algo_treading.Rules.Store.{
  UserView, Writer, Applied, applied, missing_ids, key, stale, unnamed, is_stale, commit,
  put_active, apply_upsert, move_to_paused, pause_in, apply_pause, bury, delete_in, apply_delete,
  or_else, find_in, get_strategy,
}
use algo_treading.Rules.Store.Contents.{
  current_of, replaced, current_of-put_active, current_of-move_to_paused, current_of-delete_in,
}

module _ {ℓ} {F : Type ℓ} where
  -- The store publishes the snapshot that the writer works on.
  abbrev pub IsSynced : Writer F → Type ℓ
  IsSynced w = w.published ≡ w.current

  get_strategy-current_of :
      (w : Writer F) → IsSynced w → (u id : String) → get_strategy u id w ≡ current_of u id w
  unfolding get_strategy current_of
  get_strategy-current_of w sync u id = ap (λ s. find_in id (lookup u s.by_user)) sync

  past_guards :
      (a b c : Bool) (x y z r : Applied × Writer F)
      → a ≡ false
      → b ≡ false
      → c ≡ false
      → (if a then x else if b then y else if c then z else r) ≡ r
  past_guards a b c x y z r p q s = rw (p, q, s) refl

  apply_upsert-put_active :
      (s : Strategy F) (version : ℕ) (w : Writer F)
      → unnamed s.user_id s.strategy_id ≡ false
      → s.active ≡ true
      → is_stale w s.user_id s.strategy_id version ≡ false
      → apply_upsert (some s) version w ≡ (applied true, put_active s version w)
  unfolding apply_upsert
  apply_upsert-put_active s version w named on fresh =
      past_guards (unnamed s.user_id s.strategy_id) (not s.active)
        (is_stale w s.user_id s.strategy_id version) (missing_ids, w) (applied false, w)
        (applied false, w) (applied true, put_active s version w) named (ap not on) fresh

  put_active-IsSynced :
      (s : Strategy F) (version : ℕ) (w : Writer F) → IsSynced (put_active s version w)
  unfolding put_active commit
  put_active-IsSynced s version w = refl

  -- An entry that is replaced by what it was.
  replaced_same :
      (u id : String) (x : Option (Strategy F)) (old : String → String → Option (Strategy F))
      (u' id' : String)
      → old u id ≡ x
      → replaced u id x old u' id' ≡ old u' id'
  replaced_same u id x old u' id' e = elim (Bool-cases (u == u')) [
    | inl a ↦ elim (Bool-cases (id == id')) [
      | inl b ↦
          let same_u : u ≡ u' = (eq_iff u u').0 a in
          let same_id : id ≡ id' = (eq_iff id id').0 b in
          rw (a, b) (sym e ∙ ap (λ z. old z id) same_u ∙ ap (old u') same_id)
      | inr b ↦ rw (a, b) refl
    ]
    | inr a ↦ rw a refl
  ]

  current_of-absent :
      (u id : String) (w : Writer F) → lookup u w.current.by_user ≡ none → current_of u id w ≡ none
  unfolding current_of find_in
  current_of-absent u id w e = ap (find_in id) e

  current_of-active :
      (u id : String) (v : UserView F) (s : Strategy F) (w : Writer F)
      → lookup u w.current.by_user ≡ some v
      → lookup id v.active ≡ some s
      → current_of u id w ≡ some s
  unfolding current_of find_in
  current_of-active u id v s w found e =
      ap (find_in id) found ∙ ap (λ o. or_else o (lookup id v.paused)) e

  bury-current_of :
      (u id : String) (version : ℕ) (w : Writer F) (u' id' : String)
      → current_of u' id' (bury u id version w) ≡ current_of u' id' w
  unfolding current_of bury
  bury-current_of u id version w u' id' = refl

  at_bury :
      (u id : String) (version : ℕ) (w : Writer F)
      → lookup u (bury u id version w).current.by_user ≡ lookup u w.current.by_user
  unfolding bury
  at_bury u id version w = refl

  delete_in-current_of :
      (u id : String) (w : Writer F) (o : Option (UserView F)) (u' id' : String)
      → lookup u w.current.by_user ≡ o
      → current_of u' id' (delete_in u id w o).1
        ≡ replaced u id none (λ u id. current_of u id w) u' id'
  unfolding delete_in
  delete_in-current_of u id w none u' id' e =
      sym (replaced_same u id none (λ u id. current_of u id w) u' id' (current_of-absent u id w e))
  delete_in-current_of u id w (some v) u' id' e = current_of-delete_in u id v w u' id' e

  delete_in-IsSynced :
      (u id : String) (w : Writer F) (o : Option (UserView F))
      → IsSynced w
      → IsSynced (delete_in u id w o).1
  unfolding delete_in commit
  delete_in-IsSynced u id w none sync = sync
  delete_in-IsSynced u id w (some v) sync = refl

  move_to_paused-IsSynced :
      (u id : String) (version : ℕ) (v : UserView F) (s : Strategy F) (w : Writer F)
      → IsSynced (move_to_paused u id version v s w)
  unfolding move_to_paused commit
  move_to_paused-IsSynced u id version v s w = refl

  bury-IsSynced :
      (u id : String) (version : ℕ) (w : Writer F) → IsSynced w → IsSynced (bury u id version w)
  unfolding bury
  bury-IsSynced u id version w sync = sync

  pause_in-get_strategy :
      (u id : String) (version : ℕ) (w : Writer F) (o : Option (UserView F)) (u' id' : String)
      → IsSynced w
      → lookup u w.current.by_user ≡ o
      → get_strategy u' id' (pause_in u id version w o).1 ≡ get_strategy u' id' w
  unfolding pause_in
  pause_in-get_strategy u id version w none u' id' sync e = refl
  pause_in-get_strategy u id version w (some v) u' id' sync e =
      elim (Option-cases (lookup id v.active)) [
        | inl k ↦ rw (k, pause_in) refl
        | inr (s, k) ↦
            let after = move_to_paused u id version v s w in
            rw (k, pause_in)
              (get_strategy-current_of after (move_to_paused-IsSynced u id version v s w) u' id'
                ∙ current_of-move_to_paused u id version v s w e u' id'
                ∙ replaced_same u id (some s) (λ u id. current_of u id w) u' id'
                    (current_of-active u id v s w e k)
                ∙ sym (get_strategy-current_of w sync u' id'))
      ]

  module _ (w : Writer F) (sync : IsSynced w) (u id : String) where
    -- An upsert of a named, active strategy whose version is not stale makes readers find it with that
    -- version, and leaves what they find under any other pair of ids.
    pub get_strategy-apply_upsert :
        (s : Strategy F) (version : ℕ)
        → unnamed s.user_id s.strategy_id ≡ false
        → s.active ≡ true
        → is_stale w s.user_id s.strategy_id version ≡ false
        → get_strategy u id (apply_upsert (some s) version w).1 ≡ (
            if s.user_id == u && s.strategy_id == id
            then some (record s { version = version })
            else get_strategy u id w)
    get_strategy-apply_upsert s version named on fresh =
        let after = put_active s version w in
        ap (λ o. get_strategy u id o.1) (apply_upsert-put_active s version w named on fresh)
        ∙ get_strategy-current_of after (put_active-IsSynced s version w) u id
        ∙ current_of-put_active s version w u id
        ∙ ap
            (λ o.
              if s.user_id == u && s.strategy_id == id
              then some (record s { version = version })
              else o)
            (sym (get_strategy-current_of w sync u id))

    -- A deletion with ids that is not older than the last one removes the strategy and nothing else.
    pub get_strategy-apply_delete :
        (user_id strategy_id : String) (version : ℕ)
        → unnamed user_id strategy_id ≡ false
        → stale w.tombstones (key user_id strategy_id) version ≡ false
        → get_strategy u id (apply_delete user_id strategy_id version w).1
          ≡ (if user_id == u && strategy_id == id then none else get_strategy u id w)
    unfolding apply_delete
    get_strategy-apply_delete user_id strategy_id version named fresh =
        let buried = bury user_id strategy_id version w in
        let o = lookup user_id w.current.by_user in
        rw (named, fresh)
          (get_strategy-current_of (delete_in user_id strategy_id buried o).1
              (delete_in-IsSynced user_id strategy_id buried o
                (bury-IsSynced user_id strategy_id version w sync))
              u id
            ∙ delete_in-current_of user_id strategy_id buried o u id
                (at_bury user_id strategy_id version w)
            ∙ ap (λ x. if user_id == u && strategy_id == id then none else x)
                (bury-current_of user_id strategy_id version w u id
                  ∙ sym (get_strategy-current_of w sync u id)))

    -- A pause, applied or not, leaves what readers find under every pair of ids.
    pub get_strategy-apply_pause :
        (user_id strategy_id : String) (version : ℕ)
        → get_strategy u id (apply_pause user_id strategy_id version w).1 ≡ get_strategy u id w
    unfolding apply_pause
    get_strategy-apply_pause user_id strategy_id version =
        elim (Bool-cases (unnamed user_id strategy_id)) [
          | inl e ↦ rw e refl
          | inr e ↦ elim (Bool-cases (is_stale w user_id strategy_id version)) [
            | inl k ↦ rw (e, k) refl
            | inr k ↦
                rw (e, k)
                  (pause_in-get_strategy user_id strategy_id version w
                    (lookup user_id w.current.by_user) u id sync refl)
          ]
        ]
