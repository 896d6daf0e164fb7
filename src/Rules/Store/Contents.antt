-- ===== src/Rules/Store/Contents.antt =====
-- What the store holds after each operation of the writer: the strategy that the operation is about
-- changes, and no other.
use algo_treading.Base.{
  ℕ, ◌≡◌, refl, ap, sym, ◌∙◌, true, ◌&&◌, String, ◌==◌, eq_iff, Option, none, some, Bool-cases, inl,
  inr, if◌then◌else◌,
}
use mathlib.Core.Path.{ap₂}
use algo_treading.Base.Dict.{Dict, lookup, insert, delete, lookup-insert, lookup-delete}
use algo_treading.Rules.Strategy.{Strategy}
use algo_treading.Rules.Store.{
  UserView, Writer, view_of, finalize, commit, put_active, move_to_paused, move_to_active,
  delete_in, find_in, or_empty, or_else,
}

module _ {ℓ} {F : Type ℓ} where
  -- The strategy in the snapshot that the writer works on.
  unfoldable pub current_of : String → String → Writer F → Option (Strategy F)
  current_of u id w = find_in id (lookup u w.current.by_user)

  -- The change of one entry.
  abbrev pub replaced :
      String
      → String
      → Option (Strategy F)
      → (String → String → Option (Strategy F))
      → String
      → String
      → Option (Strategy F)
  replaced u id x old u' id' = if u == u' && id == id' then x else old u' id'

  find_in-or_empty :
      (id : String) (o : Option (UserView F)) → find_in id (some (or_empty o)) ≡ find_in id o
  unfolding find_in lookup
  find_in-or_empty id none = refl
  find_in-or_empty id (some v) = refl

  find_in-view_of :
      (u id : String) (m : Dict (UserView F))
      → find_in id (some (view_of u m)) ≡ find_in id (lookup u m)
  unfolding view_of
  find_in-view_of u id m = find_in-or_empty id (lookup u m)

  -- What the view holds under each id, after a change of one.
  abbrev Changes : String → Option (Strategy F) → UserView F → UserView F → Type ℓ
  Changes id x v next =
      (id' : String) → find_in id' (some next) ≡ (if id == id' then x else find_in id' (some v))

  current_of-commit :
      (u id u' id' : String) (x : Option (Strategy F)) (next v : UserView F) (w w' : Writer F)
      → Changes id x v next
      → ((id' : String) → find_in id' (some v) ≡ find_in id' (lookup u w.current.by_user))
      → current_of u' id' (commit (insert u next w.current.by_user) w')
        ≡ replaced u id x (λ u' id'. current_of u' id' w) u' id'
  unfolding current_of commit finalize
  current_of-commit u id u' id' x next v w w' h k =
      let m = w.current.by_user in
      ap (find_in id') (lookup-insert u u' next m) ∙ elim (Bool-cases (u == u')) [
        | inl e ↦
            let same : u ≡ u' = (eq_iff u u').0 e in
            rw e (
              h id'
              ∙ ap (λ o. if id == id' then x else o)
                  (k id' ∙ ap (λ z. find_in id' (lookup z m)) same))
        | inr e ↦ rw e refl
      ]

  Changes-put :
      (id : String) (s : Strategy F) (v : UserView F)
      → Changes id
          (some s)
          v
          (record { active = insert id s v.active; paused = delete id v.paused })
  unfolding find_in
  Changes-put id s v id' =
      ap₂ or_else (lookup-insert id id' s v.active) (lookup-delete id id' v.paused)
      ∙ elim (Bool-cases (id == id')) [ inl e ↦ rw e refl | inr e ↦ rw e refl ]

  Changes-shelve :
      (id : String) (s : Strategy F) (v : UserView F)
      → Changes id
          (some s)
          v
          (record { active = delete id v.active; paused = insert id s v.paused })
  unfolding find_in
  Changes-shelve id s v id' =
      ap₂ or_else (lookup-delete id id' v.active) (lookup-insert id id' s v.paused)
      ∙ elim (Bool-cases (id == id')) [ inl e ↦ rw e refl | inr e ↦ rw e refl ]

  Changes-drop :
      (id : String) (v : UserView F)
      → Changes id none v (record { active = delete id v.active; paused = delete id v.paused })
  unfolding find_in
  Changes-drop id v id' =
      ap₂ or_else (lookup-delete id id' v.active) (lookup-delete id id' v.paused)
      ∙ elim (Bool-cases (id == id')) [ inl e ↦ rw e refl | inr e ↦ rw e refl ]

  pub current_of-put_active :
      (s : Strategy F) (version : ℕ) (w : Writer F) (u id : String)
      → current_of u id (put_active s version w)
        ≡ replaced s.user_id s.strategy_id
            (some (record s { version = version }))
            (λ u id. current_of u id w)
            u
            id
  unfolding put_active
  current_of-put_active s version w u id =
      let v = view_of s.user_id w.current.by_user in
      current_of-commit s.user_id s.strategy_id u id (some (record s { version = version })) _ v w _
        (Changes-put s.strategy_id (record s { version = version }) v)
        (λ id. find_in-view_of s.user_id id w.current.by_user)

  module _ (u id : String) (version : ℕ) (v : UserView F) (s : Strategy F) (w : Writer F)
      (found : lookup u w.current.by_user ≡ some v) where
    pub current_of-move_to_paused :
        (u' id' : String)
        → current_of u' id' (move_to_paused u id version v s w)
          ≡ replaced u id (some s) (λ u id. current_of u id w) u' id'
    unfolding move_to_paused
    current_of-move_to_paused u' id' =
        current_of-commit u id u' id' (some s) _ v w _ (Changes-shelve id s v)
          (λ id. ap (find_in id) (sym found))

    pub current_of-move_to_active :
        (u' id' : String)
        → current_of u' id' (move_to_active u id version v s w)
          ≡ replaced u id
              (some (record s { active = true; version = version }))
              (λ u id. current_of u id w)
              u'
              id'
    unfolding move_to_active
    current_of-move_to_active u' id' =
        current_of-commit u id u' id' (some (record s { active = true; version = version })) _ v w _
          (Changes-put id (record s { active = true; version = version }) v)
          (λ id. ap (find_in id) (sym found))

  pub current_of-delete_in :
      (u id : String) (v : UserView F) (w : Writer F) (u' id' : String)
      → lookup u w.current.by_user ≡ some v
      → current_of u' id' (delete_in u id w (some v)).1
        ≡ replaced u id none (λ u id. current_of u id w) u' id'
  unfolding delete_in
  current_of-delete_in u id v w u' id' found =
      current_of-commit u id u' id' none _ v w w (Changes-drop id v)
        (λ id. ap (find_in id) (sym found))
