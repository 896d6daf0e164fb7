-- ===== src/Base/Dict.antt =====
-- A Go map with string keys, as an association list that holds each key once; a new entry goes first.
use algo_treading.Base.{
  String, ◌==◌, eq_iff, ◌≡◌, refl, List, [], ◌∷◌, Option, none, some, arith, if◌then◌else◌,
  Bool-cases, inl, inr, ◌∙◌,
}

abbrev pub Dict {ℓ} : Type ℓ → Type ℓ
Dict V = List (String × V)

module _ {ℓ} {V : Type ℓ} where
  -- `delete(m, k)`.
  unfoldable pub delete : String → Dict V → Dict V
  delete k [] = []
  delete k (entry ∷ entries) =
      let others = delete k entries in if entry.0 == k then others else entry ∷ others

  -- `m[k] = v`.
  unfoldable pub insert : String → V → Dict V → Dict V
  unfolding delete
  insert k v entries = (k, v) ∷ delete k entries

  -- `v, ok := m[k]`.
  unfoldable pub lookup : String → Dict V → Option V
  lookup k [] = none
  lookup k (entry ∷ entries) = if entry.0 == k then some entry.1 else lookup k entries

  pub lookup-delete :
      (gone k : String) (entries : Dict V)
      → lookup k (delete gone entries) ≡ (if gone == k then none else lookup k entries)
  unfolding lookup delete
  lookup-delete gone k [] = ground arith
  lookup-delete gone k (entry ∷ entries) =
      ground
        (arith, eq_iff gone k, eq_iff entry.0 gone, eq_iff entry.0 k, lookup-delete gone k entries)

  pub lookup-insert :
      (new k : String) (v : V) (entries : Dict V)
      → lookup k (insert new v entries) ≡ (if new == k then some v else lookup k entries)
  unfolding lookup insert
  lookup-insert new k v entries = elim (Bool-cases (new == k)) [
    | inl e ↦ rw e refl
    | inr e ↦ rw e (lookup-delete new k entries ∙ rw e refl)
  ]
