-- ===== src/Base/Sort.antt =====
-- The sorts of Go's `sort` package as an insertion sort: what `sort.Slice` runs on at most twelve
-- elements, and, for strings that differ, the only result that `sort.Strings` can have.
use Prim.Native.Nat.{Ordering}
use Prim.Native.String.{compare}
use mathlib.Core.Path.{subst}
use algo_treading.Base.{
  suc, ◌+◌, ◌≡◌, refl, ap, Bool, true, false, String, List, [], ◌∷◌, arith, length, All, In, sym,
  Bool-cases, inl, inr, if◌then◌else◌,
}

-- `sort.Slice`: an insertion sort, which is what it runs on at most twelve elements.
unfoldable pub place {ℓ} : {A : Type ℓ} → (A → A → Bool) → A → List A → List A
place less x [] = x ∷ []
place less x (y ∷ ys) = if less x y then x ∷ y ∷ ys else y ∷ place less x ys

unfoldable pub sort_from {ℓ} : {A : Type ℓ} → (A → A → Bool) → List A → List A → List A
unfolding place
sort_from less sorted [] = sorted
sort_from less sorted (x ∷ xs) = sort_from less (place less x sorted) xs

abbrev pub ltb_String : String → String → Bool
ltb_String a b = elim (compare a b) [ Ordering.lt ↦ true | _ ↦ false ]

unfoldable pub sort_strings : List String → List String
unfolding sort_from
sort_strings = sort_from ltb_String []

module _ {ℓ} {A : Type ℓ} (less : A → A → Bool) where
  length-place : (x : A) (ys : List A) → length (place less x ys) ≡ suc (length ys)
  unfolding place
  length-place x [] = refl
  length-place x (y ∷ ys) = elim (Bool-cases (less x y)) [
    | inl e ↦ rw e refl
    | inr e ↦ rw e (ap suc (length-place x ys))
  ]

  pub length-sort_from :
      (sorted xs : List A) → length (sort_from less sorted xs) ≡ length sorted + length xs
  unfolding sort_from
  length-sort_from sorted [] = omega arith
  length-sort_from sorted (x ∷ xs) =
      omega (arith, length-sort_from (place less x sorted) xs, length-place x sorted)

  In-place_self : (x : A) (ys : List A) → In x (place less x ys)
  unfolding place
  In-place_self x [] = inl refl
  In-place_self x (y ∷ ys) = elim (Bool-cases (less x y)) [
    | inl e ↦ rw e (inl refl)
    | inr e ↦ rw e (inr (In-place_self x ys))
  ]

  In-place_rest : (z x : A) (ys : List A) → In z ys → In z (place less x ys)
  unfolding place
  In-place_rest z x [] h = absurd h.1
  In-place_rest z x (y ∷ ys) h = elim (Bool-cases (less x y)) [
    | inl e ↦ rw e (inr h)
    | inr e ↦ rw e (elim h [ inl k ↦ inl k | inr k ↦ inr (In-place_rest z x ys k) ])
  ]

  In-sort_sorted : (z : A) (sorted xs : List A) → In z sorted → In z (sort_from less sorted xs)
  unfolding sort_from
  In-sort_sorted z sorted [] h = h
  In-sort_sorted z sorted (x ∷ xs) h =
      In-sort_sorted z (place less x sorted) xs (In-place_rest z x sorted h)

  pub In-sort_from : (z : A) (sorted xs : List A) → In z xs → In z (sort_from less sorted xs)
  unfolding sort_from
  In-sort_from z sorted [] h = absurd h.1
  In-sort_from z sorted (x ∷ xs) (inl e) =
      In-sort_sorted z (place less x sorted) xs
        (subst (λ y. In y (place less x sorted)) (sym e) (In-place_self x sorted))
  In-sort_from z sorted (x ∷ xs) (inr h) = In-sort_from z (place less x sorted) xs h

  module _ {κ} (P : A → Type κ) where
    All-place : (x : A) (ys : List A) → P x → All P ys → All P (place less x ys)
    unfolding place
    All-place x [] p a = (p, tt)
    All-place x (y ∷ ys) p (q, a) = elim (Bool-cases (less x y)) [
      | inl e ↦ rw e (p, (q, a))
      | inr e ↦ rw e (q, All-place x ys p a)
    ]

    pub All-sort_from :
        (sorted xs : List A) → All P sorted → All P xs → All P (sort_from less sorted xs)
    unfolding sort_from
    All-sort_from sorted [] a b = a
    All-sort_from sorted (x ∷ xs) a (p, b) =
        All-sort_from (place less x sorted) xs (All-place x sorted p a) b

pub In-sort_strings : (z : String) (xs : List String) → In z xs → In z (sort_strings xs)
unfolding sort_strings
In-sort_strings z xs h = In-sort_from ltb_String z [] xs h
