-- ===== src/MultiLevel/Split/Adjust.antt =====
-- The corrections of computeRebalancedQtys: what the loop over the sorted candidates does to the sum.
use algo_treading.Base.{
  ℕ, zero, suc, ◌+◌, ◌-◌, ◌^◌, ◌≤◌, ◌<◌, ◌≡◌, refl, ap, ◌∙◌, ◌≢◌, Bool, List, [], ◌∷◌, map, arith,
  total, total-append, length, Bool-cases, inl, inr, sym,
}
use mathlib.Core.Path.{ap₂}
use mathlib.Core.List.{map-append, ◌++◌}
use algo_treading.Base.Int.{ℤ, pos, ◌+32◌, ◌-32◌, +32_pos, -32_pos}
use algo_treading.Base.Sort.{place, sort_from}
use algo_treading.MultiLevel.Split.{modify, adjust}

abbrev pub sum : List ℕ → ℕ
sum = total (λ n. n)

-- There is an element at the index, and it is at least `low`.
abbrev pub At : ℕ → ℕ → List ℕ → Type 0
At low i [] = ⊥
At low zero (x ∷ xs) = low ≤ x
At low (suc i) (x ∷ xs) = At low i xs

At-modify_ne :
    (g : ℕ → ℕ) (low i j : ℕ) (ns : List ℕ) → i ≢ j → At low j ns → At low j (modify g i ns)
unfolding modify
At-modify_ne g low i j [] d a = a
At-modify_ne g low zero zero (x ∷ xs) d a = absurd (d refl)
At-modify_ne g low zero (suc j) (x ∷ xs) d a = a
At-modify_ne g low (suc i) zero (x ∷ xs) d a = a
At-modify_ne g low (suc i) (suc j) (x ∷ xs) d a = At-modify_ne g low i j xs (λ e. d (ap suc e)) a

At-modify-suc : (i j : ℕ) (ns : List ℕ) → At 0 j ns → At 0 j (modify suc i ns)
unfolding modify
At-modify-suc i j [] a = a
At-modify-suc zero zero (x ∷ xs) a = omega arith
At-modify-suc zero (suc j) (x ∷ xs) a = a
At-modify-suc (suc i) zero (x ∷ xs) a = a
At-modify-suc (suc i) (suc j) (x ∷ xs) a = At-modify-suc i j xs a

modify_up :
    (i : ℕ) (ns : List ℕ)
    → At 0 i ns
    → sum ns + 1 < 2 ^ 31
    → (modify (λ q. q +32 pos 1) i (map pos ns) ≡ map pos (modify suc i ns))
      × (sum (modify suc i ns) ≡ sum ns + 1)
unfolding modify
modify_up i [] a h = absurd a
modify_up zero (x ∷ xs) a h =
    (rw (+32_pos x 1 (omega arith)) (ap (λ (t : ℕ). pos t ∷ map pos xs) (omega arith)), omega arith)
modify_up (suc i) (x ∷ xs) a h =
    let (same, more) = modify_up i xs a (omega arith) in (ap (◌∷◌ (pos x)) same, omega arith)

modify_down :
    (i : ℕ) (ns : List ℕ)
    → At 1 i ns
    → sum ns < 2 ^ 31
    → (modify (λ q. q -32 pos 1) i (map pos ns) ≡ map pos (modify (λ n. n - 1) i ns))
      × (sum (modify (λ n. n - 1) i ns) + 1 ≡ sum ns)
unfolding modify
modify_down i [] a h = absurd a
modify_down zero (x ∷ xs) a h = (rw (-32_pos x 1 (omega arith) a), omega arith)
modify_down (suc i) (x ∷ xs) a h =
    let (same, less) = modify_down i xs a (omega arith) in (ap (◌∷◌ (pos x)) same, omega arith)

-- The list holds naturals, and they add up to the number.
abbrev pub Sums : List ℤ → ℕ → Type 0
Sums qs n = (ns : List ℕ) × (qs ≡ map pos ns) × (sum ns ≡ n)

module _ {ℓ} {C : Type ℓ} where
  -- All the indices are in range, at elements that are at least `low`.
  abbrev pub AllAt : ℕ → List (ℕ × C) → List ℕ → Type 0
  AllAt low [] ns = Unit {0}
  AllAt low ((i, _) ∷ cands) ns = At low i ns × AllAt low cands ns

  abbrev pub Fresh : ℕ → List (ℕ × C) → Type 0
  Fresh i [] = Unit {0}
  Fresh i ((j, _) ∷ cands) = (i ≢ j) × Fresh i cands

  abbrev pub Distinct : List (ℕ × C) → Type 0
  Distinct [] = Unit {0}
  Distinct ((i, _) ∷ cands) = Fresh i cands × Distinct cands

  AllAt-modify-suc :
      (i : ℕ) (cands : List (ℕ × C)) (ns : List ℕ)
      → AllAt 0 cands ns
      → AllAt 0 cands (modify suc i ns)
  AllAt-modify-suc i [] ns a = tt
  AllAt-modify-suc i ((j, _) ∷ cands) ns a =
      (At-modify-suc i j ns a.0, AllAt-modify-suc i cands ns a.1)

  AllAt-modify_ne :
      (g : ℕ → ℕ) (low i : ℕ) (cands : List (ℕ × C)) (ns : List ℕ)
      → Fresh i cands
      → AllAt low cands ns
      → AllAt low cands (modify g i ns)
  AllAt-modify_ne g low i [] ns d a = tt
  AllAt-modify_ne g low i ((j, _) ∷ cands) ns d a =
      (At-modify_ne g low i j ns d.0 a.0, AllAt-modify_ne g low i cands ns d.1 a.1)

  pub adjust_up :
      (k : ℕ) (cands : List (ℕ × C)) (ns : List ℕ)
      → k ≤ length cands
      → AllAt 0 cands ns
      → sum ns + k < 2 ^ 31
      → Sums (adjust (λ q. q +32 pos 1) k cands (map pos ns)) (sum ns + k)
  unfolding adjust
  adjust_up zero cands ns h a b = (ns, refl, omega arith)
  adjust_up (suc k) [] ns h a b = absurd (omega arith)
  adjust_up (suc k) ((i, _) ∷ cands) ns h a b =
      let (same, more) = modify_up i ns a.0 (omega arith) in
      let (out, is_out, sum_out) =
        adjust_up k cands (modify suc i ns) (omega arith) (AllAt-modify-suc i cands ns a.1)
          (omega arith) in
      (out, rw same is_out, omega arith)

  pub adjust_down :
      (k : ℕ) (cands : List (ℕ × C)) (ns : List ℕ)
      → k ≤ length cands
      → AllAt 1 cands ns
      → Distinct cands
      → sum ns < 2 ^ 31
      → Sums (adjust (λ q. q -32 pos 1) k cands (map pos ns)) (sum ns - k)
  unfolding adjust
  adjust_down zero cands ns h a d b = (ns, refl, omega arith)
  adjust_down (suc k) [] ns h a d b = absurd (omega arith)
  adjust_down (suc k) ((i, _) ∷ cands) ns h a d b =
      let (same, less) = modify_down i ns a.0 b in
      let (out, is_out, sum_out) =
        adjust_down k cands (modify (λ n. n - 1) i ns) (omega arith)
          (AllAt-modify_ne (λ n. n - 1) 1 i cands ns d.0 a.1) d.1 (omega arith) in
      (out, rw same is_out, omega arith)

  -- Sorting keeps the number of candidates, their validity and their distinctness.
  module _ (less : ℕ × C → ℕ × C → Bool) where
    length-place : (x : ℕ × C) (ys : List (ℕ × C)) → length (place less x ys) ≡ suc (length ys)
    unfolding place
    length-place x [] = refl
    length-place x (y ∷ ys) = ground (arith, length-place x ys)

    AllAt-place :
        (low : ℕ) (ns : List ℕ) (x : ℕ × C) (ys : List (ℕ × C))
        → At low x.0 ns
        → AllAt low ys ns
        → AllAt low (place less x ys) ns
    unfolding place
    AllAt-place low ns x [] a as' = (a, tt)
    AllAt-place low ns x (y ∷ ys) a as' = ground (arith, AllAt-place low ns x ys a as'.1)

    Fresh-place :
        (i : ℕ) (x : ℕ × C) (ys : List (ℕ × C)) → i ≢ x.0 → Fresh i ys → Fresh i (place less x ys)
    unfolding place
    Fresh-place i x [] d f = (d, tt)
    Fresh-place i x (y ∷ ys) d f = ground (arith, Fresh-place i x ys d f.1)

    Distinct-place :
        (x : ℕ × C) (ys : List (ℕ × C)) → Fresh x.0 ys → Distinct ys → Distinct (place less x ys)
    unfolding place
    Distinct-place x [] f d = (tt, tt)
    Distinct-place x (y ∷ ys) f d = elim (Bool-cases (less x y)) [
      | inl e ↦ rw e (f, d)
      | inr e ↦ rw e (Fresh-place y.0 x ys (λ p. f.0 (sym p)) d.0, Distinct-place x ys f.1 d.1)
    ]

    pub length-sort_from :
        (sorted xs : List (ℕ × C)) → length (sort_from less sorted xs) ≡ length sorted + length xs
    unfolding sort_from
    length-sort_from sorted [] = omega arith
    length-sort_from sorted (x ∷ xs) =
        omega (arith, length-sort_from (place less x sorted) xs, length-place x sorted)

    pub AllAt-sort_from :
        (low : ℕ) (ns : List ℕ) (sorted xs : List (ℕ × C))
        → AllAt low sorted ns
        → AllAt low xs ns
        → AllAt low (sort_from less sorted xs) ns
    unfolding sort_from
    AllAt-sort_from low ns sorted [] a b = a
    AllAt-sort_from low ns sorted (x ∷ xs) a b =
        AllAt-sort_from low ns (place less x sorted) xs (AllAt-place low ns x sorted b.0 a) b.1

    -- No index of the one list stands in the other.
    abbrev Apart : List (ℕ × C) → List (ℕ × C) → Type 0
    Apart sorted [] = Unit {0}
    Apart sorted (x ∷ xs) = Fresh x.0 sorted × Apart sorted xs

    Apart-place :
        (x : ℕ × C) (sorted xs : List (ℕ × C))
        → Fresh x.0 xs
        → Apart sorted xs
        → Apart (place less x sorted) xs
    Apart-place x sorted [] f a = tt
    Apart-place x sorted (y ∷ ys) f a =
        (Fresh-place y.0 x sorted (λ p. f.0 (sym p)) a.0, Apart-place x sorted ys f.1 a.1)

    pub Distinct-sort_from :
        (sorted xs : List (ℕ × C))
        → Distinct sorted
        → Distinct xs
        → Apart sorted xs
        → Distinct (sort_from less sorted xs)
    unfolding sort_from
    Distinct-sort_from sorted [] d e a = d
    Distinct-sort_from sorted (x ∷ xs) d e a =
        Distinct-sort_from (place less x sorted) xs (Distinct-place x sorted a.0 d) e.1
          (Apart-place x sorted xs e.0 a.1)

    Apart-nil : (xs : List (ℕ × C)) → Apart [] xs
    Apart-nil [] = tt
    Apart-nil (x ∷ xs) = (tt, Apart-nil xs)

    pub Distinct-sort : (xs : List (ℕ × C)) → Distinct xs → Distinct (sort_from less [] xs)
    Distinct-sort xs d = Distinct-sort_from [] xs tt d (Apart-nil xs)

pub Sums-append : (ps qs : List ℤ) (m n : ℕ) → Sums ps m → Sums qs n → Sums (ps ++ qs) (m + n)
Sums-append ps qs m n (as', e, s) (bs, e', s') = (
  as' ++ bs,
  ap₂ ◌++◌ e e' ∙ sym (map-append pos as' bs),
  total-append (λ x. x) as' bs ∙ ap₂ ◌+◌ s s',
)
