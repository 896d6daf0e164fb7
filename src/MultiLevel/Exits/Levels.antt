-- ===== src/MultiLevel/Exits/Levels.antt =====
-- What triggering and rebalancing do to the quantities of the active levels.
use algo_treading.Base.{
  ℕ, suc, ◌+◌, ◌-◌, ◌≤◌, ◌<◌, ◌^◌, ◌≡◌, refl, ap, sym, ◌∙◌, ◌≢◌, inl, inr, Bool, true, false, ◌&&◌,
  List, [], ◌∷◌, Option, none, some, arith, length, total, All, Bool-cases, if◌then◌else◌,
}
use mathlib.Core.Path.{subst}
use algo_treading.Base.Int.{ℤ, pos}
use algo_treading.Base.Float.{Float}
use algo_treading.MultiLevel.Split.{LevelConfig, compute_rebalanced_qtys}
use algo_treading.MultiLevel.Split.Adjust.{Sums}
use algo_treading.MultiLevel.Split.Count.{length-compute_rebalanced_qtys}
use algo_treading.MultiLevel.Split.Rebalanced.{AreExactShares, compute_rebalanced_qtys-Sums}
use algo_treading.MultiLevel.Types.{LevelStatus, Level, is_active, nought}
use algo_treading.MultiLevel.Rebalance.{
  qty_pct_of, takes_part, active_pcts, sum_pcts, assign_qtys, rebalance_levels,
}
use algo_treading.MultiLevel.Exits.{trigger_first}
use algo_treading.MultiLevel.Effects.{skip, is_nil}

pub Sums-uncons :
    (z : ℤ) (zs : List ℤ) (n : ℕ)
    → Sums (z ∷ zs) n
    → (q : ℕ) × (z ≡ pos q) × (q ≤ n) × Sums zs (n - q)
Sums-uncons z zs n ([], e, s) = cc
Sums-uncons z zs n (q ∷ ns, e, s) = (q, cc, omega arith, (ns, cc, omega arith))

pub Sums-cons : (q : ℕ) (zs : List ℤ) (n : ℕ) → q ≤ n → Sums zs (n - q) → Sums (pos q ∷ zs) n
Sums-cons q zs n h (ns, e, s) = (q ∷ ns, cc e, omega arith)

length-nil : (zs : List ℤ) → 0 ≡ length zs → zs ≡ []
length-nil [] e = refl
length-nil (z ∷ zs) e = absurd (omega arith)

is_nil-ne {ℓ} : {A : Type ℓ} (xs : List A) → xs ≢ [] → is_nil xs ≡ false
is_nil-ne [] h = absurd (h refl)
is_nil-ne (x ∷ xs) h = refl

pub Sums-nil : (n : ℕ) → Sums [] n → n ≡ 0
Sums-nil n ([], e, s) = omega arith
Sums-nil n (q ∷ ns, e, s) = cc

module _ {ℓ} {F : Type ℓ} ⦃f : Float F⦄ where
  unfoldable pub active_qtys : List (Level F) → List ℤ
  active_qtys [] = []
  active_qtys (l ∷ ls) =
      let rest = active_qtys ls in if is_active l.status then l.exit_qty ∷ rest else rest

  abbrev pub triggered : Level F → F → Level F
  triggered l ltp = record l { status = LevelStatus.triggered; exit_price = ltp }

  abbrev pub ready : (F → Bool) → Level F → Bool
  ready met l = is_active l.status && met l.trigger_price

  -- The first ready level is hit, and nothing else changes.
  pub data Hit (met : F → Bool) (ltp : F) : List (Level F) → Level F → List (Level F) → Type ℓ where
    here :
        (l : Level F) (ls : List (Level F))
        → is_active l.status ≡ true
        → met l.trigger_price ≡ true
        → Hit met ltp (l ∷ ls) (triggered l ltp) (triggered l ltp ∷ ls)
    there :
        (l : Level F) {ls : List (Level F)} {hit : Level F} {rest : List (Level F)}
        → ready met l ≡ false
        → Hit met ltp ls hit rest
        → Hit met ltp (l ∷ ls) hit (l ∷ rest)

  abbrev pub Found : (F → Bool) → F → List (Level F) → Option (Level F × List (Level F)) → Type ℓ
  Found met ltp ls none = Unit
  Found met ltp ls (some (hit, rest)) = Hit met ltp ls hit rest

  skip-Found :
      (met : F → Bool) (ltp : F) (l : Level F) (ls : List (Level F))
      (r : Option (Level F × List (Level F)))
      → ready met l ≡ false
      → Found met ltp ls r
      → Found met ltp (l ∷ ls) (skip l r)
  skip-Found met ltp l ls none e h = tt
  skip-Found met ltp l ls (some (hit, rest)) e h = there l e h

  pub trigger_first-Found :
      (met : F → Bool) (ltp : F) (ls : List (Level F)) → Found met ltp ls (trigger_first met ltp ls)
  unfolding trigger_first
  trigger_first-Found met ltp [] = tt
  trigger_first-Found met ltp (l ∷ ls) = elim (Bool-cases (is_active l.status)) [
    | inl a ↦ elim (Bool-cases (met l.trigger_price)) [
      | inl m ↦ rw (a, m) (here l ls a m)
      | inr m ↦
          rw (a, m) (skip-Found met ltp l ls _ (ground arith) (trigger_first-Found met ltp ls))
    ]
    | inr a ↦ rw a (skip-Found met ltp l ls _ (ground arith) (trigger_first-Found met ltp ls))
  ]

  pub active_qtys-nil : (ls : List (Level F)) → 0 ≡ length (active_qtys ls) → active_qtys ls ≡ []
  active_qtys-nil ls e = length-nil (active_qtys ls) e

  -- A level that is hit takes its quantity out of the sum.
  pub Hit-Sums :
      {met : F → Bool} {ltp : F} {ls : List (Level F)} {hit : Level F} {rest : List (Level F)}
      (n : ℕ)
      → Hit met ltp ls hit rest
      → Sums (active_qtys ls) n
      → (q : ℕ) × (hit.exit_qty ≡ pos q) × (q ≤ n) × Sums (active_qtys rest) (n - q)
  unfolding active_qtys
  Hit-Sums n (here l ls a m) s = Sums-uncons l.exit_qty (active_qtys ls) n (rw a at s)
  Hit-Sums n (there l {ls = ls} {rest = rest} e h) s = elim (Bool-cases (is_active l.status)) [
    | inl a ↦
        let (q, is_q, q_le, s') = Sums-uncons l.exit_qty (active_qtys ls) n (rw a at s) in
        let (p, is_p, p_le, s'') = Hit-Sums (n - q) h s' in
        (
          p,
          is_p,
          omega arith,
          rw (a, is_q)
              (Sums-cons q (active_qtys rest) (n - p) (omega arith)
                (let swap : n - q - p ≡ n - p - q = omega arith in rw (← swap) s'')),
        )
    | inr a ↦ rw a (Hit-Sums n h (rw a at s))
  ]

  -- Every level has a percentage of the kind.
  abbrev pub Known {κ} : (F → Type κ) → List (LevelConfig F) → List (Level F) → Type κ
  Known IsPct configs [] = Unit
  Known IsPct configs (l ∷ ls) = IsPct (qty_pct_of configs l.level_num) × Known IsPct configs ls

  pub Hit-Known {κ} :
      (IsPct : F → Type κ) (configs : List (LevelConfig F)) {met : F → Bool} {ltp : F}
      {ls : List (Level F)} {hit : Level F} {rest : List (Level F)}
      → Hit met ltp ls hit rest
      → Known IsPct configs ls
      → Known IsPct configs rest
  Hit-Known IsPct configs (here l ls a m) k = k
  Hit-Known IsPct configs (there l e h) k = (k.0, Hit-Known IsPct configs h k.1)

  active_qtys-length : (ls : List (Level F)) → length (active_qtys ls) ≤ length ls
  unfolding active_qtys
  active_qtys-length [] = omega arith
  active_qtys-length (l ∷ ls) = ground (arith, active_qtys-length ls)

  pub Hit-length :
      {met : F → Bool} {ltp : F} {ls : List (Level F)} {hit : Level F} {rest : List (Level F)}
      → Hit met ltp ls hit rest
      → length rest ≡ length ls
  Hit-length (here l ls a m) = refl
  Hit-length (there l e h) = ap suc (Hit-length h)

  assign_qtys-length :
      (configs : List (LevelConfig F)) (ls : List (Level F)) (qs : List ℤ)
      → length (assign_qtys configs ls qs) ≡ length ls
  unfolding assign_qtys
  assign_qtys-length configs [] qs = refl
  assign_qtys-length configs (l ∷ ls) [] = refl
  assign_qtys-length configs (l ∷ ls) (q ∷ qs) = elim (Bool-cases (takes_part configs l)) [
    | inl e ↦ rw e (ap suc (assign_qtys-length configs ls qs))
    | inr e ↦ rw e (ap suc (assign_qtys-length configs ls (q ∷ qs)))
  ]

  pub assign_qtys-Known {κ} :
      (IsPct : F → Type κ) (configs : List (LevelConfig F)) (ls : List (Level F)) (qs : List ℤ)
      → Known IsPct configs ls
      → Known IsPct configs (assign_qtys configs ls qs)
  unfolding assign_qtys
  assign_qtys-Known IsPct configs [] qs k = tt
  assign_qtys-Known IsPct configs (l ∷ ls) [] k = k
  assign_qtys-Known IsPct configs (l ∷ ls) (q ∷ qs) k = elim (Bool-cases (takes_part configs l)) [
    | inl e ↦ rw e (k.0, assign_qtys-Known IsPct configs ls qs k.1)
    | inr e ↦ rw e (k.0, assign_qtys-Known IsPct configs ls (q ∷ qs) k.1)
  ]

module _ {ℓ} {F : Type ℓ} ⦃f : Float F⦄ where
  -- Weights for which the float computation of each share of `r` is exact.
  pub record Shares (r : ℕ) (ps : List F) : Type 0 where
    pub whole : ℕ
    pub weights : List ℕ
    pub positive : 0 < whole
    pub adds : total (λ w. w) weights ≡ whole
    pub count : length weights ≡ length ps
    pub are_exact : AreExactShares (sum_pcts nought ps) r whole ps weights

-- What the proofs use of the floats: percentages of the kind are positive, so are their sums, and each
-- share that is computed with them is that of a fraction.
pub record Splits {ℓ κ} {F : Type ℓ} ⦃f : Float F⦄ (IsPct : F → Type κ) : Type (ℓ ⊔ κ) where
  pub positive : (p : F) → IsPct p → f.le p nought ≡ false
  pub sum_positive :
      (ps : List F) → ps ≢ [] → All IsPct ps → f.le (sum_pcts nought ps) nought ≡ false
  pub shares : (ps : List F) (r : ℕ) → ps ≢ [] → All IsPct ps → Shares r ps

module _ {ℓ κ} {F : Type ℓ} ⦃f : Float F⦄ {IsPct : F → Type κ} (splits : Splits IsPct) where
  parts :
      (ps : List F) (r : ℕ)
      → ps ≢ []
      → All IsPct ps
      → r + length ps < 2 ^ 31
      → Sums (compute_rebalanced_qtys ps (sum_pcts nought ps) (pos r)) r
  parts ps r ne all fits =
      let s = splits.shares ps r ne all in
      compute_rebalanced_qtys-Sums ps (sum_pcts nought ps) s.weights r s.whole s.positive s.adds
        s.are_exact (omega (arith, s.count))

  takes_part-active :
      (configs : List (LevelConfig F)) (l : Level F)
      → IsPct (qty_pct_of configs l.level_num)
      → takes_part configs l ≡ is_active l.status
  unfolding takes_part
  takes_part-active configs l k = rw (splits.positive _ k) (ground arith)

  -- As many percentages as active levels, all of the kind.
  active_pcts_lem :
      (configs : List (LevelConfig F)) (ls : List (Level F))
      → Known IsPct configs ls
      → (length (active_pcts configs ls) ≡ length (active_qtys ls))
        × All IsPct (active_pcts configs ls)
  unfolding active_pcts active_qtys
  active_pcts_lem configs [] k = (refl, tt)
  active_pcts_lem configs (l ∷ ls) (k, ks) =
      let (len, all) = active_pcts_lem configs ls ks in
      rw (takes_part-active configs l k) (elim (Bool-cases (is_active l.status)) [
        | inl a ↦ rw a (ap suc len, (k, all))
        | inr a ↦ rw a (len, all)
      ])

  -- The new quantities are those of the active levels.
  active_qtys-assign_qtys :
      (configs : List (LevelConfig F)) (ls : List (Level F)) (qs : List ℤ)
      → Known IsPct configs ls
      → length qs ≡ length (active_qtys ls)
      → active_qtys (assign_qtys configs ls qs) ≡ qs
  unfolding active_qtys assign_qtys
  active_qtys-assign_qtys configs [] [] k e = refl
  active_qtys-assign_qtys configs [] (q ∷ qs) k e = absurd (omega arith)
  active_qtys-assign_qtys configs (l ∷ ls) [] (k, ks) e = elim (Bool-cases (is_active l.status)) [
    | inl a ↦ absurd (let no_room : 0 ≡ suc (length (active_qtys ls)) = rw a at e in omega arith)
    | inr a ↦
        rw a (
          active_qtys-nil ls (let none_left : 0 ≡ length (active_qtys ls) = rw a at e in none_left))
  ]
  active_qtys-assign_qtys configs (l ∷ ls) (q ∷ qs) (k, ks) e =
      rw (takes_part-active configs l k) (elim (Bool-cases (is_active l.status)) [
        | inl a ↦
            let fits : suc (length qs) ≡ suc (length (active_qtys ls)) = rw a at e in
            rw (a, a) (ap (◌∷◌ q) (active_qtys-assign_qtys configs ls qs ks (omega arith)))
        | inr a ↦
            let fits : length (q ∷ qs) ≡ length (active_qtys ls) = rw a at e in
            rw (a, a) (active_qtys-assign_qtys configs ls (q ∷ qs) ks fits)
      ])

  -- A side that covers something covers, after the division, exactly the quantity divided.
  pub rebalance_levels-Sums :
      (configs : List (LevelConfig F)) (ls : List (Level F)) (n r : ℕ)
      → Known IsPct configs ls
      → Sums (active_qtys ls) n
      → 0 < n
      → r + length ls < 2 ^ 31
      → Sums (active_qtys (rebalance_levels configs (pos r) ls)) r
        × Known IsPct configs (rebalance_levels configs (pos r) ls)
        × (length (rebalance_levels configs (pos r) ls) ≡ length ls)
  unfolding rebalance_levels
  rebalance_levels-Sums configs ls n r k s pos_n fits =
      let pcts = active_pcts configs ls in
      let (len, all) = active_pcts_lem configs ls k in
      let some_active : pcts ≢ [] = λ e.
        let no_pct : 0 ≡ length pcts = ap length (sym e) in
        let nothing : n ≡ 0 =
          Sums-nil n (subst (λ zs. Sums zs n) (active_qtys-nil ls (no_pct ∙ len)) s) in
        omega arith in
      let bound = active_qtys-length ls in
      let qs = compute_rebalanced_qtys pcts (sum_pcts nought pcts) (pos r) in
      let count = length-compute_rebalanced_qtys pcts (sum_pcts nought pcts) (pos r) in
      rw (is_nil-ne pcts some_active, splits.sum_positive pcts some_active all)
        (
          subst (λ zs. Sums zs r) (sym (active_qtys-assign_qtys configs ls qs k (count ∙ len)))
              (parts pcts r some_active all (omega arith)),
          assign_qtys-Known IsPct configs ls qs k,
          assign_qtys-length configs ls qs,
        )
