-- ===== src/MultiLevel/Split/Count.antt =====
-- computeRebalancedQtys gives one quantity for each percentage.
use algo_treading.Base.{
  ℕ, zero, suc, ◌≡◌, refl, ap, ◌∙◌, true, false, List, [], ◌∷◌, map, length, Bool-cases, inl, inr,
}
use algo_treading.Base.Int.{ℤ, pos, ◌+32◌, ◌-32◌, pos_part, neg_part, ltb_ℤ}
use algo_treading.Base.Float.{Float}
use algo_treading.Base.Sort.{sort_from}
use algo_treading.MultiLevel.Split.{
  Share, modify, adjust, candidates, qtys, sum32, share_of, correct_drift, compute_rebalanced_qtys,
}

length-map {ℓ κ} :
    {A : Type ℓ} {B : Type κ} (f : A → B) (xs : List A) → length (map f xs) ≡ length xs
length-map f [] = refl
length-map f (x ∷ xs) = ap suc (length-map f xs)

length-modify {ℓ} :
    {A : Type ℓ} (f : A → A) (i : ℕ) (xs : List A) → length (modify f i xs) ≡ length xs
unfolding modify
length-modify f i [] = refl
length-modify f zero (x ∷ xs) = refl
length-modify f (suc i) (x ∷ xs) = ap suc (length-modify f i xs)

length-adjust {ℓ κ} :
    {A : Type ℓ} {C : Type κ} (f : A → A) (n : ℕ) (cands : List (ℕ × C)) (xs : List A)
    → length (adjust f n cands xs) ≡ length xs
unfolding adjust
length-adjust f zero cands xs = refl
length-adjust f (suc n) [] xs = refl
length-adjust f (suc n) ((i, c) ∷ cands) xs =
    length-adjust f n cands (modify f i xs) ∙ length-modify f i xs

module _ {ℓ} {F : Type ℓ} ⦃f : Float F⦄ where
  length-correct_drift : (d : ℤ) (ss : List (Share F)) → length (correct_drift d ss) ≡ length ss
  unfolding correct_drift
  length-correct_drift d ss = elim (Bool-cases (ltb_ℤ (pos 0) d)) [
    | inl e ↦ rw e (
        length-adjust (λ q. q +32 pos 1) (pos_part d)
          (sort_from (λ a b. f.lt b.1 a.1) [] (candidates false 0 ss)) (qtys ss)
        ∙ length-map (λ s. s.qty) ss)
    | inr e ↦ elim (Bool-cases (ltb_ℤ d (pos 0))) [
      | inl k ↦
          rw (e, k)
            (length-adjust (λ q. q -32 pos 1) (neg_part d)
                (sort_from (λ a b. f.lt a.1 b.1) [] (candidates true 0 ss)) (qtys ss)
              ∙ length-map (λ s. s.qty) ss)
      | inr k ↦ rw (e, k) (length-map (λ s. s.qty) ss)
    ]
  ]

  pub length-compute_rebalanced_qtys :
      (ps : List F) (tot : F) (r : ℤ) → length (compute_rebalanced_qtys ps tot r) ≡ length ps
  unfolding compute_rebalanced_qtys
  length-compute_rebalanced_qtys ps tot r =
      length-correct_drift (r -32 sum32 (pos 0) (qtys (map (share_of tot r) ps)))
        (map (share_of tot r) ps)
      ∙ length-map (share_of tot r) ps
