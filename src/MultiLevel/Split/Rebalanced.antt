-- ===== src/MultiLevel/Split/Rebalanced.antt =====
-- computeRebalancedQtys: after the correction of the drift the parts add up to the remaining quantity.
use algo_treading.Base.{
  ℕ, suc, ◌+◌, ◌-◌, ◌*◌, ◌/◌, ◌^◌, ◌<◌, ◌≡◌, refl, ap, ◌∙◌, sym, true, false, List, [], ◌∷◌, map,
  arith, total, length, Bool-cases, inl, inr,
}
use algo_treading.Base.Int.{
  pos, ◌+32◌, ◌-32◌, +32_pos, -32_pos, -32_neg, wrap32_id, negsuc, wrap32, wrap32_id,
}
use mathlib.Core.Path.{subst}
use native.Mathlib.Decide.{dec_lt}
use algo_treading.Base.Float.{Float}
use algo_treading.Base.Sort.{sort_from}
use algo_treading.MultiLevel.Split.{
  Share, round_share, adjust, share_of, candidates, qtys, sum32, correct_drift,
  compute_rebalanced_qtys,
}
use algo_treading.MultiLevel.Split.Drift.{rounds_up, rounded, ups, downs, drift_bounds, total-ups}
use algo_treading.MultiLevel.Split.Adjust.{
  sum, At, AllAt, Fresh, Distinct, Sums, adjust_up, adjust_down, length-sort_from, AllAt-sort_from,
  Distinct-sort,
}

sum32-pos :
    (a : ℕ) (ns : List ℕ) → a + sum ns < 2 ^ 31 → sum32 (pos a) (map pos ns) ≡ pos (a + sum ns)
unfolding sum32
sum32-pos a [] h = ap pos (omega arith)
sum32-pos a (n ∷ ns) h =
    rw (+32_pos a n (omega arith), sum32)
      (sum32-pos (a + n) ns (omega arith) ∙ ap pos (omega arith))

sum-map : (g : ℕ → ℕ) (ws : List ℕ) → sum (map g ws) ≡ total g ws
sum-map g [] = refl
sum-map g (w ∷ ws) = omega (arith, sum-map g ws)

module _ {ℓ} {F : Type ℓ} ⦃f : Float F⦄ where
  open f use {of_int, ratio, sub, mul, div, floor, to_int, lt, le}

  -- The float computation of a share is exact: its floor and its comparison with one half are those
  -- of the fraction `r * w / whole`.
  abbrev pub IsExactShare : F → ℕ → ℕ → F → ℕ → Type 0
  IsExactShare tot r whole p w =
      let raw = div (mul (of_int (pos r)) p) tot in
      (to_int (floor raw) ≡ pos (r * w / whole))
      × (le (ratio 5 10) (sub raw (floor raw)) ≡ rounds_up r whole w)

  abbrev pub AreExactShares : F → ℕ → ℕ → List F → List ℕ → Type 0
  AreExactShares tot r whole [] [] = Unit {0}
  AreExactShares tot r whole (p ∷ ps) (w ∷ ws) =
      IsExactShare tot r whole p w × AreExactShares tot r whole ps ws
  AreExactShares tot r whole _ _ = ⊥

  abbrev Agrees : ℕ → ℕ → Share F → ℕ → Type 0
  Agrees r whole s w = (s.qty ≡ pos (rounded r whole w)) × (s.up ≡ rounds_up r whole w)

  abbrev AllAgree : ℕ → ℕ → List (Share F) → List ℕ → Type 0
  AllAgree r whole [] [] = Unit {0}
  AllAgree r whole (s ∷ ss) (w ∷ ws) = Agrees r whole s w × AllAgree r whole ss ws
  AllAgree r whole _ _ = ⊥

  round_share-Agrees :
      (r whole w : ℕ) (x : F)
      → rounded r whole w < 2 ^ 31
      → Agrees r whole (round_share (rounds_up r whole w) (wrap32 (pos (r * w / whole))) x) w
  unfolding round_share
  round_share-Agrees r whole w x h = elim (Bool-cases (rounds_up r whole w)) [
    | inl e ↦
        let small : r * w / whole + 1 < 2 ^ 31 = rw e at h in
        rw (e, wrap32_id (pos (r * w / whole)) (omega arith))
          (+32_pos (r * w / whole) 1 small, refl)
    | inr e ↦
        let small : r * w / whole < 2 ^ 31 = rw e at h in
        rw (e, wrap32_id (pos (r * w / whole)) (omega arith)) (refl, refl)
  ]

  share_of-Agrees :
      (tot : F) (r whole : ℕ) (p : F) (w : ℕ)
      → IsExactShare tot r whole p w
      → rounded r whole w < 2 ^ 31
      → Agrees r whole (share_of tot (pos r) p) w
  unfolding share_of
  share_of-Agrees tot r whole p w (whole_part, half) h =
      rw (half, whole_part) (round_share-Agrees r whole w _ h)

  shares-AllAgree :
      (tot : F) (r whole : ℕ) (ps : List F) (ws : List ℕ)
      → AreExactShares tot r whole ps ws
      → total (rounded r whole) ws < 2 ^ 31
      → AllAgree r whole (map (share_of tot (pos r)) ps) ws
  shares-AllAgree tot r whole [] [] e h = tt
  shares-AllAgree tot r whole [] (w ∷ ws) e h = absurd e
  shares-AllAgree tot r whole (p ∷ ps) [] e h = absurd e
  shares-AllAgree tot r whole (p ∷ ps) (w ∷ ws) (e, es) h = (
    share_of-Agrees tot r whole p w e (omega arith),
    shares-AllAgree tot r whole ps ws es (omega arith),
  )

  qtys-AllAgree :
      (r whole : ℕ) (ss : List (Share F)) (ws : List ℕ)
      → AllAgree r whole ss ws
      → qtys ss ≡ map pos (map (rounded r whole) ws)
  qtys-AllAgree r whole [] [] a = refl
  qtys-AllAgree r whole [] (w ∷ ws) a = absurd a
  qtys-AllAgree r whole (s ∷ ss) [] a = absurd a
  qtys-AllAgree r whole (s ∷ ss) (w ∷ ws) a = cc (a.0.0, qtys-AllAgree r whole ss ws a.1)

  -- The indices count from `i`, and stand at elements that are at least `low`.
  abbrev AllFrom : ℕ → ℕ → List (ℕ × F) → List ℕ → Type 0
  AllFrom low i [] ns = Unit {0}
  AllFrom low i ((j, _) ∷ cands) ns = ((k : ℕ) × (j ≡ i + k) × At low k ns) × AllFrom low i cands ns

  AllFrom-suc :
      (low i n : ℕ) (cands : List (ℕ × F)) (ns : List ℕ)
      → AllFrom low (suc i) cands ns
      → AllFrom low i cands (n ∷ ns)
  AllFrom-suc low i n [] ns a = tt
  AllFrom-suc low i n ((j, _) ∷ cands) ns ((k, e, at), a) =
      ((suc k, omega arith, at), AllFrom-suc low i n cands ns a)

  AllFrom-zero :
      (low : ℕ) (cands : List (ℕ × F)) (ns : List ℕ) → AllFrom low 0 cands ns → AllAt low cands ns
  AllFrom-zero low [] ns a = tt
  AllFrom-zero low ((j, _) ∷ cands) ns ((k, e, at), a) =
      let same : j ≡ k = omega arith in (rw same at, AllFrom-zero low cands ns a)

  AllFrom-Fresh :
      (low i : ℕ) (cands : List (ℕ × F)) (ns : List ℕ)
      → AllFrom low (suc i) cands ns
      → Fresh i cands
  AllFrom-Fresh low i [] ns a = tt
  AllFrom-Fresh low i ((j, _) ∷ cands) ns ((k, e, at), a) =
      (omega arith, AllFrom-Fresh low i cands ns a)

  -- The floored shares are candidates for an increment.
  down_candidates :
      (r whole i : ℕ) (ss : List (Share F)) (ws : List ℕ)
      → AllAgree r whole ss ws
      → (length (candidates false i ss) ≡ total (downs r whole) ws)
        × AllFrom 0 i (candidates false i ss) (map (rounded r whole) ws)
  unfolding candidates
  down_candidates r whole i [] [] a = (refl, tt)
  down_candidates r whole i [] (w ∷ ws) a = absurd a
  down_candidates r whole i (s ∷ ss) [] a = absurd a
  down_candidates r whole i (s ∷ ss) (w ∷ ws) ((q, u), a) =
      let (len, all) = down_candidates r whole (suc i) ss ws a in
      let later =
        λ (n : ℕ). AllFrom-suc 0 i n (candidates false (suc i) ss) (map (rounded r whole) ws) all in
      elim (Bool-cases (rounds_up r whole w)) [
        | inl e ↦ rw (u, e) (omega arith, later (r * w / whole + 1))
        | inr e ↦ rw (u, e) (omega arith, ((0, omega arith, omega arith), later (r * w / whole)))
      ]

  -- The shares that were rounded up are candidates for a decrement, at distinct indices.
  up_candidates :
      (r whole i : ℕ) (ss : List (Share F)) (ws : List ℕ)
      → AllAgree r whole ss ws
      → (length (candidates true i ss) ≡ total (ups r whole) ws)
        × AllFrom 1 i (candidates true i ss) (map (rounded r whole) ws)
        × Distinct (candidates true i ss)
  unfolding candidates
  up_candidates r whole i [] [] a = (refl, tt, tt)
  up_candidates r whole i [] (w ∷ ws) a = absurd a
  up_candidates r whole i (s ∷ ss) [] a = absurd a
  up_candidates r whole i (s ∷ ss) (w ∷ ws) ((q, u), a) =
      let (len, all, apart) = up_candidates r whole (suc i) ss ws a in
      let later =
        λ (n : ℕ). AllFrom-suc 1 i n (candidates true (suc i) ss) (map (rounded r whole) ws) all in
      let fresh = AllFrom-Fresh 1 i (candidates true (suc i) ss) (map (rounded r whole) ws) all in
      elim (Bool-cases (rounds_up r whole w)) [
        | inl e ↦
            rw (u, e)
              (
                omega arith,
                ((0, omega arith, omega arith), later (r * w / whole + 1)),
                (fresh, apart),
              )
        | inr e ↦ rw (u, e) (omega arith, later (r * w / whole), apart)
      ]

  abbrev floored : List (Share F) → List (ℕ × F)
  floored ss = sort_from (λ a b. lt b.1 a.1) [] (candidates false 0 ss)

  abbrev raised : List (Share F) → List (ℕ × F)
  raised ss = sort_from (λ a b. lt a.1 b.1) [] (candidates true 0 ss)

  correct_drift-up :
      (d : ℕ) (ss : List (Share F))
      → 0 < d
      → correct_drift (pos d) ss ≡ adjust (λ q. q +32 pos 1) d (floored ss) (qtys ss)
  unfolding correct_drift
  correct_drift-up d ss h = ground arith

  correct_drift-down :
      (d : ℕ) (ss : List (Share F))
      → correct_drift (negsuc d) ss ≡ adjust (λ q. q -32 pos 1) (suc d) (raised ss) (qtys ss)
  unfolding correct_drift
  correct_drift-down d ss = ground arith

  correct_drift-none : (ss : List (Share F)) → correct_drift (pos 0) ss ≡ qtys ss
  unfolding correct_drift
  correct_drift-none ss = refl

  module _ (r whole : ℕ) (ss : List (Share F)) (ws : List ℕ) (positive : 0 < whole)
      (weights : total (λ w. w) ws ≡ whole) (agree : AllAgree r whole ss ws)
      (small : total (rounded r whole) ws < 2 ^ 31) (fits : r < 2 ^ 31) where
    up_Sums :
        (d : ℕ) → 0 < d → total (rounded r whole) ws + d ≡ r → Sums (correct_drift (pos d) ss) r
    up_Sums d h e =
        let ns = map (rounded r whole) ws in
        let (len, all) = down_candidates r whole 0 ss ws agree in
        let sorted = length-sort_from (λ a b. lt b.1 a.1) [] (candidates false 0 ss) in
        let drift = (drift_bounds r whole positive ws weights).0 in
        let adds = sum-map (rounded r whole) ws in
        let (out, is_out, sum_out) =
          adjust_up d (floored ss) ns (omega arith)
            (AllAt-sort_from (λ a b. lt b.1 a.1) 0 ns [] (candidates false 0 ss) tt
              (AllFrom-zero 0 (candidates false 0 ss) ns all))
            (omega arith) in
        (
          out,
          correct_drift-up d ss h
              ∙ ap (adjust (λ q. q +32 pos 1) d (floored ss)) (qtys-AllAgree r whole ss ws agree)
              ∙ is_out,
          omega arith,
        )

    down_Sums :
        (d : ℕ) → total (rounded r whole) ws ≡ r + suc d → Sums (correct_drift (negsuc d) ss) r
    down_Sums d e =
        let ns = map (rounded r whole) ws in
        let (len, all, apart) = up_candidates r whole 0 ss ws agree in
        let sorted = length-sort_from (λ a b. lt a.1 b.1) [] (candidates true 0 ss) in
        let drift = (drift_bounds r whole positive ws weights).1 in
        let adds = sum-map (rounded r whole) ws in
        let (out, is_out, sum_out) =
          adjust_down (suc d) (raised ss) ns (omega arith)
            (AllAt-sort_from (λ a b. lt a.1 b.1) 1 ns [] (candidates true 0 ss) tt
              (AllFrom-zero 1 (candidates true 0 ss) ns all))
            (Distinct-sort (λ a b. lt a.1 b.1) (candidates true 0 ss) apart) (omega arith) in
        (
          out,
          correct_drift-down d ss
              ∙ ap (adjust (λ q. q -32 pos 1) (suc d) (raised ss))
                  (qtys-AllAgree r whole ss ws agree)
              ∙ is_out,
          omega arith,
        )

    correct_drift-Sums : Sums (correct_drift (pos r -32 pos (total (rounded r whole) ws)) ss) r
    correct_drift-Sums = elim (dec_lt s r) [
      | yes less ↦ rw (-32_pos r s fits (omega arith)) (up_Sums (r - s) (omega arith) (omega arith))
      | no most ↦ elim (dec_lt r s) [
        | yes less ↦ rw (-32_neg r s small less) (down_Sums (s - r - 1) (omega arith))
        | no same ↦
            let equal : s ≡ r = omega arith in
            rw (-32_pos r s fits (omega arith)) (
              map (rounded r whole) ws,
              (let nought : r - s ≡ 0 = omega arith in
                  rw nought (correct_drift-none ss ∙ qtys-AllAgree r whole ss ws agree)),
              sum-map (rounded r whole) ws ∙ equal,
            )
      ]
    ]
      where
        s : ℕ
        s = total (rounded r whole) ws

  -- If each share is computed exactly for weights that add up to `whole`, then the parts are not
  -- negative and they add up to the remaining quantity, as long as nothing leaves the int32 range.
  pub compute_rebalanced_qtys-Sums :
      (pcts : List F) (tot : F) (ws : List ℕ) (r whole : ℕ)
      → 0 < whole
      → total (λ w. w) ws ≡ whole
      → AreExactShares tot r whole pcts ws
      → r + length ws < 2 ^ 31
      → Sums (compute_rebalanced_qtys pcts tot (pos r)) r
  unfolding compute_rebalanced_qtys
  compute_rebalanced_qtys-Sums pcts tot ws r whole positive weights exact fits =
      let bound = (drift_bounds r whole positive ws weights).1 in
      let few = total-ups r whole ws in
      let agree = shares-AllAgree tot r whole pcts ws exact (omega arith) in
      let adds = sum-map (rounded r whole) ws in
      let values = qtys-AllAgree r whole (map (share_of tot (pos r)) pcts) ws agree in
      let summed =
        ap (sum32 (pos 0)) values
        ∙ sum32-pos 0 (map (rounded r whole) ws) (omega arith)
        ∙ ap pos (
            let t : 0 + sum (map (rounded r whole) ws) ≡ total (rounded r whole) ws = omega arith in
            t) in
      subst (λ z. Sums (correct_drift (pos r -32 z) (map (share_of tot (pos r)) pcts)) r)
        (sym summed)
        (correct_drift-Sums r whole (map (share_of tot (pos r)) pcts) ws positive weights agree
          (omega arith) (omega arith))
