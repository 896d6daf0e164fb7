-- ===== src/MultiLevel/Split.antt =====
-- services/trade-execution/internal/multilevel/manager.go: how a quantity is divided over the exit
-- levels, first on the entry fill and again whenever a level has taken its part.
pub mod Initial
pub mod Drift
pub mod Adjust
pub mod Rebalanced
pub mod Whole
pub mod Count
use algo_treading.Base.{ℕ, zero, suc, ◌+◌, Bool, true, false, List, [], ◌∷◌, map, if◌then◌else◌}
use algo_treading.Base.Int.{
  ℤ, pos, ◌+ℤ◌, ◌-ℤ◌, ltb_ℤ, leb_ℤ, wrap32, ◌+32◌, ◌-32◌, pos_part, neg_part,
}
use algo_treading.Base.Sort.{sort_from}
use algo_treading.Base.Float.{Float}

-- `SLTPLevelConfig`.
pub record LevelConfig {ℓ} (F : Type ℓ) : Type ℓ where
  pub level_num : ℤ
  pub price_pct : F
  pub qty_pct : F

-- One entry of the slices `rounded`, `fracs` and `roundedUp`.
pub record Share {ℓ} (F : Type ℓ) : Type ℓ where
  pub qty : ℤ
  pub fraction : F
  pub up : Bool

-- `xs[i] = f(xs[i])`, for an index in range.
unfoldable pub modify {ℓ} : {A : Type ℓ} → (A → A) → ℕ → List A → List A
modify f i [] = []
modify f zero (x ∷ xs) = f x ∷ xs
modify f (suc i) (x ∷ xs) = x ∷ modify f i xs

-- The loop `for i := 0; i < n && i < len(cands); i++` over the candidates' indices.
unfoldable pub adjust {ℓ κ} :
    {A : Type ℓ} {C : Type κ} → (A → A) → ℕ → List (ℕ × C) → List A → List A
adjust f zero cands xs = xs
adjust f (suc n) [] xs = xs
adjust f (suc n) ((i, _) ∷ cands) xs = adjust f n cands (modify f i xs)

unfoldable pub sum32 : ℤ → List ℤ → ℤ
sum32 acc [] = acc
sum32 acc (q ∷ qs) = sum32 (acc +32 q) qs

-- The clamp of `computeInitialExitQtys`, which never lets the parts overshoot.
unfoldable pub clamp : ℤ → ℤ → ℤ → ℤ
clamp filled assigned q =
    if ltb_ℤ filled (assigned +32 q)
    then (let left = filled -32 assigned in if ltb_ℤ left (pos 0) then pos 0 else left)
    else q

unfoldable pub round_share {ℓ} : {F : Type ℓ} → Bool → ℤ → F → Share F
round_share up fl fraction =
    if up
    then record { qty = fl +32 pos 1; fraction = fraction; up = true }
    else record { qty = fl; fraction = fraction; up = false }

module _ {ℓ} {F : Type ℓ} ⦃f : Float F⦄ where
  open f use {of_int, ratio, sub, mul, div, floor, to_int, lt, le}

  -- `int32(float64(filledQty) * pct / 100)`.
  unfoldable pub portion : ℤ → F → ℤ
  portion filled pct = wrap32 (to_int (div (mul (of_int filled) pct) (ratio 100 1)))

  unfoldable pub initial_from : ℤ → ℤ → LevelConfig F → List (LevelConfig F) → List ℤ
  unfolding clamp portion
  initial_from filled assigned last [] = (filled -32 assigned) ∷ []
  initial_from filled assigned c (d ∷ rest) =
      let q = clamp filled assigned (portion filled c.qty_pct) in
      q ∷ initial_from filled (assigned +32 q) d rest

  unfoldable pub compute_initial_exit_qtys : List (LevelConfig F) → ℤ → List ℤ
  unfolding initial_from
  compute_initial_exit_qtys [] filled = []
  compute_initial_exit_qtys (c ∷ rest) filled =
      if leb_ℤ filled (pos 0)
      then map (λ _. pos 0) (c ∷ rest)
      else initial_from filled (pos 0) c rest

  -- The body of the first loop of `computeRebalancedQtys`.
  unfoldable pub share_of : F → ℤ → F → Share F
  unfolding round_share
  share_of total_pct remaining pct =
      let raw = div (mul (of_int remaining) pct) total_pct in
      let fl = floor raw in
      let fraction = sub raw fl in
      round_share (le (ratio 5 10) fraction) (wrap32 (to_int fl)) fraction

  -- The candidates for a correction, with their indices: the shares that were rounded that way.
  unfoldable pub candidates : Bool → ℕ → List (Share F) → List (ℕ × F)
  candidates rounded_up i [] = []
  candidates true i (s ∷ ss) =
      let rest = candidates true (suc i) ss in if s.up then (i, s.fraction) ∷ rest else rest
  candidates false i (s ∷ ss) =
      let rest = candidates false (suc i) ss in if s.up then rest else (i, s.fraction) ∷ rest

  abbrev pub qtys : List (Share F) → List ℤ
  qtys = map (λ s. s.qty)

  unfoldable pub correct_drift : ℤ → List (Share F) → List ℤ
  unfolding adjust candidates sort_from
  correct_drift diff shares =
      if ltb_ℤ (pos 0) diff
      then adjust (λ q. q +32 pos 1) (pos_part diff)
          (sort_from (λ a b. lt b.1 a.1) [] (candidates false 0 shares)) (qtys shares)
      else if ltb_ℤ diff (pos 0)
      then adjust (λ q. q -32 pos 1) (neg_part diff)
          (sort_from (λ a b. lt a.1 b.1) [] (candidates true 0 shares)) (qtys shares)
      else qtys shares

  unfoldable pub compute_rebalanced_qtys : List F → F → ℤ → List ℤ
  unfolding share_of sum32 correct_drift
  compute_rebalanced_qtys pcts total_pct remaining =
      let shares = map (share_of total_pct remaining) pcts in
      correct_drift (remaining -32 sum32 (pos 0) (qtys shares)) shares
