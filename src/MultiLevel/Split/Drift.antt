-- ===== src/MultiLevel/Split/Drift.antt =====
-- How far the rounded shares of computeRebalancedQtys can be from the quantity that they divide.
use native.Mathlib.Nat.{div-add-mod, mod-lt, le_of_mul-le-mul_left}
use algo_treading.Base.{
  ℕ, ◌+◌, ◌*◌, ◌/◌, ◌%◌, ◌≤◌, ◌<◌, ◌≡◌, ap, Bool, List, [], ◌∷◌, arith, length, total, leb,
  if◌then◌else◌, Bool-cases, inl, inr,
}

-- The weight `w` of `whole` takes `r * w / whole` of `r`, rounded half up.
abbrev pub rounds_up : ℕ → ℕ → ℕ → Bool
rounds_up r whole w = leb whole (2 * (r * w % whole))

abbrev pub rounded : ℕ → ℕ → ℕ → ℕ
rounded r whole w = if rounds_up r whole w then r * w / whole + 1 else r * w / whole

abbrev pub ups : ℕ → ℕ → ℕ → ℕ
ups r whole w = if rounds_up r whole w then 1 else 0

abbrev pub downs : ℕ → ℕ → ℕ → ℕ
downs r whole w = if rounds_up r whole w then 0 else 1

module _ (r whole : ℕ) (positive : 0 < whole) where
  one_share :
      (w : ℕ)
      → (2 * (r * w) ≤ 2 * (whole * rounded r whole w) + whole * downs r whole w)
        × (2 * (whole * rounded r whole w) ≤ 2 * (r * w) + whole * ups r whole w)
  one_share w =
      let parts = div-add-mod (r * w) whole in
      let small = mod-lt (r * w) positive in
      elim (Bool-cases (rounds_up r whole w)) [
        | inl e ↦
            let half : whole ≤ 2 * (r * w % whole) = ground arith in rw e (omega arith, omega arith)
        | inr e ↦
            let half : 2 * (r * w % whole) < whole = ground arith in rw e (omega arith, omega arith)
      ]

  all_shares :
      (ws : List ℕ)
      → (2 * (r * total (λ w. w) ws)
          ≤ 2 * (whole * total (rounded r whole) ws) + whole * total (downs r whole) ws)
        × (2 * (whole * total (rounded r whole) ws)
            ≤ 2 * (r * total (λ w. w) ws) + whole * total (ups r whole) ws)
  all_shares [] = omega arith
  all_shares (w ∷ ws) = omega (arith, one_share w, all_shares ws)

  cancel : (a b c : ℕ) → 2 * (whole * a) ≤ 2 * (whole * b) + whole * c → 2 * a ≤ 2 * b + c
  cancel a b c h =
      le_of_mul-le-mul_left {m = 2 * a} {n = 2 * b + c} {k = whole} (omega arith) positive

  -- The drift is at most half the number of shares that were rounded the other way.
  pub drift_bounds :
      (ws : List ℕ)
      → total (λ w. w) ws ≡ whole
      → (2 * r ≤ 2 * total (rounded r whole) ws + total (downs r whole) ws)
        × (2 * total (rounded r whole) ws ≤ 2 * r + total (ups r whole) ws)
  drift_bounds ws e =
      let (low, high) = all_shares ws in
      let scaled = ap (λ (t : ℕ). r * t) e in
      (
        cancel r (total (rounded r whole) ws) (total (downs r whole) ws) (omega arith),
        cancel (total (rounded r whole) ws) r (total (ups r whole) ws) (omega arith),
      )

pub total-ups : (r whole : ℕ) (ws : List ℕ) → total (ups r whole) ws ≤ length ws
total-ups r whole [] = omega arith
total-ups r whole (w ∷ ws) =
    let one : ups r whole w ≤ 1 = ground arith in omega (arith, total-ups r whole ws)
