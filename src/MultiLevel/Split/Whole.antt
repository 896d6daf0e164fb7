-- ===== src/MultiLevel/Split/Whole.antt =====
-- Percentages that are whole numbers, computed with exact fractions: the shares of
-- computeRebalancedQtys are then exact.
use algo_treading.Base.{
  ℕ, suc, ◌-◌, ◌*◌, ◌/◌, ◌%◌, ◌<◌, ◌≡◌, refl, ap, ◌∙◌, false, List, [], ◌∷◌, map, arith, total, leb,
  eqb,
}
use mathlib.Core.Path.{subst, ap₂}
use native.Mathlib.Nat.{div-add-mod}
use algo_treading.Base.Int.{*ℤ_pos, pos, ◌-ℤ◌}
use algo_treading.Base.Float.{Frac, frac, exact, div_frac, floor_div, trunc_div}
use algo_treading.MultiLevel.Split.Rebalanced.{IsExactShare, AreExactShares}
open exact use {of_int, ratio, sub, mul, div, floor, to_int, lt, le}

abbrev pub percent : ℕ → Frac
percent w = frac (pos w) 0

mul_percent : (r w : ℕ) → mul (percent r) (percent w) ≡ percent (r * w)
mul_percent r w = ap₂ frac (*ℤ_pos r w) (omega arith)

div_percent : (a n : ℕ) → div (percent a) (percent (suc n)) ≡ frac (pos a) n
unfolding div_frac
div_percent a n =
    let open_test : eqb (suc n) 0 ≡ false = ground arith in
    rw open_test (ap₂ frac (*ℤ_pos a 1 ∙ ap pos (omega arith)) (omega arith))

floor_lem : (a n : ℕ) → floor (frac (pos a) n) ≡ percent (a / suc n)
unfolding floor_div
floor_lem a n = refl

to_int_lem : (a : ℕ) → to_int (percent a) ≡ pos a
unfolding trunc_div
to_int_lem a = ap pos (omega arith)

sub_floor : (a n : ℕ) → sub (frac (pos a) n) (percent (a / suc n)) ≡ frac (pos (a % suc n)) n
unfolding ◌-ℤ◌
sub_floor a n =
    let parts = div-add-mod a (suc n) in
    rw (*ℤ_pos a 1, *ℤ_pos (a / suc n) (suc n)) (ap₂ frac (ground (arith, parts)) (omega arith))

half_lem : (a n : ℕ) → le (ratio 5 10) (frac (pos a) n) ≡ leb (suc n) (2 * a)
half_lem a n = rw (*ℤ_pos 5 (suc n), *ℤ_pos a 10) (ground arith)

exact_share : (r n w : ℕ) → IsExactShare (percent (suc n)) r (suc n) (percent w) w
exact_share r n w = (
  ap (λ z. to_int (floor z)) raw ∙ ap to_int (floor_lem (r * w) n) ∙ to_int_lem (r * w / suc n),
  ap (λ z. le (ratio 5 10) (sub z (floor z))) raw
      ∙ ap (λ z. le (ratio 5 10) (sub (frac (pos (r * w)) n) z)) (floor_lem (r * w) n)
      ∙ ap (le (ratio 5 10)) (sub_floor (r * w) n)
      ∙ half_lem (r * w % suc n) n,
)
  where
    raw : div (mul (percent r) (percent w)) (percent (suc n)) ≡ frac (pos (r * w)) n
    raw = ap (λ z. div z (percent (suc n))) (mul_percent r w) ∙ div_percent (r * w) n

exact_shares :
    (r n : ℕ) (ws : List ℕ) → AreExactShares (percent (suc n)) r (suc n) (map percent ws) ws
exact_shares r n [] = tt
exact_shares r n (w ∷ ws) = (exact_share r n w, exact_shares r n ws)

pub percent-AreExactShares :
    (r : ℕ) (ws : List ℕ)
    → 0 < total (λ w. w) ws
    → AreExactShares (percent (total (λ w. w) ws)) r (total (λ w. w) ws) (map percent ws) ws
percent-AreExactShares r ws h =
    let same : suc (total (λ w. w) ws - 1) ≡ total (λ w. w) ws = omega arith in
    subst (λ n. AreExactShares (percent n) r n (map percent ws) ws) same
      (exact_shares r (total (λ w. w) ws - 1) ws)
