-- ===== src/MultiLevel/Exits/Whole.antt =====
-- Whole-number percentages, computed with exact fractions, are of the kind that the proofs ask for.
use algo_treading.Base.{
  ℕ, suc, ◌+◌, ◌*◌, ◌≤◌, ◌<◌, ◌≡◌, refl, ap, sym, ◌∙◌, ◌≢◌, false, List, [], ◌∷◌, map, arith, total,
  length, All,
}
use mathlib.Core.Path.{subst, ap₂}
use algo_treading.Base.Int.{*ℤ_pos, pos, +ℤ_pos}
use algo_treading.Base.Float.{Frac, frac, exact}
use algo_treading.MultiLevel.Split.Rebalanced.{AreExactShares}
use algo_treading.MultiLevel.Split.Whole.{percent, percent-AreExactShares}
use algo_treading.MultiLevel.Types.{nought}
use algo_treading.MultiLevel.Rebalance.{sum_pcts}
use algo_treading.MultiLevel.Exits.Levels.{Shares, Splits}

abbrev pub IsWhole : Frac → Type 0
IsWhole p = (w : ℕ) × (p ≡ percent (suc w))

weights :
    (ps : List Frac)
    → All IsWhole ps
    → (ws : List ℕ) × (ps ≡ map percent ws)
      × (length ps ≤ total (λ w. w) ws)
      × (length ps ≡ length ws)
weights [] a = ([], refl, omega arith, refl)
weights (p ∷ ps) ((w, e), a) =
    let (ws, es, le, len) = weights ps a in (suc w ∷ ws, ap₂ ◌∷◌ e es, omega arith, ap suc len)

add_percent : (a b : ℕ) → exact.add (percent a) (percent b) ≡ percent (a + b)
add_percent a b =
    rw (*ℤ_pos a 1, *ℤ_pos b 1, +ℤ_pos (a * 1) (b * 1))
      (ap₂ frac (ap pos (omega arith)) (omega arith))

sum_percents :
    (a : ℕ) (ws : List ℕ) → sum_pcts (percent a) (map percent ws) ≡ percent (a + total (λ w. w) ws)
unfolding sum_pcts
sum_percents a [] = ap percent (omega arith)
sum_percents a (w ∷ ws) =
    ap (λ z. sum_pcts z (map percent ws)) (add_percent a w)
    ∙ sum_percents (a + w) ws
    ∙ ap percent (omega arith)

positive_lem : (n : ℕ) → 0 < n → exact.le (percent n) nought ≡ false
positive_lem n h = rw (*ℤ_pos n 1, *ℤ_pos 0 1) (ground arith)

some_length : (ps : List Frac) → ps ≢ [] → 0 < length ps
some_length [] h = absurd (h refl)
some_length (p ∷ ps) h = omega arith

whole_total :
    (ps : List Frac)
    → All IsWhole ps
    → (ws : List ℕ) × (ps ≡ map percent ws)
      × (sum_pcts nought ps ≡ percent (total (λ w. w) ws))
      × (length ps ≤ total (λ w. w) ws)
      × (length ps ≡ length ws)
whole_total ps a =
    let (ws, e, le, len) = weights ps a in
    (
      ws,
      e,
      ap (sum_pcts nought) e
          ∙ sum_percents 0 ws
          ∙ ap percent (let same : 0 + total (λ w. w) ws ≡ total (λ w. w) ws = omega arith in same),
      le,
      len,
    )

whole_sum_positive :
    (ps : List Frac) → ps ≢ [] → All IsWhole ps → exact.le (sum_pcts nought ps) nought ≡ false
whole_sum_positive ps ne all =
    let (ws, e, adds, le, len) = whole_total ps all in
    let more = some_length ps ne in
    ap (λ z. exact.le z nought) adds ∙ positive_lem (total (λ w. w) ws) (omega arith)

whole-Shares : (ps : List Frac) (r : ℕ) → ps ≢ [] → All IsWhole ps → Shares r ps
whole-Shares ps r ne all =
    let (ws, e, adds, le, len) = whole_total ps all in
    let more = some_length ps ne in
    record {
      whole = total (λ w. w) ws;
      weights = ws;
      positive = omega arith;
      adds = refl;
      count = sym len;
      are_exact =
          subst (λ t. AreExactShares t r (total (λ w. w) ws) ps ws) (sym adds)
            (subst (λ qs. AreExactShares (percent (total (λ w. w) ws)) r (total (λ w. w) ws) qs ws)
              (sym e) (percent-AreExactShares r ws (omega arith)));
    }

pub IsWhole-Splits : Splits IsWhole
IsWhole-Splits = record {
  positive = λ p (w, e). rw e (positive_lem (suc w) (omega arith));
  sum_positive = whole_sum_positive;
  shares = whole-Shares;
}
