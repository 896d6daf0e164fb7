-- ===== src/MultiLevel/Exits/Runs.antt =====
-- Any sequence of price ticks on a paper group.
use algo_treading.Base.{
  ℕ, ◌+◌, ◌-◌, ◌≡◌, refl, ap, sym, ◌∙◌, inl, inr, Bool, true, false, List, [], ◌∷◌, ◌++◌, arith,
  Bool-cases, if◌then◌else◌,
}
use mathlib.Core.Path.{subst}
use native.Mathlib.Decide.{dec_lt}
use algo_treading.Base.Float.{Float}
use algo_treading.MultiLevel.Split.Adjust.{Sums, Sums-append}
use algo_treading.MultiLevel.Types.{Group, is_live, try_claim_evaluation, release_evaluation}
use algo_treading.MultiLevel.Effects.{Hooks, Outcome}
use algo_treading.MultiLevel.Exits.{run_claimed, run_eval_job}
use algo_treading.MultiLevel.Exits.Levels.{Splits}
use algo_treading.MultiLevel.Exits.Sold.{sold, sold-append}
use algo_treading.MultiLevel.Exits.Invariant.{Holds}
use algo_treading.MultiLevel.Exits.Ticks.{Sells, Keeps-Sells, evaluate-Sells}

-- The ticks of one group, one after the other.
unfoldable pub run_ticks {ℓ} : {F : Type ℓ} → ⦃f : Float F⦄ → Hooks → Group F → List F → Outcome F
unfolding run_eval_job
run_ticks hooks g [] = (g, [])
run_ticks hooks g (ltp ∷ ltps) =
    let first = run_eval_job hooks g ltp in
    let rest = run_ticks hooks first.0 ltps in (rest.0, first.1 ++ rest.1)

module _ {ℓ} {F : Type ℓ} where
  unfoldable claimed : Group F → Group F
  claimed g = record g { evaluating = true }

  claim_busy : (g : Group F) → g.evaluating ≡ true → try_claim_evaluation g ≡ (g, false)
  unfolding try_claim_evaluation claimed
  claim_busy g e = ap (λ b. if b then (g, false) else (claimed g, true)) e

  claim_free : (g : Group F) → g.evaluating ≡ false → try_claim_evaluation g ≡ (claimed g, true)
  unfolding try_claim_evaluation claimed
  claim_free g e = ap (λ b. if b then (g, false) else (claimed g, true)) e

module _ {ℓ κ} {F : Type ℓ} ⦃f : Float F⦄ {IsPct : F → Type κ} (splits : Splits IsPct)
    (hooks : Hooks) where
  with_flag-Holds :
      (r : ℕ) (b : Bool) (g : Group F)
      → Holds IsPct r g
      → Holds IsPct r (record g { evaluating = b })
  with_flag-Holds r b g v = record {
    remaining = v.remaining;
    on_paper = v.on_paper;
    live = v.live;
    sl_side = λ h.
        (let s = v.sl_side h in record { covered = s.covered; known = s.known; fits = s.fits });
    tp_side = λ h.
        (let s = v.tp_side h in record { covered = s.covered; known = s.known; fits = s.fits });
  }

  run_claimed-Sells :
      (r : ℕ) (g : Group F) (ltp : F)
      → Holds IsPct r g
      → Sells IsPct r (run_claimed hooks g ltp (claimed g, true))
  unfolding run_claimed release_evaluation claimed
  run_claimed-Sells r g ltp v = elim (dec_lt 0 r) [
    | yes some_left ↦
        let live : is_live g.state ≡ true = v.live ∙ ground arith in
        let (q, q_le, v', s) =
          evaluate-Sells splits hooks ltp r (claimed g) some_left (with_flag-Holds r true g v) in
        rw live (q, q_le, with_flag-Holds (r - q) false _ v', s)
    | no none_left ↦
        let dead : is_live g.state ≡ false = v.live ∙ ground arith in
        rw dead (
          Keeps-Sells IsPct r (release_evaluation (claimed g), [])
            (with_flag-Holds r false g v, refl))
  ]

  run_eval_job-Sells :
      (r : ℕ) (g : Group F) (ltp : F) → Holds IsPct r g → Sells IsPct r (run_eval_job hooks g ltp)
  unfolding run_eval_job run_claimed
  run_eval_job-Sells r g ltp v = elim (Bool-cases g.evaluating) [
    | inl e ↦
        subst (λ c. Sells IsPct r (run_claimed hooks g ltp c)) (sym (claim_busy g e))
          (Keeps-Sells IsPct r (g, []) (v, refl))
    | inr e ↦
        subst (λ c. Sells IsPct r (run_claimed hooks g ltp c)) (sym (claim_free g e))
          (run_claimed-Sells r g ltp v)
  ]

  -- Over any sequence of ticks, the quantities that a paper group sells are not negative, and they add
  -- up to exactly what the ticks take off what was left: never more. The group is live as long as
  -- something is left, and then each side that has levels still covers all of it.
  pub run_ticks-Sells :
      (r : ℕ) (g : Group F) (ltps : List F)
      → Holds IsPct r g
      → Sells IsPct r (run_ticks hooks g ltps)
  unfolding run_ticks
  run_ticks-Sells r g [] v = Keeps-Sells IsPct r (g, []) (v, refl)
  run_ticks-Sells r g (ltp ∷ ltps) v =
      let (q, q_le, v', s) = run_eval_job-Sells r g ltp v in
      let first = run_eval_job hooks g ltp in
      let rest = run_ticks hooks first.0 ltps in
      let (p, p_le, v'', s') = run_ticks-Sells (r - q) first.0 ltps v' in
      let left : r - (q + p) ≡ r - q - p = omega arith in
      (
        q + p,
        omega arith,
        subst (λ n. Holds IsPct n rest.0) (sym left) v'',
        subst (λ zs. Sums zs (q + p)) (sym (sold-append first.1 rest.1))
            (Sums-append (sold first.1) (sold rest.1) q p s s'),
      )
