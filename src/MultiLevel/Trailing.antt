-- ===== src/MultiLevel/Trailing.antt =====
-- The trailing stop-loss over price ticks whose modifications the broker confirms, and the tick size.
use algo_treading.Base.{
  ℕ, ◌*◌, ◌+◌, ◌/◌, ◌≤◌, ◌<◌, ◌^◌, ◌++◌, ◌≡◌, refl, ap, sym, ◌∙◌, Bool, true, false, ◌&&◌, ◌||◌,
  not, String, ◌==◌, List, [], ◌∷◌, arith, Bool-cases, inl, inr, if◌then◌else◌,
}
use algo_treading.Base.Int.{pos, ◌*ℤ◌, +ℤ_pos, *ℤ_pos, wrap64, wrap64_pos}
use algo_treading.Base.Float.{Float, trunc_div}
use mathlib.Core.Path.{subst}
use native.Mathlib.Nat.{div-add-mod, mod-lt}
use algo_treading.MultiLevel.Types.{
  Group, tick_of, calc_trailing_sl, trail_buy, trail_sell, is_pos, nought, sl_mode_trailing,
  min_change, change_pct, round_nse, below, above,
}
use algo_treading.MultiLevel.Effects.{Effect}
use algo_treading.MultiLevel.Exits.{evaluate_trailing_sl, trailing_sl_modified}

-- An amount of paise that is not negative, and so small that the rounding does not leave int64, is
-- rounded to a multiple of five that is at most two away.
pub tick_of_lem :
    (n : ℕ)
    → n + 2 < 2 ^ 63
    → (m : ℕ) × (tick_of (pos n) ≡ pos (5 * m)) × (5 * m ≤ n + 2) × (n ≤ 5 * m + 2)
unfolding tick_of trunc_div
tick_of_lem n small_n =
    let parts = div-add-mod (n + 2) 5 in
    let small = mod-lt (n + 2) {m = 5} (omega arith) in
    (
      (n + 2) / 5,
      ap (λ z. wrap64 (◌*ℤ◌ (trunc_div (wrap64 z) 5) (pos 5))) (+ℤ_pos n 2)
          ∙ ap (λ z. wrap64 (◌*ℤ◌ (trunc_div z 5) (pos 5))) (wrap64_pos (n + 2) small_n)
          ∙ ap wrap64 (*ℤ_pos ((n + 2) / 5) 5)
          ∙ wrap64_pos ((n + 2) / 5 * 5) (omega arith)
          ∙ ap pos (omega arith),
      omega arith,
      omega arith,
    )

module _ {ℓ} {F : Type ℓ} ⦃f : Float F⦄ where
  open f use {le, lt}

  -- One tick, and the broker's confirmation if the stop moved.
  unfoldable pub trail : Group F → F → Group F
  unfolding evaluate_trailing_sl trailing_sl_modified
  trail g ltp =
      let moved = calc_trailing_sl g ltp in
      let after = (evaluate_trailing_sl g ltp).0 in
      if moved.1 then trailing_sl_modified after moved.0 else after

  -- The triggers of the modifications among the calls.
  unfoldable pub sent : List (Effect F) → List F
  sent [] = []
  sent (Effect.modify_sl id qty trigger ∷ es) = trigger ∷ sent es
  sent (_ ∷ es) = sent es

  -- The triggers that the broker gets over a sequence of ticks.
  unfoldable pub triggers : Group F → List F → List F
  unfolding sent
  triggers g [] = []
  triggers g (ltp ∷ ltps) = sent (evaluate_trailing_sl g ltp).1 ++ triggers (trail g ltp) ltps

  -- Each trigger is tighter than the one before, if that was set, by no less than `least` percent.
  abbrev pub IsTighter : String → F → F → F → Type 0
  IsTighter side least cur t =
      let lower = is_pos cur && le t cur || is_pos cur && lt (change_pct t cur cur) least in
      let higher = is_pos cur && le cur t || is_pos cur && lt (change_pct cur t cur) least in
      (if side == "BUY" then lower else higher) ≡ false

  abbrev pub Tighten : String → F → F → List F → Type 0
  Tighten side least cur [] = Unit {0}
  Tighten side least cur (t ∷ ts) = IsTighter side least cur t × Tighten side least t ts

  guards :
      (a b c : Bool) (x : F)
      → let out : F × Bool =
          if a
          then (nought, false)
          else if b
          then (nought, false)
          else if c
          then (nought, false)
          else (x, true) in
        out.1 ≡ true → (out.0 ≡ x) × (b || c ≡ false)
  guards true b c x e = absurd cc
  guards false true c x e = absurd cc
  guards false false true x e = absurd cc
  guards false false false x e = (refl, refl)

  trail_buy-IsTighter :
      (side : String) (g : Group F) (ltp : F)
      → (side == "BUY") ≡ true
      → (trail_buy g ltp).1 ≡ true
      → IsTighter side (min_change g) g.current_sl_trigger (trail_buy g ltp).0
  unfolding trail_buy
  trail_buy-IsTighter side g ltp s e =
      let cur = g.current_sl_trigger in
      let x = round_nse (below ltp g.trailing_sl_pct) in
      let (is_x, ok) =
        guards (le ltp g.highest_price) (is_pos cur && le x cur)
          (is_pos cur && lt (change_pct x cur cur) (min_change g)) x e in
      subst (IsTighter side (min_change g) cur) (sym is_x) (rw s ok)

  trail_sell-IsTighter :
      (side : String) (g : Group F) (ltp : F)
      → (side == "BUY") ≡ false
      → (trail_sell g ltp).1 ≡ true
      → IsTighter side (min_change g) g.current_sl_trigger (trail_sell g ltp).0
  unfolding trail_sell
  trail_sell-IsTighter side g ltp s e =
      let cur = g.current_sl_trigger in
      let x = round_nse (above ltp g.trailing_sl_pct) in
      let (is_x, ok) =
        guards (le g.highest_price nought || le g.highest_price ltp) (is_pos cur && le cur x)
          (is_pos cur && lt (change_pct cur x cur) (min_change g)) x e in
      subst (IsTighter side (min_change g) cur) (sym is_x) (rw s ok)

  sides {κ} :
      (P : F → Type κ) (off buy : Bool) (x y : F × Bool)
      → (buy ≡ true → x.1 ≡ true → P x.0)
      → (buy ≡ false → y.1 ≡ true → P y.0)
      → let out : F × Bool = if off then (nought, false) else if buy then x else y in
        out.1 ≡ true → P out.0
  sides P true buy x y p q e = absurd cc
  sides P false true x y p q e = p refl e
  sides P false false x y p q e = q refl e

  calc_trailing_sl-IsTighter :
      (g : Group F) (ltp : F)
      → (calc_trailing_sl g ltp).1 ≡ true
      → IsTighter g.order_side (min_change g) g.current_sl_trigger (calc_trailing_sl g ltp).0
  unfolding calc_trailing_sl
  calc_trailing_sl-IsTighter g ltp e =
      sides (IsTighter g.order_side (min_change g) g.current_sl_trigger)
        (not (g.sl_mode == sl_mode_trailing) || g.single_sl_broker_id == "") (g.order_side == "BUY")
        (trail_buy g ltp) (trail_sell g ltp) (trail_buy-IsTighter g.order_side g ltp)
        (trail_sell-IsTighter g.order_side g ltp) e

  trail-moved :
      (g : Group F) (ltp : F)
      → (calc_trailing_sl g ltp).1 ≡ true
      → trail g ltp
        ≡ record g { highest_price = ltp; current_sl_trigger = (calc_trailing_sl g ltp).0 }
  unfolding trail evaluate_trailing_sl trailing_sl_modified
  trail-moved g ltp e = rw e refl

  trail-still : (g : Group F) (ltp : F) → (calc_trailing_sl g ltp).1 ≡ false → trail g ltp ≡ g
  unfolding trail evaluate_trailing_sl
  trail-still g ltp e = rw e refl

  -- The triggers sent over any ticks only ever tighten: up for a long position, down for a short one,
  -- and each time by no less than the smallest change.
  pub triggers-Tighten :
      (g : Group F) (ltps : List F)
      → Tighten g.order_side (min_change g) g.current_sl_trigger (triggers g ltps)
  unfolding triggers sent evaluate_trailing_sl min_change
  triggers-Tighten g [] = tt
  triggers-Tighten g (ltp ∷ ltps) = elim (Bool-cases (calc_trailing_sl g ltp).1) [
    | inl e ↦
        let t = (calc_trailing_sl g ltp).0 in
        let after = record g { highest_price = ltp; current_sl_trigger = t } in
        rw e (
          calc_trailing_sl-IsTighter g ltp e,
          subst (λ h. Tighten g.order_side (min_change g) t (triggers h ltps))
              (sym (trail-moved g ltp e)) (triggers-Tighten after ltps),
        )
    | inr e ↦ rw e (
        subst (λ h. Tighten g.order_side (min_change g) g.current_sl_trigger (triggers h ltps))
          (sym (trail-still g ltp e)) (triggers-Tighten g ltps))
  ]
