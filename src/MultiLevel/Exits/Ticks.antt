-- ===== src/MultiLevel/Exits/Ticks.antt =====
-- Price ticks on a paper group: one tick, and any sequence of them.
use algo_treading.Base.{
  ℕ, ◌-◌, ◌≤◌, ◌<◌, ◌≡◌, refl, ap, sym, ◌∙◌, ◌≢◌, inl, inr, Bool, true, false, not, ◌&&◌, ◌==◌,
  List, [], ◌++◌, Option, none, some, arith, Bool-cases, if◌then◌else◌,
}
use mathlib.Core.Path.{subst}
use algo_treading.Base.Int.{ℤ, pos}
use algo_treading.Base.Float.{Float}
use algo_treading.MultiLevel.Split.Adjust.{Sums}
use algo_treading.MultiLevel.Types.{
  ExitType, Level, Group, sl_breached, tp_reached, sl_mode_trailing, mode_multi_level,
  calc_trailing_sl,
}
use algo_treading.MultiLevel.Effects.{Hooks, Outcome, levels_of, with_levels}
use algo_treading.MultiLevel.Exits.{
  fire_sl, fire_tp, evaluate_sl_levels, evaluate_tp_levels, evaluate, evaluate_trailing_sl,
}
use algo_treading.MultiLevel.Exits.Levels.{
  Hit, here, there, Hit-Sums, Hit-Known, Hit-length, Splits, trigger_first-Found, Found,
}
use algo_treading.MultiLevel.Exits.Sold.{sold, sold-append, sold-record_paper_exit}
use algo_treading.MultiLevel.Exits.Invariant.{Side, Holds, record_paper_exit-Holds}

module _ {ℓ κ} {F : Type ℓ} ⦃f : Float F⦄ (IsPct : F → Type κ) where
  -- The calls sell `q` of the `r` that were left, and the group holds the rest.
  abbrev pub Sells : ℕ → Outcome F → Type (ℓ ⊔ κ)
  Sells r out = (q : ℕ) × (q ≤ r) × Holds IsPct (r - q) out.0 × Sums (sold out.1) q

  -- Nothing is sold, and the group still holds all.
  abbrev pub Keeps : ℕ → Outcome F → Type (ℓ ⊔ κ)
  Keeps r out = Holds IsPct r out.0 × (sold out.1 ≡ [])

  pub Keeps-Sells : (r : ℕ) (out : Outcome F) → Keeps r out → Sells r out
  Keeps-Sells r out (v, e) =
      let same : r ≡ r - 0 = omega arith in
      (0, omega arith, subst (λ n. Holds IsPct n out.0) same v, ([], e, refl))

module _ {ℓ κ} {F : Type ℓ} ⦃f : Float F⦄ {IsPct : F → Type κ} (splits : Splits IsPct) where
  Hit-ne :
      {met : F → Bool} {ltp : F} {ls : List (Level F)} {hit : Level F} {rest : List (Level F)}
      → Hit met ltp ls hit rest
      → ls ≢ []
  Hit-ne (here l ls a m) = λ e. cc
  Hit-ne (there l e h) = λ e. cc

  Side-Hit :
      (t : ExitType) (r : ℕ) (g : Group F) {met : F → Bool} {ltp : F} {hit : Level F}
      {rest : List (Level F)}
      → Side IsPct t r g
      → Hit met ltp (levels_of t g) hit rest
      → (q : ℕ) × (hit.exit_qty ≡ pos q) × (q ≤ r) × Side IsPct t (r - q) (with_levels t rest g)
  Side-Hit ExitType.sl r g s h = elim s.covered [
    | inl e ↦ absurd (Hit-ne h e)
    | inr c ↦
        let (q, is_q, q_le, c') = Hit-Sums r h c in
        (
          q,
          is_q,
          q_le,
          record {
            covered = inr c';
            known = Hit-Known IsPct g.sl_level_configs h s.known;
            fits = omega (arith, s.fits, Hit-length h);
          },
        )
  ]
  Side-Hit ExitType.tp r g s h = elim s.covered [
    | inl e ↦ absurd (Hit-ne h e)
    | inr c ↦
        let (q, is_q, q_le, c') = Hit-Sums r h c in
        (
          q,
          is_q,
          q_le,
          record {
            covered = inr c';
            known = Hit-Known IsPct g.tp_level_configs h s.known;
            fits = omega (arith, s.fits, Hit-length h);
          },
        )
  ]

  module _ (hooks : Hooks) (ltp : F) where
    fire_sl-Sells :
        (r : ℕ) (g : Group F) {met : F → Bool} (hit : Level F) (rest : List (Level F))
        → 0 < r
        → Holds IsPct r g
        → Hit met ltp g.sl_levels hit rest
        → Sells IsPct r (fire_sl hooks g ltp (hit, rest))
    unfolding fire_sl
    fire_sl-Sells r g hit rest some_left v h =
        let (q, is_q, q_le, s) = Side-Hit ExitType.sl r g (v.sl_side some_left) h in
        let o = v.tp_side some_left in
        let fired = record g { sl_levels = rest } in
        rw (v.on_paper, is_q)
          (
            q,
            q_le,
            record_paper_exit-Holds splits hooks ExitType.sl hit ltp r q fired (record {
              remaining = v.remaining;
              on_paper = v.on_paper;
              live = v.live ∙ ground arith;
              some_left = some_left;
              q_le = q_le;
              same = s;
              other = record { covered = o.covered; known = o.known; fits = o.fits };
            }),
            sold-record_paper_exit hooks ExitType.sl hit q ltp fired,
          )

    fire_tp-Sells :
        (r : ℕ) (g : Group F) {met : F → Bool} (hit : Level F) (rest : List (Level F))
        → 0 < r
        → Holds IsPct r g
        → Hit met ltp g.tp_levels hit rest
        → Sells IsPct r (fire_tp hooks g ltp (hit, rest))
    unfolding fire_tp
    fire_tp-Sells r g hit rest some_left v h =
        let (q, is_q, q_le, s) = Side-Hit ExitType.tp r g (v.tp_side some_left) h in
        let o = v.sl_side some_left in
        let fired = record g { tp_levels = rest } in
        rw (v.on_paper, is_q)
          (
            q,
            q_le,
            record_paper_exit-Holds splits hooks ExitType.tp hit ltp r q fired (record {
              remaining = v.remaining;
              on_paper = v.on_paper;
              live = v.live ∙ ground arith;
              some_left = some_left;
              q_le = q_le;
              same = s;
              other = record { covered = o.covered; known = o.known; fits = o.fits };
            }),
            sold-record_paper_exit hooks ExitType.tp hit q ltp fired,
          )

    evaluate_trailing_sl-Keeps :
        (r : ℕ) (g : Group F) → Holds IsPct r g → Keeps IsPct r (evaluate_trailing_sl g ltp)
    unfolding evaluate_trailing_sl
    evaluate_trailing_sl-Keeps r g v = elim (Bool-cases (calc_trailing_sl g ltp).1) [
      | inl e ↦ rw e (
        record {
          remaining = v.remaining;
          on_paper = v.on_paper;
          live = v.live;
          sl_side = λ h.
              (let s = v.sl_side h in
                record { covered = s.covered; known = s.known; fits = s.fits });
          tp_side = λ h.
              (let s = v.tp_side h in
                record { covered = s.covered; known = s.known; fits = s.fits });
        },
        refl,
      )
      | inr e ↦ rw e (v, refl)
    ]

    abbrev SlSells : ℕ → Outcome F × Bool → Type (ℓ ⊔ κ)
    SlSells r (out, true) = Sells IsPct r out
    SlSells r (out, false) = Keeps IsPct r out

    fire_sl_if_hit :
        (r : ℕ) (g : Group F) (met : F → Bool) (o : Option (Level F × List (Level F)))
        → 0 < r
        → Holds IsPct r g
        → Found met ltp g.sl_levels o
        → SlSells r
            (elim o [ none ↦ ((g, []), false) | some hit ↦ (fire_sl hooks g ltp hit, true) ])
    fire_sl_if_hit r g met none some_left v h = (v, refl)
    fire_sl_if_hit r g met (some (hit, rest)) some_left v h =
        fire_sl-Sells r g hit rest some_left v h

    evaluate_sl_levels-SlSells :
        (r : ℕ) (g : Group F) → 0 < r → Holds IsPct r g → SlSells r (evaluate_sl_levels hooks g ltp)
    unfolding evaluate_sl_levels
    evaluate_sl_levels-SlSells r g some_left v =
        elim (Bool-cases (g.sl_mode == sl_mode_trailing && not (g.single_sl_broker_id == ""))) [
          | inl e ↦ rw e (evaluate_trailing_sl-Keeps r g v)
          | inr e ↦ elim (Bool-cases (g.sl_mode == mode_multi_level)) [
            | inl m ↦
                rw (e, m, v.on_paper)
                  (fire_sl_if_hit r g (λ t. sl_breached g t ltp) _ some_left v
                    (trigger_first-Found (λ t. sl_breached g t ltp) ltp g.sl_levels))
            | inr m ↦ rw (e, m) (v, refl)
          ]
        ]

    fire_tp_if_hit :
        (r : ℕ) (g : Group F) (met : F → Bool) (o : Option (Level F × List (Level F)))
        → 0 < r
        → Holds IsPct r g
        → Found met ltp g.tp_levels o
        → Sells IsPct r (elim o [ none ↦ (g, []) | some hit ↦ fire_tp hooks g ltp hit ])
    fire_tp_if_hit r g met none some_left v h = Keeps-Sells IsPct r (g, []) (v, refl)
    fire_tp_if_hit r g met (some (hit, rest)) some_left v h =
        fire_tp-Sells r g hit rest some_left v h

    evaluate_tp_levels-Sells :
        (r : ℕ) (g : Group F)
        → 0 < r
        → Holds IsPct r g
        → Sells IsPct r (evaluate_tp_levels hooks g ltp)
    unfolding evaluate_tp_levels
    evaluate_tp_levels-Sells r g some_left v =
        let paper : (g.tp_mode == mode_multi_level && g.trading_mode == "LIVE") ≡ false =
          ground (arith, v.on_paper) in
        rw paper (
          fire_tp_if_hit r g (λ t. tp_reached g t ltp) _ some_left v
            (trigger_first-Found (λ t. tp_reached g t ltp) ltp g.tp_levels))

    then_tp :
        (r : ℕ) (first : Outcome F × Bool)
        → 0 < r
        → SlSells r first
        → Sells IsPct r (
            if first.1 then first.0 else (
              (evaluate_tp_levels hooks first.0.0 ltp).0,
              first.0.1 ++ (evaluate_tp_levels hooks first.0.0 ltp).1,
            ))
    then_tp r (first, true) some_left s = s
    then_tp r (first, false) some_left (v, e) =
        let (q, q_le, v', s) = evaluate_tp_levels-Sells r first.0 some_left v in
        (
          q,
          q_le,
          v',
          subst (λ zs. Sums zs q)
              (sym (
                sold-append first.1 _
                ∙ ap (λ (zs : List ℤ). zs ++ sold (evaluate_tp_levels hooks first.0 ltp).1) e))
              s,
        )

    pub evaluate-Sells :
        (r : ℕ) (g : Group F) → 0 < r → Holds IsPct r g → Sells IsPct r (evaluate hooks g ltp)
    unfolding evaluate
    evaluate-Sells r g some_left v =
        then_tp r (evaluate_sl_levels hooks g ltp) some_left
          (evaluate_sl_levels-SlSells r g some_left v)
