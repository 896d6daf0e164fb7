-- ===== src/MultiLevel/Exits/Invariant.antt =====
-- The quantities of a paper group under price ticks: what is left is what the active levels of each
-- side cover, and every tick sells exactly what it takes off.
use algo_treading.Base.{
  ℕ, ◌+◌, ◌-◌, ◌≤◌, ◌<◌, ◌^◌, ◌≡◌, refl, ap, sym, ◌∙◌, ◌⊎◌, inl, inr, true, false, ◌==◌, [], arith,
  length, if◌then◌else◌, ltb,
}
use mathlib.Core.Path.{subst}
use native.Mathlib.Decide.{dec_lt}
use algo_treading.Base.Int.{ℤ, pos, ◌-32◌, -32_pos, leb_ℤ, ltb_ℤ}
use algo_treading.Base.Float.{Float}
use algo_treading.MultiLevel.Split.Adjust.{Sums}
use algo_treading.MultiLevel.Types.{ExitType, Level, Group, is_live}
use algo_treading.MultiLevel.Effects.{Hooks, Outcome, levels_of, configs_of, other_side}
use algo_treading.MultiLevel.Rebalance.{rebalance_levels, rebalance_side}
use algo_treading.MultiLevel.Paper.{take_qty, record_paper_exit}
use algo_treading.MultiLevel.Exits.Levels.{active_qtys, Known, Splits, rebalance_levels-Sums}

module _ {ℓ κ} {F : Type ℓ} ⦃f : Float F⦄ (IsPct : F → Type κ) where
  -- A side without levels, or one whose active levels cover the quantity.
  pub record Side (t : ExitType) (r : ℕ) (g : Group F) : Type (ℓ ⊔ κ) where
    pub covered : (levels_of t g ≡ []) ⊎ Sums (active_qtys (levels_of t g)) r
    pub known : Known IsPct (configs_of t g) (levels_of t g)
    pub fits : r + length (levels_of t g) < 2 ^ 31

  -- A paper group with `r` left, which is live as long as something is left; then each side covers it.
  pub record Holds (r : ℕ) (g : Group F) : Type (ℓ ⊔ κ) where
    pub remaining : g.remaining_qty ≡ pos r
    pub on_paper : (g.trading_mode == "LIVE") ≡ false
    pub live : is_live g.state ≡ ltb 0 r
    pub sl_side : 0 < r → Side ExitType.sl r g
    pub tp_side : 0 < r → Side ExitType.tp r g

  -- A group one of whose levels has just been triggered, with `q` of `r` still to be taken off.
  pub record Fired (t : ExitType) (r q : ℕ) (g : Group F) : Type (ℓ ⊔ κ) where
    pub remaining : g.remaining_qty ≡ pos r
    pub on_paper : (g.trading_mode == "LIVE") ≡ false
    pub live : is_live g.state ≡ true
    pub some_left : 0 < r
    pub q_le : q ≤ r
    pub same : Side t (r - q) g
    pub other : Side (other_side t) r g

module _ {ℓ κ} {F : Type ℓ} ⦃f : Float F⦄ {IsPct : F → Type κ} (splits : Splits IsPct) where
  rebalance_levels-nil :
      (r : ℤ) (g : Group F) (t : ExitType)
      → levels_of t g ≡ []
      → rebalance_levels (configs_of t g) r (levels_of t g) ≡ []
  unfolding rebalance_levels
  rebalance_levels-nil r g t e = rw e refl

  -- The division of what is left makes the side cover it.
  rebalance_side-Side :
      (t : ExitType) (n r : ℕ) (g : Group F)
      → Side IsPct t n g
      → 0 < n
      → r ≤ n
      → Side IsPct t r (rebalance_side t (pos r) g).0
  unfolding rebalance_side
  rebalance_side-Side ExitType.sl n r g s h le = elim s.covered [
    | inl e ↦
        let none_left = rebalance_levels-nil (pos r) g ExitType.sl e in
        record {
          covered = inl none_left;
          known = rw none_left tt;
          fits = rw none_left (omega (arith, s.fits));
        }
    | inr c ↦
        let (c', k', len) =
          rebalance_levels-Sums splits g.sl_level_configs g.sl_levels n r s.known c h
            (omega (arith, s.fits)) in
        record { covered = inr c'; known = k'; fits = omega (arith, s.fits) }
  ]
  rebalance_side-Side ExitType.tp n r g s h le = elim s.covered [
    | inl e ↦
        let none_left = rebalance_levels-nil (pos r) g ExitType.tp e in
        record {
          covered = inl none_left;
          known = rw none_left tt;
          fits = rw none_left (omega (arith, s.fits));
        }
    | inr c ↦
        let (c', k', len) =
          rebalance_levels-Sums splits g.tp_level_configs g.tp_levels n r s.known c h
            (omega (arith, s.fits)) in
        record { covered = inr c'; known = k'; fits = omega (arith, s.fits) }
  ]

  take_qty_lem :
      (t : ExitType) (r q : ℕ) (g : Group F)
      → Fired IsPct t r q g
      → ((take_qty (pos q) g).remaining_qty ≡ pos (r - q))
        × (is_live (take_qty (pos q) g).state ≡ ltb 0 (r - q))
  unfolding take_qty
  take_qty_lem t r q g d =
      let left : g.remaining_qty -32 pos q ≡ pos (r - q) =
        ap (λ z. z -32 pos q) d.remaining ∙ -32_pos r q (omega (arith, d.other.fits)) d.q_le in
      (
        left,
        elim (dec_lt 0 (r - q)) [
          | yes more ↦
              let open_test : leb_ℤ (pos (r - q)) (pos 0) ≡ false = ground arith in
              let above : ltb 0 (r - q) ≡ true = ground arith in rw (left, open_test, above) d.live
          | no none_left ↦
              let closed_test : leb_ℤ (pos (r - q)) (pos 0) ≡ true = ground arith in
              let zero_left : ltb 0 (r - q) ≡ false = ground arith in
              rw (left, closed_test, zero_left)
        ],
      )

  settled : ExitType → ℤ → Group F → Outcome F
  settled t z g = if ltb_ℤ (pos 0) z then rebalance_side (other_side t) z g else (g, [])

  rebalanced-Holds :
      (t : ExitType) (r : ℕ) (g : Group F)
      → g.remaining_qty ≡ pos r
      → (g.trading_mode == "LIVE") ≡ false
      → is_live g.state ≡ ltb 0 r
      → Side IsPct t r g
      → Side IsPct (other_side t) r (rebalance_side (other_side t) (pos r) g).0
      → Holds IsPct r (rebalance_side (other_side t) (pos r) g).0
  unfolding rebalance_side
  rebalanced-Holds ExitType.sl r g e p l s o = record {
    remaining = e;
    on_paper = p;
    live = l;
    sl_side = λ _. record { covered = s.covered; known = s.known; fits = s.fits };
    tp_side = λ _. o;
  }
  rebalanced-Holds ExitType.tp r g e p l s o = record {
    remaining = e;
    on_paper = p;
    live = l;
    sl_side = λ _. o;
    tp_side = λ _. record { covered = s.covered; known = s.known; fits = s.fits };
  }

  settle_at :
      (t : ExitType) (r q : ℕ) (g : Group F)
      → 0 < r
      → g.remaining_qty ≡ pos (r - q)
      → (g.trading_mode == "LIVE") ≡ false
      → is_live g.state ≡ ltb 0 (r - q)
      → Side IsPct t (r - q) g
      → Side IsPct (other_side t) r g
      → Holds IsPct (r - q) (settled t (pos (r - q)) g).0
  unfolding settled
  settle_at t r q g h e p l s o = elim (dec_lt 0 (r - q)) [
    | yes more ↦
        let open_test : ltb_ℤ (pos 0) (pos (r - q)) ≡ true = ground arith in
        rw open_test (
          rebalanced-Holds t (r - q) g e p l s
            (rebalance_side-Side (other_side t) r (r - q) g o h (omega arith)))
    | no none_left ↦
        let closed_test : ltb_ℤ (pos 0) (pos (r - q)) ≡ false = ground arith in
        rw closed_test (record {
          remaining = e;
          on_paper = p;
          live = l;
          sl_side = λ more. absurd (none_left more);
          tp_side = λ more. absurd (none_left more);
        })
  ]

  take_qty-Side :
      (t : ExitType) (z : ℤ) (r : ℕ) (g : Group F)
      → Side IsPct t r g
      → Side IsPct t r (take_qty z g)
  unfolding take_qty
  take_qty-Side ExitType.sl z r g s = record { covered = s.covered; known = s.known; fits = s.fits }
  take_qty-Side ExitType.tp z r g s = record { covered = s.covered; known = s.known; fits = s.fits }

  take_qty-trading_mode : (z : ℤ) (g : Group F) → (take_qty z g).trading_mode ≡ g.trading_mode
  unfolding take_qty
  take_qty-trading_mode z g = refl

  -- After the exit of a triggered level the group holds what is left.
  pub record_paper_exit-Holds :
      (h : Hooks) (t : ExitType) (level : Level F) (p : F) (r q : ℕ) (g : Group F)
      → Fired IsPct t r q g
      → Holds IsPct (r - q) (record_paper_exit h t level (pos q) p g).0
  unfolding record_paper_exit settled
  record_paper_exit-Holds h t level p r q g d =
      let (left, live) = take_qty_lem t r q g d in
      let taken = take_qty (pos q) g in
      subst (λ z. Holds IsPct (r - q) (settled t z taken).0) (sym left)
        (settle_at t r q taken d.some_left left
          (ap (λ m. m == "LIVE") (take_qty-trading_mode (pos q) g) ∙ d.on_paper) live
          (take_qty-Side t (pos q) (r - q) g d.same)
          (take_qty-Side (other_side t) (pos q) r g d.other))
