-- ===== src/MultiLevel/Broker/Fills.antt =====
-- onMultiLevelFilled: a fill that is reported twice, and the fill of the last quantity.
use algo_treading.Base.{
  ◌≡◌, refl, ap, sym, ◌∙◌, Bool, true, false, List, [], ◌∷◌, Option, none, some, All, Bool-cases,
  inl, inr, ◌||◌,
}
use mathlib.Core.Path.{subst}
use algo_treading.Base.Int.{ℤ, pos, leb_ℤ, eqb_ℤ, eqb_ℤ_iff, ◌-32◌}
use algo_treading.Base.Float.{Float}
use algo_treading.MultiLevel.Split.{LevelConfig, compute_rebalanced_qtys}
use algo_treading.MultiLevel.Types.{LevelStatus, ExitType, Level, Group, is_active, is_live, nought}
use algo_treading.MultiLevel.Effects.{levels_of, with_levels, other_side, is_nil}
use algo_treading.MultiLevel.Rebalance.{
  assign_qtys, takes_part, rebalance_levels, rebalance_side, active_pcts, sum_pcts,
}
use algo_treading.MultiLevel.Paper.{take_qty}
use algo_treading.MultiLevel.Broker.{
  find_level, replace_level, fill_level, close_group, cancel_levels, on_level,
  on_multi_level_filled, price_or_zero,
}

module _ {ℓ} {F : Type ℓ} where
  abbrev is_found_active : Option (Level F) → Bool
  is_found_active none = false
  is_found_active (some l) = is_active l.status

module _ {ℓ} {F : Type ℓ} ⦃f : Float F⦄ where
  -- The first level with that number, if there is one, is not active.
  abbrev IsDone : ℤ → List (Level F) → Type 0
  IsDone n ls = is_found_active (find_level n ls) ≡ false

  replace_level-IsDone :
      (n : ℤ) (l : Level F) (ls : List (Level F))
      → is_active l.status ≡ false
      → l.level_num ≡ n
      → IsDone n (replace_level n l ls)
  unfolding find_level replace_level
  replace_level-IsDone n l [] h e = refl
  replace_level-IsDone n l (k ∷ ks) h e =
      let same : eqb_ℤ l.level_num n ≡ true = (eqb_ℤ_iff l.level_num n).1 e in
      elim (Bool-cases (eqb_ℤ k.level_num n)) [
        | inl m ↦ rw (m, same) h
        | inr m ↦ rw (m, m) (replace_level-IsDone n l ks h e)
      ]

  assign_qtys-IsDone :
      (n : ℤ) (cs : List (LevelConfig F)) (ls : List (Level F)) (qs : List ℤ)
      → IsDone n ls
      → IsDone n (assign_qtys cs ls qs)
  unfolding find_level assign_qtys
  assign_qtys-IsDone n cs [] qs h = h
  assign_qtys-IsDone n cs (l ∷ ls) [] h = h
  assign_qtys-IsDone n cs (l ∷ ls) (q ∷ qs) h = elim (Bool-cases (eqb_ℤ l.level_num n)) [
    | inl m ↦ elim (Bool-cases (takes_part cs l)) [
      | inl e ↦ rw (e, m) (rw m at h)
      | inr e ↦ rw (e, m) (rw m at h)
    ]
    | inr m ↦ elim (Bool-cases (takes_part cs l)) [
      | inl e ↦ rw (e, m) (assign_qtys-IsDone n cs ls qs (rw m at h))
      | inr e ↦ rw (e, m) (assign_qtys-IsDone n cs ls (q ∷ qs) (rw m at h))
    ]
  ]

  rebalance_levels-IsDone :
      (n : ℤ) (cs : List (LevelConfig F)) (r : ℤ) (ls : List (Level F))
      → IsDone n ls
      → IsDone n (rebalance_levels cs r ls)
  unfolding rebalance_levels
  rebalance_levels-IsDone n cs r ls h =
      let pcts = active_pcts cs ls in
      let tot = sum_pcts nought pcts in
      elim (Bool-cases (is_nil pcts || f.le tot nought)) [
        | inl e ↦ rw e h
        | inr e ↦ rw e (assign_qtys-IsDone n cs ls (compute_rebalanced_qtys pcts tot r) h)
      ]

  cancel_levels-IsDone : (n : ℤ) (ls : List (Level F)) → IsDone n (cancel_levels ls)
  unfolding find_level cancel_levels
  cancel_levels-IsDone n [] = refl
  cancel_levels-IsDone n (l ∷ ls) = elim (Bool-cases (eqb_ℤ l.level_num n)) [
    | inl m ↦ elim (Bool-cases (is_active l.status)) [
      | inl a ↦ rw (a, m) refl
      | inr a ↦ rw (a, m) a
    ]
    | inr m ↦ elim (Bool-cases (is_active l.status)) [
      | inl a ↦ rw (a, m) (cancel_levels-IsDone n ls)
      | inr a ↦ rw (a, m) (cancel_levels-IsDone n ls)
    ]
  ]

  find_level-level_num :
      (n : ℤ) (ls : List (Level F)) (l : Level F) → find_level n ls ≡ some l → l.level_num ≡ n
  unfolding find_level
  find_level-level_num n [] l e = absurd cc
  find_level-level_num n (k ∷ ks) l e = elim (Bool-cases (eqb_ℤ k.level_num n)) [
    | inl m ↦
        let same : some k ≡ some l = rw m at e in
        let number : k.level_num ≡ n = (eqb_ℤ_iff k.level_num n).0 m in cc
    | inr m ↦ find_level-level_num n ks l (rw m at e)
  ]

  close_group-IsDone :
      (t : ExitType) (n : ℤ) (g : Group F) → IsDone n (levels_of t (close_group g).0)
  unfolding close_group
  close_group-IsDone ExitType.sl n g = cancel_levels-IsDone n g.sl_levels
  close_group-IsDone ExitType.tp n g = cancel_levels-IsDone n g.tp_levels

  rebalance_side-IsDone :
      (t : ExitType) (n r s : ℤ) (g : Group F)
      → IsDone n (levels_of t g)
      → IsDone n (levels_of t (rebalance_side (other_side t) s (rebalance_side t r g).0).0)
  unfolding rebalance_side
  rebalance_side-IsDone ExitType.sl n r s g h =
      rebalance_levels-IsDone n g.sl_level_configs r g.sl_levels h
  rebalance_side-IsDone ExitType.tp n r s g h =
      rebalance_levels-IsDone n g.tp_level_configs r g.tp_levels h

  take_qty-IsDone :
      (t : ExitType) (n q : ℤ) (ls : List (Level F)) (g : Group F)
      → IsDone n ls
      → IsDone n (levels_of t (take_qty q (with_levels t ls g)))
  unfolding take_qty
  take_qty-IsDone ExitType.sl n q ls g h = h
  take_qty-IsDone ExitType.tp n q ls g h = h

  filled_level : Level F → F → Level F
  filled_level l p = record l { status = LevelStatus.triggered; exit_price = p }

  taken : ExitType → Level F → F → Group F → Group F
  unfolding filled_level
  taken t l p g =
      take_qty l.exit_qty
        (with_levels t (replace_level l.level_num (filled_level l p) (levels_of t g)) g)

  taken-IsDone :
      (t : ExitType) (n : ℤ) (l : Level F) (p : F) (g : Group F)
      → l.level_num ≡ n
      → IsDone n (levels_of t (taken t l p g))
  unfolding taken filled_level
  taken-IsDone t n l p g e =
      take_qty-IsDone t n l.exit_qty (replace_level l.level_num (filled_level l p) (levels_of t g))
        g
        (subst (λ m. IsDone n (replace_level m (filled_level l p) (levels_of t g))) (sym e)
          (replace_level-IsDone n (filled_level l p) (levels_of t g) refl e))

  fill_level-closes :
      (t : ExitType) (l : Level F) (p : F) (g : Group F)
      → leb_ℤ (taken t l p g).remaining_qty (pos 0) ≡ true
      → (fill_level t l p g).0 ≡ (close_group (taken t l p g)).0
  unfolding fill_level taken filled_level
  fill_level-closes t l p g z = rw z refl

  fill_level-IsDone :
      (t : ExitType) (n : ℤ) (l : Level F) (p : F) (g : Group F)
      → l.level_num ≡ n
      → IsDone n (levels_of t (fill_level t l p g).0)
  unfolding fill_level taken filled_level
  fill_level-IsDone t n l p g e = elim (Bool-cases (leb_ℤ (taken t l p g).remaining_qty (pos 0))) [
    | inl z ↦ rw z (close_group-IsDone t n (taken t l p g))
    | inr z ↦
        let r = (taken t l p g).remaining_qty in
        rw z (rebalance_side-IsDone t n r r (taken t l p g) (taken-IsDone t n l p g e))
  ]

  on_level-IsDone :
      (t : ExitType) (n : ℤ) (p : F) (g : Group F) (o : Option (Level F))
      → find_level n (levels_of t g) ≡ o
      → IsDone n (levels_of t (on_level t p g o).0)
  unfolding on_level
  on_level-IsDone t n p g none e = ap is_found_active e
  on_level-IsDone t n p g (some l) e = elim (Bool-cases (is_active l.status)) [
    | inl a ↦ rw a (fill_level-IsDone t n l p g (find_level-level_num n (levels_of t g) l e))
    | inr a ↦ rw a (ap is_found_active e ∙ a)
  ]

  on_level-done :
      (t : ExitType) (p : F) (g : Group F) (o : Option (Level F))
      → is_found_active o ≡ false
      → on_level t p g o ≡ (g, [])
  unfolding on_level
  on_level-done t p g none h = refl
  on_level-done t p g (some l) h = rw h refl

  -- A fill of a level that is reported again, with any price, changes nothing and makes no call.
  pub on_multi_level_filled-once :
      (t : ExitType) (n : ℤ) (p q : Option F) (g : Group F)
      → let after = (on_multi_level_filled t n p g).0 in
        on_multi_level_filled t n q after ≡ (after, [])
  unfolding on_multi_level_filled
  on_multi_level_filled-once t n p q g =
      let after = (on_multi_level_filled t n p g).0 in
      on_level-done t (price_or_zero q) after (find_level n (levels_of t after))
        (on_level-IsDone t n (price_or_zero p) g (find_level n (levels_of t g)) refl)

  cancel_levels-All :
      (ls : List (Level F)) → All (λ l. is_active l.status ≡ false) (cancel_levels ls)
  unfolding cancel_levels
  cancel_levels-All [] = tt
  cancel_levels-All (l ∷ ls) = elim (Bool-cases (is_active l.status)) [
    | inl a ↦ rw a (refl, cancel_levels-All ls)
    | inr a ↦ rw a (a, cancel_levels-All ls)
  ]

  -- Not live, without active levels and without a stop-loss order.
  abbrev pub IsClosed : Group F → Type 0
  IsClosed g =
      (is_live g.state ≡ false)
      × All (λ k. is_active k.status ≡ false) g.sl_levels
      × All (λ k. is_active k.status ≡ false) g.tp_levels
      × (g.single_sl_broker_id ≡ "")

  taken-remaining :
      (t : ExitType) (l : Level F) (p : F) (g : Group F)
      → (taken t l p g).remaining_qty ≡ g.remaining_qty -32 l.exit_qty
  unfolding taken take_qty
  taken-remaining ExitType.sl l p g = refl
  taken-remaining ExitType.tp l p g = refl

  take_qty-dead :
      (q : ℤ) (g : Group F)
      → leb_ℤ (take_qty q g).remaining_qty (pos 0) ≡ true
      → is_live (take_qty q g).state ≡ false
  unfolding take_qty
  take_qty-dead q g z = rw z refl

  close_group-IsClosed : (g : Group F) → is_live g.state ≡ false → IsClosed (close_group g).0
  unfolding close_group
  close_group-IsClosed g dead =
      (dead, cancel_levels-All g.sl_levels, cancel_levels-All g.tp_levels, refl)

  fill_level-IsClosed :
      (t : ExitType) (l : Level F) (p : F) (g : Group F)
      → leb_ℤ (g.remaining_qty -32 l.exit_qty) (pos 0) ≡ true
      → IsClosed (fill_level t l p g).0
  unfolding taken
  fill_level-IsClosed t l p g z =
      let none_left = ap (λ r. leb_ℤ r (pos 0)) (taken-remaining t l p g) ∙ z in
      subst IsClosed (sym (fill_level-closes t l p g none_left))
        (close_group-IsClosed (taken t l p g) (take_qty-dead l.exit_qty _ none_left))

  -- The fill of an active level that takes the rest leaves a group that is not live, without active
  -- levels and without a stop-loss order.
  pub on_multi_level_filled-IsClosed :
      (t : ExitType) (n : ℤ) (l : Level F) (p : Option F) (g : Group F)
      → find_level n (levels_of t g) ≡ some l
      → is_active l.status ≡ true
      → leb_ℤ (g.remaining_qty -32 l.exit_qty) (pos 0) ≡ true
      → IsClosed (on_multi_level_filled t n p g).0
  unfolding on_multi_level_filled on_level
  on_multi_level_filled-IsClosed t n l p g e a z =
      let price = price_or_zero p in
      subst (λ o. IsClosed (on_level t price g o).0) (sym e)
        (rw a (fill_level-IsClosed t l price g z))
