-- ===== src/MultiLevel/Exits/Sold.antt =====
-- The quantities that the calls of a handler sell on paper.
use algo_treading.Base.{
  ℕ, zero, suc, ◌≡◌, refl, ap, sym, ◌∙◌, Bool, true, false, not, List, [], ◌∷◌, ◌++◌, arith,
  Bool-cases, inl, inr, if◌then◌else◌, ◌==◌, String,
}
use mathlib.Core.Path.{subst}
use mathlib.Core.List.{append_assoc, append-nil}
use algo_treading.Base.Int.{ℤ, pos, ltb_ℤ}
use algo_treading.Base.Float.{Float}
use algo_treading.MultiLevel.Split.Adjust.{Sums}
use algo_treading.MultiLevel.Types.{ExitType, Level, Group}
use algo_treading.MultiLevel.Effects.{
  Effect, partial_exit, filled_qty, qty_updated, level_triggered, Hooks, when, other_side,
  exit_name, levels_of, configs_of,
}
use algo_treading.MultiLevel.Rebalance.{changed_orders, rebalance_side, rebalance_levels}
use algo_treading.MultiLevel.Paper.{
  record_paper_partial_exit, finish_group_paper, sl_moves, record_paper_exit, take_qty,
  compute_new_sl_after_tp,
}

module _ {ℓ} {F : Type ℓ} where
  abbrev pub sold_by : Effect F → List ℤ
  sold_by (partial_exit qty price pnl reason level_num) = qty ∷ []
  sold_by _ = []

  -- The quantities of the closed positions that are recorded.
  abbrev pub sold : List (Effect F) → List ℤ
  sold [] = []
  sold (e ∷ es) = sold_by e ++ sold es

  pub sold-append : (es ds : List (Effect F)) → sold (es ++ ds) ≡ sold es ++ sold ds
  sold-append [] ds = refl
  sold-append (e ∷ es) ds =
      ap (◌++◌ (sold_by e)) (sold-append es ds) ∙ sym (append_assoc (sold_by e) (sold es) (sold ds))

  sold-skip : (es ds : List (Effect F)) → sold es ≡ [] → sold (es ++ ds) ≡ sold ds
  sold-skip es ds e = sold-append es ds ∙ ap (λ (zs : List ℤ). zs ++ sold ds) e

  sold-when : (b : Bool) (es : List (Effect F)) → sold es ≡ [] → sold (when b es) ≡ []
  sold-when true es e = e
  sold-when false es e = refl

module _ {ℓ} {F : Type ℓ} ⦃f : Float F⦄ where
  sold-changed_orders : (t : ExitType) (ls ns : List (Level F)) → sold (changed_orders t ls ns) ≡ []
  unfolding changed_orders
  sold-changed_orders t [] ns = refl
  sold-changed_orders t (l ∷ ls) [] = refl
  sold-changed_orders t (l ∷ ls) (n ∷ ns) = ground (arith, sold-changed_orders t ls ns)

  sold-finish_group_paper : (h : Hooks) (g : Group F) (x : F) → sold (finish_group_paper h g x) ≡ []
  unfolding finish_group_paper
  sold-finish_group_paper h g x = elim (Bool-cases (g.single_sl_broker_id == "")) [
    | inl e ↦ rw e (elim (Bool-cases h.on_completed) [ inl c ↦ rw c | inr c ↦ rw c ])
    | inr e ↦ rw e (elim (Bool-cases h.on_completed) [ inl c ↦ rw c | inr c ↦ rw c ])
  ]

  sold-sl_moves : (h : Hooks) (t : ExitType) (x : F) → sold (sl_moves h t x) ≡ []
  unfolding sl_moves
  sold-sl_moves h ExitType.sl x = refl
  sold-sl_moves h ExitType.tp x = ground arith

  sold-partial :
      (g : Group F) (q : ℕ) (p : F) (reason : String) (n : ℤ)
      → Sums (sold (record_paper_partial_exit g (pos q) p reason n)) q
  unfolding record_paper_partial_exit
  sold-partial g zero p reason n = ([], refl, refl)
  sold-partial g (suc q) p reason n = (suc q ∷ [], ground arith, omega arith)

  sold-rebalance_side :
      (b : Bool) (t : ExitType) (r : ℤ) (g : Group F)
      → sold ((if b then rebalance_side t r g else (g, [])).1) ≡ []
  unfolding rebalance_side
  sold-rebalance_side true t r g =
      sold-changed_orders t (levels_of t g) (rebalance_levels (configs_of t g) r (levels_of t g))
  sold-rebalance_side false t r g = refl

  -- A paper exit of a level records the quantity of that level and no other.
  pub sold-record_paper_exit :
      (h : Hooks) (t : ExitType) (level : Level F) (q : ℕ) (p : F) (g : Group F)
      → Sums (sold (record_paper_exit h t level (pos q) p g).1) q
  unfolding record_paper_exit
  sold-record_paper_exit h t level q p g =
      subst (λ zs. Sums zs q) (sym only) (sold-partial g q p (exit_name t) level.level_num)
    where
      left : Bool
      left = ltb_ℤ (pos 0) (take_qty (pos q) g).remaining_qty

      balanced : Group F × List (Effect F)
      balanced =
          if left
          then rebalance_side (other_side t) (take_qty (pos q) g).remaining_qty (take_qty (pos q) g)
          else (take_qty (pos q) g, [])

      row : List (Effect F)
      row = record_paper_partial_exit g (pos q) p (exit_name t) level.level_num

      tail : List (Effect F)
      tail = when (not left) (finish_group_paper h balanced.0 p)

      new_sl : F
      new_sl = compute_new_sl_after_tp balanced.0 level.level_num p

      hooks : List (Effect F)
      hooks =
          when h.on_level_triggered
            (level_triggered t level.level_num p (take_qty (pos q) g).remaining_qty ∷ [])

      counted : List (Effect F)
      counted =
          filled_qty (take_qty (pos q) g).remaining_qty
          ∷ when h.on_qty_updated (qty_updated (take_qty (pos q) g).remaining_qty ∷ [])

      quiet : sold (counted ++ (balanced.1 ++ (hooks ++ (sl_moves h t new_sl ++ tail)))) ≡ []
      quiet =
          sold-skip counted _ (sold-when h.on_qty_updated _ refl)
          ∙ sold-skip balanced.1 _ (sold-rebalance_side left (other_side t) _ _)
          ∙ sold-skip hooks _ (sold-when h.on_level_triggered _ refl)
          ∙ sold-skip (sl_moves h t new_sl) _ (sold-sl_moves h t new_sl)
          ∙ sold-when (not left) _ (sold-finish_group_paper h balanced.0 p)

      only : sold (record_paper_exit h t level (pos q) p g).1 ≡ sold row
      only = sold-append row _ ∙ ap (◌++◌ (sold row)) quiet ∙ append-nil (sold row)
