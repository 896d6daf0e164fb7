-- ===== src/MultiLevel/Broker/Entry.antt =====
-- OnEntryFill: after the fill of the entry each side that has levels covers the filled quantity.
use algo_treading.Base.{
  ℕ, ◌^◌, ◌≤◌, ◌<◌, ◌≡◌, refl, ap, sym, ◌∙◌, ◌⊎◌, inl, inr, Bool, true, false, String, ◌==◌, List,
  [], ◌∷◌, ◌++◌, map, arith, length, All, Bool-cases, any, if◌then◌else◌,
}
use mathlib.Core.Path.{subst}
use algo_treading.Base.Int.{ℤ, pos, negsuc, ltb_ℤ, eqb_ℤ, +ℤ_pos}
use algo_treading.Base.Float.{Float}
use algo_treading.MultiLevel.Split.{LevelConfig, compute_initial_exit_qtys}
use algo_treading.MultiLevel.Split.Adjust.{sum, Sums}
use algo_treading.MultiLevel.Split.Initial.{
  sum_ℤ, InRange, IsPortion, compute_initial_exit_qtys-sum,
}
use algo_treading.Base.Sort.{length-sort_from, All-sort_from}
use algo_treading.MultiLevel.Types.{
  ExitType, Level, Group, is_live, calc_sl_trigger_price, calc_tp_limit_price,
}
use algo_treading.MultiLevel.Rebalance.{qty_pct_of}
use algo_treading.MultiLevel.Effects.{configs_of, levels_of}
use algo_treading.MultiLevel.Exits.Levels.{active_qtys, Known}
use algo_treading.MultiLevel.Exits.Invariant.{Side, Holds}
use algo_treading.MultiLevel.Broker.{
  build_levels, sort_configs, choose_configs, take_fill, fill_entry, on_entry_fill,
}

else_fst {ℓ κ} :
    {A : Type ℓ} {B : Type κ} (b : Bool) → b ≡ false → (x y : A × B) → (if b then x else y).0 ≡ y.0
else_fst b e x y = rw e refl

pos_inj : (a b : ℕ) → pos a ≡ pos b → a ≡ b
pos_inj a b e = cc

-- Parts that are not negative are naturals.
naturals : (n : ℕ) (zs : List ℤ) → All (InRange n) zs → (ns : List ℕ) × (zs ≡ map pos ns)
naturals n [] a = ([], refl)
naturals n (pos q ∷ zs) (h, a) = let (ns, e) = naturals n zs a in (q ∷ ns, ap (◌∷◌ (pos q)) e)
naturals n (negsuc q ∷ zs) (h, a) = absurd (omega (arith, h))

sum_ℤ-pos : (ns : List ℕ) → sum_ℤ (map pos ns) ≡ pos (sum ns)
sum_ℤ-pos [] = refl
sum_ℤ-pos (n ∷ ns) = rw (sum_ℤ-pos ns) (+ℤ_pos n (sum ns))

Sums-sum_ℤ : (m n : ℕ) (zs : List ℤ) → All (InRange n) zs → sum_ℤ zs ≡ pos m → Sums zs m
Sums-sum_ℤ m n zs a e =
    let (ns, is_ns) = naturals n zs a in
    (ns, is_ns, pos_inj (sum ns) m (sym (sum_ℤ-pos ns) ∙ ap sum_ℤ (sym is_ns) ∙ e))

module _ {ℓ} {F : Type ℓ} where
  abbrev numbered : ℤ → LevelConfig F → Bool
  numbered n c = eqb_ℤ c.level_num n

  abbrev AllNumbered : List (LevelConfig F) → List (LevelConfig F) → Type 0
  AllNumbered all = All (λ c. any (numbered c.level_num) all ≡ true)

  numbered-cons :
      (c : LevelConfig F) (all cs : List (LevelConfig F))
      → AllNumbered all cs
      → AllNumbered (c ∷ all) cs
  numbered-cons c all [] a = tt
  numbered-cons c all (d ∷ cs) (p, a) = (ground (arith, p), numbered-cons c all cs a)

  numbered_self : (cs : List (LevelConfig F)) → AllNumbered cs cs
  numbered_self [] = tt
  numbered_self (c ∷ cs) = (ground arith, numbered-cons c cs cs (numbered_self cs))

module _ {ℓ} {F : Type ℓ} ⦃f : Float F⦄ (price : F → F) (id : ℤ → String) where
  module _ {κ} (IsPct : F → Type κ) where
    IsPct-qty_pct_of :
        (n : ℤ) (cs : List (LevelConfig F))
        → All (λ c. IsPct c.qty_pct) cs
        → any (numbered n) cs ≡ true
        → IsPct (qty_pct_of cs n)
    unfolding qty_pct_of
    IsPct-qty_pct_of n [] a h = absurd cc
    IsPct-qty_pct_of n (c ∷ cs) (p, ps) h = elim (Bool-cases (eqb_ℤ c.level_num n)) [
      | inl e ↦ rw e p
      | inr e ↦ rw e (IsPct-qty_pct_of n cs ps (rw e at h))
    ]

    build_levels-Known :
        (all cs : List (LevelConfig F)) (qs : List ℤ)
        → All (λ c. IsPct c.qty_pct) all
        → AllNumbered all cs
        → Known IsPct all (build_levels price id cs qs)
    unfolding build_levels
    build_levels-Known all [] qs a b = tt
    build_levels-Known all (c ∷ cs) [] a b = tt
    build_levels-Known all (c ∷ cs) (q ∷ qs) a (p, b) =
        (IsPct-qty_pct_of c.level_num all a p, build_levels-Known all cs qs a b)

  active_qtys-build_levels :
      (cs : List (LevelConfig F)) (qs : List ℤ)
      → length qs ≡ length cs
      → active_qtys (build_levels price id cs qs) ≡ qs
  unfolding active_qtys build_levels
  active_qtys-build_levels [] [] e = refl
  active_qtys-build_levels [] (q ∷ qs) e = absurd (omega arith)
  active_qtys-build_levels (c ∷ cs) [] e = absurd (omega arith)
  active_qtys-build_levels (c ∷ cs) (q ∷ qs) e =
      ap (◌∷◌ q) (active_qtys-build_levels cs qs (omega arith))

  length-build_levels :
      (cs : List (LevelConfig F)) (qs : List ℤ) → length (build_levels price id cs qs) ≤ length cs
  unfolding build_levels
  length-build_levels [] qs = omega arith
  length-build_levels (c ∷ cs) [] = omega arith
  length-build_levels (c ∷ cs) (q ∷ qs) = omega (arith, length-build_levels cs qs)

  -- The levels that are built are none, or they cover the quantity.
  built :
      (n : ℕ) (cs : List (LevelConfig F))
      → 0 < n
      → n < 2 ^ 30
      → All (IsPortion n) cs
      → let ls = build_levels price id cs (compute_initial_exit_qtys cs (pos n)) in
        (ls ≡ []) ⊎ Sums (active_qtys ls) n
  unfolding build_levels
  built n [] h k a = inl refl
  built n (c ∷ cs) h k a =
      let (adds, bounds, len) = compute_initial_exit_qtys-sum c cs n h k a in
      let qs = compute_initial_exit_qtys (c ∷ cs) (pos n) in
      inr (
        subst (λ zs. Sums zs n) (sym (active_qtys-build_levels (c ∷ cs) qs len))
          (Sums-sum_ℤ n n qs bounds adds))

module _ {ℓ} {F : Type ℓ} ⦃f : Float F⦄ where
  on_entry_fill-first :
      (id : ExitType → ℤ → String) (g : Group F) (p : F) (n : ℤ) (sl tp : List (LevelConfig F))
      → g.entry_filled ≡ false
      → (on_entry_fill id g p n sl tp).0 ≡ fill_entry id g p n sl tp
  unfolding on_entry_fill
  on_entry_fill-first id g p n sl tp e = else_fst g.entry_filled e (g, []) _

-- The levels of one side fit the quantity: few enough, percentages of the kind, parts in range.
abbrev pub Fitting {ℓ κ} :
    {F : Type ℓ} → ⦃f : Float F⦄ → (F → Type κ) → ℕ → List (LevelConfig F) → Type κ
Fitting IsPct n cs = (length cs < 2 ^ 30) × All (λ c. IsPct c.qty_pct × IsPortion n c) cs

module _ {ℓ κ} {F : Type ℓ} ⦃f : Float F⦄ (IsPct : F → Type κ) where
  Fitting-sort_configs :
      (n : ℕ) (cs : List (LevelConfig F)) → Fitting IsPct n cs → Fitting IsPct n (sort_configs cs)
  unfolding sort_configs
  Fitting-sort_configs n cs (few, all) =
      let less = λ (a b : LevelConfig F). ltb_ℤ a.level_num b.level_num in
      let same = length-sort_from less [] cs in
      (
        omega (arith, few, same),
        All-sort_from less (λ c. IsPct c.qty_pct × IsPortion n c) [] cs tt all,
      )

  first_part :
      (n : ℕ) (cs : List (LevelConfig F))
      → All (λ c. IsPct c.qty_pct × IsPortion n c) cs
      → All (λ c. IsPct c.qty_pct) cs
  first_part n [] a = tt
  first_part n (c ∷ cs) (p, a) = (p.0, first_part n cs a)

  second_part :
      (n : ℕ) (cs : List (LevelConfig F))
      → All (λ c. IsPct c.qty_pct × IsPortion n c) cs
      → All (IsPortion n) cs
  second_part n [] a = tt
  second_part n (c ∷ cs) (p, a) = (p.1, second_part n cs a)

  module _ (n : ℕ) (more : 0 < n) (small : n < 2 ^ 30) where
    built-Side :
        (t : ExitType) (price : F → F) (id : ℤ → String) (g : Group F)
        → Fitting IsPct n (configs_of t g)
        → levels_of t g
          ≡ build_levels price id
              (configs_of t g)
              (compute_initial_exit_qtys (configs_of t g) (pos n))
        → Side IsPct t n g
    built-Side t price id g (few, all) e =
        let cs = configs_of t g in
        let qs = compute_initial_exit_qtys cs (pos n) in
        let len = length-build_levels price id cs qs in
        let fewer : length (levels_of t g) ≤ length cs =
          subst (λ ls. length ls ≤ length cs) (sym e) len in
        record {
          covered =
              subst (λ ls. (ls ≡ []) ⊎ Sums (active_qtys ls) n) (sym e)
                (built price id n cs more small (second_part n cs all));
          known =
              subst (Known IsPct cs) (sym e) (
                build_levels-Known price id IsPct cs cs qs (first_part n cs all)
                  (numbered_self cs));
          fits = omega (arith, small, few, fewer);
        }

    fill_entry-Holds :
        (id : ExitType → ℤ → String) (g : Group F) (p : F) (sl tp : List (LevelConfig F))
        → is_live g.state ≡ true
        → (g.trading_mode == "LIVE") ≡ false
        → g.sl_levels ≡ []
        → g.tp_levels ≡ []
        → Fitting IsPct n (choose_configs sl g.sl_level_configs)
        → Fitting IsPct n (choose_configs tp g.tp_level_configs)
        → Holds IsPct n (fill_entry id g p (pos n) sl tp)
    unfolding fill_entry take_fill
    fill_entry-Holds id g p sl tp live paper no_sl no_tp fit_sl fit_tp =
        let after = fill_entry id g p (pos n) sl tp in
        let sl_configs = sort_configs (choose_configs sl g.sl_level_configs) in
        let tp_configs = sort_configs (choose_configs tp g.tp_level_configs) in
        let filled = take_fill g p (pos n) sl_configs tp_configs in
        let sl_built =
          build_levels (calc_sl_trigger_price filled) (id ExitType.sl) sl_configs
            (compute_initial_exit_qtys sl_configs (pos n)) in
        let tp_built =
          build_levels (calc_tp_limit_price filled) (id ExitType.tp) tp_configs
            (compute_initial_exit_qtys tp_configs (pos n)) in
        record {
          remaining = refl;
          on_paper = paper;
          live = live ∙ ground arith;
          sl_side = λ _.
              built-Side ExitType.sl (calc_sl_trigger_price filled) (id ExitType.sl) after
                (Fitting-sort_configs n (choose_configs sl g.sl_level_configs) fit_sl)
                (ap (λ (ls : List (Level F)). ls ++ sl_built) no_sl);
          tp_side = λ _.
              built-Side ExitType.tp (calc_tp_limit_price filled) (id ExitType.tp) after
                (Fitting-sort_configs n (choose_configs tp g.tp_level_configs) fit_tp)
                (ap (λ (ls : List (Level F)). ls ++ tp_built) no_tp);
        }

    -- After the first fill of the entry of a live paper group without levels, the whole filled quantity
    -- is left and each side that has levels covers it, if the levels that are used fit it.
    pub on_entry_fill-Holds :
        (id : ExitType → ℤ → String) (g : Group F) (p : F) (sl tp : List (LevelConfig F))
        → g.entry_filled ≡ false
        → is_live g.state ≡ true
        → (g.trading_mode == "LIVE") ≡ false
        → g.sl_levels ≡ []
        → g.tp_levels ≡ []
        → Fitting IsPct n (choose_configs sl g.sl_level_configs)
        → Fitting IsPct n (choose_configs tp g.tp_level_configs)
        → Holds IsPct n (on_entry_fill id g p (pos n) sl tp).0
    unfolding on_entry_fill
    on_entry_fill-Holds id g p sl tp first live paper no_sl no_tp fit_sl fit_tp =
        subst (Holds IsPct n) (sym (on_entry_fill-first id g p (pos n) sl tp first))
          (fill_entry-Holds id g p sl tp live paper no_sl no_tp fit_sl fit_tp)
