-- ===== src/MultiLevel/Reload/Rebuilt.antt =====
-- What is rebuilt from the rows of a group whose entry has just filled, and what remains of a position.
use algo_treading.Base.{
  ℕ, ◌-◌, ◌≤◌, ◌<◌, ◌^◌, true, false, String, ◌==◌, List, [], ◌∷◌, ◌++◌, map, Option, none, some,
  ◌≡◌, refl, ap, ◌∙◌, sym, arith, if◌then◌else◌, total, Bool-cases, inl, inr,
}
use algo_treading.Base.Int.{ℤ, pos, negsuc, pos_part, -32_pos}
use algo_treading.Base.Float.{Float}
use algo_treading.MultiLevel.Split.{LevelConfig}
use algo_treading.MultiLevel.Types.{Group, Level, LevelStatus, nought}
use algo_treading.MultiLevel.Reload.{
  ExitRecord, EntryRow, level_state_from_record, status_of_row, of_type, take_exit, remaining_after,
  restored_group, row_of_level, persist_exit_levels,
}

append_nil {ℓ} : {A : Type ℓ} (xs : List A) → xs ++ [] ≡ xs
append_nil [] = refl
append_nil (x ∷ xs) = ap (λ ys. x ∷ ys) (append_nil xs)

abbrev pub qty_of : Option ℤ → ℕ
qty_of none = 0
qty_of (some q) = pos_part q

abbrev pub IsNonnegative : Option ℤ → Type 0
IsNonnegative (some (negsuc n)) = ⊥
IsNonnegative _ = Unit

take_lem :
    (n : ℕ) (status : String) (q : Option ℤ)
    → IsNonnegative q
    → n < 2 ^ 31
    → (if status == "TRIGGERED" then qty_of q else 0) ≤ n
    → take_exit (pos n) status q ≡ pos (n - (if status == "TRIGGERED" then qty_of q else 0))
take_lem n status none h small fits = ground arith
take_lem n status (some (pos q)) h small fits = elim (Bool-cases (status == "TRIGGERED")) [
  | inl e ↦
      let is_q : (if status == "TRIGGERED" then q else 0) ≡ q = rw e refl in
      let fits_q : q ≤ n = omega arith in
      let exact = -32_pos n q small fits_q in ground (arith, exact)
  | inr e ↦ rw e (ap pos (omega arith))
]
take_lem n status (some (negsuc q)) h small fits = elim h [ ]

module _ {ℓ} {F : Type ℓ} ⦃f : Float F⦄ where
  -- A level that watches its price, with all of its quantity and without orders.
  abbrev pub as_new : Level F → Level F
  as_new l = record l {
    status = LevelStatus.active;
    original_exit_qty = l.exit_qty;
    broker_order_id = "";
    exit_order_id = "";
    exit_price = nought;
  }

  level_lem :
      (t : String) (pct : F) (configs : List (LevelConfig F)) (l : Level F)
      → level_state_from_record (row_of_level t pct configs l) ≡ as_new l
  unfolding level_state_from_record row_of_level status_of_row
  level_lem t pct configs l = refl

  -- The rows of the levels of one side, before other rows.
  rows_own :
      (t : String) (pct : F) (configs : List (LevelConfig F)) (ls : List (Level F))
      (rest : List (ExitRecord F))
      → t == t ≡ true
      → map level_state_from_record (of_type t (map (row_of_level t pct configs) ls ++ rest))
        ≡ map as_new ls ++ map level_state_from_record (of_type t rest)
  unfolding of_type row_of_level level_state_from_record status_of_row
  rows_own t pct configs [] rest same = refl
  rows_own t pct configs (l ∷ ls) rest same =
      rw same (ap (λ xs. as_new l ∷ xs) (rows_own t pct configs ls rest same))

  rows_other :
      (t u : String) (pct : F) (configs : List (LevelConfig F)) (ls : List (Level F))
      (rest : List (ExitRecord F))
      → u == t ≡ false
      → of_type t (map (row_of_level u pct configs) ls ++ rest) ≡ of_type t rest
  unfolding of_type row_of_level
  rows_other t u pct configs [] rest distinct = refl
  rows_other t u pct configs (l ∷ ls) rest distinct =
      rw distinct (rows_other t u pct configs ls rest distinct)

  remaining_own :
      (t : String) (pct : F) (configs : List (LevelConfig F)) (q : ℤ) (ls : List (Level F))
      (rest : List (ExitRecord F))
      → remaining_after q (map (row_of_level t pct configs) ls ++ rest) ≡ remaining_after q rest
  unfolding remaining_after row_of_level
  remaining_own t pct configs q [] rest = refl
  remaining_own t pct configs q (l ∷ ls) rest = remaining_own t pct configs q ls rest

  -- The group that is rebuilt from the rows which are written when the entry fills has the levels of the
  -- group as they were new, without the ids of exit orders, and the whole filled quantity remains.
  pub restored_group-persist_exit_levels :
      (id : String) (e : EntryRow F) (price : F) (g : Group F)
      → let r = restored_group id e price (persist_exit_levels g) in
        (r.sl_levels ≡ map as_new g.sl_levels)
        × (r.tp_levels ≡ map as_new g.tp_levels)
        × (r.remaining_qty ≡ e.filled_quantity)
  unfolding restored_group persist_exit_levels of_type remaining_after
  restored_group-persist_exit_levels id e price g =
      let sls = map (row_of_level "SL" g.fixed_sl_pct g.sl_level_configs) g.sl_levels in
      let tps = map (row_of_level "TP" nought g.tp_level_configs) g.tp_levels in
      let no_sl = rows_other "SL" "TP" nought g.tp_level_configs g.tp_levels [] refl in
      (
        rows_own "SL" g.fixed_sl_pct g.sl_level_configs g.sl_levels tps refl
            ∙ ap (λ rs. map as_new g.sl_levels ++ map level_state_from_record (of_type "SL" rs))
                (sym (append_nil tps))
            ∙ ap (λ rs. map as_new g.sl_levels ++ map level_state_from_record rs) no_sl
            ∙ append_nil (map as_new g.sl_levels),
        ap (λ rs. map level_state_from_record rs)
              (rows_other "TP" "SL" g.fixed_sl_pct g.sl_level_configs g.sl_levels tps refl)
            ∙ ap (λ rs. map level_state_from_record (of_type "TP" rs)) (sym (append_nil tps))
            ∙ rows_own "TP" nought g.tp_level_configs g.tp_levels [] refl
            ∙ append_nil (map as_new g.tp_levels),
        remaining_own "SL" g.fixed_sl_pct g.sl_level_configs e.filled_quantity g.sl_levels tps
            ∙ ap (remaining_after e.filled_quantity) (sym (append_nil tps))
            ∙ remaining_own "TP" nought g.tp_level_configs e.filled_quantity g.tp_levels [],
      )

  -- The quantity of a triggered exit.
  abbrev pub triggered_qty : ExitRecord F → ℕ
  triggered_qty r = if r.status == "TRIGGERED" then qty_of r.exit_qty else 0

  abbrev pub AllNonnegative : List (ExitRecord F) → Type 0
  AllNonnegative [] = Unit
  AllNonnegative (r ∷ rs) = IsNonnegative r.exit_qty × AllNonnegative rs

  -- What remains is the filled quantity less the quantities of the triggered exits, if none is negative
  -- and they come to no more than was filled.
  pub remaining_after_lem :
      (n : ℕ) (rows : List (ExitRecord F))
      → AllNonnegative rows
      → n < 2 ^ 31
      → total triggered_qty rows ≤ n
      → remaining_after (pos n) rows ≡ pos (n - total triggered_qty rows)
  unfolding remaining_after
  remaining_after_lem n [] all small fits = ap pos (omega arith)
  remaining_after_lem n (r ∷ rs) (first, all) small fits =
      let left = n - triggered_qty r in
      ap (λ q. remaining_after q rs) (take_lem n r.status r.exit_qty first small (omega arith))
      ∙ remaining_after_lem left rs all (omega arith) (omega arith)
      ∙ ap pos (omega arith)
