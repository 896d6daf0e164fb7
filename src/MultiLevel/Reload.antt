-- ===== src/MultiLevel/Reload.antt =====
-- services/trade-execution/internal/multilevel/reload.go: rebuilding the groups from their rows after a
-- restart. The two queries are arguments; log lines and timestamps are left out. A new group id is an
-- argument; the index holds the entry id of the group, which keeps groups apart as the pointer does.
pub mod Rebuilt
use algo_treading.Base.{
  ℕ, suc, ◌+◌, Bool, true, false, not, ◌&&◌, ◌||◌, String, ◌==◌, List, [], ◌∷◌, ◌++◌, map, Option,
  none, some, any, length, if◌then◌else◌,
}
use algo_treading.Base.Int.{ℤ, pos, leb_ℤ, eqb_ℤ, ◌-32◌}
use algo_treading.Base.Float.{Float}
use algo_treading.Base.Dict.{Dict, insert, lookup}
use algo_treading.MultiLevel.Split.{LevelConfig}
use algo_treading.MultiLevel.Types.{
  Group, GroupState, Level, LevelStatus, ExitType, sl_mode_fixed, mode_multi_level, nought,
}

-- `MultiLevelExitRecord`; the status and the type of exit are the column's words.
pub record ExitRecord {ℓ} (F : Type ℓ) : Type ℓ where
  pub exit_type : String
  pub level_num : ℤ
  pub price_pct : F
  pub qty_pct : F
  pub trigger_price : Option F
  pub exit_qty : Option ℤ
  pub status : String
  pub exit_order_id : Option String
  pub broker_order_id : Option String
  pub exit_price : Option F
  pub original_exit_qty : Option ℤ

-- The columns of the entry order that are read.
pub record EntryRow {ℓ} (F : Type ℓ) : Type ℓ where
  pub order_id : String
  pub user_id : String
  pub strategy_id : String
  pub symbol : String
  pub stock_code : ℤ
  pub order_side : String
  pub trading_mode : String
  pub filled_quantity : ℤ
  pub filled_price : Option F

-- `mlLevelRef`.
pub record LevelRef : Type 0 where
  pub entry_order_id : String
  pub exit_type : String
  pub level_num : ℤ

pub record ReloadStats : Type 0 where
  pub entries_scanned : ℕ
  pub groups_restored : ℕ
  pub groups_skipped : ℕ
  pub levels_restored : ℕ
  pub warn_single_sl_lost : ℕ

abbrev pub or_value {ℓ} : {A : Type ℓ} → A → Option A → A
or_value a none = a
or_value a (some b) = b

unfoldable pub status_of_row : String → LevelStatus
status_of_row s =
    if s == "ACTIVE"
    then LevelStatus.active
    else if s == "TRIGGERED"
    then LevelStatus.triggered
    else if s == "CANCELLED"
    then LevelStatus.cancelled
    else LevelStatus.pending

-- The id of the order at the broker, where it has one.
abbrev pub live_id : Option String → Option String
live_id none = none
live_id (some id) = if id == "" then none else some id

abbrev pub take_exit : ℤ → String → Option ℤ → ℤ
take_exit remaining status none = remaining
take_exit remaining status (some q) =
    if status == "TRIGGERED" && leb_ℤ q remaining then remaining -32 q else remaining

abbrev index_id : LevelRef → Option String → Dict LevelRef → Dict LevelRef
index_id ref none index = index
index_id ref (some id) index = insert id ref index

-- The groups by entry, the index of broker ids and the counts.
pub record Reloaded {ℓ} (F : Type ℓ) : Type ℓ where
  pub groups : Dict (Group F)
  pub index : Dict LevelRef
  pub stats : ReloadStats

module _ {ℓ} {F : Type ℓ} ⦃f : Float F⦄ where
  unfoldable pub level_state_from_record : ExitRecord F → Level F
  unfolding status_of_row
  level_state_from_record r = record {
    level_num = r.level_num;
    trigger_price = or_value nought r.trigger_price;
    exit_qty = or_value (pos 0) r.exit_qty;
    original_exit_qty = or_value (or_value (pos 0) r.exit_qty) r.original_exit_qty;
    status = status_of_row r.status;
    broker_order_id = or_value "" r.broker_order_id;
    exit_order_id = or_value "" r.exit_order_id;
    exit_price = or_value nought r.exit_price;
  }

  abbrev pub config_from_record : ExitRecord F → LevelConfig F
  config_from_record r = record {
    level_num = r.level_num;
    price_pct = r.price_pct;
    qty_pct = r.qty_pct;
  }

  -- The rows of one type of exit.
  unfoldable pub of_type : String → List (ExitRecord F) → List (ExitRecord F)
  of_type t [] = []
  of_type t (r ∷ rs) = let rest = of_type t rs in if r.exit_type == t then r ∷ rest else rest

  -- What remains of the position after the exits that were triggered.
  unfoldable pub remaining_after : ℤ → List (ExitRecord F) → ℤ
  remaining_after remaining [] = remaining
  remaining_after remaining (r ∷ rs) = remaining_after (take_exit remaining r.status r.exit_qty) rs

  unfoldable pub index_rows : String → List (ExitRecord F) → Dict LevelRef → Dict LevelRef
  index_rows entry [] index = index
  index_rows entry (r ∷ rs) index =
      let ref : LevelRef = record {
        entry_order_id = entry;
        exit_type = r.exit_type;
        level_num = r.level_num;
      } in
      index_rows entry rs (index_id ref (live_id r.broker_order_id) index)

  abbrev has_rows : List (ExitRecord F) → Bool
  has_rows [] = false
  has_rows (r ∷ rs) = true

  -- A live group without stop-loss rows had a single order, whose id is lost.
  unfoldable pub is_single_sl_lost : EntryRow F → List (ExitRecord F) → Bool
  unfolding of_type
  is_single_sl_lost e rows = not (has_rows (of_type "SL" rows)) && e.trading_mode == "LIVE"

  unfoldable pub restored_group : String → EntryRow F → F → List (ExitRecord F) → Group F
  unfolding level_state_from_record of_type remaining_after is_single_sl_lost
  restored_group id e price rows =
      let sls = of_type "SL" rows in
      let tps = of_type "TP" rows in
      record {
        group_id = id;
        entry_order_id = e.order_id;
        user_id = e.user_id;
        strategy_id = e.strategy_id;
        symbol = e.symbol;
        stock_code = e.stock_code;
        order_side = e.order_side;
        fill_price = price;
        total_qty = e.filled_quantity;
        sl_levels = map level_state_from_record sls;
        tp_levels = map level_state_from_record tps;
        sl_mode =
            if has_rows sls
            then mode_multi_level
            else if is_single_sl_lost e rows
            then sl_mode_fixed
            else "";
        fixed_sl_pct = nought;
        trailing_sl_pct = nought;
        highest_price = price;
        current_sl_trigger = nought;
        single_sl_broker_id = "";
        tp_mode = if has_rows tps then mode_multi_level else "";
        state = GroupState.active;
        remaining_qty = remaining_after e.filled_quantity rows;
        trading_mode = e.trading_mode;
        has_auth = false;
        sl_level_configs = map config_from_record sls;
        tp_level_configs = map config_from_record tps;
        entry_filled = true;
        evaluating = false;
      }

  -- An entry that is not filled gives no group.
  unfoldable pub build_group_from_db :
      String → EntryRow F → Option F → List (ExitRecord F) → Option (Group F)
  unfolding restored_group
  build_group_from_db id e none rows = none
  build_group_from_db id e (some price) rows =
      if leb_ℤ e.filled_quantity (pos 0) then none else some (restored_group id e price rows)

  abbrev pub skip_group : Reloaded F → Reloaded F
  skip_group m = record m { stats = record m.stats { groups_skipped = m.stats.groups_skipped + 1 } }

  unfoldable pub add_group :
      EntryRow F → List (ExitRecord F) → Option (Group F) → Reloaded F → Reloaded F
  unfolding index_rows is_single_sl_lost
  add_group e rows none m = skip_group m
  add_group e rows (some g) m =
      let lost = if is_single_sl_lost e rows then 1 else 0 in
      record m {
        groups = insert e.order_id g m.groups;
        index = index_rows e.order_id rows m.index;
        stats = record m.stats {
          groups_restored = m.stats.groups_restored + 1;
          levels_restored = m.stats.levels_restored + length rows;
          warn_single_sl_lost = m.stats.warn_single_sl_lost + lost;
        };
      }

  abbrev pub is_known : Option (Group F) → Bool
  is_known none = false
  is_known (some g) = true

  -- One entry: passed over if its group is in memory or it has no rows.
  unfoldable pub reload_entry :
      (String → String) → (String → List (ExitRecord F)) → EntryRow F → Reloaded F → Reloaded F
  unfolding add_group build_group_from_db
  reload_entry new_id rows_of e m =
      let rows = rows_of e.order_id in
      if is_known (lookup e.order_id m.groups) || not (has_rows rows)
      then skip_group m
      else add_group e rows (build_group_from_db (new_id e.order_id) e e.filled_price rows) m

  unfoldable pub reload_entries :
      (String → String)
      → (String → List (ExitRecord F))
      → List (EntryRow F)
      → Reloaded F
      → Reloaded F
  unfolding reload_entry
  reload_entries new_id rows_of [] m = m
  reload_entries new_id rows_of (e ∷ es) m =
      reload_entries new_id rows_of es (reload_entry new_id rows_of e m)

  abbrev find_config : ℤ → LevelConfig F → List (LevelConfig F) → LevelConfig F
  find_config n else_config [] = else_config
  find_config n else_config (c ∷ cs) =
      let rest = find_config n else_config cs in if eqb_ℤ c.level_num n then c else rest

  -- The row that `persistExitLevels` of manager.go writes for a level.
  unfoldable pub row_of_level : String → F → List (LevelConfig F) → Level F → ExitRecord F
  row_of_level t pct configs l =
      let unknown : LevelConfig F = record {
        level_num = l.level_num;
        price_pct = pct;
        qty_pct = nought;
      } in
      let config = find_config l.level_num unknown configs in
      record {
        exit_type = t;
        level_num = l.level_num;
        price_pct = config.price_pct;
        qty_pct = config.qty_pct;
        trigger_price = some l.trigger_price;
        exit_qty = some l.exit_qty;
        status = "ACTIVE";
        exit_order_id = none;
        broker_order_id = none;
        exit_price = none;
        original_exit_qty = none;
      }

  unfoldable pub persist_exit_levels : Group F → List (ExitRecord F)
  unfolding row_of_level
  persist_exit_levels g =
      map (row_of_level "SL" g.fixed_sl_pct g.sl_level_configs) g.sl_levels
      ++ map (row_of_level "TP" nought g.tp_level_configs) g.tp_levels
