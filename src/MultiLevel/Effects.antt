-- ===== src/MultiLevel/Effects.antt =====
-- services/trade-execution/internal/multilevel: the calls that the handlers of a group make, and the views
-- of a group that they share.
use algo_treading.Base.{Bool, true, false, String, List, [], ◌∷◌, Option, none, some}
use algo_treading.Base.Int.{ℤ}
use algo_treading.MultiLevel.Split.{LevelConfig}
use algo_treading.MultiLevel.Types.{LevelStatus, ExitType, Level, Group}

-- The calls of the broker, the repository, the manager's indexes and the paper hooks.
pub data Effect {ℓ} (F : Type ℓ) : Type ℓ where
  level_status : ExitType → ℤ → LevelStatus → F → Effect F
  partial_exit : ℤ → F → F → String → ℤ → Effect F
  filled_qty : ℤ → Effect F
  qty_updated : ℤ → Effect F
  level_triggered : ExitType → ℤ → F → ℤ → Effect F
  sl_moved : F → Effect F
  group_completed : F → F → Effect F
  unregister : Effect F
  unsubscribe : Effect F
  forget_sl : String → Effect F
  forget_level : String → Effect F
  cancel_order : String → Effect F
  modify_level : String → String → ℤ → F → ExitType → Effect F
  modify_sl : String → ℤ → F → Effect F
  place_market : ℤ → F → ExitType → ℤ → Effect F
  replace_sl : ℤ → Effect F
  replace_sl_trailing : ℤ → Effect F
  persist_levels : Effect F
  place_fixed_sl : ℤ → Effect F
  place_trailing_sl : Effect F
  place_multi_sl : Effect F
  place_multi_tp : Effect F
  subscribe : Effect F

-- Which of the paper hooks are set.
pub record Hooks : Type 0 where
  pub on_completed : Bool
  pub on_level_triggered : Bool
  pub on_qty_updated : Bool
  pub on_sl_moved : Bool

abbrev pub when {ℓ} : {A : Type ℓ} → Bool → List A → List A
when true xs = xs
when false xs = []

abbrev pub other_side : ExitType → ExitType
other_side ExitType.sl = ExitType.tp
other_side ExitType.tp = ExitType.sl

abbrev pub exit_name : ExitType → String
exit_name ExitType.sl = "SL"
exit_name ExitType.tp = "TP"

abbrev pub is_nil {ℓ} : {A : Type ℓ} → List A → Bool
is_nil [] = true
is_nil (x ∷ xs) = false

-- The new state of the group, and the calls.
abbrev pub Outcome {ℓ} : Type ℓ → Type ℓ
Outcome F = Group F × List (Effect F)

abbrev pub levels_of {ℓ} : {F : Type ℓ} → ExitType → Group F → List (Level F)
levels_of ExitType.sl g = g.sl_levels
levels_of ExitType.tp g = g.tp_levels

abbrev pub configs_of {ℓ} : {F : Type ℓ} → ExitType → Group F → List (LevelConfig F)
configs_of ExitType.sl g = g.sl_level_configs
configs_of ExitType.tp g = g.tp_level_configs

abbrev pub with_levels {ℓ} : {F : Type ℓ} → ExitType → List (Level F) → Group F → Group F
with_levels ExitType.sl ls g = record g { sl_levels = ls }
with_levels ExitType.tp ls g = record g { tp_levels = ls }

-- The level before a hit in a longer list.
abbrev pub skip {ℓ} :
    {F : Type ℓ} → Level F → Option (Level F × List (Level F)) → Option (Level F × List (Level F))
skip l none = none
skip l (some (hit, rest)) = some (hit, l ∷ rest)
