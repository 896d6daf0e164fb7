-- ===== src/Rules/Store/Events.antt =====
-- The writer's operations as events, and runs of them.
use algo_treading.Base.{ℕ, String, List, [], ◌∷◌, Option}
use algo_treading.Rules.Strategy.{Strategy}
use algo_treading.Rules.Store.{
  Writer, Applied, apply_upsert, apply_pause, apply_resume, apply_delete,
}

pub data Event {ℓ} (F : Type ℓ) : Type ℓ where
  upsert : Option (Strategy F) → ℕ → Event F
  pause : String → String → ℕ → Event F
  resume : String → String → ℕ → Event F
  remove : String → String → ℕ → Event F

module _ {ℓ} {F : Type ℓ} where
  unfoldable pub apply : Event F → Writer F → Applied × Writer F
  apply (Event.upsert s version) w = apply_upsert s version w
  apply (Event.pause u id version) w = apply_pause u id version w
  apply (Event.resume u id version) w = apply_resume u id version w
  apply (Event.remove u id version) w = apply_delete u id version w

  unfoldable pub run : List (Event F) → Writer F → Writer F
  run [] w = w
  run (e ∷ es) w = run es (apply e w).1
