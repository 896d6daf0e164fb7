-- ===== src/Rules/Sync.antt =====
-- services/rules-engine/internal/configsync/consumer.go and startup/bootstrap.go: how the store is filled
-- and kept up to date.
pub mod Messages
pub mod Loaded
use algo_treading.Base.{
  ℕ, Bool, true, false, not, ◌&&◌, ◌||◌, ◌==◌, List, [], ◌∷◌, Option, none, some, leb, eqb, ltb,
  length, if◌then◌else◌,
}
use algo_treading.Base.Float.{Float}
use algo_treading.Rules.Strategy.{Strategy, is_loadable}
use algo_treading.Rules.Payload.{ConfigEventType, ConfigEvent, StrategyPayload, to_model_strategy}
use algo_treading.Rules.Store.{
  Writer, Applied, applied, failed, apply_upsert, apply_pause, apply_resume, apply_delete,
  bulk_load, get_strategy, metrics,
}

module _ {ℓ} {F : Type ℓ} ⦃f : Float F⦄ where
  -- The check of the event's version against the stored strategy's; an event without a version passes.
  unfoldable pub is_old : ℕ → Option (Strategy F) → Bool
  is_old version none = false
  is_old version (some s) = not (eqb version 0) && leb version s.version

  unfoldable pub upsert_payload : ℕ → Option (StrategyPayload F) → Writer F → Applied × Writer F
  upsert_payload version none w = (applied false, w)
  upsert_payload version (some p) w = elim (to_model_strategy p) [
    | none ↦ (applied false, w)
    | some s ↦ apply_upsert (some (record s { version = version })) version w
  ]

  unfoldable pub dispatch : ConfigEvent F → Writer F → Applied × Writer F
  dispatch e w = elim e.kind [
    | ConfigEventType.created ↦ upsert_payload e.version e.config w
    | ConfigEventType.updated ↦ upsert_payload e.version e.config w
    | ConfigEventType.paused ↦ apply_pause e.user_id e.strategy_id e.version w
    | ConfigEventType.resumed ↦ apply_resume e.user_id e.strategy_id e.version w
    | ConfigEventType.deleted ↦ apply_delete e.user_id e.strategy_id e.version w
    | ConfigEventType.other ↦ (applied false, w)
  ]

  -- `ProcessMessage` of a message that is the event, or that does not parse.
  unfoldable pub process_message : Option (ConfigEvent F) → Writer F → Applied × Writer F
  process_message none w = (failed "unmarshal ConfigEvent", w)
  process_message (some e) w =
      if e.user_id == "" || e.strategy_id == ""
      then (applied false, w)
      else if is_old e.version (get_strategy e.user_id e.strategy_id w)
      then (applied false, w)
      else dispatch e w

  unfoldable pub process_all : List (Option (ConfigEvent F)) → Writer F → Writer F
  process_all [] w = w
  process_all (e ∷ es) w = process_all es (process_message e w).1

  -- The strategies that the bootstrapper keeps.
  unfoldable pub valid_only : List (Option (Strategy F)) → List (Option (Strategy F))
  valid_only [] = []
  valid_only (none ∷ ss) = valid_only ss
  valid_only (some s ∷ ss) =
      let rest = valid_only ss in if is_loadable s then some s ∷ rest else rest

  -- `Bootstrapper.Run` on what the client fetched, or its error: an error, or nothing, and the writer.
  unfoldable pub bootstrap : Option (List (Option (Strategy F))) → Writer F → Applied × Writer F
  bootstrap none w = (failed "fetch", w)
  bootstrap (some fetched) w =
      let loaded = bulk_load (valid_only fetched) w in
      if eqb (metrics loaded).1 0 && ltb 0 (length fetched)
      then (failed "FATAL: fetched strategies but 0 loaded", loaded)
      else (applied true, loaded)
