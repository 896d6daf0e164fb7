-- ===== src/Rules/Sync/Messages.antt =====
-- The messages of the consumer as events of the store, and runs of them.
use algo_treading.Base.{
  ℕ, ◌≡◌, refl, sym, Bool, true, false, ◌||◌, String, ◌==◌, List, [], ◌∷◌, Option, none, some, ◌⊎◌,
  inl, inr, if◌then◌else◌, All,
}
use mathlib.Core.Path.{subst}
use algo_treading.Base.Float.{Float}
use algo_treading.Rules.Strategy.{Strategy}
use algo_treading.Rules.Payload.{ConfigEventType, ConfigEvent, StrategyPayload, to_model_strategy}
use algo_treading.Rules.Store.{
  Writer, Applied, applied, apply_upsert, apply_delete, get_strategy, unnamed, stale, key,
}
use algo_treading.Rules.Store.Events.{Event, apply}
use algo_treading.Rules.Store.Tombstones.{
  Gone, IsOld, apply-Gone, apply_delete-Gone, Gone-get_strategy,
}
use algo_treading.Rules.Sync.{is_old, upsert_payload, dispatch, process_message, process_all}

module _ {ℓ} {F : Type ℓ} ⦃f : Float F⦄ where
  abbrev upsert_as : ℕ → Option (Strategy F) → Option (Event F)
  upsert_as version none = none
  upsert_as version (some s) = some (Event.upsert (some (record s { version = version })) version)

  abbrev upsert_of : ℕ → Option (StrategyPayload F) → Option (Event F)
  upsert_of version none = none
  upsert_of version (some p) = upsert_as version (to_model_strategy p)

  abbrev asked :
      ConfigEventType → String → String → ℕ → Option (StrategyPayload F) → Option (Event F)
  asked ConfigEventType.created u id version config = upsert_of version config
  asked ConfigEventType.updated u id version config = upsert_of version config
  asked ConfigEventType.paused u id version config = some (Event.pause u id version)
  asked ConfigEventType.resumed u id version config = some (Event.resume u id version)
  asked ConfigEventType.deleted u id version config = some (Event.remove u id version)
  asked ConfigEventType.other u id version config = none

  -- The event of the store that a message asks for, if it asks for one.
  abbrev pub event_of : Option (ConfigEvent F) → Option (Event F)
  event_of none = none
  event_of (some e) = asked e.kind e.user_id e.strategy_id e.version e.config

  abbrev apply_asked : Option (Event F) → Writer F → Writer F
  apply_asked none w = w
  apply_asked (some e) w = (apply e w).1

  as_asked :
      (version : ℕ) (o : Option (Strategy F)) (w : Writer F)
      → (let result : Applied × Writer F = elim o [
        | none ↦ (applied false, w)
        | some s ↦ apply_upsert (some (record s { version = version })) version w
      ] in
          result.1 ≡ apply_asked (upsert_as version o) w)
  unfolding apply
  as_asked version none w = refl
  as_asked version (some s) w = refl

  upsert_payload-asked :
      (version : ℕ) (config : Option (StrategyPayload F)) (w : Writer F)
      → (upsert_payload version config w).1 ≡ apply_asked (upsert_of version config) w
  unfolding upsert_payload apply
  upsert_payload-asked version none w = refl
  upsert_payload-asked version (some p) w = as_asked version (to_model_strategy p) w

  dispatch-asked :
      (kind : ConfigEventType) (u id : String) (version : ℕ) (config : Option (StrategyPayload F))
      (w : Writer F)
      → (dispatch
          (record {
            kind = kind;
            user_id = u;
            strategy_id = id;
            version = version;
            config = config;
          })
          w).1
        ≡ apply_asked (asked kind u id version config) w
  unfolding dispatch apply
  dispatch-asked ConfigEventType.created u id version config w =
      upsert_payload-asked version config w
  dispatch-asked ConfigEventType.updated u id version config w =
      upsert_payload-asked version config w
  dispatch-asked ConfigEventType.paused u id version config w = refl
  dispatch-asked ConfigEventType.resumed u id version config w = refl
  dispatch-asked ConfigEventType.deleted u id version config w = refl
  dispatch-asked ConfigEventType.other u id version config w = refl

  guarded :
      (a b : Bool) (x y r : Applied × Writer F) (w w' : Writer F)
      → x.1 ≡ w
      → y.1 ≡ w
      → r.1 ≡ w'
      → ((if a then x else if b then y else r).1 ≡ w)
        ⊎ ((if a then x else if b then y else r).1 ≡ w')
  guarded true b x y r w w' p q s = inl p
  guarded false true x y r w w' p q s = inl q
  guarded false false x y r w w' p q s = inr s

  -- A message changes nothing or applies the event that it asks for.
  process_message-cases :
      (m : Option (ConfigEvent F)) (w : Writer F)
      → ((process_message m w).1 ≡ w) ⊎ ((process_message m w).1 ≡ apply_asked (event_of m) w)
  unfolding process_message
  process_message-cases none w = inl refl
  process_message-cases (some e) w =
      guarded (e.user_id == "" || e.strategy_id == "")
        (is_old e.version (get_strategy e.user_id e.strategy_id w)) (applied false, w)
        (applied false, w) (dispatch e w) w (apply_asked (event_of (some e)) w) refl refl
        (dispatch-asked e.kind e.user_id e.strategy_id e.version e.config w)

  apply_asked-keeps {κ} :
      (P : Writer F → Type κ) (m : Option (ConfigEvent F)) (w : Writer F)
      → P w
      → P (apply_asked (event_of m) w)
      → P (process_message m w).1
  apply_asked-keeps P m w p q = elim (process_message-cases m w) [
    | inl e ↦ subst P (sym e) p
    | inr e ↦ subst P (sym e) q
  ]

  abbrev IsOldEvent : String → String → ℕ → Option (Event F) → Type 0
  IsOldEvent u id version none = Unit
  IsOldEvent u id version (some e) = IsOld u id version e

  -- The message does not ask for a version of the strategy that is newer.
  abbrev pub IsOldMessage : String → String → ℕ → Option (ConfigEvent F) → Type 0
  IsOldMessage u id version m = IsOldEvent u id version (event_of m)

  module _ (u id : String) (version : ℕ) where
    apply_asked-Gone :
        (o : Option (Event F)) (w : Writer F)
        → IsOldEvent u id version o
        → Gone u id version w
        → Gone u id version (apply_asked o w)
    apply_asked-Gone none w old g = g
    apply_asked-Gone (some e) w old g = apply-Gone u id version e w old g

    process_all-Gone :
        (ms : List (Option (ConfigEvent F))) (w : Writer F)
        → All (IsOldMessage u id version) ms
        → Gone u id version w
        → Gone u id version (process_all ms w)
    unfolding process_all
    process_all-Gone [] w old g = g
    process_all-Gone (m ∷ ms) w (o, os) g =
        process_all-Gone ms (process_message m w).1 os
          (apply_asked-keeps (Gone u id version) m w g (apply_asked-Gone (event_of m) w o g))

    abbrev pub deletion : Option (StrategyPayload F) → ConfigEvent F
    deletion config = record {
      kind = ConfigEventType.deleted;
      user_id = u;
      strategy_id = id;
      version = version;
      config = config;
    }

    process_message-deletion :
        (config : Option (StrategyPayload F)) (w : Writer F)
        → unnamed u id ≡ false
        → is_old version (get_strategy u id w) ≡ false
        → (process_message (some (deletion config)) w).1 ≡ (apply_delete u id version w).1
    unfolding process_message dispatch
    process_message-deletion config w named fresh = rw (named, fresh) refl

    -- A strategy that a message deletes, with ids, a version that is newer than the stored strategy's or
    -- none, and newer than the tombstone, is not found after any later messages, as long as none of them
    -- asks for a version of it that is newer than the deletion; in a writer whose store publishes the
    -- snapshot that it works on.
    pub process_all-deletion :
        (config : Option (StrategyPayload F)) (w : Writer F) (ms : List (Option (ConfigEvent F)))
        → w.published ≡ w.current
        → unnamed u id ≡ false
        → is_old version (get_strategy u id w) ≡ false
        → stale w.tombstones (key u id) version ≡ false
        → All (IsOldMessage u id version) ms
        → get_strategy u id (process_all ms (process_message (some (deletion config)) w).1) ≡ none
    process_all-deletion config w ms sync named newer fresh old =
        let gone =
          subst (Gone u id version) (sym (process_message-deletion config w named newer))
            (apply_delete-Gone u id version w sync named fresh) in
        Gone-get_strategy u id version
          (process_all ms (process_message (some (deletion config)) w).1)
          (process_all-Gone ms (process_message (some (deletion config)) w).1 old gone)
