-- ===== src/Rules/Signals/Engine.antt =====
-- services/rules-engine/internal/engine: `Deduper`, and `EvaluateEvent` of the engine, whose workers write
-- each result at the place of its strategy; also `HandleEvent` of consumer/handler.go. The engine is not
-- closed and the context not cancelled meanwhile.
use algo_treading.Base.{
  ℕ, ◌+◌, Bool, true, false, not, String, ◌==◌, List, [], ◌∷◌, Option, none, some, if◌then◌else◌,
  ltb, leb, length, ◌⊎◌, inl, inr,
}
use algo_treading.Base.Int.{ℤ}
use algo_treading.Base.Float.{Float}
use algo_treading.Base.Dict.{Dict, insert, lookup}
use algo_treading.MultiLevel.Types.{nought}
use algo_treading.Rules.Strategy.{Strategy, Invalid, validate}
use algo_treading.Rules.Matcher.{EvaluationResult, evaluate, is_full_match}
use algo_treading.Rules.Signals.{
  Event, RuleMatch, OrderRequest, MarketDataResult, Quote, get_market_data_from_redis, InvalidEvent,
  Signal, validate_event,
}
use algo_treading.Rules.Signals.Pricing.{Stop}
use algo_treading.Rules.Signals.Match.{Answers, process_matches}

-- Times are in nanoseconds; the order of the list is the order in which the map is gone through.
pub record Deduper : Type 0 where
  pub window : ℕ
  pub max_entries : ℕ
  pub items : Dict ℕ

-- Entries from before the cut go.
evict_old : ℕ → ℕ → Dict ℕ → Dict ℕ
evict_old window now [] = []
evict_old window now (entry ∷ rest) =
    let kept = evict_old window now rest in
    if ltb (entry.1 + window) now then kept else entry ∷ kept

-- The purge deletes at least one entry, if there is one.
purge : ℕ → Dict ℕ → Dict ℕ
purge max [] = []
purge max (entry ∷ rest) =
    let purged = purge max rest in if leb (length rest) max then rest else purged

unfoldable pub evict : ℕ → Deduper → Dict ℕ
unfolding purge evict_old
evict now d =
    if ltb d.max_entries (length d.items)
    then purge d.max_entries (evict_old d.window now d.items)
    else d.items

abbrev pub is_recent : ℕ → ℕ → Option ℕ → Bool
is_recent window now none = false
is_recent window now (some t) = ltb now (t + window)

unfoldable pub allow : String → ℕ → Deduper → Deduper × Bool
unfolding evict
allow id now d =
    let items = evict now d in
    if id == ""
    then (d, true)
    else if is_recent d.window now (lookup id items)
    then (record d { items = items }, false)
    else (record d { items = insert id now items }, true)

abbrev pub is_valid : Option Invalid → Bool
is_valid none = true
is_valid (some error) = false

-- An error in place of what would have been done.
abbrev pub rejected {ℓ} :
    {A : Type ℓ}
    → Deduper
    → Option InvalidEvent
    → Deduper × (InvalidEvent ⊎ A)
    → Deduper × (InvalidEvent ⊎ A)
rejected d none done = done
rejected d (some error) done = (d, inl error)

-- What `HandleEvent` comes to; the results are those of the matches, in order.
pub data Handled {ℓ} (F : Type ℓ) : Type ℓ where
  not_trading no_data : Handled F
  evaluation_failed : InvalidEvent → Handled F
  handled : List (Stop ⊎ OrderRequest F) → Handled F

module _ {ℓ} {F : Type ℓ} ⦃f : Float F⦄ where
  open f use {le}

  -- The score is computed elsewhere; it decides nothing.
  unfoldable pub match_of :
      Event F → (EvaluationResult F → F) → (Strategy F → ℕ) → Strategy F → RuleMatch F
  match_of e score updated_at s =
      let r = evaluate e.market s in
      record {
        strategy = some s;
        updated_at = updated_at s;
        match_score = score r;
        matched_conditions = r.matched_conditions;
        failed_conditions = r.failed_conditions;
        event_id = e.event_id;
        pct_change_status = r.pct_change_status;
      }

  unfoldable pub evaluate_one :
      Event F → (EvaluationResult F → F) → (Strategy F → ℕ) → Strategy F → Option (RuleMatch F)
  unfolding match_of
  evaluate_one e score updated_at s =
      if not s.active
      then none
      else if not (is_valid (validate s))
      then none
      else if not (is_full_match (evaluate e.market s))
      then none
      else some (match_of e score updated_at s)

  abbrev pub add_some : Option (RuleMatch F) → List (RuleMatch F) → List (RuleMatch F)
  add_some none ms = ms
  add_some (some m) ms = m ∷ ms

  unfoldable pub evaluate_all :
      Event F → (EvaluationResult F → F) → (Strategy F → ℕ) → List (Strategy F) → List (RuleMatch F)
  unfolding evaluate_one
  evaluate_all e score updated_at [] = []
  evaluate_all e score updated_at (s ∷ ss) =
      add_some (evaluate_one e score updated_at s) (evaluate_all e score updated_at ss)

  -- The matches of a valid event, unless it is a duplicate.
  unfoldable pub evaluate_new :
      Event F
      → (EvaluationResult F → F)
      → (Strategy F → ℕ)
      → List (Strategy F)
      → Deduper × Bool
      → Deduper × (InvalidEvent ⊎ List (RuleMatch F))
  unfolding evaluate_all
  evaluate_new e score updated_at strategies seen =
      (seen.0, inr (if seen.1 then evaluate_all e score updated_at strategies else []))

  -- The matches of an event that is valid and new, in the order of the active strategies.
  unfoldable pub evaluate_event :
      Event F
      → (EvaluationResult F → F)
      → (Strategy F → ℕ)
      → List (Strategy F)
      → ℕ
      → Deduper
      → Deduper × (InvalidEvent ⊎ List (RuleMatch F))
  unfolding evaluate_new allow
  evaluate_event e score updated_at strategies now d =
      rejected d (validate_event e)
        (evaluate_new e score updated_at strategies (allow e.event_id now d))

  unfoldable pub handle_matches :
      (RuleMatch F → Answers F)
      → Event F
      → Option (MarketDataResult F)
      → InvalidEvent ⊎ List (RuleMatch F)
      → List Signal
      → List Signal × Handled F
  unfolding process_matches
  handle_matches answers e md (inl error) table = (table, Handled.evaluation_failed error)
  handle_matches answers e md (inr []) table = (table, Handled.handled [])
  handle_matches answers e none (inr (m ∷ ms)) table =
      let results = process_matches answers e none (m ∷ ms) table in
      if le e.market.last_traded_price nought
      then (table, Handled.no_data)
      else (results.0, Handled.handled results.1)
  handle_matches answers e (some md) (inr (m ∷ ms)) table =
      let results = process_matches answers e (some md) (m ∷ ms) table in
      (results.0, Handled.handled results.1)

  -- The market data are fetched while the strategies are evaluated; nothing happens on a holiday or, if
  -- that is enforced, outside market hours.
  unfoldable pub handle_event :
      Bool
      → (RuleMatch F → Answers F)
      → (EvaluationResult F → F)
      → (Strategy F → ℕ)
      → List (Strategy F)
      → ℕ
      → Event F
      → (String → ℤ → Option (Quote F))
      → Deduper
      → List Signal
      → (Deduper × List Signal) × Handled F
  unfolding evaluate_event handle_matches get_market_data_from_redis
  handle_event trading answers score updated_at strategies now e redis d table =
      let evaluated = evaluate_event e score updated_at strategies now d in
      let done = handle_matches answers e (get_market_data_from_redis redis e) evaluated.1 table in
      if trading then ((evaluated.0, done.0), done.1) else ((d, table), Handled.not_trading)
