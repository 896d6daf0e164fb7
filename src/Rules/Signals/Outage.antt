-- ===== src/Rules/Signals/Outage.antt =====
-- What comes of an event without market data, and of the cached tick size.
use algo_treading.Base.{
  ℕ, Bool, true, false, String, List, [], ◌∷◌, Option, none, some, ◌≡◌, refl, ap, ◌∙◌, sym, ◌⊎◌,
  inl, inr, if◌then◌else◌, arith, Bool-cases, Option-cases,
}
use algo_treading.Base.Int.{ℤ}
use algo_treading.Base.Float.{Float}
use algo_treading.MultiLevel.Types.{nought}
use algo_treading.Rules.Strategy.{Strategy}
use algo_treading.Rules.Matcher.{EvaluationResult}
use algo_treading.Rules.Signals.{
  Event, RuleMatch, OrderRequest, MarketDataResult, Quote, InvalidEvent, Signal, usable_quote,
  from_exchange, or_else, get_market_data_from_redis,
}
use algo_treading.Rules.Signals.Pricing.{Stop}
use algo_treading.Rules.Signals.Match.{
  Answers, resolve_tick, own_tick, order_for, build_order, draft, save_trade_signal, process_match,
  process_matches, window_stop, lock_stop, cap_stop,
}
use algo_treading.Rules.Signals.Engine.{Deduper, Handled, handle_matches, handle_event}
use algo_treading.Rules.Signals.Guards.{order_for-Allowed}

if_some {ℓ} :
    {A : Type ℓ} (b : Bool) (x : Option A) (y : A) → (if b then none else x) ≡ some y → x ≡ some y
if_some true x y h = ground arith
if_some false x y h = h

if_lem {ℓ} :
    {A : Type ℓ} (b : Bool) (x y : Option A) (z : A) (P : Type 0)
    → (x ≡ some z → P)
    → (y ≡ some z → P)
    → (if b then x else y) ≡ some z
    → P
if_lem true x y z P h k = h
if_lem false x y z P h k = k

or_else_lem {ℓ} :
    {A : Type ℓ} (x y : Option A) (z : A) (P : Type 0)
    → (x ≡ some z → P)
    → (y ≡ some z → P)
    → or_else x y ≡ some z
    → P
or_else_lem none y z P h k = k
or_else_lem (some x) y z P h k = h

module _ {ℓ} {F : Type ℓ} ⦃f : Float F⦄ where
  open f use {le}

  -- Market data that are found have a tick size.
  quote_lem :
      (place : String) (token : ℤ) (q : Option (Quote F)) (md : MarketDataResult F)
      → usable_quote place token q ≡ some md
      → le md.tick_size nought ≡ false
  unfolding usable_quote
  quote_lem place token none md h = ground arith
  quote_lem place token (some q) md h = ground arith

  exchange_lem :
      (redis : String → ℤ → Option (Quote F)) (place : String) (e : Event F)
      (md : MarketDataResult F)
      → from_exchange redis place e ≡ some md
      → le md.tick_size nought ≡ false
  unfolding from_exchange
  exchange_lem redis place e md h = quote_lem place _ _ md (if_some _ _ md h)

  redis_lem :
      (redis : String → ℤ → Option (Quote F)) (e : Event F) (md : MarketDataResult F)
      → get_market_data_from_redis redis e ≡ some md
      → le md.tick_size nought ≡ false
  unfolding get_market_data_from_redis
  redis_lem redis e md =
      let nse = exchange_lem redis "nse" e md in
      let bse = exchange_lem redis "bse" e md in
      if_lem _ _ _ md _ (or_else_lem _ _ md _ bse nse) (or_else_lem _ _ md _ nse bse)

  without_data_lem :
      (a : Answers F) (table : List Signal) (e : Event F) (m : RuleMatch F)
      (s : Option (Strategy F)) (o : OrderRequest F)
      → order_for a table e none m s ≡ inr o
      → ⊥
  unfolding order_for
  without_data_lem a table e m none o h = ground arith
  without_data_lem a table e m (some s) o h =
      let (q, is_q, allowed) = order_for-Allowed a table e none m s o h in ground arith

  unsaved_lem :
      (a : Answers F) (r : Stop ⊎ OrderRequest F) (table : List Signal)
      → ((o : OrderRequest F) → r ≡ inr o → ⊥)
      → save_trade_signal a r table ≡ table
  unfolding save_trade_signal
  unsaved_lem a (inl stop) table h = refl
  unsaved_lem a (inr o) table h = elim (h o refl) [ ]

  -- No result is an order.
  abbrev pub AllStopped : List (Stop ⊎ OrderRequest F) → Type 0
  AllStopped [] = Unit
  AllStopped (inl stop ∷ rest) = AllStopped rest
  AllStopped (inr o ∷ rest) = ⊥

  stopped_lem :
      (r : Stop ⊎ OrderRequest F) (rest : List (Stop ⊎ OrderRequest F))
      → ((o : OrderRequest F) → r ≡ inr o → ⊥)
      → AllStopped rest
      → AllStopped (r ∷ rest)
  stopped_lem (inl stop) rest h k = k
  stopped_lem (inr o) rest h k = h o refl

  matches_lem :
      (answers : RuleMatch F → Answers F) (e : Event F) (ms : List (RuleMatch F))
      (table : List Signal)
      → ((process_matches answers e none ms table).0 ≡ table)
        × AllStopped (process_matches answers e none ms table).1
  unfolding process_matches process_match
  matches_lem answers e [] table = (refl, tt)
  matches_lem answers e (m ∷ ms) table =
      let no_order = without_data_lem (answers m) table e m m.strategy in
      let same = unsaved_lem (answers m) _ table no_order in
      let rest = matches_lem answers e ms _ in (rest.0 ∙ same, stopped_lem _ _ no_order rest.1)

  -- What `HandleEvent` reports when it has made no order.
  abbrev pub WithoutOrders : Handled F → Type 0
  WithoutOrders (Handled.handled results) = AllStopped results
  WithoutOrders _ = Unit

  handle_matches_lem :
      (answers : RuleMatch F → Answers F) (e : Event F) (r : InvalidEvent ⊎ List (RuleMatch F))
      (table : List Signal)
      → ((handle_matches answers e none r table).0 ≡ table)
        × WithoutOrders (handle_matches answers e none r table).1
  unfolding handle_matches
  handle_matches_lem answers e (inl error) table = (refl, tt)
  handle_matches_lem answers e (inr []) table = (refl, tt)
  handle_matches_lem answers e (inr (m ∷ ms)) table =
      elim (Bool-cases (le e.market.last_traded_price nought)) [
        | inl h ↦ rw h (refl, tt)
        | inr h ↦ rw h (matches_lem answers e (m ∷ ms) table)
      ]

  -- Without market data no order is published and no signal saved, even if the event has a price.
  pub handle_event-WithoutOrders :
      (trading : Bool) (answers : RuleMatch F → Answers F) (score : EvaluationResult F → F)
      (updated_at : Strategy F → ℕ) (strategies : List (Strategy F)) (now : ℕ) (e : Event F)
      (redis : String → ℤ → Option (Quote F)) (d : Deduper) (table : List Signal)
      → get_market_data_from_redis redis e ≡ none
      → ((handle_event trading answers score updated_at strategies now e redis d table).0.1 ≡ table)
        × WithoutOrders
            (handle_event trading answers score updated_at strategies now e redis d table).1
  unfolding handle_event
  handle_event-WithoutOrders true answers score updated_at strategies now e redis d table h =
      rw h (handle_matches_lem answers e _ table)
  handle_event-WithoutOrders false answers score updated_at strategies now e redis d table h =
      (refl, tt)

  cached_lem :
      (x y : Option F) (a : Answers F) (table : List Signal) (e : Event F) (md : MarketDataResult F)
      (m : RuleMatch F) (s : Option (Strategy F))
      → le md.tick_size nought ≡ false
      → order_for (record a { cached_tick = x }) table e (some md) m s
        ≡ order_for (record a { cached_tick = y }) table e (some md) m s
  unfolding order_for resolve_tick own_tick window_stop lock_stop cap_stop build_order draft
  cached_lem x y a table e md m none h = refl
  cached_lem x y a table e md m (some s) h = rw h refl

  -- Whether an order is published, and which, does not depend on the cached tick size.
  pub order_for-cached_tick :
      (x y : Option F) (a : Answers F) (table : List Signal) (e : Event F)
      (redis : String → ℤ → Option (Quote F)) (m : RuleMatch F) (s : Option (Strategy F))
      (o : OrderRequest F)
      → order_for (record a { cached_tick = x }) table e (get_market_data_from_redis redis e) m s
        ≡ inr o
      → order_for (record a { cached_tick = y }) table e (get_market_data_from_redis redis e) m s
        ≡ inr o
  order_for-cached_tick x y a table e redis m s o h =
      let made : Option F → Option (MarketDataResult F) → Stop ⊎ OrderRequest F =
        λ z q. order_for (record a { cached_tick = z }) table e q m s in
      elim (Option-cases (get_market_data_from_redis redis e)) [
        | inl missing ↦
            elim (without_data_lem (record a { cached_tick = x }) table e m s o
              (ap (made x) (sym missing) ∙ h)) [ ]
        | inr (md, found) ↦
            ap (made y) found
            ∙ sym (cached_lem x y a table e md m s (redis_lem redis e md found))
            ∙ ap (made x) (sym found)
            ∙ h
      ]
