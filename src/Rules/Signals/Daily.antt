-- ===== src/Rules/Signals/Daily.antt =====
-- How many signals a strategy leaves in the table on one day, over any sequence of handled matches.
use algo_treading.Base.{
  ℕ, ◌+◌, ◌/◌, ◌≤◌, ◌<◌, ◌^◌, Bool, true, false, ◌||◌, String, eq_iff, List, [], ◌∷◌, Option, none,
  some, any, ◌≡◌, refl, ap, ◌∙◌, sym, arith,
}
use algo_treading.Base.Int.{ℤ, pos, leb_ℤ, ltb_ℤ, eqb_ℤ_iff, wrap32, wrap32_id}
use algo_treading.Base.Float.{Float}
use algo_treading.Rules.Strategy.{Strategy}
use algo_treading.Rules.Signals.{
  OrderRequest, Signal, Zones, date_in_india, row_date, counts, locks, count_rows, has_signal_today,
  get_strategy_trades_today,
}
use algo_treading.Rules.Signals.Match.{Answers, signal_of, written}
use algo_treading.Rules.Signals.Calls.{Call, handle_calls, AllCalls, Bounded, calls_lem}
use algo_treading.Rules.Signals.Guards.{order_for-Allowed}

-- A service and a database that keep the time of India.
abbrev pub india : Zones
india = record { process = 19800; session = 19800 }

-- A service and a database without a zone of their own.
abbrev pub utc : Zones
utc = record { process = 0; session = 0 }

count_of_none :
    (p : Signal → Bool) (table : List Signal) → any p table ≡ false → count_rows p table ≡ 0
unfolding count_rows
count_of_none p [] h = refl
count_of_none p (s ∷ rest) h = ground (arith, count_of_none p rest)

below_lem :
    (n limit : ℕ)
    → 0 < limit
    → n ≤ limit
    → limit < 2 ^ 31
    → leb_ℤ (pos limit) (pos 0) || ltb_ℤ (wrap32 (pos n)) (pos limit) ≡ true
    → n < limit
below_lem n limit positive few small h =
    ground (arith, wrap32_id (pos n) (omega arith, omega arith))

row_lem : (t : ℕ) → row_date india (t + 19800) ≡ date_in_india t
row_lem t = ap (λ n. n / 86400) (omega arith)

module _ {ℓ} {F : Type ℓ} ⦃f : Float F⦄ where
  -- What a strategy has to satisfy, where the match has one.
  abbrev pub OnStrategy : (Strategy F → Type 0) → Option (Strategy F) → Type 0
  OnStrategy P none = Unit
  OnStrategy P (some s) = P s

  -- Zones of India, no midnight between the query and the order, and the time of the strategy's last change.
  abbrev pub Unchanged : String → ℕ → Call F → Type 0
  Unchanged strategy since c =
      (c.answers.zones ≡ india)
      × (date_in_india c.answers.timestamp ≡ date_in_india c.answers.now)
      × OnStrategy (λ s. s.strategy_id ≡ strategy → c.rule_match.updated_at ≡ since)
          c.rule_match.strategy

  -- Its cap too.
  abbrev pub Capped : String → ℕ → ℕ → Call F → Type 0
  Capped strategy since limit c =
      Unchanged strategy since c
      × OnStrategy
          (λ s. s.strategy_id ≡ strategy → s.risk_limits.max_trades_per_strategy ≡ pos limit)
          c.rule_match.strategy

  on_lem :
      (P : Strategy F → Type 0) (o : Option (Strategy F)) (s : Strategy F)
      → o ≡ some s
      → OnStrategy P o
      → P s
  on_lem P o s e h = coe 0 1 (i. OnStrategy P (e i)) h

  written_lem :
      (a : Answers F)
      → a.zones ≡ india
      → (p : Signal → Bool) (o : OrderRequest F) → p (signal_of o (written a)) ≡ true
      → p (signal_of o (a.timestamp + 19800)) ≡ true
  written_lem a e p o h = coe 0 1 (i. p (signal_of o (a.timestamp + (e i).process)) ≡ true) h

  counts_row :
      (strategy : String) (since today : ℕ) (o : OrderRequest F) (t : ℕ)
      → counts india strategy since today (signal_of o (t + 19800)) ≡ true
      → (o.strategy_id ≡ strategy) × (date_in_india t ≡ today)
  counts_row strategy since today o t h = ground (arith, row_lem t, eq_iff o.strategy_id strategy)

  locks_row :
      (strategy : String) (stock : ℤ) (since today : ℕ) (o : OrderRequest F) (t : ℕ)
      → locks india strategy stock since today (signal_of o (t + 19800)) ≡ true
      → (o.strategy_id ≡ strategy) × (date_in_india t ≡ today) × (o.stock_code ≡ stock)
  locks_row strategy stock since today o t h =
      ground (arith, row_lem t, eq_iff o.strategy_id strategy, eqb_ℤ_iff o.stock_code stock)

  locked_lem :
      (strategy : String) (stock : ℤ) (since today : ℕ) (c : Call F) (table : List Signal)
      → Unchanged strategy since c
      → Bounded (locks india strategy stock since today) 1 c table
  unfolding has_signal_today
  locked_lem strategy stock since today c table (same_zone, same_day, same_since) s o is_s e h =
      let (md, is_md, allowed) =
        order_for-Allowed c.answers table c.event c.market_data c.rule_match s o e in
      let kept = on_lem _ c.rule_match.strategy s is_s same_since in
      let (row_strategy, row_day, row_stock) =
        locks_row strategy stock since today o c.answers.timestamp
          (written_lem c.answers same_zone (locks india strategy stock since today) o h) in
      let same = sym allowed.same_strategy ∙ row_strategy in
      let none_locks =
        coe 0 1
          (i.
            count_rows
              (locks (same_zone i) (same i) ((sym allowed.same_stock ∙ row_stock) i) (kept same i)
                ((sym same_day ∙ row_day) i))
              table
            ≡ 0)
          (count_of_none _ table allowed.unlocked) in
      rw none_locks (omega arith)

  capped_lem :
      (strategy : String) (since today limit : ℕ) (c : Call F) (table : List Signal)
      → 0 < limit
      → limit < 2 ^ 31
      → Capped strategy since limit c
      → count_rows (counts india strategy since today) table ≤ limit
      → Bounded (counts india strategy since today) limit c table
  unfolding get_strategy_trades_today
  capped_lem strategy since today limit c table positive small
        ((same_zone, same_day, same_since), same_cap) few s o is_s e h =
      let (md, is_md, allowed) =
        order_for-Allowed c.answers table c.event c.market_data c.rule_match s o e in
      let kept = on_lem _ c.rule_match.strategy s is_s same_since in
      let cap = on_lem _ c.rule_match.strategy s is_s same_cap in
      let (row_strategy, row_day) =
        counts_row strategy since today o c.answers.timestamp
          (written_lem c.answers same_zone (counts india strategy since today) o h) in
      let same = sym allowed.same_strategy ∙ row_strategy in
      below_lem _ limit positive few small (
        coe 0 1
          (i.
            leb_ℤ (cap same i) (pos 0)
              || ltb_ℤ
                  (wrap32 (
                    pos (
                      count_rows
                        (counts (same_zone i) (same i) (kept same i) ((sym same_day ∙ row_day) i))
                        table)))
                  (cap same i)
            ≡ true)
          allowed.below_cap)

  -- A strategy that is not changed meanwhile leaves at most one signal for a stock on a day over any sequence
  -- of handled matches, if there is at most one to begin with, the service and the database keep the time
  -- of India and no midnight falls between a query and its order.
  pub handle_calls-locks :
      (strategy : String) (stock : ℤ) (since today : ℕ) (cs : List (Call F)) (table : List Signal)
      → AllCalls (Unchanged strategy since) cs
      → count_rows (locks india strategy stock since today) table ≤ 1
      → count_rows (locks india strategy stock since today) (handle_calls cs table) ≤ 1
  handle_calls-locks strategy stock since today =
      calls_lem (Unchanged strategy since) (locks india strategy stock since today) 1
        (λ c table unchanged few. locked_lem strategy stock since today c table unchanged)

  -- A strategy with a cap leaves no more signals on a day than the cap, over any sequence of handled
  -- matches, if there are no more to begin with, the strategy is not changed meanwhile, the service and the
  -- database keep the time of India and no midnight falls between a query and its order.
  pub handle_calls-counts :
      (strategy : String) (since today limit : ℕ) (cs : List (Call F)) (table : List Signal)
      → 0 < limit
      → limit < 2 ^ 31
      → AllCalls (Capped strategy since limit) cs
      → count_rows (counts india strategy since today) table ≤ limit
      → count_rows (counts india strategy since today) (handle_calls cs table) ≤ limit
  handle_calls-counts strategy since today limit cs table positive small =
      calls_lem (Capped strategy since limit) (counts india strategy since today) limit
        (λ c t capped few. capped_lem strategy since today limit c t positive small capped few) cs
        table
