-- ===== src/Tests/Signals.antt =====
-- Events that come to a strategy, and the signals made of them.
use algo_treading.Base.{
  ℕ, ◌≡◌, refl, true, false, ◌≤◌, ◌==◌, String, List, [], ◌∷◌, Option, none, some, arith, map, inr,
  if◌then◌else◌,
}
use algo_treading.Base.Int.{ℤ, pos, wrap32, ◌+ℤ◌, ◌*ℤ◌}
use algo_treading.Base.Float.{Frac, frac, exact}
use algo_treading.Base.Dict.{lookup, insert, delete}
use algo_treading.Base.Text.{equal_fold}
use algo_treading.Rules.Strategy.{Strategy}
use algo_treading.Rules.Matcher.{PctChangeStatus, EvaluationResult}
use algo_treading.Rules.Signals.{
  Event, RuleMatch, OrderRequest, MarketDataResult, Quote, Signal, validate_event, validate_order,
  get_market_data_from_redis, from_exchange, usable_quote, has_signal_today,
  get_strategy_trades_today, count_rows, locks, counts,
}
use algo_treading.Rules.Signals.Window.{parse_hhmm, is_within_trade_window}
use algo_treading.Rules.Signals.Pricing.{round_ticks, new_order_request, with_exits, priced, sized}
use algo_treading.Rules.Signals.Match.{
  Answers, order_for, build_order, draft, approve, approve_unless, window_stop, lock_stop, cap_stop,
  quantity_stop, live_stop, resolve_tick, process_match, save_trade_signal,
}
use algo_treading.Rules.Signals.Engine.{
  Deduper, Handled, allow, evict, match_of, evaluate_event, handle_event,
}
use algo_treading.Rules.Signals.Guards.{Allowed, order_for-Allowed}
use algo_treading.Rules.Signals.Calls.{Call, handle_calls}
use algo_treading.Rules.Signals.Daily.{india, utc, handle_calls-locks, handle_calls-counts}
use algo_treading.Rules.Signals.Early.{handle_calls-Early}
use algo_treading.Rules.Signals.Dedup.{allow_all, allow-allow_all}
use algo_treading.Rules.Signals.Evaluated.{deserving, evaluate_event-deserving}
use algo_treading.Rules.Signals.Outage.{WithoutOrders, handle_event-WithoutOrders}
use algo_treading.Tests.Rules.{momentum, good_news}

opening : parse_hhmm "09:15" ≡ some (pos 555)
unfolding parse_hhmm ◌+ℤ◌ ◌*ℤ◌
opening = refl

no_minutes : parse_hhmm "9am" ≡ none
unfolding parse_hhmm
no_minutes = refl

in_the_window : is_within_trade_window "09:15" "15:30" 600 ≡ true
unfolding is_within_trade_window ◌+ℤ◌ ◌*ℤ◌
in_the_window = refl

nearest_tick : round_ticks (pos 28173) 5 ≡ pos 28175
unfolding round_ticks
nearest_tick = refl

abbrev capped : Strategy Frac
capped = record momentum {
  risk_limits = record momentum.risk_limits { max_trades_per_strategy = pos 2 };
}

abbrev results_are_out : Event Frac
results_are_out = record {
  event_id = "e1";
  stock_code = pos 1594;
  nse_code = pos 1594;
  bse_code = pos 0;
  symbol = "INFY";
  prev_close = frac (pos 100) 0;
  market = good_news;
}

abbrev quote : Quote Frac
quote = record {
  ltp = frac (pos 103) 0;
  prev_close = frac (pos 100) 0;
  tick_size = frac (pos 5) 99;
  percent_change = frac (pos 3) 0;
}

abbrev redis : String → ℤ → Option (Quote Frac)
redis place token = if place == "nse" then some quote else none

abbrev market_data : MarketDataResult Frac
market_data = record {
  ltp = frac (pos 103) 0;
  prev_close = frac (pos 100) 0;
  tick_size = frac (pos 5) 99;
  percent_change = frac (pos 3) 0;
  exchange = "nse";
  token = pos 1594;
}

found : get_market_data_from_redis redis results_are_out ≡ some market_data
unfolding get_market_data_from_redis from_exchange usable_quote equal_fold ◌*ℤ◌
found = refl

abbrev no_score : EvaluationResult Frac → Frac
no_score r = frac (pos 0) 0

abbrev rule_match : RuleMatch Frac
rule_match = record {
  strategy = some capped;
  updated_at = 1700000000;
  match_score = frac (pos 80) 0;
  matched_conditions = [];
  failed_conditions = [];
  event_id = "e1";
  pct_change_status = PctChangeStatus.unset;
}

abbrev answers : Answers Frac
answers = record {
  zones = india;
  minute = 600;
  now = 1700109000;
  timestamp = 1700109001;
  order_id = "o1";
  cached_tick = none;
  lock_known = true;
  count_known = true;
  saved = true;
}

-- The order that is published.
abbrev published : OrderRequest Frac
published =
    record (with_exits capped market_data.ltp market_data.tick_size
      (draft answers results_are_out rule_match capped market_data)) {
        risk_approved = true;
        risk_score = frac (pos 0) 0;
      }

order_for-Allowed_example :
    (q : MarketDataResult Frac) × (some market_data ≡ some q)
    × Allowed answers [] results_are_out rule_match capped q published
unfolding order_for build_order window_stop lock_stop cap_stop quantity_stop live_stop resolve_tick
    draft priced sized with_exits approve approve_unless validate_order new_order_request
    has_signal_today get_strategy_trades_today is_within_trade_window wrap32
order_for-Allowed_example =
    order_for-Allowed answers [] results_are_out (some market_data) rule_match capped published refl

abbrev calls : List (Call Frac)
calls =
    record {
      answers = answers;
      event = results_are_out;
      market_data = some market_data;
      rule_match = rule_match;
    }
    ∷ record {
      answers = record answers { now = 1700109060; timestamp = 1700109060; order_id = "o2" };
      event = record results_are_out { event_id = "e2" };
      market_data = some market_data;
      rule_match = rule_match;
    }
    ∷ []

handle_calls-locks_example :
    count_rows (locks india "s1" (pos 1594) 1700000000 19677) (handle_calls calls []) ≤ 1
unfolding count_rows
handle_calls-locks_example =
    handle_calls-locks "s1" (pos 1594) 1700000000 19677 calls []
      ((refl, refl, λ _. refl), ((refl, refl, λ _. refl), tt)) (omega arith)

handle_calls-counts_example :
    count_rows (counts india "s1" 1700000000 19677) (handle_calls calls []) ≤ 2
unfolding count_rows
handle_calls-counts_example =
    handle_calls-counts "s1" 1700000000 19677 2 calls [] (omega arith) (omega arith)
      (((refl, refl, λ _. refl), λ _. refl), (((refl, refl, λ _. refl), λ _. refl), tt))
      (omega arith)

-- Two events of one stock at ten o'clock in India, where nothing has a zone of its own.
abbrev in_the_morning : List (Call Frac)
in_the_morning =
    record {
      answers = record answers { zones = utc };
      event = results_are_out;
      market_data = some market_data;
      rule_match = rule_match;
    }
    ∷ record {
      answers = record answers {
        zones = utc;
        now = 1700109060;
        timestamp = 1700109060;
        order_id = "o2";
      };
      event = record results_are_out { event_id = "e2" };
      market_data = some market_data;
      rule_match = rule_match;
    }
    ∷ []

-- Both are saved.
two_signals : map (λ s. s.order_id) (handle_calls in_the_morning []) ≡ "o2" ∷ "o1" ∷ []
unfolding handle_calls process_match save_trade_signal order_for build_order window_stop lock_stop
    cap_stop quantity_stop live_stop resolve_tick draft priced sized with_exits approve
    approve_unless validate_order new_order_request has_signal_today get_strategy_trades_today
    is_within_trade_window wrap32 count_rows
two_signals = refl

handle_calls-Early_example :
    count_rows (counts utc "s1" 1700000000 19677) (handle_calls in_the_morning []) ≤ 0
unfolding count_rows
handle_calls-Early_example =
    handle_calls-Early "s1" 1700000000 19677 0 in_the_morning [] (omega arith)
      ((refl, refl, omega arith), ((refl, refl, omega arith), tt)) (omega arith)

abbrev new_deduper : Deduper
new_deduper = record { window = 120; max_entries = 100; items = [] }

evaluate_event-deserving_example :
    (evaluate_event results_are_out no_score (λ s. 1700000000) (capped ∷ []) 1000 new_deduper).1
    ≡ inr (
        if (allow "e1" 1000 new_deduper).1
        then map
            (match_of results_are_out no_score (λ s. 1700000000))
            (deserving results_are_out (capped ∷ []))
        else [])
unfolding validate_event
evaluate_event-deserving_example =
    evaluate_event-deserving results_are_out no_score (λ s. 1700000000) (capped ∷ []) 1000
      new_deduper refl

abbrev nothing_cached : String → ℤ → Option (Quote Frac)
nothing_cached place token = none

abbrev outage : (Deduper × List Signal) × Handled Frac
outage =
    handle_event true (λ m. answers) no_score (λ s. 1700000000) (capped ∷ []) 1000 results_are_out
      nothing_cached new_deduper []

handle_event-WithoutOrders_example : (outage.0.1 ≡ []) × WithoutOrders outage.1
unfolding get_market_data_from_redis from_exchange usable_quote equal_fold
handle_event-WithoutOrders_example =
    handle_event-WithoutOrders true (λ m. answers) no_score (λ s. 1700000000) (capped ∷ []) 1000
      results_are_out nothing_cached new_deduper [] refl

abbrev between : List (String × ℕ)
between = ("e2", 1010) ∷ ("e1", 1050) ∷ []

allow-allow_all_example :
    (allow "e1" 1100 (allow_all between (allow "e1" 1000 new_deduper).0)).1 ≡ false
unfolding allow evict insert delete lookup
allow-allow_all_example =
    allow-allow_all "e1" 1000 1100 between new_deduper refl refl
      (omega arith, omega arith, (omega arith, omega arith, omega arith)) (omega arith)
