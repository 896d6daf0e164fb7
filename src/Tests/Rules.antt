-- ===== src/Tests/Rules.antt =====
-- A store with one strategy.
use algo_treading.Base.{
  ◌≡◌, ◌↔◌, refl, true, false, ◌&&◌, ◌==◌, List, [], ◌∷◌, none, some, arith, In, if◌then◌else◌,
}
use algo_treading.Base.Int.{pos}
use algo_treading.Base.Float.{Frac, exact}
use algo_treading.Base.Dict.{lookup, insert}
use algo_treading.MultiLevel.Split.Whole.{percent}
use algo_treading.Rules.Strategy.{Strategy, Range}
use algo_treading.Rules.Store.{
  Writer, applied, new_writer, bulk_load, finalize, apply_upsert, apply_delete, apply_pause,
  get_strategy, stale, commit, put_active, is_stale, key, pause_in,
}
use algo_treading.Rules.Store.AllActive.{IsActive, all_active_iff}
use algo_treading.Rules.Store.Events.{apply, Event, run}
use algo_treading.Rules.Store.Redelivery.{apply-superseded}
use algo_treading.Rules.Store.Gets.{
  get_strategy-apply_upsert, get_strategy-apply_delete, get_strategy-apply_pause,
}
use algo_treading.Rules.Store.Tombstones.{run-apply_delete}
use algo_treading.Rules.Store.Wellformed.{WellFormed, run-bulk_load}
use algo_treading.Rules.Matcher.{MarketEvent, evaluate, is_full_match}
use algo_treading.Rules.Matcher.Full.{matches, is_full_match-evaluate}

abbrev pub no_range : Range Frac
no_range = record { min = percent 0; max = percent 0 }

abbrev pub momentum : Strategy Frac
momentum = record {
  strategy_id = "s1";
  user_id = "u1";
  strategy_name = "momentum";
  version = 1;
  active = true;
  trading_mode = "PAPER";
  conditions = record {
    match_all_news = false;
    impact_score_min = pos 7;
    impact_score_max = pos 10;
    sentiments = "Positive" ∷ [];
    categories = [];
    price_range = no_range;
    min_pct_change = percent 1;
    max_pct_change = percent 5;
    exchanges = "NSE" ∷ [];
    market_cap_types = [];
    market_cap_range = no_range;
  };
  trade_config = record {
    order_type = "MARKET";
    quantity = pos 7;
    max_position_size = percent 0;
    stop_loss_pct = percent 2;
    take_profit_pct = percent 5;
    exchange = "NSE";
    order_side = "BUY";
    validity = "DAY";
    limit_price = percent 0;
    stop_loss_type = "FIXED";
    take_profit_type = "FIXED";
    trailing_sl_pct = percent 0;
    product_type = "INTRADAY";
    multi_level_sl = [];
    multi_level_tp = [];
    trade_window_start = "";
    trade_window_end = "";
  };
  risk_limits = record {
    max_daily_trades = pos 5;
    max_loss_per_day = percent 0;
    max_position_size = percent 0;
    max_per_trade_risk = percent 0;
    position_sizing = "";
    enable_auto_square_off = false;
    auto_square_off_time = "";
    max_amount_per_stock = percent 0;
    max_trades_per_strategy = pos 0;
  };
}

abbrev pub one_strategy : Writer Frac
one_strategy = (apply_upsert (some momentum) 3 new_writer).1

abbrev late_events : List (Event Frac)
late_events =
    Event.upsert (some momentum) 4
    ∷ Event.resume "u1" "s1" 5
    ∷ Event.remove "u1" "s1" 2
    ∷ Event.upsert (some momentum) 5
    ∷ []

run-apply_delete_example :
    get_strategy "u1" "s1" (run late_events (apply_delete "u1" "s1" 5 one_strategy).1) ≡ none
unfolding apply_upsert new_writer put_active commit is_stale stale lookup
run-apply_delete_example =
    run-apply_delete "u1" "s1" 5 one_strategy late_events refl refl refl
      ((λ _ _. omega arith), (tt, (tt, ((λ _ _. omega arith), tt))))

abbrev other_user : Strategy Frac
other_user = record momentum { user_id = "u2" }

get_strategy-apply_upsert_example :
    get_strategy "u1" "s1" (apply_upsert (some other_user) 1 one_strategy).1 ≡ (
      if "u2" == "u1" && "s1" == "s1"
      then some (record other_user { version = 1 })
      else get_strategy "u1" "s1" one_strategy)
unfolding apply_upsert new_writer put_active commit is_stale stale lookup insert key
get_strategy-apply_upsert_example =
    get_strategy-apply_upsert one_strategy refl "u1" "s1" other_user 1 refl refl refl

get_strategy-apply_delete_example :
    get_strategy "u1" "s1" (apply_delete "u1" "s1" 4 one_strategy).1
    ≡ (if "u1" == "u1" && "s1" == "s1" then none else get_strategy "u1" "s1" one_strategy)
unfolding apply_upsert new_writer put_active commit is_stale stale lookup
get_strategy-apply_delete_example =
    get_strategy-apply_delete one_strategy refl "u1" "s1" "u1" "s1" 4 refl refl

pause_keeps_strategies :
    get_strategy "u1" "s1" (apply_pause "u1" "s1" 4 one_strategy).1
    ≡ get_strategy "u1" "s1" one_strategy
unfolding apply_upsert new_writer put_active commit is_stale stale lookup
pause_keeps_strategies = get_strategy-apply_pause one_strategy refl "u1" "s1" "u1" "s1" 4

all_active_iff_example :
    In momentum (finalize one_strategy.current.by_user).all_active
    ↔ IsActive one_strategy.current.by_user momentum
all_active_iff_example = all_active_iff one_strategy.current.by_user momentum

run-bulk_load_example :
    WellFormed (run late_events (bulk_load (some momentum ∷ none ∷ []) new_writer))
run-bulk_load_example = run-bulk_load (some momentum ∷ none ∷ []) late_events new_writer

abbrev pub good_news : MarketEvent Frac
good_news = record {
  sentiment = "POSITIVE";
  impact_score = pos 8;
  category = "results";
  m_cap_type = "Large";
  exchange = "nse";
  last_traded_price = percent 1500;
  pct_change = percent 3;
}

is_full_match-evaluate_example :
    is_full_match (evaluate good_news momentum) ≡ matches momentum good_news
is_full_match-evaluate_example = is_full_match-evaluate good_news momentum

-- The strategy is paused with version four, and an upsert with version four comes late.
apply-superseded_example :
    let paused = (apply (Event.pause "u1" "s1" 4) one_strategy).1 in
    apply (Event.upsert (some momentum) 4) paused ≡ (applied false, paused)
unfolding apply_pause pause_in apply_upsert new_writer put_active commit is_stale stale lookup
    insert apply key finalize
apply-superseded_example =
    apply-superseded (Event.pause "u1" "s1" 4) (Event.upsert (some momentum) 4) one_strategy refl
      refl refl (omega arith) refl refl
