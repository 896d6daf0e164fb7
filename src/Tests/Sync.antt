-- ===== src/Tests/Sync.antt =====
-- Messages of the configuration topic on a store with one strategy.
use algo_treading.Base.{◌≡◌, refl, true, false, [], ◌∷◌, none, some, arith}
use algo_treading.Base.Int.{pos, ◌*ℤ◌}
use algo_treading.Base.Float.{Frac, exact}
use algo_treading.Base.Dict.{lookup, insert}
use algo_treading.MultiLevel.Split.Whole.{percent}
use algo_treading.Rules.Payload.{ConfigEventType, ConfigEvent, StrategyPayload, to_model_strategy}
use algo_treading.Rules.Strategy.{is_loadable}
use algo_treading.Rules.Store.{
  apply_upsert, new_writer, get_strategy, stale, commit, put_active, is_stale, find_in, finalize,
  bulk_load, load_from, view_of, metrics, count_active, count_paused,
}
use algo_treading.Rules.Sync.{is_old, process_message, process_all, bootstrap, valid_only}
use algo_treading.Rules.Sync.Messages.{process_all-deletion, deletion}
use algo_treading.Rules.Sync.Loaded.{IsKept, get_strategy-bootstrap}
use algo_treading.Tests.Rules.{momentum, one_strategy}

abbrev payload : StrategyPayload Frac
payload = record {
  strategy_id = "s1";
  user_id = "u1";
  strategy_name = "momentum";
  active = true;
  trading_mode = "LIVE";
  conditions = record {
    match_all_news = true;
    impact_score_min = pos 5;
    impact_score_max = pos 0;
    sentiments = [];
    categories = [];
    market_cap_types = [];
    min_market_cap = percent 0;
    max_market_cap = percent 0;
    min_price_change_pct = percent 0;
    max_price_change_pct = percent 0;
    exchanges = "EXCHANGE_NSE" ∷ [];
  };
  trade_config = record {
    order_type = "ORDER_TYPE_MARKET";
    product_type = "MIS";
    validity = "DAY";
    quantity = pos 10;
    exchange = "NSE";
    order_side = "BUY";
    limit_price = percent 0;
    stop_loss_pct = percent 1;
    take_profit_pct = percent 2;
    trailing_sl_pct = percent 0;
    stop_loss_type = "FIXED";
    take_profit_type = "FIXED";
    multi_level_sl = [];
    multi_level_tp = [];
    trade_window_start = "";
    trade_window_end = "";
  };
  risk_limits = record {
    max_daily_trades = pos 5;
    max_per_trade_risk = percent 0;
    max_portfolio_exposure_pct = percent 0;
    max_loss_per_day = percent 0;
    enable_risk_checks = true;
    enable_auto_square_off = false;
    auto_square_off_time = "";
    max_amount_per_stock = percent 0;
    max_trades_per_strategy = pos 0;
  };
  version = 2;
}

abbrev update : ConfigEvent Frac
update = record {
  kind = ConfigEventType.updated;
  user_id = "u1";
  strategy_id = "s1";
  version = 5;
  config = some payload;
}

abbrev pause : ConfigEvent Frac
pause = record update { kind = ConfigEventType.paused; config = none }

process_all-deletion_example :
    get_strategy "u1" "s1" (
      process_all
        (some update ∷ none ∷ some pause ∷ [])
        (process_message (some (deletion "u1" "s1" 5 none)) one_strategy).1)
    ≡ none
unfolding apply_upsert new_writer put_active commit is_stale stale lookup is_old get_strategy
    find_in insert to_model_strategy finalize
process_all-deletion_example =
    process_all-deletion "u1" "s1" 5 none one_strategy (some update ∷ none ∷ some pause ∷ []) refl
      refl refl refl ((λ _ _. omega arith), (tt, (tt, tt)))

get_strategy-bootstrap_example :
    IsKept (some momentum ∷ none ∷ []) momentum
    × ((momentum.user_id ≡ "u1") × ((momentum.strategy_id ≡ "s1") × (momentum.active ≡ true)))
unfolding bootstrap bulk_load load_from valid_only is_loadable get_strategy find_in lookup insert
    commit new_writer finalize view_of metrics count_active count_paused ◌*ℤ◌
get_strategy-bootstrap_example =
    get_strategy-bootstrap (some momentum ∷ none ∷ []) new_writer "u1" "s1" momentum refl
