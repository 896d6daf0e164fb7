-- ===== src/Tests/Risk.antt =====
-- An order that is checked twice.
use algo_treading.Base.{◌≡◌, refl, true, false, List, [], ◌∷◌, arith}
use algo_treading.Base.Int.{pos, wrap32, ◌+ℤ◌, ◌*ℤ◌, ◌-ℤ◌}
use algo_treading.Base.Float.{Frac, frac, exact, trunc_div, div_frac}
use algo_treading.Base.Text.{equal_fold, trim_space}
use algo_treading.Risk.{
  PreTradeRiskRequest, UserKeys, Reads, Violation, flag_if, violations_of, check_pre_trade,
}
use algo_treading.Risk.Duplicates.{Check, check_all, check_pre_trade-check_all}

abbrev order : PreTradeRiskRequest Frac
order = record {
  stock_code = pos 1594;
  order_side = pos 1;
  quantity = pos 10;
  price = frac (pos 100) 0;
  stop_loss = frac (pos 98) 0;
  take_profit = frac (pos 105) 0;
  max_daily_trades = pos 5;
  max_loss_per_day = frac (pos 1000) 0;
  max_position_size = frac (pos 5000) 0;
  max_per_trade_risk = frac (pos 100) 0;
}

abbrev large_order : PreTradeRiskRequest Frac
large_order = record order { quantity = pos 1000 }

abbrev user : UserKeys Frac
user = record {
  risk_profile = " Conservative ";
  trades = ("o0", 1700000000) ∷ [];
  loss = frac (pos 0) 0;
  balance = frac (pos 100000) 0;
  positions = [];
  fingerprints = [];
}

abbrev all_read : Reads
all_read = record {
  risk_profile = true;
  trade_count = true;
  loss = true;
  duplicate = true;
  balance = true;
  positions = true;
  add_duplicate = true;
}

too_large :
    violations_of all_read large_order 1700000100 user
    ≡ Violation.position_size_limit ∷ Violation.per_trade_risk_limit ∷ Violation.concentration_limit
      ∷ []
unfolding violations_of flag_if equal_fold trim_space wrap32 trunc_div ◌*ℤ◌ ◌-ℤ◌ div_frac ◌+ℤ◌
too_large = refl

abbrev between : List (Check Frac)
between =
    record { reads = all_read; order = large_order; time = 1700000105 }
    ∷ record { reads = all_read; order = order; time = 1700000110 }
    ∷ []

check_pre_trade-check_all_example :
    let later = check_all between (check_pre_trade all_read order 1700000100 user).0 in
    (check_pre_trade all_read order 1700000120 later).1.approved ≡ false
unfolding check_pre_trade flag_if equal_fold trim_space wrap32 trunc_div ◌*ℤ◌ ◌-ℤ◌ div_frac ◌+ℤ◌
check_pre_trade-check_all_example =
    check_pre_trade-check_all all_read all_read order order 1700000100 1700000120 between user refl
      refl refl refl (omega arith, (omega arith, tt)) (omega arith)
