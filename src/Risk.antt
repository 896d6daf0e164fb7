-- ===== src/Risk.antt =====
-- services/risk-management/internal: checker/pre_trade.go, repository/redis.go and server/server.go: the
-- checks of an order before it is traded, on what Redis holds of one user. A conversion to int32 wraps.
pub mod Duplicates
use algo_treading.Base.{
  ℕ, ◌+◌, ◌*◌, ◌/◌, Bool, true, false, not, ◌&&◌, ◌||◌, String, ◌==◌, List, [], ◌∷◌, ◌++◌, Option,
  none, some, map, any, ltb, leb, eqb, if◌then◌else◌,
}
use algo_treading.Base.Int.{ℤ, pos, leb_ℤ, eqb_ℤ, wrap32}
use algo_treading.Base.Float.{Float}
use algo_treading.Base.Dict.{insert}
use algo_treading.Base.Text.{equal_fold, trim_space}
use algo_treading.MultiLevel.Types.{nought}

pub record PreTradeRiskRequest {ℓ} (F : Type ℓ) : Type ℓ where
  pub stock_code : ℤ
  pub order_side : ℤ
  pub quantity : ℤ
  pub price : F
  pub stop_loss : F
  pub take_profit : F
  pub max_daily_trades : ℤ
  pub max_loss_per_day : F
  pub max_position_size : F
  pub max_per_trade_risk : F

-- The numbers that the string `%d:%d:%d` of `fingerprintOrder` keeps apart.
pub record Fingerprint : Type 0 where
  pub stock : ℤ
  pub side : ℤ
  pub quantity : ℤ

pub data Violation : Type 0 where
  daily_trade_limit daily_loss_limit position_size_limit per_trade_risk_limit : Violation
  duplicate_order insufficient_margin circuit_breaker concentration_limit : Violation

pub record Position {ℓ} (F : Type ℓ) : Type ℓ where
  pub stock : ℤ
  pub quantity : ℤ
  pub avg_price : F

-- The keys of one user. Times are in seconds; a fingerprint comes with the time at which it expires.
pub record UserKeys {ℓ} (F : Type ℓ) : Type ℓ where
  pub risk_profile : String
  pub trades : List (String × ℕ)
  pub loss : F
  pub balance : F
  pub positions : List (Position F)
  pub fingerprints : List (Fingerprint × ℕ)

-- Which calls to Redis succeed.
pub record Reads : Type 0 where
  pub risk_profile : Bool
  pub trade_count : Bool
  pub loss : Bool
  pub duplicate : Bool
  pub balance : Bool
  pub positions : Bool
  pub add_duplicate : Bool

pub record PreTradeRiskResponse {ℓ} (F : Type ℓ) : Type ℓ where
  pub approved : Bool
  pub violations : List Violation
  pub risk_score : F
  pub suggestions : List String

abbrev pub same_order : Fingerprint → Fingerprint → Bool
same_order a b = eqb_ℤ a.stock b.stock && eqb_ℤ a.side b.side && eqb_ℤ a.quantity b.quantity

unfoldable pub check_duplicate_order : Fingerprint → ℕ → List (Fingerprint × ℕ) → Bool
check_duplicate_order order now = any (λ e. same_order e.0 order && ltb now e.1)

unfoldable pub without : Fingerprint → List (Fingerprint × ℕ) → List (Fingerprint × ℕ)
without order [] = []
without order (e ∷ rest) =
    let others = without order rest in if same_order e.0 order then others else e ∷ others

-- A key that is set again has its new time only.
unfoldable pub add_duplicate_order :
    Fingerprint → ℕ → ℕ → List (Fingerprint × ℕ) → List (Fingerprint × ℕ)
unfolding without
add_duplicate_order order now window fingerprints =
    (order, now + window) ∷ without order fingerprints

-- The trades since midnight, which is that of Greenwich.
unfoldable pub today_trade_count : ℕ → List (String × ℕ) → ℕ
today_trade_count now [] = 0
today_trade_count now (trade ∷ rest) =
    let others = today_trade_count now rest in
    if leb (now / 86400 * 86400) trade.1 then others + 1 else others

unfoldable pub flag_if : Bool → Violation → List Violation → List Violation
flag_if b v rest = if b then v ∷ rest else rest

unfoldable pub suggestion : Violation → String
suggestion Violation.daily_trade_limit =
    "Reduce trading frequency or review daily trade limit in user settings"
suggestion Violation.daily_loss_limit = "Stop trading for today; consider adjusting strategy risk"
suggestion Violation.position_size_limit = "Lower order quantity or split orders"
suggestion Violation.per_trade_risk_limit = "Increase stop loss distance or reduce quantity"
suggestion Violation.duplicate_order = "Wait and retry or cancel duplicate order"
suggestion Violation.insufficient_margin = "Deposit more funds or reduce order size"
suggestion Violation.circuit_breaker = "Trading halted due to circuit breaker"
suggestion Violation.concentration_limit =
    "Reduce concentration by trading other instruments or reducing size"

module _ {ℓ} {F : Type ℓ} ⦃f : Float F⦄ where
  open f use {of_int, ratio, add, sub, mul, div, to_int, lt}

  abbrev scaled : F → PreTradeRiskRequest F → PreTradeRiskRequest F
  scaled factor r = record r {
    max_daily_trades = wrap32 (to_int (mul (of_int r.max_daily_trades) factor));
    max_position_size = mul r.max_position_size factor;
    max_per_trade_risk = mul r.max_per_trade_risk factor;
  }

  unfoldable pub apply_profile_adjustments : String → PreTradeRiskRequest F → PreTradeRiskRequest F
  apply_profile_adjustments profile r =
      if equal_fold (trim_space profile) "conservative"
      then scaled (ratio 1 2) r
      else if equal_fold (trim_space profile) "aggressive"
      then scaled (ratio 3 2) r
      else r

  abbrev pub fingerprint_order : PreTradeRiskRequest F → Fingerprint
  fingerprint_order r = record { stock = r.stock_code; side = r.order_side; quantity = r.quantity }

  -- What the hash of stock 0 is worth: the code reads that one for every key.
  unfoldable pub value_of_stock_0 : List (Position F) → F
  value_of_stock_0 [] = nought
  value_of_stock_0 (p ∷ rest) =
      if eqb_ℤ p.stock (pos 0) then mul (of_int p.quantity) p.avg_price else value_of_stock_0 rest

  -- The largest share of the total over the keys.
  unfoldable pub largest_pct : F → F → List (Position F) → F → F
  largest_pct total value [] largest = largest
  largest_pct total value (p ∷ rest) largest =
      let pct = mul (div value total) (ratio 100 1) in
      largest_pct total value rest
        (if lt nought total then if lt largest pct then pct else largest else largest)

  -- The eight checks, in their order.
  unfoldable pub violations_of : Reads → PreTradeRiskRequest F → ℕ → UserKeys F → List Violation
  unfolding apply_profile_adjustments today_trade_count check_duplicate_order largest_pct
      value_of_stock_0
  violations_of reads r now user =
      let limits =
        apply_profile_adjustments (if reads.risk_profile then user.risk_profile else "") r in
      let trades = pos (today_trade_count now user.trades) in
      let loss = if reads.loss then user.loss else nought in
      let value = mul (of_int r.quantity) r.price in
      let potential_loss = mul (of_int r.quantity) (sub r.price r.stop_loss) in
      let balance = if reads.balance then user.balance else nought in
      let hundred = ratio 100 1 in
      let most = ratio 20 1 in
      let largest =
        if reads.positions
        then largest_pct balance (value_of_stock_0 user.positions) user.positions nought
        else nought in
      flag_if (reads.trade_count && leb_ℤ limits.max_daily_trades trades)
        Violation.daily_trade_limit
        (flag_if (reads.loss && lt limits.max_loss_per_day loss) Violation.daily_loss_limit (
          flag_if (lt limits.max_position_size value) Violation.position_size_limit (
            flag_if (lt limits.max_per_trade_risk potential_loss) Violation.per_trade_risk_limit (
              flag_if
                (reads.duplicate
                  && check_duplicate_order (fingerprint_order r) now user.fingerprints)
                Violation.duplicate_order
                (flag_if (reads.balance && lt balance value) Violation.insufficient_margin (
                  flag_if (lt nought balance && lt (ratio 5 1) (mul (div loss balance) hundred))
                    Violation.circuit_breaker
                    (flag_if
                      (lt most (mul (div value (add balance value)) hundred) || lt most largest)
                      Violation.concentration_limit [])))))))

  abbrev pub weight : Violation → F
  weight Violation.daily_trade_limit = ratio 15 1
  weight Violation.daily_loss_limit = ratio 20 1
  weight Violation.position_size_limit = ratio 10 1
  weight Violation.per_trade_risk_limit = ratio 15 1
  weight Violation.duplicate_order = ratio 10 1
  weight Violation.insufficient_margin = ratio 20 1
  weight Violation.circuit_breaker = ratio 25 1
  weight Violation.concentration_limit = ratio 10 1

  unfoldable pub score_from : F → List Violation → F
  score_from score [] = score
  score_from score (v ∷ vs) = score_from (add score (weight v)) vs

  -- An approved order is remembered for thirty seconds.
  unfoldable pub respond :
      Reads
      → PreTradeRiskRequest F
      → ℕ
      → UserKeys F
      → List Violation
      → UserKeys F × PreTradeRiskResponse F
  unfolding add_duplicate_order score_from suggestion
  respond reads r now user [] =
      let remembered = record user {
        fingerprints = add_duplicate_order (fingerprint_order r) now 30 user.fingerprints;
      } in
      (
        if reads.add_duplicate then remembered else user,
        record { approved = true; violations = []; risk_score = nought; suggestions = [] },
      )
  respond reads r now user (v ∷ vs) = (
    user,
    record {
      approved = false;
      violations = v ∷ vs;
      risk_score = score_from nought (v ∷ vs);
      suggestions = map suggestion (v ∷ vs);
    },
  )

  unfoldable pub check_pre_trade :
      Reads → PreTradeRiskRequest F → ℕ → UserKeys F → UserKeys F × PreTradeRiskResponse F
  unfolding respond violations_of
  check_pre_trade reads r now user = respond reads r now user (violations_of reads r now user)

  unfoldable pub set_position : Position F → List (Position F) → List (Position F)
  set_position p [] = p ∷ []
  set_position p (q ∷ rest) =
      let others = set_position p rest in if eqb_ℤ q.stock p.stock then p ∷ rest else q ∷ others

  -- `UpdatePostTradeMetrics`: the position becomes that of the last fill; whether it is set is not looked at.
  unfoldable pub update_post_trade_metrics :
      Bool → Bool → String → Position F → ℕ → UserKeys F → UserKeys F × Bool
  unfolding set_position
  update_post_trade_metrics counted placed order_id p now user =
      let trades = insert order_id now user.trades in
      let positions = if placed then set_position p user.positions else user.positions in
      if counted
      then (record user { trades = trades; positions = positions }, true)
      else (user, false)

  -- `ResetDailyCounters`, with the number of users that are reset.
  unfoldable pub reset_daily_counters : Bool → String → UserKeys F → UserKeys F × ℕ
  reset_daily_counters deleted user_id user =
      if user_id == "" || not deleted
      then (user, 0)
      else (record user { trades = []; loss = nought }, 1)
