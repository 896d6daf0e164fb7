-- ===== src/Rules/Matcher.antt =====
-- services/rules-engine/internal/matcher/evaluator.go: the conditions of a strategy against an event.
-- Logging is left out; `strings.EqualFold` folds the letters of ASCII only.
pub mod Full
use algo_treading.Base.{
  ℕ, ◌+◌, ◌-◌, ◌*◌, ◌^◌, Bool, true, false, not, ◌&&◌, ◌||◌, String, ◌==◌, List, [], ◌∷◌, ◌++◌, any,
  length, if◌then◌else◌,
}
use algo_treading.Base.Int.{ℤ, pos, leb_ℤ, eqb_ℤ}
use algo_treading.Base.Float.{Float}
use algo_treading.Base.Dict.{Dict, insert}
use algo_treading.Base.Text.{equal_fold}
use algo_treading.MultiLevel.Types.{nought}
use algo_treading.Rules.Strategy.{Strategy, Conditions}

-- The part of `MarketEvent` that the conditions read.
pub record MarketEvent {ℓ} (F : Type ℓ) : Type ℓ where
  pub sentiment : String
  pub impact_score : ℤ
  pub category : String
  pub m_cap_type : String
  pub exchange : String
  pub last_traded_price : F
  pub pct_change : F

-- `unset` is the empty status.
pub data PctChangeStatus : Type 0 where
  unset within_range below_min above_max : PctChangeStatus

pub record EvaluationResult {ℓ} (F : Type ℓ) : Type ℓ where
  pub matched_conditions : List String
  pub failed_conditions : List String
  pub condition_scores : Dict F
  pub pct_change_status : PctChangeStatus

-- `GetSentimentValue`.
unfoldable pub get_sentiment_value : String → String
get_sentiment_value s =
    if s == "Positive" || s == "positive" || s == "POSITIVE"
    then "positive"
    else if s == "Negative" || s == "negative" || s == "NEGATIVE"
    then "negative"
    else "neutral"

abbrev pub is_empty {ℓ} : {A : Type ℓ} → List A → Bool
is_empty [] = true
is_empty (x ∷ xs) = false

-- An empty filter accepts every value.
unfoldable pub accepts : List String → String → Bool
accepts filter value = is_empty filter || any (λ s. equal_fold s value) filter

abbrev pub auto_matched : List String
auto_matched =
    "match_all_news" ∷ "sentiment" ∷ "category" ∷ "market_cap" ∷ "price_range" ∷ "pct_change"
    ∷ "exchange" ∷ []

module _ {ℓ} {F : Type ℓ} ⦃f : Float F⦄ where
  open f use {of_int, ratio, sub, mul, div, lt, le, eq}

  abbrev pub full : F
  full = ratio 100 1

  -- `math.MaxFloat64`.
  abbrev pub max_float : F
  max_float = ratio ((2 ^ 53 - 1) * 2 ^ 971) 1

  unfoldable pub pass : String → F → EvaluationResult F → EvaluationResult F
  pass condition score r = record r {
    matched_conditions = r.matched_conditions ++ (condition ∷ []);
    condition_scores = insert condition score r.condition_scores;
  }

  unfoldable pub fail : String → EvaluationResult F → EvaluationResult F
  fail condition r = record r {
    failed_conditions = r.failed_conditions ++ (condition ∷ []);
    condition_scores = insert condition nought r.condition_scores;
  }

  -- An unset maximum counts as ten.
  unfoldable pub impact_in_range : Strategy F → MarketEvent F → Bool
  impact_in_range s e =
      let c = s.conditions in
      let max = if eqb_ℤ c.impact_score_max (pos 0) then pos 10 else c.impact_score_max in
      leb_ℤ c.impact_score_min e.impact_score && leb_ℤ e.impact_score max

  unfoldable pub evaluate_impact_score :
      MarketEvent F → Strategy F → EvaluationResult F → EvaluationResult F
  evaluate_impact_score e s r =
      if impact_in_range s e
      then pass "impact_score" (mul (div (of_int e.impact_score) (ratio 10 1)) full) r
      else fail "impact_score" r

  -- The four conditions that look a value up in a list.
  unfoldable pub evaluate_listed :
      String → List String → String → EvaluationResult F → EvaluationResult F
  evaluate_listed condition filter value r =
      if accepts filter value then pass condition full r else fail condition r

  unfoldable pub evaluate_sentiment :
      MarketEvent F → Strategy F → EvaluationResult F → EvaluationResult F
  evaluate_sentiment e s =
      evaluate_listed "sentiment" s.conditions.sentiments (get_sentiment_value e.sentiment)

  unfoldable pub evaluate_category :
      MarketEvent F → Strategy F → EvaluationResult F → EvaluationResult F
  evaluate_category e s = evaluate_listed "category" s.conditions.categories e.category

  unfoldable pub evaluate_market_cap :
      MarketEvent F → Strategy F → EvaluationResult F → EvaluationResult F
  evaluate_market_cap e s = evaluate_listed "market_cap" s.conditions.market_cap_types e.m_cap_type

  unfoldable pub evaluate_exchange :
      MarketEvent F → Strategy F → EvaluationResult F → EvaluationResult F
  evaluate_exchange e s = evaluate_listed "exchange" s.conditions.exchanges e.exchange

  unfoldable pub evaluate_price_range :
      MarketEvent F → Strategy F → EvaluationResult F → EvaluationResult F
  evaluate_price_range e s r =
      let range = s.conditions.price_range in
      let price = e.last_traded_price in
      if eq range.min nought && eq range.max nought
      then pass "price_range" full r
      else if le range.min price && le price range.max
      then pass "price_range" full r
      else fail "price_range" r

  -- `math.Abs`.
  abbrev pub abs : F → F
  abs x = if lt x nought then sub nought x else x

  abbrev pub effective_max : Strategy F → F
  effective_max s =
      if eq s.conditions.max_pct_change nought then max_float else s.conditions.max_pct_change

  -- The score of a change without a maximum: up to twice the minimum counts.
  unfoldable pub open_score : F → F → F
  open_score change min =
      let ratio_of = if lt nought min then div change min else ratio 1 1 in
      mul (div (if lt ratio_of (ratio 2 1) then ratio_of else ratio 2 1) (ratio 2 1)) full

  unfoldable pub span_score : F → F → F → F
  span_score change min max =
      let span = sub max min in
      let score = mul (div (sub change min) span) full in
      let raised = if lt score nought then nought else score in
      if le span nought then full else if lt full raised then full else raised

  abbrev pub with_status : PctChangeStatus → EvaluationResult F → EvaluationResult F
  with_status status r = record r { pct_change_status = status }

  unfoldable pub evaluate_pct_change :
      MarketEvent F → Strategy F → EvaluationResult F → EvaluationResult F
  evaluate_pct_change e s r =
      let change = abs e.pct_change in
      let min = s.conditions.min_pct_change in
      let max = effective_max s in
      if eq min nought && eq s.conditions.max_pct_change nought
      then pass "pct_change" full r
      else if le max change
      then fail "pct_change" (with_status PctChangeStatus.above_max r)
      else if le min change
      then pass "pct_change"
          (if eq max max_float then open_score change min else span_score change min max)
          (with_status PctChangeStatus.within_range r)
      else pass "pct_change" (ratio 50 1) (with_status PctChangeStatus.below_min r)

  abbrev pub no_result : EvaluationResult F
  no_result = record {
    matched_conditions = [];
    failed_conditions = [];
    condition_scores = [];
    pct_change_status = PctChangeStatus.unset;
  }

  unfoldable pub pass_all : List String → EvaluationResult F → EvaluationResult F
  pass_all [] r = r
  pass_all (c ∷ cs) r = pass_all cs (pass c full r)

  unfoldable pub evaluate_match_all_strategy :
      MarketEvent F → Strategy F → EvaluationResult F → EvaluationResult F
  evaluate_match_all_strategy e s r = pass_all auto_matched (evaluate_impact_score e s r)

  unfoldable pub evaluate_conditions : MarketEvent F → Strategy F → EvaluationResult F
  evaluate_conditions e s = evaluate_exchange e s (
      evaluate_pct_change e s (
        evaluate_price_range e s (
          evaluate_market_cap e s (
            evaluate_category e s (evaluate_sentiment e s (evaluate_impact_score e s no_result))))))

  unfoldable pub evaluate : MarketEvent F → Strategy F → EvaluationResult F
  evaluate e s =
      if s.conditions.match_all_news
      then evaluate_match_all_strategy e s no_result
      else evaluate_conditions e s

  -- `IsFullMatch`.
  unfoldable pub is_full_match : EvaluationResult F → Bool
  is_full_match r = is_empty r.failed_conditions

  -- `GetTotalConditionCount`.
  unfoldable pub total_condition_count : EvaluationResult F → ℕ
  total_condition_count r = length r.matched_conditions + length r.failed_conditions
