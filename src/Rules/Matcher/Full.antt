-- ===== src/Rules/Matcher/Full.antt =====
-- When an event matches a strategy in full.
use algo_treading.Base.{
  ◌≡◌, refl, ap, sym, ◌∙◌, Bool, true, false, not, ◌&&◌, ◌||◌, String, List, [], ◌∷◌, ◌++◌,
  if◌then◌else◌, arith,
}
use algo_treading.Base.Float.{Float}
use algo_treading.MultiLevel.Types.{nought}
use algo_treading.Rules.Strategy.{Strategy}
use algo_treading.Rules.Matcher.{
  MarketEvent, PctChangeStatus, EvaluationResult, get_sentiment_value, is_empty, accepts, full,
  pass, fail, impact_in_range, evaluate_impact_score, evaluate_listed, evaluate_sentiment,
  evaluate_category, evaluate_market_cap, evaluate_exchange, evaluate_price_range, abs,
  effective_max, max_float, open_score, span_score, with_status, evaluate_pct_change, no_result,
  pass_all, auto_matched, evaluate_match_all_strategy, evaluate_conditions, evaluate, is_full_match,
}

is_empty-append : (xs : List String) (x : String) → is_empty (xs ++ (x ∷ [])) ≡ false
is_empty-append [] x = refl
is_empty-append (y ∷ ys) x = refl

and_true : (b : Bool) → b && true ≡ b
and_true true = refl
and_true false = refl

and_false : (b : Bool) → b && false ≡ false
and_false true = refl
and_false false = refl

rearrange :
    (i a b c p q d : Bool)
    → ((((((i && a) && b) && c) && p) && q) && d) ≡ (i && ((a && b && c && d) && p && q))
rearrange i a b c p q d = ground arith

module _ {ℓ} {F : Type ℓ} ⦃f : Float F⦄ where
  open f use {lt, le, eq}

  is_full_match-fail : (c : String) (r : EvaluationResult F) → is_full_match (fail c r) ≡ false
  unfolding is_full_match fail
  is_full_match-fail c r = is_empty-append r.failed_conditions c

  is_full_match-pass :
      (c : String) (x : F) (r : EvaluationResult F) → is_full_match (pass c x r) ≡ is_full_match r
  unfolding is_full_match pass
  is_full_match-pass c x r = refl

  is_full_match-if :
      (b : Bool) (c d : String) (x : F) (r : EvaluationResult F)
      → is_full_match (if b then pass c x r else fail d r) ≡ is_full_match r && b
  is_full_match-if true c d x r = is_full_match-pass c x r ∙ sym (and_true (is_full_match r))
  is_full_match-if false c d x r = is_full_match-fail d r ∙ sym (and_false (is_full_match r))

  -- The price lies in the range, or there is none.
  abbrev pub price_ok : Strategy F → MarketEvent F → Bool
  price_ok s e =
      let range = s.conditions.price_range in
      eq range.min nought && eq range.max nought
      || le range.min e.last_traded_price && le e.last_traded_price range.max

  -- The change is below the maximum, or there is no filter; a change below the minimum is accepted.
  abbrev pub change_ok : Strategy F → MarketEvent F → Bool
  change_ok s e =
      eq s.conditions.min_pct_change nought && eq s.conditions.max_pct_change nought
      || not (le (effective_max s) (abs e.pct_change))

  abbrev pub lists_ok : Strategy F → MarketEvent F → Bool
  lists_ok s e =
      let c = s.conditions in
      accepts c.sentiments (get_sentiment_value e.sentiment)
      && accepts c.categories e.category
      && accepts c.market_cap_types e.m_cap_type
      && accepts c.exchanges e.exchange

  -- What a full match means.
  abbrev pub matches : Strategy F → MarketEvent F → Bool
  matches s e =
      impact_in_range s e
      && (s.conditions.match_all_news || lists_ok s e && price_ok s e && change_ok s e)

  is_full_match-impact :
      (e : MarketEvent F) (s : Strategy F) (r : EvaluationResult F)
      → is_full_match (evaluate_impact_score e s r) ≡ is_full_match r && impact_in_range s e
  unfolding evaluate_impact_score
  is_full_match-impact e s r =
      is_full_match-if (impact_in_range s e) "impact_score" "impact_score" _ r

  is_full_match-listed :
      (c : String) (filter : List String) (value : String) (r : EvaluationResult F)
      → is_full_match (evaluate_listed c filter value r) ≡ is_full_match r && accepts filter value
  unfolding evaluate_listed
  is_full_match-listed c filter value r = is_full_match-if (accepts filter value) c c full r

  is_full_match-price :
      (e : MarketEvent F) (s : Strategy F) (r : EvaluationResult F)
      → is_full_match (evaluate_price_range e s r) ≡ is_full_match r && price_ok s e
  unfolding evaluate_price_range
  is_full_match-price e s r =
      two (eq s.conditions.price_range.min nought && eq s.conditions.price_range.max nought)
        (le s.conditions.price_range.min e.last_traded_price
          && le e.last_traded_price s.conditions.price_range.max)
        r
    where
      two :
          (a b : Bool) (r : EvaluationResult F)
          → is_full_match (
              if a
              then pass "price_range" full r
              else if b
              then pass "price_range" full r
              else fail "price_range" r)
            ≡ is_full_match r && (a || b)
      two true b r = is_full_match-pass "price_range" full r ∙ sym (and_true (is_full_match r))
      two false b r = is_full_match-if b "price_range" "price_range" full r

  status :
      (t : PctChangeStatus) (x : F) (r : EvaluationResult F)
      → is_full_match (pass "pct_change" x (with_status t r)) ≡ is_full_match r && true
  unfolding is_full_match pass
  status t x r = sym (and_true (is_full_match r))

  is_full_match-pass_all :
      (cs : List String) (r : EvaluationResult F) → is_full_match (pass_all cs r) ≡ is_full_match r
  unfolding pass_all
  is_full_match-pass_all [] r = refl
  is_full_match-pass_all (c ∷ cs) r =
      is_full_match-pass_all cs (pass c full r) ∙ is_full_match-pass c full r

  is_full_match-first :
      (e : MarketEvent F) (s : Strategy F)
      → is_full_match (evaluate_impact_score e s no_result) ≡ impact_in_range s e
  unfolding is_full_match
  is_full_match-first e s = is_full_match-impact e s no_result

  is_full_match-change :
      (e : MarketEvent F) (s : Strategy F) (r : EvaluationResult F)
      → is_full_match (evaluate_pct_change e s r) ≡ is_full_match r && change_ok s e
  unfolding evaluate_pct_change
  is_full_match-change e s r =
      three (eq s.conditions.min_pct_change nought && eq s.conditions.max_pct_change nought)
        (le (effective_max s) (abs e.pct_change))
        (le s.conditions.min_pct_change (abs e.pct_change)) full
        (if eq (effective_max s) max_float
          then open_score (abs e.pct_change) s.conditions.min_pct_change
          else span_score (abs e.pct_change) s.conditions.min_pct_change (effective_max s))
        (f.ratio 50 1) r
    where
      three :
          (a b c : Bool) (x y z : F) (r : EvaluationResult F)
          → is_full_match (
              if a
              then pass "pct_change" x r
              else if b
              then fail "pct_change" (with_status PctChangeStatus.above_max r)
              else if c
              then pass "pct_change" y (with_status PctChangeStatus.within_range r)
              else pass "pct_change" z (with_status PctChangeStatus.below_min r))
            ≡ is_full_match r && (a || not b)
      three true b c x y z r =
          is_full_match-pass "pct_change" x r ∙ sym (and_true (is_full_match r))
      three false true c x y z r =
          is_full_match-fail "pct_change" (with_status PctChangeStatus.above_max r)
          ∙ sym (and_false (is_full_match r))
      three false false true x y z r = status PctChangeStatus.within_range y r
      three false false false x y z r = status PctChangeStatus.below_min z r

  is_full_match-match_all :
      (e : MarketEvent F) (s : Strategy F)
      → is_full_match (evaluate_match_all_strategy e s no_result) ≡ impact_in_range s e
  unfolding evaluate_match_all_strategy
  is_full_match-match_all e s =
      is_full_match-pass_all auto_matched (evaluate_impact_score e s no_result)
      ∙ is_full_match-first e s

  is_full_match-conditions :
      (e : MarketEvent F) (s : Strategy F)
      → is_full_match (evaluate_conditions e s)
        ≡ impact_in_range s e && (lists_ok s e && price_ok s e && change_ok s e)
  unfolding evaluate_conditions evaluate_sentiment evaluate_category evaluate_market_cap
      evaluate_exchange
  is_full_match-conditions e s =
      let c = s.conditions in
      let r1 = evaluate_impact_score e s no_result in
      let r2 = evaluate_sentiment e s r1 in
      let r3 = evaluate_category e s r2 in
      let r4 = evaluate_market_cap e s r3 in
      let r5 = evaluate_price_range e s r4 in
      let r6 = evaluate_pct_change e s r5 in
      let mood = get_sentiment_value e.sentiment in
      let e1 = is_full_match-first e s in
      let e2 =
        is_full_match-listed "sentiment" c.sentiments mood r1
        ∙ ap (λ b. b && accepts c.sentiments mood) e1 in
      let e3 =
        is_full_match-listed "category" c.categories e.category r2
        ∙ ap (λ b. b && accepts c.categories e.category) e2 in
      let e4 =
        is_full_match-listed "market_cap" c.market_cap_types e.m_cap_type r3
        ∙ ap (λ b. b && accepts c.market_cap_types e.m_cap_type) e3 in
      let e5 = is_full_match-price e s r4 ∙ ap (λ b. b && price_ok s e) e4 in
      let e6 = is_full_match-change e s r5 ∙ ap (λ b. b && change_ok s e) e5 in
      is_full_match-listed "exchange" c.exchanges e.exchange r6
      ∙ ap (λ b. b && accepts c.exchanges e.exchange) e6
      ∙ rearrange (impact_in_range s e) (accepts c.sentiments mood)
          (accepts c.categories e.category) (accepts c.market_cap_types e.m_cap_type) (price_ok s e)
          (change_ok s e) (accepts c.exchanges e.exchange)

  either_way :
      (a : Bool) (x y : EvaluationResult F) (i ok : Bool)
      → is_full_match x ≡ i
      → is_full_match y ≡ i && ok
      → is_full_match (if a then x else y) ≡ i && (a || ok)
  either_way true x y i ok p q = p ∙ sym (and_true i)
  either_way false x y i ok p q = q

  -- An event matches a strategy in full exactly if its impact score is in range and, unless the strategy
  -- takes all news, the four lists accept it, its price is in the range and its change is below the
  -- maximum; a change below the minimum is accepted.
  pub is_full_match-evaluate :
      (e : MarketEvent F) (s : Strategy F) → is_full_match (evaluate e s) ≡ matches s e
  unfolding evaluate
  is_full_match-evaluate e s =
      either_way s.conditions.match_all_news (evaluate_match_all_strategy e s no_result)
        (evaluate_conditions e s) (impact_in_range s e)
        (lists_ok s e && price_ok s e && change_ok s e) (is_full_match-match_all e s)
        (is_full_match-conditions e s)
