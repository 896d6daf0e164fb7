-- ===== src/Rules/Signals/Guards.antt =====
-- What holds of a match whose order is published.
use algo_treading.Base.{
  ℕ, Bool, true, false, ◌&&◌, ◌||◌, List, Option, none, some, ◌≡◌, refl, ap, ◌∙◌, sym, ◌⊎◌, inl,
  inr, if◌then◌else◌, arith,
}
use algo_treading.Base.Int.{pos, leb_ℤ, ltb_ℤ, wrap32, ◌<ℤ◌}
use algo_treading.Base.Float.{Float}
use algo_treading.MultiLevel.Types.{nought}
use algo_treading.Rules.Strategy.{Strategy}
use algo_treading.Rules.Matcher.{abs, PctChangeStatus}
use algo_treading.Rules.Signals.{
  Event, RuleMatch, OrderRequest, MarketDataResult, Signal, InvalidOrder, has_signal_today,
  get_strategy_trades_today, validate_order,
}
use algo_treading.Rules.Signals.Window.{is_within_trade_window}
use algo_treading.Rules.Signals.Pricing.{
  new_order_request, Stop, priced, sized, immediate_order, pending_order, with_exits,
}
use algo_treading.Rules.Signals.Match.{
  Answers, lock_stop, cap_stop, window_stop, quantity_stop, live_stop, approve, approve_unless,
  and_then, unless, draft, build_order, order_for,
}

unless-inr {ℓ} :
    {A : Type ℓ} (o : Option Stop) (x : Stop ⊎ A) (b : A)
    → unless o x ≡ inr b
    → (o ≡ none) × (x ≡ inr b)
unless-inr none x b e = (refl, e)
unless-inr (some stop) x b e = ground arith

and_then-inr {ℓ} :
    {A B : Type ℓ} (r : Stop ⊎ A) (next : A → Stop ⊎ B) (b : B)
    → and_then r next ≡ inr b
    → (a : A) × (r ≡ inr a) × (next a ≡ inr b)
and_then-inr (inl stop) next b e = ground arith
and_then-inr (inr a) next b e = (a, refl, e)

or_other {ℓ} : {A : Type ℓ} → A → Stop ⊎ A → A
or_other x (inl stop) = x
or_other x (inr y) = y

else_lem {ℓ} :
    {A : Type ℓ} (b : Bool) (stop : Stop) (x : Stop ⊎ A) (y : A)
    → (if b then inl stop else x) ≡ inr y
    → x ≡ inr y
else_lem true stop x y h = ground arith
else_lem false stop x y h = h

module _ {ℓ} {F : Type ℓ} ⦃f : Float F⦄ where
  open f use {lt, le, eq}

  -- The guards of `processMatch`.
  pub record Allowed (a : Answers F) (table : List Signal) (e : Event F) (m : RuleMatch F)
      (s : Strategy F) (md : MarketDataResult F) (o : OrderRequest F) : Type ℓ where
    pub window_open :
        is_within_trade_window s.trade_config.trade_window_start s.trade_config.trade_window_end
          a.minute
        ≡ true
    pub unlocked :
        has_signal_today a.zones s.strategy_id e.stock_code m.updated_at a.now table ≡ false
    pub below_cap :
        leb_ℤ s.risk_limits.max_trades_per_strategy (pos 0)
          || ltb_ℤ
              (wrap32
                (pos (get_strategy_trades_today a.zones s.strategy_id m.updated_at a.now table)))
              s.risk_limits.max_trades_per_strategy
        ≡ true
    pub has_price : le md.ltp nought ≡ false
    pub below_max :
        lt nought s.conditions.max_pct_change
          && le s.conditions.max_pct_change (abs md.percent_change)
        ≡ false
    pub order_price : le o.price nought ≡ false
    pub order_quantity : pos 0 <ℤ o.quantity
    pub approved : o.risk_approved ≡ true
    pub same_strategy : o.strategy_id ≡ s.strategy_id
    pub same_stock : o.stock_code ≡ e.stock_code

  window_lem :
      (a : Answers F) (s : Strategy F)
      → window_stop a s ≡ none
      → is_within_trade_window s.trade_config.trade_window_start s.trade_config.trade_window_end
          a.minute
        ≡ true
  unfolding window_stop
  window_lem a s h = ground arith

  lock_lem :
      (a : Answers F) (table : List Signal) (e : Event F) (since : ℕ) (s : Strategy F)
      → lock_stop a table e since s ≡ none
      → has_signal_today a.zones s.strategy_id e.stock_code since a.now table ≡ false
  unfolding lock_stop
  lock_lem a table e since s h = ground arith

  cap_lem :
      (a : Answers F) (table : List Signal) (since : ℕ) (s : Strategy F)
      → cap_stop a table since s ≡ none
      → leb_ℤ s.risk_limits.max_trades_per_strategy (pos 0)
          || ltb_ℤ
              (wrap32 (pos (get_strategy_trades_today a.zones s.strategy_id since a.now table)))
              s.risk_limits.max_trades_per_strategy
        ≡ true
  unfolding cap_stop
  cap_lem a table since s h = ground arith

  live_lem :
      (s : Strategy F) (md : MarketDataResult F)
      → live_stop s md ≡ none
      → (le md.ltp nought ≡ false)
        × ((lt nought s.conditions.max_pct_change
              && le s.conditions.max_pct_change (abs md.percent_change))
            ≡ false)
  unfolding live_stop
  live_lem s md h = ground arith

  valid_lem :
      (o : OrderRequest F)
      → validate_order o ≡ none
      → (le o.price nought ≡ false) × (pos 0 <ℤ o.quantity)
  unfolding validate_order
  valid_lem o h = ground arith

  approve_unless_lem :
      (o p : OrderRequest F) (v : Option InvalidOrder)
      → approve_unless o v ≡ inr p
      → (v ≡ none) × (p ≡ record o { risk_approved = true; risk_score = nought })
  unfolding approve_unless or_other
  approve_unless_lem o p none h = (refl, sym (ap (or_other o) h))
  approve_unless_lem o p (some x) h = ground arith

  priced_lem :
      (s : Strategy F) (e : Event F) (md : MarketDataResult F) (tick : F) (st : PctChangeStatus)
      (o : OrderRequest F) (q : OrderRequest F × F)
      → priced st s e md tick o ≡ inr q
      → (q.0.strategy_id ≡ o.strategy_id) × (q.0.stock_code ≡ o.stock_code)
  unfolding priced immediate_order pending_order with_exits
  priced_lem s e md tick PctChangeStatus.within_range o q h = ground arith
  priced_lem s e md tick PctChangeStatus.below_min o q h = ground arith
  priced_lem s e md tick PctChangeStatus.unset o q h = ground arith
  priced_lem s e md tick PctChangeStatus.above_max o q h = ground arith

  sized_lem :
      (s : Strategy F) (q : OrderRequest F × F) (o : OrderRequest F)
      → sized s q ≡ inr o
      → (o.strategy_id ≡ q.0.strategy_id) × (o.stock_code ≡ q.0.stock_code)
  unfolding sized
  sized_lem s q o h = ground arith

  -- What the later half of `processMatch` checks and keeps.
  abbrev Built : Event F → Strategy F → OrderRequest F → MarketDataResult F → Type 0
  Built e s o md =
      (live_stop s md ≡ none)
      × (validate_order o ≡ none)
      × (o.risk_approved ≡ true)
      × (o.strategy_id ≡ s.strategy_id)
      × (o.stock_code ≡ e.stock_code)

  build_order_lem :
      (a : Answers F) (e : Event F) (m : RuleMatch F) (s : Strategy F) (tick : F)
      (md : Option (MarketDataResult F)) (o : OrderRequest F)
      → build_order a e m s tick md ≡ inr o
      → (q : MarketDataResult F) × (md ≡ some q) × Built e s o q
  unfolding build_order draft approve new_order_request validate_order
  build_order_lem a e m s tick none o h = ground arith
  build_order_lem a e m s tick (some md) o h =
      let live = unless-inr (live_stop s md) _ o h in
      let (q, price, rest) =
        and_then-inr (priced m.pct_change_status s e md tick (draft a e m s md)) _ o live.1 in
      let (r, size, last) = and_then-inr (sized s q) approve o rest in
      let (valid, is_o) = approve_unless_lem r o (validate_order r) last in
      let kept = priced_lem s e md tick m.pct_change_status _ q price in
      let sized_kept = sized_lem s q r size in
      (
        md,
        refl,
        (
          live.0,
          ap validate_order is_o ∙ valid,
          ap (λ x. x.risk_approved) is_o,
          ap (λ x. x.strategy_id) is_o ∙ sized_kept.0 ∙ kept.0,
          ap (λ x. x.stock_code) is_o ∙ sized_kept.1 ∙ kept.1,
        ),
      )

  -- An order is made of a match only within the window, while the stock is not locked and the cap not
  -- reached, with a live price and a live change below the maximum; it is priced, of at least one share,
  -- for the strategy and the stock of the match, and approved without the risk service.
  pub order_for-Allowed :
      (a : Answers F) (table : List Signal) (e : Event F) (md : Option (MarketDataResult F))
      (m : RuleMatch F) (s : Strategy F) (o : OrderRequest F)
      → order_for a table e md m (some s) ≡ inr o
      → (q : MarketDataResult F) × (md ≡ some q) × Allowed a table e m s q o
  unfolding order_for
  order_for-Allowed a table e md m s o h =
      let window = unless-inr (window_stop a s) _ o h in
      let lock = unless-inr (lock_stop a table e m.updated_at s) _ o window.1 in
      let cap = unless-inr (cap_stop a table m.updated_at s) _ o lock.1 in
      let quantity = unless-inr (quantity_stop s) _ o cap.1 in
      let (q, is_q, (live, valid, approved, strategy, stock)) =
        build_order_lem a e m s _ md o (else_lem _ _ _ o quantity.1) in
      let priced = live_lem s q live in
      let checked = valid_lem o valid in
      (
        q,
        is_q,
        record {
          window_open = window_lem a s window.0;
          unlocked = lock_lem a table e m.updated_at s lock.0;
          below_cap = cap_lem a table m.updated_at s cap.0;
          has_price = priced.0;
          below_max = priced.1;
          order_price = checked.0;
          order_quantity = checked.1;
          approved = approved;
          same_strategy = strategy;
          same_stock = stock;
        },
      )
