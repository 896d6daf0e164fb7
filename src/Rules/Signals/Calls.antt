-- ===== src/Rules/Signals/Calls.antt =====
-- Sequences of handled matches, and what bounds the rows that they leave in the table of signals.
use algo_treading.Base.{
  ℕ, ◌≤◌, ◌<◌, Bool, true, List, [], ◌∷◌, Option, none, some, ◌≡◌, refl, ap, ◌∙◌, sym, ◌⊎◌, inl,
  inr, arith, Bool-cases, Option-cases,
}
use algo_treading.Base.Float.{Float}
use algo_treading.Rules.Strategy.{Strategy}
use algo_treading.Rules.Signals.{
  Event, RuleMatch, OrderRequest, MarketDataResult, Signal, count_rows,
}
use algo_treading.Rules.Signals.Pricing.{Stop}
use algo_treading.Rules.Signals.Match.{
  Answers, signal_of, written, save_trade_signal, order_for, process_match,
}

-- One run of `processMatch`.
pub record Call {ℓ} (F : Type ℓ) : Type ℓ where
  pub answers : Answers F
  pub event : Event F
  pub market_data : Option (MarketDataResult F)
  pub rule_match : RuleMatch F

count_add :
    (p : Signal → Bool) (n : ℕ) (s : Signal) (table : List Signal)
    → count_rows p table ≤ n
    → (p s ≡ true → count_rows p table < n)
    → count_rows p (s ∷ table) ≤ n
unfolding count_rows
count_add p n s table h k = elim (Bool-cases (p s)) [
  | inl e ↦ rw e (let below = k e in omega arith)
  | inr e ↦ rw e (omega arith)
]

module _ {ℓ} {F : Type ℓ} ⦃f : Float F⦄ where
  -- The matches of a sequence, handled one after another.
  unfoldable pub handle_calls : List (Call F) → List Signal → List Signal
  handle_calls [] table = table
  handle_calls (c ∷ cs) table =
      handle_calls cs (process_match c.answers c.event c.market_data c.rule_match table).0

  abbrev pub AllCalls : (Call F → Type 0) → List (Call F) → Type 0
  AllCalls P [] = Unit
  AllCalls P (c ∷ cs) = P c × AllCalls P cs

  -- A call that adds no row beyond the bound.
  abbrev pub Bounded : (Signal → Bool) → ℕ → Call F → List Signal → Type ℓ
  Bounded p n c table =
      (s : Strategy F) (o : OrderRequest F)
      → c.rule_match.strategy ≡ some s
      → order_for c.answers table c.event c.market_data c.rule_match (some s) ≡ inr o
      → p (signal_of o (written c.answers)) ≡ true
      → count_rows p table < n

  saved_lem :
      (p : Signal → Bool) (n : ℕ) (a : Answers F) (r : Stop ⊎ OrderRequest F) (table : List Signal)
      → count_rows p table ≤ n
      → ((o : OrderRequest F)
          → r ≡ inr o
          → p (signal_of o (written a)) ≡ true
          → count_rows p table < n)
      → count_rows p (save_trade_signal a r table) ≤ n
  unfolding save_trade_signal
  saved_lem p n a (inl stop) table h k = h
  saved_lem p n a (inr o) table h k = elim (Bool-cases a.saved) [
    | inl e ↦ rw e (count_add p n (signal_of o (written a)) table h (k o refl))
    | inr e ↦ rw e h
  ]

  no_strategy_lem :
      (a : Answers F) (table : List Signal) (e : Event F) (md : Option (MarketDataResult F))
      (m : RuleMatch F) (o : OrderRequest F)
      → order_for a table e md m none ≡ inr o
      → ⊥
  unfolding order_for
  no_strategy_lem a table e md m o h = ground arith

  step_lem :
      (p : Signal → Bool) (n : ℕ) (c : Call F) (table : List Signal)
      → count_rows p table ≤ n
      → Bounded p n c table
      → count_rows p (process_match c.answers c.event c.market_data c.rule_match table).0 ≤ n
  unfolding process_match
  step_lem p n c table h k =
      let made = order_for c.answers table c.event c.market_data c.rule_match in
      saved_lem p n c.answers (made c.rule_match.strategy) table h (λ o e q.
        elim (Option-cases c.rule_match.strategy) [
          | inl is_none ↦
              elim (no_strategy_lem c.answers table c.event c.market_data c.rule_match o
                (ap made (sym is_none) ∙ e)) [ ]
          | inr (s, is_s) ↦ k s o is_s (ap made (sym is_s) ∙ e) q
        ])

  pub calls_lem :
      (P : Call F → Type 0) (p : Signal → Bool) (n : ℕ)
      → ((c : Call F) (table : List Signal) → P c → count_rows p table ≤ n → Bounded p n c table)
      → (cs : List (Call F)) (table : List Signal) → AllCalls P cs
      → count_rows p table ≤ n
      → count_rows p (handle_calls cs table) ≤ n
  unfolding handle_calls
  calls_lem P p n step [] table all h = h
  calls_lem P p n step (c ∷ cs) table all h =
      calls_lem P p n step cs _ all.1 (step_lem p n c table h (step c table all.0 h))
