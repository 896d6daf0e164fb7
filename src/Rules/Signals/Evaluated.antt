-- ===== src/Rules/Signals/Evaluated.antt =====
-- Which strategies match an event, and what is published without market data.
use algo_treading.Base.{
  ℕ, Bool, true, false, not, ◌&&◌, List, [], ◌∷◌, map, none, some, ◌≡◌, refl, ap, inr,
  if◌then◌else◌,
}
use algo_treading.Base.Float.{Float}
use algo_treading.Rules.Strategy.{Strategy, validate}
use algo_treading.Rules.Matcher.{EvaluationResult}
use algo_treading.Rules.Matcher.Full.{matches, is_full_match-evaluate}
use algo_treading.Rules.Signals.{Event, validate_event}
use algo_treading.Rules.Signals.Engine.{
  Deduper, allow, match_of, is_valid, evaluate_one, evaluate_all, add_some, evaluate_event,
  evaluate_new,
}

module _ {ℓ} {F : Type ℓ} ⦃f : Float F⦄ where
  open f use {le}

  -- A strategy that is switched on, valid, and matched by the event in full.
  abbrev pub deserves : Event F → Strategy F → Bool
  deserves e s = s.active && is_valid (validate s) && matches s e.market

  abbrev pub deserving : Event F → List (Strategy F) → List (Strategy F)
  deserving e [] = []
  deserving e (s ∷ ss) = if deserves e s then s ∷ deserving e ss else deserving e ss

  evaluate_all_lem :
      (e : Event F) (score : EvaluationResult F → F) (updated_at : Strategy F → ℕ)
      (ss : List (Strategy F))
      → evaluate_all e score updated_at ss ≡ map (match_of e score updated_at) (deserving e ss)
  unfolding evaluate_all evaluate_one
  evaluate_all_lem e score updated_at [] = refl
  evaluate_all_lem e score updated_at (s ∷ ss) =
      let full = is_full_match-evaluate e.market s in
      rw full (
        one (s.active) (is_valid (validate s)) (matches s e.market)
          (evaluate_all_lem e score updated_at ss))
    where
      one :
          (a b c : Bool)
          → evaluate_all e score updated_at ss ≡ map (match_of e score updated_at) (deserving e ss)
          → add_some
              (if not a
                then none
                else if not b
                then none
                else if not c
                then none
                else some (match_of e score updated_at s))
              (evaluate_all e score updated_at ss)
            ≡ map
                (match_of e score updated_at)
                (if a && b && c then s ∷ deserving e ss else deserving e ss)
      one true true true h = ap (λ ms. match_of e score updated_at s ∷ ms) h
      one true true false h = h
      one true false c h = h
      one false b c h = h

  -- A valid event that is not a duplicate matches exactly the strategies that are switched on, valid and
  -- matched in full, in the order in which they are kept; a duplicate matches none.
  pub evaluate_event-deserving :
      (e : Event F) (score : EvaluationResult F → F) (updated_at : Strategy F → ℕ)
      (ss : List (Strategy F)) (now : ℕ) (d : Deduper)
      → validate_event e ≡ none
      → (evaluate_event e score updated_at ss now d).1
        ≡ inr (
            if (allow e.event_id now d).1
            then map (match_of e score updated_at) (deserving e ss)
            else [])
  unfolding evaluate_event evaluate_new
  evaluate_event-deserving e score updated_at ss now d h = rw h (
      ap (λ ms. inr (if (allow e.event_id now d).1 then ms else []))
        (evaluate_all_lem e score updated_at ss))
