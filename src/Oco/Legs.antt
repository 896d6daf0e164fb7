-- ===== src/Oco/Legs.antt =====
-- The legs of a filled entry: what their placement comes to, and how often the broker is asked.
use algo_treading.Base.{
  ℕ, zero, suc, ◌+◌, ◌≤◌, ◌<◌, true, false, String, ◌==◌, [], ◌∷◌, Option, none, some, ◌≡◌, refl,
  ap, ◌∙◌, if◌then◌else◌, Option-cases, inl, inr, ◌⊎◌, arith,
}
use algo_treading.Base.Float.{Float}
use algo_treading.Oco.Types.{OcoState, Group, is_terminal}
use algo_treading.Oco.Updates.{Effect, check_legs_confirmed}
use algo_treading.Oco.Placing.{
  Placed, LegPrices, begin_legs, begin_with, end_legs, leg_prices, with_sl, with_tp, register_sl,
  register_tp, submit_legs, drop_tp, is_refused, place_from, place_leg_with_retry,
}
use algo_treading.Oco.Tasks.{CancelAnswer, cancel_calls, cancel_leg_calls, cancel_group}
use algo_treading.Oco.States.{is_placing}

-- The broker was asked for a leg exactly if it is on, and gave an id that is not empty, or refused it.
abbrev pub Fits {ℓ} : {A : Type ℓ} → Option A → Placed → Type 0
Fits none Placed.skipped = Unit
Fits (some p) Placed.refused = Unit
Fits (some p) (Placed.placed id) = (id == "") ≡ false
Fits _ _ = ⊥

module _ {ℓ} {F : Type ℓ} ⦃f : Float F⦄ where
  placed_state :
      (sl_id tp_id : String) (osl : Option (F × F)) (otp : Option F) (sl tp : Placed) (g : Group F)
      → Fits osl sl
      → Fits otp tp
      → (end_legs sl tp (with_tp tp_id otp (with_sl sl_id osl g))).0.state
        ≡ (if is_refused sl then OcoState.failed else OcoState.active)
  unfolding end_legs with_tp with_sl register_sl register_tp submit_legs drop_tp
      check_legs_confirmed
  placed_state sl_id tp_id none none Placed.skipped Placed.skipped g h k = refl
  placed_state sl_id tp_id none (some t) Placed.skipped Placed.refused g h k = refl
  placed_state sl_id tp_id none (some t) Placed.skipped (Placed.placed b) g h k = ground arith
  placed_state sl_id tp_id (some s) none Placed.refused Placed.skipped g h k = ground arith
  placed_state sl_id tp_id (some s) none (Placed.placed a) Placed.skipped g h k = ground arith
  placed_state sl_id tp_id (some s) (some t) Placed.refused Placed.refused g h k = refl
  placed_state sl_id tp_id (some s) (some t) Placed.refused (Placed.placed b) g h k = ground arith
  placed_state sl_id tp_id (some s) (some t) (Placed.placed a) Placed.refused g h k = ground arith
  placed_state sl_id tp_id (some s) (some t) (Placed.placed a) (Placed.placed b) g h k =
      ground arith
  placed_state sl_id tp_id _ _ _ _ g h k = ground arith

  -- Legs that are placed where their prices are right: the group is active at once, unless the broker
  -- refuses the stop-loss leg, which fails it.
  pub end_legs-state :
      (sl_id tp_id : String) (p : LegPrices F) (sl tp : Placed) (g : Group F)
      → leg_prices g ≡ some p
      → Fits p.sl sl
      → Fits p.tp tp
      → (end_legs sl tp (begin_legs sl_id tp_id g).0).0.state
        ≡ (if is_refused sl then OcoState.failed else OcoState.active)
  unfolding begin_legs begin_with
  end_legs-state sl_id tp_id p sl tp g e h k = rw e (placed_state sl_id tp_id p.sl p.tp sl tp g h k)

  -- A group that is cancelled while its legs are placed: no leg is cancelled, and the group is active
  -- again when the broker has placed them.
  pub cancel_group-end_legs :
      (g : Group F) (sl tp : String)
      → is_placing g.state ≡ true
      → (sl == "") ≡ false
      → (tp == "") ≡ false
      → let after = (cancel_group g).0 in
        (after.0.state ≡ OcoState.cancelled)
        × (after.1 ≡ Effect.schedule_cleanup ∷ [])
        × ((end_legs (Placed.placed sl) (Placed.placed tp) after.0).0.state ≡ OcoState.active)
  unfolding cancel_group end_legs register_sl register_tp submit_legs check_legs_confirmed
      is_terminal
  cancel_group-end_legs g sl tp p a b = (ground arith, ground arith, ground arith)

-- The first attempt that the broker accepts, or that there is none.
abbrev pub FirstAccepted : (ℕ → Option String) → ℕ → ℕ → Placed → Type 0
FirstAccepted answers first left p =
    (p ≡ Placed.refused) × ((k : ℕ) → k < left → answers (first + k) ≡ none)
    ⊎ (k : ℕ) × (id : String) × (k < left)
      × (p ≡ Placed.placed id)
      × (answers (first + k) ≡ some id)
      × ((j : ℕ) → j < k → answers (first + j) ≡ none)

at_zero : (answers : ℕ → Option String) (first : ℕ) → answers (first + 0) ≡ answers first
at_zero answers first = ap answers (omega arith)

at_suc :
    (answers : ℕ → Option String) (first k : ℕ) → answers (first + suc k) ≡ answers (first + 1 + k)
at_suc answers first k = ap answers (omega arith)

-- The answers before the k-th one, the first of which is none.
none_before :
    (answers : ℕ → Option String) (first n : ℕ)
    → answers first ≡ none
    → ((k : ℕ) → k < n → answers (first + 1 + k) ≡ none)
    → (k : ℕ) → k < suc n
    → answers (first + k) ≡ none
none_before answers first n e h zero lt = at_zero answers first ∙ e
none_before answers first n e h (suc k) lt = at_suc answers first k ∙ h k (omega arith)

place_from-FirstAccepted :
    (answers : ℕ → Option String) (first left : ℕ)
    → FirstAccepted answers first left (place_from answers first left)
unfolding place_from
place_from-FirstAccepted answers first zero = inl (refl, λ k lt. absurd (omega arith))
place_from-FirstAccepted answers first (suc n) = elim (Option-cases (answers first)) [
  | inl e ↦
      rw (e, place_from)
        (elim (place_from-FirstAccepted answers (first + 1) n) [
          | inl (p, h) ↦ inl (p, none_before answers first n e h)
          | inr (k, id, lt, p, a, h) ↦ inr (
            suc k,
            id,
            omega arith,
            p,
            at_suc answers first k ∙ a,
            none_before answers first k e h,
          )
        ])
  | inr (id, e) ↦
      rw (e, place_from)
        (inr (0, id, omega arith, refl, at_zero answers first ∙ e, λ j lt. absurd (omega arith)))
]

-- A leg is placed with the first of three attempts that the broker accepts, and refused if it accepts
-- none of them.
pub place_leg_with_retry-FirstAccepted :
    (answers : ℕ → Option String) → FirstAccepted answers 0 3 (place_leg_with_retry answers)
unfolding place_leg_with_retry
place_leg_with_retry-FirstAccepted answers = place_from-FirstAccepted answers 0 3

cancel_calls_bounds :
    (answers : ℕ → CancelAnswer) (first left : ℕ)
    → (1 ≤ cancel_calls answers first (suc left))
      × (cancel_calls answers first (suc left) ≤ suc left)
unfolding cancel_calls
cancel_calls_bounds answers first zero = ground arith
cancel_calls_bounds answers first (suc left) =
    ground (arith, cancel_calls_bounds answers (first + 1) left)

-- An order with an id is cancelled by one to three calls, one without an id by none.
pub cancel_leg_calls_bounds :
    (answers : ℕ → CancelAnswer) (id : String)
    → let n = cancel_leg_calls answers id in
      ((id == "") ≡ true → n ≡ 0) × ((id == "") ≡ false → (1 ≤ n) × (n ≤ 3))
unfolding cancel_leg_calls
cancel_leg_calls_bounds answers id = (λ e. rw e refl, λ e. rw e (cancel_calls_bounds answers 0 2))
