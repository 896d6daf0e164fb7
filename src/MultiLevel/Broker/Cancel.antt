-- ===== src/MultiLevel/Broker/Cancel.antt =====
-- The cancellations of a group, and the fill of the entry, when they come a second time.
use algo_treading.Base.{
  ◌≡◌, refl, Bool, true, false, not, ◌&&◌, String, ◌==◌, List, [], Option, if◌then◌else◌,
}
use algo_treading.Base.Int.{ℤ}
use algo_treading.Base.Float.{Float}
use algo_treading.MultiLevel.Split.{LevelConfig}
use algo_treading.MultiLevel.Types.{ExitType, Group, is_live}
use algo_treading.MultiLevel.Effects.{Outcome}
use algo_treading.MultiLevel.Broker.{on_entry_fill, fill_entry, take_fill}
use algo_treading.MultiLevel.Cancellation.{
  cancel_group_internal, cancel_for_strategy, cancel_group_for_exit,
}

module _ {ℓ} {F : Type ℓ} where
  -- Off already, or off after what is done to a live group.
  off_after :
      (g : Group F) (b : Bool) (out : Outcome F)
      → is_live g.state ≡ b
      → is_live out.0.state ≡ false
      → is_live (if not b then (g, []) else out).0.state ≡ false
  off_after g true out e k = k
  off_after g false out e k = e

  -- A group that is off is left alone.
  left_alone :
      (b : Bool) (g : Group F) (out : Outcome F)
      → b ≡ false
      → (if not b then (g, []) else out) ≡ (g, [])
  left_alone b g out e = rw e refl

module _ {ℓ} {F : Type ℓ} ⦃f : Float F⦄ where
  -- Not live afterwards, and the second call changes nothing and makes no call.
  abbrev pub CancelsOnce : (Group F → Outcome F) → Group F → Type ℓ
  CancelsOnce cancel g =
      let after = (cancel g).0 in (is_live after.state ≡ false) × (cancel after ≡ (after, []))

  either_off :
      (b : Bool) (x y : Group F)
      → is_live x.state ≡ false
      → is_live y.state ≡ false
      → is_live (if b then x else y).state ≡ false
  either_off true x y p q = p
  either_off false x y p q = q

  cancel_group_internal-off : (g : Group F) → is_live (cancel_group_internal g).0.state ≡ false
  unfolding cancel_group_internal
  cancel_group_internal-off g =
      off_after g (is_live g.state) _ refl
        (either_off (g.trading_mode == "LIVE" && g.has_auth) _ _ refl refl)

  cancel_for_strategy-off :
      (ltp : Option F) (g : Group F) → is_live (cancel_for_strategy ltp g).0.state ≡ false
  unfolding cancel_for_strategy
  cancel_for_strategy-off ltp g = off_after g (is_live g.state) _ refl refl

  cancel_group_for_exit-off :
      (has_broker : Bool) (accepts : String → Bool) (price : F) (reason : String) (g : Group F)
      → is_live (cancel_group_for_exit has_broker accepts price reason g).0.state ≡ false
  unfolding cancel_group_for_exit
  cancel_group_for_exit-off has_broker accepts price reason g =
      off_after g (is_live g.state) _ refl refl

  cancel_group_internal-idle :
      (g : Group F) → is_live g.state ≡ false → cancel_group_internal g ≡ (g, [])
  unfolding cancel_group_internal
  cancel_group_internal-idle g e = left_alone (is_live g.state) g _ e

  cancel_for_strategy-idle :
      (ltp : Option F) (g : Group F) → is_live g.state ≡ false → cancel_for_strategy ltp g ≡ (g, [])
  unfolding cancel_for_strategy
  cancel_for_strategy-idle ltp g e = left_alone (is_live g.state) g _ e

  cancel_group_for_exit-idle :
      (has_broker : Bool) (accepts : String → Bool) (price : F) (reason : String) (g : Group F)
      → is_live g.state ≡ false
      → cancel_group_for_exit has_broker accepts price reason g ≡ (g, [])
  unfolding cancel_group_for_exit
  cancel_group_for_exit-idle has_broker accepts price reason g e =
      left_alone (is_live g.state) g _ e

  -- Each of the three cancellations leaves a group that is not live, and its second call changes nothing
  -- and makes no call.
  pub cancel-CancelsOnce :
      (ltp : Option F) (has_broker : Bool) (accepts : String → Bool) (price : F) (reason : String)
      (g : Group F)
      → CancelsOnce cancel_group_internal g
        × CancelsOnce (cancel_for_strategy ltp) g
        × CancelsOnce (cancel_group_for_exit has_broker accepts price reason) g
  cancel-CancelsOnce ltp has_broker accepts price reason g =
      let first = cancel_group_internal-off g in
      let second = cancel_for_strategy-off ltp g in
      let third = cancel_group_for_exit-off has_broker accepts price reason g in
      (
        (first, cancel_group_internal-idle (cancel_group_internal g).0 first),
        (second, cancel_for_strategy-idle ltp (cancel_for_strategy ltp g).0 second),
        (
          third,
          cancel_group_for_exit-idle has_broker accepts price reason
              (cancel_group_for_exit has_broker accepts price reason g).0 third,
        ),
      )

  fill_entry-filled :
      (id : ExitType → ℤ → String) (g : Group F) (p : F) (n : ℤ) (sl tp : List (LevelConfig F))
      → (fill_entry id g p n sl tp).entry_filled ≡ true
  unfolding fill_entry take_fill
  fill_entry-filled id g p n sl tp = refl

  filled_after :
      (b : Bool) (g : Group F) (out : Outcome F)
      → g.entry_filled ≡ b
      → out.0.entry_filled ≡ true
      → (if b then (g, []) else out).0.entry_filled ≡ true
  filled_after true g out e h = e
  filled_after false g out e h = h

  stays :
      (b : Bool) (g : Group F) (out : Outcome F) → b ≡ true → (if b then (g, []) else out) ≡ (g, [])
  stays b g out e = rw e refl

  on_entry_fill-filled :
      (id : ExitType → ℤ → String) (g : Group F) (p : F) (n : ℤ) (sl tp : List (LevelConfig F))
      → (on_entry_fill id g p n sl tp).0.entry_filled ≡ true
  unfolding on_entry_fill
  on_entry_fill-filled id g p n sl tp =
      filled_after g.entry_filled g _ refl (fill_entry-filled id g p n sl tp)

  on_entry_fill-idle :
      (id : ExitType → ℤ → String) (g : Group F) (p : F) (n : ℤ) (sl tp : List (LevelConfig F))
      → g.entry_filled ≡ true
      → on_entry_fill id g p n sl tp ≡ (g, [])
  unfolding on_entry_fill
  on_entry_fill-idle id g p n sl tp e = stays g.entry_filled g _ e

  -- A fill of the entry that is reported again, with any price, quantity and levels, changes nothing and
  -- makes no call.
  pub on_entry_fill-once :
      (id : ExitType → ℤ → String) (g : Group F) (p p' : F) (n n' : ℤ)
      (sl tp sl' tp' : List (LevelConfig F))
      → let after = (on_entry_fill id g p n sl tp).0 in
        on_entry_fill id after p' n' sl' tp' ≡ (after, [])
  on_entry_fill-once id g p p' n n' sl tp sl' tp' =
      on_entry_fill-idle id (on_entry_fill id g p n sl tp).0 p' n' sl' tp'
        (on_entry_fill-filled id g p n sl tp)
