-- ===== src/Oco/Restart.antt =====
-- What the reconstruction of a group from its stored orders keeps and what it loses.
use algo_treading.Base.{false, String, [], ◌∷◌, none, some, ◌≡◌, refl, arith}
use algo_treading.Base.Float.{Float}
use algo_treading.Base.Text.{is_one_of, equal_fold}
use algo_treading.MultiLevel.Types.{nought}
use algo_treading.Oco.Types.{
  OcoState, Group, Order, is_filled_status, is_partially_filled_status, is_terminal_status,
  is_terminal,
}
use algo_treading.Oco.Updates.{entry_filled}
use algo_treading.Oco.Placing.{begin_legs, begin_with, leg_prices}
use algo_treading.Oco.Entry.{EntryRequest, entry_order}
use algo_treading.Oco.Reload.{
  reconstruct_group, restore, restore_entry, infer_state, status_of, state_of, blank_group,
}

module _ {ℓ} {F : Type ℓ} ⦃f : Float F⦄ where
  open f use {lt}

  -- The group of an entry that was submitted and not filled before the restart.
  abbrev waiting : EntryRequest F → String → Group F
  waiting r id =
      record (restore_entry (entry_order r "SUBMITTED" (some id)) (blank_group r.group_id)) {
        state = OcoState.pending_entry;
      }

  abbrev WithoutLegs : Group F → Type ℓ
  WithoutLegs g = (g.sl_percent ≡ nought) × (g.tp_percent ≡ nought)

  leg_prices-none : (g : Group F) → lt nought nought ≡ false → WithoutLegs g → leg_prices g ≡ none
  unfolding leg_prices
  leg_prices-none g irreflexive (s, t) =
      let no_sl : lt nought g.sl_percent ≡ false = rw s irreflexive in
      let no_tp : lt nought g.tp_percent ≡ false = rw t irreflexive in rw (no_sl, no_tp) refl

  reconstruct_group-waiting :
      (r : EntryRequest F) (id : String)
      → reconstruct_group r.group_id (entry_order r "SUBMITTED" (some id) ∷ [])
        ≡ some (record (waiting r id) { partial_fill_active = false })
  unfolding reconstruct_group restore infer_state status_of state_of is_filled_status
      is_partially_filled_status is_terminal_status is_terminal entry_order is_one_of equal_fold
      restore_entry
  reconstruct_group-waiting r id = refl

  entry_filled-percents :
      (o : Order F) (g : Group F)
      → let h = (entry_filled o g).0 in
        (h.sl_percent ≡ g.sl_percent) × (h.tp_percent ≡ g.tp_percent)
  unfolding entry_filled
  entry_filled-percents o g = (ground arith, ground arith)

  begin_legs-fails :
      (sl_id tp_id : String) (g : Group F)
      → leg_prices g ≡ none
      → let r = begin_legs sl_id tp_id g in (r.0.state ≡ OcoState.failed) × (r.1 ≡ [])
  unfolding begin_legs begin_with
  begin_legs-fails sl_id tp_id g e = rw e (refl, refl)

  -- A group whose entry was submitted before a restart comes back, waiting, without its percentages: when
  -- the entry fills then, at any price, no leg is placed and the group fails.
  pub reconstruct_group-entry_order :
      (r : EntryRequest F) (id sl_id tp_id : String) (o : Order F)
      → lt nought nought ≡ false
      → (g : Group F) × (reconstruct_group r.group_id (entry_order r "SUBMITTED" (some id) ∷ [])
          ≡ some g)
        × (g.state ≡ OcoState.pending_entry)
        × (g.sl_percent ≡ nought)
        × (g.tp_percent ≡ nought)
        × ((begin_legs sl_id tp_id (entry_filled o g).0).0.state ≡ OcoState.failed)
        × ((begin_legs sl_id tp_id (entry_filled o g).0).1 ≡ [])
  unfolding restore_entry entry_order
  reconstruct_group-entry_order r id sl_id tp_id o irreflexive =
      let g = record (waiting r id) { partial_fill_active = false } in
      let (s, t) = entry_filled-percents o g in
      let fails =
        begin_legs-fails sl_id tp_id (entry_filled o g).0
          (leg_prices-none (entry_filled o g).0 irreflexive (s, t)) in
      (g, reconstruct_group-waiting r id, refl, refl, refl, fails.0, fails.1)
