-- ===== src/Oco/Plain.antt =====
-- The handlers of broker updates leave the ids of a group and the index of broker ids alone.
use algo_treading.Base.{String, ◌≡◌, refl, arith}
use algo_treading.Base.Float.{Float}
use algo_treading.Base.Dict.{Dict}
use algo_treading.Oco.Types.{OcoRole, Group, Order}
use algo_treading.Oco.Updates.{
  BrokerStatus, Outcome, entry_completed, entry_filled, entry_partly_filled, entry_refused,
  handle_entry_update, check_legs_confirmed, leg_executed, leg_partly_filled, leg_cancelled,
  handle_sl_leg_update, handle_tp_leg_update, handle_role,
}
use algo_treading.Oco.Manager.{index_all}

module _ {ℓ} {F : Type ℓ} where
  -- The ids of a group.
  abbrev pub ids : Group F → String × String × String × String
  ids g = (g.group_id, g.entry_broker_id, g.sl_broker_id, g.tp_broker_id)

  -- The ids stay, and none is stored.
  abbrev pub Plain : String → Dict String → Group F → Outcome F → Type 0
  Plain group_id m g x = (ids x.0 ≡ ids g) × (index_all group_id x.1 m ≡ m)

module _ {ℓ} {F : Type ℓ} ⦃f : Float F⦄ where
  handle_entry_update-Plain :
      (status : BrokerStatus) (o : Order F) (g : Group F) (group_id : String) (m : Dict String)
      → Plain group_id m g (handle_entry_update status o g)
  unfolding handle_entry_update entry_completed entry_filled entry_partly_filled entry_refused
      index_all
  handle_entry_update-Plain BrokerStatus.executed o g group_id m = (ground arith, ground arith)
  handle_entry_update-Plain BrokerStatus.partial o g group_id m = (ground arith, ground arith)
  handle_entry_update-Plain BrokerStatus.rejected o g group_id m = (ground arith, ground arith)
  handle_entry_update-Plain BrokerStatus.cancelled o g group_id m = (ground arith, ground arith)
  handle_entry_update-Plain BrokerStatus.confirmed o g group_id m = (refl, refl)
  handle_entry_update-Plain BrokerStatus.other o g group_id m = (refl, refl)

  handle_sl_leg_update-Plain :
      (status : BrokerStatus) (o : Order F) (g : Group F) (group_id : String) (m : Dict String)
      → Plain group_id m g (handle_sl_leg_update status o g)
  unfolding handle_sl_leg_update check_legs_confirmed leg_executed leg_partly_filled leg_cancelled
      index_all
  handle_sl_leg_update-Plain BrokerStatus.executed o g group_id m = (ground arith, ground arith)
  handle_sl_leg_update-Plain BrokerStatus.partial o g group_id m = (ground arith, ground arith)
  handle_sl_leg_update-Plain BrokerStatus.rejected o g group_id m = (refl, refl)
  handle_sl_leg_update-Plain BrokerStatus.cancelled o g group_id m = (ground arith, ground arith)
  handle_sl_leg_update-Plain BrokerStatus.confirmed o g group_id m = (ground arith, ground arith)
  handle_sl_leg_update-Plain BrokerStatus.other o g group_id m = (refl, refl)

  handle_tp_leg_update-Plain :
      (status : BrokerStatus) (o : Order F) (g : Group F) (group_id : String) (m : Dict String)
      → Plain group_id m g (handle_tp_leg_update status o g)
  unfolding handle_tp_leg_update check_legs_confirmed leg_executed leg_partly_filled leg_cancelled
      index_all
  handle_tp_leg_update-Plain BrokerStatus.executed o g group_id m = (ground arith, ground arith)
  handle_tp_leg_update-Plain BrokerStatus.partial o g group_id m = (ground arith, ground arith)
  handle_tp_leg_update-Plain BrokerStatus.rejected o g group_id m = (refl, refl)
  handle_tp_leg_update-Plain BrokerStatus.cancelled o g group_id m = (ground arith, ground arith)
  handle_tp_leg_update-Plain BrokerStatus.confirmed o g group_id m = (ground arith, ground arith)
  handle_tp_leg_update-Plain BrokerStatus.other o g group_id m = (refl, refl)

  pub handle_role-Plain :
      (role : OcoRole) (status : BrokerStatus) (o : Order F) (g : Group F) (group_id : String)
      (m : Dict String)
      → Plain group_id m g (handle_role role status o g)
  unfolding handle_role
  handle_role-Plain OcoRole.entry status o g group_id m =
      handle_entry_update-Plain status o g group_id m
  handle_role-Plain OcoRole.sl_leg status o g group_id m =
      handle_sl_leg_update-Plain status o g group_id m
  handle_role-Plain OcoRole.tp_leg status o g group_id m =
      handle_tp_leg_update-Plain status o g group_id m
