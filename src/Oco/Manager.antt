-- ===== src/Oco/Manager.antt =====
-- services/trade-execution/internal/oco/manager.go: the registry of groups and the index of broker ids.
-- A task whose group is not registered any more changes nothing that the registry shows.
use algo_treading.Base.{
  Bool, true, false, not, ◌&&◌, String, ◌==◌, List, [], ◌∷◌, ◌++◌, Option, none, some,
  if◌then◌else◌,
}
use algo_treading.Base.Float.{Float}
use algo_treading.Base.Dict.{Dict, lookup, insert, delete}
use algo_treading.Oco.Types.{OcoRole, Group, Order, is_terminal}
use algo_treading.Oco.Updates.{BrokerStatus, broker_status, Effect, Outcome, handle_role}
use algo_treading.Oco.Tasks.{cancel_group}

abbrev pub forget : String → Dict String → Dict String
forget id index = if id == "" then index else delete id index

-- The role of an order whose broker id is not one of the group's.
abbrev pub late_role : Option String → Option OcoRole
late_role none = none
late_role (some r) =
    if r == "SL_LEG"
    then some OcoRole.sl_leg
    else if r == "TP_LEG"
    then some OcoRole.tp_leg
    else none

abbrev pub or_else : Option String → Option String → Option String
or_else none o = o
or_else (some s) o = some s

pub record Manager {ℓ} (F : Type ℓ) : Type ℓ where
  pub groups : Dict (Group F)
  pub broker_index : Dict String

module _ {ℓ} {F : Type ℓ} where
  abbrev pub new_oco_manager : Manager F
  new_oco_manager = record { groups = []; broker_index = [] }

  -- The broker ids that the calls store for the group.
  unfoldable pub index_all : String → List (Effect F) → Dict String → Dict String
  index_all group_id [] m = m
  index_all group_id (Effect.index id ∷ es) m = index_all group_id es (insert id group_id m)
  index_all group_id (_ ∷ es) m = index_all group_id es m

  -- The group is written back, and its new broker ids are stored.
  unfoldable pub put : String → Outcome F → Manager F → Manager F
  unfolding index_all
  put group_id (g, es) m = record {
    groups = insert group_id g m.groups;
    broker_index = index_all g.group_id es m.broker_index;
  }

  -- A new group, under its id and the broker id of its entry.
  unfoldable pub register : Group F → Manager F → Manager F
  register g m = record {
    groups = insert g.group_id g m.groups;
    broker_index = insert g.entry_broker_id g.group_id m.broker_index;
  }

  unfoldable pub on_found :
      String → Option (Group F) → (Group F → Outcome F) → Manager F → Manager F × List (Effect F)
  unfolding put
  on_found group_id none task m = (m, [])
  on_found group_id (some g) task m = (put group_id (task g) m, (task g).1)

  -- A task on a registered group.
  unfoldable pub on_group : String → (Group F → Outcome F) → Manager F → Manager F × List (Effect F)
  unfolding on_found
  on_group group_id task m = on_found group_id (lookup group_id m.groups) task m

  -- What `scheduleCleanup` does when its time comes, on the group as it is then.
  unfoldable pub cleanup : Group F → Manager F → Manager F
  cleanup g m = record {
    groups = delete g.group_id m.groups;
    broker_index =
        forget g.tp_broker_id (forget g.sl_broker_id (forget g.entry_broker_id m.broker_index));
  }

  -- The group of an order: by the broker id, or by the order's own field.
  unfoldable pub group_of : Order F → String → Manager F → Option String
  group_of o broker_id m = or_else (lookup broker_id m.broker_index) o.oco_group_id

  unfoldable pub is_known_broker_id : String → Manager F → Bool
  is_known_broker_id id m = elim (lookup id m.broker_index) [ none ↦ false | some _ ↦ true ]

  -- The broker id is filled in for a leg that has none.
  unfoldable pub backfill : OcoRole → String → Group F → Outcome F
  backfill OcoRole.entry id g = (g, [])
  backfill OcoRole.sl_leg id g =
      if g.sl_broker_id == ""
      then (record g { sl_broker_id = id }, Effect.index id ∷ [])
      else (g, [])
  backfill OcoRole.tp_leg id g =
      if g.tp_broker_id == ""
      then (record g { tp_broker_id = id }, Effect.index id ∷ [])
      else (g, [])

module _ {ℓ} {F : Type ℓ} ⦃f : Float F⦄ where
  open f use {ratio, add, sub, mul, lt}

  abbrev pub late_update : Option OcoRole → BrokerStatus → String → Order F → Group F → Outcome F
  late_update none status id o g = (g, [])
  late_update (some role) status id o g =
      let filled = backfill role id g in
      let after = handle_role role status o filled.0 in (after.0, filled.1 ++ after.1)

  -- The part of `HandleBrokerUpdate` under the lock of the group.
  unfoldable pub route : BrokerStatus → String → Order F → Group F → Outcome F
  unfolding backfill
  route status id o g =
      if is_terminal g.state
      then (g, [])
      else if id == g.entry_broker_id
      then handle_role OcoRole.entry status o g
      else if id == g.sl_broker_id
      then handle_role OcoRole.sl_leg status o g
      else if id == g.tp_broker_id
      then handle_role OcoRole.tp_leg status o g
      else late_update (late_role o.oco_role) status id o g

  abbrev pub route_in :
      BrokerStatus → String → Order F → Option String → Manager F → Manager F × List (Effect F)
  route_in status id o none m = (m, [])
  route_in status id o (some group_id) m = on_group group_id (route status id o) m

  abbrev pub handle_id : Option String → Order F → String → Manager F → Manager F × List (Effect F)
  handle_id none o status m = (m, [])
  handle_id (some id) o status m = route_in (broker_status status) id o (group_of o id m) m

  unfoldable pub handle_broker_update : Order F → String → Manager F → Manager F × List (Effect F)
  unfolding group_of on_group
  handle_broker_update o status m = handle_id o.indira_order_id o status m

  -- The groups of the list that the test selects are cancelled, each as it is then.
  unfoldable pub cancel_each :
      (Group F → Bool) → Dict (Group F) → Manager F → Manager F × List (Effect F)
  unfolding on_group
  cancel_each test [] m = (m, [])
  cancel_each test ((id, g) ∷ rest) m =
      let one = on_group g.group_id (λ g. (cancel_group g).0) m in
      let skipped = cancel_each test rest m in
      let others = cancel_each test rest one.0 in
      if test g && not (is_terminal g.state) then (others.0, one.1 ++ others.1) else skipped

  unfoldable pub cancel_groups_by_strategy :
      String → String → Manager F → Manager F × List (Effect F)
  unfolding cancel_each
  cancel_groups_by_strategy user strategy m =
      cancel_each (λ g. g.user_id == user && g.strategy_id == strategy) m.groups m

  unfoldable pub cancel_groups_by_symbol : String → String → Manager F → Manager F × List (Effect F)
  unfolding cancel_each
  cancel_groups_by_symbol user symbol m =
      cancel_each (λ g. g.user_id == user && g.symbol == symbol) m.groups m

  unfoldable pub cancel_all_groups_by_user : String → Manager F → Manager F × List (Effect F)
  unfolding cancel_each
  cancel_all_groups_by_user user m = cancel_each (λ g. g.user_id == user) m.groups m
