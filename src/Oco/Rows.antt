-- ===== src/Oco/Rows.antt =====
-- services/trade-execution/internal/repository/order_repository.go: what `Update` writes into the row of an
-- order, and the rows of a group whose legs are placed (placeLegWithRetry and the status service).
use algo_treading.Base.{String, ◌==◌, if◌then◌else◌, List, [], ◌∷◌, some}
use algo_treading.Base.Int.{ℤ}
use algo_treading.Base.Float.{Float}
use algo_treading.Oco.Types.{Order}
use algo_treading.Oco.Updates.{Effect}
use algo_treading.Oco.Entry.{EntryRequest, entry_order}

module _ {ℓ} {F : Type ℓ} where
  -- The prices and the quantity of a row are never written again; other columns are not modelled.
  unfoldable pub update_row : Order F → Order F → Order F
  update_row row o = record row {
    status = o.status;
    indira_order_id = o.indira_order_id;
    filled_price = o.filled_price;
    filled_quantity = o.filled_quantity;
  }

  -- `Update` of the rows with the order's id.
  unfoldable pub update_rows : Order F → List (Order F) → List (Order F)
  unfolding update_row
  update_rows o [] = []
  update_rows o (row ∷ rows) =
      let rest = update_rows o rows in
      (if row.order_id == o.order_id then update_row row o else row) ∷ rest

  -- The orders that are created, in order.
  unfoldable pub created_orders : List (Effect F) → List (Order F)
  created_orders [] = []
  created_orders (Effect.create_order o ∷ es) = o ∷ created_orders es
  created_orders (_ ∷ es) = created_orders es

  -- The row of a leg that the broker accepted under an id, at a later status.
  unfoldable pub leg_row : Order F → String → String → Order F
  unfolding update_row
  leg_row o id status =
      let placed = update_row o (record o { indira_order_id = some id; status = "SUBMITTED" }) in
      update_row placed (record placed { status = status })

  -- The rows of the created legs, with the broker's id and the status of each.
  unfoldable pub leg_rows : List (Order F) → List (String × String) → List (Order F)
  unfolding leg_row
  leg_rows (o ∷ os) ((id, status) ∷ rest) = leg_row o id status ∷ leg_rows os rest
  leg_rows _ _ = []

module _ {ℓ} {F : Type ℓ} ⦃f : Float F⦄ where
  -- The row of an entry that has filled.
  unfoldable pub filled_row : EntryRequest F → String → ℤ → Order F
  unfolding update_row leg_row
  filled_row r id filled =
      let row = entry_order r "SUBMITTED" (some id) in
      update_row row (record row { status = "EXECUTED"; filled_quantity = filled })
