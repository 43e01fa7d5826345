-- ===== src/Inventory/Service.antt =====
-- src/application/services/inventory-service.ts: the checks of each operation and the call of the
-- repository inside `runInTransaction`. The paginated lists are left out.
mod Checks
unfoldable pub use Checks.*
use Prim.Native.String.{String}
use new_erp_final.Common.{
  ℕ, Bool, true, false, not, ◌&&◌, ◌||◌, Option, none, some, List, ◌∷◌, ltb, leb, ◌==◌, member,
}
use new_erp_final.Transaction.{
  Tx, Error, validation, constraint, ◌>>=◌, ◌>>◌, pure, throw, gets, modify, require, or_throw,
  with_tenant, not_a_uuid, bad_warehouse, stale_warehouse,
}
use new_erp_final.Database.{
  Stock, Reservation, Movement, Warehouse, Db, Context, Action, warehouse_created,
  reservation_created, AuditEvent,
}
use new_erp_final.Environment.{Env}
use new_erp_final.Authorization.{Authorization, authorize}
use new_erp_final.Inventory.Queries.{Request, update_warehouse, insert_warehouse}
use new_erp_final.Inventory.Repository.{
  receive_stock, return_stock, reserve_stock, release_reservation, fulfill_reservation,
  fulfill_reservations_by_source, list_reservations_by_source,
}

-- `INVENTORY_MODULE_CODE`
abbrev pub module_code : String
module_code = "inventory"

-- `AuditLogger.record` inside the transaction.
unfoldable pub record_event : Context → Action → ℕ → Tx Db (Unit {0})
record_event c action resource = modify (λ db. record db {
  audit =
      record { tenant = c.tenant; actor = c.user; action = action; resource = resource } ∷ db.audit;
})

module _ (env : Env) (auth : Authorization) where
  abbrev permitted : String → Context → Tx Db (Unit {0})
  permitted p c = authorize env auth module_code c (some p)

  unfoldable pub create_warehouse : Context → ℕ → ℕ → Tx Db Warehouse
  create_warehouse c code name = do
    permitted "inventory.warehouse.create" c
    let code = env.trim_upper code
    let name = env.trim name
    require
        (not (env.is_blank code)
          && leb (env.text_length code) 100
          && not (env.is_blank name)
          && leb (env.text_length name) 255)
        (validation bad_warehouse)
    w ← insert_warehouse env c code name
    record_event c warehouse_created w.id
    pure w

  unfoldable pub update_warehouse_details : Context → ℕ → ℕ → Bool → ℕ → Tx Db Warehouse
  update_warehouse_details c id name active expected_version = do
    permitted "inventory.warehouse.update" c
    check_id env id
    require (not (env.is_blank name) && leb 1 expected_version) (validation bad_warehouse)
    w ← update_warehouse env c id (env.trim name) active expected_version
    or_throw w (validation stale_warehouse)

  unfoldable pub receive : Context → Input → Tx Db Stock
  receive c input = do
    permitted "inventory.stock.receive" c
    i ← validate_reservation env input
    receive_stock env c i

  unfoldable pub reserve : Context → Input → Tx Db Reservation
  reserve c input = do
    permitted "inventory.reservation.create" c
    i ← validate_reservation env input
    r ← reserve_stock env c i
    record_event c reservation_created r.id
    pure r

  unfoldable pub list_by_source : Context → ℕ → ℕ → Tx Db (List Reservation)
  list_by_source c source_type source = do
    permitted "inventory.reservation.read" c
    check_id env source
    list_reservations_by_source env c source_type source

  unfoldable pub fulfill_by_source : ℕ → Context → ℕ → ℕ → ℕ → Tx Db (List Reservation)
  fulfill_by_source text c source_type source key = do
    permitted "inventory.reservation.fulfill" c
    check_id env source
    check_key env key
    fulfill_reservations_by_source env text c source_type source key

  unfoldable pub release : Context → ℕ → ℕ → Tx Db Reservation
  release c id key = do
    permitted "inventory.reservation.release" c
    check_id env id
    check_key env key
    release_reservation env c id

  unfoldable pub fulfill : ℕ → Context → ℕ → ℕ → Tx Db Reservation
  fulfill text c id key = do
    permitted "inventory.reservation.fulfill" c
    check_id env id
    check_key env key
    fulfill_reservation env text c id key

  unfoldable pub give_back : Context → Input → Tx Db Movement
  give_back c input = do
    permitted "inventory.stock.return" c
    i ← validate_reservation env input
    return_stock env c i
