-- ===== src/Inventory/Availability.antt =====
-- `reserveStock` of src/infrastructure/database/repositories/postgres-inventory-repository.ts: when
-- a new reservation is granted.
use new_erp_final.Common.{
  ◌-◌, ◌≡◌, ◌<◌, true, false, none, some, arith, find, member, leb, if◌then◌else◌,
}
use new_erp_final.Transaction.{ok, err, validation, insufficient_stock}
use new_erp_final.Database.{Stock, Db, Context, same_self}
use new_erp_final.Environment.{Env}
use new_erp_final.Inventory.Queries.{
  Request, stock_key, reservation_of, reservation_clashes, for_line, assert_warehouse_and_item,
}
use new_erp_final.Inventory.Repository.{reserve_stock, insert_reservation}
use new_erp_final.Inventory.Effects.{reserving}

-- A reservation for a source and an item that have none, of a positive quantity, in a warehouse and
-- for an item that pass the checks and have a stock row, and with a key that is not in use: it is
-- granted exactly if the quantity on hand that is not reserved covers it, and then it is written
-- and its quantity is reserved; otherwise the stock is reported to be insufficient.
pub reserve_stock_decides :
    (env : Env) (c : Context) (i : Request) (db : Db) (s : Stock)
    → env.is_uuid c.tenant ≡ true
    → find (for_line c i) db.reservations ≡ none
    → assert_warehouse_and_item c i db ≡ ok (tt, db)
    → db.stock (stock_key c i) ≡ some s
    → member (reservation_clashes (reservation_of (env.gen_uuid db.generated) c i)) db.reservations
      ≡ false
    → 0 < i.quantity
    → reserve_stock env c i db ≡ (
        if leb i.quantity (s.on_hand - s.reserved_quantity)
        then ok (reservation_of (env.gen_uuid db.generated) c i, reserving env c i db)
        else err (validation insufficient_stock))
unfolding reserve_stock insert_reservation reserving
reserve_stock_decides env c i db s uuid fresh checked row clear positive =
    ground (arith, same_self (stock_key c i))
