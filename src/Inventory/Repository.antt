-- ===== src/Inventory/Repository.antt =====
-- The operations of `PostgresInventoryRepository` that change the database, and the list of the
-- reservations of a source, in
-- src/infrastructure/database/repositories/postgres-inventory-repository.ts. Transactions run one
-- after another, as the row locks (`FOR UPDATE`) make those of one stock row do.
use new_erp_final.Common.{
  ℕ, ◌+◌, Bool, true, false, not, ◌&&◌, Option, none, some, List, [], ◌∷◌, ltb, leb, if◌then◌else◌,
  find, member,
}
use new_erp_final.Transaction.{
  Tx, validation, constraint, ◌>>=◌, ◌>>◌, pure, throw, gets, modify, require, with_tenant,
  insufficient_stock, already_fulfilled, already_released, insufficient_reserved, no_reservations,
}
use new_erp_final.Database.{
  reserved, released, fulfilled, receipt, issue, return, Stock, Reservation, Movement, Db, Context,
}
use new_erp_final.Environment.{Env}
use new_erp_final.Inventory.Queries.{
  Request, stock_key, reservation_key, update_stock, add_reserved, drop_reserved, issue_stock,
  ensure_stock, find_movement, insert_movement, assert_warehouse_and_item, stock_for, movement_of,
  post_stock, from_source, for_line, reservation_clashes, reservation_of, replay_reservation,
  covers, set_status, lock_reservation, reread,
}

-- `UPDATE inventory_stock` subtracts what the check `reserved_quantity >= 0` allows.
abbrev pub can_drop : ℕ → Option Stock → Bool
can_drop q none = true
can_drop q (some s) = leb q s.reserved_quantity

-- `WHERE on_hand_quantity >= $1 AND reserved_quantity >= $1`, on a row that exists.
abbrev pub can_issue : ℕ → Option Stock → Bool
can_issue q none = false
can_issue q (some s) = leb q s.on_hand && leb q s.reserved_quantity

-- The movement that a fulfilment writes; `source_types` of the code's text 'RESERVATION'.
unfoldable pub issue_of : ℕ → Context → Reservation → ℕ → Movement
issue_of reservation_text c r key = record {
  tenant = c.tenant;
  branch = c.branch;
  year = c.year;
  warehouse = r.warehouse;
  item = r.item;
  kind = issue;
  quantity = r.quantity;
  source_type = reservation_text;
  source = r.id;
  operation_key = key;
}

abbrev insert_by_item : Reservation → List Reservation → List Reservation
insert_by_item r [] = r ∷ []
insert_by_item r (x ∷ xs) = if leb r.item x.item then r ∷ x ∷ xs else x ∷ insert_by_item r xs

-- The rows that a condition selects, in the order of their items.
abbrev pub select_by_item : (Reservation → Bool) → List Reservation → List Reservation
select_by_item p [] = []
select_by_item p (r ∷ rs) =
    let rest = select_by_item p rs in if p r then insert_by_item r rest else rest

module _ (env : Env) where
  unfoldable pub receive_stock : Context → Request → Tx Db Stock
  unfolding find_movement stock_for
  receive_stock c i = with_tenant env.is_uuid c.tenant (
      find_movement c i.key >>= λ existing. elim existing [
        | some m ↦ stock_for (stock_key c i)
        | none ↦ post_stock receipt c i >> stock_for (stock_key c i)
      ])

  unfoldable pub return_stock : Context → Request → Tx Db Movement
  unfolding find_movement
  return_stock c i = with_tenant env.is_uuid c.tenant (
      find_movement c i.key >>= λ prior. elim prior [
        | some m ↦ pure m
        | none ↦ post_stock return c i >> pure (movement_of return c i)
      ])

  -- `UPDATE inventory_stock` and `INSERT INTO inventory_reservations`, once the stock is locked.
  unfoldable pub insert_reservation : Context → Request → Tx Db Reservation
  insert_reservation c i = do
    modify (update_stock (stock_key c i) (add_reserved i.quantity))
    n ← gets (λ db. db.generated)
    let r = reservation_of (env.gen_uuid n) c i
    rows ← gets (λ db. db.reservations)
    require (not (member (reservation_clashes r) rows)) constraint
    require (ltb 0 i.quantity) constraint
    modify (λ db. record db { reservations = r ∷ db.reservations; generated = n + 1 })
    pure r

  unfoldable pub reserve_stock : Context → Request → Tx Db Reservation
  unfolding replay_reservation ensure_stock
  reserve_stock c i = with_tenant env.is_uuid c.tenant (
      gets (λ db. find (for_line c i) db.reservations) >>= λ prior. elim prior [
        | some r ↦ replay_reservation i.quantity r
        | none ↦ do
          assert_warehouse_and_item c i
          ensure_stock (stock_key c i)
          stock ← gets (λ db. db.stock (stock_key c i))
          concurrent_prior ← gets (λ db. find (for_line c i) db.reservations)
          elim concurrent_prior [
            | some r ↦ replay_reservation i.quantity r
            | none ↦
                require (covers i.quantity stock) (validation insufficient_stock)
                >> insert_reservation c i
          ]
      ])

  unfoldable pub list_reservations_by_source : Context → ℕ → ℕ → Tx Db (List Reservation)
  list_reservations_by_source c source_type source =
      with_tenant env.is_uuid c.tenant
        (gets (λ db. select_by_item (from_source c source_type source) db.reservations))

  -- What `releaseReservation` does to a reservation in the state `RESERVED`.
  unfoldable pub release_reserved : Context → Reservation → Tx Db Reservation
  release_reserved c r = do
    stock ← gets (λ db. db.stock (reservation_key r))
    require (can_drop r.quantity stock) constraint
    modify (update_stock (reservation_key r) (drop_reserved r.quantity))
    modify (set_status c r.id released)
    reread r.id

  unfoldable pub release_reservation : Context → ℕ → Tx Db Reservation
  unfolding lock_reservation
  release_reservation c id = with_tenant env.is_uuid c.tenant (
      lock_reservation c id >>= λ r. elim r.status [
        | released ↦ pure r
        | fulfilled ↦ throw (validation already_fulfilled)
        | reserved ↦ release_reserved c r
      ])

  -- What `fulfillReservation` does to a reservation in the state `RESERVED`, with an operation
  -- key that no movement has. The parameter is the text 'RESERVATION'.
  unfoldable pub fulfill_reserved : ℕ → Context → Reservation → ℕ → Tx Db Reservation
  unfolding insert_movement
  fulfill_reserved text c r key = do
    stock ← gets (λ db. db.stock (reservation_key r))
    require (can_issue r.quantity stock) (validation insufficient_reserved)
    modify (update_stock (reservation_key r) (issue_stock r.quantity))
    insert_movement (issue_of text c r key)
    modify (set_status c r.id fulfilled)
    reread r.id

  unfoldable pub fulfill_reservation : ℕ → Context → ℕ → ℕ → Tx Db Reservation
  unfolding lock_reservation find_movement
  fulfill_reservation text c id key = with_tenant env.is_uuid c.tenant (
      lock_reservation c id >>= λ r. elim r.status [
        | fulfilled ↦ pure r
        | released ↦ throw (validation already_released)
        | reserved ↦ find_movement c key >>= λ movement. elim movement [
          | some m ↦ pure r
          | none ↦ fulfill_reserved text c r key
        ]
      ])

  -- The loop of `fulfillReservationsBySource`.
  unfoldable pub fulfill_all : ℕ → Context → ℕ → List Reservation → Tx Db (List Reservation)
  fulfill_all text c key [] = pure []
  fulfill_all text c key (r ∷ rs) = do
    x ← fulfill_reservation text c r.id (env.join key r.id)
    xs ← fulfill_all text c key rs
    pure (x ∷ xs)

  unfoldable pub fulfill_reservations_by_source : ℕ → Context → ℕ → ℕ → ℕ → Tx Db (List Reservation)
  fulfill_reservations_by_source text c source_type source key = with_tenant env.is_uuid c.tenant (
      gets (λ db. select_by_item (from_source c source_type source) db.reservations) >>= λ rows.
      elim rows [
        | [] ↦ throw (validation no_reservations)
        | r ∷ rs ↦ fulfill_all text c key (r ∷ rs)
      ])
