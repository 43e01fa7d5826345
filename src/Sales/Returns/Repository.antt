-- ===== src/Sales/Returns/Repository.antt =====
-- src/infrastructure/database/repositories/postgres-sales-return-repository.ts, query by query.
-- The list is left out.
use new_erp_final.Common.{ℕ, ◌+◌, Bool, true, false, ◌&&◌, Option, ◌==◌, find, is_some}
use new_erp_final.Transaction.{
  Tx, validation, bad_statement, ◌>>=◌, ◌>>◌, throw, gets, require, or_throw, not_issued,
  no_delivery_warehouse,
}
use new_erp_final.Database.{Context}
use new_erp_final.Environment.{Env}
use new_erp_final.Inventory.Service.{Number}
use new_erp_final.Sales.Books.{
  Delivery, SalesReturn, ReturnStatus, requested, approved, processed, InventoryStatus,
  not_connected, completed, Invoice, BillStatus, issued, Books, return_table,
}
use new_erp_final.Sales.Documents.{is_document, with_notes, with_status, mutate, replay_or}

-- A line of the request.
pub record RequestedLine : Type 0 where
  pub invoice_item : ℕ
  pub quantity : Number

abbrev is_issued : BillStatus → Bool
is_issued issued = true
is_issued _ = false

-- The invoice and, by the join, the delivery that it was made from.
abbrev is_source : Context → Invoice → Delivery → Bool
is_source c i d = d.id == i.source && d.tenant == i.tenant

-- The query of the invoice's lines joins two tables that both have a column `description`, names it
-- without either, and PostgreSQL refuses it. What follows it in the code is never reached: neither
-- the checks of the requested lines nor the `INSERT`, which names eleven columns and gives them
-- twelve values.
unfoldable pub create : Env → Context → ℕ → ℕ → Bool → Tx Books SalesReturn
unfolding replay_or
create env c invoice key allow_replay = replay_or env return_table c key invoice allow_replay (do
  row ← gets (λ s. find (is_document c invoice) s.invoices)
  i ← or_throw row (validation not_issued)
  joined ← gets (λ s. find (is_source c i) s.deliveries)
  d ← or_throw joined (validation not_issued)
  require (is_issued i.status) (validation not_issued)
  require (is_some d.rest.warehouse) (validation no_delivery_warehouse)
  throw bad_statement)

abbrev is_requested : ReturnStatus → Bool
is_requested requested = true
is_requested _ = false

unfoldable pub update : Env → Context → ℕ → ℕ → ℕ → Tx Books (Option SalesReturn)
unfolding mutate
update env c id notes expected_version =
    mutate env return_table c id (λ r. is_requested r.status && r.version == expected_version)
      (with_notes notes)

unfoldable pub transition : Env → Context → ℕ → ReturnStatus → ℕ → Tx Books (Option SalesReturn)
unfolding mutate
transition env c id status expected_version =
    mutate env return_table c id (λ r. r.version == expected_version) (with_status status)

abbrev is_approved : ReturnStatus → Bool
is_approved approved = true
is_approved _ = false

abbrev is_unconnected : InventoryStatus → Bool
is_unconnected not_connected = true
is_unconnected _ = false

abbrev pub with_stock : SalesReturn → SalesReturn
with_stock r = record r {
  status = processed;
  version = r.version + 1;
  rest = record r.rest { inventory = completed };
}

unfoldable pub process : Env → Context → ℕ → ℕ → Tx Books (Option SalesReturn)
unfolding mutate
process env c id expected_version =
    mutate env return_table c id
      (λ r.
        is_approved r.status && is_unconnected r.rest.inventory && r.version == expected_version)
      with_stock
