-- ===== src/Procurement/Suppliers.antt =====
-- The operations on suppliers of src/application/services/procurement-service.ts over the
-- repository. The checks before a transaction write nothing, so each operation is one transaction
-- body. The list is left out.

use new_erp_final.Common.{ℕ, Option, some}
use new_erp_final.Transaction.{Tx, not_found, ◌>>=◌, ◌>>◌, pure, or_throw}
use new_erp_final.Database.{Context}
use new_erp_final.Environment.{Env}
use new_erp_final.Authorization.{Authorization}
use new_erp_final.Procurement.Purchasing.{
  Supplier, supplier_created, supplier_updated, supplier_deleted, Purchasing,
}
use new_erp_final.Procurement.Planning
use new_erp_final.Procurement.Planning.{Table, requisitions, orders}
use new_erp_final.Procurement.Service.{check_id, check_text}
use new_erp_final.Procurement.Writing.{permitted, write, trimmed}

module _ (env : Env) (auth : Authorization) where
  unfoldable pub create_supplier :
      (ℕ → ℕ) → Context → ℕ → Option ℕ → Option ℕ → Tx Purchasing Supplier
  create_supplier draw_code c name code email =
      write env auth "purchase.supplier.create" c supplier_created (λ x. x.id)
        (do
          name ← check_text env auth name
          x ←
              Planning.create_supplier env draw_code c name (trimmed env auth code)
                (trimmed env auth email)
          pure (some x))

  unfoldable pub get_supplier : Context → ℕ → Tx Purchasing Supplier
  get_supplier c id = do
    check_id env auth id
    permitted env auth "purchase.supplier.read" c
    row ← Planning.get_supplier env c id
    or_throw row not_found

  unfoldable pub update_supplier : Context → ℕ → ℕ → Option ℕ → ℕ → Tx Purchasing Supplier
  update_supplier c id name email version = do
    check_id env auth id
    write env auth "purchase.supplier.update" c supplier_updated (λ x. x.id)
        (do name ← check_text env auth name; Planning.update_supplier env c id name email version)

  unfoldable pub delete_supplier : Context → ℕ → ℕ → Tx Purchasing Supplier
  delete_supplier c id version = do
    check_id env auth id
    write env auth "purchase.supplier.delete" c supplier_deleted (λ x. x.id)
        (Planning.delete_supplier env c id version)
