-- ===== src/Procurement/Writing.antt =====
-- What the operations on suppliers, requisitions and purchase orders of
-- src/application/services/procurement-service.ts share: the check of the lines, and `write`.
use Prim.Native.String.{String}
use new_erp_final.Common.{ℕ, Bool, true, false, not, Option, none, some, List, [], ◌∷◌}
use new_erp_final.Transaction.{
  Tx, validation, not_found, ◌>>=◌, ◌>>◌, pure, require, or_throw, bad_lines, repeated_item,
}
use new_erp_final.Database.{Context}
use new_erp_final.Environment.{Env}
use new_erp_final.Authorization.{Authorization, authorize}
use new_erp_final.Inventory.Service.{Number, not_finite, negative, ticks, positive}
use new_erp_final.Procurement.Purchasing.{Line, PurchaseAction, Purchasing, has_duplicates}
use new_erp_final.Procurement.Service.{check_text, record_event}

-- `ProcurementLineInput`
pub record PlannedLine : Type 0 where
  pub item : ℕ
  pub description : ℕ
  pub quantity : Number
  pub unit_price : Option Number
  pub unit : ℕ

-- `l.unitPrice !== undefined && (!Number.isFinite(l.unitPrice) || l.unitPrice < 0)`, negated
abbrev pub is_price : Option Number → Bool
is_price none = true
is_price (some not_finite) = false
is_price (some (negative n)) = false
is_price (some (ticks n)) = true

abbrev pub is_empty : List PlannedLine → Bool
is_empty [] = true
is_empty (l ∷ ls) = false

module _ (env : Env) (auth : Authorization) where
  abbrev pub permitted : String → Context → Tx Purchasing (Unit {0})
  permitted p c = authorize env auth "purchase" c (some p)

  -- The private `write`: an audit event for what the repository has written.
  abbrev pub write :
      {X : Type 0}
      → String
      → Context
      → PurchaseAction
      → (X → ℕ)
      → Tx Purchasing (Option X)
      → Tx Purchasing X
  write p c action id_of body = do
    permitted p c
    row ← body
    x ← or_throw row not_found
    record_event env auth c action (id_of x)
    pure x

  -- `?.trim()`
  abbrev pub trimmed : Option ℕ → Option ℕ
  trimmed none = none
  trimmed (some text) = some (env.trim text)

  unfoldable pub planned_lines : List PlannedLine → Tx Purchasing (List Line)
  planned_lines [] = pure []
  planned_lines (l ∷ ls) = do
    require (env.is_uuid l.item) (validation bad_lines)
    check_text env auth l.description
    quantity ← or_throw (positive l.quantity) (validation bad_lines)
    require (is_price l.unit_price) (validation bad_lines)
    check_text env auth l.unit
    rest ← planned_lines ls
    pure (record { item = l.item; quantity = quantity } ∷ rest)

  -- The private `lines`.
  unfoldable pub check_planned : List PlannedLine → Tx Purchasing (List Line)
  check_planned inputs = do
    require (not (is_empty inputs)) (validation bad_lines)
    lines ← planned_lines inputs
    require (not (has_duplicates lines)) (validation repeated_item)
    pure lines
