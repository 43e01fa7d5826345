-- ===== src/Procurement/Service.antt =====
-- The operations on receipts of src/application/services/procurement-service.ts over the
-- repository. The checks before a transaction write nothing, so each operation is one transaction
-- body. The list is left out.
use Prim.Native.String.{String}
use new_erp_final.Common.{
  ℕ, Bool, true, false, not, ◌&&◌, Option, some, List, [], ◌∷◌, leb, if◌then◌else◌,
}
use new_erp_final.Transaction.{
  Tx, validation, not_found, ◌>>=◌, ◌>>◌, pure, modify, require, or_throw, not_a_uuid, bad_version,
  bad_lines, bad_transition, blank_key, bad_text, no_provider, not_updated, repeated_item,
}
use new_erp_final.Database.{Db, Stock, Context}
use new_erp_final.Environment.{Env}
use new_erp_final.Authorization.{Authorization, authorize}
use new_erp_final.Inventory.Service.{Number, ticks, positive, Input}
use new_erp_final.Procurement.Purchasing.{
  Line, Receipt, ReceiptStatus, cancelled, PurchaseAction, created, updated, completed, Purchasing,
  on_stock, is_draft, has_duplicates,
}
use new_erp_final.Procurement.Repository
use new_erp_final.Procurement.Repository.{Request, Change, Completion}

-- A line of a request.
pub record InputLine : Type 0 where
  pub item : ℕ
  pub quantity : Number

-- `receiveStock` of the inventory, which a caller of the constructor may leave out.
abbrev pub ReceivePort : Type 0
ReceivePort = Option (Context → Input → Tx Db Stock)

abbrev pub is_cancelled : ReceiptStatus → Bool
is_cancelled cancelled = true
is_cancelled _ = false

module _ (env : Env) (auth : Authorization) where
  abbrev permitted : String → Context → Tx Purchasing (Unit {0})
  permitted p c = authorize env auth "purchase" c (some p)

  unfoldable pub check_id : ℕ → Tx Purchasing (Unit {0})
  check_id id = require (env.is_uuid id) (validation not_a_uuid)

  -- `AuditLogger.record` inside the transaction.
  unfoldable pub record_event : Context → PurchaseAction → ℕ → Tx Purchasing (Unit {0})
  record_event c action id = modify (λ s. record s {
    events =
        record { tenant = c.tenant; actor = c.user; action = action; resource = id } ∷ s.events;
  })

  -- Every line names a valid item and a positive quantity.
  unfoldable pub valid_lines : List InputLine → Tx Purchasing (List Line)
  valid_lines [] = pure []
  valid_lines (l ∷ ls) = do
    require (env.is_uuid l.item) (validation bad_lines)
    quantity ← or_throw (positive l.quantity) (validation bad_lines)
    rest ← valid_lines ls
    pure (record { item = l.item; quantity = quantity } ∷ rest)

  abbrev pub is_empty : List Line → Bool
  is_empty [] = true
  is_empty (l ∷ ls) = false

  -- `receiptLines`, and the same two checks of `createReceipt`.
  unfoldable pub check_lines : List InputLine → Tx Purchasing (List Line)
  check_lines inputs = do
    lines ← valid_lines inputs
    require (not (is_empty lines)) (validation bad_lines)
    require (not (has_duplicates lines)) (validation repeated_item)
    pure lines

  unfoldable pub create : Context → ℕ → ℕ → ℕ → List InputLine → ℕ → Tx Purchasing Receipt
  create c order warehouse date inputs key = do
    check_id order
    check_id warehouse
    lines ← check_lines inputs
    require (not (env.is_blank key)) (validation blank_key)
    permitted "purchase.receipt.create" c
    r ←
        Repository.create env c
          (record { order = order; warehouse = warehouse; date = date; lines = lines; key = key })
    record_event c created r.id
    pure r

  unfoldable pub get : Context → ℕ → Tx Purchasing Receipt
  get c id = do
    check_id id
    permitted "purchase.receipt.read" c
    row ← Repository.get_by_id env c id
    or_throw row not_found

  -- `text`, of at most 500 characters.
  unfoldable pub check_text : ℕ → Tx Purchasing ℕ
  check_text text = do
    require (not (env.is_blank text) && leb (env.text_length (env.trim text)) 500)
        (validation bad_text)
    pure (env.trim text)

  unfoldable pub update : Context → ℕ → ℕ → ℕ → List InputLine → ℕ → Tx Purchasing Receipt
  update c id warehouse date inputs expected_version = do
    check_id id
    check_id warehouse
    lines ← check_lines inputs
    permitted "purchase.receipt.update" c
    date ← check_text date
    row ← Repository.update env c (record {
      id = id;
      warehouse = warehouse;
      date = date;
      lines = lines;
      expected_version = expected_version;
    })
    r ← or_throw row not_found
    record_event c updated r.id
    pure r

  unfoldable pub cancel : Context → ℕ → ℕ → Tx Purchasing Receipt
  cancel c id expected_version = do
    check_id id
    permitted "purchase.receipt.cancel" c
    row ← Repository.cancel env c id expected_version
    r ← or_throw row not_found
    record_event c cancelled r.id
    pure r

  -- `transitionReceipt`: the only status that it leads to is `CANCELLED`. A version that is no
  -- integer is 0.
  unfoldable pub transition : Context → ℕ → ReceiptStatus → ℕ → Tx Purchasing Receipt
  transition c id status expected_version = do
    check_id id
    require (leb 1 expected_version) (validation bad_version)
    require (is_cancelled status) (validation bad_transition)
    permitted "purchase.receipt.workflow" c
    permitted "purchase.receipt.cancel" c
    current ← Repository.get_by_id env c id
    r ← or_throw current not_found
    require (is_draft r.status) (validation bad_transition)
    row ← Repository.transition env c id status expected_version
    or_throw row (validation not_updated)

  -- 'PURCHASE_RECEIPT' is the source of what a receipt brings into stock.
  module _ (purchase_receipt : ℕ) where
    unfoldable pub line_input : ℕ → Receipt → Line → Input
    line_input id r l = record {
      warehouse = r.warehouse;
      item = l.item;
      quantity = ticks l.quantity;
      source_type = purchase_receipt;
      source = id;
      key = env.join r.key l.item;
    }

    unfoldable pub receive_lines :
        (Context → Input → Tx Db Stock)
        → Context
        → ℕ
        → Receipt
        → List Line
        → Tx Purchasing (Unit {0})
    receive_lines receive c id r [] = pure tt
    receive_lines receive c id r (l ∷ ls) = do
      on_stock (receive c (line_input id r l))
      receive_lines receive c id r ls

    -- What `completeReceipt` does with the result of the repository.
    unfoldable pub take_in : ReceivePort → Context → ℕ → Completion → Tx Purchasing (Unit {0})
    take_in port c id done = if done.already then pure tt else (do
      receive ← or_throw port (validation no_provider)
      receive_lines receive c id done.receipt done.receipt.lines
      record_event c completed id)

    unfoldable pub complete : ReceivePort → Context → ℕ → ℕ → Tx Purchasing Receipt
    complete port c id expected_version = do
      check_id id
      permitted "purchase.receipt.complete" c
      row ← Repository.complete env c id expected_version
      done ← or_throw row not_found
      take_in port c id done
      pure done.receipt
