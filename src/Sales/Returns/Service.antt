-- ===== src/Sales/Returns/Service.antt =====
-- src/application/services/sales-return-service.ts over the repository. The checks before the
-- transaction write nothing, so each operation is one transaction body. The list is left out.
use Prim.Native.String.{String}
use new_erp_final.Common.{
  ℕ, Bool, true, false, not, ◌&&◌, Option, none, some, List, [], ◌∷◌, ◌==◌, if◌then◌else◌, member,
  is_some,
}
use new_erp_final.Transaction.{
  Tx, validation, runtime, ◌>>=◌, ◌>>◌, pure, throw, require, or_throw, bad_lines, bad_transition,
  no_provider, not_updated, no_return_references,
}
use new_erp_final.Database.{Context, Movement}
use new_erp_final.Environment.{Env}
use new_erp_final.Authorization.{Authorization, authorize}
use new_erp_final.Inventory.Service.{Input, ticks, positive}
use new_erp_final.Sales.Books.{
  SalesReturn, ReturnStatus, requested, inspected, approved, processed, closed, rejected, cancelled,
  InventoryStatus, completed, ReturnItem, Books, on_db, return_table, record_event, return_created,
  return_moved,
}
use new_erp_final.Sales.Documents
use new_erp_final.Sales.Documents.{check_id, check_version, trimmed_key}
use new_erp_final.Sales.Ports.{SalesTexts, StockPort}
use new_erp_final.Sales.Returns.Repository
use new_erp_final.Sales.Returns.Repository.{RequestedLine}

abbrev pub transitions : ReturnStatus → List ReturnStatus
transitions requested = inspected ∷ cancelled ∷ []
transitions inspected = approved ∷ rejected ∷ []
transitions approved = processed ∷ []
transitions processed = closed ∷ []
transitions closed = []
transitions rejected = []
transitions cancelled = []

abbrev pub same_status : ReturnStatus → ReturnStatus → Bool
same_status requested requested = true
same_status inspected inspected = true
same_status approved approved = true
same_status processed processed = true
same_status closed closed = true
same_status rejected rejected = true
same_status cancelled cancelled = true
same_status _ _ = false

-- `SALES_RETURN_PERMISSIONS[action]`
unfoldable pub transition_permission : ReturnStatus → String
transition_permission inspected = "sales.return.inspect"
transition_permission approved = "sales.return.approve"
transition_permission rejected = "sales.return.reject"
transition_permission processed = "sales.return.process"
transition_permission closed = "sales.return.close"
transition_permission _ = "sales.return.cancel"

abbrev is_completed : InventoryStatus → Bool
is_completed completed = true
is_completed _ = false

-- `current.items.some((item) => !item.itemId)`
abbrev lacks_item : List ReturnItem → Bool
lacks_item items = member (λ x. not (is_some x.item)) items

-- The loop over the lines of a request, with the invoice lines that it has seen.
unfoldable pub check_lines : Env → List ℕ → List RequestedLine → Tx Books (Unit {0})
check_lines env seen [] = pure tt
check_lines env seen (r ∷ rs) = do
  check_id env r.invoice_item
  require (not (member (λ x. x == r.invoice_item) seen) && is_some (positive r.quantity))
      (validation bad_lines)
  check_lines env (r.invoice_item ∷ seen) rs

unfoldable pub check_items : Env → Option (List RequestedLine) → Tx Books (Unit {0})
check_items env none = pure tt
check_items env (some []) = throw (validation bad_lines)
check_items env (some (r ∷ rs)) = check_lines env [] (r ∷ rs)

module _ (env : Env) (texts : SalesTexts) (auth : Authorization)
    (inventory : Option StockPort) where
  abbrev permitted : String → Context → Tx Books (Unit {0})
  permitted p c = authorize env auth "sales" c (some p)

  unfoldable pub create : Context → ℕ → ℕ → Option (List RequestedLine) → Tx Books SalesReturn
  create c invoice key items = do
    permitted "sales.return.create" c
    check_id env invoice
    key ← trimmed_key env key
    check_items env items
    let allow_replay = auth.has_permission c.tenant c.user (some "sales.return.read")
    r ← Repository.create env c invoice key allow_replay
    record_event c (return_created r.id)
    pure r

  unfoldable pub get : Context → ℕ → Tx Books SalesReturn
  unfolding Documents.get
  get = Documents.get env auth return_table "sales.return.read"

  unfoldable pub update : Context → ℕ → ℕ → ℕ → Tx Books SalesReturn
  update c id notes expected_version = do
    permitted "sales.return.update" c
    check_id env id
    check_version expected_version
    row ← Repository.update env c id notes expected_version
    or_throw row (validation not_updated)

  -- The request for one line, and the loop over the lines; a line without an item does not get
  -- here.
  unfoldable pub line_input : ℕ → ℕ → ℕ → ReturnItem → Input
  line_input warehouse id item x = record {
    warehouse = warehouse;
    item = item;
    quantity = ticks x.quantity;
    source_type = texts.sales_return;
    source = id;
    key = env.join (env.join texts.return_prefix id) x.invoice_item;
  }

  unfoldable pub return_line : StockPort → Context → ℕ → ℕ → ReturnItem → Tx Books Movement
  return_line port c warehouse id x = or_throw x.item runtime >>= λ item.
      on_db (port.return_stock c (line_input warehouse id item x))

  unfoldable pub return_lines : StockPort → Context → ℕ → ℕ → List ReturnItem → Tx Books (Unit {0})
  return_lines port c warehouse id [] = pure tt
  return_lines port c warehouse id (x ∷ xs) =
      return_line port c warehouse id x >>= λ m. return_lines port c warehouse id xs

  -- What a transition to PROCESSED does.
  unfoldable pub process : Context → ℕ → ℕ → SalesReturn → Tx Books SalesReturn
  unfolding return_lines
  process c id expected_version r = do
    port ← or_throw inventory (validation no_provider)
    warehouse ← or_throw r.rest.warehouse (validation no_return_references)
    require (not (lacks_item r.rest.items)) (validation no_return_references)
    return_lines port c warehouse r.id r.rest.items
    row ← Repository.process env c id expected_version
    x ← or_throw row (validation not_updated)
    record_event c (return_moved processed id)
    pure x

  -- What the other transitions do.
  unfoldable pub change : Context → ℕ → ReturnStatus → ℕ → Tx Books SalesReturn
  change c id status expected_version = do
    row ← Repository.transition env c id status expected_version
    x ← or_throw row (validation not_updated)
    record_event c (return_moved status id)
    pure x

  -- The callback of `transition`.
  unfoldable pub move : Context → ℕ → ReturnStatus → ℕ → Tx Books SalesReturn
  unfolding get process change
  move c id status expected_version = get c id >>= λ r.
      if same_status status processed
        && same_status r.status processed
        && is_completed r.rest.inventory
      then pure r
      else (require (member (same_status status) (transitions r.status)) (validation bad_transition)
          >> (if same_status status processed
              then process c id expected_version r
              else change c id status expected_version))

  unfoldable pub transition : Context → ℕ → ReturnStatus → ℕ → Tx Books SalesReturn
  transition c id status expected_version = do
    permitted (transition_permission status) c
    check_id env id
    check_version expected_version
    move c id status expected_version
