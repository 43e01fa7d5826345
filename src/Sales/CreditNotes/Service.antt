-- ===== src/Sales/CreditNotes/Service.antt =====
-- src/application/services/credit-note-service.ts over the repository. The checks before the
-- transaction write nothing, so each operation is one transaction body. The list is left out. The
-- table of the transitions is that of the invoices.
use Prim.Native.String.{String}
use new_erp_final.Common.{ℕ, ◌+◌, Option, some, List, [], ◌∷◌, if◌then◌else◌, member}
use new_erp_final.Transaction.{
  Tx, validation, ◌>>=◌, ◌>>◌, pure, require, or_throw, bad_transition, no_provider, not_updated,
  finance_failed,
}
use new_erp_final.Database.{Context}
use new_erp_final.Environment.{Env}
use new_erp_final.Authorization.{Authorization, authorize}
use new_erp_final.Sales.Books.{
  CreditNote, CreditNoteItem, BillStatus, issued, Books, credit_note_table, record_event,
  credit_note_created, credit_note_moved,
}
use new_erp_final.Sales.Documents
use new_erp_final.Sales.Documents.{check_id, check_version, trimmed_key}
use new_erp_final.Sales.Ports.{SalesTexts, FinancePort, credit_note, posted_reference}
use new_erp_final.Sales.Invoices.Service.{transitions, same_status}
use new_erp_final.Sales.CreditNotes.Repository

abbrev pub transition_permission : BillStatus → String
transition_permission issued = "sales.credit_note.issue"
transition_permission _ = "sales.credit_note.cancel"

-- `items.reduce((total, item) => total + item.lineTotal, 0)`
unfoldable pub credited_amount : List CreditNoteItem → ℕ
credited_amount [] = 0
credited_amount (x ∷ xs) = x.line_total + credited_amount xs

module _ (env : Env) (texts : SalesTexts) (auth : Authorization)
    (finance : Option FinancePort) where
  abbrev permitted : String → Context → Tx Books (Unit {0})
  permitted p c = authorize env auth "sales" c (some p)

  unfoldable pub create : Context → ℕ → ℕ → Tx Books CreditNote
  create c returned key = do
    permitted "sales.credit_note.create" c
    check_id env returned
    key ← trimmed_key env key
    let allow_replay = auth.has_permission c.tenant c.user (some "sales.credit_note.read")
    n ← Repository.create env c returned key allow_replay
    record_event c (credit_note_created n.id)
    pure n

  unfoldable pub get : Context → ℕ → Tx Books CreditNote
  unfolding Documents.get
  get = Documents.get env auth credit_note_table "sales.credit_note.read"

  unfoldable pub update : Context → ℕ → ℕ → ℕ → Tx Books CreditNote
  update c id notes expected_version = do
    permitted "sales.credit_note.update" c
    check_id env id
    check_version expected_version
    row ← Repository.update env c id notes expected_version
    or_throw row (validation not_updated)

  -- What a transition to ISSUED does before it; the result is the version that it expects.
  unfoldable pub settle : Context → ℕ → ℕ → CreditNote → Tx Books ℕ
  settle c id expected_version n = do
    port ← or_throw finance (validation no_provider)
    let key = env.join texts.credit_note_finance_prefix id
    posting ← port.submit c key credit_note id (credited_amount n.rest.items)
    reference ← or_throw (posted_reference posting) (validation finance_failed)
    row ← Repository.update_finance_status env c id reference
    or_throw row (validation not_updated)
    pure (expected_version + 1)

  -- The callback of `transition`.
  unfoldable pub move : Context → ℕ → BillStatus → ℕ → Tx Books CreditNote
  unfolding get settle
  move c id status expected_version = do
    n ← get c id
    require (member (same_status status) (transitions n.status)) (validation bad_transition)
    version ←
        (if same_status status issued
          then settle c id expected_version n
          else pure expected_version)
    row ← Repository.transition env c id status version
    x ← or_throw row (validation not_updated)
    record_event c (credit_note_moved status id)
    pure x

  unfoldable pub transition : Context → ℕ → BillStatus → ℕ → Tx Books CreditNote
  transition c id status expected_version = do
    permitted (transition_permission status) c
    check_id env id
    check_version expected_version
    move c id status expected_version
