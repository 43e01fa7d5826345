-- ===== src/Sales/CreditNotes/Repository.antt =====
-- src/infrastructure/database/repositories/postgres-credit-note-repository.ts, query by query.
-- The list is left out.
use new_erp_final.Common.{ℕ, Bool, true, false, ◌&&◌, Option, some, ◌==◌, find}
use new_erp_final.Transaction.{
  Tx, validation, bad_statement, ◌>>=◌, ◌>>◌, throw, gets, require, or_throw, not_processed,
}
use new_erp_final.Database.{Context}
use new_erp_final.Environment.{Env}
use new_erp_final.Sales.Books.{
  ReturnStatus, processed, CreditNote, CreditNoteItem, BillStatus, BillColumns, Books,
  credit_note_table,
}
use new_erp_final.Sales.Documents.{
  is_document, with_notes, with_status, with_rest, mutate, replay_or,
}
use new_erp_final.Sales.Invoices.Repository.{is_draft}

abbrev is_processed : ReturnStatus → Bool
is_processed processed = true
is_processed _ = false

-- The `INSERT` names ten columns and gives them eleven values, which PostgreSQL refuses; what the
-- transaction has counted up by then is undone.
unfoldable pub create : Env → Context → ℕ → ℕ → Bool → Tx Books CreditNote
unfolding replay_or
create env c returned key allow_replay =
    replay_or env credit_note_table c key returned allow_replay (do
      row ← gets (λ s. find (is_document c returned) s.returns)
      r ← or_throw row (validation not_processed)
      require (is_processed r.status) (validation not_processed)
      throw bad_statement)

unfoldable pub update : Env → Context → ℕ → ℕ → ℕ → Tx Books (Option CreditNote)
unfolding mutate
update env c id notes expected_version =
    mutate env credit_note_table c id (λ n. is_draft n.status && n.version == expected_version)
      (with_notes notes)

unfoldable pub transition : Env → Context → ℕ → BillStatus → ℕ → Tx Books (Option CreditNote)
unfolding mutate
transition env c id status expected_version =
    mutate env credit_note_table c id (λ n. n.version == expected_version) (with_status status)

abbrev pub with_finance : ℕ → BillColumns CreditNoteItem → BillColumns CreditNoteItem
with_finance reference x = record x { finance = some reference }

unfoldable pub update_finance_status : Env → Context → ℕ → ℕ → Tx Books (Option CreditNote)
unfolding mutate
update_finance_status env c id reference =
    mutate env credit_note_table c id (λ n. is_draft n.status) (with_rest (with_finance reference))
