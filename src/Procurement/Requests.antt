-- ===== src/Procurement/Requests.antt =====
-- What the operations on receipts of src/application/services/procurement-service.ts ask of the
-- repository, and the rows that they leave.
use new_erp_final.Common.{
  ℕ, ◌≡◌, ◌≢◌, true, false, none, some, List, [], ◌∷◌, arith, inl, inr, Bool-cases, Option-cases,
}
use new_erp_final.Transaction.{Tx, ok, Result-cases}
use new_erp_final.Database.{Db, Stock, Context}
use new_erp_final.Environment.{Env}
use new_erp_final.Authorization.{Authorization, authorize}
use new_erp_final.Inventory.Service.{Input}
use new_erp_final.Procurement.Purchasing.{Line, Receipt, ReceiptStatus, Purchasing, has_duplicates}
use new_erp_final.Procurement.Repository
use new_erp_final.Procurement.Repository.{
  Request, Change, Completion, with_status, exceeds, put_lines, approved_order,
}
use new_erp_final.Procurement.Effects.{update_refused}
use new_erp_final.Procurement.Service
use new_erp_final.Procurement.Service.{ReceivePort, InputLine, is_cancelled}

module _ (env : Env) (auth : Authorization) where
  valid_lines_state :
      (inputs : List InputLine) (s : Purchasing) {ls : List Line} {t : Purchasing}
      → Service.valid_lines env auth inputs s ≡ ok (ls, t)
      → t ≡ s
  unfolding Service.valid_lines
  valid_lines_state [] s e = ground (arith, e)
  valid_lines_state (l ∷ inputs) s e = elim (Result-cases (Service.valid_lines env auth inputs s)) [
    | inl ((rest, u), valid) ↦
        ground (arith, valid, e, valid_lines_state inputs s {ls = rest} {t = u} valid)
    | inr (x, refused) ↦ ground (arith, refused, e)
  ]

  check_lines_state :
      (inputs : List InputLine) (s : Purchasing) {ls : List Line} {t : Purchasing}
      → Service.check_lines env auth inputs s ≡ ok (ls, t)
      → (t ≡ s) × (has_duplicates ls ≡ false)
  unfolding Service.check_lines
  check_lines_state inputs s e = elim (Result-cases (Service.valid_lines env auth inputs s)) [
    | inl ((ls, u), valid) ↦
        let same = valid_lines_state inputs s {ls = ls} {t = u} valid in
        (ground (arith, valid, e, same), ground (arith, valid, e, same))
    | inr (x, refused) ↦ ground (arith, refused, e)
  ]

  -- What the service asks of the repository, and the rows after it.
  pub create_row :
      (c : Context) (order warehouse date : ℕ) (inputs : List InputLine) (key : ℕ) (s : Purchasing)
      {r : Receipt} {s' : Purchasing}
      → Service.create env auth c order warehouse date inputs key s ≡ ok (r, s')
      → (i : Request) × (t : Purchasing) × (Repository.create env c i s ≡ ok (r, t))
        × (s'.orders ≡ t.orders)
        × (s'.receipts ≡ t.receipts)
  unfolding Service.create authorize Service.check_id Service.record_event
  create_row c order warehouse date inputs key s e =
      elim (Result-cases (Service.check_lines env auth inputs s)) [
        | inl ((ls, u), valid) ↦
            let same = (check_lines_state inputs s valid).0 in
            let i : Request = record {
              order = order;
              warehouse = warehouse;
              date = date;
              lines = ls;
              key = key;
            } in
            elim (Result-cases (Repository.create env c i s)) [
              | inl ((x, t), stored) ↦ (
                i,
                t,
                ground (arith, valid, same, stored, e),
                ground (arith, valid, same, stored, e),
                ground (arith, valid, same, stored, e),
              )
              | inr (x, failed) ↦ ground (arith, valid, same, failed, e)
            ]
        | inr (x, refused) ↦ ground (arith, refused, e)
      ]

  -- Whatever is asked for, `updateReceipt` ends in an error: no draft of a receipt can be changed.
  pub update_fails :
      (c : Context) (id warehouse date : ℕ) (inputs : List InputLine) (version : ℕ) (s : Purchasing)
      {r : Receipt} {s' : Purchasing}
      → Service.update env auth c id warehouse date inputs version s ≢ ok (r, s')
  unfolding Service.update authorize Service.check_id Service.check_text Service.record_event
  update_fails c id warehouse date inputs version s {r} e =
      elim (Result-cases (Service.check_lines env auth inputs s)) [
        | inl ((ls, u), valid) ↦
            let same = (check_lines_state inputs s valid).0 in
            let i : Change = record {
              id = id;
              warehouse = warehouse;
              date = env.trim date;
              lines = ls;
              expected_version = version;
            } in
            elim (Result-cases (Repository.update env c i s)) [
              | inl ((none, t), stored) ↦ ground (arith, valid, same, stored, e)
              | inl ((some x, t), stored) ↦ update_refused env c i s stored
              | inr (x, failed) ↦ ground (arith, valid, same, failed, e)
            ]
        | inr (x, refused) ↦ ground (arith, refused, e)
      ]

  pub cancel_row :
      (c : Context) (id version : ℕ) (s : Purchasing) {r : Receipt} {s' : Purchasing}
      → Service.cancel env auth c id version s ≡ ok (r, s')
      → (t : Purchasing) × (Repository.cancel env c id version s ≡ ok (some r, t))
        × (s'.orders ≡ t.orders)
        × (s'.receipts ≡ t.receipts)
  unfolding Service.cancel authorize Service.check_id Service.record_event
  cancel_row c id version s e = elim (Result-cases (Repository.cancel env c id version s)) [
    | inl ((x, t), stored) ↦
        (t, ground (arith, stored, e), ground (arith, stored, e), ground (arith, stored, e))
    | inr (x, failed) ↦ ground (arith, failed, e)
  ]

  pub transition_row :
      (c : Context) (id : ℕ) (status : ReceiptStatus) (version : ℕ) (s : Purchasing) {r : Receipt}
      {s' : Purchasing}
      → Service.transition env auth c id status version s ≡ ok (r, s')
      → (is_cancelled status ≡ true)
        × (Repository.transition env c id status version s ≡ ok (some r, s'))
  unfolding Service.transition authorize Service.check_id Repository.get_by_id
  transition_row c id status version s e =
      elim (Result-cases (Repository.transition env c id status version s)) [
        | inl ((x, t), stored) ↦ (ground (arith, stored, e), ground (arith, stored, e))
        | inr (x, failed) ↦ ground (arith, failed, e)
      ]

  module _ (purchase_receipt : ℕ) (port : ReceivePort) where
    receive_lines_leaves :
        (receive : Context → Input → Tx Db Stock) (c : Context) (id : ℕ) (r : Receipt)
        (ls : List Line) (s : Purchasing) {t : Purchasing}
        → Service.receive_lines env auth purchase_receipt receive c id r ls s ≡ ok (tt, t)
        → (t.orders ≡ s.orders) × (t.receipts ≡ s.receipts)
    unfolding Service.receive_lines
    receive_lines_leaves receive c id r [] s e = ground arith
    receive_lines_leaves receive c id r (l ∷ ls) s {t} e =
        elim (Result-cases (receive c (Service.line_input env auth purchase_receipt id r l) s.db)) [
          | inl ((a, db), done) ↦
              let (orders, receipts) =
                receive_lines_leaves receive c id r ls (record s { db = db }) {t = t}
                  (ground (arith, done, e)) in
              (ground (arith, orders), ground (arith, receipts))
          | inr (x, failed) ↦ ground (arith, failed, e)
        ]

    pub take_in_leaves :
        (c : Context) (id : ℕ) (done : Completion) (s : Purchasing) {t : Purchasing}
        → Service.take_in env auth purchase_receipt port c id done s ≡ ok (tt, t)
        → (t.orders ≡ s.orders) × (t.receipts ≡ s.receipts)
    unfolding Service.take_in Service.record_event
    take_in_leaves c id done s {t} e = elim (Bool-cases done.already) [
      | inl old ↦ (ground (arith, old, e), ground (arith, old, e))
      | inr new ↦ elim (Option-cases port) [
        | inl absent ↦ ground (arith, new, absent, e)
        | inr (receive, present) ↦
            elim (Result-cases (
              Service.receive_lines env auth purchase_receipt receive c id done.receipt
                done.receipt.lines s)) [
                  | inl ((u, m), lines) ↦
                      let (orders, receipts) =
                        receive_lines_leaves receive c id done.receipt done.receipt.lines s {t = m}
                          lines in
                      (
                        ground (arith, new, present, lines, e, orders),
                        ground (arith, new, present, lines, e, receipts),
                      )
                  | inr (x, failed) ↦ ground (arith, new, present, failed, e)
                ]
      ]
    ]

    pub complete_row :
        (c : Context) (id version : ℕ) (s : Purchasing) {r : Receipt} {s' : Purchasing}
        → Service.complete env auth purchase_receipt port c id version s ≡ ok (r, s')
        → (done : Completion) × (t : Purchasing) × (Repository.complete env c id version s
            ≡ ok (some done, t))
          × (Service.take_in env auth purchase_receipt port c id done t ≡ ok (tt, s'))
          × (r ≡ done.receipt)
    unfolding Service.complete authorize Service.check_id
    complete_row c id version s e = elim (Result-cases (Repository.complete env c id version s)) [
      | inl ((none, t), stored) ↦ ground (arith, stored, e)
      | inl ((some done, t), stored) ↦
          elim (Result-cases (Service.take_in env auth purchase_receipt port c id done t)) [
            | inl ((u, m), taken) ↦ (
              done,
              t,
              ground (arith, stored, e),
              ground (arith, stored, taken, e),
              ground (arith, stored, taken, e),
            )
            | inr (x, failed) ↦ ground (arith, stored, failed, e)
          ]
      | inr (x, failed) ↦ ground (arith, failed, e)
    ]
