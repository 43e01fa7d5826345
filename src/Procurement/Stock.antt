-- ===== src/Procurement/Stock.antt =====
-- What the completion of a receipt (src/application/services/procurement-service.ts) does to the
-- inventory of the application, and a completion that is asked for again.
use new_erp_final.Common.{
  ℕ, ◌≡◌, ◌∙◌, ap, true, some, List, [], ◌∷◌, arith, find, inl, inr, Bool-cases,
}
use mathlib.Core.Path.{subst, sym}
use new_erp_final.Transaction.{ok, bind_ok, Result-cases}
use new_erp_final.Database.{Db, Stock, Context}
use new_erp_final.Environment.{Env}
use new_erp_final.Authorization.{Authorization, authorize, authorize_sound}
use new_erp_final.Inventory.Service as Inventory
use new_erp_final.Inventory.Service.{Input, validate_reservation}
use new_erp_final.Inventory.Balance.{IsBalanced}
use new_erp_final.Inventory.Conservation.{receive_stock-IsBalanced}
use new_erp_final.Order.Stock.{validate_state}
use new_erp_final.Procurement.Purchasing.{Line, Receipt, Purchasing, is_receipt}
use new_erp_final.Procurement.Repository
use new_erp_final.Procurement.Repository.{Completion, with_status}
use new_erp_final.Procurement.Service
use new_erp_final.Procurement.Service.{ReceivePort}
use new_erp_final.Procurement.Effects.{complete_effect, complete_found}
use new_erp_final.Procurement.Requests.{take_in_leaves, complete_row}

module _ (env : Env) (auth : Authorization) (purchase_receipt : ℕ) where
  receive-IsBalanced :
      (c : Context) (input : Input) (db : Db) {x : Stock} {db' : Db}
      → IsBalanced db
      → Inventory.receive env auth c input db ≡ ok (x, db')
      → IsBalanced db'
  unfolding Inventory.receive
  receive-IsBalanced c input db h e =
      let (u, a, allowed, e1) =
        bind_ok (authorize env auth Inventory.module_code c (some "inventory.stock.receive")) _ db
          e in
      let (i, b, valid, e2) = bind_ok (validate_reservation env input) _ a e1 in
      let at_a = (authorize_sound env auth _ c _ db allowed).1 in
      let at_b : b ≡ db = validate_state env input a valid ∙ at_a in
      receive_stock-IsBalanced env c i b (subst IsBalanced (sym at_b) h) e2

  receive_lines-IsBalanced :
      (c : Context) (id : ℕ) (r : Receipt) (ls : List Line) (s : Purchasing) {t : Purchasing}
      → IsBalanced s.db
      → Service.receive_lines env auth purchase_receipt (Inventory.receive env auth) c id r ls s
        ≡ ok (tt, t)
      → IsBalanced t.db
  unfolding Service.receive_lines
  receive_lines-IsBalanced c id r [] s {t} h e =
      let same_db : t.db ≡ s.db = ground arith in subst IsBalanced (sym same_db) h
  receive_lines-IsBalanced c id r (l ∷ ls) s {t} h e =
      let input = Service.line_input env auth purchase_receipt id r l in
      elim (Result-cases (Inventory.receive env auth c input s.db)) [
        | inl ((x, db), done) ↦
            receive_lines-IsBalanced c id r ls (record s { db = db }) {t = t}
              (receive-IsBalanced c input s.db h done) (ground (arith, done, e))
        | inr (x, failed) ↦ ground (arith, failed, e)
      ]

  take_in-IsBalanced :
      (c : Context) (id : ℕ) (done : Completion) (s : Purchasing) {t : Purchasing}
      → IsBalanced s.db
      → Service.take_in env auth purchase_receipt (some (Inventory.receive env auth)) c id done s
        ≡ ok (tt, t)
      → IsBalanced t.db
  unfolding Service.take_in Service.record_event
  take_in-IsBalanced c id done s {t} h e = elim (Bool-cases done.already) [
    | inl old ↦
        let same_db : t.db ≡ s.db = ground (arith, old, e) in subst IsBalanced (sym same_db) h
    | inr new ↦
        elim (Result-cases (
          Service.receive_lines env auth purchase_receipt (Inventory.receive env auth) c id
            done.receipt done.receipt.lines s)) [
              | inl ((u, m), lines) ↦
                  let same_db : t.db ≡ m.db = ground (arith, new, lines, e) in
                  subst IsBalanced (sym same_db) (
                    receive_lines-IsBalanced c id done.receipt done.receipt.lines s {t = m} h lines)
              | inr (x, failed) ↦ ground (arith, new, failed, e)
            ]
  ]

  -- A completion that succeeds leaves the stock rows in agreement with the movements and the
  -- reservations.
  complete-IsBalanced :
      (c : Context) (id version : ℕ) (s : Purchasing) {r : Receipt} {s' : Purchasing}
      → IsBalanced s.db
      → Service.complete env auth purchase_receipt
          (some (Inventory.receive env auth))
          c
          id
          version
          s
        ≡ ok (r, s')
      → IsBalanced s'.db
  complete-IsBalanced c id version s {r} {s'} h e =
      let (done, t, stored, taken, last) =
        complete_row env auth purchase_receipt (some (Inventory.receive env auth)) c id version s
          e in
      let same_db : t.db ≡ s.db = elim (complete_effect env c id version s stored) [
        | inl old ↦ ap (λ x. x.db) old.3
        | inr new ↦ ap (λ x. x.db) new.stored
      ] in
      take_in-IsBalanced c id done t {t = s'} (subst IsBalanced (sym same_db) h) taken

  module _ (port : ReceivePort) where
    complete_done :
        (c : Context) (id version w : ℕ) (s u : Purchasing) {x r : Receipt} {s' : Purchasing}
        → Service.complete env auth purchase_receipt port c id version s ≡ ok (x, s')
        → find (is_receipt c id) u.receipts ≡ some r
        → Repository.is_done env r.status ≡ true
        → Service.complete env auth purchase_receipt port c id w u ≡ ok (r, u)
    unfolding Service.complete Service.check_id Service.take_in authorize Repository.complete
    complete_done c id version w s u e found old = ground (arith, found, old, e)

    -- Who has completed a receipt can ask again, whatever version they expect: they get the
    -- receipt as it is, and neither the receipts nor the stock nor the events change.
    pub complete_again :
        (c : Context) (id version w : ℕ) (s : Purchasing) {r : Receipt} {s' : Purchasing}
        → Service.complete env auth purchase_receipt port c id version s ≡ ok (r, s')
        → Service.complete env auth purchase_receipt port c id w s' ≡ ok (r, s')
    complete_again c id version w s {r} {s'} e =
        let (done, t, stored, taken, last) =
          complete_row env auth purchase_receipt port c id version s e in
        let (there, finished) = complete_found env c id version s stored in
        let (orders, receipts) = take_in_leaves env auth purchase_receipt port c id done t taken in
        let found : find (is_receipt c id) s'.receipts ≡ some r =
          ap (find (is_receipt c id)) receipts ∙ there ∙ ap some (sym last) in
        complete_done c id version w s s' e found
          (ap (λ x. Repository.is_done env x.status) last ∙ finished)
