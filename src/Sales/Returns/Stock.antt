-- ===== src/Sales/Returns/Stock.antt =====
-- What the sales returns of src/application/services/sales-return-service.ts do to the inventory
-- behind the port of the application.

use new_erp_final.Common.{ℕ, ◌≡◌, ◌∙◌, some, List, [], ◌∷◌, arith, inl, inr, Option-cases}
use mathlib.Core.Path.{subst, sym}
use new_erp_final.Transaction.{ok, bind_ok}
use new_erp_final.Database.{Db, Context, Movement}
use new_erp_final.Environment.{Env}
use new_erp_final.Authorization.{Authorization, authorize, authorize_sound}
use new_erp_final.Inventory.Service as Inventory
use new_erp_final.Inventory.Service.{Input, validate_reservation}
use new_erp_final.Inventory.Balance.{IsBalanced}
use new_erp_final.Inventory.Conservation.{return_stock-IsBalanced}
use new_erp_final.Order.Stock.{validate_state}
use new_erp_final.Sales.Books.{SalesReturn, ReturnStatus, ReturnItem, Books}
use new_erp_final.Sales.Ports.{SalesTexts, StockPort, stock_port}
use new_erp_final.Sales.Returns.Service
use new_erp_final.Sales.Returns.Service.{same_status, transitions}
use new_erp_final.Sales.Returns.Processing.{process_steps, move_cases, change_ok}

module _ (env : Env) (texts : SalesTexts) (auth : Authorization) where
  abbrev port : StockPort
  port = stock_port env texts auth

  give_back-IsBalanced :
      (c : Context) (input : Input) (db : Db) {m : Movement} {db' : Db}
      → IsBalanced db
      → Inventory.give_back env auth c input db ≡ ok (m, db')
      → IsBalanced db'
  unfolding Inventory.give_back
  give_back-IsBalanced c input db h e =
      let (u, a, allowed, e1) =
        bind_ok (authorize env auth Inventory.module_code c (some "inventory.stock.return")) _ db
          e in
      let (i, b, valid, e2) = bind_ok (validate_reservation env input) _ a e1 in
      let at_a = (authorize_sound env auth _ c _ db allowed).1 in
      let at_b : b ≡ db = validate_state env input a valid ∙ at_a in
      return_stock-IsBalanced env c i b (subst IsBalanced (sym at_b) h) e2

  return_line-IsBalanced :
      (c : Context) (warehouse id : ℕ) (x : ReturnItem) (s : Books) {m : Movement} {t : Books}
      → IsBalanced s.db
      → Service.return_line env texts auth (some port) port c warehouse id x s ≡ ok (m, t)
      → IsBalanced t.db
  unfolding Service.return_line
  return_line-IsBalanced c warehouse id x s {m} {t} h e = elim (Option-cases x.item) [
    | inl absent ↦ ground arith
    | inr (item, present) ↦
        let input = Service.line_input env texts auth (some port) warehouse id item x in
        give_back-IsBalanced c input s.db {m = m} {db' = t.db} h (ground arith)
  ]

  return_lines-IsBalanced :
      (c : Context) (warehouse id : ℕ) (xs : List ReturnItem) (s t : Books)
      → IsBalanced s.db
      → Service.return_lines env texts auth (some port) port c warehouse id xs s ≡ ok (tt, t)
      → IsBalanced t.db
  unfolding Service.return_lines
  return_lines-IsBalanced c warehouse id [] s t h e =
      let same_db : t.db ≡ s.db = ground arith in subst IsBalanced (sym same_db) h
  return_lines-IsBalanced c warehouse id (x ∷ xs) s t h e =
      let (m, u, one, rest) =
        bind_ok (Service.return_line env texts auth (some port) port c warehouse id x)
          (λ m. Service.return_lines env texts auth (some port) port c warehouse id xs) s e in
      return_lines-IsBalanced c warehouse id xs u t
        (return_line-IsBalanced c warehouse id x s h one) rest

  -- A return that is inspected, decided, processed or closed leaves the stock rows in agreement
  -- with the movements and the reservations.
  pub return-IsBalanced :
      (c : Context) (id : ℕ) (status : ReturnStatus) (version : ℕ) (s : Books) (x : SalesReturn)
      (s' : Books)
      → IsBalanced s.db
      → Service.move env texts auth (some port) c id status version s ≡ ok (x, s')
      → IsBalanced s'.db
  return-IsBalanced c id status version s x s' h e =
      let (r, found, how) = move_cases env texts auth (some port) c id status version s x s' e in
      elim how [
        | inl old ↦ subst (λ u. IsBalanced u.db) (sym old.1) h
        | inr (inl new) ↦
            let (p, warehouse, t, provided, lines, d, stored, after, last) =
              process_steps env texts auth (some port) c id version r s x s' new.2 in
            let same_db : s'.db ≡ t.db = ground (arith, last) in
            let ours : p ≡ port = ground (arith, provided) in
            subst IsBalanced (sym same_db) (
              return_lines-IsBalanced c warehouse r.id r.rest.items s t h (
                subst
                  (λ q.
                    Service.return_lines env texts auth (some port) q c warehouse r.id r.rest.items
                      s
                    ≡ ok (tt, t))
                  ours lines))
        | inr (inr changed) ↦
            subst IsBalanced
              (sym (change_ok env texts auth (some port) c id status version s x s' changed.2)) h
      ]
