-- ===== src/Sales/Returns/Processing.antt =====
-- What processing a return does, in src/application/services/sales-return-service.ts: the stock
-- comes back once, whichever way the request is repeated.

use new_erp_final.Common.{
  find-update_first, find_fits, ℕ, ◌≡◌, refl, ◌∙◌, true, false, Option, some, List, [], ◌∷◌, arith,
  find, update_first, member, ◌⊎◌, inl, inr, Bool-cases, Option-cases,
}
use new_erp_final.Transaction.{ok, bind_ok, Result-cases}
use new_erp_final.Database.{Context, Movement}
use new_erp_final.Environment.{Env}
use new_erp_final.Authorization.{Authorization}
use new_erp_final.Sales.Books.{
  SalesReturn, ReturnStatus, processed, ReturnItem, Books, record_event, return_table, completed,
}
use new_erp_final.Sales.Documents.{is_document}
use new_erp_final.Sales.Ports.{SalesTexts, StockPort}
use new_erp_final.Sales.Rows.{get_ok, get_again, mutate_ok, transition_ok}
use new_erp_final.Sales.Returns.Repository
use new_erp_final.Sales.Returns.Service
use new_erp_final.Sales.Returns.Service.{same_status, transitions}

-- A changed status leaves the columns of the key.
is_document-with_stock :
    (c : Context) (id : ℕ) (r : SalesReturn)
    → is_document c id (Repository.with_stock r) ≡ is_document c id r
unfolding is_document
is_document-with_stock c id r = refl

processed_sound : (a : ReturnStatus) → same_status a processed ≡ true → a ≡ processed
processed_sound processed h = refl
processed_sound _ h = cc

module _ (env : Env) (texts : SalesTexts) (auth : Authorization)
    (inventory : Option StockPort) where
  return_line_leaves :
      (port : StockPort) (c : Context) (warehouse id : ℕ) (x : ReturnItem) (s : Books)
      {m : Movement} {t : Books}
      → Service.return_line env texts auth inventory port c warehouse id x s ≡ ok (m, t)
      → t.returns ≡ s.returns
  unfolding Service.return_line
  return_line_leaves port c warehouse id x s e = ground arith

  return_lines_leave :
      (port : StockPort) (c : Context) (warehouse id : ℕ) (xs : List ReturnItem) (s t : Books)
      → Service.return_lines env texts auth inventory port c warehouse id xs s ≡ ok (tt, t)
      → t.returns ≡ s.returns
  unfolding Service.return_lines
  return_lines_leave port c warehouse id [] s t e = ground arith
  return_lines_leave port c warehouse id (x ∷ xs) s t e =
      let (m, u, one, rest) =
        bind_ok (Service.return_line env texts auth inventory port c warehouse id x)
          (λ m. Service.return_lines env texts auth inventory port c warehouse id xs) s e in
      cc (
        return_line_leaves port c warehouse id x s one,
        return_lines_leave port c warehouse id xs u t rest,
      )

  process_ok :
      (c : Context) (id version : ℕ) (s : Books) (x : SalesReturn) (t : Books)
      → Repository.process env c id version s ≡ ok (some x, t)
      → (d : SalesReturn) × (find (is_document c id) s.returns ≡ some d)
        × (x ≡ Repository.with_stock d)
        × (t ≡ record s {
          returns = update_first (is_document c id) Repository.with_stock s.returns;
        })
  unfolding Repository.process
  process_ok c id version s x t e =
      let (d, found, fits, after, stored) =
        mutate_ok env return_table c id _ Repository.with_stock s e in
      (d, found, after, stored)

  -- What a return that is processed has read and written.
  pub process_steps :
      (c : Context) (id version : ℕ) (r : SalesReturn) (s : Books) (x : SalesReturn) (s' : Books)
      → Service.process env texts auth inventory c id version r s ≡ ok (x, s')
      → (port : StockPort) × (warehouse : ℕ) × (t : Books) × (inventory ≡ some port)
        × (Service.return_lines env texts auth inventory port c warehouse r.id r.rest.items s
            ≡ ok (tt, t))
        × (d : SalesReturn) × (find (is_document c id) t.returns ≡ some d)
        × (x ≡ Repository.with_stock d)
        × (s' ≡ record t {
          returns = update_first (is_document c id) Repository.with_stock t.returns;
          events = s'.events;
        })
  unfolding Service.process record_event
  process_steps c id version r s x s' e = elim (Option-cases inventory) [
    | inl absent ↦ ground arith
    | inr (port, provided) ↦ elim (Option-cases r.rest.warehouse) [
      | inl nowhere ↦ ground arith
      | inr (warehouse, placed) ↦
          elim (Result-cases
            (Service.return_lines env texts auth inventory port c warehouse r.id r.rest.items s)) [
              | inr (error, failed) ↦ ground arith
              | inl ((u, t), lines) ↦ elim (Result-cases (Repository.process env c id version t)) [
                | inr (error, failed) ↦ ground arith
                | inl ((row, v), changed) ↦ elim (Option-cases row) [
                  | inl none_left ↦ ground arith
                  | inr (y, present) ↦
                      let (d, found, after, stored) =
                        process_ok c id version t y v (ground (arith, changed, present)) in
                      (
                        port,
                        warehouse,
                        t,
                        provided,
                        lines,
                        d,
                        found,
                        ground (arith, after),
                        ground (arith, stored),
                      )
                ]
              ]
            ]
    ]
  ]

  -- The three ways in which a transition succeeds.
  pub move_cases :
      (c : Context) (id : ℕ) (status : ReturnStatus) (version : ℕ) (s : Books) (x : SalesReturn)
      (s' : Books)
      → Service.move env texts auth inventory c id status version s ≡ ok (x, s')
      → (r : SalesReturn) × (find (is_document c id) s.returns ≡ some r)
        × (((x ≡ r) × (s' ≡ s) × (r.status ≡ processed) × (r.rest.inventory ≡ completed))
            ⊎ ((member (same_status status) (transitions r.status) ≡ true)
                × (status ≡ processed)
                × (Service.process env texts auth inventory c id version r s ≡ ok (x, s')))
            ⊎ ((member (same_status status) (transitions r.status) ≡ true)
                × (same_status status processed ≡ false)
                × (Service.change env texts auth inventory c id status version s ≡ ok (x, s'))))
  unfolding Service.move Service.get
  move_cases c id status version s x s' e =
      let (r, s1, got, e1) = bind_ok (Service.get env texts auth inventory c id) _ s e in
      let at_start = get_ok env return_table auth "sales.return.read" c id s got in
      elim (Bool-cases (same_status status processed)) [
        | inl processing ↦
            let is_processed = processed_sound status processing in
            (r, at_start.1, ground (arith, processed_sound r.status, e1, at_start.0))
        | inr other ↦ (r, at_start.1, ground (arith, e1, at_start.0))
      ]

  pub change_ok :
      (c : Context) (id : ℕ) (status : ReturnStatus) (version : ℕ) (s : Books) (x : SalesReturn)
      (s' : Books)
      → Service.change env texts auth inventory c id status version s ≡ ok (x, s')
      → s'.db ≡ s.db
  unfolding Service.change Repository.transition record_event
  change_ok c id status version s x s' e =
      elim (Result-cases (Repository.transition env c id status version s)) [
        | inr (error, failed) ↦ ground arith
        | inl ((row, t), changed) ↦ elim (Option-cases row) [
          | inl absent ↦ ground arith
          | inr (y, present) ↦
              let (d, found, fits, after, stored) =
                transition_ok env return_table c id status version s {x = y} {t = t}
                  (ground (arith, changed, present)) in
              ground (arith, stored)
        ]
      ]

  found_after :
      (c : Context) (id : ℕ) (rows : List SalesReturn) {d : SalesReturn}
      → find (is_document c id) rows ≡ some d
      → find (is_document c id) (update_first (is_document c id) Repository.with_stock rows)
        ≡ some (Repository.with_stock d)
  found_after c id rows {d} found =
      find-update_first (is_document c id) Repository.with_stock rows found
        (is_document-with_stock c id d ∙ find_fits (is_document c id) rows found)

  -- A return that has been processed is processed once: the same request, with any version, gives
  -- the same return again and changes neither the stock nor anything else.
  pub process_again :
      (c : Context) (id version again : ℕ) (s : Books) (x : SalesReturn) (s' : Books)
      → Service.move env texts auth inventory c id processed version s ≡ ok (x, s')
      → Service.move env texts auth inventory c id processed again s' ≡ ok (x, s')
  unfolding Service.move Service.get
  process_again c id version again s x s' e =
      let (r, s1, got, e1) = bind_ok (Service.get env texts auth inventory c id) _ s e in
      let (r', found, how) = move_cases c id processed version s x s' e in
      elim how [
        | inl old ↦
            let reread =
              get_again env return_table auth "sales.return.read" c id s s' {x = x} got
                (ground (arith, found, old.0, old.1)) in
            ground (arith, reread, old.0, old.2, old.3)
        | inr (inl new) ↦
            let (port, warehouse, t, provided, lines, d, stored, after, last) =
              process_steps c id version r' s x s' new.2 in
            let reread =
              get_again env return_table auth "sales.return.read" c id s s' {x = x} got
                (ground (arith, found_after c id t.returns stored, after, last)) in
            ground (arith, reread, after)
        | inr (inr changed) ↦ ground (arith, changed.1)
      ]
