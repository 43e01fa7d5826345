-- ===== src/Sales/Deliveries/Life.antt =====
-- The life cycle of a delivery in src/application/services/delivery-service.ts, and what a
-- completed delivery does to the inventory.

use new_erp_final.Common.{
  ℕ, ◌≡◌, refl, true, Option, some, List, arith, find, update_first, member, if◌then◌else◌, ◌⊎◌,
  inl, inr, Bool-cases, Option-cases,
}
use mathlib.Core.Path.{subst, sym}
use new_erp_final.Transaction.{ok, bind_ok, require, pure, validation, bad_transition, Result-cases}
use new_erp_final.Database.{Context, Reservation}
use new_erp_final.Environment.{Env}
use new_erp_final.Authorization.{Authorization, authorize}
use new_erp_final.Inventory.Repository.{fulfill_reservations_by_source}
use new_erp_final.Inventory.Service as Inventory
use new_erp_final.Inventory.Balance.{IsBalanced}
use new_erp_final.Inventory.Histories.{fulfill_reservations_by_source-IsBalanced}
use new_erp_final.Sales.Books.{
  Delivery, DeliveryStatus, draft, dispatched, delivered, completed, cancelled, Books, record_event,
  delivery_table,
}
use new_erp_final.Sales.Documents.{is_document, with_status}
use new_erp_final.Sales.Ports.{SalesTexts, StockPort, stock_port}
use new_erp_final.Sales.Rows.{get_ok, transition_ok}
use new_erp_final.Sales.Deliveries.Repository
use new_erp_final.Sales.Deliveries.Service
use new_erp_final.Sales.Deliveries.Service.{same_status, transitions}

-- The diagram of the statuses.
infix 40 ◌⟶◌
pub data ◌⟶◌ : DeliveryStatus → DeliveryStatus → Type 0 where
  dispatch : draft ⟶ dispatched
  drop : draft ⟶ cancelled
  deliver : dispatched ⟶ delivered
  recall : dispatched ⟶ cancelled
  complete : delivered ⟶ completed

ruleset edges = (dispatch, drop, deliver, recall, complete)

transitions-⟶ : (a b : DeliveryStatus) → member (same_status b) (transitions a) ≡ true → a ⟶ b
transitions-⟶ draft dispatched h = dispatch
transitions-⟶ draft cancelled h = drop
transitions-⟶ dispatched delivered h = deliver
transitions-⟶ dispatched cancelled h = recall
transitions-⟶ delivered completed h = complete
transitions-⟶ _ _ h = cc

-- What a transition that succeeds has read and written.
pub record IsMoved (c : Context) (id : ℕ) (status : DeliveryStatus) (version : ℕ) (s : Books)
    (x : Delivery) (s' : Books) : Type 0 where
  pub before : Delivery
  pub found : find (is_document c id) s.deliveries ≡ some before
  pub edge : before.status ⟶ status
  pub expected : before.version ≡ version
  pub after : x ≡ with_status status before
  pub stored : s'.deliveries ≡ update_first (is_document c id) (with_status status) s.deliveries
  pub stock : (status ≡ completed) ⊎ (s'.db ≡ s.db)

module _ (env : Env) (texts : SalesTexts) (auth : Authorization) where
  module _ (inventory : Option StockPort) where
    take_stock_leaves :
        (c : Context) (d : Delivery) (s t : Books)
        → Service.take_stock env texts auth inventory c d s ≡ ok (tt, t)
        → t.deliveries ≡ s.deliveries
    unfolding Service.take_stock
    take_stock_leaves c d s t e = ground arith

    move_steps :
        (c : Context) (id : ℕ) (status : DeliveryStatus) (version : ℕ) (s : Books) (x : Delivery)
        (s' : Books)
        → Service.move env texts auth inventory c id status version s ≡ ok (x, s')
        → (d : Delivery) × (t u : Books) × (find (is_document c id) s.deliveries ≡ some d)
          × (member (same_status status) (transitions d.status) ≡ true)
          × ((if same_status status completed
                  then Service.take_stock env texts auth inventory c d
                  else pure tt)
                s
              ≡ ok (tt, t))
          × (Repository.transition env c id status version t ≡ ok (some x, u))
          × (s' ≡ record u { events = s'.events })
    unfolding Service.move Service.get record_event
    move_steps c id status version s x s' e =
        let (d, s1, got, e1) = bind_ok (Service.get env texts auth inventory c id) _ s e in
        let (u2, s2, legal, e2) =
          bind_ok
            (require (member (same_status status) (transitions d.status))
              (validation bad_transition))
            _ s1 e1 in
        let (u3, t, taken, e3) =
          bind_ok
            (if same_status status completed
              then Service.take_stock env texts auth inventory c d
              else pure tt)
            _ s2 e2 in
        let (row, u, moved, e4) = bind_ok (Repository.transition env c id status version) _ t e3 in
        let at_start = get_ok env delivery_table auth "sales.delivery.read" c id s got in
        let again : s2 ≡ s = ground (arith, legal, at_start.0) in
        elim (Option-cases row) [
          | inl absent ↦ ground (arith, e4, absent)
          | inr (y, present) ↦ (
            d,
            t,
            u,
            at_start.1,
            ground (arith, legal),
            ground (arith, taken, again),
            ground (arith, moved, present, e4),
            ground (arith, e4, present),
          )
        ]

    completed_sound : (a : DeliveryStatus) → same_status a completed ≡ true → a ≡ completed
    completed_sound draft h = cc
    completed_sound dispatched h = cc
    completed_sound delivered h = cc
    completed_sound completed h = refl
    completed_sound cancelled h = cc

    -- A transition that succeeds leads a delivery of the caller, whose version is the expected
    -- one, from a status to one that the diagram has after it. It writes the status and the next
    -- version of that row and no other delivery, and stock changes only on completion.
    pub move-IsMoved :
        (c : Context) (id : ℕ) (status : DeliveryStatus) (version : ℕ) (s : Books) (x : Delivery)
        (s' : Books)
        → Service.move env texts auth inventory c id status version s ≡ ok (x, s')
        → IsMoved c id status version s x s'
    unfolding Repository.transition
    move-IsMoved c id status version s x s' e =
        let (d, t, u, found, listed, taken, moved, last) =
          move_steps c id status version s x s' e in
        let (d', found', fits, after, stored) =
          transition_ok env delivery_table c id status version t moved in
        elim (Bool-cases (same_status status completed)) [
          | inl completing ↦
              let rows = take_stock_leaves c d s t (rw (completing, if◌then◌else◌) at taken) in
              record {
                before = d;
                found = found;
                edge = transitions-⟶ d.status status listed;
                expected = ground (arith, found, found', rows, fits);
                after = ground (arith, found, found', rows, after);
                stored = ground (arith, last, stored, rows);
                stock = inl (completed_sound status completing);
              }
          | inr other ↦
              let rest : t ≡ s = ground (arith, other, taken) in
              record {
                before = d;
                found = found;
                edge = transitions-⟶ d.status status listed;
                expected = ground (arith, found, found', rest, fits);
                after = ground (arith, found, found', rest, after);
                stored = ground (arith, last, stored, rest);
                stock = inr (ground (arith, last, stored, rest));
              }
        ]

  -- The inventory behind the port of the application.
  take_stock_effect :
      (c : Context) (d : Delivery) (s t : Books)
      → Service.take_stock env texts auth (some (stock_port env texts auth)) c d s ≡ ok (tt, t)
      → (rs : List Reservation) × (fulfill_reservations_by_source env texts.reservation c
            texts.sales_order d.source
            (env.join texts.delivery_prefix d.id)
            s.db
          ≡ ok (rs, t.db))
  unfolding Service.take_stock Inventory.fulfill_by_source Inventory.check_id Inventory.check_key
      authorize
  take_stock_effect c d s t e =
      elim (Result-cases (
        fulfill_reservations_by_source env texts.reservation c texts.sales_order d.source
          (env.join texts.delivery_prefix d.id) s.db)) [
            | inl ((rs, db), done) ↦ (rs, ground arith)
            | inr (x, failed) ↦ ground arith
          ]

  -- A delivery that is dispatched, delivered, completed or cancelled leaves the stock rows in
  -- agreement with the movements and the reservations.
  pub delivery-IsBalanced :
      (c : Context) (id : ℕ) (status : DeliveryStatus) (version : ℕ) (s : Books) (x : Delivery)
      (s' : Books)
      → IsBalanced s.db
      → Service.move env texts auth (some (stock_port env texts auth)) c id status version s
        ≡ ok (x, s')
      → IsBalanced s'.db
  unfolding Repository.transition
  delivery-IsBalanced c id status version s x s' h e =
      let port = some (stock_port env texts auth) in
      let (d, t, u, found, listed, taken, moved, last) =
        move_steps port c id status version s x s' e in
      let (d', found', fits, after, stored) =
        transition_ok env delivery_table c id status version t moved in
      let same_db : s'.db ≡ t.db = ground (arith, last, stored) in
      elim (Bool-cases (same_status status completed)) [
        | inl completing ↦
            let (rs, done) = take_stock_effect c d s t (rw (completing, if◌then◌else◌) at taken) in
            subst IsBalanced (sym same_db) (
              fulfill_reservations_by_source-IsBalanced env texts.reservation c texts.sales_order
                d.source (env.join texts.delivery_prefix d.id) s.db h done)
        | inr other ↦
            let rest : t ≡ s = ground (arith, other, taken) in
            subst IsBalanced (ground (arith, same_db, rest)) h
      ]
