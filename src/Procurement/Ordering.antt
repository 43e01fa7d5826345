-- ===== src/Procurement/Ordering.antt =====
-- The operations on requisitions and purchase orders of
-- src/application/services/procurement-service.ts over the repository. The checks before a
-- transaction write nothing, so each operation is one transaction body. The lists are left out.
use Prim.Native.String.{String}
use text.Mathlib.Text.{◌==◌ as str_eq}
use new_erp_final.Common.{ℕ, Bool, true, false, Option, none, some, List, leb, if◌then◌else◌}
use new_erp_final.Transaction.{
  Tx, validation, not_found, ◌>>=◌, ◌>>◌, pure, require, or_throw, bad_version, bad_transition,
  not_updated,
}
use new_erp_final.Database.{Context}
use new_erp_final.Environment.{Env}
use new_erp_final.Authorization.{Authorization}
use new_erp_final.Procurement.Purchasing.{
  PurchaseStatus, draft, submitted, approved, rejected, cancelled, Planned, Requisition,
  PurchaseOrder, requisition_created, requisition_updated, order_created, order_updated, Purchasing,
}
use new_erp_final.Procurement.Planning
use new_erp_final.Procurement.Planning.{Table, requisitions, orders}
use new_erp_final.Procurement.Service.{check_id, check_text}
use new_erp_final.Procurement.Writing.{PlannedLine, permitted, write, trimmed, check_planned}

-- `onDocumentSubmitted` of the workflow, which a caller of the constructor may leave out: for an
-- order and a version, the status that it answers. Its operation key is made of the two.
abbrev pub WorkflowPort : Type 0
WorkflowPort = Option (Context → ℕ → ℕ → Tx Purchasing ℕ)

-- The tables `allowed` and `transitions`, which agree on requisitions and orders.
abbrev pub is_target : PurchaseStatus → Bool
is_target draft = false
is_target _ = true

unfoldable pub follows : PurchaseStatus → PurchaseStatus → Bool
follows draft submitted = true
follows draft cancelled = true
follows submitted approved = true
follows submitted rejected = true
follows submitted cancelled = true
follows _ _ = false

-- `actionPermission`, of a requisition and of an order.
abbrev pub requisition_permission : PurchaseStatus → String
requisition_permission submitted = "purchase.requisition.submit"
requisition_permission approved = "purchase.requisition.approve"
requisition_permission rejected = "purchase.requisition.reject"
requisition_permission _ = "purchase.requisition.cancel"

abbrev pub order_permission : PurchaseStatus → String
order_permission submitted = "purchase.order.submit"
order_permission approved = "purchase.order.approve"
order_permission rejected = "purchase.order.reject"
order_permission _ = "purchase.order.cancel"

-- What `submitPurchaseOrder` does inside the transaction once the order is submitted: the
-- version is the one that the statement has returned.
unfoldable pub start_workflow :
    WorkflowPort → Context → ℕ → PurchaseOrder → Tx Purchasing (Option ℕ)
start_workflow none c id x = pure none
start_workflow (some on_submitted) c id x = do
  status ← on_submitted c id x.version
  pure (some status)

module _ (env : Env) (auth : Authorization) where
  unfoldable pub create_requisition :
      Context → ℕ → Option ℕ → List PlannedLine → Tx Purchasing Requisition
  create_requisition c required justification inputs = do
    lines ← check_planned env auth inputs
    write env auth "purchase.requisition.create" c requisition_created (λ x. x.id)
        (do
          required ← check_text env auth required
          x ←
              Planning.create_requisition env c
                (record { required = required; justification = trimmed env auth justification })
                lines
          pure (some x))

  unfoldable pub update_requisition : Context → ℕ → ℕ → Option ℕ → ℕ → Tx Purchasing Requisition
  update_requisition c id required justification version = do
    check_id env auth id
    write env auth "purchase.requisition.update" c requisition_updated (λ x. x.id)
        (do
          required ← check_text env auth required
          Planning.update_requisition env c id
              (record { required = required; justification = justification }) version)

  -- `requisitionId`, which is checked if it is there.
  abbrev pub check_reference : Option ℕ → Tx Purchasing (Unit {0})
  check_reference none = pure tt
  check_reference (some id) = check_id env auth id

  unfoldable pub create_order :
      Context → ℕ → Option ℕ → ℕ → List PlannedLine → Tx Purchasing PurchaseOrder
  create_order c supplier requisition date inputs = do
    check_id env auth supplier
    check_reference requisition
    lines ← check_planned env auth inputs
    write env auth "purchase.order.create" c order_created (λ x. x.id)
        (do
          date ← check_text env auth date
          x ←
              Planning.create_order env c
                (record { supplier = supplier; requisition = requisition; date = date }) lines
          pure (some x))

  -- Only the date of an order can be changed.
  unfoldable pub update_order : Context → ℕ → ℕ → ℕ → Tx Purchasing PurchaseOrder
  update_order c id date version = do
    check_id env auth id
    write env auth "purchase.order.update" c order_updated (λ x. x.id)
        (do date ← check_text env auth date; Planning.update_date env c id date version)

  -- `getRequisition` and `getPurchaseOrder`.
  unfoldable pub get :
      {X : Type 0} → Table (Planned X) → String → Context → ℕ → Tx Purchasing (Planned X)
  get table p c id = do
    check_id env auth id
    permitted env auth p c
    row ← Planning.get env table c id
    or_throw row not_found

  -- The transaction of the private `transition`.
  unfoldable pub move :
      {X B : Type 0}
      → Table (Planned X)
      → Context
      → ℕ
      → PurchaseStatus
      → ℕ
      → (Planned X → Tx Purchasing B)
      → Tx Purchasing (Planned X × B)
  move table c id status version after = do
    current ← Planning.get env table c id
    x ← or_throw current not_found
    require (follows x.status status) (validation bad_transition)
    row ← Planning.transition env table c id status version
    y ← or_throw row (validation not_updated)
    b ← after y
    pure (y, b)

  -- `if (actionPermission !== permission) await this.authorize(c, actionPermission)`
  unfoldable pub check_action : String → String → Context → Tx Purchasing (Unit {0})
  check_action action p c = if str_eq action p then pure tt else permitted env auth action c

  -- The private `transition`, for requisitions and orders. A version that is no integer is 0.
  unfoldable pub transition :
      {X B : Type 0}
      → Table (Planned X)
      → (PurchaseStatus → String)
      → String
      → Context
      → ℕ
      → PurchaseStatus
      → ℕ
      → (Planned X → Tx Purchasing B)
      → Tx Purchasing (Planned X × B)
  transition table permission_of p c id status version after = do
    check_id env auth id
    require (leb 1 version) (validation bad_version)
    require (is_target status) (validation bad_transition)
    permitted env auth p c
    check_action (permission_of status) p c
    move table c id status version after

  abbrev nothing_after : {X : Type 0} → X → Tx Purchasing (Unit {0})
  nothing_after x = pure tt

  -- `transitionRequisition`, `submitRequisition` and `cancelRequisition`.
  unfoldable pub transition_requisition :
      Context → ℕ → PurchaseStatus → ℕ → Tx Purchasing (Requisition × Unit {0})
  unfolding transition
  transition_requisition c id status version =
      transition requisitions requisition_permission "purchase.requisition.workflow" c id status
        version nothing_after

  unfoldable pub submit_requisition : Context → ℕ → ℕ → Tx Purchasing (Requisition × Unit {0})
  unfolding transition
  submit_requisition c id version =
      transition requisitions requisition_permission "purchase.requisition.submit" c id submitted
        version nothing_after

  unfoldable pub cancel_requisition : Context → ℕ → ℕ → Tx Purchasing (Requisition × Unit {0})
  unfolding transition
  cancel_requisition c id version =
      transition requisitions requisition_permission "purchase.requisition.cancel" c id cancelled
        version nothing_after

  -- `transitionPurchaseOrder`, `cancelPurchaseOrder` and `transitionPurchaseOrderFromWorkflow`,
  -- which the workflow calls and which checks nothing.
  unfoldable pub transition_order :
      Context → ℕ → PurchaseStatus → ℕ → Tx Purchasing (PurchaseOrder × Unit {0})
  unfolding transition
  transition_order c id status version =
      transition orders order_permission "workflow.task.decide" c id status version nothing_after

  unfoldable pub cancel_order : Context → ℕ → ℕ → Tx Purchasing (PurchaseOrder × Unit {0})
  unfolding transition
  cancel_order c id version =
      transition orders order_permission "purchase.order.cancel" c id cancelled version
        nothing_after

  unfoldable pub transition_from_workflow :
      Context → ℕ → PurchaseStatus → ℕ → Tx Purchasing (Option PurchaseOrder)
  transition_from_workflow c id status version = Planning.transition env orders c id status version

  -- `submitPurchaseOrder`: the order and the status that the workflow has answered, which the
  -- caller is shown in its place.
  unfoldable pub submit_order :
      WorkflowPort → Context → ℕ → ℕ → Tx Purchasing (PurchaseOrder × Option ℕ)
  unfolding transition start_workflow
  submit_order port c id version =
      transition orders order_permission "purchase.order.submit" c id submitted version
        (start_workflow port c id)
