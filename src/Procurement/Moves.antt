-- ===== src/Procurement/Moves.antt =====
-- The life of requisitions and purchase orders: the private `transition` of
-- src/application/services/procurement-service.ts and of its repository.
use Prim.Native.String.{String}
use text.Mathlib.Text.{◌==◌ as str_eq}
use new_erp_final.Common.{
  ℕ, ◌≡◌, Bool, true, Option, none, some, arith, ◌==◌, ==_sound, find, update_first, ◌⊎◌, inl, inr,
  Bool-cases, Option-cases,
}
use new_erp_final.Transaction.{Tx, ok, Result-cases}
use new_erp_final.Database.{Context}
use new_erp_final.Environment.{Env}
use new_erp_final.Authorization.{Authorization, authorize, IsAuthorized, authorize_sound}
use new_erp_final.Procurement.Purchasing.{
  PurchaseStatus, draft, submitted, approved, rejected, cancelled, Planned, Purchasing, is_planned,
}
use new_erp_final.Procurement.Planning
use new_erp_final.Procurement.Planning.{Table, write_row, with_status, orders}
use new_erp_final.Procurement.Ordering
use new_erp_final.Procurement.Ordering.{WorkflowPort, follows, order_permission, start_workflow}
use new_erp_final.Procurement.Service.{check_id}
use mathlib.Core.Path.{subst}

-- The diagram of the statuses.
infix 40 ◌⟶◌
pub data ◌⟶◌ : PurchaseStatus → PurchaseStatus → Type 0 where
  submit : draft ⟶ submitted
  drop : draft ⟶ cancelled
  approve : submitted ⟶ approved
  reject : submitted ⟶ rejected
  cancel : submitted ⟶ cancelled

follows-⟶ : (a b : PurchaseStatus) → follows a b ≡ true → a ⟶ b
unfolding follows
follows-⟶ draft draft h = cc
follows-⟶ draft submitted h = submit
follows-⟶ draft approved h = cc
follows-⟶ draft rejected h = cc
follows-⟶ draft cancelled h = drop
follows-⟶ submitted draft h = cc
follows-⟶ submitted submitted h = cc
follows-⟶ submitted approved h = approve
follows-⟶ submitted rejected h = reject
follows-⟶ submitted cancelled h = cancel
follows-⟶ approved b h = cc
follows-⟶ rejected b h = cc
follows-⟶ cancelled b h = cc

found_once {ℓ} : {A : Type ℓ} (o : Option A) {a b : A} → o ≡ some a → o ≡ some b → a ≡ b
found_once o p q = cc

module _ (env : Env) (auth : Authorization) where
  -- What is known of a transition that succeeds: who asked for it, the row that it found and the
  -- row and the state that it wrote.
  pub record IsMoved {X : Type 0} (table : Table (Planned X)) (permission action : String)
      (c : Context) (id : ℕ) (status : PurchaseStatus) (version : ℕ) (s : Purchasing)
      (y : Planned X) (t : Purchasing) : Type 0 where
    pub before : Planned X
    pub authorized : IsAuthorized env auth "purchase" c (some permission)
    pub permitted :
        (str_eq action permission ≡ true) ⊎ IsAuthorized env auth "purchase" c (some action)
    pub found : find (is_planned c id) (table.rows s) ≡ some before
    pub current : table.version before ≡ version
    pub edge : before.status ⟶ status
    pub after : y ≡ with_status status before
    pub stored :
        t ≡ table.put (update_first (is_planned c id) (with_status status) (table.rows s)) s

  get_ok :
      {X : Type 0} (table : Table (Planned X)) (c : Context) (id : ℕ) (s : Purchasing)
      {x : Option (Planned X)} {t : Purchasing}
      → Planning.get env table c id s ≡ ok (x, t)
      → (x ≡ find (is_planned c id) (table.rows s)) × (t ≡ s)
  unfolding Planning.get
  get_ok table c id s e = ground arith

  pub write_ok :
      {X : Type 0} (table : Table X) (c : Context) (here ready : X → Bool) (version : ℕ) (f : X → X)
      (s : Purchasing) {y : X} {t : Purchasing}
      → write_row env table c here ready version f s ≡ ok (some y, t)
      → (x : X) × (find here (table.rows s) ≡ some x)
        × (table.version x ≡ version)
        × (ready x ≡ true)
        × (y ≡ f x)
        × (t ≡ table.put (update_first here f (table.rows s)) s)
  unfolding write_row
  write_ok table c here ready version f s e = elim (Option-cases (find here (table.rows s))) [
    | inl absent ↦ ground arith
    | inr (x, found) ↦ elim (Bool-cases (table.version x == version)) [
      | inl same ↦ (
        x,
        found,
        ==_sound (table.version x) version same,
        ground arith,
        ground arith,
        ground arith,
      )
      | inr other ↦ ground arith
    ]
  ]

  move_ok :
      {X B : Type 0} (table : Table (Planned X)) (c : Context) (id : ℕ) (status : PurchaseStatus)
      (version : ℕ) (after : Planned X → Tx Purchasing B) (s : Purchasing) {y : Planned X} {b : B}
      {u : Purchasing}
      → Ordering.move env auth table c id status version after s ≡ ok ((y, b), u)
      → (x : Planned X) × (t : Purchasing) × (find (is_planned c id) (table.rows s) ≡ some x)
        × (follows x.status status ≡ true)
        × (Planning.transition env table c id status version s ≡ ok (some y, t))
        × (after y t ≡ ok (b, u))
  unfolding Ordering.move
  move_ok table c id status version after s e =
      elim (Result-cases (Planning.get env table c id s)) [
        | inl ((none, t), read) ↦ ground (arith, read, e)
        | inl ((some x, t), read) ↦
            let (row, same) = get_ok table c id s read in
            elim (Bool-cases (follows x.status status)) [
              | inl edge ↦
                  elim (Result-cases (Planning.transition env table c id status version s)) [
                    | inl ((none, w), wrote) ↦ ground (arith, read, same, edge, wrote, e)
                    | inl ((some y', w), wrote) ↦ elim (Result-cases (after y' w)) [
                      | inl ((b', v), told) ↦ (
                        x,
                        w,
                        cc,
                        edge,
                        ground (arith, read, same, edge, wrote, told, e),
                        ground (arith, read, same, edge, wrote, told, e),
                      )
                      | inr (x, failed) ↦ ground (arith, read, same, edge, wrote, failed, e)
                    ]
                    | inr (x, failed) ↦ ground (arith, read, same, edge, failed, e)
                  ]
              | inr no_edge ↦ ground (arith, read, same, no_edge, e)
            ]
        | inr (x, failed) ↦ ground (arith, failed, e)
      ]

  check_action_ok :
      (action permission : String) (c : Context) (s : Purchasing) {v : Unit {0}} {t : Purchasing}
      → Ordering.check_action env auth action permission c s ≡ ok (v, t)
      → ((str_eq action permission ≡ true) ⊎ IsAuthorized env auth "purchase" c (some action))
        × (t ≡ s)
  unfolding Ordering.check_action
  check_action_ok action permission c s {v} {t} e = elim (Bool-cases (str_eq action permission)) [
    | inl same ↦ (inl same, ground (arith, same, e))
    | inr other ↦
        let asked : authorize env auth "purchase" c (some action) s ≡ ok (v, t) =
          ground (arith, other, e) in
        let (known, same) = authorize_sound env auth "purchase" c (some action) s asked in
        (inr known, same)
  ]

  -- The checks of a transition, and what its transaction then does.
  transition_steps :
      {X B : Type 0} (table : Table (Planned X)) (permission_of : PurchaseStatus → String)
      (permission : String) (c : Context) (id : ℕ) (status : PurchaseStatus) (version : ℕ)
      (after : Planned X → Tx Purchasing B) (s : Purchasing) {r : Planned X × B} {u : Purchasing}
      → Ordering.transition env auth table permission_of permission c id status version after s
        ≡ ok (r, u)
      → IsAuthorized env auth "purchase" c (some permission)
        × ((str_eq (permission_of status) permission ≡ true)
            ⊎ IsAuthorized env auth "purchase" c (some (permission_of status)))
        × (Ordering.move env auth table c id status version after s ≡ ok (r, u))
  unfolding Ordering.transition check_id
  transition_steps table permission_of permission c id status version after s e =
      elim (Result-cases (authorize env auth "purchase" c (some permission) s)) [
        | inl ((v, t), first) ↦
            let (known, same) = authorize_sound env auth "purchase" c (some permission) s first in
            elim (Result-cases
              (Ordering.check_action env auth (permission_of status) permission c s)) [
                | inl ((w, t'), second) ↦
                    let (also, same') =
                      check_action_ok (permission_of status) permission c s second in
                    (known, also, ground (arith, first, same, second, same', e))
                | inr (x, refused) ↦ ground (arith, first, same, refused, e)
              ]
        | inr (x, refused) ↦ ground (arith, refused, e)
      ]

  -- A transition of a requisition or an order that succeeds: the caller has the permission of the
  -- operation and that of the new status, the row was one of the caller's tenant and branch with
  -- the expected version, and the diagram leads from its status to the new one. That row got the
  -- status and the next version, nothing else was written, and what follows in the transaction
  -- was then done and succeeded.
  pub transition-IsMoved :
      {X B : Type 0} (table : Table (Planned X)) (permission_of : PurchaseStatus → String)
      (permission : String) (c : Context) (id : ℕ) (status : PurchaseStatus) (version : ℕ)
      (after : Planned X → Tx Purchasing B) (s : Purchasing) {y : Planned X} {b : B}
      {u : Purchasing}
      → Ordering.transition env auth table permission_of permission c id status version after s
        ≡ ok ((y, b), u)
      → (t : Purchasing) × IsMoved table permission (permission_of status) c id status version s y t
        × (after y t ≡ ok (b, u))
  unfolding Planning.transition
  transition-IsMoved table permission_of permission c id status version after s e =
      let (known, also, moved) =
        transition_steps table permission_of permission c id status version after s e in
      let (x, t, found, edge, wrote, told) = move_ok table c id status version after s moved in
      let (x', found', current, ready, changed, stored) =
        write_ok table c (is_planned c id) (λ x. true) version (with_status status) s wrote in
      let same : x ≡ x' = found_once (find (is_planned c id) (table.rows s)) found found' in
      (
        t,
        record {
          before = x';
          authorized = known;
          permitted = also;
          found = found';
          current = current;
          edge = follows-⟶ x'.status status (subst (λ z. follows z.status status ≡ true) same edge);
          after = changed;
          stored = stored;
        },
        told,
      )
