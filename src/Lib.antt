-- ===== src/Lib.antt =====
-- The server of a multi-tenant ERP system, in TypeScript over PostgreSQL: its core, the stock and
-- the sales documents from the order to the credit note, with the sessions, the scheduled jobs, the
-- approvals and the signing keys around it.
--
-- Which file models which part (paths from the repository's root):
-- - Transaction: src/domain/errors.ts, src/infrastructure/database/unit-of-work.ts and
--   tenant-context.ts. An operation is a function from a state to an error or to a value and a
--   new state; `run_in_transaction` keeps the new state on success and the old one on an error.
-- - Environment: what the code calls and does not implement, as parameters.
-- - Database: the rows of the tables, from src/domain/contracts and the repositories' columns.
-- - Authorization: the checks of src/application/services before every operation.
-- - Inventory: src/infrastructure/database/repositories/postgres-inventory-repository.ts
--   (Queries, Repository) and src/application/services/inventory-service.ts (Service). Balance
--   says what it means that stock, movements and reservations agree; Effects and Conservation
--   treat single operations, Availability the granting of a reservation, Histories sequences of
--   operations, Replay repeated calls, Isolation other tenants, Refinement an
--   abstract ledger (Ledger).
-- - Order: src/infrastructure/database/repositories/postgres-order-repository.ts (Repository) and
--   src/application/services/order-service.ts (Service), a client of the inventory through the
--   record `InventoryPort`. Lifecycle is about the statuses, Creation about new orders, Stock and
--   Reserving about the stock that an order moves.
-- - Sales: the documents that follow an order. Books has their rows, Documents and Rows what the
--   four repositories share, Ports what the services ask of the inventory, the tax provider and
--   the finance provider. Deliveries, Returns, Invoices and CreditNotes each have a Repository
--   (src/infrastructure/database/repositories/postgres-delivery-repository.ts,
--   postgres-sales-return-repository.ts, postgres-invoice-repository.ts and
--   postgres-credit-note-repository.ts) and a Service (src/application/services/delivery-service.ts,
--   sales-return-service.ts, invoice-service.ts and credit-note-service.ts). Finance is about
--   postgres-finance-repository.ts.
-- - Procurement: src/application/services/procurement-service.ts and
--   src/infrastructure/database/repositories/postgres-procurement-repository.ts, over the rows of
--   Purchasing: the receipts of goods in Service and Repository, suppliers, requisitions and orders
--   in Writing, Suppliers, Ordering and Planning. Outstanding, Room, Standing, Effects, Requests,
--   Changes and Life are about what an order has left to come in, Moves about the statuses of
--   requisitions and orders, Stock about the inventory behind a completed receipt.
-- - Accounts: Rows has the tables of identities, users, memberships and tokens. Credentials,
--   Contexts and Login are src/application/services/unified-authentication-service.ts and its part
--   of src/infrastructure/database/repositories/postgres-platform-repository.ts, whose queries
--   commit one by one; Attempts, Counting and Lockout are about guessed
--   passwords, Entitled, Own, Selection
--   and Admission about what a login gives. Recovery and Service are
--   src/infrastructure/database/repositories/postgres-account-security-repository.ts and
--   src/application/services/account-security-service.ts, with Resets, Single and Tokens. Mfa and
--   Factors are src/application/services/mfa-service.ts and its repository.
-- - Session: src/application/services/refresh-token-rotation-service.ts.
-- - Workers: src/application/services/scheduler-worker.ts and the job store of
--   src/infrastructure/database/repositories/postgres-operational-workers.ts.
-- - Delivery: src/application/services/outbox-dispatcher.ts and the outbox store of
--   src/infrastructure/database/repositories/postgres-operational-workers.ts.
-- - Approval: `decide` of src/infrastructure/database/repositories/postgres-workflow-repository.ts.
-- - KeyRing: src/infrastructure/security/rotating-jwt-key-ring.ts.
-- - Totp: src/infrastructure/security/totp.ts; RoundTrip and Secrets are about Base32, Window about
--   the codes that are accepted.
-- - Common, Example: shared names and lemmas, and the data of the tests.
--
-- How the state corresponds to the code: a table is a list of rows, newest first where no file
-- says otherwise, or a function of its primary or unique key; a query that names a primary key
-- acts on the first row with it. Unique constraints and CHECKs are written out where a modelled
-- query can break them. Identifiers and texts that the code only compares are numbers,
-- quantities are counted in units of 0.0001, amounts in the smallest unit of their column where
-- the code adds floating point numbers, times in milliseconds. Transactions are serial: the
-- locks that the code takes (FOR UPDATE) are what it relies on for that, and they are not
-- modelled. A login is no transaction: Lockout puts the statements of other logins between its
-- own, elsewhere it runs by itself. A statement that names what the schema does not have, or
-- gives an INSERT too many values, ends in an error, and the code after it is left out.
--
-- There is no fuel: every loop goes along a list, or for a number of rounds that the code fixes.
--
-- Not modelled: the HTTP layer, the frontend, the paged lists, prices and taxes, quotations,
-- personnel and manufacturing, and the administration of the platform.
pub mod Accounts
pub mod Approval
pub mod Authorization
pub mod Common
pub mod Database
pub mod Delivery
pub mod Environment
pub mod Example
pub mod Inventory
pub mod KeyRing
pub mod Order
pub mod Procurement
pub mod Sales
pub mod Session
pub mod Totp
pub mod Transaction
pub mod Workers
