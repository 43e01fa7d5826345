-- ===== src/Sales.antt =====
-- The sales documents that follow an order: deliveries, sales returns, invoices and credit notes.
pub mod Books
pub mod Documents
pub mod Ports
pub mod Deliveries
pub mod Returns
pub mod Invoices
pub mod CreditNotes
pub mod Rows
pub mod Finance
mod Tests
