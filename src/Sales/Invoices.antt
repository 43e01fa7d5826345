-- ===== src/Sales/Invoices.antt =====
-- The invoices: their repository, their service and what issuing one writes.
pub mod Repository
pub mod Service
pub mod Settling
pub mod Issue
pub mod Settled
