-- ===== src/Sales/CreditNotes.antt =====
-- The credit notes: their repository and their service.
pub mod Repository
pub mod Service
