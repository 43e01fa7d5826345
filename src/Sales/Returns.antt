-- ===== src/Sales/Returns.antt =====
-- The sales returns: their repository, their service and what processing one does.
pub mod Repository
pub mod Service
pub mod Processing
pub mod Stock
