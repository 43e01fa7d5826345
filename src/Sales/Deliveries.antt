-- ===== src/Sales/Deliveries.antt =====
-- The deliveries: their repository, their service and their life cycle.
pub mod Repository
pub mod Service
pub mod Life
