-- ===== src/Delivery.antt =====
-- What is delivered to the outside: src/application/services/outbox-dispatcher.ts over the outbox
-- store of src/infrastructure/database/repositories/postgres-operational-workers.ts.
pub mod Outbox
pub mod Once
mod Tests
