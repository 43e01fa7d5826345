-- ===== src/Order.antt =====
-- The sales order component: its repository, its service, and its life cycle.
pub mod Repository
pub mod Service
pub mod Lifecycle
pub mod Creation
pub mod Stock
pub mod Reserving
mod Tests
