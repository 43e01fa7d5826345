-- ===== src/Inventory.antt =====
-- The inventory component: its repository, the state that each operation leaves, and what holds
-- of stock, reservations and movements.
pub mod Queries
pub mod Repository
pub mod Balance
pub mod Effects
pub mod Conservation
pub mod Histories
pub mod Replay
pub mod Service
pub mod Isolation
pub mod Availability
pub mod Ledger
pub mod Refinement
mod Tests
