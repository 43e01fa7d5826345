-- ===== src/Procurement.antt =====
-- Suppliers, requisitions, purchase orders, and the receipts of goods against them.
pub mod Purchasing
pub mod Repository
pub mod Planning
pub mod Writing
pub mod Suppliers
pub mod Ordering
pub mod Service
pub mod Outstanding
pub mod Room
pub mod Standing
pub mod Effects
pub mod Requests
pub mod Moves
pub mod Changes
pub mod Life
pub mod Stock
mod Tests
