-- ===== src/Inventory.antt =====
-- The stock of a merchant: apps/api/src/inventory.
pub mod Queries
pub mod Allocation
pub mod Movement
pub mod Stock
pub mod Holds
pub mod View
pub mod Service
