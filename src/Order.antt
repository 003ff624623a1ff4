-- ===== src/Order.antt =====
-- The orders of a merchant: apps/api/src/orders.
pub mod Lifecycle
pub mod Saved
pub mod Drafts
pub mod References
pub mod Desired
pub mod Items
pub mod Confirmed
pub mod Stocked
pub mod Refused
pub mod Cancelled
pub mod Service
