-- ===== src/Payment.antt =====
-- The payments that a merchant records against an order: apps/api/src/payments.
pub mod Transactions
pub mod Summary
pub mod Lifecycle
pub mod Replay
pub mod Provider
pub mod Verification
pub mod Service
