-- ===== src/Delivery.antt =====
-- The deliveries of confirmed orders: apps/api/src/deliveries.
pub mod Jobs
pub mod Attempts
pub mod Creation
pub mod OneEach
pub mod Lifecycle
pub mod Recording
