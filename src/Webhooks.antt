-- ===== src/Webhooks.antt =====
-- The delivery of webhooks to the studios' servers.
pub mod Url
pub mod Mock
pub mod Delivery
pub mod Attempts
mod Tests
