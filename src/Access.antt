-- ===== src/Access.antt =====
-- Who may do what, and how often.
pub mod RateLimit
pub mod Sessions
pub mod Wallet
pub mod Guards
pub mod Samples
mod Tests
mod LoginTests
