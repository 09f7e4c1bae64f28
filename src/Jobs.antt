-- ===== src/Jobs.antt =====
-- The processors of the worker's queues, apps/worker/src/jobs.
pub mod Payout
pub mod Refund
pub mod Reward
pub mod Payments
pub mod Once
pub mod TradeRefund
mod Tests
