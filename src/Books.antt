-- ===== src/Books.antt =====
-- The ledger behind the status of an order, over any sequence of the calls of `Checkout`, `Orders`,
-- `Jobs` and `Webhooks`.
pub mod Quoting
pub mod Delivering
pub mod Booked
mod Tests
