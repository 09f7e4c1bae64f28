-- ===== src/Trades.antt =====
-- The player-to-player market: packages/shared/src/p2p, and the listing and the quote of
-- apps/web/lib/p2p-queries.ts. The request to a studio's server is `External.post` and
-- `External.inventory`.
pub mod Ownership
pub mod Settlement
pub mod Quote
pub mod Reservation
pub mod Transfer
pub mod Custody
pub mod Escrow
pub mod Lifecycle
pub mod Funded
mod Tests
mod LifecycleTests
