-- ===== src/Queries.antt =====
-- The lists that the dashboards and the storefront read: apps/web/lib/order-queries.ts,
-- player-order-queries.ts and p2p-queries.ts.
pub mod Paging
pub mod Cursor
pub mod Newest
pub mod Orders
pub mod Read
mod Tests
