-- ===== src/Lib.antt =====
-- A commerce backend for games: shops sell items to players for XLM or USDT on Stellar, the platform
-- collects the payments, pays the studios, rewards referrals, and holds the money of trades between
-- players in escrow. The modules model the parts that move money
-- and items, and those that guard them.
--
-- Parts and files:
--   Schema      packages/db/prisma/schema.prisma: the rows and the enumerations.
--   Money       packages/shared/src/money.ts: fees and net amounts.
--   Promotions  packages/shared/src/promotions/applyPromotion.ts, and the choice of the best
--               promotion in apps/web/lib/checkout-queries.ts.
--   Checkout    apps/web/lib/checkout-queries.ts: `createOrderQuote`.
--   Stellar     packages/shared/src/stellar.ts: memos, `verifyPayment`, `sendPayment`.
--   Orders      packages/shared/src/settlement.ts: `verifyAndAdvanceOrder`.
--   Webhooks    apps/worker/src/jobs/webhook-delivery.ts and packages/shared/src/mock-webhook.ts.
--   Jobs        apps/worker/src/jobs: payout.ts, refund.ts, referral-reward/processor.ts.
--   Trades      packages/shared/src/p2p/ownership.ts, packages/shared/src/p2p/settlement.ts, and
--               `createListing` and `createTradeQuote` of apps/web/lib/p2p-queries.ts.
--   Watcher     apps/worker/src/jobs/stellar-watcher.ts and apps/worker/src/jobs/p2p-settlement.ts.
--   Catalogue   packages/shared/src/catalogue/upsert.ts, apps/worker/src/jobs/catalogue-sync.ts and
--               apps/worker/src/jobs/stock-sync.ts.
--   Idempotency packages/shared/src/idempotency.ts.
--   Access      apps/web/lib/auth/ratelimit.ts, packages/shared/src/auth/ratelimit-keys.ts,
--               apps/web/lib/auth/guards.ts, apps/web/lib/auth/session.ts (Sessions), and the wallet
--               login of packages/shared/src/auth/wallet.ts and apps/web/app/api/v1/auth/wallet
--               (Wallet).
--   Books       the ledger behind the orders, over any sequence of the calls of Checkout, Orders,
--               Webhooks and Jobs.
--   Signatures  packages/shared/src/hmac.ts.
--   Ssrf        packages/shared/src/ssrf.ts: the guard of requests to addresses that studios enter.
--   Ingest      packages/shared/src/apikey.ts, apps/web/lib/ingest-auth.ts, and the routes
--               ingest/items and studios/[id]/api-keys of apps/web/app/api/v1.
--   Referrals   apps/web/app/api/v1/referrals: codes, bindings and the summary.
--   Settings    packages/shared/src/settings.ts: the platform's settings.
--   Routes      apps/web/app/api/v1: auth/login/route.ts and the patch of studios/[id]/route.ts.
--   Queries     apps/web/lib/order-queries.ts, apps/web/lib/player-order-queries.ts and
--               `getStudioP2PListings` of apps/web/lib/p2p-queries.ts.
--   Metrics     packages/shared/src/metrics.ts.
--   Prelude has the shared lists, integers, texts and Boolean tests; World the database, the queues,
--   the sent payments and the monad of calls that may throw; Samples a small world for the tests.
--
-- How the parts interact: a quote creates a pending order and asks for a payment. The watcher, or the
-- buyer's submission, calls `verifyAndAdvanceOrder`, which checks the payment on Horizon, marks the
-- order paid, books it in the ledger and queues the payout and the webhook; those jobs pay the studio
-- and tell the game. A webhook that gives up queues the refund. A trade goes from its quote through
-- escrow to the transfer of the item, which queues the webhook or the refund: Trades/Lifecycle has
-- these calls as the steps of a relation, in any order, and Watcher/Settling shows that the jobs are
-- such steps. A login of Routes goes through the counters and the sessions of Access, a patch of a
-- studio through its guards and through Ssrf.
--
-- Correspondence: a function keeps its name in snake case. The state is `World`: the tables, the
-- queued jobs, the payments that the network accepted, the published events, the clock, and the
-- number of rows, from which new ids are made. A call is `World → Result A × World`; a `throw` is a
-- constructor of `Failure`; a database transaction restores the tables when its body throws, and
-- leaves what was sent or queued. An id, a hash and an address are numbers. An amount is a whole
-- number of stroops (10^-7), which is what the `Decimal(38,7)` columns hold. A text is the list of
-- its bytes.
--
-- What is outside the repository is a field of `External` (World/State): the environment, Horizon's
-- answers, the network's answer to a submission, a studio's answer to a request, the inventory of a
-- game, whether the SDK can build a transaction, whether the database takes a write that follows a
-- payment or brings in a catalogue, and whether Redis takes a job of a trade's transfer. Elsewhere
-- the database and the queues are taken to answer: a call that throws for want of them, as an order
-- whose payment is booked and whose jobs no queue takes, is not modelled. What a game changes in its
-- own inventory is not in the state either. The theorems hold for every such function.
-- Keys, hashes, DNS, `isIP`, URL parsing, `fetch` and Redis are parameters of the modules that use
-- them, with their documented laws as fields of a record where a law is needed. The
-- Stellar SDK, Prisma, Redis and BullMQ are used as documented: `findUnique` finds the first row,
-- `updateMany` changes every matching row. The queue of the model keeps a job that is added twice
-- twice, where BullMQ merges the two by their id while it holds the first.
--
-- Loops run over a list or down from a number, but for three on fuel: the digits of a number get the
-- number itself, `isBlockedIp`, which calls itself on a mapped address, gets one call more than the
-- text is long, and a client that reads page after page gets the number of its calls as an argument,
-- which Queries/Read shows to be enough at one more than there are orders. The creation times that
-- order those rows are a parameter; rows of the same time are in no promised order.
--
-- Not modelled: the pages, the route handlers but for those under Routes, Ingest,
-- Referrals and Access/Wallet, the data transfer objects, the schemas of requests, the text of
-- cookies, and the layout builder. Two database transactions do not interleave in the model, but
-- the claims of wallet challenges do. A payment's text amount, of seven places, is its number of
-- stroops. Signature times are numbers that a double holds exactly, and JSON is the value it stands
-- for.
pub mod Prelude
pub mod Schema
pub mod Money
pub mod Promotions
pub mod World
pub mod Stellar
pub mod Webhooks
pub mod Orders
pub mod Signatures
pub mod Ssrf
pub mod Samples
pub mod Checkout
pub mod Jobs
pub mod Trades
pub mod Watcher
pub mod Idempotency
pub mod Access
pub mod Catalogue
pub mod Queries
pub mod Books
pub mod Ingest
pub mod Referrals
pub mod Settings
pub mod Metrics
pub mod Routes
