-- ===== src/World.antt =====
-- The state that the services share, and the calls on it. A call returns a value or throws, and
-- the world comes back either way, since what was written stays written; `transaction` is
-- `prisma.$transaction`, which puts the database back when its body throws.
-- The jobs are the log of `Queue.add` calls (packages/shared/src/queues.ts): BullMQ drops an `add`
-- whose job id is waiting, and the job ids of the source are one for each constructor and id.
-- `mock_delivery` is the call of `deliverMockGameWebhook` that `settlement.ts` starts and does not
-- await. `rows` counts the rows created, from which the database makes the next id.
-- The clock stands still during one call.
mod State
mod Monad
pub use State.*
unfoldable pub use Monad.*
