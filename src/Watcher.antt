-- ===== src/Watcher.antt =====
-- apps/worker/src/jobs/stellar-watcher.ts: the job that polls the payments to the receiving account
-- and settles the orders that they are for. Redis keeps one value here, the cursor.
pub mod Escrow
pub mod Settling
pub mod Matches
pub mod Settled
mod Tests
use xgamefi.Prelude.{
  ℕ, ◌+◌, Bool, true, false, not, ◌&&◌, Option, none, some, List, [], ◌∷◌, ◌++◌, Text,
  if◌then◌else◌, where_is, find_last, text_eq,
}
use xgamefi.Schema.{Uuid, TxHash, PaymentStatus, Order}
use xgamefi.World.{
  World, External, Lookup, found, missing, broken, HorizonTx, PaymentRecord, Result, ok, err, M,
  Failure, fetch_failed, pure, throw,
}
use xgamefi.Stellar.{truncate_text_memo}
use xgamefi.Orders.{AdvanceResult, paid, already, declined, verify_and_advance_order}

-- A payment as the watcher keeps it, and an order with the transaction that pays it.
pub record Watched : Type 0 where
  pub memo : Option Text
  pub tx_hash : Option TxHash

pub record Match : Type 0 where
  pub id : Uuid
  pub tx_hash : TxHash

-- The `Map` from the cut ids to the ids: of two equal keys the later one stands.
abbrev pub pending_id : External → List Uuid → Text → Option Uuid
pending_id x ids memo = find_last (λ i. text_eq (truncate_text_memo (x.uuid_text i)) memo) ids

abbrev pub match_hash : Option Uuid → Option TxHash → List Match
match_hash none h = []
match_hash (some i) none = []
match_hash (some i) (some h) = record { id = i; tx_hash = h } ∷ []

-- An empty memo is no memo.
abbrev pub match_one : External → List Uuid → Option Text → Option TxHash → List Match
match_one x ids none h = []
match_one x ids (some []) h = []
match_one x ids (some (c ∷ cs)) h = match_hash (pending_id x ids (c ∷ cs)) h

unfoldable pub match_and_advance_payments : External → List Uuid → List Watched → List Match
match_and_advance_payments x ids [] = []
match_and_advance_payments x ids (p ∷ ps) =
    match_one x ids p.memo p.tx_hash ++ match_and_advance_payments x ids ps

-- A transaction that cannot be fetched is logged and left out.
abbrev pub watched : Lookup HorizonTx → List Watched
watched (found tx) = record { memo = tx.memo; tx_hash = some tx.hash } ∷ []
watched missing = []
watched broken = []

abbrev pub fetch_all : External → List PaymentRecord → List Watched
fetch_all x [] = []
fetch_all x (r ∷ rs) = watched (x.transaction r.transaction_hash) ++ fetch_all x rs

-- The cursor after the records: the last record's, whether its transaction was fetched or not.
abbrev pub next_cursor : Option ℕ → List PaymentRecord → Option ℕ
next_cursor c [] = c
next_cursor c (r ∷ rs) = next_cursor (some r.paging_token) rs

abbrev pub is_order_pending : PaymentStatus → Bool
is_order_pending PaymentStatus.pending = true
is_order_pending _ = false

abbrev pub ids_of : List Order → List Uuid
ids_of [] = []
ids_of (o ∷ os) = o.id ∷ ids_of os

abbrev pub pending_orders : World → List Uuid
pending_orders w = ids_of (where_is (λ o. is_order_pending o.payment_status) w.db.orders)

abbrev pub processed_by : Result AdvanceResult → ℕ
processed_by (ok (paid i r)) = 1
processed_by (ok (already i)) = 1
processed_by (ok (declined reason)) = 0
processed_by (err e) = 0

-- The loop over the matches: an error of one is logged, and the next one follows.
unfoldable pub advance_all : External → List Match → World → ℕ × World
advance_all x [] w = (0, w)
advance_all x (m ∷ ms) w =
    let (r, w') = verify_and_advance_order x m.id m.tx_hash w in
    let (n, w'') = advance_all x ms w' in (processed_by r + n, w'')

pub record Watch : Type 0 where
  pub processed : ℕ
  pub cursor : Option ℕ
  -- what Redis holds at the end
  pub stored : Option ℕ

abbrev pub or_stored : Option ℕ → Option ℕ → Option ℕ
or_stored none stored = stored
or_stored (some c) stored = some c

-- `if (nextCursor) await redis.set(…)`
abbrev pub store_cursor : Option ℕ → Option ℕ → Option ℕ
store_cursor next stored = or_stored next stored

abbrev pub watch_records : External → Option ℕ → Option (List PaymentRecord) → M Watch
watch_records x stored none w = (err fetch_failed, w)
watch_records x stored (some records) w =
    let next = next_cursor none records in
    let (n, w') =
      advance_all x (match_and_advance_payments x (pending_orders w) (fetch_all x records)) w in
    (ok (record { processed = n; cursor = next; stored = store_cursor next stored }), w')

-- The job's own cursor, or else the stored one, is where the poll starts.
unfoldable pub stellar_watcher_processor : External → Option ℕ → Option ℕ → M Watch
stellar_watcher_processor x cursor stored =
    watch_records x stored (x.payments_after (or_stored cursor stored))
