-- ===== src/Watcher/Escrow.antt =====
-- apps/worker/src/jobs/p2p-settlement.ts: the job that transfers an item, and the one that polls
-- for the escrow payments of trades.
use xgamefi.Prelude.{
  ℕ, ◌≤◌, ◌<◌, ◌≡◌, inl, inr, refl, arith, ap, Option, none, some, List, [], ◌∷◌, Text, length, All,
  where_is, find, text_eq, text_eq_sound, Option-cases, find-accepts,
}
use xgamefi.Schema.{Uuid, TxHash, Trade}
use xgamefi.World.{World, External, PaymentRecord, Result, ok, err, M, fetch_failed}
use xgamefi.Trades.Settlement.{
  is_pending, TransferResult, transfer_item_and_payout, verify_and_advance_p2p_trade,
}
use xgamefi.Watcher.{or_stored, store_cursor, next_cursor}

pub data P2pJob : Type 0 where
  transfer verify : Uuid → P2pJob
  poll : Option ℕ → P2pJob

-- How a job ends: with the status of the transfer, or `ok` with what Redis holds.
pub data P2pResult : Type 0 where
  transferred : TransferResult → P2pResult
  polled : Option ℕ → P2pResult

abbrev pub trade_ids : List Trade → List Uuid
trade_ids [] = []
trade_ids (t ∷ ts) = t.id ∷ trade_ids ts

abbrev pub pending_trades : World → List Uuid
pending_trades w = trade_ids (where_is (λ t. is_pending t.status) w.db.trades)

-- `pendingIds.has(memo)`: the id whose text is the memo.
abbrev pub id_of_memo : External → List Uuid → Option Text → Option Uuid
id_of_memo x ids none = none
id_of_memo x ids (some []) = none
id_of_memo x ids (some (c ∷ cs)) = find (λ i. text_eq (x.uuid_text i) (c ∷ cs)) ids

-- An error of one trade is logged, and the next record follows.
abbrev pub verify_record : External → Option Uuid → TxHash → World → World
verify_record x none h w = w
verify_record x (some i) h w = (verify_and_advance_p2p_trade x i h w).1

unfoldable pub verify_records : External → List Uuid → List PaymentRecord → World → World
verify_records x ids [] w = w
verify_records x ids (r ∷ rs) w =
    verify_records x ids rs
      (verify_record x (id_of_memo x ids r.transaction_memo) r.transaction_hash w)

abbrev pub poll_records : External → Option ℕ → Option (List PaymentRecord) → M P2pResult
poll_records x stored none w = (err fetch_failed, w)
poll_records x stored (some rs) w = (
  ok (polled (store_cursor (next_cursor none rs) stored)),
  verify_records x (pending_trades w) rs w,
)

abbrev pub transfer_end : Result TransferResult × World → Result P2pResult × World
transfer_end (ok r, w) = (ok (transferred r), w)
transfer_end (err e, w) = (err e, w)

-- A job with the phase `verify` polls too, from the stored cursor.
unfoldable pub p2p_settlement_processor : External → P2pJob → Option ℕ → M P2pResult
p2p_settlement_processor x (transfer i) stored w = transfer_end (transfer_item_and_payout x i w)
p2p_settlement_processor x (verify i) stored w = poll_records x stored (x.payments_after stored) w
p2p_settlement_processor x (poll cursor) stored w =
    poll_records x stored (x.payments_after (or_stored cursor stored)) w

-- The memo of a record fits into a text memo of the network.
abbrev pub Fits : PaymentRecord → Type 0
Fits r = (memo : Text) → r.transaction_memo ≡ some memo → length memo ≤ 28

long_id_unmatched :
    (x : External) (ids : List Uuid) (memo : Option Text)
    → ((i : Uuid) → 28 < length (x.uuid_text i))
    → ((m : Text) → memo ≡ some m → length m ≤ 28)
    → id_of_memo x ids memo ≡ none
long_id_unmatched x ids none long fits = refl
long_id_unmatched x ids (some []) long fits = refl
long_id_unmatched x ids (some (c ∷ cs)) long fits =
    let test = λ (i : Uuid). text_eq (x.uuid_text i) (c ∷ cs) in
    elim (Option-cases (find test ids)) [
      | inl e ↦ e
      | inr (i, e) ↦
          let same = text_eq_sound (x.uuid_text i) (c ∷ cs) (find-accepts test ids i e) in
          absurd (omega (arith, long i, fits (c ∷ cs) refl, ap length same))
    ]

verify_records_idle :
    (x : External) (ids : List Uuid) (rs : List PaymentRecord) (w : World)
    → ((i : Uuid) → 28 < length (x.uuid_text i))
    → All Fits rs
    → verify_records x ids rs w ≡ w
unfolding verify_records
verify_records_idle x ids [] w long fits = refl
verify_records_idle x ids (r ∷ rs) w long (fit, fits) =
    rw (long_id_unmatched x ids r.transaction_memo long fit)
      (verify_records_idle x ids rs w long fits)

-- With ids that are longer than 28 bytes, as UUIDs are, a poll for escrow payments whose memos fit
-- into 28 bytes, as memos do, changes nothing but the cursor, whatever was paid.
pub p2p_settlement_processor_idle :
    (x : External) (cursor stored : Option ℕ) (rs : List PaymentRecord) (w : World)
    → ((i : Uuid) → 28 < length (x.uuid_text i))
    → x.payments_after (or_stored cursor stored) ≡ some rs
    → All Fits rs
    → p2p_settlement_processor x (poll cursor) stored w
      ≡ (ok (polled (store_cursor (next_cursor none rs) stored)), w)
unfolding p2p_settlement_processor
p2p_settlement_processor_idle x cursor stored rs w long got fits =
    rw got (rw (verify_records_idle x (pending_trades w) rs w long fits))
