-- ===== src/Watcher/Settling.antt =====
-- The jobs of trades as steps of the market.
use xgamefi.Prelude.{ℕ, ◌≡◌, refl, sym, subst, Option, none, some, List, [], ◌∷◌}
use xgamefi.Schema.{Uuid}
use xgamefi.World.{World, External, PaymentRecord, Result, ok, err}
use xgamefi.Trades.Settlement.{TransferResult, transfer_item_and_payout}
use xgamefi.Trades.Lifecycle.{escrow, transfer, Steps, here, then}
use xgamefi.Watcher.{or_stored}
use xgamefi.Watcher.Escrow.{
  P2pJob, P2pJob.transfer, verify, poll, verify_records, verify_record, id_of_memo, poll_records,
  pending_trades, transfer_end, p2p_settlement_processor,
}

verify_records-Steps :
    (x : External) (ids : List Uuid) (rs : List PaymentRecord) (w : World)
    → Steps x w (verify_records x ids rs w)
unfolding verify_records
verify_records-Steps x ids [] w = here
verify_records-Steps x ids (r ∷ rs) w = verified (id_of_memo x ids r.transaction_memo) (
    verify_records-Steps x ids rs
      (verify_record x (id_of_memo x ids r.transaction_memo) r.transaction_hash w))
  where
    verified :
        (o : Option Uuid) {w' : World}
        → Steps x (verify_record x o r.transaction_hash w) w'
        → Steps x w w'
    verified none rest = rest
    verified (some i) rest = then (escrow i r.transaction_hash w) rest

poll_records-Steps :
    (x : External) (stored : Option ℕ) (answer : Option (List PaymentRecord)) (w : World)
    → Steps x w (poll_records x stored answer w).1
poll_records-Steps x stored none w = here
poll_records-Steps x stored (some rs) w = verify_records-Steps x (pending_trades w) rs w

transfer_end-world : (r : Result TransferResult) (w : World) → (transfer_end (r, w)).1 ≡ w
transfer_end-world (ok r) w = refl
transfer_end-world (err e) w = refl

-- A job of the trade queue is a sequence of steps of the market, whatever it is given.
pub p2p_settlement_processor-Steps :
    (x : External) (job : P2pJob) (stored : Option ℕ) (w : World)
    → Steps x w (p2p_settlement_processor x job stored w).1
unfolding p2p_settlement_processor
p2p_settlement_processor-Steps x (P2pJob.transfer i) stored w =
    let (r, w') = transfer_item_and_payout x i w in
    subst (Steps x w) (sym (transfer_end-world r w')) (then (transfer i w) here)
p2p_settlement_processor-Steps x (verify i) stored w =
    poll_records-Steps x stored (x.payments_after stored) w
p2p_settlement_processor-Steps x (poll cursor) stored w =
    poll_records-Steps x stored (x.payments_after (or_stored cursor stored)) w
