-- ===== src/Trades/Lifecycle.antt =====
-- The life of a trade: the calls of the quote, the escrow, the transfer and the refund in any
-- order, against the diagram of the trade's status.
use xgamefi.Prelude.{
  ◌≡◌, ◌⊎◌, inl, inr, refl, ap, subst, ◌∙◌, true, Option, none, some, List, [], ◌∷◌, ◌++◌, ◌==◌,
  find, find-update_cases, find-append_cases, update, ⊤,
}
use xgamefi.Schema.{Uuid, TxHash, Trade, TradeStatus, LedgerEntry}
use xgamefi.World.{World, External, Result, ok, err}
use xgamefi.Checkout.Payment.{PaymentQuote}
use xgamefi.Jobs.Refund.{find_trade, refund_processor}
use xgamefi.Jobs.TradeRefund.{RefundsTrade, refund_processor-RefundsTrade}
use xgamefi.Trades.Quote.{create_trade_quote}
use xgamefi.Trades.Reservation.{Reserves, create_trade_quote-Reserves}
use xgamefi.Trades.Settlement.{
  EscrowResult, paid, already, declined, TransferResult, completed, transfer_failed, is_pending,
  is_paid, mark_escrow, verify_and_advance_p2p_trade, transfer_item_and_payout,
}
use xgamefi.Trades.Escrow.{Escrows, verify_and_advance_p2p_trade-Escrows}
use xgamefi.Trades.Transfer.{
  IsTransfer, nothing, sent_only, untold, Transfers, transfer_item_and_payout-Transfers,
}

-- One call of the market, or one of another part, which leaves the trades and adds to the ledger.
pub data Step (x : External) : World → World → Type 0 where
  quote : (buyer listing : Uuid) (w : World) → Step x w (create_trade_quote x buyer listing w).1
  escrow : (i : Uuid) (h : TxHash) (w : World) → Step x w (verify_and_advance_p2p_trade x i h w).1
  transfer : (i : Uuid) (w : World) → Step x w (transfer_item_and_payout x i w).1
  refund : (i : Uuid) (w : World) → Step x w (refund_processor x none (some i) w).1
  elsewhere :
      (w w' : World) (es : List LedgerEntry)
      → w'.db.trades ≡ w.db.trades
      → w'.db.ledger ≡ w.db.ledger ++ es
      → Step x w w'

pub data Steps (x : External) : World → World → Type 0 where
  here : {w : World} → Steps x w w
  then : {w w' w'' : World} → Step x w w' → Steps x w' w'' → Steps x w w''

-- The diagram: a trade is opened, paid and completed, and may be refunded at any time.
pub data Moves : Option TradeStatus → Option TradeStatus → Type 0 where
  opens : Moves none (some TradeStatus.escrow_pending)
  pays : Moves (some TradeStatus.escrow_pending) (some TradeStatus.paid)
  completes : Moves (some TradeStatus.paid) (some TradeStatus.completed)
  refunds : {s : TradeStatus} → Moves (some s) (some TradeStatus.refunded)

pub data Route : Option TradeStatus → Option TradeStatus → Type 0 where
  stays : {s : Option TradeStatus} → Route s s
  moves : {s s' s'' : Option TradeStatus} → Moves s s' → Route s' s'' → Route s s''

abbrev pub status_of : Option Trade → Option TradeStatus
status_of none = none
status_of (some t) = some t.status

-- What became of the trade `j` in a step: nothing, or a move of the diagram.
abbrev Follows : Uuid → World → World → Type 0
Follows j w w' =
    (find_trade j w'.db ≡ find_trade j w.db)
    ⊎ Moves (status_of (find_trade j w.db)) (status_of (find_trade j w'.db))

-- Where the row of `i` was changed, the trade `j` is that one, changed, or it is as before.
pub changed :
    (w w' : World) (i j : Uuid) (t : Trade) (f : Trade → Trade)
    → ((r : Trade) → (f r).id ≡ r.id)
    → find_trade i w.db ≡ some t
    → w'.db.trades ≡ update (λ r. r.id == t.id) f w.db.trades
    → ((find_trade j w.db ≡ some t) × (find_trade j w'.db ≡ some (f t)))
      ⊎ (find_trade j w'.db ≡ find_trade j w.db)
changed w w' i j t f keeps found rows =
    rw rows (find-update_cases (λ r. r.id) f i j w.db.trades t keeps found)

pub pending_status : (s : TradeStatus) → is_pending s ≡ true → s ≡ TradeStatus.escrow_pending
pending_status TradeStatus.escrow_pending h = refl
pending_status _ h = cc

pub paid_status : (s : TradeStatus) → is_paid s ≡ true → s ≡ TradeStatus.paid
paid_status TradeStatus.paid h = refl
paid_status _ h = cc

change-Follows :
    (w w' : World) (i j : Uuid) (t : Trade) (f : Trade → Trade)
    → ((r : Trade) → (f r).id ≡ r.id)
    → find_trade i w.db ≡ some t
    → w'.db.trades ≡ update (λ r. r.id == t.id) f w.db.trades
    → Moves (some t.status) (some (f t).status)
    → Follows j w w'
change-Follows w w' i j t f keeps found rows m = elim (changed w w' i j t f keeps found rows) [
  | inr same ↦ inl same
  | inl (before, after) ↦ inr (rw (before, after) m)
]

module _ (x : External) (j : Uuid) where
  quote-Follows :
      (buyer i : Uuid) (w w' : World) (r : Result (Trade × PaymentQuote))
      → Reserves x buyer i w (r, w')
      → Follows j w w'
  quote-Follows buyer i w w' r (inl (same, ends)) = inl (ap (λ v. find_trade j v.db) same)
  quote-Follows buyer i w w' r (inr q) =
      let at_j : find_trade j w'.db ≡ find (λ r. r.id == j) (w.db.trades ++ q.trade ∷ []) =
        ap (find (λ r. r.id == j)) q.created in
      elim (find-append_cases (λ r. r.id) j q.trade w.db.trades) [
        | inl same ↦ inl (at_j ∙ same)
        | inr (missing, given) ↦
            let status : q.trade.status ≡ TradeStatus.escrow_pending =
              ap (λ t. t.status) q.fresh_trade in
            inr (rw (missing, at_j ∙ given, status) opens)
      ]

  escrow-Follows :
      (i : Uuid) (h : TxHash) (w w' : World) (r : Result EscrowResult)
      → Escrows x i h w (r, w')
      → Follows j w w'
  escrow-Follows i h w w' (ok paid) e =
      let start = pending_status e.trade.status e.pending in
      change-Follows w w' i j e.trade (mark_escrow h) (λ r. refl) e.found e.rows (rw start pays)
  escrow-Follows i h w w' (ok already) e = inl (ap (λ v. find_trade j v.db) e)
  escrow-Follows i h w w' (ok (declined reason)) e = inl (ap (λ v. find_trade j v.db) e)
  escrow-Follows i h w w' (err failure) e = inl (ap (λ v. find_trade j v.db) e)

  completed-Follows : (i : Uuid) (w w' : World) → IsTransfer x i w w' → Follows j w w'
  completed-Follows i w w' e =
      let start = paid_status e.trade.status e.was_paid in
      change-Follows w w' i j e.trade _ (λ r. refl) e.trade_found e.rows (rw start completes)

  transfer-Follows :
      (i : Uuid) (w w' : World) (r : Result TransferResult)
      → Transfers x i w (r, w')
      → Follows j w w'
  transfer-Follows i w w' (ok completed) (e, queued) = completed-Follows i w w' e
  transfer-Follows i w w' (ok transfer_failed) e = inl (ap (λ v. find_trade j v.db) e)
  transfer-Follows i w w' (err failure) (nothing e) = inl (ap (λ v. find_trade j v.db) e)
  transfer-Follows i w w' (err failure) (sent_only e) = inl (ap (λ v. find_trade j v.db) e.sent)
  transfer-Follows i w w' (err failure) (untold e kept) = completed-Follows i w w' e

  refund-Follows :
      (i : Uuid) (w w' : World) (r : Result ⊤) → RefundsTrade x i w (r, w') → Follows j w w'
  refund-Follows i w w' (ok a) e =
      change-Follows w w' i j e.trade _ (λ r. refl) e.trade_found e.rows refunds
  refund-Follows i w w' (err failure) (inl e) = inl (ap (λ v. find_trade j v.db) e)
  refund-Follows i w w' (err failure) (inr (t, buyer, f, b, e)) =
      inl (ap (λ v. find_trade j v.db) e)

  Step-Follows : {w w' : World} → Step x w w' → Follows j w w'
  Step-Follows (quote buyer i w) =
      quote-Follows buyer i w _ _ (create_trade_quote-Reserves x buyer i w)
  Step-Follows (escrow i h w) =
      escrow-Follows i h w _ _ (verify_and_advance_p2p_trade-Escrows x i h w)
  Step-Follows (transfer i w) = transfer-Follows i w _ _ (transfer_item_and_payout-Transfers x i w)
  Step-Follows (refund i w) = refund-Follows i w _ _ (refund_processor-RefundsTrade x i w)
  Step-Follows (elsewhere w w' es trades ledger) = inl (ap (find (λ r. r.id == j)) trades)

  -- Through any sequence of quotes, escrow payments, transfers, refunds and calls of other parts,
  -- the status of each trade takes a route of the diagram: opened, paid, completed, and refunded
  -- from anywhere.
  pub Steps-Route :
      {w w' : World}
      → Steps x w w'
      → Route (status_of (find_trade j w.db)) (status_of (find_trade j w'.db))
  Steps-Route here = stays
  Steps-Route (then {w = w} {w' = w'} {w'' = w''} s rest) = elim (Step-Follows s) [
    | inl same ↦
        subst (λ t. Route (status_of t) (status_of (find_trade j w''.db))) same (Steps-Route rest)
    | inr m ↦ moves m (Steps-Route rest)
  ]
