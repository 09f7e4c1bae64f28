-- ===== src/Trades/Funded.antt =====
-- The ledger behind the status of a trade.
use xgamefi.Prelude.{
  ◌≡◌, inl, inr, refl, ap, sym, subst, ◌∙◌, none, some, List, [], ◌∷◌, ◌++◌, ◌==◌, find, Has,
  Has-append_self, Has-append_left, ⊤, find-append_cases, update,
}
use xgamefi.Schema.{Uuid, TxHash, Player, Trade, TradeStatus, LedgerEntry}
use xgamefi.World.{World, External, Result, ok, err}
use xgamefi.Checkout.Payment.{PaymentQuote}
use xgamefi.Jobs.Refund.{find_trade, refund_entry}
use xgamefi.Jobs.TradeRefund.{RefundsTrade, refund_processor-RefundsTrade}
use xgamefi.Trades.Reservation.{Reserves, create_trade_quote-Reserves}
use xgamefi.Trades.Settlement.{
  EscrowResult, paid, already, declined, TransferResult, completed, transfer_failed, mark_escrow,
  escrow_entry, payout_entry,
}
use xgamefi.Trades.Escrow.{Escrows, verify_and_advance_p2p_trade-Escrows}
use xgamefi.Trades.Transfer.{
  IsTransfer, nothing, sent_only, untold, Transfers, transfer_item_and_payout-Transfers,
}
use xgamefi.Trades.Lifecycle.{
  Step, quote, escrow, transfer, refund, elsewhere, Steps, here, then, changed, paid_status,
}

-- The ledger has the escrow payment of the trade, by the transaction that the trade names.
abbrev pub Entered : External → List LedgerEntry → Trade → Type 0
Entered x ledger t =
    (h : TxHash) × (t.escrow_tx_hash ≡ some h) × Has (λ e. e ≡ escrow_entry x t h) ledger

abbrev pub PaidOut : External → List LedgerEntry → Trade → Type 0
PaidOut x ledger t =
    (h : TxHash) × (seller : Player) × (t.payout_tx_hash ≡ some h)
    × Has (λ e. e ≡ payout_entry x t seller h) ledger

abbrev pub PaidBack : External → List LedgerEntry → Trade → Type 0
PaidBack x ledger t =
    (h : TxHash) × (buyer : Player) × Has
      (λ e. e ≡ refund_entry x none (some t.id) t.currency t.price buyer h) ledger

-- What the status of a trade asks of the ledger. Two of the statuses are never reached.
abbrev pub Funded : External → List LedgerEntry → Trade → TradeStatus → Type 0
Funded x ledger t TradeStatus.escrow_pending = ⊤
Funded x ledger t TradeStatus.paid = Entered x ledger t
Funded x ledger t TradeStatus.item_transferred = ⊥
Funded x ledger t TradeStatus.completed = Entered x ledger t × PaidOut x ledger t
Funded x ledger t TradeStatus.refunded = PaidBack x ledger t
Funded x ledger t TradeStatus.failed = ⊥

abbrev pub IsFunded : External → World → Type 0
IsFunded x w = (j : Uuid) (t : Trade) → find_trade j w.db ≡ some t → Funded x w.db.ledger t t.status

module _ (x : External) where
  Entered-append : (t : Trade) (l es : List LedgerEntry) → Entered x l t → Entered x (l ++ es) t
  Entered-append t l es (h, e, b) = (h, e, Has-append_left (escrow_entry x t h) l es b)

  Funded-append :
      (t : Trade) (s : TradeStatus) (l es : List LedgerEntry)
      → Funded x l t s
      → Funded x (l ++ es) t s
  Funded-append t TradeStatus.escrow_pending l es f = tt
  Funded-append t TradeStatus.paid l es f = Entered-append t l es f
  Funded-append t TradeStatus.item_transferred l es f = absurd f
  Funded-append t TradeStatus.completed l es (f, (h, seller, e, b)) =
      (Entered-append t l es f, (h, seller, e, Has-append_left (payout_entry x t seller h) l es b))
  Funded-append t TradeStatus.refunded l es (h, buyer, b) = (
    h,
    buyer,
    Has-append_left (refund_entry x none (some t.id) t.currency t.price buyer h) l es b,
  )
  Funded-append t TradeStatus.failed l es f = absurd f

  -- The trade is as before, and the ledger has grown.
  unchanged :
      (w w' : World) (j : Uuid) (t : Trade) (es : List LedgerEntry)
      → IsFunded x w
      → find_trade j w'.db ≡ find_trade j w.db
      → w'.db.ledger ≡ w.db.ledger ++ es
      → find_trade j w'.db ≡ some t
      → Funded x w'.db.ledger t t.status
  unchanged w w' j t es inv same booked found =
      subst (λ l. Funded x l t t.status) (sym booked)
        (Funded-append t t.status w.db.ledger es (inv j t (sym same ∙ found)))

  -- One row was changed and one entry added: enough that the new row is funded.
  row_IsFunded :
      (w w' : World) (i : Uuid) (t : Trade) (f : Trade → Trade) (e : LedgerEntry)
      → ((r : Trade) → (f r).id ≡ r.id)
      → IsFunded x w
      → find_trade i w.db ≡ some t
      → w'.db.trades ≡ update (λ r. r.id == t.id) f w.db.trades
      → w'.db.ledger ≡ w.db.ledger ++ e ∷ []
      → Funded x (w.db.ledger ++ e ∷ []) (f t) (f t).status
      → IsFunded x w'
  row_IsFunded w w' i t f e keeps inv found rows booked new j t' found' =
      elim (changed w w' i j t f keeps found rows) [
        | inr same ↦ unchanged w w' j t' (e ∷ []) inv same booked found'
        | inl (before, after) ↦
            let is_new : f t ≡ t' = cc (sym after ∙ found') in
            subst (λ l. Funded x l t' t'.status) (sym booked)
              (subst (λ r. Funded x (w.db.ledger ++ e ∷ []) r r.status) is_new new)
      ]

  escrow-IsFunded :
      (i : Uuid) (h : TxHash) (w w' : World) (r : Result EscrowResult)
      → Escrows x i h w (r, w')
      → IsFunded x w
      → IsFunded x w'
  escrow-IsFunded i h w w' (ok paid) e inv =
      row_IsFunded w w' i e.trade (mark_escrow h) (escrow_entry x e.trade h) (λ r. refl) inv e.found
        e.rows e.booked (h, refl, Has-append_self (escrow_entry x e.trade h) w.db.ledger)
  escrow-IsFunded i h w w' (ok already) e inv = subst (IsFunded x) (sym e) inv
  escrow-IsFunded i h w w' (ok (declined reason)) e inv = subst (IsFunded x) (sym e) inv
  escrow-IsFunded i h w w' (err failure) e inv = subst (IsFunded x) (sym e) inv

  completed-IsFunded :
      (i : Uuid) (w w' : World) → IsTransfer x i w w' → IsFunded x w → IsFunded x w'
  completed-IsFunded i w w' e inv =
      let entry = payout_entry x e.trade e.seller e.hash in
      let entered : Entered x w.db.ledger e.trade =
        subst (Funded x w.db.ledger e.trade) (paid_status e.trade.status e.was_paid)
          (inv i e.trade e.trade_found) in
      row_IsFunded w w' i e.trade _ entry (λ r. refl) inv e.trade_found e.rows e.booked
        (
          Entered-append e.trade w.db.ledger (entry ∷ []) entered,
          (e.hash, e.seller, refl, Has-append_self entry w.db.ledger),
        )

  transfer-IsFunded :
      (i : Uuid) (w w' : World) (r : Result TransferResult)
      → Transfers x i w (r, w')
      → IsFunded x w
      → IsFunded x w'
  transfer-IsFunded i w w' (ok completed) (e, queued) inv = completed-IsFunded i w w' e inv
  transfer-IsFunded i w w' (ok transfer_failed) e inv = subst (IsFunded x) (sym e) inv
  transfer-IsFunded i w w' (err failure) (nothing e) inv = subst (IsFunded x) (sym e) inv
  transfer-IsFunded i w w' (err failure) (sent_only e) inv = subst (IsFunded x) (sym e.sent) inv
  transfer-IsFunded i w w' (err failure) (untold e kept) inv = completed-IsFunded i w w' e inv

  refund-IsFunded :
      (i : Uuid) (w w' : World) (r : Result ⊤)
      → RefundsTrade x i w (r, w')
      → IsFunded x w
      → IsFunded x w'
  refund-IsFunded i w w' (ok a) e inv =
      let entry =
        refund_entry x none (some e.trade.id) e.trade.currency e.trade.price e.buyer e.hash in
      row_IsFunded w w' i e.trade _ entry (λ r. refl) inv e.trade_found e.rows e.booked
        (e.hash, e.buyer, Has-append_self entry w.db.ledger)
  refund-IsFunded i w w' (err failure) (inl e) inv = subst (IsFunded x) (sym e) inv
  refund-IsFunded i w w' (err failure) (inr (t, buyer, f, b, e)) inv =
      subst (IsFunded x) (sym e) inv

  quote-IsFunded :
      (buyer i : Uuid) (w w' : World) (r : Result (Trade × PaymentQuote))
      → Reserves x buyer i w (r, w')
      → IsFunded x w
      → IsFunded x w'
  quote-IsFunded buyer i w w' r (inl (same, ends)) inv = subst (IsFunded x) (sym same) inv
  quote-IsFunded buyer i w w' r (inr q) inv = λ j t found.
      let at_j : find_trade j w'.db ≡ find (λ r. r.id == j) (w.db.trades ++ q.trade ∷ []) =
        ap (find (λ r. r.id == j)) q.created in
      elim (find-append_cases (λ r. r.id) j q.trade w.db.trades) [
        | inl same ↦
            subst (λ l. Funded x l t t.status) (sym q.ledger_kept)
              (inv j t (sym (at_j ∙ same) ∙ found))
        | inr (missing, given) ↦
            let is_new : q.trade ≡ t = cc (sym (at_j ∙ given) ∙ found) in
            let status : t.status ≡ TradeStatus.escrow_pending =
              ap (λ r. r.status) (sym is_new ∙ q.fresh_trade) in
            subst (Funded x w'.db.ledger t) (sym status) tt
      ]

  Step-IsFunded : {w w' : World} → Step x w w' → IsFunded x w → IsFunded x w'
  Step-IsFunded (quote buyer i w) inv =
      quote-IsFunded buyer i w _ _ (create_trade_quote-Reserves x buyer i w) inv
  Step-IsFunded (escrow i h w) inv =
      escrow-IsFunded i h w _ _ (verify_and_advance_p2p_trade-Escrows x i h w) inv
  Step-IsFunded (transfer i w) inv =
      transfer-IsFunded i w _ _ (transfer_item_and_payout-Transfers x i w) inv
  Step-IsFunded (refund i w) inv = refund-IsFunded i w _ _ (refund_processor-RefundsTrade x i w) inv
  Step-IsFunded (elsewhere w w' es trades ledger) inv =
      λ j t found. unchanged w w' j t es inv (ap (find (λ r. r.id == j)) trades) ledger found

  -- Through any sequence of quotes, escrow payments, transfers, refunds and calls of other parts,
  -- if it holds at the start: a paid trade has its escrow payment in the ledger, a completed one
  -- also the payout of its net amount, and a refunded one the refund of its price, each entry by
  -- the transaction that the trade names where it names one, and no trade is failed or
  -- transferred only.
  pub Steps-IsFunded : {w w' : World} → Steps x w w' → IsFunded x w → IsFunded x w'
  Steps-IsFunded here inv = inv
  Steps-IsFunded (then s rest) inv = Steps-IsFunded rest (Step-IsFunded s inv)
