-- ===== src/Books/Booked.antt =====
-- The life of an order: quotes, payments found on the chain, payouts, refunds and
-- webhooks in any order.
use xgamefi.Prelude.{
  ◌≡◌, inl, inr, refl, Option, ap, sym, subst, ◌∙◌, none, some, List, [], ◌∷◌, ◌++◌, ◌==◌, find,
  Has, Has-append_self, Has-append_left, ⊤, update, find-update_cases,
}
use mathlib.Core.List.{append-nil}
use xgamefi.Schema.{Uuid, TxHash, Player, Order, PaymentStatus, LedgerEntry}
use xgamefi.World.{World, Db, External, Result, ok, err}
use xgamefi.Orders.{find_order, sale_entry, mark_paid, advance_order, verify_and_advance_order}
use xgamefi.Orders.Advance.{advance_order-IsSale}
use xgamefi.Orders.Branches.{advance_order_outcome}
use xgamefi.Orders.FollowUp.{verify_and_advance_order-db}
use xgamefi.Checkout.{QuoteInput, create_order_quote}
use xgamefi.Jobs.Payout.{payout_entry, payout_processor}
use xgamefi.Jobs.Refund.{refund_entry, refund_processor}
use xgamefi.Jobs.Payments.{PaysOut, payout_processor-PaysOut, Refunds, refund_processor-Refunds}
use xgamefi.Webhooks.Delivery.{webhook_delivery_processor}
use xgamefi.Webhooks.Mock.{deliver_mock_game_webhook}
use xgamefi.Books.Quoting.{Alike, Keeps, Opens, create_order_quote-Opens}
use xgamefi.Books.Delivering.{webhook_delivery_processor-Opens, deliver_mock_game_webhook-Opens}

-- One call for orders, or one of another part, which keeps what is booked and adds to the ledger.
pub data Step (x : External) : World → World → Type 0 where
  quote : (input : QuoteInput) (w : World) → Step x w (create_order_quote x input w).1
  advance : (i : Uuid) (h : TxHash) (w : World) → Step x w (verify_and_advance_order x i h w).1
  payout : (i : Uuid) (w : World) → Step x w (payout_processor x i w).1
  refund : (i : Uuid) (w : World) → Step x w (refund_processor x (some i) none w).1
  deliver : (o t : Option Uuid) (w : World) → Step x w (webhook_delivery_processor x o t w).1
  deliver_mock : (i : Uuid) (w : World) → Step x w (deliver_mock_game_webhook x i w).1
  elsewhere :
      (w w' : World) (es : List LedgerEntry)
      → Keeps w.db w'.db
      → w'.db.ledger ≡ w.db.ledger ++ es
      → Step x w w'

pub data Steps (x : External) : World → World → Type 0 where
  here : {w : World} → Steps x w w
  then : {w w' w'' : World} → Step x w w' → Steps x w' w'' → Steps x w w''

-- The ledger has the sale, by the transaction that the order names.
abbrev pub Sold : External → List LedgerEntry → Order → Type 0
Sold x ledger o =
    (h : TxHash) × (o.stellar_tx_hash ≡ some h) × Has (λ e. e ≡ sale_entry x o h) ledger

-- The ledger has a refund of the order's gross amount.
abbrev pub PaidBack : External → List LedgerEntry → Order → Type 0
PaidBack x ledger o =
    (h : TxHash) × (buyer : Player) × Has
      (λ e. e ≡ refund_entry x (some o.id) none o.currency o.gross_amount buyer h) ledger

-- What the payment status of an order asks of the ledger. No call makes an order failed.
abbrev pub Booked : External → List LedgerEntry → Order → PaymentStatus → Type 0
Booked x ledger o PaymentStatus.pending = ⊤
Booked x ledger o PaymentStatus.paid = Sold x ledger o
Booked x ledger o PaymentStatus.failed = ⊥
Booked x ledger o PaymentStatus.refunded = PaidBack x ledger o

abbrev pub IsBooked : External → Db → Type 0
IsBooked x d =
    (j : Uuid) (o : Order) → find_order j d ≡ some o → Booked x d.ledger o o.payment_status

module _ (x : External) where
  Booked-append :
      (o : Order) (s : PaymentStatus) (l es : List LedgerEntry)
      → Booked x l o s
      → Booked x (l ++ es) o s
  Booked-append o PaymentStatus.pending l es b = tt
  Booked-append o PaymentStatus.paid l es (h, e, b) =
      (h, e, Has-append_left (sale_entry x o h) l es b)
  Booked-append o PaymentStatus.failed l es b = absurd b
  Booked-append o PaymentStatus.refunded l es (h, buyer, b) = (
    h,
    buyer,
    Has-append_left (refund_entry x (some o.id) none o.currency o.gross_amount buyer h) l es b,
  )

  Alike-Booked :
      (o o' : Order) (s : PaymentStatus) (l : List LedgerEntry)
      → Alike o o'
      → Booked x l o s
      → Booked x l o' s
  Alike-Booked o o' PaymentStatus.pending l a b = tt
  Alike-Booked o o' PaymentStatus.paid l (i, c, g, t, p) (h, e, b) = (h, t ∙ e, rw (i, c, g) b)
  Alike-Booked o o' PaymentStatus.failed l a b = absurd b
  Alike-Booked o o' PaymentStatus.refunded l (i, c, g, t, p) (h, buyer, b) =
      (h, buyer, rw (i, c, g) b)

  -- A call that keeps what is booked of every order and adds to the ledger.
  Keeps-IsBooked :
      (d d' : Db) (es : List LedgerEntry)
      → Keeps d d'
      → d'.ledger ≡ d.ledger ++ es
      → IsBooked x d
      → IsBooked x d'
  Keeps-IsBooked d d' es keeps booked inv = λ j o' found. elim (keeps j o' found) [
    | inr new ↦ subst (Booked x d'.ledger o') (sym new) tt
    | inl (o, before, a) ↦
        let (i, c, g, t, p) = a in
        rw (booked, p)
          (Alike-Booked o o' o.payment_status (d.ledger ++ es) a
            (Booked-append o o.payment_status d.ledger es (inv j o before)))
  ]

  -- One row was changed and one entry added: enough that the new row is booked.
  row_IsBooked :
      (d d' : Db) (i : Uuid) (o : Order) (f : Order → Order) (e : LedgerEntry)
      → ((r : Order) → (f r).id ≡ r.id)
      → find_order i d ≡ some o
      → d'.orders ≡ update (λ r. r.id == o.id) f d.orders
      → d'.ledger ≡ d.ledger ++ e ∷ []
      → Booked x (d.ledger ++ e ∷ []) (f o) (f o).payment_status
      → IsBooked x d
      → IsBooked x d'
  row_IsBooked d d' i o f e keeps found rows booked new inv j o' found' =
      let at_j : find_order j d' ≡ find (λ r. r.id == j) (update (λ r. r.id == o.id) f d.orders) =
        ap (find (λ r. r.id == j)) rows in
      elim (find-update_cases (λ r. r.id) f i j d.orders o keeps found) [
        | inr same ↦ rw booked (
            Booked-append o' o'.payment_status d.ledger (e ∷ [])
              (inv j o' (sym same ∙ sym at_j ∙ found')))
        | inl (before, after) ↦
            let is_new : f o ≡ o' = cc (sym after ∙ sym at_j ∙ found') in
            rw booked (subst (λ r. Booked x (d.ledger ++ e ∷ []) r r.payment_status) is_new new)
      ]

  advance-IsBooked :
      (i : Uuid) (h : TxHash) (w : World)
      → IsBooked x w.db
      → IsBooked x (advance_order x i h w).1.db
  advance-IsBooked i h w inv = elim (advance_order_outcome x i h w) [
    | inr same ↦ subst (λ v. IsBooked x v.db) (sym same) inv
    | inl (j, r, e) ↦
        let (o, found, same, j_eq, sale) = advance_order-IsSale x i h w j r e in
        row_IsBooked w.db (advance_order x i h w).1.db i o (mark_paid h w.now) (sale_entry x o h)
          (λ r. refl) found sale.rows sale.booked
          (h, refl, Has-append_self (sale_entry x o h) w.db.ledger) inv
  ]

  payout-IsBooked :
      (i : Uuid) (w w' : World) (r : Result TxHash)
      → PaysOut x i w (r, w')
      → IsBooked x w.db
      → IsBooked x w'.db
  payout-IsBooked i w w' (ok h) p inv = λ j o found. rw p.booked (
      Booked-append o o.payment_status w.db.ledger (payout_entry x p.order p.wallet h ∷ [])
        (inv j o (sym (ap (find (λ r. r.id == j)) p.orders_kept) ∙ found)))
  payout-IsBooked i w w' (err failure) (inl p) inv = subst (λ v. IsBooked x v.db) (sym p) inv
  payout-IsBooked i w w' (err failure) (inr p) inv = subst (λ v. IsBooked x v.db) (sym p.sent) inv

  refund-IsBooked :
      (i : Uuid) (w w' : World) (r : Result ⊤)
      → Refunds x i w (r, w')
      → IsBooked x w.db
      → IsBooked x w'.db
  refund-IsBooked i w w' (ok a) p inv =
      let entry =
        refund_entry x (some p.order.id) none p.order.currency p.order.gross_amount p.buyer
          p.hash in
      row_IsBooked w.db w'.db i p.order _ entry (λ r. refl) p.order_found p.rows p.booked
        (p.hash, p.buyer, Has-append_self entry w.db.ledger) inv
  refund-IsBooked i w w' (err failure) (inl p) inv = subst (λ v. IsBooked x v.db) (sym p) inv
  refund-IsBooked i w w' (err failure) (inr (o, buyer, f, b, p)) inv =
      subst (λ v. IsBooked x v.db) (sym p) inv

  Opens-IsBooked : (w w' : World) → Opens w w' → IsBooked x w.db → IsBooked x w'.db
  Opens-IsBooked w w' (same, keeps) inv =
      Keeps-IsBooked w.db w'.db [] keeps (same ∙ sym (append-nil w.db.ledger)) inv

  Step-IsBooked : {w w' : World} → Step x w w' → IsBooked x w.db → IsBooked x w'.db
  Step-IsBooked (quote input w) inv =
      Opens-IsBooked w (create_order_quote x input w).1 (create_order_quote-Opens x input w) inv
  Step-IsBooked (deliver o t w) inv =
      Opens-IsBooked w (webhook_delivery_processor x o t w).1
        (webhook_delivery_processor-Opens x o t w) inv
  Step-IsBooked (deliver_mock i w) inv =
      Opens-IsBooked w (deliver_mock_game_webhook x i w).1 (deliver_mock_game_webhook-Opens x i w)
        inv
  Step-IsBooked (advance i h w) inv =
      verify_and_advance_order-db (IsBooked x) x i h w inv (advance-IsBooked i h w inv)
  Step-IsBooked (payout i w) inv = payout-IsBooked i w _ _ (payout_processor-PaysOut x i w) inv
  Step-IsBooked (refund i w) inv = refund-IsBooked i w _ _ (refund_processor-Refunds x i none w) inv
  Step-IsBooked (elsewhere w w' es keeps ledger) inv = Keeps-IsBooked w.db w'.db es keeps ledger inv

  -- Through any sequence of quotes, payments looked up on the chain, payouts, refunds, webhooks and
  -- calls of other parts that keep what is booked, if it holds at the start: every paid order has its sale in
  -- the ledger, by the transaction that the order names, every refunded order a refund of its gross
  -- amount, and no order is failed.
  pub Steps-IsBooked : {w w' : World} → Steps x w w' → IsBooked x w.db → IsBooked x w'.db
  Steps-IsBooked here inv = inv
  Steps-IsBooked (then s rest) inv = Steps-IsBooked rest (Step-IsBooked s inv)
