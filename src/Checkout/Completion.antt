-- ===== src/Checkout/Completion.antt =====
-- From the quote to the paid order.
use xgamefi.Prelude.{◌≡◌, true, false, Option, none, some, [], ◌∷◌}
use xgamefi.Schema.{Uuid, TxHash, Order}
use xgamefi.World.{World, External, found, HorizonTx, payment, ok}
use xgamefi.Stellar.{truncate_text_memo, accepted}
use xgamefi.Orders.{
  paid, is_paid, find_order, find_by_hash, verify_order, advance_order, record_sale,
}
use xgamefi.Orders.Advance.{sold}
use xgamefi.Orders.Branches.{qualify_referral-ok}
use xgamefi.Checkout.Payment.{PaymentQuote}
use xgamefi.Checkout.Agreement.{Asks, quoted_payment_accepted}

-- Whoever pays what the quote of an unpaid order says, to the stroop, in one payment of a
-- successful transaction with the quote's memo that no order was found with, gets the order paid.
pub quoted_order_advances :
    (x : External) (o : Order) (q : PaymentQuote) (h : TxHash) (tx : HorizonTx) (w : World)
    → find_order o.id w.db ≡ some o
    → is_paid o.payment_status ≡ false
    → find_by_hash h w.db ≡ none
    → Asks x o q
    → x.transaction h ≡ found tx
    → tx.successful ≡ true
    → tx.memo ≡ some (truncate_text_memo q.memo)
    → x.operations h ≡ found (payment q.destination q.asset q.amount ∷ [])
    → (r : Option Uuid) × ((advance_order x o.id h w).0 ≡ ok (paid o.id r))
unfolding advance_order record_sale
quoted_order_advances x o q h tx w there unpaid fresh asks got good memo ops =
    let verified : verify_order x o h ≡ ok (accepted tx.hash q.amount) =
      quoted_payment_accepted x o q h tx asks got good memo ops in
    let (r, e) = qualify_referral-ok o (sold x o h w) in (r, rw (there, unpaid, verified, fresh, e))
