-- ===== src/Jobs/TradeRefund.antt =====
-- What the refund of a trade pays, and what it leaves.
use xgamefi.Prelude.{
  ◌≡◌, ◌⊎◌, Bool-cases, inl, inr, refl, Option, none, some, [], ◌∷◌, ◌++◌, ◌==◌, ⊤, update,
  find-update_row, find-accepts, ==_iff,
}
use xgamefi.Schema.{Uuid, TxHash, Player, Trade, TradeStatus}
use xgamefi.World.{World, External, Result, ok, err}
use xgamefi.Stellar.{with_memo_cut}
use xgamefi.Stellar.Sending.{with_sent, send_payment_outcome}
use xgamefi.Jobs.Refund.{
  find_player, find_trade, refund_payment, refund_entry, pay_trade_back, refund_found_trade,
  refund_processor,
}

-- The refund of the trade `i` from `w` to `w'`.
pub record IsTradeRefund (x : External) (i : Uuid) (w w' : World) : Type 0 where
  pub trade : Trade
  pub buyer : Player
  pub hash : TxHash
  pub trade_found : find_trade i w.db ≡ some trade
  pub buyer_found : find_player trade.buyer_player_id w.db ≡ some buyer
  pub sent :
      w'.sent
      ≡ w.sent ++ with_memo_cut (refund_payment x trade.id trade.currency trade.price buyer) ∷ []
  pub booked :
      w'.db.ledger
      ≡ w.db.ledger
        ++ refund_entry x none (some trade.id) trade.currency trade.price buyer hash ∷ []
  pub marked : find_trade i w'.db ≡ some (record trade { status = TradeStatus.refunded })
  pub rows :
      w'.db.trades
      ≡ update (λ r. r.id == trade.id) (λ r. record r { status = TradeStatus.refunded }) w.db.trades
  pub listings_kept : w'.db.listings ≡ w.db.listings
  pub ownerships_kept : w'.db.ownerships ≡ w.db.ownerships

abbrev pub RefundsTrade : External → Uuid → World → Result ⊤ × World → Type 0
RefundsTrade x i w (ok a, w') = IsTradeRefund x i w w'
RefundsTrade x i w (err e, w') =
    (w' ≡ w)
    ⊎ ((t : Trade) × (buyer : Player) × (find_trade i w.db ≡ some t)
        × (find_player t.buyer_player_id w.db ≡ some buyer)
        × (w' ≡ with_sent (refund_payment x t.id t.currency t.price buyer) w))

paid-RefundsTrade :
    (x : External) (i : Uuid) (t : Trade) (buyer : Option Player) (w : World)
    → t.id ≡ i
    → find_trade i w.db ≡ some t
    → find_player t.buyer_player_id w.db ≡ buyer
    → RefundsTrade x i w (pay_trade_back x t buyer w)
paid-RefundsTrade x i t none w same f b = inl refl
paid-RefundsTrade x i t (some buyer) w same f b =
    let pay = refund_payment x t.id t.currency t.price buyer in
    elim (send_payment_outcome x pay w) [
      | inr e ↦ rw e (inl refl)
      | inl (h, e) ↦ elim (Bool-cases (x.writes (with_sent pay w))) [
        | inr lost ↦ rw (e, lost) (inr (t, buyer, f, b, refl))
        | inl written ↦
            rw (e, written)
              (record {
                trade = t;
                buyer = buyer;
                hash = h;
                trade_found = f;
                buyer_found = b;
                sent = refl;
                booked = refl;
                marked =
                    find-update_row (λ r. r.id) (λ r. record r { status = TradeStatus.refunded })
                      (λ r. refl) i w.db.trades t same f;
                rows = refl;
                listings_kept = refl;
                ownerships_kept = refl;
              })
      ]
    ]

found-RefundsTrade :
    (x : External) (i : Uuid) (t : Option Trade) (w : World)
    → find_trade i w.db ≡ t
    → RefundsTrade x i w (refund_found_trade x t w)
found-RefundsTrade x i none w f = inl refl
found-RefundsTrade x i (some t) w f =
    paid-RefundsTrade x i t (find_player t.buyer_player_id w.db) w
      ((==_iff t.id i).0 (find-accepts (λ r. r.id == i) w.db.trades t f)) f refl

-- A refund job for a trade that ends well found the trade and its buyer, sent the price to the
-- buyer's wallet, added the refund to the ledger, marked the trade refunded, and left every listing
-- and every ownership as it was, with their locks. One that throws has changed nothing, or it has sent that payment and written
-- nothing.
pub refund_processor-RefundsTrade :
    (x : External) (i : Uuid) (w : World) → RefundsTrade x i w (refund_processor x none (some i) w)
unfolding refund_processor
refund_processor-RefundsTrade x i w = found-RefundsTrade x i (find_trade i w.db) w refl
