-- ===== src/Jobs/Payments.antt =====
-- What the payout and the refund of an order pay, and what they write down.
use xgamefi.Prelude.{
  ◌≡◌, ◌⊎◌, inl, inr, refl, true, Option, none, some, [], ◌∷◌, ◌++◌, Bool-cases, ◌==◌, update,
  find-update_row, find-accepts, ==_iff,
}
use xgamefi.Schema.{Uuid, TxHash, Address, Order, Player, PaymentStatus}
use xgamefi.World.{World, External, Result, ok, err}
use xgamefi.Stellar.{with_memo_cut}
use xgamefi.Stellar.Sending.{with_sent, send_payment_outcome}
use xgamefi.Orders.{is_paid, find_order, find_studio}
use xgamefi.Jobs.Payout.{
  payout_wallet, payout_payment, payout_entry, pay_studio, payout_found, payout_processor,
}
use xgamefi.Jobs.Refund.{
  find_player, refund_payment, refund_entry, pay_order_back, refund_found_order, refund_processor,
}

-- The order, its studio's wallet and the transaction of a payout from `w` to `w'`.
pub record IsPayout (x : External) (i : Uuid) (h : TxHash) (w w' : World) : Type 0 where
  pub order : Order
  pub wallet : Address
  pub order_found : find_order i w.db ≡ some order
  pub order_paid : is_paid order.payment_status ≡ true
  pub wallet_found : payout_wallet (find_studio order.studio_id w.db) ≡ some wallet
  pub sent : w'.sent ≡ w.sent ++ with_memo_cut (payout_payment x order wallet) ∷ []
  pub booked : w'.db.ledger ≡ w.db.ledger ++ payout_entry x order wallet h ∷ []
  pub orders_kept : w'.db.orders ≡ w.db.orders

-- A payout that was sent and not written down: the job throws behind the payment, and nothing else
-- has changed.
pub record IsSentOnly (x : External) (i : Uuid) (w w' : World) : Type 0 where
  pub order : Order
  pub wallet : Address
  pub order_found : find_order i w.db ≡ some order
  pub order_paid : is_paid order.payment_status ≡ true
  pub wallet_found : payout_wallet (find_studio order.studio_id w.db) ≡ some wallet
  pub sent : w' ≡ with_sent (payout_payment x order wallet) w

-- A run that ends well has made a payout, and any other has changed nothing, or has sent the payout
-- and changed nothing else.
abbrev pub PaysOut : External → Uuid → World → Result TxHash × World → Type 0
PaysOut x i w (ok h, w') = IsPayout x i h w w'
PaysOut x i w (err e, w') = (w' ≡ w) ⊎ IsSentOnly x i w w'

paid_studio :
    (x : External) (i : Uuid) (o : Order) (dest : Option Address) (w : World)
    → find_order i w.db ≡ some o
    → is_paid o.payment_status ≡ true
    → payout_wallet (find_studio o.studio_id w.db) ≡ dest
    → PaysOut x i w (pay_studio x o dest w)
paid_studio x i o none w f p d = inl refl
paid_studio x i o (some dest) w f p d = elim (send_payment_outcome x (payout_payment x o dest) w) [
  | inl (h, e) ↦ elim (Bool-cases (x.writes (with_sent (payout_payment x o dest) w))) [
    | inl written ↦
        rw (e, written)
          (record {
            order = o;
            wallet = dest;
            order_found = f;
            order_paid = p;
            wallet_found = d;
            sent = refl;
            booked = refl;
            orders_kept = refl;
          })
    | inr lost ↦
        rw (e, lost)
          (inr (record {
            order = o;
            wallet = dest;
            order_found = f;
            order_paid = p;
            wallet_found = d;
            sent = refl;
          }))
  ]
  | inr e ↦ rw e (inl refl)
]

payout_found-PaysOut :
    (x : External) (i : Uuid) (o : Option Order) (w : World)
    → find_order i w.db ≡ o
    → PaysOut x i w (payout_found x o w)
payout_found-PaysOut x i none w f = inl refl
payout_found-PaysOut x i (some o) w f = elim (Bool-cases (is_paid o.payment_status)) [
  | inl p ↦ rw p (paid_studio x i o (payout_wallet (find_studio o.studio_id w.db)) w f p refl)
  | inr u ↦ rw u (inl refl)
]

-- A payout job that ends well found a paid order whose studio has a payout wallet, sent the order's
-- net amount, in the order's asset, to that wallet, added the payout to the ledger, and changed no
-- order. A job that throws has changed nothing, or it found such an order and wallet and has sent the
-- payout, and has written nothing.
pub payout_processor-PaysOut :
    (x : External) (i : Uuid) (w : World) → PaysOut x i w (payout_processor x i w)
unfolding payout_processor
payout_processor-PaysOut x i w = payout_found-PaysOut x i (find_order i w.db) w refl

-- The refund of an order from `w` to `w'`.
pub record IsRefund (x : External) (i : Uuid) (w w' : World) : Type 0 where
  pub order : Order
  pub buyer : Player
  pub hash : TxHash
  pub order_found : find_order i w.db ≡ some order
  pub buyer_found : find_player order.player_id w.db ≡ some buyer
  pub sent :
      w'.sent
      ≡ w.sent
        ++ with_memo_cut (refund_payment x order.id order.currency order.gross_amount buyer) ∷ []
  pub booked :
      w'.db.ledger
      ≡ w.db.ledger
        ++ refund_entry x (some order.id) none order.currency order.gross_amount buyer hash ∷ []
  pub marked : find_order i w'.db ≡ some (record order { payment_status = PaymentStatus.refunded })
  pub rows :
      w'.db.orders
      ≡ update
          (λ r. r.id == order.id)
          (λ r. record r { payment_status = PaymentStatus.refunded })
          w.db.orders

-- A job that throws has changed nothing, or it has sent the refund and written nothing.
abbrev pub SendsBack : External → Uuid → World → World → Type 0
SendsBack x i w w' =
    (w' ≡ w)
    ⊎ ((o : Order) × (buyer : Player) × (find_order i w.db ≡ some o)
        × (find_player o.player_id w.db ≡ some buyer)
        × (w' ≡ with_sent (refund_payment x o.id o.currency o.gross_amount buyer) w))

abbrev pub Refunds : {A : Type 0} → External → Uuid → World → Result A × World → Type 0
Refunds x i w (ok a, w') = IsRefund x i w w'
Refunds x i w (err e, w') = SendsBack x i w w'

paid_back :
    (x : External) (i : Uuid) (o : Order) (buyer : Option Player) (w : World)
    → o.id ≡ i
    → find_order i w.db ≡ some o
    → find_player o.player_id w.db ≡ buyer
    → Refunds x i w (pay_order_back x o buyer w)
paid_back x i o none w same f b = inl refl
paid_back x i o (some buyer) w same f b =
    let pay = refund_payment x o.id o.currency o.gross_amount buyer in
    elim (send_payment_outcome x pay w) [
      | inl (h, e) ↦ elim (Bool-cases (x.writes (with_sent pay w))) [
        | inr lost ↦ rw (e, lost) (inr (o, buyer, f, b, refl))
        | inl written ↦
            rw (e, written)
              (record {
                order = o;
                buyer = buyer;
                hash = h;
                order_found = f;
                buyer_found = b;
                sent = refl;
                booked = refl;
                marked =
                    find-update_row (λ r. r.id)
                      (λ r. record r { payment_status = PaymentStatus.refunded }) (λ r. refl) i
                      w.db.orders o same f;
                rows = refl;
              })
      ]
      | inr e ↦ rw e (inl refl)
    ]

refund_found-Refunds :
    (x : External) (i : Uuid) (o : Option Order) (w : World)
    → find_order i w.db ≡ o
    → Refunds x i w (refund_found_order x o w)
refund_found-Refunds x i none w f = inl refl
refund_found-Refunds x i (some o) w f =
    let same = (==_iff o.id i).0 (find-accepts (λ r. r.id == i) w.db.orders o f) in
    paid_back x i o (find_player o.player_id w.db) w same f refl

-- A refund job for an order that ends well found the order and its buyer, sent the order's gross
-- amount to the buyer's wallet, added the refund to the ledger, and marked the order refunded. One
-- that throws has changed nothing, or it has sent that payment and written nothing.
pub refund_processor-Refunds :
    (x : External) (i : Uuid) (trade : Option Uuid) (w : World)
    → Refunds x i w (refund_processor x (some i) trade w)
unfolding refund_processor
refund_processor-Refunds x i trade w = refund_found-Refunds x i (find_order i w.db) w refl
