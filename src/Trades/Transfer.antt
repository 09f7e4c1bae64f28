-- ===== src/Trades/Transfer.antt =====
-- The transfer of an item and the payout of its seller, on every branch.
use xgamefi.Prelude.{
  ◌≡◌, ◌∙◌, ap, inl, inr, refl, true, Option, none, some, [], ◌∷◌, ◌++◌, Text, Bool-cases, ◌==◌,
  update, find-update_row, find-update_self, find-accepts, ==_iff,
}
use xgamefi.Schema.{Uuid, TxHash, Studio, Player, Trade, TradeStatus, Listing, ListingStatus}
use xgamefi.World.{World, External, refund_trade, webhook_p2p, Result, ok, err}
use xgamefi.Stellar.{with_memo_cut}
use xgamefi.Stellar.Sending.{with_sent, send_payment_outcome}
use xgamefi.Jobs.Refund.{find_player, find_trade}
use xgamefi.Trades.Ownership.{api_base_of, find_item}
use xgamefi.Trades.Quote.{find_listing}
use xgamefi.Trades.Settlement.{
  TransferResult, completed, transfer_failed, is_paid, is_ok, payout_payment, payout_entry,
  take_from_seller, give_to_buyer, close_trade, transfer_request, pay_seller, transfer_at,
  item_studio, transfer_listed, transfer_found, transfer_item_and_payout,
}

abbrev pub studio_of : Listing → World → Option Studio
studio_of l w = item_studio (find_item l.item_id w.db) w.db

-- The trade `i` was completed from `w` to `w'`.
pub record IsTransfer (x : External) (i : Uuid) (w w' : World) : Type 0 where
  pub trade : Trade
  pub listing : Listing
  pub seller : Player
  pub base : Text
  pub hash : TxHash
  pub trade_found : find_trade i w.db ≡ some trade
  pub was_paid : is_paid trade.status ≡ true
  pub listing_found : find_listing trade.listing_id w.db ≡ some listing
  pub seller_found : find_player listing.seller_player_id w.db ≡ some seller
  pub base_found : api_base_of (studio_of listing w) ≡ some base
  pub transferred :
      is_ok (x.post_transfer (transfer_request x trade listing (studio_of listing w) base w.now))
      ≡ true
  pub sent : w'.sent ≡ w.sent ++ with_memo_cut (payout_payment x trade seller) ∷ []
  pub booked : w'.db.ledger ≡ w.db.ledger ++ payout_entry x trade seller hash ∷ []
  pub marked :
      find_trade i w'.db
      ≡ some (record trade {
        status = TradeStatus.completed;
        payout_tx_hash = some hash;
        completed_at = some w.now;
      })
  pub rows :
      w'.db.trades
      ≡ update
          (λ r. r.id == trade.id)
          (λ r. record r {
            status = TradeStatus.completed;
            payout_tx_hash = some hash;
            completed_at = some w.now;
          })
          w.db.trades
  pub sold :
      find_listing trade.listing_id w'.db ≡ some (record listing { status = ListingStatus.sold })
  pub moved :
      w'.db.ownerships
      ≡ give_to_buyer trade listing (take_from_seller trade listing w.db.ownerships)

-- The payout was sent and not written down: the game has confirmed the transfer, and neither the
-- database nor the queue has changed.
pub record IsSentOnly (x : External) (i : Uuid) (w w' : World) : Type 0 where
  pub trade : Trade
  pub listing : Listing
  pub seller : Player
  pub base : Text
  pub trade_found : find_trade i w.db ≡ some trade
  pub was_paid : is_paid trade.status ≡ true
  pub listing_found : find_listing trade.listing_id w.db ≡ some listing
  pub seller_found : find_player listing.seller_player_id w.db ≡ some seller
  pub base_found : api_base_of (studio_of listing w) ≡ some base
  pub transferred :
      is_ok (x.post_transfer (transfer_request x trade listing (studio_of listing w) base w.now))
      ≡ true
  pub sent : w' ≡ with_sent (payout_payment x trade seller) w

-- How a transfer job may throw: before anything, behind the payment, or behind all but the webhook.
pub data Throws (x : External) (i : Uuid) (w w' : World) : Type 0 where
  nothing : w' ≡ w → Throws x i w w'
  sent_only : IsSentOnly x i w w' → Throws x i w w'
  untold : IsTransfer x i w w' → w'.jobs ≡ w.jobs → Throws x i w w'

-- The ends of a transfer job.
abbrev pub Transfers : External → Uuid → World → Result TransferResult × World → Type 0
Transfers x i w (ok completed, w') = IsTransfer x i w w' × (w'.jobs ≡ w.jobs ++ webhook_p2p i ∷ [])
Transfers x i w (ok transfer_failed, w') = w' ≡ record w { jobs = w.jobs ++ refund_trade i ∷ [] }
Transfers x i w (err e, w') = Throws x i w w'

module _ (x : External) (i : Uuid) (t : Trade) (w : World) (same : t.id ≡ i)
    (f : find_trade i w.db ≡ some t) (p : is_paid t.status ≡ true) where
  seller-Transfers :
      (l : Listing) (base : Text) (s : Option Player)
      → find_listing t.listing_id w.db ≡ some l
      → find_player l.seller_player_id w.db ≡ s
      → api_base_of (studio_of l w) ≡ some base
      → is_ok (x.post_transfer (transfer_request x t l (studio_of l w) base w.now)) ≡ true
      → Transfers x i w (pay_seller x t l s w)
  seller-Transfers l base none fl fs fb done = nothing refl
  seller-Transfers l base (some s) fl fs fb done =
      let pay = payout_payment x t s in
      elim (send_payment_outcome x pay w) [
        | inr e ↦ rw e (nothing refl)
        | inl (h, e) ↦
            let paid = with_sent pay w in
            let told_same : w.jobs ++ webhook_p2p t.id ∷ [] ≡ w.jobs ++ webhook_p2p i ∷ [] =
              ap (λ k. w.jobs ++ webhook_p2p k ∷ []) same in
            let closed = record paid { db = close_trade x t l s h w.now w.db } in
            let transfer : (v : World)
                → v.db ≡ closed.db
                → v.sent ≡ paid.sent
                → IsTransfer x i w v =
              closed_trade l base s h fl fs fb done in
            elim (Bool-cases (x.writes paid)) [
              | inr lost ↦
                  rw (e, lost)
                    (sent_only (record {
                      trade = t;
                      listing = l;
                      seller = s;
                      base = base;
                      trade_found = f;
                      was_paid = p;
                      listing_found = fl;
                      seller_found = fs;
                      base_found = fb;
                      transferred = done;
                      sent = refl;
                    }))
              | inl written ↦ elim (Bool-cases (x.queues closed)) [
                | inl told ↦
                    rw (e, written, told)
                      (
                        transfer (record closed { jobs = w.jobs ++ webhook_p2p t.id ∷ [] }) refl
                            refl,
                        told_same,
                      )
                | inr lost ↦ rw (e, written, lost) (untold (transfer closed refl refl) refl)
              ]
            ]
      ]
    where
      closed_trade :
          (l : Listing) (base : Text) (s : Player) (h : TxHash)
          → find_listing t.listing_id w.db ≡ some l
          → find_player l.seller_player_id w.db ≡ some s
          → api_base_of (studio_of l w) ≡ some base
          → is_ok (x.post_transfer (transfer_request x t l (studio_of l w) base w.now)) ≡ true
          → (v : World) → v.db ≡ close_trade x t l s h w.now w.db
          → v.sent ≡ w.sent ++ with_memo_cut (payout_payment x t s) ∷ []
          → IsTransfer x i w v
      closed_trade l base s h fl fs fb done v db sent = record {
        trade = t;
        listing = l;
        seller = s;
        base = base;
        hash = h;
        trade_found = f;
        was_paid = p;
        listing_found = fl;
        seller_found = fs;
        base_found = fb;
        transferred = done;
        sent = sent;
        booked = ap (λ d. d.ledger) db;
        marked =
            ap (find_trade i) db
            ∙ find-update_row (λ r. r.id)
                (λ r. record r {
                  status = TradeStatus.completed;
                  payout_tx_hash = some h;
                  completed_at = some w.now;
                })
                (λ r. refl) i w.db.trades t same f;
        rows = ap (λ d. d.trades) db;
        sold =
            ap (find_listing t.listing_id) db
            ∙ find-update_self (λ r. r.id) (λ r. record r { status = ListingStatus.sold })
                (λ r. refl) t.listing_id w.db.listings l fl;
        moved = ap (λ d. d.ownerships) db;
      }

  at-Transfers :
      (l : Listing) (base : Option Text)
      → find_listing t.listing_id w.db ≡ some l
      → api_base_of (studio_of l w) ≡ base
      → Transfers x i w (transfer_at x t l (studio_of l w) base w)
  at-Transfers l none fl fb = nothing refl
  at-Transfers l (some []) fl fb = nothing refl
  at-Transfers l (some (c ∷ cs)) fl fb =
      let request = transfer_request x t l (studio_of l w) (c ∷ cs) w.now in
      elim (Bool-cases (is_ok (x.post_transfer request))) [
        | inl done ↦
            rw done
              (seller-Transfers l (c ∷ cs) (find_player l.seller_player_id w.db) fl refl fb done)
        | inr failed ↦ elim (Bool-cases (x.queues w)) [
          | inl told ↦ rw (failed, told, same) refl
          | inr lost ↦ rw (failed, lost) (nothing refl)
        ]
      ]

  listed-Transfers :
      (l : Option Listing)
      → find_listing t.listing_id w.db ≡ l
      → Transfers x i w (transfer_listed x t l w)
  listed-Transfers none fl = nothing refl
  listed-Transfers (some l) fl = at-Transfers l (api_base_of (studio_of l w)) fl refl

found-Transfers :
    (x : External) (i : Uuid) (t : Option Trade) (w : World)
    → find_trade i w.db ≡ t
    → Transfers x i w (transfer_found x t w)
found-Transfers x i none w f = nothing refl
found-Transfers x i (some t) w f = elim (Bool-cases (is_paid t.status)) [
  | inl p ↦
      let same = (==_iff t.id i).0 (find-accepts (λ r. r.id == i) w.db.trades t f) in
      rw p (listed-Transfers x i t w same f p (find_listing t.listing_id w.db) refl)
  | inr u ↦ rw u (nothing refl)
]

-- A transfer job completes only a trade that is paid, after the game of the item's studio has
-- confirmed the transfer at the address under the studio's base: it sends the seller the net amount,
-- books that payout, marks the trade completed and the listing sold, moves the item in the ownership
-- table, and queues the webhook. If the game does not confirm, the only change is that the refund of
-- the buyer is queued. If the job throws, then nothing has changed in the database, the queue and the
-- payments, or, the game having confirmed, the payout is sent and nothing is written, or all is done
-- but the webhook.
pub transfer_item_and_payout-Transfers :
    (x : External) (i : Uuid) (w : World) → Transfers x i w (transfer_item_and_payout x i w)
unfolding transfer_item_and_payout
transfer_item_and_payout-Transfers x i w = found-Transfers x i (find_trade i w.db) w refl
