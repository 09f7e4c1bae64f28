-- ===== src/Trades/Reservation.antt =====
-- The quote of a trade, which reserves the listing.
use xgamefi.Prelude.{
  ◌+◌, ◌≡◌, ◌⊎◌, inl, inr, refl, true, false, Bool-cases, Option, none, some, [], ◌∷◌, ◌++◌, ◌==◌,
  ◌+ℤ◌, find-update_row, find-accepts, ==_iff,
}
use xgamefi.Schema.{Uuid, Listing, ListingStatus, Trade}
use xgamefi.Money.Fees.{fee_amount-net_amount}
use xgamefi.World.{
  World, External, Result, ok, err, listing_not_found, listing_unavailable, own_listing,
  horizon_failed, transaction,
}
use xgamefi.Checkout.Payment.{PaymentQuote, quoted, unsigned, build_quote}
use xgamefi.Trades.Quote.{
  is_active, find_listing, new_trade, write_trade, lock_ownership, update_listing, quote_listing,
  create_trade_quote,
}

-- The listing `i` is reserved for `buyer`, and the call ended with the answer `r`.
pub record IsReserved (x : External) (buyer i : Uuid) (w : World)
    (r : Result (Trade × PaymentQuote)) (w' : World) : Type 0 where
  pub listing : Listing
  pub trade : Trade
  pub listing_found : find_listing i w.db ≡ some listing
  pub active : is_active listing.status ≡ true
  pub not_own : (listing.seller_player_id == buyer) ≡ false
  pub created : w'.db.trades ≡ w.db.trades ++ trade ∷ []
  pub ledger_kept : w'.db.ledger ≡ w.db.ledger
  pub fresh_trade : trade ≡ new_trade x (x.fresh_id w.rows) listing buyer
  pub split : trade.platform_fee_amount +ℤ trade.net_to_seller_amount ≡ listing.price
  pub locked :
      find_listing i w'.db
      ≡ some (record listing { status = ListingStatus.locked; locked_at = some w.now })
  pub ended :
      (r ≡ ok (trade, quoted x trade.currency trade.price trade.id)) ⊎ (r ≡ err horizon_failed)
  pub refused : (b : Uuid) → create_trade_quote x b i w' ≡ (err listing_unavailable, w')

-- How a call may end: refused with nothing changed, or with the listing reserved.
abbrev pub Reserves :
    External → Uuid → Uuid → World → Result (Trade × PaymentQuote) × World → Type 0
Reserves x buyer i w (r, w') =
    ((w' ≡ w)
      × ((r ≡ err listing_not_found) ⊎ ((r ≡ err listing_unavailable) ⊎ (r ≡ err own_listing))))
    ⊎ IsReserved x buyer i w r w'

locked_refused :
    (x : External) (i b : Uuid) (l : Listing) (w' : World)
    → find_listing i w'.db ≡ some l
    → is_active l.status ≡ false
    → create_trade_quote x b i w' ≡ (err listing_unavailable, w')
unfolding create_trade_quote
locked_refused x i b l w' f a = rw f (rw a refl)

-- The world after the transaction of a quote.
abbrev reserved : External → Uuid → Listing → World → World
reserved x buyer l w = record w {
  rows = w.rows + 1;
  db = write_trade (new_trade x (x.fresh_id w.rows) l buyer) (
      lock_ownership l (
        update_listing l.id
          (λ r. record r { status = ListingStatus.locked; locked_at = some w.now }) w.db));
}

module _ (x : External) (buyer i : Uuid) (l : Listing) (w : World)
    (f : find_listing i w.db ≡ some l) (a : is_active l.status ≡ true)
    (n : (l.seller_player_id == buyer) ≡ false) where
  reserved-IsReserved :
      (r : Result (Trade × PaymentQuote))
      → let t = new_trade x (x.fresh_id w.rows) l buyer in
        (r ≡ ok (t, quoted x l.currency l.price t.id)) ⊎ (r ≡ err horizon_failed)
        → IsReserved x buyer i w r (reserved x buyer l w)
  reserved-IsReserved r answer =
      let locked : find_listing i (reserved x buyer l w).db
          ≡ some (record l { status = ListingStatus.locked; locked_at = some w.now }) =
        find-update_row (λ r. r.id)
          (λ r. record r { status = ListingStatus.locked; locked_at = some w.now }) (λ r. refl) i
          w.db.listings l ((==_iff l.id i).0 (find-accepts (λ r. r.id == i) w.db.listings l f)) f in
      record {
        listing = l;
        trade = new_trade x (x.fresh_id w.rows) l buyer;
        listing_found = f;
        active = a;
        not_own = n;
        created = refl;
        ledger_kept = refl;
        fresh_trade = refl;
        split = fee_amount-net_amount l.price x.platform_fee_bps;
        locked = locked;
        ended = answer;
        refused = λ b.
            locked_refused x i b
              (record l { status = ListingStatus.locked; locked_at = some w.now })
              (reserved x buyer l w) locked refl;
      }

  open_listing-Reserves : Reserves x buyer i w (quote_listing x buyer (some l) w)
  unfolding transaction build_quote
  open_listing-Reserves =
      let t = new_trade x (x.fresh_id w.rows) l buyer in
      elim (Bool-cases (x.builds (unsigned (quoted x l.currency l.price t.id)))) [
        | inl y ↦ rw (a, n) (rw y (inr (reserved-IsReserved _ (inl refl))))
        | inr stuck ↦ rw (a, n) (rw stuck (inr (reserved-IsReserved _ (inr refl))))
      ]

found-Reserves :
    (x : External) (buyer i : Uuid) (l : Option Listing) (w : World)
    → find_listing i w.db ≡ l
    → Reserves x buyer i w (quote_listing x buyer l w)
found-Reserves x buyer i none w f = inl (refl, inl refl)
found-Reserves x buyer i (some l) w f = elim (Bool-cases (is_active l.status)) [
  | inr u ↦ rw u (inl (refl, inr (inl refl)))
  | inl a ↦ elim (Bool-cases (l.seller_player_id == buyer)) [
    | inl own ↦ rw (a, own) (inl (refl, inr (inr refl)))
    | inr n ↦ open_listing-Reserves x buyer i l w f a n
  ]
]

-- A quote for a trade is refused, and nothing has changed, or it reserves the listing: the listing
-- was active and not the buyer's own, it is locked now, a new trade waits for the escrow payment of
-- its price, which fee and net amount make up, and every further quote for it is refused. That is
-- so too when the call then throws because the transaction cannot be built.
pub create_trade_quote-Reserves :
    (x : External) (buyer i : Uuid) (w : World)
    → Reserves x buyer i w (create_trade_quote x buyer i w)
unfolding create_trade_quote
create_trade_quote-Reserves x buyer i w = found-Reserves x buyer i (find_listing i w.db) w refl
