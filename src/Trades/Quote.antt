-- ===== src/Trades/Quote.antt =====
-- `createTradeQuote` of apps/web/lib/p2p-queries.ts.
use xgamefi.Prelude.{
  Bool, true, false, not, Option, none, some, [], ◌∷◌, ◌++◌, ◌==◌, if◌then◌else◌, find, update,
}
use xgamefi.Schema.{Uuid, Listing, ListingStatus, Trade, TradeStatus}
use xgamefi.World.{
  Db, External, listing_not_found, listing_unavailable, own_listing, M, pure, throw, gets, modify,
  ◌>>=◌, ◌>>◌, next_id, transaction,
}
use xgamefi.Money.{fee_amount, net_amount}
use xgamefi.Checkout.Payment.{PaymentQuote, build_quote}
use xgamefi.Trades.Ownership.{is_row}

abbrev pub is_active : ListingStatus → Bool
is_active ListingStatus.active = true
is_active _ = false

abbrev pub find_listing : Uuid → Db → Option Listing
find_listing i db = find (λ l. l.id == i) db.listings

abbrev pub update_listing : Uuid → (Listing → Listing) → Db → Db
update_listing i f db = record db { listings = update (λ l. l.id == i) f db.listings }

-- `updateMany` on the seller's row of the item.
abbrev pub lock_ownership : Listing → Db → Db
lock_ownership l db = record db {
  ownerships =
      update (is_row l.seller_player_id l.item_id)
        (λ o. record o { locked_for_listing_id = some l.id }) db.ownerships;
}

abbrev pub new_trade : External → Uuid → Listing → Uuid → Trade
new_trade x i l buyer = record {
  id = i;
  listing_id = l.id;
  buyer_player_id = buyer;
  seller_player_id = l.seller_player_id;
  price = l.price;
  currency = l.currency;
  platform_fee_amount = fee_amount l.price x.platform_fee_bps;
  net_to_seller_amount = net_amount l.price x.platform_fee_bps;
  escrow_tx_hash = none;
  payout_tx_hash = none;
  status = TradeStatus.escrow_pending;
  completed_at = none;
}

abbrev pub write_trade : Trade → Db → Db
write_trade t db = record db { trades = db.trades ++ t ∷ [] }

abbrev pub lock_and_create : External → Listing → Uuid → M Trade
lock_and_create x l buyer = do
  now ← gets (λ w. w.now)
  modify
      (update_listing l.id (λ r. record r { status = ListingStatus.locked; locked_at = some now }))
  modify (lock_ownership l)
  i ← next_id x
  modify (write_trade (new_trade x i l buyer))
  pure (new_trade x i l buyer)

abbrev pub quote_listing : External → Uuid → Option Listing → M (Trade × PaymentQuote)
quote_listing x buyer none = throw listing_not_found
quote_listing x buyer (some l) =
    if not (is_active l.status)
    then throw listing_unavailable
    else if l.seller_player_id == buyer
    then throw own_listing
    else do
      t ← transaction (lock_and_create x l buyer)
      q ← build_quote x t.currency t.price t.id
      pure (t, q)

unfoldable pub create_trade_quote : External → Uuid → Uuid → M (Trade × PaymentQuote)
unfolding transaction
create_trade_quote x buyer listing w = quote_listing x buyer (find_listing listing w.db) w
