-- ===== src/Trades/Settlement.antt =====
-- packages/shared/src/p2p/settlement.ts: the escrow payment, the transfer of the item, and the
-- payout of the seller.
use xgamefi.Prelude.{
  ℕ, pos, ◌+ℤ◌, ◌-ℤ◌, Bool, true, false, not, ◌&&◌, Option, none, some, List, [], ◌∷◌, ◌++◌, Text,
  codes, is_empty, or_else, ◌/◌, ◌==◌, leb, if◌then◌else◌, has, find, update,
}
use xgamefi.Schema.{
  Uuid, TxHash, Player, Item, Studio, Trade, TradeStatus, Listing, ListingStatus, Ownership,
  LedgerEntry, p2p_escrow_in, p2p_payout,
}
use xgamefi.World.{
  Db, Payment, External, trade_not_found, not_paid, no_api_base_url, no_seller_wallet,
  listing_not_found, p2p_transfer, refund_trade, webhook_p2p, Result, ok, err, M, pure, throw, gets,
  modify, ◌>>=◌, ◌>>◌, add_ledger, enqueue, add_job, write, TransferRequest, transaction,
}
use xgamefi.Stellar.{
  asset_of, Verify, accepted, rejected, Reason, tx_hash_used, verify_payment, send_payment,
}
use xgamefi.Orders.{find_studio}
use xgamefi.Jobs.Refund.{find_player, find_trade, update_trade}
use xgamefi.Trades.Ownership.{is_row, upsert_ownership, api_base_of, find_item}
use xgamefi.Trades.Quote.{find_listing}

pub data EscrowResult : Type 0 where
  paid already : EscrowResult
  declined : Reason → EscrowResult

abbrev pub is_pending : TradeStatus → Bool
is_pending TradeStatus.escrow_pending = true
is_pending _ = false

abbrev pub is_paid : TradeStatus → Bool
is_paid TradeStatus.paid = true
is_paid _ = false

abbrev pub find_escrow : TxHash → Db → Option Trade
find_escrow h db = find (λ t. has t.escrow_tx_hash h) db.trades

abbrev pub escrow_used : Option Trade → Uuid → Bool
escrow_used none i = false
escrow_used (some t) i = not (t.id == i)

abbrev pub escrow_entry : External → Trade → TxHash → LedgerEntry
escrow_entry x t h = record {
  kind = p2p_escrow_in;
  order_id = none;
  trade_id = some t.id;
  referral_id = none;
  stellar_tx_hash = h;
  source_address = none;
  dest_address = x.receiving_account;
  amount = t.price;
  asset = asset_of x t.currency;
}

abbrev pub mark_escrow : TxHash → Trade → Trade
mark_escrow h t = record t { status = TradeStatus.paid; escrow_tx_hash = some h }

unfoldable pub record_escrow : External → Trade → TxHash → M EscrowResult
record_escrow x t h w =
    (if escrow_used (find_escrow h w.db) t.id then pure (declined tx_hash_used) else do
      modify (update_trade t.id (mark_escrow h))
      add_ledger (escrow_entry x t h)
      enqueue (p2p_transfer t.id)
      pure paid)
      w

abbrev pub escrow_verified : External → Trade → TxHash → Result Verify → M EscrowResult
escrow_verified x t h (ok (accepted _ _)) = record_escrow x t h
escrow_verified x t h (ok (rejected reason)) = pure (declined reason)
escrow_verified x t h (err e) = throw e

abbrev pub verify_trade : External → Trade → TxHash → Result Verify
verify_trade x t h = verify_payment x (some h) (asset_of x t.currency) t.price (x.uuid_text t.id)

abbrev pub advance_found : External → TxHash → Option Trade → M EscrowResult
advance_found x h none = throw trade_not_found
advance_found x h (some t) =
    if not (is_pending t.status) then pure already else escrow_verified x t h (verify_trade x t h)

-- `verifyAndAdvanceP2PTrade`, a transaction as a whole.
unfoldable pub verify_and_advance_p2p_trade : External → Uuid → TxHash → M EscrowResult
unfolding transaction record_escrow
verify_and_advance_p2p_trade x i h = transaction (λ w. advance_found x h (find_trade i w.db) w)

pub data TransferResult : Type 0 where
  completed transfer_failed : TransferResult

abbrev pub is_ok : Option ℕ → Bool
is_ok none = false
is_ok (some status) = leb 200 status && leb status 299

abbrev pub payout_payment : External → Trade → Player → Payment
payout_payment x t seller = record {
  destination = seller.wallet_address;
  asset = asset_of x t.currency;
  amount = t.net_to_seller_amount;
  memo = some (codes "p2p-payout:" ++ x.uuid_text t.id);
}

abbrev pub payout_entry : External → Trade → Player → TxHash → LedgerEntry
payout_entry x t seller h = record {
  kind = p2p_payout;
  order_id = none;
  trade_id = some t.id;
  referral_id = none;
  stellar_tx_hash = h;
  source_address = some x.receiving_account;
  dest_address = seller.wallet_address;
  amount = t.net_to_seller_amount;
  asset = asset_of x t.currency;
}

-- The seller's row, if it is locked for the listing, loses one and its lock.
unfoldable pub take_from_seller : Trade → Listing → List Ownership → List Ownership
take_from_seller t l =
    update (λ o. is_row t.seller_player_id l.item_id o && has o.locked_for_listing_id t.listing_id)
      (λ o. record o { quantity = o.quantity -ℤ pos 1; locked_for_listing_id = none })

unfoldable pub give_to_buyer : Trade → Listing → List Ownership → List Ownership
give_to_buyer t l =
    upsert_ownership t.buyer_player_id l.item_id
      (record {
        player_id = t.buyer_player_id;
        item_id = l.item_id;
        studio_id = l.studio_id;
        quantity = pos 1;
        locked_for_listing_id = none;
      })
      (λ o. record o { quantity = o.quantity +ℤ pos 1 })

-- The five writes of the closing transaction.
abbrev pub close_trade : External → Trade → Listing → Player → TxHash → ℕ → Db → Db
close_trade x t l seller h now db = record db {
  ledger = db.ledger ++ payout_entry x t seller h ∷ [];
  trades =
      update (λ r. r.id == t.id)
        (λ r. record r {
          status = TradeStatus.completed;
          payout_tx_hash = some h;
          completed_at = some now;
        })
        db.trades;
  listings =
      update (λ r. r.id == t.listing_id) (λ r. record r { status = ListingStatus.sold })
        db.listings;
  ownerships = give_to_buyer t l (take_from_seller t l db.ownerships);
}

abbrev pub pay_seller : External → Trade → Listing → Option Player → M TransferResult
pay_seller x t l none = throw no_seller_wallet
pay_seller x t l (some seller) = do
  h ← send_payment x (payout_payment x t seller)
  now ← gets (λ w. w.now)
  write x (modify (close_trade x t l seller h now))
  add_job x (webhook_p2p t.id)
  pure completed

-- `replace(/\/+$/, "")`
abbrev pub strip_slashes : Text → Text
strip_slashes [] = []
strip_slashes (c ∷ s) =
    let rest = strip_slashes s in if c == b'/' && is_empty rest then [] else c ∷ rest

-- An id has no character that `encodeURIComponent` changes.
abbrev pub transfer_url : External → Text → Uuid → Text
transfer_url x base buyer =
    strip_slashes base ++ (codes "/players/" ++ (x.uuid_text buyer ++ codes "/inventory"))

-- `studio.webhookSecretHash ?? ""`
abbrev pub secret_of : Option Studio → Text
secret_of none = []
secret_of (some s) = or_else s.webhook_secret_hash []

abbrev pub transfer_request :
    External → Trade → Listing → Option Studio → Text → ℕ → TransferRequest
transfer_request x t l s base now = record {
  url = transfer_url x base t.buyer_player_id;
  from_player_id = t.seller_player_id;
  item_id = l.item_id;
  quantity = 1;
  trade_id = t.id;
  secret = secret_of s;
  timestamp = now / 1000;
}

-- The signed transfer request: its error is caught, and a failure queues the refund.
abbrev pub transfer_at : External → Trade → Listing → Option Studio → Option Text → M TransferResult
transfer_at x t l s none w = (err no_api_base_url, w)
transfer_at x t l s (some []) w = (err no_api_base_url, w)
transfer_at x t l s (some (c ∷ cs)) w =
    (if not (is_ok (x.post_transfer (transfer_request x t l s (c ∷ cs) w.now)))
        then (add_job x (refund_trade t.id) >> pure transfer_failed)
        else pay_seller x t l (find_player l.seller_player_id w.db))
      w

abbrev pub item_studio : Option Item → Db → Option Studio
item_studio none db = none
item_studio (some item) db = find_studio item.studio_id db

abbrev pub transfer_listed : External → Trade → Option Listing → M TransferResult
transfer_listed x t none w = (err listing_not_found, w)
transfer_listed x t (some l) w =
    let s = item_studio (find_item l.item_id w.db) w.db in transfer_at x t l s (api_base_of s) w

abbrev pub transfer_found : External → Option Trade → M TransferResult
transfer_found x none w = (err trade_not_found, w)
transfer_found x (some t) w =
    (if not (is_paid t.status)
        then throw not_paid
        else transfer_listed x t (find_listing t.listing_id w.db))
      w

unfoldable pub transfer_item_and_payout : External → Uuid → M TransferResult
transfer_item_and_payout x i w = transfer_found x (find_trade i w.db) w
