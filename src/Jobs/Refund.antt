-- ===== src/Jobs/Refund.antt =====
-- apps/worker/src/jobs/refund.ts: a buyer gets an order's or a trade's amount back.
use xgamefi.Prelude.{ℤ, ⊤, Option, none, some, ◌++◌, codes, ◌==◌, find, update}
use xgamefi.Schema.{
  Uuid, TxHash, Currency, Player, PaymentStatus, TradeStatus, Order, Trade, LedgerEntry, refund,
}
use xgamefi.World.{
  Db, Payment, External, order_not_found, trade_not_found, no_buyer_wallet, no_entity, err, M,
  throw, ◌>>=◌, ◌>>◌, add_ledger, modify, write,
}
use xgamefi.Stellar.{asset_of, send_payment}
use xgamefi.Orders.{find_order, update_order}

abbrev pub find_player : Uuid → Db → Option Player
find_player i db = find (λ p. p.id == i) db.players

abbrev pub find_trade : Uuid → Db → Option Trade
find_trade i db = find (λ t. t.id == i) db.trades

abbrev pub update_trade : Uuid → (Trade → Trade) → Db → Db
update_trade i f db = record db { trades = update (λ t. t.id == i) f db.trades }

abbrev pub refund_payment : External → Uuid → Currency → ℤ → Player → Payment
refund_payment x i currency amount buyer = record {
  destination = buyer.wallet_address;
  asset = asset_of x currency;
  amount = amount;
  memo = some (codes "refund:" ++ x.uuid_text i);
}

abbrev pub refund_entry :
    External → Option Uuid → Option Uuid → Currency → ℤ → Player → TxHash → LedgerEntry
refund_entry x order_id trade_id currency amount buyer h = record {
  kind = refund;
  order_id = order_id;
  trade_id = trade_id;
  referral_id = none;
  stellar_tx_hash = h;
  source_address = some x.receiving_account;
  dest_address = buyer.wallet_address;
  amount = amount;
  asset = asset_of x currency;
}

-- The gross amount is sent back.
abbrev pub pay_order_back : External → Order → Option Player → M ⊤
pay_order_back x o none = throw no_buyer_wallet
pay_order_back x o (some buyer) = do
  h ← send_payment x (refund_payment x o.id o.currency o.gross_amount buyer)
  write x (
      add_ledger (refund_entry x (some o.id) none o.currency o.gross_amount buyer h)
      >> modify (update_order o.id (λ r. record r { payment_status = PaymentStatus.refunded })))

abbrev pub refund_found_order : External → Option Order → M ⊤
refund_found_order x none w = (err order_not_found, w)
refund_found_order x (some o) w = pay_order_back x o (find_player o.player_id w.db) w

abbrev pub pay_trade_back : External → Trade → Option Player → M ⊤
pay_trade_back x t none = throw no_buyer_wallet
pay_trade_back x t (some buyer) = do
  h ← send_payment x (refund_payment x t.id t.currency t.price buyer)
  write x (
      add_ledger (refund_entry x none (some t.id) t.currency t.price buyer h)
      >> modify (update_trade t.id (λ r. record r { status = TradeStatus.refunded })))

abbrev pub refund_found_trade : External → Option Trade → M ⊤
refund_found_trade x none w = (err trade_not_found, w)
refund_found_trade x (some t) w = pay_trade_back x t (find_player t.buyer_player_id w.db) w

-- `refundProcessor`: an order id goes first, then a trade id.
unfoldable pub refund_processor : External → Option Uuid → Option Uuid → M ⊤
refund_processor x (some i) trade_id w = refund_found_order x (find_order i w.db) w
refund_processor x none (some i) w = refund_found_trade x (find_trade i w.db) w
refund_processor x none none w = (err no_entity, w)
