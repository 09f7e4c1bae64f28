-- ===== src/Jobs/Payout.antt =====
-- apps/worker/src/jobs/payout.ts: the studio is paid its net amount.
use xgamefi.Prelude.{not, Option, none, some, ◌++◌, codes, if◌then◌else◌}
use xgamefi.Schema.{Uuid, TxHash, Address, Order, LedgerEntry, payout_out, Studio}
use xgamefi.World.{
  Payment, External, order_not_found, not_paid, no_payout_wallet, err, M, pure, throw, ◌>>=◌, ◌>>◌,
  add_ledger, write,
}
use xgamefi.Stellar.{asset_of, send_payment}
use xgamefi.Orders.{is_paid, find_order, find_studio}

abbrev pub payout_wallet : Option Studio → Option Address
payout_wallet none = none
payout_wallet (some s) = s.payout_wallet_address

abbrev pub payout_payment : External → Order → Address → Payment
payout_payment x o dest = record {
  destination = dest;
  asset = asset_of x o.currency;
  amount = o.net_to_studio_amount;
  memo = some (codes "payout:" ++ x.uuid_text o.id);
}

abbrev pub payout_entry : External → Order → Address → TxHash → LedgerEntry
payout_entry x o dest h = record {
  kind = payout_out;
  order_id = some o.id;
  trade_id = none;
  referral_id = none;
  stellar_tx_hash = h;
  source_address = some x.receiving_account;
  dest_address = dest;
  amount = o.net_to_studio_amount;
  asset = asset_of x o.currency;
}

abbrev pub pay_studio : External → Order → Option Address → M TxHash
pay_studio x o none = throw no_payout_wallet
pay_studio x o (some dest) = do
  h ← send_payment x (payout_payment x o dest)
  write x (add_ledger (payout_entry x o dest h))
  pure h

abbrev pub payout_found : External → Option Order → M TxHash
payout_found x none w = (err order_not_found, w)
payout_found x (some o) w =
    (if not (is_paid o.payment_status)
        then throw not_paid
        else pay_studio x o (payout_wallet (find_studio o.studio_id w.db)))
      w

unfoldable pub payout_processor : External → Uuid → M TxHash
payout_processor x i w = payout_found x (find_order i w.db) w
