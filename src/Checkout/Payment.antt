-- ===== src/Checkout/Payment.antt =====
-- The payment that a buyer's wallet is asked to sign: `buildPaymentXdr` of
-- packages/shared/src/stellar.ts, and the `quote` object around it.
use xgamefi.Prelude.{ℤ, some, Text, if◌then◌else◌}
use xgamefi.Schema.{Uuid, Address, Asset, Currency}
use xgamefi.World.{External, Payment, horizon_failed, ok, err, M}
use xgamefi.Stellar.{asset_of, truncate_text_memo}

pub record PaymentQuote : Type 0 where
  pub destination : Address
  pub asset : Asset
  pub amount : ℤ
  pub memo : Text

abbrev pub quoted : External → Currency → ℤ → Uuid → PaymentQuote
quoted x currency amount i = record {
  destination = x.receiving_account;
  asset = asset_of x currency;
  amount = amount;
  memo = x.uuid_text i;
}

-- The transaction that is built carries the memo cut to size.
abbrev pub unsigned : PaymentQuote → Payment
unsigned q = record {
  destination = q.destination;
  asset = q.asset;
  amount = q.amount;
  memo = some (truncate_text_memo q.memo);
}

unfoldable pub build_quote : External → Currency → ℤ → Uuid → M PaymentQuote
build_quote x currency amount i w =
    let q = quoted x currency amount i in
    (if x.builds (unsigned q) then ok q else err horizon_failed, w)
