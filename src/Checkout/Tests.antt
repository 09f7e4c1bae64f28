-- ===== src/Checkout/Tests.antt =====
-- Quotes at the sample world.
use xgamefi.Prelude.{
  Option, ◌≡◌, refl, arith, pos, true, none, some, codes, find, find_last, where_is, count, text_eq,
  ◌-ℤ◌, ◌*ℤ◌, to_lower,
}
use xgamefi.Schema.{Uuid, xlm, Order}
use xgamefi.World.{ok, transaction}
use xgamefi.Stellar.{truncate_text_memo, cut_point, is_continuation}
use xgamefi.Orders.{advance_order, paid}
use xgamefi.Checkout.Completion.{quoted_order_advances}
use xgamefi.Promotions.{
  PromotionResult, is_window_open, code_allows, item_allowed, raw_discount, settle_discount, clamp7,
  apply_promotion, best_promotion, better,
}
use xgamefi.Money.{fee_amount, net_amount}
use xgamefi.Checkout.{
  QuoteInput, create_order_quote, new_order, quote_fresh, quote_item, best_for, add_usage,
  is_same_purchase,
}
use xgamefi.Checkout.Payment.{PaymentQuote, quoted, build_quote}
use xgamefi.Checkout.Agreement.{Asks, create_order_quote-Asks}
use xgamefi.Checkout.Pricing.{IsPriced, quote_fresh-IsPriced}
use xgamefi.Checkout.Usage.{IsTidy, balance}
use xgamefi.Checkout.Accounting.{create_order_quote-balance}
use xgamefi.Samples.{world, external, order, studio, sword, id_memo}

abbrev input : QuoteInput
input = record {
  player_id = 41;
  item_id = 11;
  quantity = some 2;
  currency = none;
  referral_code = none;
  promotion_code = some (codes "ten");
}

abbrev best : PromotionResult
best = record { discount_amount = pos 2000000; promotion_id = some 31 }

abbrev bought : Order
bought = new_order input sword studio 2 xlm best 1005

abbrev asked : PaymentQuote
asked = quoted external xlm (pos 18000000) 1005

quote_run : (create_order_quote external input world).0 ≡ ok (bought, asked)
unfolding create_order_quote transaction quote_item quote_fresh is_same_purchase best_for add_usage
    new_order build_quote find find_last where_is text_eq to_lower best_promotion better ◌*ℤ◌
    apply_promotion is_window_open code_allows item_allowed raw_discount settle_discount clamp7
    fee_amount net_amount ◌-ℤ◌ count
quote_run = refl

create_order_quote-Asks_example : Asks external bought asked
create_order_quote-Asks_example =
    create_order_quote-Asks external input world bought asked quote_run

fresh_run : (quote_fresh external input sword studio 2 xlm world).0 ≡ ok (bought, asked)
unfolding quote_fresh best_for add_usage new_order build_quote find where_is text_eq to_lower
    best_promotion better ◌*ℤ◌ apply_promotion is_window_open code_allows item_allowed raw_discount
    settle_discount clamp7 fee_amount net_amount ◌-ℤ◌ count
fresh_run = refl

quote_fresh-IsPriced_example : IsPriced bought
quote_fresh-IsPriced_example =
    quote_fresh-IsPriced external input sword studio 2 10000000 xlm world refl (omega arith)
      fresh_run

due : Asks external order (quoted external xlm (pos 9000000) 21)
unfolding ◌-ℤ◌
due = refl

memo_run : some (id_memo 21) ≡ some (truncate_text_memo (external.uuid_text 21))
unfolding truncate_text_memo cut_point is_continuation
memo_run = refl

quoted_order_advances_example :
    (r : Option Uuid) × ((advance_order external 21 921 world).0 ≡ ok (paid 21 r))
quoted_order_advances_example =
    quoted_order_advances external order (quoted external xlm (pos 9000000) 21) 921
      (record { hash = 921; successful = true; memo = some (id_memo 21) }) world
      (unfold find in refl) refl (unfold find in refl) due refl refl memo_run refl

world-IsTidy : IsTidy world.db
unfolding count
world-IsTidy = record { promotion_ids = λ i. ground arith; order_ids = λ i. ground arith }

create_order_quote-balance_example :
    balance 31 (create_order_quote external input world).1.db ≡ balance 31 world.db
create_order_quote-balance_example = create_order_quote-balance 31 external input world world-IsTidy
