-- ===== src/Checkout.antt =====
-- `createOrderQuote` of apps/web/lib/checkout-queries.ts. The advisory lock makes the calls of one
-- player for one item run one after another; each is a transaction as a whole.
pub mod Payment
pub mod Pricing
pub mod Agreement
pub mod Completion
pub mod Usage
pub mod Dropping
pub mod Accounting
mod Tests
use xgamefi.Prelude.{
  ℕ, ℤ, pos, negsuc, ◌+ℤ◌, ◌-ℤ◌, ⊤, Bool, true, false, not, ◌&&◌, ◌||◌, Option, none, some, List,
  [], ◌∷◌, ◌++◌, Text, ltb, ◌==◌, if◌then◌else◌, is_some, or_else, any, where_is, find, find_last,
  update, remove, count,
}
use xgamefi.Schema.{
  Uuid, Currency, xlm, usdt, StudioStatus, PaymentStatus, DeliveryStatus, Studio, Item, Order,
  Promotion,
}
use xgamefi.Money.{scale, fee_amount, net_amount}
use xgamefi.Promotions.{PromotionArgs, PromotionResult, no_discount, truthy, best_promotion}
use xgamefi.World.{
  Db, World, External, Failure, http, item_missing, studio_missing, studio_inactive,
  item_unavailable, insufficient_stock, invalid_promotion_code, row_not_found, Result, ok, err, M,
  pure, throw, gets, modify, ◌>>=◌, ◌>>◌, next_id, transaction,
}
use xgamefi.Orders.{is_paid, find_studio}
use xgamefi.Checkout.Payment.{PaymentQuote, build_quote}

pub record QuoteInput : Type 0 where
  pub player_id : Uuid
  pub item_id : Uuid
  pub quantity : Option ℕ
  pub currency : Option Currency
  pub referral_code : Option Text
  pub promotion_code : Option Text

abbrev pub is_active : StudioStatus → Bool
is_active StudioStatus.active = true
is_active _ = false

abbrev pub is_pending : PaymentStatus → Bool
is_pending PaymentStatus.pending = true
is_pending _ = false

abbrev pub same_currency : Currency → Currency → Bool
same_currency xlm xlm = true
same_currency usdt usdt = true
same_currency xlm usdt = false
same_currency usdt xlm = false

abbrev pub out_of_stock : Option ℕ → ℕ → Bool
out_of_stock none quantity = false
out_of_stock (some s) quantity = ltb s quantity

-- The pending order of the same player for the same purchase.
unfoldable pub is_same_purchase : Uuid → Uuid → ℕ → Currency → Order → Bool
is_same_purchase player item quantity currency o =
    (o.player_id == player)
    && (o.item_id == item)
    && (o.quantity == quantity)
    && same_currency o.currency currency
    && is_pending o.payment_status

abbrev pub with_usage : ℤ → Uuid → World → World
with_usage d i w = record w {
  db = record w.db {
    promotions =
        update (λ p. p.id == i) (λ p. record p { usage_count = p.usage_count +ℤ d })
          w.db.promotions;
  };
}

-- `promotion.update` of the usage count, which throws where the row is gone.
unfoldable pub add_usage : ℤ → Option Uuid → M ⊤
add_usage d none w = (ok tt, w)
add_usage d (some i) w =
    if any (λ p. p.id == i) w.db.promotions
    then (ok tt, with_usage d i w)
    else (err row_not_found, w)

abbrev pub delete_order : Uuid → Db → Db
delete_order i db = record db { orders = remove (λ o. o.id == i) db.orders }

-- A pending order is dropped, and gives back its use of a promotion.
unfoldable pub drop_order : Order → M ⊤
unfolding add_usage
drop_order o = do add_usage (negsuc 0) o.promotion_id; modify (delete_order o.id)

unfoldable pub drop_orders : List Order → M ⊤
unfolding drop_order
drop_orders [] = pure tt
drop_orders (o ∷ os) = drop_order o >>= λ _. drop_orders os

abbrev pub covers : Uuid → List Uuid → Bool
covers item [] = true
covers item (i ∷ is) = any (λ j. j == item) (i ∷ is)

-- The promotions of the studio that may apply to the item, as the query asks.
abbrev pub is_candidate : Uuid → Uuid → Promotion → Bool
is_candidate studio item p =
    (p.studio_id == studio) && p.is_active && covers item p.applies_to_item_ids

abbrev pub promotion_args : QuoteInput → Item → ℕ → ℕ → Bool → PromotionArgs
promotion_args input item quantity now has_paid = record {
  item_id = item.id;
  quantity = quantity;
  unit_price = item.price_amount;
  now = now;
  player_has_paid_order = has_paid;
  promotion_code = input.promotion_code;
}

-- The order that is created, from the best promotion `r`.
unfoldable pub new_order :
    QuoteInput → Item → Studio → ℕ → Currency → PromotionResult → Uuid → Order
new_order input item studio quantity currency r i =
    let gross = scale item.price_amount quantity in
    let discounted = gross -ℤ r.discount_amount in
    record {
      id = i;
      studio_id = studio.id;
      item_id = item.id;
      player_id = input.player_id;
      quantity = quantity;
      currency = currency;
      gross_amount = gross;
      discount_amount = r.discount_amount;
      platform_fee_amount = fee_amount discounted studio.platform_fee_bps;
      net_to_studio_amount = net_amount discounted studio.platform_fee_bps;
      promotion_id = r.promotion_id;
      referral_code_used = input.referral_code;
      stellar_tx_hash = none;
      payment_status = PaymentStatus.pending;
      delivery_status = DeliveryStatus.pending;
      paid_at = none;
      delivered_at = none;
    }

abbrev pub add_order : Order → Db → Db
add_order o db = record db { orders = db.orders ++ o ∷ [] }

-- The order with the payment that it asks for.
abbrev pub quote_order : External → Currency → Order → M (Order × PaymentQuote)
quote_order x currency o = do
  q ← build_quote x currency (o.gross_amount -ℤ o.discount_amount) o.id
  pure (o, q)

abbrev pub create_order :
    External
    → QuoteInput
    → Item
    → Studio
    → ℕ
    → Currency
    → PromotionResult
    → M (Order × PaymentQuote)
create_order x input item studio quantity currency r = do
  i ← next_id x
  let o = new_order input item studio quantity currency r i
  modify (add_order o)
  add_usage (pos 1) r.promotion_id
  quote_order x currency o

abbrev pub has_paid_order : Uuid → Db → Bool
has_paid_order player db =
    ltb 0 (count (λ o. (o.player_id == player) && is_paid o.payment_status) db.orders)

-- The best result over the candidates in the database.
unfoldable pub best_for : QuoteInput → Item → Studio → ℕ → World → PromotionResult
best_for input item studio quantity w =
    best_promotion (promotion_args input item quantity w.now (has_paid_order input.player_id w.db))
      (where_is (is_candidate studio.id item.id) w.db.promotions) no_discount

-- A new order: a code that no promotion answers to is an error.
unfoldable pub quote_fresh :
    External → QuoteInput → Item → Studio → ℕ → Currency → M (Order × PaymentQuote)
unfolding best_for add_usage
quote_fresh x input item studio quantity currency w =
    let r = best_for input item studio quantity w in
    (if truthy input.promotion_code && not (is_some r.promotion_id)
        then throw (http 400 invalid_promotion_code)
        else create_order x input item studio quantity currency r)
      w

-- The pending order is kept, and its duplicates are dropped.
unfoldable pub quote_existing :
    External → Order → (Order → Bool) → Currency → M (Order × PaymentQuote)
unfolding drop_orders
quote_existing x o same currency = do
  duplicates ← gets (λ w. where_is (λ d. same d && not (d.id == o.id)) w.db.orders)
  drop_orders duplicates
  quote_order x currency o

abbrev pub quote_after :
    External → QuoteInput → Item → Studio → ℕ → Currency → Option Order → M (Order × PaymentQuote)
quote_after x input item studio quantity currency none =
    quote_fresh x input item studio quantity currency
quote_after x input item studio quantity currency (some o) =
    if truthy input.promotion_code
    then (drop_order o >>= λ _. quote_fresh x input item studio quantity currency)
    else quote_existing x o (is_same_purchase input.player_id item.id quantity currency) currency

-- The checks on the studio, the item and its stock, in their order.
unfoldable pub quote_item : External → QuoteInput → Item → Studio → M (Order × PaymentQuote)
unfolding quote_fresh quote_existing drop_order is_same_purchase
quote_item x input item studio w =
    let quantity = or_else input.quantity 1 in
    let currency = or_else input.currency item.price_currency in
    let existing =
      find_last (is_same_purchase input.player_id item.id quantity currency) w.db.orders in
    (if not (is_active studio.status)
        then throw (http 400 studio_inactive)
        else if not (item.is_active && item.is_listed)
        then throw (http 400 item_unavailable)
        else if out_of_stock item.stock quantity
        then throw (http 400 insufficient_stock)
        else quote_after x input item studio quantity currency existing)
      w

abbrev pub quote_at : External → QuoteInput → Item → Option Studio → M (Order × PaymentQuote)
quote_at x input item none = throw (http 404 studio_missing)
quote_at x input item (some studio) = quote_item x input item studio

abbrev pub quote_found : External → QuoteInput → Option Item → M (Order × PaymentQuote)
quote_found x input none w = (err (http 404 item_missing), w)
quote_found x input (some item) w = quote_at x input item (find_studio item.studio_id w.db) w

unfoldable pub create_order_quote : External → QuoteInput → M (Order × PaymentQuote)
unfolding quote_item transaction
create_order_quote x input =
    transaction (λ w. quote_found x input (find (λ t. t.id == input.item_id) w.db.items) w)
