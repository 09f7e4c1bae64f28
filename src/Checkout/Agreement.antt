-- ===== src/Checkout/Agreement.antt =====
-- The quote and the settlement ask for the same payment.
use xgamefi.Prelude.{
  ℕ, ◌≡◌, ◌⊎◌, inl, inr, refl, arith, ℤ, negsuc, ◌∙◌, ap, subst, sym, ltb_ℤ_irrefl, where_is, Bool,
  ◌==◌, find_last-accepts, ◌-ℤ◌, Option, none, some, List, [], ◌∷◌, true, Bool-cases, ◌&&◌, not,
  is_some, or_else, find, find_last, text_eq_refl, ==_refl,
}
use xgamefi.Schema.{TxHash, Currency, xlm, usdt, Asset, native, issued, Item, Studio, Order}
use xgamefi.Promotions.{truthy}
use xgamefi.World.{
  World, External, Result, ok, err, found, HorizonTx, payment, transaction, row_not_found, Failure,
}
use xgamefi.Stellar.{
  accepted, verify_payment, matching_payment, asset_matches, truncate_text_memo, asset_of,
  same_memo,
}
use xgamefi.Orders.{verify_order, find_studio}
use xgamefi.Checkout.Payment.{PaymentQuote, quoted}
use xgamefi.Checkout.{
  QuoteInput, is_same_purchase, same_currency, is_active, out_of_stock, drop_order, drop_orders,
  delete_order, quote_fresh, quote_existing, quote_after, quote_item, quote_at, quote_found,
  create_order_quote, best_for, new_order,
}
use xgamefi.Checkout.Pricing.{quote_order-ok, create_order-ok, add_usage_outcome}

-- The quote is the payment that the order asks for.
abbrev pub Asks : External → Order → PaymentQuote → Type 0
Asks x o q = q ≡ quoted x o.currency (o.gross_amount -ℤ o.discount_amount) o.id

asset_matches_refl : (a : Asset) → asset_matches a a ≡ true
unfolding asset_matches
asset_matches_refl native = refl
asset_matches_refl (issued code issuer) = rw (text_eq_refl code, ==_refl issuer)

matching_payment_one :
    (dest : ℕ) (asset : Asset) (amount : ℤ)
    → matching_payment dest asset (payment dest asset amount ∷ []) ≡ some amount
unfolding matching_payment
matching_payment_one dest asset amount = rw (==_refl dest, asset_matches_refl asset)

-- Whoever pays what the quote says, to the stroop, in one payment of a successful transaction with
-- the quote's memo, is accepted when the order is verified.
pub quoted_payment_accepted :
    (x : External) (o : Order) (q : PaymentQuote) (h : TxHash) (tx : HorizonTx)
    → Asks x o q
    → x.transaction h ≡ found tx
    → tx.successful ≡ true
    → tx.memo ≡ some (truncate_text_memo q.memo)
    → x.operations h ≡ found (payment q.destination q.asset q.amount ∷ [])
    → verify_order x o h ≡ ok (accepted tx.hash q.amount)
unfolding verify_payment
quoted_payment_accepted x o q h tx asks got good memo ops =
    let due = o.gross_amount -ℤ o.discount_amount in
    let text = truncate_text_memo (x.uuid_text o.id) in
    let asset = asset_of x o.currency in
    let carried : tx.memo ≡ some text = memo ∙ ap (λ p. some (truncate_text_memo p.memo)) asks in
    let same : same_memo tx.memo text ≡ true =
      subst (λ m. same_memo m text ≡ true) (sym carried) (text_eq_refl text) in
    let listed : x.operations h ≡ found (payment x.receiving_account asset due ∷ []) =
      ops ∙ ap (λ p. found (payment p.destination p.asset p.amount ∷ [])) asks in
    rw asks (
      rw (got, ap not good, ap not same, listed, matching_payment_one x.receiving_account asset due)
        (rw (ltb_ℤ_irrefl due)))

same_currency-eq : (a b : Currency) → same_currency a b ≡ true → a ≡ b
same_currency-eq xlm xlm h = refl
same_currency-eq usdt usdt h = refl
same_currency-eq xlm usdt h = cc
same_currency-eq usdt xlm h = cc

drop_order_outcome :
    (o : Order) (w : World)
    → ((w' : World) × (drop_order o w ≡ (ok tt, w')))
      ⊎ ((w' : World) × (f : Failure) × (drop_order o w ≡ (err f, w')))
unfolding drop_order
drop_order_outcome o w = elim (add_usage_outcome (negsuc 0) o.promotion_id w) [
  | inl (w', e, kept) ↦ inl (record w' { db = delete_order o.id w'.db }, rw e)
  | inr e ↦ inr (w, row_not_found, rw e)
]

-- What the body of a quote returns, on every path.
abbrev Quotes : External → Result (Order × PaymentQuote) × World → Type 0
Quotes x e = (o : Order) (q : PaymentQuote) → e.0 ≡ ok (o, q) → Asks x o q

fresh-Quotes :
    (x : External) (input : QuoteInput) (item : Item) (studio : Studio) (quantity : ℕ)
    (currency : Currency) (w : World)
    → Quotes x (quote_fresh x input item studio quantity currency w)
unfolding quote_fresh
fresh-Quotes x input item studio quantity currency w o q h =
    let r = best_for input item studio quantity w in
    elim (Bool-cases (truthy input.promotion_code && not (is_some r.promotion_id))) [
      | inl invalid ↦ cc (rw invalid at h)
      | inr valid ↦
          let (same, built) =
            create_order-ok x input item studio quantity currency r w (rw valid at h) in
          rw same (unfold new_order in built)
    ]

drop_orders_outcome :
    (os : List Order) (w : World)
    → ((w' : World) × (drop_orders os w ≡ (ok tt, w')))
      ⊎ ((w' : World) × (f : Failure) × (drop_orders os w ≡ (err f, w')))
unfolding drop_orders
drop_orders_outcome [] w = inl (w, refl)
drop_orders_outcome (o ∷ os) w = elim (drop_order_outcome o w) [
  | inl (w', e) ↦ rw e (drop_orders_outcome os w')
  | inr (w', f, e) ↦ inr (w', f, rw e)
]

existing-Quotes :
    (x : External) (e : Order) (same : Order → Bool) (currency : Currency) (w : World)
    → e.currency ≡ currency
    → Quotes x (quote_existing x e same currency w)
unfolding quote_existing
existing-Quotes x e same currency w c o q h =
    let duplicates = where_is (λ d. same d && not (d.id == e.id)) w.db.orders in
    elim (drop_orders_outcome duplicates w) [
      | inl (w', done) ↦
          let (kept, asks) = quote_order-ok x currency e w' (rw done at h) in
          rw kept
            (subst (λ k. q ≡ quoted x k (e.gross_amount -ℤ e.discount_amount) e.id) (sym c) asks)
      | inr (w', f, failed) ↦ cc (rw failed at h)
    ]

after-Quotes :
    (x : External) (input : QuoteInput) (item : Item) (studio : Studio) (quantity : ℕ)
    (currency : Currency) (e : Option Order) (w : World)
    → ((r : Order) → e ≡ some r → r.currency ≡ currency)
    → Quotes x (quote_after x input item studio quantity currency e w)
after-Quotes x input item studio quantity currency none w c o q h =
    fresh-Quotes x input item studio quantity currency w o q h
after-Quotes x input item studio quantity currency (some r) w c o q h =
    elim (Bool-cases (truthy input.promotion_code)) [
      | inr reuse ↦
          existing-Quotes x r (is_same_purchase input.player_id item.id quantity currency) currency
            w (c r refl) o q (rw reuse at h)
      | inl again ↦ elim (drop_order_outcome r w) [
        | inl (w', done) ↦
            fresh-Quotes x input item studio quantity currency w' o q (rw done at (rw again at h))
        | inr (w', f, failed) ↦ cc (rw failed at (rw again at h))
      ]
    ]

same_purchase-currency :
    (player item quantity : ℕ) (currency : Currency) (os : List Order) (r : Order)
    → find_last (is_same_purchase player item quantity currency) os ≡ some r
    → r.currency ≡ currency
unfolding is_same_purchase
same_purchase-currency player item quantity currency os r f =
    let same = find_last-accepts (is_same_purchase player item quantity currency) os r f in
    same_currency-eq r.currency currency (ground arith)

item-Quotes :
    (x : External) (input : QuoteInput) (item : Item) (studio : Studio) (w : World)
    → Quotes x (quote_item x input item studio w)
unfolding quote_item
item-Quotes x input item studio w o q h =
    let quantity = or_else input.quantity 1 in
    let currency = or_else input.currency item.price_currency in
    let e = find_last (is_same_purchase input.player_id item.id quantity currency) w.db.orders in
    let c = λ (r : Order) (f : e ≡ some r).
      same_purchase-currency input.player_id item.id quantity currency w.db.orders r f in
    elim (Bool-cases (not (is_active studio.status))) [
      | inl inactive ↦ cc (rw inactive at h)
      | inr active ↦ elim (Bool-cases (not (item.is_active && item.is_listed))) [
        | inl hidden ↦ cc (rw (active, hidden) at h)
        | inr shown ↦ elim (Bool-cases (out_of_stock item.stock quantity)) [
          | inl short ↦ cc (rw (active, shown, short) at h)
          | inr enough ↦
              after-Quotes x input item studio quantity currency e w c o q
                (rw (active, shown, enough) at h)
        ]
      ]
    ]

studio-Quotes :
    (x : External) (input : QuoteInput) (item : Item) (s : Option Studio) (w : World)
    → Quotes x (quote_at x input item s w)
studio-Quotes x input item none w o q h = cc
studio-Quotes x input item (some studio) w o q h = item-Quotes x input item studio w o q h

found-Quotes :
    (x : External) (input : QuoteInput) (item : Option Item) (w : World)
    → Quotes x (quote_found x input item w)
found-Quotes x input none w o q h = cc
found-Quotes x input (some item) w o q h =
    studio-Quotes x input item (find_studio item.studio_id w.db) w o q h

rolled-Quotes :
    (x : External) (w : World) (e : Result (Order × PaymentQuote) × World)
    → Quotes x e
    → Quotes x (transaction (λ _. e) w)
unfolding transaction
rolled-Quotes x w (ok a, w') k o q h = k o q h
rolled-Quotes x w (err f, w') k o q h = cc

-- Whether the order of a quote is new or was pending already, the payment that the buyer is asked
-- for is the one that the settlement checks: the order's gross amount less its discount, in the
-- order's asset, to the receiving account, with the order's id for a memo.
pub create_order_quote-Asks :
    (x : External) (input : QuoteInput) (w : World) (o : Order) (q : PaymentQuote)
    → (create_order_quote x input w).0 ≡ ok (o, q)
    → Asks x o q
unfolding create_order_quote
create_order_quote-Asks x input w =
    let body = quote_found x input (find (λ t. t.id == input.item_id) w.db.items) w in
    rolled-Quotes x w body (found-Quotes x input (find (λ t. t.id == input.item_id) w.db.items) w)
