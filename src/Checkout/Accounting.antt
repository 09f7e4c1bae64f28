-- ===== src/Checkout/Accounting.antt =====
-- `createOrderQuote` keeps the usage counts of promotions in step with the orders that use them.
use xgamefi.Prelude.{
  ℕ, ◌+◌, ◌≤◌, ◌≡◌, inl, inr, refl, arith, int_laws, ap, subst, ◌∙◌, pos, ◌+ℤ◌, ◌-ℤ◌, Bool, not,
  ◌&&◌, Option, none, some, List, [], ◌∷◌, ◌++◌, find, find_last, count, where_is, Bool-cases,
  Option-cases, ◌==◌, ⊤, is_some, or_else,
}
use xgamefi.Schema.{Uuid, Order, Item, Studio, Currency}
use xgamefi.Promotions.{truthy, PromotionResult}
use xgamefi.World.{World, External, Result, ok, err, proceed, transaction}
use xgamefi.Orders.{find_studio}
use xgamefi.Checkout.{
  QuoteInput, drop_orders, is_same_purchase, is_active, out_of_stock, new_order, add_order,
  create_order, quote_order, quote_fresh, quote_existing, best_for, quote_after, quote_item,
  quote_at, quote_found, create_order_quote,
}
use xgamefi.Checkout.Payment.{quoted, unsigned, build_quote}
use xgamefi.Checkout.Usage.{
  uses, one_use, shift_one, pos-add, balance, Balances, IsTidy, add_usage-usage, drop_order-balance,
}
use xgamefi.Checkout.Dropping.{
  FoundIn, through, count-tail, count-where_is, drop_orders-balance, found_later, found_here,
  where_is-FoundIn,
}

quote_order-Balances :
    (k : Uuid) (x : External) (currency : Currency) (o : Order) (w v : World)
    → balance k v.db ≡ balance k w.db
    → Balances k w (quote_order x currency o v)
unfolding build_quote
quote_order-Balances k x currency o w v kept =
    elim (Bool-cases
      (x.builds (unsigned (quoted x currency (o.gross_amount -ℤ o.discount_amount) o.id)))) [
        | inl y ↦ rw y kept
        | inr n ↦ rw n tt
      ]

uses-append_one :
    (k : Uuid) (os : List Order) (o : Order)
    → uses k (os ++ o ∷ []) ≡ uses k os + one_use o.promotion_id k
unfolding count
uses-append_one k [] o = ground arith
uses-append_one k (p ∷ os) o = ground (arith, uses-append_one k os o)

create_order-Balances :
    (k : Uuid) (x : External) (input : QuoteInput) (item : Item) (studio : Studio) (quantity : ℕ)
    (currency : Currency) (r : PromotionResult) (w : World)
    → ((j : Uuid) → count (λ p. p.id == j) w.db.promotions ≤ 1)
    → Balances k w (create_order x input item studio quantity currency r w)
unfolding new_order
create_order-Balances k x input item studio quantity currency r w tidy =
    let o = new_order input item studio quantity currency r (x.fresh_id w.rows) in
    let v = record w { rows = w.rows + 1; db = add_order o w.db } in
    elim (add_usage-usage k (pos 1) r.promotion_id v tidy) [
      | inl e ↦ rw e tt
      | inr (v', e, orders, used, ids) ↦
          let more : pos (uses k v'.db.orders)
              ≡ pos (uses k w.db.orders) +ℤ pos (one_use r.promotion_id k) =
            ap (λ os. pos (uses k os)) orders
            ∙ (ap pos (uses-append_one k w.db.orders o)
                ∙ pos-add (uses k w.db.orders) (one_use r.promotion_id k)) in
          let kept : balance k v'.db ≡ balance k w.db =
            rw (more, used, shift_one r.promotion_id k) (omega int_laws) in
          rw e (quote_order-Balances k x currency o w v' kept)
    ]

fresh-Balances :
    (k : Uuid) (x : External) (input : QuoteInput) (item : Item) (studio : Studio) (quantity : ℕ)
    (currency : Currency) (w : World)
    → ((j : Uuid) → count (λ p. p.id == j) w.db.promotions ≤ 1)
    → Balances k w (quote_fresh x input item studio quantity currency w)
unfolding quote_fresh
fresh-Balances k x input item studio quantity currency w tidy =
    let r = best_for input item studio quantity w in
    elim (Bool-cases (truthy input.promotion_code && not (is_some r.promotion_id))) [
      | inl invalid ↦ rw invalid tt
      | inr valid ↦
          rw valid (create_order-Balances k x input item studio quantity currency r w tidy)
    ]

sequel :
    (k : Uuid) (x : External) (currency : Currency) (o : Order) (w : World) (q : Result ⊤ × World)
    → Balances k w q
    → Balances k w (proceed q.0 (λ _. quote_order x currency o) q.1)
sequel k x currency o w (ok tt, v) b = quote_order-Balances k x currency o w v b
sequel k x currency o w (err f, v) b = tt

existing-Balances :
    (k : Uuid) (x : External) (o : Order) (same : Order → Bool) (currency : Currency) (w : World)
    → IsTidy w.db
    → Balances k w (quote_existing x o same currency w)
unfolding quote_existing
existing-Balances k x o same currency w tidy =
    let twin = λ (d : Order). same d && not (d.id == o.id) in
    let duplicates = where_is twin w.db.orders in
    sequel k x currency o w (drop_orders duplicates w) (
      drop_orders-balance k duplicates w tidy (where_is-FoundIn twin w.db.orders tidy.order_ids)
        (λ i. omega (arith, count-where_is (λ p. p.id == i) twin w.db.orders, tidy.order_ids i)))

found_last :
    (q : Order → Bool) (os : List Order) (o : Order)
    → ((i : Uuid) → count (λ p. p.id == i) os ≤ 1)
    → find_last q os ≡ some o
    → FoundIn os o
unfolding find_last
found_last q [] o apart f = cc
found_last q (r ∷ os) o apart f = elim (Option-cases (find_last q os)) [
  | inr (b, e) ↦
      let same : b ≡ o = cc (rw e at f) in
      found_later r o os apart
        (found_last q os o (λ i. count-tail (λ p. p.id == i) r os (apart i)) (e ∙ ap some same))
  | inl e ↦ elim (Bool-cases (q r)) [
    | inl y ↦
        let same : r ≡ o = cc (rw (e, y) at f) in subst (FoundIn (r ∷ os)) same (found_here r os)
    | inr n ↦ cc (rw (e, n) at f)
  ]
]

after-Balances :
    (k : Uuid) (x : External) (input : QuoteInput) (item : Item) (studio : Studio) (quantity : ℕ)
    (currency : Currency) (e : Option Order) (w : World)
    → IsTidy w.db
    → ((o : Order) → e ≡ some o → FoundIn w.db.orders o)
    → Balances k w (quote_after x input item studio quantity currency e w)
after-Balances k x input item studio quantity currency none w tidy there =
    fresh-Balances k x input item studio quantity currency w tidy.promotion_ids
after-Balances k x input item studio quantity currency (some o) w tidy there =
    elim (Bool-cases (truthy input.promotion_code)) [
      | inr reuse ↦ rw reuse (
          existing-Balances k x o (is_same_purchase input.player_id item.id quantity currency)
            currency w tidy)
      | inl again ↦ elim (drop_order-balance k o w tidy (there o refl)) [
        | inl (failure, f) ↦ rw again (rw f tt)
        | inr (w', f, kept, tidy', others) ↦ rw again (
            rw f (
              through k w w' (quote_fresh x input item studio quantity currency w') kept
                (fresh-Balances k x input item studio quantity currency w' tidy'.promotion_ids)))
      ]
    ]

item-Balances :
    (k : Uuid) (x : External) (input : QuoteInput) (item : Item) (studio : Studio) (w : World)
    → IsTidy w.db
    → Balances k w (quote_item x input item studio w)
unfolding quote_item
item-Balances k x input item studio w tidy =
    let quantity = or_else input.quantity 1 in
    let currency = or_else input.currency item.price_currency in
    let same = is_same_purchase input.player_id item.id quantity currency in
    elim (Bool-cases (not (is_active studio.status))) [
      | inl inactive ↦ rw inactive tt
      | inr active ↦ elim (Bool-cases (not (item.is_active && item.is_listed))) [
        | inl hidden ↦ rw (active, hidden) tt
        | inr shown ↦ elim (Bool-cases (out_of_stock item.stock quantity)) [
          | inl short ↦ rw (active, shown, short) tt
          | inr enough ↦
              rw (active, shown, enough)
                (after-Balances k x input item studio quantity currency (find_last same w.db.orders)
                  w tidy (λ o f. found_last same w.db.orders o tidy.order_ids f))
        ]
      ]
    ]

studio-Balances :
    (k : Uuid) (x : External) (input : QuoteInput) (item : Item) (s : Option Studio) (w : World)
    → IsTidy w.db
    → Balances k w (quote_at x input item s w)
studio-Balances k x input item none w tidy = tt
studio-Balances k x input item (some studio) w tidy = item-Balances k x input item studio w tidy

found-Balances :
    (k : Uuid) (x : External) (input : QuoteInput) (item : Option Item) (w : World)
    → IsTidy w.db
    → Balances k w (quote_found x input item w)
found-Balances k x input none w tidy = tt
found-Balances k x input (some item) w tidy =
    studio-Balances k x input item (find_studio item.studio_id w.db) w tidy

rolled-balance :
    {A : Type 0} (k : Uuid) (w : World) (q : Result A × World)
    → Balances k w q
    → balance k (transaction (λ _. q) w).1.db ≡ balance k w.db
unfolding transaction
rolled-balance k w (ok a, v) b = b
rolled-balance k w (err f, v) b = refl

-- However a call for a quote ends, by creating an order, by keeping a pending one and dropping its
-- duplicates, by dropping it for a new one, or by throwing: the usage count of each promotion
-- changes by as much as the number of orders that use it, if one promotion at most has an id and
-- one order at most has an id.
pub create_order_quote-balance :
    (k : Uuid) (x : External) (input : QuoteInput) (w : World)
    → IsTidy w.db
    → balance k (create_order_quote x input w).1.db ≡ balance k w.db
unfolding create_order_quote
create_order_quote-balance k x input w tidy =
    let item = find (λ t. t.id == input.item_id) w.db.items in
    rolled-balance k w (quote_found x input item w) (found-Balances k x input item w tidy)
