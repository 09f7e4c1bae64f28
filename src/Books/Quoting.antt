-- ===== src/Books/Quoting.antt =====
-- What a quote does to the orders: it adds a pending one, or drops some, and books nothing.
use xgamefi.Prelude.{
  ℕ, ℤ, pos, negsuc, ◌-ℤ◌, ◌≡◌, ◌⊎◌, inl, inr, refl, ap, sym, ◌∙◌, Bool, not, ◌&&◌, Bool-cases,
  Option, none, some, List, [], ◌∷◌, ◌==◌, find, find_last, find-remove, find-append_cases, any,
  where_is, is_some, or_else,
}
use xgamefi.Schema.{Uuid, Order, PaymentStatus, Currency, Item, Studio}
use xgamefi.World.{
  World, Db, External, Result, ok, err, M, pure, modify, ◌>>=◌, next_id, transaction, proceed,
}
use xgamefi.Promotions.{truthy, PromotionResult}
use xgamefi.Orders.{find_order, find_studio}
use xgamefi.Checkout.Payment.{PaymentQuote, build_quote}
use xgamefi.Checkout.{
  QuoteInput, is_active, out_of_stock, add_usage, delete_order, drop_order, drop_orders, new_order,
  add_order, quote_order, create_order, best_for, quote_fresh, quote_existing, quote_after,
  is_same_purchase, quote_item, quote_at, quote_found, create_order_quote,
}

-- What the books know of an order has not changed.
abbrev pub Alike : Order → Order → Type 0
Alike o o' =
    (o'.id ≡ o.id)
    × (o'.currency ≡ o.currency)
    × (o'.gross_amount ≡ o.gross_amount)
    × (o'.stellar_tx_hash ≡ o.stellar_tx_hash)
    × (o'.payment_status ≡ o.payment_status)

-- Each order is one from before, alike, or it is pending.
abbrev pub Keeps : Db → Db → Type 0
Keeps d d' =
    (j : Uuid) (o' : Order)
    → find_order j d' ≡ some o'
    → ((o : Order) × (find_order j d ≡ some o) × Alike o o')
      ⊎ (o'.payment_status ≡ PaymentStatus.pending)

-- The ledger is the same, and so is what the books know of the orders.
abbrev pub Opens : World → World → Type 0
Opens w w' = (w'.db.ledger ≡ w.db.ledger) × Keeps w.db w'.db

Alike-trans : (o o' o'' : Order) → Alike o o' → Alike o' o'' → Alike o o''
Alike-trans o o' o'' (i, c, g, t, p) (i', c', g', t', p') = (i' ∙ i, c' ∙ c, g' ∙ g, t' ∙ t, p' ∙ p)

pub Keeps-refl : (d : Db) → Keeps d d
Keeps-refl d j o e = inl (o, e, (refl, refl, refl, refl, refl))

pub Opens-refl : (w : World) → Opens w w
Opens-refl w = (refl, Keeps-refl w.db)

Opens-trans : (w w' w'' : World) → Opens w w' → Opens w' w'' → Opens w w''
Opens-trans w w' w'' (l, f) (l', f') = (
  l' ∙ l,
  λ j o'' e. elim (f' j o'' e) [
    | inr new ↦ inr new
    | inl (o', e', a') ↦ elim (f j o' e') [
      | inl (o, e0, a) ↦ inl (o, e0, Alike-trans o o' o'' a a')
      | inr new ↦ inr (let (i, c, g, t, p) = a' in p ∙ new)
    ]
  ],
)

-- A call that does no more, whatever the world.
abbrev pub Quotes : {A : Type 0} → M A → Type 0
Quotes m = (w : World) → Opens w (m w).1

pub bind-Quotes :
    {A B : Type 0} (m : M A) (k : A → M B) → Quotes m → ((a : A) → Quotes (k a)) → Quotes (m >>= k)
bind-Quotes {A} {B} m k hm hk w = go (m w) (hm w)
  where
    go : (q : Result A × World) → Opens w q.1 → Opens w (proceed q.0 k q.1).1
    go (ok a, w') h = Opens-trans w w' (k a w').1 h (hk a w')
    go (err e, w') h = h

add_usage-Quotes : (d : ℤ) (p : Option Uuid) → Quotes (add_usage d p)
unfolding add_usage
add_usage-Quotes d none w = Opens-refl w
add_usage-Quotes d (some i) w = elim (Bool-cases (any (λ p. p.id == i) w.db.promotions)) [
  | inl y ↦ rw y (refl, Keeps-refl w.db)
  | inr n ↦ rw n (Opens-refl w)
]

drop_order-Quotes : (o : Order) → Quotes (drop_order o)
unfolding drop_order
drop_order-Quotes o =
    bind-Quotes (add_usage (negsuc 0) o.promotion_id) (λ _. modify (delete_order o.id))
      (add_usage-Quotes (negsuc 0) o.promotion_id)
      λ _ w. (refl, λ j r e. Keeps-refl w.db j r (find-remove (λ a. a.id) o.id j w.db.orders r e))

drop_orders-Quotes : (os : List Order) → Quotes (drop_orders os)
unfolding drop_orders
drop_orders-Quotes [] = λ w. Opens-refl w
drop_orders-Quotes (o ∷ os) =
    bind-Quotes (drop_order o) (λ _. drop_orders os) (drop_order-Quotes o)
      λ _. drop_orders-Quotes os

quote_order-Quotes :
    (x : External) (currency : Currency) (o : Order) → Quotes (quote_order x currency o)
unfolding build_quote
quote_order-Quotes x currency o =
    bind-Quotes (build_quote x currency (o.gross_amount -ℤ o.discount_amount) o.id)
      (λ q. pure (o, q)) (λ w. Opens-refl w) (λ q w. Opens-refl w)

add_order-Quotes :
    (o : Order) → o.payment_status ≡ PaymentStatus.pending → Quotes (modify (add_order o))
add_order-Quotes o p w = (
  refl,
  λ j a e. elim (find-append_cases (λ r. r.id) j o w.db.orders) [
    | inl same ↦ Keeps-refl w.db j a (sym same ∙ e)
    | inr (missing, given) ↦
        let is_new : o ≡ a = cc (sym given ∙ e) in inr (ap (λ b. b.payment_status) (sym is_new) ∙ p)
  ],
)

create_order-Quotes :
    (x : External) (input : QuoteInput) (item : Item) (studio : Studio) (quantity : ℕ)
    (currency : Currency) (r : PromotionResult)
    → Quotes (create_order x input item studio quantity currency r)
unfolding new_order
create_order-Quotes x input item studio quantity currency r =
    let finish : Order → M (Order × PaymentQuote) =
      λ o. add_usage (pos 1) r.promotion_id >>= λ _. quote_order x currency o in
    let write : Uuid → M (Order × PaymentQuote) = λ i.
      let o = new_order input item studio quantity currency r i in
      modify (add_order o) >>= λ _. finish o in
    bind-Quotes (next_id x) write (λ w. Opens-refl w)
      λ i.
        let o = new_order input item studio quantity currency r i in
        bind-Quotes (modify (add_order o)) (λ _. finish o) (add_order-Quotes o refl)
          λ _.
            bind-Quotes (add_usage (pos 1) r.promotion_id) (λ _. quote_order x currency o)
              (add_usage-Quotes (pos 1) r.promotion_id) (λ _. quote_order-Quotes x currency o)

quote_fresh-Quotes :
    (x : External) (input : QuoteInput) (item : Item) (studio : Studio) (quantity : ℕ)
    (currency : Currency)
    → Quotes (quote_fresh x input item studio quantity currency)
unfolding quote_fresh
quote_fresh-Quotes x input item studio quantity currency w =
    let r = best_for input item studio quantity w in
    elim (Bool-cases (truthy input.promotion_code && not (is_some r.promotion_id))) [
      | inl y ↦ rw y (Opens-refl w)
      | inr n ↦ rw n (create_order-Quotes x input item studio quantity currency r w)
    ]

quote_existing-Quotes :
    (x : External) (o : Order) (same : Order → Bool) (currency : Currency)
    → Quotes (quote_existing x o same currency)
unfolding quote_existing
quote_existing-Quotes x o same currency w =
    let duplicates = where_is (λ d. same d && not (d.id == o.id)) w.db.orders in
    bind-Quotes (drop_orders duplicates) (λ _. quote_order x currency o)
      (drop_orders-Quotes duplicates) (λ _. quote_order-Quotes x currency o) w

quote_after-Quotes :
    (x : External) (input : QuoteInput) (item : Item) (studio : Studio) (quantity : ℕ)
    (currency : Currency) (o : Option Order)
    → Quotes (quote_after x input item studio quantity currency o)
quote_after-Quotes x input item studio quantity currency none =
    quote_fresh-Quotes x input item studio quantity currency
quote_after-Quotes x input item studio quantity currency (some o) =
    elim (Bool-cases (truthy input.promotion_code)) [
      | inl y ↦ rw y (
          bind-Quotes (drop_order o) (λ _. quote_fresh x input item studio quantity currency)
            (drop_order-Quotes o) (λ _. quote_fresh-Quotes x input item studio quantity currency))
      | inr n ↦ rw n (
          quote_existing-Quotes x o (is_same_purchase input.player_id item.id quantity currency)
            currency)
    ]

quote_item-Quotes :
    (x : External) (input : QuoteInput) (item : Item) (studio : Studio)
    → Quotes (quote_item x input item studio)
unfolding quote_item
quote_item-Quotes x input item studio w =
    let quantity = or_else input.quantity 1 in
    let currency = or_else input.currency item.price_currency in
    let existing =
      find_last (is_same_purchase input.player_id item.id quantity currency) w.db.orders in
    elim (Bool-cases (not (is_active studio.status))) [
      | inl y ↦ rw y (Opens-refl w)
      | inr a ↦ elim (Bool-cases (not (item.is_active && item.is_listed))) [
        | inl y ↦ rw (a, y) (Opens-refl w)
        | inr b ↦ elim (Bool-cases (out_of_stock item.stock quantity)) [
          | inl y ↦ rw (a, b, y) (Opens-refl w)
          | inr c ↦
              rw (a, b, c) (quote_after-Quotes x input item studio quantity currency existing w)
        ]
      ]
    ]

quote_at-Quotes :
    (x : External) (input : QuoteInput) (item : Item) (s : Option Studio)
    → Quotes (quote_at x input item s)
quote_at-Quotes x input item none = λ w. Opens-refl w
quote_at-Quotes x input item (some studio) = quote_item-Quotes x input item studio

quote_found-Opens :
    (x : External) (input : QuoteInput) (item : Option Item) (w : World)
    → Opens w (quote_found x input item w).1
quote_found-Opens x input none w = Opens-refl w
quote_found-Opens x input (some item) w =
    quote_at-Quotes x input item (find_studio item.studio_id w.db) w

rolled-Opens :
    {A : Type 0} (w : World) (q : Result A × World)
    → Opens w q.1
    → Opens w (transaction (λ _. q) w).1
unfolding transaction
rolled-Opens w (ok a, w') h = h
rolled-Opens w (err e, w') h = (refl, Keeps-refl w.db)

-- A quote leaves the ledger as it is, and an order that is found after it was found before, alike,
-- or is pending.
pub create_order_quote-Opens :
    (x : External) (input : QuoteInput) (w : World) → Opens w (create_order_quote x input w).1
unfolding create_order_quote
create_order_quote-Opens x input w =
    let item = find (λ t. t.id == input.item_id) w.db.items in
    rolled-Opens w (quote_found x input item w) (quote_found-Opens x input item w)
