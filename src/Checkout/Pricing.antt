-- ===== src/Checkout/Pricing.antt =====
-- The amounts of a new order.
use xgamefi.Prelude.{
  ℕ, ◌+◌, ◌-◌, suc, ◌==◌, any, ◌*◌, ◌≤◌, ◌≡◌, ◌⊎◌, inl, inr, refl, arith, ℤ, pos, negsuc, ◌+ℤ◌,
  ◌-ℤ◌, ◌≤ℤ◌, Option, none, some, List, [], ◌∷◌, Has, where_is, Bool-cases, ◌&&◌, not, is_some,
}
use xgamefi.Schema.{Uuid, Currency, Item, Studio, Order, Promotion}
use xgamefi.Money.Fees.{fee_amount-net_amount, fee_amount_bounds}
use xgamefi.Promotions.{
  PromotionArgs, PromotionResult, no_discount, apply_promotion, best_promotion, truthy,
}
use xgamefi.Promotions.Discount.{apply_promotion-IsFair}
use xgamefi.Promotions.Best.{best_promotion_maximal}
use xgamefi.World.{World, External, ok, err, row_not_found}
use xgamefi.Checkout.Payment.{PaymentQuote, quoted, unsigned, build_quote}
use xgamefi.Checkout.{
  QuoteInput, new_order, create_order, add_usage, with_usage, add_order, quote_order, best_for,
  quote_fresh, promotion_args, has_paid_order, is_candidate,
}

-- The amounts of an order fit together: the discount lies between zero and the gross amount, and
-- fee and net, neither negative, make up the rest.
pub record IsPriced (o : Order) : Type 0 where
  pub discount_nonneg : pos 0 ≤ℤ o.discount_amount
  pub discount_le : o.discount_amount ≤ℤ o.gross_amount
  pub split : o.platform_fee_amount +ℤ o.net_to_studio_amount ≡ o.gross_amount -ℤ o.discount_amount
  pub fee_nonneg : pos 0 ≤ℤ o.platform_fee_amount
  pub net_nonneg : pos 0 ≤ℤ o.net_to_studio_amount

-- The discount that is found lies within the gross amount.
abbrev IsWithin : ℕ → PromotionResult → Type 0
IsWithin gross r = (pos 0 ≤ℤ r.discount_amount) × (r.discount_amount ≤ℤ pos gross)

fair-IsWithin :
    (args : PromotionArgs) (u : ℕ) (r : PromotionResult) (ps : List Promotion)
    → args.unit_price ≡ pos u
    → Has (λ p. r ≡ apply_promotion p args) ps
    → IsWithin (u * args.quantity) r
fair-IsWithin args u r [] price h = absurd h
fair-IsWithin args u r (p ∷ ps) price (inr h) = fair-IsWithin args u r ps price h
fair-IsWithin args u r (p ∷ ps) price (inl e) = rw e (elim (apply_promotion-IsFair p args u price) [
  | inl nothing ↦ rw nothing (omega arith, omega arith)
  | inr (positive, le, i) ↦ (omega arith, le)
])

best_for-IsWithin :
    (input : QuoteInput) (item : Item) (studio : Studio) (quantity u : ℕ) (w : World)
    → item.price_amount ≡ pos u
    → IsWithin (u * quantity) (best_for input item studio quantity w)
unfolding best_for
best_for-IsWithin input item studio quantity u w price =
    let args = promotion_args input item quantity w.now (has_paid_order input.player_id w.db) in
    let ps = where_is (is_candidate studio.id item.id) w.db.promotions in
    elim (best_promotion_maximal args ps).1 [
      | inl nothing ↦ rw nothing (omega arith, omega arith)
      | inr one ↦ fair-IsWithin args u (best_promotion args ps no_discount) ps price one
    ]

sub_nonneg : (g : ℕ) (d : ℤ) → d ≤ℤ pos g → (n : ℕ) × (pos g -ℤ d ≡ pos n)
unfolding ◌-ℤ◌
sub_nonneg g (pos d) h = (g - d, ground arith)
sub_nonneg g (negsuc d) h = (g + suc d, ground arith)

new_order-IsPriced :
    (input : QuoteInput) (item : Item) (studio : Studio) (quantity u : ℕ) (currency : Currency)
    (r : PromotionResult) (i : Uuid)
    → item.price_amount ≡ pos u
    → studio.platform_fee_bps ≤ 10000
    → IsWithin (u * quantity) r
    → IsPriced (new_order input item studio quantity currency r i)
unfolding new_order
new_order-IsPriced input item studio quantity u currency r i price bps (nonneg, le) =
    let bps_of = studio.platform_fee_bps in
    let (n, e) = sub_nonneg (u * quantity) r.discount_amount le in
    let (fee_nonneg, fee_le, net_nonneg, net_le, exact) = fee_amount_bounds n bps_of bps in
    rw price (record {
      discount_nonneg = nonneg;
      discount_le = le;
      split = fee_amount-net_amount (pos (u * quantity) -ℤ r.discount_amount) bps_of;
      fee_nonneg = rw e fee_nonneg;
      net_nonneg = rw e net_nonneg;
    })

-- A quote is the payment of that amount with that memo, or it throws.
pub quote_order-ok :
    (x : External) (currency : Currency) (o : Order) (w : World) {p : Order} {q : PaymentQuote}
    → (quote_order x currency o w).0 ≡ ok (p, q)
    → (p ≡ o) × (q ≡ quoted x currency (o.gross_amount -ℤ o.discount_amount) o.id)
unfolding build_quote
quote_order-ok x currency o w h =
    elim (Bool-cases
      (x.builds (unsigned (quoted x currency (o.gross_amount -ℤ o.discount_amount) o.id)))) [
        | inl y ↦ (cc (rw y at h), cc (rw y at h))
        | inr n ↦ (cc (rw n at h), cc (rw n at h))
      ]

pub add_usage_outcome :
    (d : ℤ) (i : Option Uuid) (w : World)
    → ((w' : World) × (add_usage d i w ≡ (ok tt, w')) × (w'.db.orders ≡ w.db.orders))
      ⊎ (add_usage d i w ≡ (err row_not_found, w))
unfolding add_usage
add_usage_outcome d none w = inl (w, refl, refl)
add_usage_outcome d (some i) w = elim (Bool-cases (any (λ p. p.id == i) w.db.promotions)) [
  | inl there ↦ inl (with_usage d i w, rw there refl, refl)
  | inr gone ↦ inr (rw gone)
]

-- What `create_order` returns, if it returns.
pub create_order-ok :
    (x : External) (input : QuoteInput) (item : Item) (studio : Studio) (quantity : ℕ)
    (currency : Currency) (r : PromotionResult) (w : World) {p : Order} {q : PaymentQuote}
    → (create_order x input item studio quantity currency r w).0 ≡ ok (p, q)
    → let o = new_order input item studio quantity currency r (x.fresh_id w.rows) in
      (p ≡ o) × (q ≡ quoted x currency (o.gross_amount -ℤ o.discount_amount) o.id)
create_order-ok x input item studio quantity currency r w h =
    let o = new_order input item studio quantity currency r (x.fresh_id w.rows) in
    let v = record w { rows = w.rows + 1; db = add_order o w.db } in
    elim (add_usage_outcome (pos 1) r.promotion_id v) [
      | inl (w', e, kept) ↦ quote_order-ok x currency o w' (rw e at h)
      | inr e ↦ cc (rw e at h)
    ]

-- The order of a new quote has amounts that fit together, for an item price of zero or more and a
-- fee rate of at most 10000 basis points.
pub quote_fresh-IsPriced :
    (x : External) (input : QuoteInput) (item : Item) (studio : Studio) (quantity u : ℕ)
    (currency : Currency) (w : World) {p : Order} {q : PaymentQuote}
    → item.price_amount ≡ pos u
    → studio.platform_fee_bps ≤ 10000
    → (quote_fresh x input item studio quantity currency w).0 ≡ ok (p, q)
    → IsPriced p
unfolding quote_fresh
quote_fresh-IsPriced x input item studio quantity u currency w price bps h =
    let r = best_for input item studio quantity w in
    let within = best_for-IsWithin input item studio quantity u w price in
    elim (Bool-cases (truthy input.promotion_code && not (is_some r.promotion_id))) [
      | inl invalid ↦ cc (rw invalid at h)
      | inr valid ↦
          let (same, built) =
            create_order-ok x input item studio quantity currency r w (rw valid at h) in
          rw same (
            new_order-IsPriced input item studio quantity u currency r (x.fresh_id w.rows) price bps
              within)
    ]
