-- ===== src/Books/Delivering.antt =====
-- What the deliveries of webhooks do to the orders: they change how an order was delivered, and book
-- nothing.
use xgamefi.Prelude.{
  ℕ, ◌≡◌, inl, inr, refl, Bool, Bool-cases, Option-cases, not, Option, none, some, Text, leb, ◌+◌,
  ◌==◌, find, update, List, [], ◌∷◌, subst,
}
use xgamefi.Schema.{Uuid, Order, Trade, Studio, Delivery, DeliveryStatus}
use xgamefi.World.{World, External, M, modify, next_id, ◌>>=◌}
use xgamefi.Orders.{is_paid, find_order, find_studio, update_order, webhook_url_of}
use xgamefi.Trades.Settlement.{is_ok, item_studio}
use xgamefi.Trades.Ownership.{find_item}
use xgamefi.Jobs.Refund.{find_trade}
use xgamefi.Webhooks.Url.{resolve_webhook_url, is_mock_game_webhook}
use xgamefi.Webhooks.Mock.{
  is_delivered, add_delivery, mark_delivered, record_mock, post_mock, deliver_at, deliver_found,
  deliver_mock_game_webhook,
}
use xgamefi.Webhooks.Delivery.{
  Target, delivery_row, succeed, fail, give_up, attempt_delivery, order_target, deliver_order,
  trade_target_at, trade_target, deliver_listed, listing_item, deliver_trade, find_maybe_order,
  webhook_delivery_processor,
}
use xgamefi.Books.Quoting.{Alike, Keeps-refl, Opens-refl, Opens, Quotes, bind-Quotes}

-- A change of rows that the books do not know.
module _ (f : Order → Order) (alike : (o : Order) → Alike o (f o)) where
  find-update-Alike :
      (p : Order → Bool) (j : Uuid) (os : List Order) (o' : Order)
      → find (λ r. r.id == j) (update p f os) ≡ some o'
      → (o : Order) × (find (λ r. r.id == j) os ≡ some o) × Alike o o'
  unfolding find update
  find-update-Alike p j [] o' e = cc
  find-update-Alike p j (r ∷ os) o' e = elim (Bool-cases (p r)) [
    | inl y ↦ elim (Bool-cases (r.id == j)) [
      | inl here ↦
          let at : (f r).id ≡ r.id = (alike r).0 in
          let is_new : f r ≡ o' = cc (rw (y, at, here) at e) in
          (r, rw here refl, subst (Alike r) is_new (alike r))
      | inr there ↦
          let at : (f r).id ≡ r.id = (alike r).0 in
          rw there (find-update-Alike p j os o' (rw (y, at, there) at e))
    ]
    | inr n ↦ elim (Bool-cases (r.id == j)) [
      | inl here ↦
          let is_new : r ≡ o' = cc (rw (n, here) at e) in
          (r, rw here refl, subst (Alike r) is_new (refl, refl, refl, refl, refl))
      | inr there ↦ rw there (find-update-Alike p j os o' (rw (n, there) at e))
    ]
  ]

  update_order-Quotes : (i : Uuid) → Quotes (modify (update_order i f))
  update_order-Quotes i w =
      (refl, λ j o' e. inl (find-update-Alike (λ r. r.id == i) j w.db.orders o' e))

delivered_order-Quotes :
    (i : Uuid) (now : ℕ) → Quotes (modify (update_order i (mark_delivered now)))
delivered_order-Quotes i now =
    update_order-Quotes (mark_delivered now) (λ o. (refl, refl, refl, refl, refl)) i

succeed-Quotes : (d : Delivery) (status : Option ℕ) → Quotes (succeed d status)
succeed-Quotes d status w = elim (Option-cases d.order_id) [
  | inl e ↦ rw e (refl, Keeps-refl w.db)
  | inr (i, e) ↦ rw e (delivered_order-Quotes i w.now w)
]

give_up-Quotes : (o : Option Uuid) → Quotes (give_up o)
give_up-Quotes none w = Opens-refl w
give_up-Quotes (some i) w =
    update_order-Quotes (λ r. record r { delivery_status = DeliveryStatus.failed })
      (λ r. (refl, refl, refl, refl, refl)) i w

fail-Quotes : (d : Delivery) (status : Option ℕ) → Quotes (fail d status)
fail-Quotes d status w = elim (Bool-cases (leb d.max_attempts (d.attempt + 1))) [
  | inl last ↦ elim (Option-cases d.order_id) [
    | inl e ↦ rw (last, e) (refl, Keeps-refl w.db)
    | inr (i, e) ↦ rw (last, e) (give_up-Quotes (some i) w)
  ]
  | inr more ↦ rw more (refl, Keeps-refl w.db)
]

attempt_delivery-Quotes : (x : External) (t : Target) → Quotes (attempt_delivery x t)
unfolding attempt_delivery
attempt_delivery-Quotes x t w =
    let i = x.fresh_id w.rows in
    let d = delivery_row x i t in
    let status = x.post t.url i in
    let made = (modify (add_delivery d) (next_id x w).1).1 in
    elim (Bool-cases (is_ok status)) [
      | inl y ↦ rw y (succeed-Quotes d status made)
      | inr n ↦ rw n (fail-Quotes d status made)
    ]

targeted-Quotes : (x : External) (m : M Target) → Quotes m → Quotes (m >>= attempt_delivery x)
targeted-Quotes x m h = bind-Quotes m (attempt_delivery x) h (attempt_delivery-Quotes x)

order_target-Quotes : (x : External) (o : Order) (url : Option Text) → Quotes (order_target x o url)
order_target-Quotes x o none w = Opens-refl w
order_target-Quotes x o (some url) w = Opens-refl w

trade_target-Quotes : (x : External) (t : Trade) (s : Option Studio) → Quotes (trade_target x t s)
trade_target-Quotes x t none w = Opens-refl w
trade_target-Quotes x t (some s) w = at s.webhook_url
  where
    at : (url : Option Text) → Opens w (trade_target_at x t s.id url w).1
    at none = Opens-refl w
    at (some url) = Opens-refl w

deliver_order-Quotes : (x : External) (o : Option Order) → Quotes (deliver_order x o)
deliver_order-Quotes x none w = Opens-refl w
deliver_order-Quotes x (some o) w = elim (Bool-cases (is_delivered o.delivery_status)) [
  | inl done ↦ rw done (Opens-refl w)
  | inr open_order ↦ elim (Bool-cases (not (is_paid o.payment_status))) [
    | inl unpaid ↦ rw (open_order, unpaid) (Opens-refl w)
    | inr is_due ↦
        rw (open_order, is_due)
          (targeted-Quotes x (order_target x o (webhook_url_of (find_studio o.studio_id w.db)))
            (order_target-Quotes x o (webhook_url_of (find_studio o.studio_id w.db))) w)
  ]
]

deliver_listed-Quotes :
    (x : External) (t : Trade) (item : Option Uuid) → Quotes (deliver_listed x t item)
deliver_listed-Quotes x t none w = Opens-refl w
deliver_listed-Quotes x t (some item) w =
    let studio = item_studio (find_item item w.db) w.db in
    targeted-Quotes x (trade_target x t studio) (trade_target-Quotes x t studio) w

deliver_trade-Quotes : (x : External) (t : Option Trade) → Quotes (deliver_trade x t)
deliver_trade-Quotes x none w = Opens-refl w
deliver_trade-Quotes x (some t) w = deliver_listed-Quotes x t (listing_item t.listing_id w.db) w

-- A delivery leaves the ledger and what the books know of the orders as they are.
pub webhook_delivery_processor-Opens :
    (x : External) (o t : Option Uuid) (w : World) → Opens w (webhook_delivery_processor x o t w).1
unfolding webhook_delivery_processor
webhook_delivery_processor-Opens x o (some i) w = deliver_trade-Quotes x (find_trade i w.db) w
webhook_delivery_processor-Opens x o none w = deliver_order-Quotes x (find_maybe_order o w.db) w

record_mock-Quotes :
    (x : External) (o : Order) (url : Text) (status : Option ℕ)
    → Quotes (record_mock x o url status)
record_mock-Quotes x o url status w = delivered_order-Quotes o.id w.now w

post_mock-Quotes : (x : External) (o : Order) (stored : Text) → Quotes (post_mock x o stored)
post_mock-Quotes x o stored =
    let url = resolve_webhook_url x stored in
    elim (Bool-cases (is_ok (x.post url o.id))) [
      | inl y ↦ rw y (record_mock-Quotes x o url (x.post url o.id))
      | inr n ↦ rw n Opens-refl
    ]

deliver_at-Quotes : (x : External) (o : Order) (url : Option Text) → Quotes (deliver_at x o url)
deliver_at-Quotes x o none w = Opens-refl w
deliver_at-Quotes x o (some url) w = elim (Bool-cases (not (is_mock_game_webhook url))) [
  | inl other ↦ rw other (Opens-refl w)
  | inr mock ↦ elim (Bool-cases (is_delivered o.delivery_status)) [
    | inl done ↦ rw (mock, done) (Opens-refl w)
    | inr open_order ↦ rw (mock, open_order) (post_mock-Quotes x o url w)
  ]
]

deliver_found-Opens :
    (x : External) (o : Option Order) (w : World) → Opens w (deliver_found x o w).1
deliver_found-Opens x none w = Opens-refl w
deliver_found-Opens x (some o) w = elim (Bool-cases (not (is_paid o.payment_status))) [
  | inl unpaid ↦ rw unpaid (Opens-refl w)
  | inr is_due ↦ rw is_due (deliver_at-Quotes x o (webhook_url_of (find_studio o.studio_id w.db)) w)
]

-- The same for the delivery to the mock game.
pub deliver_mock_game_webhook-Opens :
    (x : External) (i : Uuid) (w : World) → Opens w (deliver_mock_game_webhook x i w).1
unfolding deliver_mock_game_webhook
deliver_mock_game_webhook-Opens x i w = deliver_found-Opens x (find_order i w.db) w
