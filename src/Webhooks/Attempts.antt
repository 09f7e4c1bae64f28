-- ===== src/Webhooks/Attempts.antt =====
-- How often a webhook is tried, and what a delivered order is.
use xgamefi.Prelude.{
  ◌≤◌, ◌≡◌, ◌≢◌, inl, inr, refl, arith, true, false, Option, none, some, Text, leb, Bool-cases,
  Option-cases, ◌==◌, find-update_row, find-accepts, ==_iff,
}
use xgamefi.Schema.{Uuid, Order, Trade, Studio}
use xgamefi.World.{World, External, Result, ok, ◌>>=◌}
use xgamefi.Webhooks.Mock.{is_delivered, mark_delivered}
use xgamefi.Webhooks.Delivery.{
  DeliveryResult, delivered, exhausted, Target, attempt_delivery, webhook_delivery_processor,
  deliver_order, deliver_trade, deliver_listed, trade_target, trade_target_at, order_target,
  listing_item, find_maybe_order,
}
use xgamefi.Jobs.Refund.{find_trade}
use xgamefi.Orders.{is_paid, find_order, find_studio, webhook_url_of}
use xgamefi.Trades.Settlement.{is_ok, item_studio}
use xgamefi.Trades.Ownership.{find_item}

-- A run did not give up, and queued nothing.
abbrev pub GoesOn : World → Result DeliveryResult × World → Type 0
GoesOn w e = (e.0 ≢ ok exhausted) × (e.1.jobs ≡ w.jobs)

attempt_delivery-GoesOn :
    (x : External) (t : Target) (w : World)
    → 2 ≤ x.webhook_max_attempts
    → GoesOn w (attempt_delivery x t w)
unfolding attempt_delivery
attempt_delivery-GoesOn x t w two = elim (Bool-cases (is_ok (x.post t.url (x.fresh_id w.rows)))) [
  | inl good ↦ elim (Option-cases t.order_id) [
    | inl no_order ↦ rw (good, no_order) (λ e. cc, refl)
    | inr (i, e) ↦ rw (good, e) (λ e. cc, refl)
  ]
  | inr bad ↦
      let more : leb x.webhook_max_attempts 1 ≡ false = ground arith in
      rw (bad, more) (λ e. cc, refl)
]

order-GoesOn :
    (x : External) (o : Option Order) (w : World)
    → 2 ≤ x.webhook_max_attempts
    → GoesOn w (deliver_order x o w)
order-GoesOn x none w two = (λ e. cc, refl)
order-GoesOn x (some o) w two = elim (Bool-cases (is_delivered o.delivery_status)) [
  | inl done ↦ rw done (λ e. cc, refl)
  | inr open_one ↦ elim (Bool-cases (is_paid o.payment_status)) [
    | inr unpaid ↦ rw (open_one, unpaid) (λ e. cc, refl)
    | inl paid ↦ rw (open_one, paid) (targeted (webhook_url_of (find_studio o.studio_id w.db)))
  ]
]
  where
    targeted : (url : Option Text) → GoesOn w ((order_target x o url >>= attempt_delivery x) w)
    targeted none = (λ e. cc, refl)
    targeted (some url) = attempt_delivery-GoesOn x _ w two

trade-GoesOn :
    (x : External) (t : Trade) (s : Option Studio) (w : World)
    → 2 ≤ x.webhook_max_attempts
    → GoesOn w ((trade_target x t s >>= attempt_delivery x) w)
trade-GoesOn x t none w two = (λ e. cc, refl)
trade-GoesOn x t (some s) w two = targeted s.webhook_url
  where
    targeted :
        (url : Option Text) → GoesOn w ((trade_target_at x t s.id url >>= attempt_delivery x) w)
    targeted none = (λ e. cc, refl)
    targeted (some url) = attempt_delivery-GoesOn x _ w two

listed-GoesOn :
    (x : External) (t : Trade) (item : Option Uuid) (w : World)
    → 2 ≤ x.webhook_max_attempts
    → GoesOn w (deliver_listed x t item w)
listed-GoesOn x t none w two = (λ e. cc, refl)
listed-GoesOn x t (some item) w two =
    trade-GoesOn x t (item_studio (find_item item w.db) w.db) w two

traded-GoesOn :
    (x : External) (t : Option Trade) (w : World)
    → 2 ≤ x.webhook_max_attempts
    → GoesOn w (deliver_trade x t w)
traded-GoesOn x none w two = (λ e. cc, refl)
traded-GoesOn x (some t) w two = listed-GoesOn x t (listing_item t.listing_id w.db) w two

-- With two attempts or more configured, no run of the webhook job ends exhausted, and none queues a
-- refund or any other job.
pub webhook_delivery_processor-GoesOn :
    (x : External) (order trade : Option Uuid) (w : World)
    → 2 ≤ x.webhook_max_attempts
    → GoesOn w (webhook_delivery_processor x order trade w)
unfolding webhook_delivery_processor
webhook_delivery_processor-GoesOn x order none w two =
    order-GoesOn x (find_maybe_order order w.db) w two
webhook_delivery_processor-GoesOn x order (some i) w two = traded-GoesOn x (find_trade i w.db) w two

-- The order is there and is delivered.
abbrev pub IsDelivered : Uuid → World → Type 0
IsDelivered i w =
    (o : Order) × (find_order i w.db ≡ some o) × (is_delivered o.delivery_status ≡ true)

attempt_delivery-IsDelivered :
    (x : External) (t : Target) (i : Uuid) (o : Order) (w : World)
    → t.order_id ≡ some o.id
    → o.id ≡ i
    → find_order i w.db ≡ some o
    → (attempt_delivery x t w).0 ≡ ok delivered
    → IsDelivered i (attempt_delivery x t w).1
unfolding attempt_delivery
attempt_delivery-IsDelivered x t i o w linked same f h =
    elim (Bool-cases (is_ok (x.post t.url (x.fresh_id w.rows)))) [
      | inl good ↦
          rw (good, linked)
            (
              mark_delivered w.now o,
              find-update_row (λ r. r.id) (mark_delivered w.now) (λ r. refl) i w.db.orders o same f,
              refl,
            )
      | inr bad ↦ elim (Bool-cases (leb x.webhook_max_attempts 1)) [
        | inl last ↦ cc (rw (bad, last, linked) at h)
        | inr more ↦ cc (rw (bad, more) at h)
      ]
    ]

order-IsDelivered :
    (x : External) (i : Uuid) (o : Option Order) (w : World)
    → find_order i w.db ≡ o
    → (deliver_order x o w).0 ≡ ok delivered
    → IsDelivered i (deliver_order x o w).1
order-IsDelivered x i none w f h = cc
order-IsDelivered x i (some o) w f h = elim (Bool-cases (is_delivered o.delivery_status)) [
  | inl done ↦ rw done (o, f, done)
  | inr open_one ↦ elim (Bool-cases (is_paid o.payment_status)) [
    | inr unpaid ↦ cc (rw (open_one, unpaid) at h)
    | inl paid ↦
        rw (open_one, paid)
          (targeted (webhook_url_of (find_studio o.studio_id w.db)) (rw (open_one, paid) at h))
  ]
]
  where
    targeted :
        (url : Option Text)
        → ((order_target x o url >>= attempt_delivery x) w).0 ≡ ok delivered
        → IsDelivered i ((order_target x o url >>= attempt_delivery x) w).1
    targeted none h = cc
    targeted (some url) h =
        attempt_delivery-IsDelivered x _ i o w refl
          ((==_iff o.id i).0 (find-accepts (λ r. r.id == i) w.db.orders o f)) f h

-- A webhook job for an order that reports delivery leaves the order marked delivered, and the next
-- run of the job reports delivery again, sends nothing and changes nothing.
pub webhook_delivery_processor-IsDelivered :
    (x : External) (i : Uuid) (w : World)
    → (webhook_delivery_processor x (some i) none w).0 ≡ ok delivered
    → let w' = (webhook_delivery_processor x (some i) none w).1 in
      IsDelivered i w' × (webhook_delivery_processor x (some i) none w' ≡ (ok delivered, w'))
unfolding webhook_delivery_processor
webhook_delivery_processor-IsDelivered x i w h =
    let done = order-IsDelivered x i (find_order i w.db) w refl h in
    let (o, f, d) = done in (done, rw (f, d))
