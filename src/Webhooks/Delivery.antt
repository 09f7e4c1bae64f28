-- ===== src/Webhooks/Delivery.antt =====
-- apps/worker/src/jobs/webhook-delivery.ts: the processor of a webhook job. What is signed and
-- sent does not matter here: `External.post` is the studio's answer to the request.
use xgamefi.Prelude.{
  ℕ, ◌+◌, ◌*◌, ◌^◌, min, ⊤, Bool, not, Option, none, some, Text, leb, ◌==◌, if◌then◌else◌, update,
}
use xgamefi.Schema.{
  Uuid, DeliveryStatus, WebhookStatus, WebhookEvent, purchase_completed, p2p_trade_completed, Order,
  Trade, Studio, Delivery,
}
use xgamefi.World.{
  Db, delivery_event, refund_order, External, order_not_found, trade_not_found, not_paid,
  no_webhook_url, listing_not_found, webhook_failed, err, M, pure, throw, gets, modify, publish,
  enqueue, next_id, ◌>>=◌, ◌>>◌,
}
use xgamefi.Webhooks.Url.{resolve_webhook_url}
use xgamefi.Webhooks.Mock.{is_delivered, add_delivery, mark_delivered}
use xgamefi.Trades.Settlement.{is_ok, item_studio}
use xgamefi.Trades.Ownership.{find_item}
use xgamefi.Trades.Quote.{find_listing}
use xgamefi.Jobs.Refund.{find_trade}
use xgamefi.Orders.{is_paid, find_order, find_studio, update_order, webhook_url_of}

pub data DeliveryResult : Type 0 where
  delivered exhausted : DeliveryResult

-- What is to be delivered: the studio, the address, and the order or the trade.
pub record Target : Type 0 where
  pub studio_id : Uuid
  pub url : Text
  pub event : WebhookEvent
  pub order_id : Option Uuid
  pub trade_id : Option Uuid

-- A row is created with `attempt: 0` on every run of the job.
abbrev pub delivery_row : External → Uuid → Target → Delivery
delivery_row x i t = record {
  id = i;
  studio_id = t.studio_id;
  event = t.event;
  order_id = t.order_id;
  trade_id = t.trade_id;
  url = t.url;
  attempt = 0;
  max_attempts = x.webhook_max_attempts;
  status = WebhookStatus.pending;
  response_status = none;
  next_attempt_at = none;
  delivered_at = none;
}

abbrev pub update_delivery : Uuid → (Delivery → Delivery) → Db → Db
update_delivery i f db = record db { deliveries = update (λ d. d.id == i) f db.deliveries }

abbrev pub on_order : Option Uuid → (Uuid → M ⊤) → M ⊤
on_order none f = pure tt
on_order (some i) f = f i

abbrev pub succeed : Delivery → Option ℕ → M DeliveryResult
succeed d status = do
  now ← gets (λ w. w.now)
  modify (
      update_delivery d.id (λ r. record r {
        status = WebhookStatus.delivered;
        response_status = status;
        delivered_at = some now;
      }))
  on_order d.order_id λ i. modify (update_order i (mark_delivered now))
  on_order d.order_id λ i. publish (delivery_event i DeliveryStatus.delivered)
  pure delivered

-- `Math.min(2 ** nextAttempt * 1000, 60_000)`
unfoldable pub backoff_ms : ℕ → ℕ
backoff_ms attempt = min (2 ^ attempt * 1000) 60000

abbrev pub mark_failed : Bool → ℕ → Option ℕ → ℕ → Delivery → Delivery
mark_failed is_exhausted attempt status now r = record r {
  attempt = attempt;
  response_status = status;
  status = if is_exhausted then WebhookStatus.exhausted else WebhookStatus.failed;
  next_attempt_at = if is_exhausted then none else some (now + backoff_ms attempt);
}

-- The order of an exhausted delivery fails, and its refund is queued.
abbrev pub give_up : Option Uuid → M DeliveryResult
give_up order_id = do
  on_order order_id λ i.
      modify (update_order i (λ o. record o { delivery_status = DeliveryStatus.failed }))
      >> enqueue (refund_order i)
  pure exhausted

abbrev pub fail : Delivery → Option ℕ → M DeliveryResult
fail d status = do
  now ← gets (λ w. w.now)
  let attempt = d.attempt + 1
  let is_exhausted = leb d.max_attempts attempt
  modify (update_delivery d.id (mark_failed is_exhausted attempt status now))
  if is_exhausted then give_up d.order_id else throw (webhook_failed status attempt)

unfoldable pub attempt_delivery : External → Target → M DeliveryResult
attempt_delivery x t = do
  i ← next_id x
  let d = delivery_row x i t
  modify (add_delivery d)
  let status = x.post t.url i
  if is_ok status then succeed d status else fail d status

abbrev pub order_target : External → Order → Option Text → M Target
order_target x o none = throw no_webhook_url
order_target x o (some url) = pure (record {
  studio_id = o.studio_id;
  url = resolve_webhook_url x url;
  event = purchase_completed;
  order_id = some o.id;
  trade_id = none;
})

abbrev pub deliver_order : External → Option Order → M DeliveryResult
deliver_order x none w = (err order_not_found, w)
deliver_order x (some o) w =
    (if is_delivered o.delivery_status
        then pure delivered
        else if not (is_paid o.payment_status)
        then throw not_paid
        else order_target x o (webhook_url_of (find_studio o.studio_id w.db))
          >>= attempt_delivery x)
      w

abbrev pub trade_target_at : External → Trade → Uuid → Option Text → M Target
trade_target_at x t studio none = throw no_webhook_url
trade_target_at x t studio (some url) = pure (record {
  studio_id = studio;
  url = resolve_webhook_url x url;
  event = p2p_trade_completed;
  order_id = none;
  trade_id = some t.id;
})

abbrev pub trade_target : External → Trade → Option Studio → M Target
trade_target x t none = throw no_webhook_url
trade_target x t (some s) = trade_target_at x t s.id s.webhook_url

abbrev pub deliver_listed : External → Trade → Option Uuid → M DeliveryResult
deliver_listed x t none w = (err listing_not_found, w)
deliver_listed x t (some item) w =
    (trade_target x t (item_studio (find_item item w.db) w.db) >>= attempt_delivery x) w

abbrev pub listing_item : Uuid → Db → Option Uuid
listing_item i db = elim (find_listing i db) [ none ↦ none | some l ↦ some l.item_id ]

abbrev pub deliver_trade : External → Option Trade → M DeliveryResult
deliver_trade x none w = (err trade_not_found, w)
deliver_trade x (some t) w = deliver_listed x t (listing_item t.listing_id w.db) w

abbrev pub find_maybe_order : Option Uuid → Db → Option Order
find_maybe_order none db = none
find_maybe_order (some i) db = find_order i db

-- `webhookDeliveryProcessor`: a trade id goes first.
unfoldable pub webhook_delivery_processor : External → Option Uuid → Option Uuid → M DeliveryResult
unfolding attempt_delivery
webhook_delivery_processor x order_id (some i) w = deliver_trade x (find_trade i w.db) w
webhook_delivery_processor x order_id none w = deliver_order x (find_maybe_order order_id w.db) w
