-- ===== src/Webhooks/Mock.antt =====
-- `deliverMockGameWebhook` of packages/shared/src/mock-webhook.ts. The POST to the bundled server
-- does not go through the SSRF guard; its answer is `External.post`.
use xgamefi.Prelude.{
  ℕ, Bool, true, false, not, Option, none, some, [], ◌∷◌, ◌++◌, Text, if◌then◌else◌,
}
use xgamefi.Schema.{Uuid, DeliveryStatus, WebhookStatus, purchase_completed, Order, Delivery}
use xgamefi.World.{
  Db, delivery_event, External, ok, M, pure, gets, modify, publish, next_id, ◌>>=◌, ◌>>◌,
}
use xgamefi.Webhooks.Url.{is_mock_game_webhook, resolve_webhook_url}
use xgamefi.Trades.Settlement.{is_ok}
use xgamefi.Orders.{is_paid, find_order, find_studio, update_order, webhook_url_of}

abbrev pub is_delivered : DeliveryStatus → Bool
is_delivered DeliveryStatus.delivered = true
is_delivered _ = false

abbrev pub add_delivery : Delivery → Db → Db
add_delivery d db = record db { deliveries = db.deliveries ++ d ∷ [] }

abbrev pub mark_delivered : ℕ → Order → Order
mark_delivered now o = record o {
  delivery_status = DeliveryStatus.delivered;
  delivered_at = some now;
}

abbrev pub mock_delivery_row : External → Uuid → Order → Text → Option ℕ → ℕ → Delivery
mock_delivery_row x i o url status now = record {
  id = i;
  studio_id = o.studio_id;
  event = purchase_completed;
  order_id = some o.id;
  trade_id = none;
  url = url;
  attempt = 1;
  max_attempts = x.webhook_max_attempts;
  status = WebhookStatus.delivered;
  response_status = status;
  next_attempt_at = none;
  delivered_at = some now;
}

-- The two writes after a good answer, and the event.
abbrev pub record_mock : External → Order → Text → Option ℕ → M Bool
record_mock x o url status = do
  i ← next_id x
  now ← gets (λ w. w.now)
  modify (add_delivery (mock_delivery_row x i o url status now))
  modify (update_order o.id (mark_delivered now))
  publish (delivery_event o.id DeliveryStatus.delivered)
  pure true

abbrev pub post_mock : External → Order → Text → M Bool
post_mock x o stored =
    let url = resolve_webhook_url x stored in
    let status = x.post url o.id in if is_ok status then record_mock x o url status else pure false

abbrev pub deliver_at : External → Order → Option Text → M Bool
deliver_at x o none = pure false
deliver_at x o (some url) =
    if not (is_mock_game_webhook url)
    then pure false
    else if is_delivered o.delivery_status
    then pure true
    else post_mock x o url

abbrev pub deliver_found : External → Option Order → M Bool
deliver_found x none w = (ok false, w)
deliver_found x (some o) w =
    (if not (is_paid o.payment_status)
        then pure false
        else deliver_at x o (webhook_url_of (find_studio o.studio_id w.db)))
      w

unfoldable pub deliver_mock_game_webhook : External → Uuid → M Bool
deliver_mock_game_webhook x i w = deliver_found x (find_order i w.db) w
