-- ===== src/Webhooks/Tests.antt =====
-- A webhook job at the sample world.
use xgamefi.Prelude.{◌≡◌, refl, arith, none, some, find, update}
use xgamefi.World.{ok}
use xgamefi.Webhooks.Delivery.{delivered, webhook_delivery_processor, attempt_delivery}
use xgamefi.Webhooks.Attempts.{GoesOn, webhook_delivery_processor-GoesOn}
use xgamefi.Samples.{world_with, external, paid_order}

webhook_delivery_processor-GoesOn_example :
    GoesOn
      (world_with paid_order)
      (webhook_delivery_processor external (some 21) none (world_with paid_order))
webhook_delivery_processor-GoesOn_example =
    webhook_delivery_processor-GoesOn external (some 21) none (world_with paid_order) (omega arith)

delivery_run :
    (webhook_delivery_processor external (some 21) none (world_with paid_order)).0 ≡ ok delivered
unfolding webhook_delivery_processor attempt_delivery find update
delivery_run = refl
