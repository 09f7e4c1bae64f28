-- ===== src/Metrics.antt =====
-- packages/shared/src/metrics.ts and settings.ts: the figures of the dashboards and the one row of
-- platform settings.
pub mod Totals
mod Tests
use xgamefi.Prelude.{
  ℕ, ℤ, pos, ◌+ℤ◌, ◌+◌, ◌*◌, ◌/◌, Bool, true, false, ◌&&◌, ◌||◌, Option, none, some, List, [], ◌∷◌,
  ◌++◌, Text, codes, take, length, count, find, where_is, ltb, ◌==◌, text_eq, if◌then◌else◌,
}
use mathlib.Core.List.{reverse}
use xgamefi.Schema.{Uuid, Address, Order, Studio, StudioStatus, Delivery, WebhookStatus}
use xgamefi.World.{Db}
use xgamefi.Orders.{is_paid}

abbrev pub is_active : StudioStatus → Bool
is_active StudioStatus.active = true
is_active _ = false

abbrev pub is_delivered : WebhookStatus → Bool
is_delivered WebhookStatus.delivered = true
is_delivered _ = false

abbrev pub is_failed : WebhookStatus → Bool
is_failed WebhookStatus.failed = true
is_failed WebhookStatus.exhausted = true
is_failed _ = false

-- `_sum` of an amount over rows; the sum of no rows is null, which counts as zero.
unfoldable pub sum_of : {A : Type 0} → (A → ℤ) → List A → ℤ
sum_of f [] = pos 0
sum_of f (x ∷ xs) = f x +ℤ sum_of f xs

abbrev pub newest : {A : Type 0} → ℕ → List A → List A
newest n rows = take n (reverse rows)

pub record PlatformMetrics : Type 0 where
  pub gmv : ℤ
  pub fees_collected : ℤ
  pub active_studios : ℕ
  pub recent_orders : List Order

pub record WebhookHealth : Type 0 where
  pub total : ℕ
  pub delivered : ℕ
  pub failed : ℕ
  pub success_rate : ℕ

pub record StudioMetrics : Type 0 where
  pub gmv : ℤ
  pub fees_collected : ℤ
  pub order_count : ℕ
  pub recent_orders : List Order
  pub webhook_health : WebhookHealth

unfoldable pub compute_platform_metrics : Db → PlatformMetrics
compute_platform_metrics db =
    let paid = where_is (λ o. is_paid o.payment_status) db.orders in
    record {
      gmv = sum_of (λ o. o.gross_amount) paid;
      fees_collected = sum_of (λ o. o.platform_fee_amount) paid;
      active_studios = count (λ s. is_active s.status) db.studios;
      recent_orders = newest 10 db.orders;
    }

-- `Math.round((delivered / total) * 100)`, which rounds a half up.
abbrev pub success_rate : ℕ → ℕ → ℕ
success_rate delivered total = if ltb 0 total then (200 * delivered + total) / (2 * total) else 100

abbrev pub health : Uuid → List Delivery → WebhookHealth
health studio_id rows =
    let total = count (λ d. d.studio_id == studio_id) rows in
    let delivered = count (λ d. (d.studio_id == studio_id) && is_delivered d.status) rows in
    record {
      total = total;
      delivered = delivered;
      failed = count (λ d. (d.studio_id == studio_id) && is_failed d.status) rows;
      success_rate = success_rate delivered total;
    }

unfoldable pub compute_studio_metrics : Uuid → Db → StudioMetrics
compute_studio_metrics studio_id db =
    let paid = where_is (λ o. (o.studio_id == studio_id) && is_paid o.payment_status) db.orders in
    record {
      gmv = sum_of (λ o. o.gross_amount) paid;
      fees_collected = sum_of (λ o. o.platform_fee_amount) paid;
      order_count = count (λ o. o.studio_id == studio_id) db.orders;
      recent_orders = newest 10 (where_is (λ o. o.studio_id == studio_id) db.orders);
      webhook_health = health studio_id db.deliveries;
    }
