-- ===== src/Promotions.antt =====
-- packages/shared/src/promotions/applyPromotion.ts, and the choice of the best promotion in
-- apps/web/lib/checkout-queries.ts. A discount is worked out in units of 10^-16, in which the
-- product of two amounts, divided by a hundred, is whole; `clamp7` rounds it down to a stroop.
-- decimal.js keeps twenty significant digits: the model is exact, so it agrees while a product
-- has no more.
pub mod Discount
pub mod Gates
pub mod Best
mod Tests
use xgamefi.Prelude.{
  ℕ, ◌*◌, ◌^◌, ℤ, pos, negsuc, ◌-ℤ◌, ◌*ℤ◌, ltb_ℤ, leb_ℤ, Bool, true, false, not, ◌&&◌, ◌||◌, Option,
  none, some, List, [], ◌∷◌, Text, any, ltb, ◌==◌, if◌then◌else◌, is_some, text_eq, to_lower,
}
use xgamefi.Money.{scale, trunc_div}
use xgamefi.Schema.{Uuid, Promotion, BundleConfig, percent, fixed, bundle, first_purchase}

pub record PromotionArgs : Type 0 where
  pub item_id : Uuid
  pub quantity : ℕ
  pub unit_price : ℤ
  pub now : ℕ
  pub player_has_paid_order : Bool
  pub promotion_code : Option Text

pub record PromotionResult : Type 0 where
  pub discount_amount : ℤ
  pub promotion_id : Option Uuid

-- The places between a stroop and the unit of a raw discount.
abbrev pub raw_scale : ℕ
raw_scale = 10 ^ 9

unfoldable pub clamp7 : ℤ → ℤ → ℤ
clamp7 raw gross =
    let d = if ltb_ℤ raw (pos 0) then pos 0 else raw in
    let limit = scale gross raw_scale in trunc_div (if ltb_ℤ limit d then limit else d) raw_scale

abbrev pub before : ℕ → Option ℕ → Bool
before now none = false
before now (some t) = ltb now t

abbrev pub after : ℕ → Option ℕ → Bool
after now none = false
after now (some t) = ltb t now

abbrev pub used_up : Option ℕ → ℤ → Bool
used_up none used = false
used_up (some limit) used = leb_ℤ (pos limit) used

unfoldable pub is_window_open : Promotion → ℕ → Bool
is_window_open p now =
    if not p.is_active
    then false
    else if before now p.starts_at
    then false
    else if after now p.ends_at
    then false
    else if used_up p.usage_limit p.usage_count
    then false
    else true

-- A code is truthy if it is there and is not empty.
abbrev pub truthy : Option Text → Bool
truthy none = false
truthy (some []) = false
truthy (some (c ∷ cs)) = true

abbrev pub codes_match : Option Text → Option Text → Bool
codes_match (some own) (some given) = text_eq (to_lower own) (to_lower given)
codes_match none given = false
codes_match (some own) none = false

-- The two coupon gates: with a code, only the promotion of that code; without, only code-less ones.
unfoldable pub code_allows : Promotion → Option Text → Bool
code_allows p given =
    if truthy given then truthy p.code && codes_match p.code given else not (truthy p.code)

unfoldable pub item_allowed : Promotion → Uuid → Bool
item_allowed p item = elim p.applies_to_item_ids [
  | [] ↦ true
  | i ∷ is ↦ any (λ j. j == item) (i ∷ is)
]

-- The `BUNDLE` case: the configured quantity, and no other, costs the bundle's price.
unfoldable pub bundle_discount : Option BundleConfig → ℕ → ℤ → Option ℤ
bundle_discount none quantity gross = none
bundle_discount (some cfg) quantity gross =
    if cfg.quantity == quantity then some (scale (gross -ℤ cfg.bundle_price) raw_scale) else none

-- The `switch` on the type; `none` is its early return.
unfoldable pub raw_discount : Promotion → PromotionArgs → ℤ → Option ℤ
raw_discount p args gross = elim p.kind [
  | percent ↦ some (gross *ℤ p.value)
  | fixed ↦ some (scale p.value raw_scale)
  | bundle ↦ bundle_discount p.bundle_config args.quantity gross
  | first_purchase ↦
      if args.player_has_paid_order
      then none
      else if is_some p.currency
      then some (scale p.value raw_scale)
      else some (gross *ℤ p.value)
]

abbrev pub no_discount : PromotionResult
no_discount = record { discount_amount = pos 0; promotion_id = none }

-- The end of `applyPromotion`: clamp, and drop a discount that is not positive.
unfoldable pub settle_discount : Promotion → ℤ → Option ℤ → PromotionResult
settle_discount p gross none = no_discount
settle_discount p gross (some raw) =
    let discount = clamp7 raw gross in
    if leb_ℤ discount (pos 0)
    then no_discount
    else record { discount_amount = discount; promotion_id = some p.id }

unfoldable pub apply_promotion : Promotion → PromotionArgs → PromotionResult
apply_promotion p args =
    let gross = scale args.unit_price args.quantity in
    if not (is_window_open p args.now)
    then no_discount
    else if not (item_allowed p args.item_id)
    then no_discount
    else if not (code_allows p args.promotion_code)
    then no_discount
    else settle_discount p gross (raw_discount p args gross)

-- One round of the loop over the candidates: a strictly larger discount wins.
unfoldable pub better : PromotionResult → PromotionResult → PromotionResult
better best r =
    if is_some r.promotion_id && ltb_ℤ best.discount_amount r.discount_amount then r else best

unfoldable pub best_promotion : PromotionArgs → List Promotion → PromotionResult → PromotionResult
best_promotion args [] best = best
best_promotion args (p ∷ ps) best = best_promotion args ps (better best (apply_promotion p args))
