-- ===== src/Promotions/Gates.antt =====
-- When a promotion applies at all.
use xgamefi.Prelude.{
  ℕ, ◌≤◌, ◌≡◌, ◌⊎◌, inl, inr, refl, arith, ℤ, pos, ◌<ℤ◌, Bool, true, false, Option, none, some,
  List, [], ◌∷◌, Text, any, Has, ◌==◌, text_eq_sound, to_lower, not, ◌&&◌, if◌then◌else◌,
}
use xgamefi.Money.{scale}
use xgamefi.Schema.{Uuid, Promotion, BundleConfig, bundle, first_purchase}
use xgamefi.Promotions.{
  PromotionArgs, is_window_open, code_allows, item_allowed, raw_discount, bundle_discount, truthy,
  codes_match, settle_discount, apply_promotion,
}

-- The promotion is active, has started, has not ended, and has uses left.
pub record IsOpen (p : Promotion) (now : ℕ) : Type 0 where
  pub active : p.is_active ≡ true
  pub started : (t : ℕ) → p.starts_at ≡ some t → t ≤ now
  pub not_ended : (t : ℕ) → p.ends_at ≡ some t → now ≤ t
  pub uses_left : (n : ℕ) → p.usage_limit ≡ some n → p.usage_count <ℤ pos n

pub is_window_open-IsOpen : (p : Promotion) (now : ℕ) → is_window_open p now ≡ true → IsOpen p now
unfolding is_window_open
is_window_open-IsOpen p now h = record {
  active = ground arith;
  started = λ t e. ground arith;
  not_ended = λ t e. ground arith;
  uses_left = λ n e. ground arith;
}

-- A promotion that is active, has started, has not ended and has uses left is open.
pub is_window_open_complete : (p : Promotion) (now : ℕ) → IsOpen p now → is_window_open p now ≡ true
unfolding is_window_open
is_window_open_complete p now h = grind (arith, h.active, h.started, h.not_ended, h.uses_left)

-- The codes agree up to case, or neither side has one.
abbrev pub CodesAgree : Option Text → Option Text → Type 0
CodesAgree own given =
    ((truthy own ≡ false) × (truthy given ≡ false))
    ⊎ ((o : Text) × (g : Text) × (own ≡ some o) × (given ≡ some g) × (to_lower o ≡ to_lower g))

abbrev allows : Option Text → Option Text → Bool
allows own given = if truthy given then truthy own && codes_match own given else not (truthy own)

pub code_allows-CodesAgree :
    (p : Promotion) (given : Option Text) → code_allows p given ≡ true → CodesAgree p.code given
unfolding code_allows
code_allows-CodesAgree p given h = codes p.code given h
  where
    codes : (own given : Option Text) → allows own given ≡ true → CodesAgree own given
    codes none none h = inl (refl, refl)
    codes none (some []) h = inl (refl, refl)
    codes none (some (c ∷ cs)) h = ground arith
    codes (some []) none h = inl (refl, refl)
    codes (some []) (some []) h = inl (refl, refl)
    codes (some []) (some (c ∷ cs)) h = ground arith
    codes (some (o ∷ os)) none h = ground arith
    codes (some (o ∷ os)) (some []) h = ground arith
    codes (some (o ∷ os)) (some (c ∷ cs)) h =
        inr (o ∷ os, c ∷ cs, refl, refl, text_eq_sound (to_lower (o ∷ os)) (to_lower (c ∷ cs)) h)

any-Has :
    (item : Uuid) (ids : List Uuid) → any (λ j. j == item) ids ≡ true → Has (λ j. j ≡ item) ids
any-Has item [] h = ground arith
any-Has item (j ∷ ids) h = ground (arith, any-Has item ids)

pub item_allowed-Has :
    (p : Promotion) (item : Uuid)
    → item_allowed p item ≡ true
    → (p.applies_to_item_ids ≡ []) ⊎ Has (λ j. j ≡ item) p.applies_to_item_ids
unfolding item_allowed
item_allowed-Has p item h = ground (arith, any-Has item p.applies_to_item_ids)

-- What the type of the promotion asks for: a bundle's quantity, a player's first purchase.
abbrev pub TypeApplies : Promotion → PromotionArgs → Type 0
TypeApplies p args =
    (p.kind ≡ first_purchase → args.player_has_paid_order ≡ false)
    × (p.kind ≡ bundle
        → (cfg : BundleConfig) × (p.bundle_config ≡ some cfg) × (cfg.quantity ≡ args.quantity))

bundle_discount-quantity :
    (c : Option BundleConfig) (quantity : ℕ) (gross raw : ℤ)
    → bundle_discount c quantity gross ≡ some raw
    → (cfg : BundleConfig) × (c ≡ some cfg) × (cfg.quantity ≡ quantity)
unfolding bundle_discount
bundle_discount-quantity none quantity gross raw h = cc
bundle_discount-quantity (some cfg) quantity gross raw h = (cfg, refl, ground arith)

raw_discount-TypeApplies :
    (p : Promotion) (args : PromotionArgs) (gross raw : ℤ)
    → raw_discount p args gross ≡ some raw
    → TypeApplies p args
unfolding raw_discount
raw_discount-TypeApplies p args gross raw h = (
  λ k. ground arith,
  λ k. bundle_discount-quantity p.bundle_config args.quantity gross raw (ground arith),
)

pub record IsEligible (p : Promotion) (args : PromotionArgs) : Type 0 where
  pub open_now : IsOpen p args.now
  pub listed : (p.applies_to_item_ids ≡ []) ⊎ Has (λ j. j ≡ args.item_id) p.applies_to_item_ids
  pub codes : CodesAgree p.code args.promotion_code
  pub kind_applies : TypeApplies p args

settled_some :
    (p : Promotion) (gross : ℤ) (raw : Option ℤ) {i : Uuid}
    → (settle_discount p gross raw).promotion_id ≡ some i
    → (r : ℤ) × (raw ≡ some r)
unfolding settle_discount
settled_some p gross none h = cc
settled_some p gross (some r) h = (r, refl)

-- A promotion that gives a discount is open at that time, lists the item (or lists none), agrees
-- with the caller's code (or neither has one), and meets the condition of its type.
pub apply_promotion-IsEligible :
    (p : Promotion) (args : PromotionArgs) (i : Uuid)
    → (apply_promotion p args).promotion_id ≡ some i
    → IsEligible p args
unfolding apply_promotion
apply_promotion-IsEligible p args i h =
    let gross = scale args.unit_price args.quantity in
    let (r, e) = settled_some p gross (raw_discount p args gross) {i = i} (ground arith) in
    record {
      open_now = is_window_open-IsOpen p args.now (ground arith);
      listed = item_allowed-Has p args.item_id (ground arith);
      codes = code_allows-CodesAgree p args.promotion_code (ground arith);
      kind_applies = raw_discount-TypeApplies p args gross r e;
    }
