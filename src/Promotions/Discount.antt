-- ===== src/Promotions/Discount.antt =====
-- The size of a discount.
use xgamefi.Prelude.{
  ℕ, ◌*◌, ◌≡◌, ◌⊎◌, inl, refl, arith, ℤ, pos, negsuc, ◌≤ℤ◌, ◌<ℤ◌, Option, none, some,
}
use xgamefi.Schema.{Promotion}
use xgamefi.Promotions.{
  PromotionArgs, PromotionResult, clamp7, settle_discount, apply_promotion, raw_discount,
  no_discount,
}

-- A clamped discount lies between zero and the gross amount.
pub clamp7_bounds :
    (raw : ℤ) (g : ℕ) → (pos 0 ≤ℤ clamp7 raw (pos g)) × (clamp7 raw (pos g) ≤ℤ pos g)
unfolding clamp7
clamp7_bounds (pos r) g = ground arith
clamp7_bounds (negsuc r) g = ground arith

-- What a result may be: nothing, or a positive discount of `p`, at most the gross amount.
abbrev pub IsFair : Promotion → ℤ → PromotionResult → Type 0
IsFair p gross r =
    (r ≡ no_discount)
    ⊎ ((pos 0 <ℤ r.discount_amount) × (r.discount_amount ≤ℤ gross) × (r.promotion_id ≡ some p.id))

settle_discount-IsFair :
    (p : Promotion) (g : ℕ) (raw : Option ℤ) → IsFair p (pos g) (settle_discount p (pos g) raw)
unfolding settle_discount
settle_discount-IsFair p g none = inl refl
settle_discount-IsFair p g (some raw) = ground (arith, clamp7_bounds raw g)

-- For a unit price of zero or more, a promotion gives nothing, or a positive discount that is at
-- most the gross amount and that carries the promotion's own id.
pub apply_promotion-IsFair :
    (p : Promotion) (args : PromotionArgs) (u : ℕ)
    → args.unit_price ≡ pos u
    → IsFair p (pos (u * args.quantity)) (apply_promotion p args)
unfolding apply_promotion
apply_promotion-IsFair p args u price = ground (
  arith,
  settle_discount-IsFair p (u * args.quantity) (raw_discount p args (pos (u * args.quantity))),
)
