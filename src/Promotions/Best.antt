-- ===== src/Promotions/Best.antt =====
-- The loop over the candidates ends with the largest discount among them.
use xgamefi.Prelude.{◌≡◌, ◌⊎◌, inl, refl, arith, pos, ◌≤ℤ◌, none, List, [], ◌∷◌, All, Has}
use xgamefi.Schema.{Promotion}
use xgamefi.Promotions.{
  PromotionArgs, PromotionResult, no_discount, settle_discount, apply_promotion, better,
  best_promotion,
}

-- A result has no id only if it is no discount.
abbrev IsMarked : PromotionResult → Type 0
IsMarked r = r.promotion_id ≡ none → r ≡ no_discount

apply_promotion-IsMarked :
    (p : Promotion) (args : PromotionArgs) → IsMarked (apply_promotion p args)
unfolding apply_promotion settle_discount
apply_promotion-IsMarked p args h = ground arith

abbrev Keeps : PromotionResult → PromotionResult → PromotionResult → Type 0
Keeps best r new =
    (pos 0 ≤ℤ new.discount_amount)
    × (best.discount_amount ≤ℤ new.discount_amount)
    × (r.discount_amount ≤ℤ new.discount_amount)
    × ((new ≡ best) ⊎ (new ≡ r))

better-Keeps :
    (best r : PromotionResult)
    → pos 0 ≤ℤ best.discount_amount
    → IsMarked r
    → Keeps best r (better best r)
unfolding better
better-Keeps best r h m = ground (arith)

-- The loop, from any best result so far that is no negative discount.
best_promotion-Keeps :
    (args : PromotionArgs) (ps : List Promotion) (best : PromotionResult)
    → pos 0 ≤ℤ best.discount_amount
    → (best.discount_amount ≤ℤ (best_promotion args ps best).discount_amount)
      × All
          (λ p.
            (apply_promotion p args).discount_amount
            ≤ℤ (best_promotion args ps best).discount_amount)
          ps
      × ((best_promotion args ps best ≡ best)
          ⊎ Has (λ p. best_promotion args ps best ≡ apply_promotion p args) ps)
unfolding best_promotion
best_promotion-Keeps args [] best h = (omega arith, tt, inl refl)
best_promotion-Keeps args (p ∷ ps) best h =
    let r = apply_promotion p args in
    let (nonneg, above, above_r, origin) =
      better-Keeps best r h (apply_promotion-IsMarked p args) in
    let (grows, others, from) = best_promotion-Keeps args ps (better best r) nonneg in
    (omega arith, (omega arith, others), ground arith)

-- The loop over the candidates ends with a discount that none of them exceeds, and which is no
-- discount or the result of one of them.
pub best_promotion_maximal :
    (args : PromotionArgs) (ps : List Promotion)
    → let r = best_promotion args ps no_discount in
      All (λ p. (apply_promotion p args).discount_amount ≤ℤ r.discount_amount) ps
      × ((r ≡ no_discount) ⊎ Has (λ p. r ≡ apply_promotion p args) ps)
best_promotion_maximal args ps =
    let k = best_promotion-Keeps args ps no_discount (omega arith) in (k.1, k.2)
