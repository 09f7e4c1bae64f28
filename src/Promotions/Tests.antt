-- ===== src/Promotions/Tests.antt =====
-- Promotions on the sample item.
use xgamefi.Prelude.{
  ◌*◌, ◌≡◌, ◌⊎◌, refl, ap, pos, ◌≤ℤ◌, ◌*ℤ◌, true, false, some, [], ◌∷◌, codes, All, Has, text_eq,
  to_lower,
}
use xgamefi.Schema.{Promotion, fixed}
use xgamefi.Promotions.{
  PromotionArgs, is_window_open, code_allows, item_allowed, raw_discount, settle_discount, clamp7,
  apply_promotion, best_promotion, no_discount,
}
use xgamefi.Promotions.Discount.{IsFair, apply_promotion-IsFair}
use xgamefi.Promotions.Gates.{
  IsEligible, is_window_open-IsOpen, is_window_open_complete, apply_promotion-IsEligible,
}
use xgamefi.Promotions.Best.{best_promotion_maximal}
use xgamefi.Samples.{tenth_off}

abbrev args : PromotionArgs
args = record {
  item_id = 11;
  quantity = 2;
  unit_price = pos 10000000;
  now = 1000;
  player_has_paid_order = false;
  promotion_code = some (codes "ten");
}

abbrev one_off : Promotion
one_off = record tenth_off { id = 32; kind = fixed; value = pos 30000000 }

tenth_run :
    apply_promotion tenth_off args
    ≡ record { discount_amount = pos 2000000; promotion_id = some 31 }
unfolding apply_promotion is_window_open code_allows item_allowed raw_discount settle_discount
    clamp7 text_eq to_lower ◌*ℤ◌
tenth_run = refl

capped_run :
    apply_promotion one_off args ≡ record { discount_amount = pos 20000000; promotion_id = some 32 }
unfolding apply_promotion is_window_open code_allows item_allowed raw_discount settle_discount
    clamp7 text_eq to_lower
capped_run = refl

apply_promotion-IsFair_example :
    IsFair tenth_off (pos (10000000 * 2)) (apply_promotion tenth_off args)
apply_promotion-IsFair_example = apply_promotion-IsFair tenth_off args 10000000 refl

tenth_id : (apply_promotion tenth_off args).promotion_id ≡ some 31
tenth_id = ap (λ r. r.promotion_id) tenth_run

apply_promotion-IsEligible_example : IsEligible tenth_off args
apply_promotion-IsEligible_example = apply_promotion-IsEligible tenth_off args 31 tenth_id

tenth_open : is_window_open tenth_off 1000 ≡ true
unfolding is_window_open
tenth_open = refl

is_window_open_complete_example : is_window_open tenth_off 1000 ≡ true
is_window_open_complete_example =
    is_window_open_complete tenth_off 1000 (is_window_open-IsOpen tenth_off 1000 tenth_open)

best_promotion_maximal_example :
    All
      (λ p.
        (apply_promotion p args).discount_amount
        ≤ℤ (best_promotion args (tenth_off ∷ one_off ∷ []) no_discount).discount_amount)
      (tenth_off ∷ one_off ∷ [])
    × ((best_promotion args (tenth_off ∷ one_off ∷ []) no_discount ≡ no_discount)
        ⊎ Has
            (λ p.
              best_promotion args (tenth_off ∷ one_off ∷ []) no_discount ≡ apply_promotion p args)
            (tenth_off ∷ one_off ∷ []))
best_promotion_maximal_example = best_promotion_maximal args (tenth_off ∷ one_off ∷ [])
