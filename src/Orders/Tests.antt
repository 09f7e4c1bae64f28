-- ===== src/Orders/Tests.antt =====
-- `verifyAndAdvanceOrder` at the sample world.
use xgamefi.Prelude.{
  ℕ, ◌≡◌, refl, arith, pos, Option, some, [], ◌∷◌, find, update, count, text_eq, ◌-ℤ◌,
}
use xgamefi.Schema.{Uuid, PaymentStatus, Order}
use xgamefi.World.{ok}
use xgamefi.Stellar.{
  accepted, verify_payment, truncate_text_memo, cut_point, is_continuation, matching_payment,
  asset_matches,
}
use xgamefi.Orders.{
  paid, already, find_order, advance_order, record_sale, qualify_referral, verify_order,
  verify_and_advance_order,
}
use xgamefi.Orders.Advance.{IsSale, advance_order-IsSale}
use xgamefi.Orders.Branches.{Ends, verify_and_advance_order-Ends, refunded_order_advances}
use xgamefi.Orders.Replay.{IsReplayFree, advance_order-IsReplayFree}
use xgamefi.Samples.{world, world_with, external, order, paid_order}

abbrev refunded_order : Order
refunded_order = record paid_order { payment_status = PaymentStatus.refunded }

advance_run : (advance_order external 21 921 world).0 ≡ ok (paid 21 (some 51))
unfolding advance_order record_sale qualify_referral verify_payment truncate_text_memo cut_point
    is_continuation matching_payment asset_matches find update count text_eq ◌-ℤ◌
advance_run = refl

advance_order-IsSale_example :
    (o : Order) × (find_order 21 world.db ≡ some o)
    × (o.id ≡ 21)
    × (◌≡◌ {A = ℕ} 21 21)
    × IsSale external world (advance_order external 21 921 world).1 o 921
advance_order-IsSale_example = advance_order-IsSale external 21 921 world 21 (some 51) advance_run

verify_and_advance_order-Ends_example :
    Ends world
      (advance_order external 21 921 world)
      (verify_and_advance_order external 21 921 world)
verify_and_advance_order-Ends_example = verify_and_advance_order-Ends external 21 921 world

verify_run : verify_order external refunded_order 921 ≡ ok (accepted 921 (pos 9000000))
unfolding verify_payment truncate_text_memo cut_point is_continuation matching_payment asset_matches
    text_eq ◌-ℤ◌
verify_run = refl

refunded_order_advances_example :
    (r : Option Uuid) × ((advance_order external 21 921 (world_with refunded_order)).0
      ≡ ok (paid 21 r))
refunded_order_advances_example =
    refunded_order_advances external 21 921 921 (pos 9000000) (world_with refunded_order)
      refunded_order (unfold find in refl) refl (unfold find in refl) verify_run

already_run : (advance_order external 21 922 (world_with paid_order)).0 ≡ ok (already 21)
unfolding advance_order find
already_run = refl

one_order-IsReplayFree : IsReplayFree (order ∷ [])
unfolding count
one_order-IsReplayFree = record { ids = λ i. ground arith; hashes = λ h. omega arith }

advance_order-IsReplayFree_example : IsReplayFree (advance_order external 21 921 world).1.db.orders
advance_order-IsReplayFree_example =
    advance_order-IsReplayFree external 21 921 world one_order-IsReplayFree
