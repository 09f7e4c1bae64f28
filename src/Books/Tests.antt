-- ===== src/Books/Tests.antt =====
-- An order that is paid, paid out, delivered and refunded.
use xgamefi.Prelude.{
  ◌≡◌, refl, subst, inl, inr, Option, none, some, [], ◌∷◌, ◌==◌, find, Bool-cases, update, count,
  text_eq, ◌-ℤ◌,
}
use xgamefi.Schema.{Uuid, Order, PaymentStatus}
use xgamefi.World.{World}
use xgamefi.Stellar.{
  verify_payment, truncate_text_memo, cut_point, is_continuation, matching_payment, asset_matches,
}
use xgamefi.Orders.{
  find_order, advance_order, record_sale, qualify_referral, follow_up, verify_and_advance_order,
}
use xgamefi.Jobs.Payout.{payout_processor}
use xgamefi.Jobs.Refund.{refund_processor}
use xgamefi.Webhooks.Delivery.{webhook_delivery_processor}
use xgamefi.Books.Booked.{
  IsBooked, Booked, advance, payout, deliver, refund, Steps, here, then, Steps-IsBooked,
}
use xgamefi.Samples.{world, external, order}

abbrev after_payment : World
after_payment = (verify_and_advance_order external 21 921 world).1

abbrev after_payout : World
after_payout = (payout_processor external 21 after_payment).1

abbrev after_delivery : World
after_delivery = (webhook_delivery_processor external (some 21) none after_payout).1

abbrev after_refund : World
after_refund = (refund_processor external (some 21) none after_delivery).1

abbrev life : Steps external world after_refund
life = then (advance 21 921 world) (
    then (payout 21 after_payment)
      (then (deliver (some 21) none after_payout) (then (refund 21 after_delivery) here)))

abbrev status_of : Option Order → Option PaymentStatus
status_of none = none
status_of (some o) = some o.payment_status

paid_status : status_of (find_order 21 after_payment.db) ≡ some PaymentStatus.paid
unfolding verify_and_advance_order advance_order record_sale qualify_referral follow_up
    verify_payment truncate_text_memo cut_point is_continuation matching_payment asset_matches find
    update count text_eq ◌-ℤ◌
paid_status = refl

one_row : (r : Order) (j : Uuid) (o : Order) → find (λ s. s.id == j) (r ∷ []) ≡ some o → r ≡ o
unfolding find
one_row r j o e = elim (Bool-cases (r.id == j)) [ inl y ↦ cc (rw y at e) | inr n ↦ cc (rw n at e) ]

world-IsBooked : IsBooked external world.db
world-IsBooked j o found =
    subst (λ r. Booked external world.db.ledger r r.payment_status) (one_row order j o found) tt

Steps-IsBooked_example : IsBooked external after_refund.db
Steps-IsBooked_example = Steps-IsBooked external life world-IsBooked
