-- ===== src/Jobs/Once.antt =====
-- Which jobs can be repeated safely. BullMQ runs a job again when it throws, and it can be queued
-- again once it is gone from the queue.
use xgamefi.Prelude.{
  ℤ, ◌+◌, ◌≡◌, ◌-ℤ◌, inl, inr, refl, arith, int_laws, true, false, Option, none, some, [], ◌∷◌,
  ◌++◌, Bool-cases, ◌==◌, ◌&&◌, find-update_found, ==_refl, length, length-append, count, or_else,
  ap, ⊤,
}
use xgamefi.Schema.{Uuid, TxHash, Order, Player, Studio, Referral, ReferralStatus, Currency}
use xgamefi.World.{World, External, Payment, Result, ok, err}
use xgamefi.Stellar.{with_memo_cut}
use xgamefi.Stellar.Sending.{with_sent, send_payment_outcome}
use xgamefi.Orders.{find_order, find_studio}
use xgamefi.Jobs.Payout.{payout_payment, payout_processor}
use xgamefi.Jobs.Refund.{find_player, refund_payment, refund_processor}
use xgamefi.Jobs.Reward.{
  rewarded, skipped, find_referral, is_qualified, reward_currency, book_reward, pay_reward,
  reward_referrer, reward_found, referral_reward_processor, studio_reward, is_zero, reward_payment,
  find_maybe,
}
use xgamefi.Jobs.Payments.{PaysOut, payout_processor-PaysOut, Refunds, refund_processor-Refunds}

-- The referral is there and is no longer `QUALIFIED`.
abbrev pub IsClosed : Uuid → World → Type 0
IsClosed i w = (r : Referral) × (find_referral i w.db ≡ some r) × (is_qualified r.status ≡ false)

booked-IsClosed :
    (x : External) (i : Uuid) (r : Referral) (c : Currency) (a : ℤ) (p : Player) (h : TxHash)
    (w : World)
    → find_referral i w.db ≡ some r
    → is_qualified r.status ≡ true
    → IsClosed i (book_reward x r c a p h w).1
unfolding book_reward
booked-IsClosed x i r c a p h w f q =
    let open_one = λ (s : Referral). (s.id == r.id) && is_qualified s.status in
    let marked = λ (s : Referral). record s {
      status = ReferralStatus.rewarded;
      reward_amount = some a;
      reward_currency = some c;
      reward_tx_hash = some h;
      rewarded_at = some w.now;
    } in
    let found =
      find-update_found (λ s. s.id == i) open_one marked w.db.referrals r (λ s. refl) f
        (rw q (rw (==_refl r.id))) in
    elim (Bool-cases (count open_one w.db.referrals == 0)) [
      | inl zero_flipped ↦ rw zero_flipped (marked r, found, refl)
      | inr flipped ↦ rw flipped (marked r, found, refl)
    ]

paid-IsClosed :
    (x : External) (i : Uuid) (r : Referral) (p : Player) (s : Option Studio) (o : Option Order)
    (w : World) {h : TxHash}
    → find_referral i w.db ≡ some r
    → is_qualified r.status ≡ true
    → (pay_reward x r p s o w).0 ≡ ok (rewarded h)
    → IsClosed i (pay_reward x r p s o w).1
unfolding book_reward reward_currency
paid-IsClosed x i r p s o w f q e =
    let c = reward_currency x s o in
    let a = or_else (studio_reward s) x.referral_reward_amount in
    let pay = reward_payment x r c a p in
    elim (send_payment_outcome x pay w) [
      | inl (h, sent) ↦ elim (Bool-cases (x.writes (with_sent pay w))) [
        | inl written ↦ rw (sent, written) (booked-IsClosed x i r c a p h (with_sent pay w) f q)
        | inr lost ↦ cc (rw (sent, lost) at e)
      ]
      | inr failed ↦ cc (rw failed at e)
    ]

referrer-IsClosed :
    (x : External) (i : Uuid) (r : Referral) (p : Option Player) (w : World) {h : TxHash}
    → find_referral i w.db ≡ some r
    → is_qualified r.status ≡ true
    → (reward_referrer x r p w).0 ≡ ok (rewarded h)
    → IsClosed i (reward_referrer x r p w).1
referrer-IsClosed x i r none w f q e = cc
referrer-IsClosed x i r (some p) w f q e =
    let o = find_maybe (λ j. find_order j w.db) r.qualifying_order_id in
    let s = find_maybe (λ j. find_studio j w.db) r.studio_id in
    elim (Bool-cases (is_zero (studio_reward s))) [
      | inl disabled ↦ cc (rw disabled at e)
      | inr enabled ↦ rw enabled (paid-IsClosed x i r p s o w f q (rw enabled at e))
    ]

reward_found-IsClosed :
    (x : External) (i : Uuid) (r : Option Referral) (w : World) {h : TxHash}
    → find_referral i w.db ≡ r
    → (reward_found x r w).0 ≡ ok (rewarded h)
    → IsClosed i (reward_found x r w).1
reward_found-IsClosed x i none w f e = cc
reward_found-IsClosed x i (some r) w f e = elim (Bool-cases (is_qualified r.status)) [
  | inl q ↦ rw q (referrer-IsClosed x i r (find_player r.referrer_player_id w.db) w f q (rw q at e))
  | inr u ↦ cc (rw u at e)
]

closed_skips :
    (x : External) (i : Uuid) (w : World)
    → IsClosed i w
    → referral_reward_processor x i w ≡ (ok skipped, w)
unfolding referral_reward_processor
closed_skips x i w (r, f, c) = rw (f, c)

-- A referral that was rewarded is not rewarded again: the next run of its job pays nothing and
-- changes nothing.
pub referral_reward_processor_once :
    (x : External) (i : Uuid) (w : World) (h : TxHash)
    → (referral_reward_processor x i w).0 ≡ ok (rewarded h)
    → let w' = (referral_reward_processor x i w).1 in
      referral_reward_processor x i w' ≡ (ok skipped, w')
referral_reward_processor_once x i w h e =
    closed_skips x i (referral_reward_processor x i w).1 (
      unfold referral_reward_processor in reward_found-IsClosed x i (find_referral i w.db) w refl e)

payout-sent :
    (x : External) (i : Uuid) (w : World) (h : TxHash)
    → (payout_processor x i w).0 ≡ ok h
    → length (payout_processor x i w).1.sent ≡ length w.sent + 1
payout-sent x i w h e = one (payout_processor x i w) e (payout_processor-PaysOut x i w)
  where
    one :
        (q : Result TxHash × World)
        → q.0 ≡ ok h
        → PaysOut x i w q
        → length q.1.sent ≡ length w.sent + 1
    one (ok g, w') e p = omega (
      arith,
      ap length p.sent,
      length-append {0} w.sent (with_memo_cut (payout_payment x p.order p.wallet) ∷ []),
    )
    one (err f, w') e p = cc

-- When a payout job for an order ends well, and then a second one for it ends well too, two payments
-- have been sent.
pub payout_processor_repeats :
    (x : External) (i : Uuid) (w : World) (h g : TxHash)
    → (payout_processor x i w).0 ≡ ok h
    → (payout_processor x i (payout_processor x i w).1).0 ≡ ok g
    → length (payout_processor x i (payout_processor x i w).1).1.sent ≡ length w.sent + 2
payout_processor_repeats x i w h g e d =
    let w' = (payout_processor x i w).1 in
    let a = payout-sent x i w h e in let b = payout-sent x i w' g d in omega (arith, a, b)

-- An order's refund is its gross amount, which for a discounted order is more than the payment
-- that the order asked for: the difference is the discount.
pub refund_processor_excess :
    (x : External) (i : Uuid) (trade : Option Uuid) (w : World)
    → (refund_processor x (some i) trade w).0 ≡ ok tt
    → (o : Order) × (p : Payment) × (find_order i w.db ≡ some o)
      × ((refund_processor x (some i) trade w).1.sent ≡ w.sent ++ p ∷ [])
      × (p.amount -ℤ (o.gross_amount -ℤ o.discount_amount) ≡ o.discount_amount)
refund_processor_excess x i trade w e =
    excess (refund_processor x (some i) trade w) e (refund_processor-Refunds x i trade w)
  where
    excess :
        (q : Result ⊤ × World)
        → q.0 ≡ ok tt
        → Refunds x i w q
        → (o : Order) × (p : Payment) × (find_order i w.db ≡ some o)
          × (q.1.sent ≡ w.sent ++ p ∷ [])
          × (p.amount -ℤ (o.gross_amount -ℤ o.discount_amount) ≡ o.discount_amount)
    excess (ok tt, w') e r = (
      r.order,
      with_memo_cut (refund_payment x r.order.id r.order.currency r.order.gross_amount r.buyer),
      r.order_found,
      r.sent,
      omega int_laws,
    )
    excess (err f, w') e r = cc
