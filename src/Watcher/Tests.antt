-- ===== src/Watcher/Tests.antt =====
-- The watchers at the sample world.
use xgamefi.Prelude.{
  ◌≡◌, ◌⊎◌, inl, inr, refl, codes, none, some, List, [], ◌∷◌, Has, count, find_last, where_is,
  text_eq, find, update, ◌-ℤ◌,
}
use xgamefi.World.{External, PaymentRecord, ok, transaction}
use xgamefi.Stellar.{
  truncate_text_memo, cut_point, is_continuation, verify_payment, matching_payment, asset_matches,
}
use xgamefi.Orders.{
  find_order, advance_order, record_sale, qualify_referral, verify_and_advance_order, follow_up,
}
use xgamefi.Watcher.{Watched, advance_all, match_and_advance_payments, stellar_watcher_processor}
use xgamefi.Watcher.Matches.{Settles, match_and_advance_payments_complete}
use xgamefi.Watcher.Settled.{Settled, stellar_watcher_processor-Settled}
use xgamefi.Samples.{world, external, id_memo}

abbrev polled_records : List PaymentRecord
polled_records =
    record { paging_token = 7; transaction_hash = 921; transaction_memo = some (id_memo 21) } ∷ []

abbrev polling : External
polling = record external { payments_after = λ c. some polled_records }

abbrev payments : List Watched
payments = record { memo = some (id_memo 21); tx_hash = some 921 } ∷ []

cut_run : truncate_text_memo (external.uuid_text 21) ≡ id_memo 21
unfolding truncate_text_memo cut_point is_continuation
cut_run = refl

match_and_advance_payments_complete_example :
    Has
      (Settles external (id_memo 21) 921)
      (match_and_advance_payments external (20 ∷ 21 ∷ []) payments)
match_and_advance_payments_complete_example =
    match_and_advance_payments_complete external (20 ∷ 21 ∷ []) payments 21 121
      (codes "bcdefgh-abcd-abcd-abcd-abcd") 921 (inr (inl refl)) cut_run (inl refl)

stellar_watcher_processor-Settled_example :
    let w' = (stellar_watcher_processor polling none (some 3) world).1 in
    (find_order 21 w'.db ≡ find_order 21 world.db)
    ⊎ ((rs : List PaymentRecord) × (polling.payments_after (some 3) ≡ some rs)
        × Settled polling 21 rs world w')
stellar_watcher_processor-Settled_example =
    stellar_watcher_processor-Settled polling none (some 3) world 21

watch_run :
    (stellar_watcher_processor polling none (some 3) world).0
    ≡ ok (record { processed = 1; cursor = some 7; stored = some 7 })
unfolding stellar_watcher_processor match_and_advance_payments advance_all verify_and_advance_order
    follow_up transaction advance_order record_sale qualify_referral verify_payment
    truncate_text_memo cut_point is_continuation matching_payment asset_matches find find_last
    where_is update count text_eq ◌-ℤ◌
watch_run = refl
