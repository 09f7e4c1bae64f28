-- ===== src/Stellar/Tests.antt =====
-- A payment at the sample Horizon, and memos.
use xgamefi.Prelude.{◌≡◌, refl, pos, some, codes, [], ◌++◌, ◌∷◌, text_eq}
use xgamefi.Schema.{native}
use xgamefi.World.{ok}
use xgamefi.Stellar.{
  accepted, verify_payment, truncate_text_memo, cut_point, is_continuation, matching_payment,
  asset_matches,
}
use xgamefi.Stellar.Verification.{IsPaid, verify_payment-IsPaid}
use xgamefi.Samples.{external, id_text}

verified :
    verify_payment external (some 921) native (pos 9000000) (id_text 21)
    ≡ ok (accepted 921 (pos 9000000))
unfolding verify_payment truncate_text_memo cut_point is_continuation matching_payment asset_matches
    text_eq
verified = refl

verify_payment-IsPaid_example : IsPaid external 921 native (pos 9000000) (id_text 21)
verify_payment-IsPaid_example =
    verify_payment-IsPaid external 921 native (pos 9000000) (id_text 21) 921 (pos 9000000) verified

-- A character that the limit falls in is left out whole: here it has the bytes 28 to 30.
cut_short : cut_point (codes "abcdefghijklmnopqrstuvwxyz1" ++ 0xe2 ∷ 0x82 ∷ 0xac ∷ []) 28 ≡ 27
unfolding cut_point is_continuation
cut_short = refl
