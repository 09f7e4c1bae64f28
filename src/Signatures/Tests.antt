-- ===== src/Signatures/Tests.antt =====
-- Headers that are accepted and refused under the sample hash.
use xgamefi.Prelude.{
  ◌≡◌, refl, false, none, Text, codes, leb, decimal, number, span, strip_prefix, all_are, text_eq,
}
use xgamefi.Signatures.{
  trim_start, trim_end, from_hex, match_header, distance, compute, sign_webhook, verify_hmac,
}
use xgamefi.Signatures.Samples.{sums}
use xgamefi.Signatures.RoundTrip.{verify_hmac-sign_webhook}

abbrev secret : Text
secret = codes "whsec_1"

abbrev body : Text
body = codes "{\"event\":\"purchase.completed\"}"

-- At 1700000030 seconds, half a minute after it was signed.
verify_hmac-sign_webhook_example :
    verify_hmac sums secret (sign_webhook sums secret 1700000000 body) body 300 1700000030250
    ≡ leb (distance 1700000030 1700000000) 300
verify_hmac-sign_webhook_example =
    verify_hmac-sign_webhook sums secret body 1700000000 300 1700000030250

stale :
    verify_hmac sums secret (sign_webhook sums secret 1700000000 body) body 300 1700000301000
    ≡ false
stale = verify_hmac-sign_webhook sums secret body 1700000000 300 1700000301000

other_body :
    verify_hmac sums secret
      (sign_webhook sums secret 1700000000 body)
      (codes "{}")
      300
      1700000030250
    ≡ false
unfolding verify_hmac sign_webhook compute match_header trim_start trim_end from_hex decimal span
    strip_prefix all_are text_eq number
other_body = refl

spaces_are_trimmed : match_header (codes "t=12,v1=0aF") ≡ none
unfolding match_header span strip_prefix all_are
spaces_are_trimmed = refl
