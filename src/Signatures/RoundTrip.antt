-- ===== src/Signatures/RoundTrip.antt =====
-- A header that was written is accepted while it is fresh, and only a header that carries the hash
-- of its own time is accepted.
use xgamefi.Prelude.{
  ℕ, ◌/◌, ◌≡◌, refl, ap, ◌∙◌, arith, Bool, false, not, some, [], ◌∷◌, ◌++◌, Text, codes, length,
  leb, ==_refl, text_eq_refl, decimal, span, strip_prefix, is_empty, is_digit, is_hex, Passes,
  Passes-append, number-decimal, decimal-Passes, decimal_not_empty, span-append,
  strip_prefix-append, all_are-Passes,
}
use xgamefi.Signatures.{
  Hmac, space, trim_start, trim_end, trim, from_hex, match_header, hex_group, time_group,
  after_label, distance, compute, sign_webhook, check_match, verify_hmac,
}

abbrev visible : ℕ → Bool
visible c = not (space c)

trim_end-Passes : (s : Text) → Passes visible s → trim_end s ≡ s
unfolding trim_end
trim_end-Passes [] a = refl
trim_end-Passes (c ∷ s) (e, a) = rw (trim_end-Passes s a) (ground arith)

trim_start-Passes : (s : Text) → Passes visible s → trim_start s ≡ s
unfolding trim_start
trim_start-Passes [] a = refl
trim_start-Passes (c ∷ s) (e, a) = ground arith

hex_visible : (s : Text) → Passes is_hex s → Passes visible s
hex_visible [] a = tt
hex_visible (c ∷ s) (e, a) = (ground arith, hex_visible s a)

digits_visible : (s : Text) → Passes is_digit s → Passes visible s
digits_visible [] a = tt
digits_visible (c ∷ s) (e, a) = (ground arith, digits_visible s a)

long_not_empty : (s : Text) → length s ≡ 64 → is_empty s ≡ false
long_not_empty [] e = ground arith
long_not_empty (c ∷ s) e = refl

-- The pattern on a header of the form that the code writes.
match_header-Passes :
    (time hex : Text)
    → is_empty time ≡ false
    → Passes is_digit time
    → is_empty hex ≡ false
    → Passes is_hex hex
    → match_header (codes "t=" ++ (time ++ (codes ",v1=" ++ hex))) ≡ some (time, hex)
unfolding match_header
match_header-Passes time hex te td he hd =
    let comma : span is_digit (time ++ (codes ",v1=" ++ hex)) ≡ (time, codes ",v1=" ++ hex) =
      span-append is_digit time b',' (codes "v1=" ++ hex) td refl in
    let label : strip_prefix (codes ",v1=") (codes ",v1=" ++ hex) ≡ some hex =
      strip_prefix-append (codes ",v1=") hex in
    ap after_label (strip_prefix-append (codes "t=") (time ++ (codes ",v1=" ++ hex)))
    ∙ ap time_group comma
    ∙ rw te (ap (hex_group time) label ∙ rw (he, all_are-Passes is_hex hex hd) refl)

module _ (h : Hmac) where
  trim-header :
      (secret raw_body : Text) (timestamp_sec : ℕ)
      → trim (sign_webhook h secret timestamp_sec raw_body)
        ≡ sign_webhook h secret timestamp_sec raw_body
  unfolding sign_webhook compute
  trim-header secret raw_body timestamp_sec =
      let hash = h.digest secret (decimal timestamp_sec ++ b'.' ∷ raw_body) in
      let tail : Passes visible (codes ",v1=" ++ hash) =
        Passes-append visible (codes ",v1=") hash (refl, (refl, (refl, (refl, tt))))
          (hex_visible hash (h.digest-Passes secret _)) in
      let all : Passes visible (codes "t=" ++ (decimal timestamp_sec ++ (codes ",v1=" ++ hash))) =
        Passes-append visible (codes "t=") _ (refl, (refl, tt))
          (Passes-append visible (decimal timestamp_sec) _
            (digits_visible _ (decimal-Passes timestamp_sec)) tail) in
      rw (trim_start-Passes _ all) (trim_end-Passes _ all)

  fresh_accepted :
      (secret raw_body : Text) (timestamp_sec tolerance now : ℕ)
      → check_match h secret raw_body tolerance now
          (some (decimal timestamp_sec, compute h secret timestamp_sec raw_body))
        ≡ leb (distance now timestamp_sec) tolerance
  fresh_accepted secret raw_body timestamp_sec tolerance now =
      let bytes = from_hex (compute h secret timestamp_sec raw_body) in
      rw (number-decimal timestamp_sec, ==_refl (length bytes), text_eq_refl bytes) (ground arith)

  -- The header that signs a body is accepted for that body and secret as long as its time lies
  -- within the tolerance of the clock, and no longer.
  pub verify_hmac-sign_webhook :
      (secret raw_body : Text) (timestamp_sec tolerance now : ℕ)
      → verify_hmac h secret (sign_webhook h secret timestamp_sec raw_body) raw_body tolerance now
        ≡ leb (distance (now / 1000) timestamp_sec) tolerance
  unfolding verify_hmac sign_webhook compute
  verify_hmac-sign_webhook secret raw_body timestamp_sec tolerance now =
      ap (check_match h secret raw_body tolerance (now / 1000)) (
        ap match_header (trim-header secret raw_body timestamp_sec)
        ∙ match_header-Passes (decimal timestamp_sec) (compute h secret timestamp_sec raw_body)
            (decimal_not_empty timestamp_sec) (decimal-Passes timestamp_sec)
            (long_not_empty _ (h.digest-length secret _)) (h.digest-Passes secret _))
      ∙ fresh_accepted secret raw_body timestamp_sec tolerance (now / 1000)
