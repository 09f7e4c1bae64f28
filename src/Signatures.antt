-- ===== src/Signatures.antt =====
-- packages/shared/src/hmac.ts: the signature header of a webhook, written and checked. The keyed
-- hash is Node's; times are whole seconds that a double holds exactly.
pub mod RoundTrip
pub mod Samples
mod Tests
use xgamefi.Prelude.{
  ℕ, ◌+◌, ◌-◌, ◌*◌, ◌/◌, ◌≡◌, Bool, true, false, not, ◌&&◌, ◌||◌, Option, none, some, [], ◌∷◌, ◌++◌,
  Text, codes, length, leb, ltb, ◌==◌, text_eq, if◌then◌else◌, decimal, number, span, strip_prefix,
  all_are, is_empty, is_digit, is_hex, Passes,
}

-- `createHmac("sha256", secret).update(text).digest("hex")`: sixty-four digits in lower case.
pub record Hmac : Type 0 where
  pub digest : Text → Text → Text
  pub digest-length : (secret text : Text) → length (digest secret text) ≡ 64
  pub digest-Passes : (secret text : Text) → Passes is_hex (digest secret text)

abbrev pub space : ℕ → Bool
space c = c == b' ' || (leb 9 c && leb c 13)

unfoldable pub trim_start : Text → Text
trim_start [] = []
trim_start (c ∷ s) = let rest = trim_start s in if space c then rest else c ∷ s

unfoldable pub trim_end : Text → Text
trim_end [] = []
trim_end (c ∷ s) = let rest = trim_end s in if space c && is_empty rest then [] else c ∷ rest

-- `trim` on ASCII text.
abbrev pub trim : Text → Text
trim s = trim_end (trim_start s)

abbrev pub hex_value : ℕ → ℕ
hex_value c = if leb c b'9' then c - b'0' else c - b'a' + 10

-- `Buffer.from(text, "hex")` on hexadecimal digits: a last digit without a second is dropped.
unfoldable pub from_hex : Text → Text
from_hex [] = []
from_hex (a ∷ []) = []
from_hex (a ∷ b ∷ s) = (hex_value a * 16 + hex_value b) ∷ from_hex s

-- `/^t=(\d+),v1=([0-9a-f]+)$/`, with what its two groups matched.
abbrev pub hex_group : Text → Option Text → Option (Text × Text)
hex_group time none = none
hex_group time (some s) = if not (is_empty s) && all_are is_hex s then some (time, s) else none

abbrev pub time_group : Text × Text → Option (Text × Text)
time_group (time, rest) =
    if is_empty time then none else hex_group time (strip_prefix (codes ",v1=") rest)

abbrev pub after_label : Option Text → Option (Text × Text)
after_label none = none
after_label (some s) = time_group (span is_digit s)

unfoldable pub match_header : Text → Option (Text × Text)
match_header s = after_label (strip_prefix (codes "t=") s)

abbrev pub distance : ℕ → ℕ → ℕ
distance a b = (a - b) + (b - a)

module _ (h : Hmac) where
  unfoldable pub compute : Text → ℕ → Text → Text
  compute secret timestamp_sec raw_body = h.digest secret (decimal timestamp_sec ++ b'.' ∷ raw_body)

  unfoldable pub sign_webhook : Text → ℕ → Text → Text
  sign_webhook secret timestamp_sec raw_body =
      codes "t="
      ++ (decimal timestamp_sec ++ (codes ",v1=" ++ compute secret timestamp_sec raw_body))

  -- The comparison of the two buffers, by length and then by content.
  abbrev pub same_bytes : Text → Text → Bool
  same_bytes a b = if length a == length b then text_eq a b else false

  abbrev pub check_match : Text → Text → ℕ → ℕ → Option (Text × Text) → Bool
  check_match secret raw_body tolerance now none = false
  check_match secret raw_body tolerance now (some (time, provided)) =
      if ltb tolerance (distance now (number time))
      then false
      else same_bytes (from_hex provided) (from_hex (compute secret (number time) raw_body))

  -- `now` is `Date.now()`, in milliseconds.
  unfoldable pub verify_hmac : Text → Text → Text → ℕ → ℕ → Bool
  verify_hmac secret header raw_body tolerance now =
      check_match secret raw_body tolerance (now / 1000) (match_header (trim header))
