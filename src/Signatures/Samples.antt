-- ===== src/Signatures/Samples.antt =====
-- A hash that stands in for SHA-256: sixty-three zeros, then the sum of the characters of the
-- secret and the text, modulo sixteen.
use xgamefi.Prelude.{
  ℕ, zero, suc, ◌+◌, ◌-◌, ◌%◌, ◌<◌, ◌≡◌, refl, arith, [], ◌∷◌, Text, length, ltb, if◌then◌else◌,
  is_hex, Passes,
}
use xgamefi.Signatures.{Hmac}

abbrev sum_of : Text → ℕ
sum_of [] = 0
sum_of (c ∷ s) = c + sum_of s

abbrev hex_digit : ℕ → ℕ
hex_digit d = if ltb d 10 then b'0' + d else b'a' + (d - 10)

abbrev padded : ℕ → ℕ → Text
padded zero d = hex_digit d ∷ []
padded (suc n) d = b'0' ∷ padded n d

pub padded-length : (n d : ℕ) → length (padded n d) ≡ n + 1
padded-length zero d = refl
padded-length (suc n) d = omega (arith, padded-length n d)

pub padded-Passes : (n d : ℕ) → d < 16 → Passes is_hex (padded n d)
padded-Passes zero d h = (ground arith, tt)
padded-Passes (suc n) d h = (refl, padded-Passes n d h)

abbrev pub sums : Hmac
sums = record {
  digest = λ secret text. padded 63 ((sum_of secret + sum_of text) % 16);
  digest-length = λ secret text. padded-length 63 ((sum_of secret + sum_of text) % 16);
  digest-Passes =
      λ secret text. padded-Passes 63 ((sum_of secret + sum_of text) % 16) (omega arith);
}
