-- ===== src/Ssrf.antt =====
-- packages/shared/src/ssrf.ts: the guard of the requests that the platform sends to the addresses
-- that studios enter. `isIP`, `new URL`, DNS and `fetch` are the platform's.
pub mod Dotted
pub mod Ranges
pub mod Mapped
pub mod PublicUrl
mod Tests
use xgamefi.Prelude.{
  ℕ, zero, suc, ◌+◌, ◌-◌, ◌*◌, ◌/◌, ◌%◌, ◌^◌, min, Bool, true, false, not, ◌&&◌, ◌||◌, Option, none,
  some, List, [], ◌∷◌, Text, codes, length, any, leb, ltb, ◌==◌, text_eq, if◌then◌else◌, number,
  strip_prefix, all_are, is_empty, is_digit, to_lower, is_some, or_last,
}

-- What `isIP` says of a text.
pub data IpKind : Type 0 where
  v4 v6 not_ip : IpKind

abbrev pub head_add : ℕ → List Text → List Text
head_add c [] = (c ∷ []) ∷ []
head_add c (p ∷ ps) = (c ∷ p) ∷ ps

-- `split` at one character.
unfoldable pub split : ℕ → Text → List Text
split d [] = [] ∷ []
split d (c ∷ s) = let parts = split d s in if c == d then [] ∷ parts else head_add c parts

-- `Number(p)` on the parts that occur: addresses that `isIP` takes for IPv4 and the ranges below
-- have digits between the dots.
abbrev pub octet : Text → Option ℕ
octet p =
    if not (is_empty p) && all_are is_digit p
    then (if leb (number p) 255 then some (number p) else none)
    else none

abbrev pub with_octet : ℕ → Option ℕ → Option ℕ
with_octet n none = none
with_octet n (some v) = some (n * 256 + v)

abbrev pub octets_from : Option ℕ → List Text → Option ℕ
octets_from none parts = none
octets_from (some n) [] = some n
octets_from (some n) (p ∷ ps) = octets_from (with_octet n (octet p)) ps

unfoldable pub ipv4_to_int : Text → Option ℕ
ipv4_to_int ip =
    let parts = split b'.' ip in if length parts == 4 then octets_from (some 0) parts else none

-- A range in CIDR notation, split at the slash.
pub record Cidr : Type 0 where
  pub base : Text
  pub bits : ℕ

abbrev pub blocked_v4 : List Cidr
blocked_v4 =
    record { base = codes "0.0.0.0"; bits = 8 }
    ∷ record { base = codes "10.0.0.0"; bits = 8 }
    ∷ record { base = codes "100.64.0.0"; bits = 10 }
    ∷ record { base = codes "127.0.0.0"; bits = 8 }
    ∷ record { base = codes "169.254.0.0"; bits = 16 }
    ∷ record { base = codes "172.16.0.0"; bits = 12 }
    ∷ record { base = codes "192.0.0.0"; bits = 24 }
    ∷ record { base = codes "192.168.0.0"; bits = 16 }
    ∷ record { base = codes "198.18.0.0"; bits = 15 }
    ∷ []

-- `(0xffffffff << (32 - bits)) >>> 0`: the shift keeps the low 32 bits.
abbrev pub mask : ℕ → ℕ
mask bits = if bits == 0 then 0 else 0xffffffff * 2 ^ (32 - bits) % 2 ^ 32

abbrev pub and_bits : ℕ → ℕ → ℕ → ℕ
and_bits zero a b = 0
and_bits (suc w) a b = and_bits w (a / 2) (b / 2) * 2 + min (a % 2) (b % 2)

-- `a & b` on 32 bits.
unfoldable pub bit_and : ℕ → ℕ → ℕ
bit_and a b = and_bits 32 a b

abbrev pub same_network : ℕ → ℕ → Option ℕ → Bool
same_network ip m none = false
same_network ip m (some base) = bit_and ip m == bit_and base m

unfoldable pub in_v4_range : ℕ → Cidr → Bool
in_v4_range ip cidr = same_network ip (mask cidr.bits) (ipv4_to_int cidr.base)

abbrev pub blocked_int : Option ℕ → Bool
blocked_int none = true
blocked_int (some n) = any (in_v4_range n) blocked_v4

-- `/\d+\.\d+\.\d+\.\d+/` on a whole text.
abbrev pub dotted_quad : Text → Bool
dotted_quad s =
    let parts = split b'.' s in
    length parts == 4 && not (any (λ p. is_empty p || not (all_are is_digit p)) parts)

abbrev pub quad_after : Option Text → Option Text
quad_after none = none
quad_after (some s) = if dotted_quad s then some s else none

-- `/::ffff:(\d+\.\d+\.\d+\.\d+)$/`: the first place where it matches.
unfoldable pub mapped : Text → Option Text
mapped [] = none
mapped (c ∷ s) = or_last (quad_after (strip_prefix (codes "::ffff:") (c ∷ s))) (mapped s)

abbrev pub starts_with : Text → Text → Bool
starts_with p s = is_some (strip_prefix p s)

abbrev pub local_v6 : Text → Bool
local_v6 s =
    text_eq s (codes "::1")
    || text_eq s (codes "::")
    || starts_with (codes "fc") s
    || starts_with (codes "fd") s
    || starts_with (codes "fe80") s

module _ (is_ip : Text → IpKind) where
  abbrev pub blocked_mapped : (Text → Option Bool) → Option Text → Option Bool
  blocked_mapped recur none = some false
  blocked_mapped recur (some m) = recur m

  abbrev pub by_kind : (Text → Option Bool) → Text → IpKind → Option Bool
  by_kind recur ip v4 = some (blocked_int (ipv4_to_int ip))
  by_kind recur ip v6 =
      if local_v6 (to_lower ip) then some true else blocked_mapped recur (mapped (to_lower ip))
  by_kind recur ip not_ip = some true

  -- `isBlockedIp` calls itself on the mapped address; `none` is running out of fuel.
  abbrev pub is_blocked_fuel : ℕ → Text → Option Bool
  is_blocked_fuel zero ip = none
  is_blocked_fuel (suc fuel) ip = by_kind (λ m. is_blocked_fuel fuel m) ip (is_ip ip)

  unfoldable pub is_blocked_ip : Text → Option Bool
  is_blocked_ip ip = is_blocked_fuel (suc (length ip)) ip
