-- ===== src/Ssrf/Tests.antt =====
-- Addresses and URLs, under a stand-in for `isIP` that takes four dotted numbers for IPv4 and a
-- text with a colon for IPv6.
use xgamefi.Prelude.{
  ◌≡◌, refl, arith, Bool, true, false, Option, none, some, List, [], ◌∷◌, Text, codes, any, is_some,
  if◌then◌else◌, text_eq, ◌==◌, decimal, number, all_are, strip_prefix, to_lower,
}
use xgamefi.Ssrf.{
  IpKind, v4, v6, not_ip, split, ipv4_to_int, bit_and, in_v4_range, mapped, is_blocked_ip,
}
use xgamefi.Ssrf.Dotted.{dotted}
use xgamefi.Ssrf.Mapped.{is_blocked_ip-Answers}
use xgamefi.Ssrf.Ranges.{in_listed_network, is_blocked_ip-listed}
use xgamefi.Ssrf.PublicUrl.{
  Url, IsPublic, allowed, rejected, check_ips, assert_public_url, assert_public_url-IsPublic,
  safe_fetch, too_long,
}

abbrev is_ip : Text → IpKind
is_ip s = if is_some (ipv4_to_int s) then v4 else if any (λ c. c == b':') s then v6 else not_ip

is_blocked_ip-listed_example :
    is_blocked_ip is_ip (dotted 172 31 255 9) ≡ some (in_listed_network 172 31 255)
unfolding ipv4_to_int split number all_are dotted decimal
is_blocked_ip-listed_example =
    is_blocked_ip-listed 172 31 255 9 (omega arith) (omega arith) (omega arith) (omega arith) is_ip
      refl

mapped_blocked : is_blocked_ip is_ip (codes "::FFFF:10.0.0.1") ≡ some true
unfolding is_blocked_ip ipv4_to_int split number all_are mapped strip_prefix to_lower text_eq
    in_v4_range bit_and
mapped_blocked = refl

-- Multicast and the addresses above it are not in the list.
multicast_passes : is_blocked_ip is_ip (codes "239.1.2.3") ≡ some false
unfolding is_blocked_ip ipv4_to_int split number all_are in_v4_range bit_and
multicast_passes = refl

is_blocked_ip-Answers_example : (b : Bool) × (is_blocked_ip is_ip (codes "::ffff:1.2.3.4") ≡ some b)
is_blocked_ip-Answers_example = is_blocked_ip-Answers is_ip (codes "::ffff:1.2.3.4")

abbrev parse_url : Text → Option Url
parse_url s =
    if text_eq s (codes "https://game.example/api")
    then some record { protocol = codes "https:"; hostname = codes "game.example" }
    else if text_eq s (codes "http://[fd00::1]/")
    then some record { protocol = codes "http:"; hostname = codes "[fd00::1]" }
    else none

abbrev resolve : Text → Option (List Text)
resolve s =
    if text_eq s (codes "game.example")
    then some (codes "203.0.114.7" ∷ [])
    else some (codes "fd00::1" ∷ [])

let_through :
    assert_public_url is_ip parse_url resolve (codes "https://game.example/api")
    ≡ allowed
        (record { protocol = codes "https:"; hostname = codes "game.example" }, codes "203.0.114.7")
unfolding assert_public_url check_ips is_blocked_ip ipv4_to_int split number all_are in_v4_range
    bit_and text_eq to_lower
let_through = refl

assert_public_url-IsPublic_example :
    IsPublic is_ip parse_url resolve
      (codes "https://game.example/api")
      record { protocol = codes "https:"; hostname = codes "game.example" }
assert_public_url-IsPublic_example =
    assert_public_url-IsPublic is_ip parse_url resolve (codes "https://game.example/api")
      record { protocol = codes "https:"; hostname = codes "game.example" } (codes "203.0.114.7")
      let_through

-- An address of IPv6 has no dot, so it counts as a name of the internal network.
private_v6_passes :
    assert_public_url is_ip parse_url resolve (codes "http://[fd00::1]/")
    ≡ allowed (record { protocol = codes "http:"; hostname = codes "[fd00::1]" }, codes "fd00::1")
unfolding assert_public_url text_eq to_lower
private_v6_passes = refl

long_answer :
    safe_fetch is_ip parse_url resolve
      (λ u. some (tt, 2000000))
      (codes "https://game.example/api")
      1048576
    ≡ rejected too_long
unfolding safe_fetch assert_public_url check_ips is_blocked_ip ipv4_to_int split number all_are
    in_v4_range bit_and text_eq to_lower
long_answer = refl
