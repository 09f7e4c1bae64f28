-- ===== src/Ssrf/Ranges.antt =====
-- The masks of the ranges against the four numbers of an address, and the end of the recursion.
use xgamefi.Prelude.{
  ℕ, zero, suc, ◌+◌, ◌*◌, ◌/◌, ◌^◌, ◌<◌, ◌≡◌, refl, ap, subst, ◌∙◌, arith, Bool, ◌&&◌, ◌||◌, some,
  Text, length, leb, ◌==◌, number, all_are,
}
use xgamefi.Ssrf.Dotted.{address, dotted, ipv4_to_int-dotted}
use xgamefi.Ssrf.{
  IpKind, v4, split, ipv4_to_int, and_bits, bit_and, mask, same_network, in_v4_range, blocked_int,
  is_blocked_ip, by_kind, is_blocked_fuel,
}

-- `n` halved `k` times, and brought back.
abbrev half : ℕ → ℕ → ℕ
half zero n = n
half (suc k) n = half k (n / 2)

abbrev double : ℕ → ℕ → ℕ
double zero n = n
double (suc k) n = double k n * 2

abbrev ones : ℕ → ℕ
ones zero = 0
ones (suc b) = ones b * 2 + 1

and_bits-ones : (b n : ℕ) → n < 2 ^ b → and_bits b n (ones b) ≡ n
and_bits-ones zero n h = omega arith
and_bits-ones (suc b) n h =
    let halved : (ones b * 2 + 1) / 2 ≡ ones b = omega arith in
    rw halved (omega (arith, and_bits-ones b (n / 2) (omega arith)))

abbrev width : ℕ → ℕ → ℕ
width zero b = b
width (suc k) b = suc (width k b)

-- The `b` bits above the lowest `k`.
and_bits-double :
    (k b n : ℕ)
    → half k n < 2 ^ b
    → and_bits (width k b) n (double k (ones b)) ≡ double k (half k n)
and_bits-double zero b n h = and_bits-ones b n h
and_bits-double (suc k) b n h =
    let halved : double k (ones b) * 2 / 2 ≡ double k (ones b) = omega arith in
    rw halved (omega (arith, and_bits-double k b (n / 2) h))

double_test : (k m n : ℕ) → (double k m == double k n) ≡ (m == n)
double_test zero m n = refl
double_test (suc k) m n = ground (arith, double_test k m n)

-- A range is told by the bits that its mask keeps.
network_test :
    (k b n m : ℕ)
    → width k b ≡ 32
    → double k (ones b) ≡ mask b
    → half k n < 2 ^ b
    → half k m < 2 ^ b
    → same_network n (mask b) (some m) ≡ (half k n == half k m)
unfolding bit_and
network_test k b n m w e hn hm =
    let kept : (x : ℕ) → half k x < 2 ^ b → bit_and x (mask b) ≡ double k (half k x) = λ x h.
      subst (λ v. bit_and x v ≡ double k (half k x)) e
        (subst (λ v. and_bits v x (double k (ones b)) ≡ double k (half k x)) w
          (and_bits-double k b x h)) in
    rw (kept n hn, kept m hm) (double_test k (half k n) (half k m))

half-address :
    (a b c d : ℕ)
    → a < 256
    → b < 256
    → c < 256
    → d < 256
    → let n = address a b c d in
      (half 24 n ≡ a) × (half 16 n ≡ a * 256 + b) × (half 8 n ≡ (a * 256 + b) * 256 + c)
half-address a b c d ha hb hc hd =
    let one : (x y : ℕ) → y < 256 → half 8 (x * 256 + y) ≡ x = λ x y h. omega arith in
    let third = one ((a * 256 + b) * 256 + c) d hd in
    let second = ap (half 8) third ∙ one (a * 256 + b) c hc in
    (ap (half 8) second ∙ one a b hb, second, third)

-- The nine networks of the list in the code, by the first three numbers of an address: this host
-- (0/8), the private networks (10/8, 172.16/12, 192.168/16), the shared space of carriers
-- (100.64/10), the loopback (127/8), the link-local network with the metadata service (169.254/16),
-- the protocol assignments (192.0.0/24), and the benchmark networks (198.18/15). Other networks
-- that are not public are not in it: multicast (224/4), the addresses above it (240/4), and the
-- networks for documentation (192.0.2/24, 198.51.100/24, 203.0.113/24).
abbrev pub in_listed_network : ℕ → ℕ → ℕ → Bool
in_listed_network a b c =
    a == 0
    || a == 10
    || (a == 100 && leb 64 b && leb b 127)
    || a == 127
    || (a == 169 && b == 254)
    || (a == 172 && leb 16 b && leb b 31)
    || (a == 192 && b == 0 && c == 0)
    || (a == 192 && b == 168)
    || (a == 198 && leb 18 b && leb b 19)

module _ (a b c d : ℕ) (ha : a < 256) (hb : b < 256) (hc : c < 256) (hd : d < 256) where
  parts :
      let n = address a b c d in
      (half 24 n ≡ a) × (half 16 n ≡ a * 256 + b) × (half 8 n ≡ (a * 256 + b) * 256 + c)
  parts = half-address a b c d ha hb hc hd

  range_8 :
      (m : ℕ)
      → half 24 m < 256
      → same_network (address a b c d) (mask 8) (some m) ≡ (a == half 24 m)
  range_8 m low =
      let (top, two, three) = parts in
      network_test 24 8 (address a b c d) m refl refl (omega (arith, top)) (omega arith)
      ∙ rw top refl

  range_16 :
      (m : ℕ)
      → half 16 m < 65536
      → same_network (address a b c d) (mask 16) (some m) ≡ (a * 256 + b == half 16 m)
  range_16 m low =
      let (top, two, three) = parts in
      network_test 16 16 (address a b c d) m refl refl (omega (arith, two)) (omega arith)
      ∙ rw two refl

  range_24 :
      (m : ℕ)
      → half 8 m < 16777216
      → same_network (address a b c d) (mask 24) (some m) ≡ ((a * 256 + b) * 256 + c == half 8 m)
  range_24 m low =
      let (top, two, three) = parts in
      network_test 8 24 (address a b c d) m refl refl (omega (arith, three)) (omega arith)
      ∙ rw three refl

  range_10 :
      same_network (address a b c d) (mask 10) (some 1681915904)
      ≡ (a == 100 && leb 64 b && leb b 127)
  range_10 =
      let (top, two, three) = parts in
      let kept : half 22 (address a b c d) ≡ half 6 (a * 256 + b) = ap (half 6) two in
      network_test 22 10 (address a b c d) 1681915904 refl refl (omega (arith, kept)) (omega arith)
      ∙ rw kept (ground arith)

  range_12 :
      same_network (address a b c d) (mask 12) (some 2886729728)
      ≡ (a == 172 && leb 16 b && leb b 31)
  range_12 =
      let (top, two, three) = parts in
      let kept : half 20 (address a b c d) ≡ half 4 (a * 256 + b) = ap (half 4) two in
      network_test 20 12 (address a b c d) 2886729728 refl refl (omega (arith, kept)) (omega arith)
      ∙ rw kept (ground arith)

  range_15 :
      same_network (address a b c d) (mask 15) (some 3323068416)
      ≡ (a == 198 && leb 18 b && leb b 19)
  range_15 =
      let (top, two, three) = parts in
      let kept : half 17 (address a b c d) ≡ half 1 (a * 256 + b) = ap (half 1) two in
      network_test 17 15 (address a b c d) 3323068416 refl refl (omega (arith, kept)) (omega arith)
      ∙ rw kept (ground arith)

  -- The ranges together.
  blocked_int-listed : blocked_int (some (address a b c d)) ≡ in_listed_network a b c
  unfolding in_v4_range ipv4_to_int split number all_are
  blocked_int-listed =
      rw
        (
          range_10,
          range_12,
          range_15,
          range_8 0 (omega arith),
          range_8 167772160 (omega arith),
          range_8 2130706432 (omega arith),
          range_16 2851995648 (omega arith),
          range_24 3221225472 (omega arith),
          range_16 3232235520 (omega arith),
        )
        (ground arith)

  -- An address that `isIP` takes for IPv4, written with four numbers below 256, is blocked exactly
  -- when its first three numbers are those of one of the nine networks of the list, by the bounds of
  -- each network and without its mask, whatever the last number is.
  pub is_blocked_ip-listed :
      (is_ip : Text → IpKind)
      → is_ip (dotted a b c d) ≡ v4
      → is_blocked_ip is_ip (dotted a b c d) ≡ some (in_listed_network a b c)
  unfolding is_blocked_ip
  is_blocked_ip-listed is_ip kind =
      let ip = dotted a b c d in
      ap (by_kind is_ip (λ m. is_blocked_fuel is_ip (length ip) m) ip) kind
      ∙ ap (λ o. some (blocked_int o)) (ipv4_to_int-dotted a b c d ha hb hc hd)
      ∙ ap some blocked_int-listed
