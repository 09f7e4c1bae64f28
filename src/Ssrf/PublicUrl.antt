-- ===== src/Ssrf/PublicUrl.antt =====
-- `assertPublicUrl` and `safeFetch`. A request that the platform's `fetch` makes is a parameter: its
-- answer has the length that the `content-length` header declares, or there is none.
use xgamefi.Prelude.{
  ℕ, ◌≡◌, ◌⊎◌, inl, inr, refl, subst, Bool, true, false, not, ◌&&◌, ◌||◌, Option, none, some, List,
  [], ◌∷◌, Text, codes, any, All, ltb, ◌==◌, text_eq, text_eq_sound, to_lower, Bool-cases,
  Option-cases, if◌then◌else◌, or_else,
}
use xgamefi.Ssrf.{IpKind, is_blocked_ip}

pub record Url : Type 0 where
  pub protocol : Text
  pub hostname : Text

pub data UrlError : Type 0 where
  invalid_url only_https not_resolved no_address : UrlError
  blocked_address : Text → UrlError
  fetch_failed too_long : UrlError

-- A URL that may be requested, with the address that it resolved to first.
pub data Checked (A : Type 0) : Type 0 where
  allowed : A → Checked A
  rejected : UrlError → Checked A

abbrev pub is_localhost : Text → Bool
is_localhost h =
    text_eq h (codes "localhost")
    || text_eq h (codes "127.0.0.1")
    || text_eq h (codes "::1")
    || text_eq h (codes "[::1]")

-- `!hostname.includes(".")`
abbrev pub is_internal_host : Text → Bool
is_internal_host h = not (any (λ c. c == b'.') h)

abbrev pub allow_http : Url → Bool
allow_http u = is_localhost (to_lower u.hostname) || is_internal_host (to_lower u.hostname)

abbrev pub is_https : Url → Bool
is_https u = text_eq u.protocol (codes "https:")

-- `resolve` is `none` when it throws.
module _ (is_ip : Text → IpKind) (parse_url : Text → Option Url)
    (resolve : Text → Option (List Text)) where
  abbrev pub is_blocked : Text → Bool
  is_blocked ip = or_else (is_blocked_ip is_ip ip) true

  unfoldable pub check_ips : List Text → Option Text
  check_ips [] = none
  check_ips (ip ∷ ips) = if is_blocked ip then some ip else check_ips ips

  abbrev pub reject_blocked : Url → Text → Option Text → Checked (Url × Text)
  reject_blocked url first none = allowed (url, first)
  reject_blocked url first (some ip) = rejected (blocked_address ip)

  abbrev pub check_resolved : Url → Option (List Text) → Checked (Url × Text)
  check_resolved url none = rejected not_resolved
  check_resolved url (some []) = rejected no_address
  check_resolved url (some (ip ∷ ips)) =
      reject_blocked url ip (if allow_http url then none else check_ips (ip ∷ ips))

  abbrev pub check_url : Option Url → Checked (Url × Text)
  check_url none = rejected invalid_url
  check_url (some url) =
      if not (is_https url) && not (allow_http url)
      then rejected only_https
      else check_resolved url (resolve url.hostname)

  unfoldable pub assert_public_url : Text → Checked (Url × Text)
  assert_public_url raw_url = check_url (parse_url raw_url)

  module _ {R : Type 0} (fetch : Url → Option (R × ℕ)) where
    abbrev pub bounded : ℕ → Option (R × ℕ) → Checked R
    bounded max_bytes none = rejected fetch_failed
    bounded max_bytes (some (r, len)) = if ltb max_bytes len then rejected too_long else allowed r

    abbrev pub fetch_checked : ℕ → Checked (Url × Text) → Checked R
    fetch_checked max_bytes (rejected e) = rejected e
    fetch_checked max_bytes (allowed (url, ip)) = bounded max_bytes (fetch url)

    unfoldable pub safe_fetch : Text → ℕ → Checked R
    safe_fetch raw_url max_bytes = fetch_checked max_bytes (assert_public_url raw_url)

  -- The text is a URL of this computer or of a name without a dot, or it is an HTTPS URL whose host
  -- resolves to addresses of which none is blocked.
  pub record IsPublic (raw_url : Text) (url : Url) : Type 0 where
    pub parsed : parse_url raw_url ≡ some url
    pub address : Text
    pub others : List Text
    pub resolved : resolve url.hostname ≡ some (address ∷ others)
    pub guarded :
        (allow_http url ≡ true)
        ⊎ ((url.protocol ≡ codes "https:") × All (λ ip. is_blocked ip ≡ false) (address ∷ others))

  check_ips-All : (ips : List Text) → check_ips ips ≡ none → All (λ ip. is_blocked ip ≡ false) ips
  unfolding check_ips
  check_ips-All [] e = tt
  check_ips-All (ip ∷ ips) e = elim (Bool-cases (is_blocked ip)) [
    | inl b ↦ cc (rw b at e)
    | inr b ↦ (b, check_ips-All ips (rw b at e))
  ]

  -- What the answer of the resolver was, and what was asked of it.
  abbrev Passed : Url → Url → Option (List Text) → Type 0
  Passed u v r =
      (ip : Text) × (ips : List Text) × (r ≡ some (ip ∷ ips))
      × (u ≡ v)
      × ((allow_http u ≡ true) ⊎ All (λ i. is_blocked i ≡ false) (ip ∷ ips))

  check_resolved-Passed :
      (u v : Url) (t : Text) (r : Option (List Text))
      → check_resolved u r ≡ allowed (v, t)
      → Passed u v r
  check_resolved-Passed u v t none e = cc
  check_resolved-Passed u v t (some []) e = cc
  check_resolved-Passed u v t (some (ip ∷ ips)) e = elim (Bool-cases (allow_http u)) [
    | inl a ↦ (ip, ips, refl, cc (rw a at e), inl a)
    | inr a ↦ elim (Option-cases (check_ips (ip ∷ ips))) [
      | inl c ↦ (ip, ips, refl, cc (rw (a, c) at e), inr (check_ips-All (ip ∷ ips) c))
      | inr (b, c) ↦ cc (rw (a, c) at e)
    ]
  ]

  passed_scheme :
      (h a : Bool) (r : Checked (Url × Text)) (x : Url × Text)
      → (if not h && not a then rejected only_https else r) ≡ allowed x
      → (r ≡ allowed x) × ((a ≡ true) ⊎ (h ≡ true))
  passed_scheme true a r x e = (e, inr refl)
  passed_scheme false true r x e = (e, inl refl)
  passed_scheme false false r x e = cc

  guarded_by :
      (u : Url) {P : Type 0}
      → (allow_http u ≡ true) ⊎ (is_https u ≡ true)
      → (allow_http u ≡ true) ⊎ P
      → (allow_http u ≡ true) ⊎ ((u.protocol ≡ codes "https:") × P)
  guarded_by u s (inl a) = inl a
  guarded_by u (inl a) (inr p) = inl a
  guarded_by u (inr h) (inr p) = inr (text_eq_sound u.protocol (codes "https:") h, p)

  check_url-IsPublic :
      (raw_url : Text) (v : Url) (t : Text) (o : Option Url)
      → parse_url raw_url ≡ o
      → check_url o ≡ allowed (v, t)
      → IsPublic raw_url v
  check_url-IsPublic raw_url v t none p e = cc
  check_url-IsPublic raw_url v t (some u) p e =
      let (r, scheme) = passed_scheme (is_https u) (allow_http u) _ (v, t) e in
      let (ip, ips, resolved, same, guard) = check_resolved-Passed u v t (resolve u.hostname) r in
      subst (IsPublic raw_url) same record {
        parsed = p;
        address = ip;
        others = ips;
        resolved = resolved;
        guarded = guarded_by u scheme guard;
      }

  -- A URL is let through only if it parses, its host resolves, and it is a URL of this computer or
  -- of a name without a dot, or an HTTPS URL none of whose addresses is blocked.
  pub assert_public_url-IsPublic :
      (raw_url : Text) (url : Url) (ip : Text)
      → assert_public_url raw_url ≡ allowed (url, ip)
      → IsPublic raw_url url
  unfolding assert_public_url
  assert_public_url-IsPublic raw_url url ip e =
      check_url-IsPublic raw_url url ip (parse_url raw_url) refl e
