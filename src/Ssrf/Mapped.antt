-- ===== src/Ssrf/Mapped.antt =====
-- The call of `isBlockedIp` on a mapped address is on a shorter text, so it comes to an end.
use xgamefi.Prelude.{
  ℕ, zero, suc, ◌+◌, ◌<◌, ◌≡◌, refl, ap, ◌∙◌, arith, inl, inr, Bool, true, false, Option, none,
  some, [], ◌∷◌, Text, codes, length, strip_prefix, to_lower, Bool-cases, Option-cases,
  if◌then◌else◌,
}
use xgamefi.Ssrf.{
  IpKind, v4, v6, not_ip, dotted_quad, quad_after, mapped, local_v6, by_kind, is_blocked_fuel,
  is_blocked_ip,
}

strip_prefix-length : (p s t : Text) → strip_prefix p s ≡ some t → length p + length t ≡ length s
unfolding strip_prefix
strip_prefix-length [] s t e = ground arith
strip_prefix-length (x ∷ p) [] t e = cc
strip_prefix-length (x ∷ p) (y ∷ s) t e = ground (arith, strip_prefix-length p s t)

quad_after-length :
    (p s t : Text) → quad_after (strip_prefix p s) ≡ some t → length p + length t ≡ length s
quad_after-length p s t e = elim (Option-cases (strip_prefix p s)) [
  | inl n ↦ cc (rw n at e)
  | inr (r, f) ↦
      let kept : (if dotted_quad r then some r else none) ≡ some t = rw f at e in
      strip_prefix-length p s t (f ∙ same r t kept)
]
  where
    same : (r t : Text) → (if dotted_quad r then some r else none) ≡ some t → some r ≡ some t
    same r t k = ground arith

pub mapped-length : (s t : Text) → mapped s ≡ some t → length t < length s
unfolding mapped
mapped-length [] t e = cc
mapped-length (c ∷ s) t e =
    elim (Option-cases (quad_after (strip_prefix (codes "::ffff:") (c ∷ s)))) [
      | inl n ↦ omega (arith, mapped-length s t (rw n at e))
      | inr (r, f) ↦
          let same : some r ≡ some t = rw f at e in
          omega (arith, quad_after-length (codes "::ffff:") (c ∷ s) t (f ∙ same))
    ]

length-to_lower : (s : Text) → length (to_lower s) ≡ length s
unfolding to_lower
length-to_lower [] = refl
length-to_lower (c ∷ s) = ap suc (length-to_lower s)

abbrev Answers : Option Bool → Type 0
Answers o = (b : Bool) × (o ≡ some b)

module _ (is_ip : Text → IpKind) where
  v6-Answers :
      (recur : Text → Option Bool) (ip : Text)
      → ((m : Text) → length m < length ip → Answers (recur m))
      → Answers (by_kind is_ip recur ip v6)
  v6-Answers recur ip ends = elim (Bool-cases (local_v6 (to_lower ip))) [
    | inl l ↦ (true, rw l refl)
    | inr l ↦ elim (Option-cases (mapped (to_lower ip))) [
      | inl n ↦ (false, rw (l, n) refl)
      | inr (m, e) ↦
          let shorter : length m < length ip =
            omega (arith, mapped-length (to_lower ip) m e, length-to_lower ip) in
          rw (l, e) (ends m shorter)
    ]
  ]

  by_kind-Answers :
      (recur : Text → Option Bool) (ip : Text) (k : IpKind)
      → ((m : Text) → length m < length ip → Answers (recur m))
      → Answers (by_kind is_ip recur ip k)
  by_kind-Answers recur ip v4 ends = (_, refl)
  by_kind-Answers recur ip v6 ends = v6-Answers recur ip ends
  by_kind-Answers recur ip not_ip ends = (true, refl)

  is_blocked_fuel-Answers :
      (fuel : ℕ) (ip : Text) → length ip < fuel → Answers (is_blocked_fuel is_ip fuel ip)
  is_blocked_fuel-Answers zero ip h = elim h [ ]
  is_blocked_fuel-Answers (suc fuel) ip h =
      by_kind-Answers (λ m. is_blocked_fuel is_ip fuel m) ip (is_ip ip)
        λ m shorter. is_blocked_fuel-Answers fuel m (omega arith)

  -- `isBlockedIp` comes to an end with an answer on every text, whatever `isIP` says of it.
  pub is_blocked_ip-Answers : (ip : Text) → (b : Bool) × (is_blocked_ip is_ip ip ≡ some b)
  unfolding is_blocked_ip
  is_blocked_ip-Answers ip = is_blocked_fuel-Answers (suc (length ip)) ip (omega arith)
