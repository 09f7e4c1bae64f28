-- ===== src/Ssrf/Dotted.antt =====
-- An address in dotted notation is read as its four numbers.
use xgamefi.Prelude.{
  ℕ, ◌+◌, ◌*◌, ◌<◌, ◌≡◌, refl, ap, ◌∙◌, arith, some, [], ◌∷◌, ◌++◌, Text, decimal, is_digit, Passes,
  number-decimal, decimal-Passes, decimal_not_empty, all_are-Passes, List,
}
use xgamefi.Ssrf.{split, octet, with_octet, octets_from, ipv4_to_int}

unfoldable pub dotted : ℕ → ℕ → ℕ → ℕ → Text
dotted a b c d = decimal a ++ b'.' ∷ (decimal b ++ b'.' ∷ (decimal c ++ b'.' ∷ decimal d))

abbrev pub address : ℕ → ℕ → ℕ → ℕ → ℕ
address a b c d = ((a * 256 + b) * 256 + c) * 256 + d

split_digits : (s : Text) → Passes is_digit s → split b'.' s ≡ s ∷ []
unfolding split
split_digits [] p = refl
split_digits (c ∷ s) (e, p) = rw (split_digits s p) (ground arith)

split-append : (s t : Text) → Passes is_digit s → split b'.' (s ++ b'.' ∷ t) ≡ s ∷ split b'.' t
unfolding split
split-append [] t p = refl
split-append (c ∷ s) t (e, p) = rw (split-append s t p) (ground arith)

split-dotted :
    (a b c d : ℕ) → split b'.' (dotted a b c d) ≡ decimal a ∷ decimal b ∷ decimal c ∷ decimal d ∷ []
unfolding dotted
split-dotted a b c d =
    split-append (decimal a) _ (decimal-Passes a)
    ∙ ap (λ p. decimal a ∷ p)
        (split-append (decimal b) _ (decimal-Passes b)
          ∙ ap (λ p. decimal b ∷ p)
              (split-append (decimal c) _ (decimal-Passes c)
                ∙ ap (λ p. decimal c ∷ p) (split_digits (decimal d) (decimal-Passes d))))

octet-decimal : (n : ℕ) → n < 256 → octet (decimal n) ≡ some n
octet-decimal n h =
    rw
      (
        decimal_not_empty n,
        all_are-Passes is_digit (decimal n) (decimal-Passes n),
        number-decimal n,
      )
      (ground arith)

octets_step :
    (n v : ℕ) (p : Text) (ps : List Text)
    → octet p ≡ some v
    → octets_from (some n) (p ∷ ps) ≡ octets_from (some (n * 256 + v)) ps
octets_step n v p ps e = ap (λ o. octets_from (with_octet n o) ps) e

pub ipv4_to_int-dotted :
    (a b c d : ℕ)
    → a < 256
    → b < 256
    → c < 256
    → d < 256
    → ipv4_to_int (dotted a b c d) ≡ some (address a b c d)
unfolding ipv4_to_int
ipv4_to_int-dotted a b c d ha hb hc hd = rw (split-dotted a b c d) (
    octets_step 0 a (decimal a) (decimal b ∷ decimal c ∷ decimal d ∷ []) (octet-decimal a ha)
    ∙ octets_step (0 * 256 + a) b (decimal b) (decimal c ∷ decimal d ∷ []) (octet-decimal b hb)
    ∙ octets_step ((0 * 256 + a) * 256 + b) c (decimal c) (decimal d ∷ []) (octet-decimal c hc)
    ∙ octets_step (((0 * 256 + a) * 256 + b) * 256 + c) d (decimal d) [] (octet-decimal d hd)
    ∙ ap some (omega arith))
