-- ===== src/Prelude/Decimal.antt =====
-- Numbers printed in decimal and read back, and the parts of a text that the code's patterns name.
use Prim.Native.Nat.{ℕ, zero, suc, ◌+◌, ◌-◌, ◌*◌, ◌/◌, ◌%◌, ◌<◌}
use mathlib.Core.Path.{◌≡◌, refl}
use mathlib.Core.Logic.{inl, inr}
use mathlib.Core.Bool.{Bool, true, false, ◌&&◌, ◌||◌}
use mathlib.Core.Option.{Option, none, some}
use mathlib.Core.List.{[], ◌∷◌, ◌++◌}
use native.Mathlib.Omega.{arith}
use xgamefi.Prelude.Tests.{leb, ltb, ◌==◌, if◌then◌else◌, Bool-cases}
use xgamefi.Prelude.Lists.{All}
use xgamefi.Prelude.Texts.{Text}

abbrev pub is_digit : ℕ → Bool
is_digit c = leb b'0' c && leb c b'9'

-- `[0-9a-f]`
abbrev pub is_hex : ℕ → Bool
is_hex c = is_digit c || (leb b'a' c && leb c b'f')

-- The digits of a number, the last one being the remainder by ten.
abbrev pub digits : ℕ → ℕ → Text
digits zero n = []
digits (suc fuel) n =
    let rest = digits fuel (n / 10) in
    if ltb n 10 then (b'0' + n) ∷ [] else rest ++ (b'0' + n % 10) ∷ []

-- A number in a template literal.
unfoldable pub decimal : ℕ → Text
decimal n = digits (suc n) n

abbrev pub number_from : ℕ → Text → ℕ
number_from acc [] = acc
number_from acc (c ∷ s) = number_from (acc * 10 + (c - b'0')) s

-- `Number` on a text of digits.
unfoldable pub number : Text → ℕ
number s = number_from 0 s

-- The longest start of a text that passes a test, and what is left: `\d+` and the like.
unfoldable pub span : (ℕ → Bool) → Text → Text × Text
span p [] = ([], [])
span p (c ∷ s) = let (a, b) = span p s in if p c then (c ∷ a, b) else ([], c ∷ s)

unfoldable pub strip_prefix : Text → Text → Option Text
strip_prefix [] s = some s
strip_prefix (x ∷ xs) [] = none
strip_prefix (x ∷ xs) (y ∷ ys) = if x == y then strip_prefix xs ys else none

unfoldable pub all_are : (ℕ → Bool) → Text → Bool
all_are p [] = true
all_are p (c ∷ s) = p c && all_are p s

abbrev pub is_empty : Text → Bool
is_empty [] = true
is_empty (c ∷ s) = false

abbrev pub Passes : (ℕ → Bool) → Text → Type 0
Passes p = All (λ c. p c ≡ true)

pub Passes-append : (p : ℕ → Bool) (s t : Text) → Passes p s → Passes p t → Passes p (s ++ t)
Passes-append p [] t a b = b
Passes-append p (c ∷ s) t (x, a) b = (x, Passes-append p s t a b)

number_from-append :
    (acc c : ℕ) (s : Text) → number_from acc (s ++ c ∷ []) ≡ number_from acc s * 10 + (c - b'0')
number_from-append acc c [] = refl
number_from-append acc c (x ∷ s) = number_from-append (acc * 10 + (x - b'0')) c s

number_from-digits : (fuel n : ℕ) → n < fuel → number_from 0 (digits fuel n) ≡ n
number_from-digits zero n h = elim h [ ]
number_from-digits (suc fuel) n h = ground (
  arith,
  number_from-digits fuel (n / 10),
  number_from-append 0 (b'0' + n % 10) (digits fuel (n / 10)),
)

-- A printed number is read back.
pub number-decimal : (n : ℕ) → number (decimal n) ≡ n
unfolding number decimal
number-decimal n = number_from-digits (suc n) n (omega arith)

digit_passes : (d : ℕ) → d < 10 → is_digit (b'0' + d) ≡ true
digit_passes d h = ground arith

digits-Passes : (fuel n : ℕ) → Passes is_digit (digits fuel n)
digits-Passes zero n = tt
digits-Passes (suc fuel) n = elim (Bool-cases (ltb n 10)) [
  | inl h ↦ rw h (digit_passes n (ground arith), tt)
  | inr h ↦ rw h (
      Passes-append is_digit (digits fuel (n / 10)) _ (digits-Passes fuel (n / 10))
        (digit_passes (n % 10) (omega arith), tt))
]

pub decimal-Passes : (n : ℕ) → Passes is_digit (decimal n)
unfolding decimal
decimal-Passes n = digits-Passes (suc n) n

append_not_empty : (s : Text) (c : ℕ) → is_empty (s ++ c ∷ []) ≡ false
append_not_empty [] c = refl
append_not_empty (x ∷ s) c = refl

pub decimal_not_empty : (n : ℕ) → is_empty (decimal n) ≡ false
unfolding decimal
decimal_not_empty n = elim (Bool-cases (ltb n 10)) [
  | inl h ↦ rw h refl
  | inr h ↦ rw h (append_not_empty (digits n (n / 10)) (b'0' + n % 10))
]

-- A start that passes ends at the first character that does not.
pub span-append :
    (p : ℕ → Bool) (s : Text) (c : ℕ) (t : Text)
    → Passes p s
    → p c ≡ false
    → span p (s ++ c ∷ t) ≡ (s, c ∷ t)
unfolding span
span-append p [] c t a h = rw h refl
span-append p (x ∷ s) c t (e, a) h = rw (e, span-append p s c t a h) refl

pub strip_prefix-append : (s t : Text) → strip_prefix s (s ++ t) ≡ some t
unfolding strip_prefix
strip_prefix-append [] t = refl
strip_prefix-append (c ∷ s) t = ground (arith, strip_prefix-append s t)

pub all_are-Passes : (p : ℕ → Bool) (s : Text) → Passes p s → all_are p s ≡ true
unfolding all_are
all_are-Passes p [] a = refl
all_are-Passes p (c ∷ s) (e, a) = rw (e, all_are-Passes p s a) refl
