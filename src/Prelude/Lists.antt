-- ===== src/Prelude/Lists.antt =====
-- Lists measured by native numbers, and the table operations of the database client: the first
-- row that a filter accepts, an update of every such row, a deletion, a count.
use Prim.Native.Nat.{ℕ, zero, suc, ◌+◌}
use mathlib.Core.Path.{◌≡◌, refl, sym, subst}
use mathlib.Core.Logic.{◌≢◌, ◌⊎◌, inl, inr}
use mathlib.Core.Bool.{Bool, true, false, ◌||◌}
use mathlib.Core.Option.{Option, none, some}
use mathlib.Core.List.{List, [], ◌∷◌, ◌++◌}
use native.Mathlib.Omega.{arith}
use xgamefi.Prelude.Tests.{◌==◌, if◌then◌else◌}

module _ {ℓ} {A : Type ℓ} where
  abbrev pub length : List A → ℕ
  length [] = 0
  length (x ∷ xs) = suc (length xs)

  abbrev pub take : ℕ → List A → List A
  take zero xs = []
  take (suc n) [] = []
  take (suc n) (x ∷ xs) = x ∷ take n xs

  abbrev pub drop : ℕ → List A → List A
  drop zero xs = xs
  drop (suc n) [] = []
  drop (suc n) (x ∷ xs) = drop n xs

  abbrev pub any : (A → Bool) → List A → Bool
  any p [] = false
  any p (x ∷ xs) = p x || any p xs

  abbrev pub or_last : Option A → Option A → Option A
  or_last none b = b
  or_last (some a) b = some a

  -- `filter` with a Boolean test
  unfoldable pub where_is : (A → Bool) → List A → List A
  where_is p [] = []
  where_is p (x ∷ xs) = let rest = where_is p xs in if p x then x ∷ rest else rest

  -- `find`, `findFirst`, `findUnique`
  unfoldable pub find : (A → Bool) → List A → Option A
  find p [] = none
  find p (x ∷ xs) = if p x then some x else find p xs

  -- `findFirst` in descending order of creation: rows are kept in the order they were created.
  unfoldable pub find_last : (A → Bool) → List A → Option A
  find_last p [] = none
  find_last p (x ∷ xs) = or_last (find_last p xs) (if p x then some x else none)

  -- `update` and `updateMany`
  unfoldable pub update : (A → Bool) → (A → A) → List A → List A
  update p f [] = []
  update p f (x ∷ xs) = (if p x then f x else x) ∷ update p f xs

  -- `delete`
  unfoldable pub remove : (A → Bool) → List A → List A
  remove p [] = []
  remove p (x ∷ xs) = let rest = remove p xs in if p x then rest else x ∷ rest

  unfoldable pub count : (A → Bool) → List A → ℕ
  count p [] = 0
  count p (x ∷ xs) = let rest = count p xs in if p x then suc rest else rest

module _ {ℓ} {A : Type ℓ} where
  pub length-append : (xs ys : List A) → length (xs ++ ys) ≡ length xs + length ys
  length-append [] ys = omega arith
  length-append (x ∷ xs) ys = omega (arith, length-append xs ys)

  -- The row that is found passes the filter.
  pub find-accepts : (p : A → Bool) (xs : List A) (a : A) → find p xs ≡ some a → p a ≡ true
  unfolding find
  find-accepts p [] a h = ground arith
  find-accepts p (x ∷ xs) a h = ground (arith, find-accepts p xs a)

  pub find_last-accepts :
      (p : A → Bool) (xs : List A) (a : A) → find_last p xs ≡ some a → p a ≡ true
  unfolding find_last
  find_last-accepts p [] a h = cc
  find_last-accepts p (x ∷ xs) a h = ground (arith, find_last-accepts p xs a)

  pub count-append : (p : A → Bool) (xs ys : List A) → count p (xs ++ ys) ≡ count p xs + count p ys
  unfolding count
  count-append p [] ys = omega arith
  count-append p (x ∷ xs) ys = ground (arith, count-append p xs ys)

  -- An update that keeps the answer of a test keeps its count.
  pub count-update :
      (q p : A → Bool) (f : A → A) (xs : List A)
      → ((a : A) → q (f a) ≡ q a)
      → count q (update p f xs) ≡ count q xs
  unfolding count update
  count-update q p f [] h = refl
  count-update q p f (x ∷ xs) h = ground (arith, h x, count-update q p f xs h)

-- Every element, and some element, as types.
abbrev pub All {ℓ} : {A : Type ℓ} → (A → Type 0) → List A → Type 0
All P [] = Unit {0}
All P (x ∷ xs) = P x × All P xs

abbrev pub Has {ℓ} : {A : Type ℓ} → (A → Type 0) → List A → Type 0
Has P [] = ⊥
Has P (x ∷ xs) = P x ⊎ Has P xs

-- Rows under a key: what an update by key does to a lookup by key.
module _ {ℓ} {A : Type ℓ} (key : A → ℕ) (f : A → A) (same : (a : A) → key (f a) ≡ key a) where
  pub find-update_self :
      (k : ℕ) (xs : List A) (a : A)
      → find (λ r. key r == k) xs ≡ some a
      → find (λ r. key r == k) (update (λ r. key r == k) f xs) ≡ some (f a)
  unfolding find update
  find-update_self k [] a h = cc
  find-update_self k (x ∷ xs) a h = ground (arith, same x, find-update_self k xs a)

  -- The same where the update names the key by the row that was found.
  pub find-update_row :
      (k : ℕ) (xs : List A) (a : A)
      → key a ≡ k
      → find (λ r. key r == k) xs ≡ some a
      → find (λ r. key r == k) (update (λ r. key r == key a) f xs) ≡ some (f a)
  find-update_row k xs a e h =
      subst (λ j. find (λ r. key r == k) (update (λ r. key r == j) f xs) ≡ some (f a)) (sym e)
        (find-update_self k xs a h)

  pub find-update_ne :
      (j k : ℕ) (xs : List A)
      → j ≢ k
      → find (λ r. key r == j) (update (λ r. key r == k) f xs) ≡ find (λ r. key r == j) xs
  unfolding find update
  find-update_ne j k [] h = refl
  find-update_ne j k (x ∷ xs) h = ground (arith, same x, find-update_ne j k xs h)

module _ {ℓ} {A : Type ℓ} where
  -- An update of the row that is found, by a filter that asks for more than the lookup.
  pub find-update_found :
      (q p : A → Bool) (f : A → A) (xs : List A) (a : A)
      → ((r : A) → q (f r) ≡ q r)
      → find q xs ≡ some a
      → p a ≡ true
      → find q (update p f xs) ≡ some (f a)
  unfolding find update
  find-update_found q p f [] a same h pa = cc
  find-update_found q p f (x ∷ xs) a same h pa =
      ground (arith, same x, find-update_found q p f xs a same)

module _ {A : Type 0} where
  pub Has-append_self : (a : A) (xs : List A) → Has (λ x. x ≡ a) (xs ++ a ∷ [])
  Has-append_self a [] = inl refl
  Has-append_self a (x ∷ xs) = inr (Has-append_self a xs)

  pub Has-append_left : (a : A) (xs ys : List A) → Has (λ x. x ≡ a) xs → Has (λ x. x ≡ a) (xs ++ ys)
  Has-append_left a [] ys h = absurd h
  Has-append_left a (x ∷ xs) ys (inl e) = inl e
  Has-append_left a (x ∷ xs) ys (inr h) = inr (Has-append_left a xs ys h)
