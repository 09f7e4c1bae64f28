-- ===== src/Prelude/Rows.antt =====
-- Tables of rows under a key: a lookup after an update, an insertion or a deletion.
use Prim.Native.Nat.{ℕ}
use mathlib.Core.Path.{◌≡◌, refl, sym, subst, ◌∙◌}
use mathlib.Core.Logic.{◌≢◌, ◌⊎◌, inl, inr}
use mathlib.Core.Bool.{Bool, false}
use mathlib.Core.Option.{none, some}
use mathlib.Core.List.{List, [], ◌∷◌, ◌++◌}
use native.Mathlib.Omega.{arith}
use xgamefi.Prelude.Tests.{◌==◌, Bool-cases, ==_iff}
use xgamefi.Prelude.Lists.{find, remove, update, find-accepts, find-update_row, find-update_ne}

pub ==_cases : (j i : ℕ) → (j ≡ i) ⊎ (j ≢ i)
==_cases j i = elim (Bool-cases (j == i)) [
  | inl e ↦ inl ((==_iff j i).0 e)
  | inr e ↦ inr λ same. ground arith
]

module _ {A : Type 0} (key : A → ℕ) where
  abbrev pub by : ℕ → A → Bool
  by j r = key r == j

  -- Where the row of `i` is changed, a lookup of `j` finds that row, changed, or what it found before.
  pub find-update_cases :
      (f : A → A) (i j : ℕ) (xs : List A) (a : A)
      → ((r : A) → key (f r) ≡ key r)
      → find (by i) xs ≡ some a
      → ((find (by j) xs ≡ some a) × (find (by j) (update (by (key a)) f xs) ≡ some (f a)))
        ⊎ (find (by j) (update (by (key a)) f xs) ≡ find (by j) xs)
  find-update_cases f i j xs a keeps found =
      let same_key : key a ≡ i = (==_iff (key a) i).0 (find-accepts (by i) xs a found) in
      elim (==_cases j i) [
        | inl same ↦
            let found_j : find (by j) xs ≡ some a =
              subst (λ k. find (by k) xs ≡ some a) (sym same) found in
            inl (found_j, find-update_row key f keeps j xs a (same_key ∙ sym same) found_j)
        | inr other ↦ inr (find-update_ne key f keeps j (key a) xs (λ e. other (e ∙ same_key)))
      ]

  -- Behind an added row, a lookup finds what it found before, or that row where it found none.
  pub find-append_cases :
      (j : ℕ) (a : A) (xs : List A)
      → (find (by j) (xs ++ a ∷ []) ≡ find (by j) xs)
        ⊎ ((find (by j) xs ≡ none) × (find (by j) (xs ++ a ∷ []) ≡ some a))
  unfolding find
  find-append_cases j a [] = elim (Bool-cases (key a == j)) [
    | inl e ↦ inr (refl, rw e refl)
    | inr e ↦ inl (rw e refl)
  ]
  find-append_cases j a (r ∷ xs) = elim (Bool-cases (key r == j)) [
    | inl e ↦ rw e (inl refl)
    | inr e ↦ rw e (find-append_cases j a xs)
  ]

  find-remove_self : (i : ℕ) (xs : List A) → find (by i) (remove (by i) xs) ≡ none
  unfolding find remove
  find-remove_self i [] = refl
  find-remove_self i (r ∷ xs) = ground (arith, find-remove_self i xs)

  find-remove_ne :
      (i j : ℕ) (xs : List A) → (i == j) ≡ false → find (by j) (remove (by i) xs) ≡ find (by j) xs
  unfolding find remove
  find-remove_ne i j [] n = refl
  find-remove_ne i j (r ∷ xs) n = ground (arith, find-remove_ne i j xs n)

  -- What is found after a deletion was found before it.
  pub find-remove :
      (i j : ℕ) (xs : List A) (a : A)
      → find (by j) (remove (by i) xs) ≡ some a
      → find (by j) xs ≡ some a
  find-remove i j xs a e = elim (Bool-cases (i == j)) [
    | inl y ↦
        let same : i ≡ j = (==_iff i j).0 y in
        cc (subst (λ k. find (by j) (remove (by k) xs) ≡ some a) same e, find-remove_self j xs)
    | inr n ↦ sym (find-remove_ne i j xs n) ∙ e
  ]
