-- ===== src/Queries/Newest.antt =====
-- `orderBy: { createdAt: "desc" }`, and `where`: what the rows that are read are.
use xgamefi.Prelude.{
  ℕ, suc, ◌≤◌, ◌<◌, ◌≡◌, ◌≢◌, inl, inr, refl, sym, subst, arith, Bool, true, Bool-cases, List, [],
  ◌∷◌, length, count, where_is, leb, ◌==◌, if◌then◌else◌, All, Has, ⊤,
}
use xgamefi.Queries.Cursor.{HasKeys}

module _ {A : Type 0} (created : A → ℕ) where
  -- Where two rows were created at the same time, the database promises no order of the two.
  unfoldable pub insert_newest : A → List A → List A
  insert_newest a [] = a ∷ []
  insert_newest a (b ∷ bs) =
      let rest = insert_newest a bs in if leb (created b) (created a) then a ∷ b ∷ bs else b ∷ rest

  unfoldable pub newest_first : List A → List A
  newest_first [] = []
  newest_first (a ∷ xs) = insert_newest a (newest_first xs)

  -- Each row was created before those in front of it.
  abbrev pub IsNewestFirst : List A → Type 0
  IsNewestFirst [] = ⊤
  IsNewestFirst (a ∷ xs) = All (λ b. created b < created a) xs × IsNewestFirst xs

  insert_newest-count :
      (q : A → Bool) (a : A) (xs : List A) → count q (insert_newest a xs) ≡ count q (a ∷ xs)
  unfolding insert_newest count
  insert_newest-count q a [] = refl
  insert_newest-count q a (b ∷ bs) = elim (Bool-cases (leb (created b) (created a))) [
    | inl y ↦ rw y refl
    | inr n ↦ rw n (ground (arith, insert_newest-count q a bs))
  ]

  pub newest_first-count : (q : A → Bool) (xs : List A) → count q (newest_first xs) ≡ count q xs
  unfolding newest_first count
  newest_first-count q [] = refl
  newest_first-count q (a ∷ xs) =
      rw (insert_newest-count q a (newest_first xs)) (ground (arith, newest_first-count q xs))

  insert_newest-length : (a : A) (xs : List A) → length (insert_newest a xs) ≡ suc (length xs)
  unfolding insert_newest
  insert_newest-length a [] = refl
  insert_newest-length a (b ∷ bs) = elim (Bool-cases (leb (created b) (created a))) [
    | inl y ↦ rw y refl
    | inr n ↦ rw n (omega (arith, insert_newest-length a bs))
  ]

  pub newest_first-length : (xs : List A) → length (newest_first xs) ≡ length xs
  unfolding newest_first
  newest_first-length [] = refl
  newest_first-length (a ∷ xs) =
      omega (arith, insert_newest-length a (newest_first xs), newest_first-length xs)

  insert_newest-All :
      (P : A → Type 0) (a : A) (xs : List A) → P a → All P xs → All P (insert_newest a xs)
  unfolding insert_newest
  insert_newest-All P a [] p h = (p, tt)
  insert_newest-All P a (b ∷ bs) p (q, h) = elim (Bool-cases (leb (created b) (created a))) [
    | inl y ↦ rw y (p, (q, h))
    | inr n ↦ rw n (q, insert_newest-All P a bs p h)
  ]

  pub newest_first-All : (P : A → Type 0) (xs : List A) → All P xs → All P (newest_first xs)
  unfolding newest_first
  newest_first-All P [] h = tt
  newest_first-All P (a ∷ xs) (p, h) =
      insert_newest-All P a (newest_first xs) p (newest_first-All P xs h)

  insert_newest-Has_self : (P : A → Type 0) (a : A) (xs : List A) → P a → Has P (insert_newest a xs)
  unfolding insert_newest
  insert_newest-Has_self P a [] p = inl p
  insert_newest-Has_self P a (b ∷ bs) p = elim (Bool-cases (leb (created b) (created a))) [
    | inl y ↦ rw y (inl p)
    | inr n ↦ rw n (inr (insert_newest-Has_self P a bs p))
  ]

  insert_newest-Has : (P : A → Type 0) (a : A) (xs : List A) → Has P xs → Has P (insert_newest a xs)
  unfolding insert_newest
  insert_newest-Has P a [] h = absurd h
  insert_newest-Has P a (b ∷ bs) h = elim (Bool-cases (leb (created b) (created a))) [
    | inl y ↦ rw y (inr h)
    | inr n ↦ rw n (elim h [ inl p ↦ inl p | inr q ↦ inr (insert_newest-Has P a bs q) ])
  ]

  pub newest_first-Has : (P : A → Type 0) (xs : List A) → Has P xs → Has P (newest_first xs)
  unfolding newest_first
  newest_first-Has P [] h = absurd h
  newest_first-Has P (a ∷ xs) (inl p) = insert_newest-Has_self P a (newest_first xs) p
  newest_first-Has P (a ∷ xs) (inr h) =
      insert_newest-Has P a (newest_first xs) (newest_first-Has P xs h)

  below :
      (a b : A) (bs : List A)
      → created b < created a
      → All (λ c. created c < created b) bs
      → All (λ c. created c < created a) bs
  below a b [] lt h = tt
  below a b (c ∷ bs) lt (l, h) = (omega (arith, l, lt), below a b bs lt h)

  insert_newest-IsNewestFirst :
      (a : A) (xs : List A)
      → All (λ b. created b ≢ created a) xs
      → IsNewestFirst xs
      → IsNewestFirst (insert_newest a xs)
  unfolding insert_newest
  insert_newest-IsNewestFirst a [] other h = (tt, tt)
  insert_newest-IsNewestFirst a (b ∷ bs) (differs, other) (l, h) =
      elim (Bool-cases (leb (created b) (created a))) [
        | inl y ↦
            let lt : created b < created a = ground (arith, differs) in
            rw y ((lt, below a b bs lt l), (l, h))
        | inr n ↦
            let lt : created a < created b = ground (arith, n) in
            rw n (
              insert_newest-All (λ c. created c < created b) a bs lt l,
              insert_newest-IsNewestFirst a bs other h,
            )
      ]

  others :
      (a : A) (xs : List A)
      → count (λ b. created b == created a) xs ≡ 0
      → All (λ b. created b ≢ created a) xs
  unfolding count
  others a [] e = tt
  others a (b ∷ bs) e = elim (Bool-cases (created b == created a)) [
    | inl y ↦ absurd (ground (arith, e))
    | inr n ↦ (λ same. absurd (ground (arith, same, n)), others a bs (ground (arith, e)))
  ]

  pub newest_first-IsNewestFirst :
      (xs : List A) → HasKeys created xs → IsNewestFirst (newest_first xs)
  unfolding newest_first count
  newest_first-IsNewestFirst [] keys = tt
  newest_first-IsNewestFirst (a ∷ xs) keys =
      let alone : count (λ b. created b == created a) xs ≡ 0 = ground (arith, keys (created a)) in
      insert_newest-IsNewestFirst a (newest_first xs)
        (newest_first-All (λ b. created b ≢ created a) xs (others a xs alone))
        (newest_first-IsNewestFirst xs λ k. ground (arith, keys k))

module _ {A : Type 0} (p : A → Bool) where
  pub where_is-All :
      (P : A → Type 0) (xs : List A) → ((a : A) → p a ≡ true → P a) → All P (where_is p xs)
  unfolding where_is
  where_is-All P [] h = tt
  where_is-All P (a ∷ xs) h = elim (Bool-cases (p a)) [
    | inl y ↦ rw y (h a y, where_is-All P xs h)
    | inr n ↦ rw n (where_is-All P xs h)
  ]

  pub where_is-Has :
      (a : A) (xs : List A) → Has (λ b. b ≡ a) xs → p a ≡ true → Has (λ b. b ≡ a) (where_is p xs)
  unfolding where_is
  where_is-Has a [] h e = absurd h
  where_is-Has a (b ∷ bs) (inl same) e =
      let here : p b ≡ true = subst (λ c. p c ≡ true) (sym same) e in rw here (inl same)
  where_is-Has a (b ∷ bs) (inr h) e = elim (Bool-cases (p b)) [
    | inl y ↦ rw y (inr (where_is-Has a bs h e))
    | inr n ↦ rw n (where_is-Has a bs h e)
  ]

  pub where_is-length : (xs : List A) → length (where_is p xs) ≤ length xs
  unfolding where_is
  where_is-length [] = omega arith
  where_is-length (a ∷ xs) = ground (arith, where_is-length xs)

  pub where_is-count : (q : A → Bool) (xs : List A) → count q (where_is p xs) ≤ count q xs
  unfolding where_is count
  where_is-count q [] = omega arith
  where_is-count q (a ∷ xs) = ground (arith, where_is-count q xs)
