-- ===== src/Queries/Cursor.antt =====
-- Reading page after page gives every row once, in order.
use xgamefi.Prelude.{
  ℕ, zero, suc, ◌+◌, ◌≤◌, ◌<◌, ◌≡◌, refl, ap, sym, subst, ◌∙◌, arith, inl, inr, true, false,
  Bool-cases, Option, none, some, List, [], ◌∷◌, ◌++◌, map, length, take, drop, ltb, count, ◌==◌,
}
use mathlib.Core.List.{append_assoc, map-append}
use xgamefi.Queries.Paging.{Page, after, from, last_key, cut, page_after, next_pages, all_pages}

take-drop : {A : Type 0} (n : ℕ) (xs : List A) → take n xs ++ drop n xs ≡ xs
take-drop zero xs = refl
take-drop (suc n) [] = refl
take-drop (suc n) (x ∷ xs) = ap (λ ys. x ∷ ys) (take-drop n xs)

take-take_more : {A : Type 0} (n : ℕ) (xs : List A) → take n (take (suc n) xs) ≡ take n xs
take-take_more zero xs = refl
take-take_more (suc n) [] = refl
take-take_more (suc n) (x ∷ xs) = ap (λ ys. x ∷ ys) (take-take_more n xs)

-- One row more than the limit is seen exactly where there is one.
more_rows :
    {A : Type 0} (n : ℕ) (xs : List A) → ltb n (length (take (suc n) xs)) ≡ ltb n (length xs)
more_rows n [] = refl
more_rows zero (x ∷ xs) = ground arith
more_rows (suc n) (x ∷ xs) = ground (arith, more_rows n xs)

few_rows : {A : Type 0} (n : ℕ) (xs : List A) → ltb n (length xs) ≡ false → take (suc n) xs ≡ xs
few_rows n [] h = refl
few_rows zero (x ∷ xs) h = ground arith
few_rows (suc n) (x ∷ xs) h = ap (λ ys. x ∷ ys) (few_rows n xs (ground arith))

length-drop :
    {A : Type 0} (n : ℕ) (xs : List A)
    → ltb n (length xs) ≡ true
    → length (drop n xs) + n ≡ length xs
length-drop n [] h = ground arith
length-drop zero (x ∷ xs) h = omega arith
length-drop (suc n) (x ∷ xs) h = ground (arith, length-drop n xs)

-- No two rows have the same key.
abbrev pub HasKeys : {A : Type 0} → (A → ℕ) → List A → Type 0
HasKeys key xs = (k : ℕ) → count (λ r. key r == k) xs ≤ 1

module _ {A B : Type 0} (key : A → ℕ) (to_item : A → B) where
  last_key-count :
      (k : ℕ) (xs ys : List A)
      → last_key key to_item xs ≡ some k
      → 1 ≤ count (λ r. key r == k) (xs ++ ys)
  unfolding last_key count
  last_key-count k [] ys e = cc
  last_key-count k (x ∷ []) ys e = ground arith
  last_key-count k (x ∷ y ∷ xs) ys e = ground (arith, last_key-count k (y ∷ xs) ys)

  HasKeys-tail : (x : A) (xs : List A) → HasKeys key (x ∷ xs) → HasKeys key xs
  unfolding count
  HasKeys-tail x xs h k = ground (arith, h k)

  after-last_key :
      (k : ℕ) (xs ys : List A)
      → last_key key to_item xs ≡ some k
      → HasKeys key (xs ++ ys)
      → after key to_item k (xs ++ ys) ≡ ys
  unfolding after last_key count
  after-last_key k [] ys e h = cc
  after-last_key k (x ∷ []) ys e h = ground arith
  after-last_key k (x ∷ y ∷ xs) ys e h = ground (
    arith,
    h k,
    last_key-count k (y ∷ xs) ys e,
    after-last_key k (y ∷ xs) ys e (HasKeys-tail x (y ∷ (xs ++ ys)) h),
  )

  last_key-append :
      (xs : List A) (y : A) (ys : List A)
      → last_key key to_item (xs ++ y ∷ ys) ≡ last_key key to_item (y ∷ ys)
  unfolding last_key
  last_key-append [] y ys = refl
  last_key-append (x ∷ []) y ys = refl
  last_key-append (x ∷ z ∷ xs) y ys = last_key-append (z ∷ xs) y ys

  last_key_exists : (y : A) (ys : List A) → (k : ℕ) × (last_key key to_item (y ∷ ys) ≡ some k)
  unfolding last_key
  last_key_exists y [] = (key y, refl)
  last_key_exists y (z ∷ ys) = last_key_exists z ys

  cut_last :
      (limit : ℕ) (rest : List A)
      → ltb limit (length rest) ≡ false
      → cut key to_item limit (take (suc limit) rest)
        ≡ record { data_rows = map to_item rest; next_cursor = none }
  cut_last limit rest h = rw (few_rows limit rest h) (rw h refl)

  cut_more :
      (limit : ℕ) (rest : List A)
      → ltb limit (length rest) ≡ true
      → cut key to_item limit (take (suc limit) rest) ≡ record {
        data_rows = map to_item (take limit rest);
        next_cursor = last_key key to_item (take limit rest);
      }
  cut_more limit rest h = rw (take-take_more limit rest) (rw (more_rows limit rest ∙ h) refl)

  taken_key :
      (limit : ℕ) (rest : List A)
      → 0 < limit
      → ltb limit (length rest) ≡ true
      → (k : ℕ) × (last_key key to_item (take limit rest) ≡ some k)
        × ((pre : List A) → last_key key to_item (pre ++ take limit rest) ≡ some k)
  taken_key zero rest p h = absurd (omega arith)
  taken_key (suc n) [] p h = ground arith
  taken_key (suc n) (x ∷ xs) p h =
      let (k, e) = last_key_exists x (take n xs) in
      (k, e, λ pre. last_key-append pre x (take n xs) ∙ e)

  abbrev pages : ℕ → ℕ → Option ℕ → List A → Option (List B)
  pages fuel limit c rows = all_pages (λ d. page_after key to_item limit d rows) fuel c

  step_pages :
      (fuel limit : ℕ) (c : Option ℕ) (rows rest : List A) (p : Page B)
      → from key to_item c rows ≡ rest
      → cut key to_item limit (take (suc limit) rest) ≡ p
      → pages (suc fuel) limit c rows
        ≡ next_pages
            (λ d. page_after key to_item limit d rows)
            (λ k. pages fuel limit (some k) rows)
            p
            p.next_cursor
  unfolding all_pages page_after
  step_pages fuel limit c rows rest p at_rest is_page =
      let same : page_after key to_item limit c rows ≡ p =
        ap (λ r. cut key to_item limit (take (suc limit) r)) at_rest ∙ is_page in
      ap
        (λ q.
          next_pages (λ d. page_after key to_item limit d rows)
            (λ k. pages fuel limit (some k) rows) q q.next_cursor)
        same

  -- From a place in the rows, with fuel for each of those that are left.
  pages_from :
      (fuel limit : ℕ) (c : Option ℕ) (rows pre rest : List A)
      → 0 < limit
      → HasKeys key rows
      → pre ++ rest ≡ rows
      → from key to_item c rows ≡ rest
      → length rest < fuel
      → pages fuel limit c rows ≡ some (map to_item rest)
  pages_from zero limit c rows pre rest pos keys split at_rest h = elim h [ ]
  pages_from (suc fuel) limit c rows pre rest pos keys split at_rest h =
      elim (Bool-cases (ltb limit (length rest))) [
        | inr last ↦ step_pages fuel limit c rows rest _ at_rest (cut_last limit rest last)
        | inl more ↦
            let (k, key_is, key_after) = taken_key limit rest pos more in
            let front = take limit rest in
            let back = drop limit rest in
            let split_again : (pre ++ front) ++ back ≡ rows =
              append_assoc pre front back ∙ ap (λ r. pre ++ r) (take-drop limit rest) ∙ split in
            let at_back : after key to_item k rows ≡ back =
              subst (λ r. after key to_item k r ≡ back) split_again
                (after-last_key k (pre ++ front) back (key_after pre)
                  (subst (HasKeys key) (sym split_again) keys)) in
            let ih : pages fuel limit (some k) rows ≡ some (map to_item back) =
              pages_from fuel limit (some k) rows (pre ++ front) back pos keys split_again at_back
                (omega (arith, length-drop limit rest more)) in
            step_pages fuel limit c rows rest _ at_rest (cut_more limit rest more)
            ∙ rw (key_is, ih)
                (ap some
                  (sym (map-append to_item front back) ∙ ap (map to_item) (take-drop limit rest)))
      ]

  -- Where no two rows have the same key, a client that follows the cursors with a limit of at least
  -- one reaches the last page, with more requests than there are rows, and has then read every row
  -- once, in order.
  pub all_pages_lem :
      (fuel limit : ℕ) (rows : List A)
      → 0 < limit
      → HasKeys key rows
      → length rows < fuel
      → all_pages (λ c. page_after key to_item limit c rows) fuel none ≡ some (map to_item rows)
  all_pages_lem fuel limit rows pos keys enough =
      pages_from fuel limit none rows [] rows pos keys refl refl enough
