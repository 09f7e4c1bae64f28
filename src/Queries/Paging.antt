-- ===== src/Queries/Paging.antt =====
-- The two ways in which a query reads a part of its rows: `findMany` with a cursor, one row more
-- than asked to see whether there are others, and `findMany` with `skip` and `take`.
use xgamefi.Prelude.{
  ℕ, zero, suc, ◌-◌, ◌*◌, Option, none, some, List, [], ◌∷◌, ◌++◌, map, length, take, drop, ltb,
  ◌==◌, if◌then◌else◌,
}

pub record Page (B : Type 0) : Type 0 where
  pub data_rows : List B
  pub next_cursor : Option ℕ

module _ {A B : Type 0} (key : A → ℕ) (to_item : A → B) where
  -- The rows after the one that the cursor names; none where there is no such row.
  unfoldable pub after : ℕ → List A → List A
  after c [] = []
  after c (x ∷ xs) = if key x == c then xs else after c xs

  abbrev pub from : Option ℕ → List A → List A
  from none xs = xs
  from (some c) xs = after c xs

  -- `page.at(-1)?.id`
  unfoldable pub last_key : List A → Option ℕ
  last_key [] = none
  last_key (x ∷ []) = some (key x)
  last_key (x ∷ y ∷ xs) = last_key (y ∷ xs)

  abbrev pub cut : ℕ → List A → Page B
  cut limit rows =
      if ltb limit (length rows)
      then record {
        data_rows = map to_item (take limit rows);
        next_cursor = last_key (take limit rows);
      }
      else record { data_rows = map to_item rows; next_cursor = none }

  unfoldable pub page_after : ℕ → Option ℕ → List A → Page B
  page_after limit cursor rows = cut limit (take (suc limit) (from cursor rows))

-- A client that asks for one page after the other; `none` where the fuel runs out.
module _ {B : Type 0} (get : Option ℕ → Page B) where
  abbrev pub with_page : List B → Option (List B) → Option (List B)
  with_page xs none = none
  with_page xs (some ys) = some (xs ++ ys)

  abbrev pub next_pages : (ℕ → Option (List B)) → Page B → Option ℕ → Option (List B)
  next_pages more p none = some p.data_rows
  next_pages more p (some c) = with_page p.data_rows (more c)

  unfoldable pub all_pages : ℕ → Option ℕ → Option (List B)
  all_pages zero cursor = none
  all_pages (suc fuel) cursor =
      let p = get cursor in next_pages (λ c. all_pages fuel (some c)) p p.next_cursor

-- `skip: (page - 1) * pageSize, take: pageSize`
abbrev pub numbered_page : {A : Type 0} → ℕ → ℕ → List A → List A
numbered_page page page_size rows = take page_size (drop ((page - 1) * page_size) rows)
