-- ===== src/Catalogue/Live.antt =====
-- Which items are active after a synchronization.
use xgamefi.Prelude.{
  ℕ, ◌+◌, ◌≡◌, inl, inr, refl, arith, Bool, true, false, not, ◌&&◌, ◌||◌, List, [], ◌∷◌, ◌++◌, Text,
  any, where_is, update, ◌==◌, Bool-cases, if◌then◌else◌, text_eq, text_eq_refl, text_eq_sound, All,
  ==_refl, ◌∙◌,
}
use xgamefi.Schema.{Uuid, Item}
use xgamefi.World.{RemoteItem}
use xgamefi.Catalogue.{
  is_item, with_base, fresh_item, upsert_row, upsert_rows, is_stale, deactivate,
}

abbrev pub is_foreign : Uuid → Item → Bool
is_foreign s r = not (r.studio_id == s)

-- The item of the studio with that external id, while it is active.
abbrev pub is_live : Uuid → Text → Item → Bool
is_live s e r = is_item s e r && r.is_active

any-update :
    (q p : Item → Bool) (f : Item → Item) (rs : List Item)
    → ((r : Item) → q r ≡ true → p r ≡ true → q (f r) ≡ true)
    → any q rs ≡ true
    → any q (update p f rs) ≡ true
unfolding update
any-update q p f [] h a = a
any-update q p f (r ∷ rs) h a = ground (arith, h r, any-update q p f rs h)

any-update_here :
    (q p : Item → Bool) (f : Item → Item) (rs : List Item)
    → ((r : Item) → p r ≡ true → q (f r) ≡ true)
    → any p rs ≡ true
    → any q (update p f rs) ≡ true
unfolding update
any-update_here q p f [] h a = cc
any-update_here q p f (r ∷ rs) h a = ground (arith, h r, any-update_here q p f rs h)

any-append :
    {A : Type 0} (p : A → Bool) (xs ys : List A) → any p (xs ++ ys) ≡ (any p xs || any p ys)
any-append p [] ys = refl
any-append p (x ∷ xs) ys = ground (arith, any-append p xs ys)

pub where_is-update :
    (q p : Item → Bool) (f : Item → Item) (rs : List Item)
    → ((r : Item) → p r ≡ true → (q r ≡ false) × (q (f r) ≡ false))
    → where_is q (update p f rs) ≡ where_is q rs
unfolding update where_is
where_is-update q p f [] h = refl
where_is-update q p f (r ∷ rs) h = ground (arith, h r, where_is-update q p f rs h)

where_is-append_one :
    (q : Item → Bool) (rs : List Item) (r : Item)
    → q r ≡ false
    → where_is q (rs ++ r ∷ []) ≡ where_is q rs
unfolding where_is
where_is-append_one q [] r h = rw h refl
where_is-append_one q (x ∷ rs) r h = ground (arith, where_is-append_one q rs r h)

module _ (s : Uuid) (now : ℕ) where
  upsert_row-live :
      (i : RemoteItem) (id : Uuid) (rs : List Item)
      → any (is_live s i.external_id) (upsert_row s i now id rs) ≡ true
  unfolding upsert_row
  upsert_row-live i id rs =
      let fresh : is_live s i.external_id (fresh_item s i now id) ≡ true =
        rw (==_refl s, text_eq_refl i.external_id) refl in
      elim (Bool-cases (any (is_item s i.external_id) rs)) [
        | inl there ↦ rw there (
            any-update_here (is_live s i.external_id) (is_item s i.external_id) (with_base i now) rs
              (λ r a. rw a refl) there)
        | inr new ↦ rw new (
            rw (any-append (is_live s i.external_id) rs (fresh_item s i now id ∷ []))
              (ground (arith, fresh)))
      ]

  upsert_row_keeps :
      (e : Text) (i : RemoteItem) (id : Uuid) (rs : List Item)
      → any (is_live s e) rs ≡ true
      → any (is_live s e) (upsert_row s i now id rs) ≡ true
  unfolding upsert_row
  upsert_row_keeps e i id rs live = elim (Bool-cases (any (is_item s i.external_id) rs)) [
    | inl there ↦ rw there (
        any-update (is_live s e) (is_item s i.external_id) (with_base i now) rs
          (λ r q p. ground (arith, q)) live)
    | inr new ↦
        rw new
          (rw (any-append (is_live s e) rs (fresh_item s i now id ∷ [])) (ground (arith, live)))
  ]

  upsert_rows_keeps :
      (ids : ℕ → Uuid) (e : Text) (feed : List RemoteItem) (n : ℕ) (rs : List Item)
      → any (is_live s e) rs ≡ true
      → any (is_live s e) (upsert_rows ids s now feed n rs) ≡ true
  unfolding upsert_rows
  upsert_rows_keeps ids e [] n rs live = live
  upsert_rows_keeps ids e (i ∷ is) n rs live =
      upsert_rows_keeps ids e is (n + 1) (upsert_row s i now (ids n) rs)
        (upsert_row_keeps e i (ids n) rs live)

  pub upsert_rows-live :
      (ids : ℕ → Uuid) (feed : List RemoteItem) (n : ℕ) (rs : List Item)
      → All (λ i. any (is_live s i.external_id) (upsert_rows ids s now feed n rs) ≡ true) feed
  unfolding upsert_rows
  upsert_rows-live ids [] n rs = tt
  upsert_rows-live ids (i ∷ is) n rs = (
    upsert_rows_keeps ids i.external_id is (n + 1) (upsert_row s i now (ids n) rs)
        (upsert_row-live i (ids n) rs),
    upsert_rows-live ids is (n + 1) (upsert_row s i now (ids n) rs),
  )

  upsert_row-foreign :
      (i : RemoteItem) (id : Uuid) (rs : List Item)
      → where_is (is_foreign s) (upsert_row s i now id rs) ≡ where_is (is_foreign s) rs
  unfolding upsert_row
  upsert_row-foreign i id rs = elim (Bool-cases (any (is_item s i.external_id) rs)) [
    | inl there ↦ rw there (
        where_is-update (is_foreign s) (is_item s i.external_id) (with_base i now) rs
          (λ r p. (ground (arith, p), ground (arith, p))))
    | inr new ↦
        rw new (where_is-append_one (is_foreign s) rs (fresh_item s i now id) (rw (==_refl s) refl))
  ]

  pub upsert_rows-foreign :
      (ids : ℕ → Uuid) (feed : List RemoteItem) (n : ℕ) (rs : List Item)
      → where_is (is_foreign s) (upsert_rows ids s now feed n rs) ≡ where_is (is_foreign s) rs
  unfolding upsert_rows
  upsert_rows-foreign ids [] n rs = refl
  upsert_rows-foreign ids (i ∷ is) n rs =
      upsert_rows-foreign ids is (n + 1) (upsert_row s i now (ids n) rs)
      ∙ upsert_row-foreign i (ids n) rs

module _ (s : Uuid) (feed : List RemoteItem) where
  pub deactivated :
      (rs : List Item)
      → All (λ r. is_stale s feed r ≡ false) (update (is_stale s feed) deactivate rs)
  unfolding update
  deactivated [] = tt
  deactivated (r ∷ rs) = (one r, deactivated rs)
    where
      one : (r : Item) → is_stale s feed (if is_stale s feed r then deactivate r else r) ≡ false
      one r = elim (Bool-cases (is_stale s feed r)) [ inl y ↦ rw y (ground arith) | inr n ↦ rw n n ]

  -- What the feed lists is not made inactive.
  deactivate-live :
      (e : Text) (rs : List Item)
      → any (λ i. text_eq e i.external_id) feed ≡ true
      → any (is_live s e) rs ≡ true
      → any (is_live s e) (update (is_stale s feed) deactivate rs) ≡ true
  deactivate-live e rs listed live =
      any-update (is_live s e) (is_stale s feed) deactivate rs (λ r q p. absurd (clash r q p)) live
    where
      clash : (r : Item) → is_live s e r ≡ true → is_stale s feed r ≡ true → ⊥
      clash r q p =
          let same : r.external_id ≡ e = text_eq_sound r.external_id e (ground (arith, q)) in
          let kept : any (λ i. text_eq r.external_id i.external_id) feed ≡ true = rw same listed in
          ground (arith, p, kept)

pub live_after :
    (s : Uuid) (feed is : List RemoteItem) (rs : List Item)
    → ((e : Text)
        → any (λ i. text_eq e i.external_id) is ≡ true
        → any (λ i. text_eq e i.external_id) feed ≡ true)
    → All (λ i. any (is_live s i.external_id) rs ≡ true) is
    → All (λ i. any (is_live s i.external_id) (update (is_stale s feed) deactivate rs) ≡ true) is
live_after s feed [] rs inside a = tt
live_after s feed (i ∷ is) rs inside (live, a) = (
  deactivate-live s feed i.external_id rs
      (inside i.external_id (rw (text_eq_refl i.external_id) refl)) live,
  live_after s feed is rs (λ e m. inside e (ground (arith, m))) a,
)
