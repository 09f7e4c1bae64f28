-- ===== src/Catalogue/Synced.antt =====
-- The items of a studio after a synchronization.
use xgamefi.Prelude.{
  ℕ, ◌+◌, ◌≡◌, ◌∙◌, inl, inr, refl, ap, sym, subst, arith, Bool, true, false, not, none, some, List,
  [], ◌∷◌, ◌++◌, Text, any, length, where_is, update, find_last, Bool-cases, Option-cases,
  if◌then◌else◌, text_eq, text_eq_refl, text_eq_sound, All,
}
use xgamefi.Schema.{Uuid, Item}
use xgamefi.World.{World, External, RemoteItem, Result, ok, err}
use xgamefi.Catalogue.{
  is_item, with_base, fresh_item, upsert_row, upsert_rows, is_stale, deactivate, sync_rows, fits,
  upsert_catalogue_items,
}
use xgamefi.Catalogue.Live.{
  is_foreign, is_live, upsert_rows-live, upsert_rows-foreign, deactivated, live_after,
  where_is-update,
}

-- The item is active, with the name, the price, the currency and the stock of the feed, as of `now`.
pub record Shows (now : ℕ) (i : RemoteItem) (r : Item) : Type 0 where
  pub name : r.name ≡ i.name
  pub price : r.price_amount ≡ i.price
  pub currency : r.price_currency ≡ i.currency
  pub stock : r.stock ≡ i.stock
  pub active : r.is_active ≡ true
  pub synced : r.synced_at ≡ some now

-- Where the row is the studio's item with that external id, it shows the item of the feed.
abbrev Shown : Uuid → ℕ → Text → RemoteItem → Item → Type 0
Shown s now e i r = is_item s e r ≡ true → Shows now i r

All-update :
    (Q : Item → Type 0) (p : Item → Bool) (f : Item → Item) (rs : List Item)
    → ((r : Item) → Q r → p r ≡ true → Q (f r))
    → All Q rs
    → All Q (update p f rs)
unfolding update
All-update Q p f [] h a = tt
All-update Q p f (r ∷ rs) h (q, a) = (one, All-update Q p f rs h a)
  where
    one : Q (if p r then f r else r)
    one = elim (Bool-cases (p r)) [ inl y ↦ rw y (h r q y) | inr n ↦ rw n q ]

All-update_all :
    (Q : Item → Type 0) (p : Item → Bool) (f : Item → Item) (rs : List Item)
    → ((r : Item) → p r ≡ true → Q (f r))
    → ((r : Item) → p r ≡ false → Q r)
    → All Q (update p f rs)
unfolding update
All-update_all Q p f [] h g = tt
All-update_all Q p f (r ∷ rs) h g = (one, All-update_all Q p f rs h g)
  where
    one : Q (if p r then f r else r)
    one = elim (Bool-cases (p r)) [ inl y ↦ rw y (h r y) | inr n ↦ rw n (g r n) ]

All-none :
    (Q : Item → Type 0) (p : Item → Bool) (rs : List Item)
    → ((r : Item) → p r ≡ false → Q r)
    → any p rs ≡ false
    → All Q rs
All-none Q p [] g e = tt
All-none Q p (r ∷ rs) g e = (g r (ground (arith, e)), All-none Q p rs g (ground (arith, e)))

All-append_last :
    (Q : Item → Type 0) (rs : List Item) (r : Item) → All Q rs → Q r → All Q (rs ++ r ∷ [])
All-append_last Q [] r a q = (q, tt)
All-append_last Q (x ∷ rs) r (h, a) q = (h, All-append_last Q rs r a q)

module _ (s : Uuid) (now : ℕ) where
  with_base-Shows : (i : RemoteItem) (r : Item) → Shows now i (with_base i now r)
  with_base-Shows i r = record {
    name = refl;
    price = refl;
    currency = refl;
    stock = refl;
    active = refl;
    synced = refl;
  }

  fresh_item-Shows : (i : RemoteItem) (id : Uuid) → Shows now i (fresh_item s i now id)
  fresh_item-Shows i id = record {
    name = refl;
    price = refl;
    currency = refl;
    stock = refl;
    active = refl;
    synced = refl;
  }

  upsert_row-Shown :
      (i : RemoteItem) (id : Uuid) (rs : List Item)
      → All (Shown s now i.external_id i) (upsert_row s i now id rs)
  unfolding upsert_row
  upsert_row-Shown i id rs =
      let p = is_item s i.external_id in
      let other : (r : Item) → p r ≡ false → Shown s now i.external_id i r = λ r n y. cc (n, y) in
      elim (Bool-cases (any p rs)) [
        | inl there ↦ rw there (
            All-update_all (Shown s now i.external_id i) p (with_base i now) rs
              (λ r y e. with_base-Shows i r) other)
        | inr new ↦ rw new (
            All-append_last (Shown s now i.external_id i) rs (fresh_item s i now id)
              (All-none (Shown s now i.external_id i) p rs other new) (λ e. fresh_item-Shows i id))
      ]

  same_key : (e : Text) (r : Item) → is_item s e r ≡ true → r.external_id ≡ e
  same_key e r h = text_eq_sound r.external_id e (ground (arith, h))

  -- An item with another external id leaves what is shown.
  upsert_row-Shown_kept :
      (e : Text) (i j : RemoteItem) (id : Uuid) (rs : List Item)
      → text_eq j.external_id e ≡ false
      → All (Shown s now e i) rs
      → All (Shown s now e i) (upsert_row s j now id rs)
  unfolding upsert_row
  upsert_row-Shown_kept e i j id rs differs a =
      let p = is_item s j.external_id in
      elim (Bool-cases (any p rs)) [
        | inl there ↦ rw there (
            All-update (Shown s now e i) p (with_base j now) rs
              (λ r q y h.
                let one : j.external_id ≡ e = sym (same_key j.external_id r y) ∙ same_key e r h in
                cc (differs, ap (text_eq j.external_id) one, text_eq_refl j.external_id))
              a)
        | inr new ↦ rw new (
            All-append_last (Shown s now e i) rs (fresh_item s j now id) a
              (λ h. absurd (ground (arith, differs, h))))
      ]

  upsert_rows-Shown_kept :
      (ids : ℕ → Uuid) (e : Text) (i : RemoteItem) (feed : List RemoteItem) (n : ℕ) (rs : List Item)
      → find_last (λ j. text_eq j.external_id e) feed ≡ none
      → All (Shown s now e i) rs
      → All (Shown s now e i) (upsert_rows ids s now feed n rs)
  unfolding upsert_rows find_last
  upsert_rows-Shown_kept ids e i [] n rs f a = a
  upsert_rows-Shown_kept ids e i (j ∷ js) n rs f a =
      elim (Option-cases (find_last (λ j. text_eq j.external_id e) js)) [
        | inr (k, later) ↦ cc (rw later at f)
        | inl none_later ↦
            upsert_rows-Shown_kept ids e i js (n + 1) (upsert_row s j now (ids n) rs) none_later
              (upsert_row-Shown_kept e i j (ids n) rs (ground (arith, f, none_later)) a)
      ]

  -- The last item of the feed with an external id is shown.
  upsert_rows-Shown :
      (ids : ℕ → Uuid) (e : Text) (i : RemoteItem) (feed : List RemoteItem) (n : ℕ) (rs : List Item)
      → find_last (λ j. text_eq j.external_id e) feed ≡ some i
      → All (Shown s now e i) (upsert_rows ids s now feed n rs)
  unfolding upsert_rows find_last
  upsert_rows-Shown ids e i [] n rs f = cc
  upsert_rows-Shown ids e i (j ∷ js) n rs f =
      elim (Option-cases (find_last (λ j. text_eq j.external_id e) js)) [
        | inr (k, later) ↦
            upsert_rows-Shown ids e i js (n + 1) (upsert_row s j now (ids n) rs)
              (later ∙ rw later at f)
        | inl none_later ↦ elim (Bool-cases (text_eq j.external_id e)) [
          | inr n ↦ cc (rw (none_later, n) at f)
          | inl y ↦
              let same : j ≡ i = cc (rw (none_later, y) at f) in
              let key : j.external_id ≡ e = text_eq_sound j.external_id e y in
              let here : All (Shown s now e i) (upsert_row s j now (ids n) rs) =
                subst (λ a. All (Shown s now e a) (upsert_row s j now (ids n) rs)) same
                  (subst (λ t. All (Shown s now t j) (upsert_row s j now (ids n) rs)) key
                    (upsert_row-Shown j (ids n) rs)) in
              upsert_rows-Shown_kept ids e i js (n + 1) (upsert_row s j now (ids n) rs) none_later
                here
        ]
      ]

any-find_last :
    (e : Text) (i : RemoteItem) (feed : List RemoteItem)
    → find_last (λ j. text_eq j.external_id e) feed ≡ some i
    → any (λ j. text_eq e j.external_id) feed ≡ true
unfolding find_last
any-find_last e i [] f = cc
any-find_last e i (j ∷ js) f = elim (Option-cases (find_last (λ j. text_eq j.external_id e) js)) [
  | inr (k, later) ↦ ground (arith, any-find_last e k js later)
  | inl none_later ↦ elim (Bool-cases (text_eq j.external_id e)) [
    | inr n ↦ cc (rw (none_later, n) at f)
    | inl y ↦
        let key : j.external_id ≡ e = text_eq_sound j.external_id e y in
        rw key (rw (text_eq_refl e) refl)
  ]
]

-- The deactivation leaves what the feed lists.
deactivate-Shown :
    (s : Uuid) (now : ℕ) (e : Text) (i : RemoteItem) (feed : List RemoteItem) (rs : List Item)
    → any (λ j. text_eq e j.external_id) feed ≡ true
    → All (Shown s now e i) rs
    → All (Shown s now e i) (update (is_stale s feed) deactivate rs)
deactivate-Shown s now e i feed rs listed a =
    All-update (Shown s now e i) (is_stale s feed) deactivate rs
      (λ r q stale h.
        let kept : any (λ j. text_eq r.external_id j.external_id) feed ≡ true =
          rw (same_key s now e r h) listed in
        absurd (ground (arith, stale, kept)))
      a

-- The items after a synchronization of the studio `s` with the feed: `shown` speaks of the last item
-- of the feed with an external id.
pub record IsSynced (s : Uuid) (now : ℕ) (feed : List RemoteItem) (before after : List Item)
    : Type 0 where
  pub listed : All (λ i. any (is_live s i.external_id) after ≡ true) feed
  pub shown :
      (e : Text) (i : RemoteItem)
      → find_last (λ j. text_eq j.external_id e) feed ≡ some i
      → All (λ r. is_item s e r ≡ true → Shows now i r) after
  pub nothing_stale : All (λ r. is_stale s feed r ≡ false) after
  pub foreign : where_is (is_foreign s) after ≡ where_is (is_foreign s) before

sync_rows-IsSynced :
    (x : External) (s : Uuid) (feed : List RemoteItem) (w : World)
    → IsSynced s w.now feed w.db.items (sync_rows x.fresh_id s w.now feed w.rows w.db.items)
unfolding sync_rows
sync_rows-IsSynced x s feed w =
    let written = upsert_rows x.fresh_id s w.now feed w.rows w.db.items in
    record {
      listed =
          live_after s feed feed written (λ e m. m)
            (upsert_rows-live s w.now x.fresh_id feed w.rows w.db.items);
      shown = λ e i f.
          deactivate-Shown s w.now e i feed written (any-find_last e i feed f)
            (upsert_rows-Shown s w.now x.fresh_id e i feed w.rows w.db.items f);
      nothing_stale = deactivated s feed written;
      foreign =
          where_is-update (is_foreign s) (is_stale s feed) deactivate written
            (λ r p. (ground (arith, p), ground (arith, p)))
          ∙ upsert_rows-foreign s w.now x.fresh_id feed w.rows w.db.items;
    }

-- A synchronization that ends well has synchronized the items and nothing else of the database; one
-- that throws has changed nothing.
abbrev pub Syncs : Uuid → List RemoteItem → World → Result (ℕ × ℕ) × World → Type 0
Syncs s feed w (ok r, w') =
    IsSynced s w.now feed w.db.items w'.db.items
    × (r.0 ≡ length feed)
    × (w'.db ≡ record w.db { items = w'.db.items })
Syncs s feed w (err e, w') = w' ≡ w

pub upsert_catalogue_items-Syncs :
    (x : External) (s : Uuid) (feed : List RemoteItem) (w : World)
    → Syncs s feed w (upsert_catalogue_items x s feed w)
unfolding upsert_catalogue_items
upsert_catalogue_items-Syncs x s feed w = elim (Bool-cases (not (fits feed))) [
  | inl too_large ↦ rw too_large refl
  | inr small ↦ elim (Bool-cases (not (x.writes w))) [
    | inl lost ↦ rw (small, lost) refl
    | inr written ↦ rw (small, written) (sync_rows-IsSynced x s feed w, refl, refl)
  ]
]
