-- ===== src/Catalogue.antt =====
-- packages/shared/src/catalogue/upsert.ts, apps/worker/src/jobs/catalogue-sync.ts and
-- apps/worker/src/jobs/stock-sync.ts: the items of a studio as its server lists them.
pub mod Layout
pub mod Live
pub mod Synced
mod Tests
use xgamefi.Prelude.{
  ℕ, ℤ, pos, negsuc, ◌^◌, ltb, ◌+◌, ⊤, Bool, true, false, not, ◌&&◌, ◌||◌, Option, none, some, List,
  [], ◌∷◌, ◌++◌, Text, length, any, where_is, find, update, count, ◌==◌, is_some, if◌then◌else◌,
  text_eq,
}
use xgamefi.Schema.{Uuid, Item, Studio, IntegrationMode, api_pull, Shop, Section}
use xgamefi.World.{
  World, Db, External, RemoteItem, Result, ok, err, M, pure, throw, gets, modify, ◌>>=◌, ◌>>◌,
  Failure, out_of_range, write_failed, studio_not_found, not_pull_mode, no_api_base_url,
  fetch_failed, or_throw,
}
use xgamefi.Orders.{find_studio}

-- The unique key of an item.
abbrev pub is_item : Uuid → Text → Item → Bool
is_item s e r = (r.studio_id == s) && text_eq r.external_id e

-- The fields that a synchronization writes.
abbrev pub with_base : RemoteItem → ℕ → Item → Item
with_base i now r = record r {
  name = i.name;
  price_amount = i.price;
  price_currency = i.currency;
  stock = i.stock;
  is_active = true;
  synced_at = some now;
}

abbrev pub fresh_item : Uuid → RemoteItem → ℕ → Uuid → Item
fresh_item s i now id = record {
  id = id;
  studio_id = s;
  external_id = i.external_id;
  name = i.name;
  price_amount = i.price;
  price_currency = i.currency;
  stock = i.stock;
  is_active = true;
  is_listed = true;
  synced_at = some now;
}

unfoldable pub upsert_row : Uuid → RemoteItem → ℕ → Uuid → List Item → List Item
upsert_row s i now id items =
    if any (is_item s i.external_id) items
    then update (is_item s i.external_id) (with_base i now) items
    else items ++ fresh_item s i now id ∷ []

-- The loop over the feed: the ids of new rows come from `ids`, of which one is used up each time.
unfoldable pub upsert_rows : (ℕ → Uuid) → Uuid → ℕ → List RemoteItem → ℕ → List Item → List Item
upsert_rows ids s now [] n items = items
upsert_rows ids s now (i ∷ is) n items =
    upsert_rows ids s now is (n + 1) (upsert_row s i now (ids n) items)

-- An active item of the studio that is not in the feed.
abbrev pub is_stale : Uuid → List RemoteItem → Item → Bool
is_stale s feed r =
    (r.studio_id == s) && not (any (λ i. text_eq r.external_id i.external_id) feed) && r.is_active

abbrev pub deactivate : Item → Item
deactivate r = record r { is_active = false }

unfoldable pub sync_rows : (ℕ → Uuid) → Uuid → ℕ → List RemoteItem → ℕ → List Item → List Item
sync_rows ids s now feed n items =
    update (is_stale s feed) deactivate (upsert_rows ids s now feed n items)

-- The columns are `Int`, of 32 bits with a sign, and `Decimal(38,7)`: a number that does not fit
-- makes the write throw. A feed has no negative numbers.
abbrev pub stock_fits : Option ℕ → Bool
stock_fits none = true
stock_fits (some n) = ltb n (2 ^ 31)

abbrev pub amount_fits : ℤ → Bool
amount_fits (pos n) = ltb n (10 ^ 38)
amount_fits (negsuc n) = ltb (n + 1) (10 ^ 38)

unfoldable pub fits : List RemoteItem → Bool
fits [] = true
fits (i ∷ is) = let rest = fits is in stock_fits i.stock && amount_fits i.price && rest

-- How many were written and how many became inactive. A transaction: a write that throws leaves the
-- items as they were.
unfoldable pub upsert_catalogue_items : External → Uuid → List RemoteItem → M (ℕ × ℕ)
upsert_catalogue_items x s feed w =
    let written = upsert_rows x.fresh_id s w.now feed w.rows w.db.items in
    if not (fits feed)
    then (err out_of_range, w)
    else if not (x.writes w)
    then (err write_failed, w)
    else (
      ok (length feed, count (is_stale s feed) written),
      record w {
        rows = w.rows + length feed;
        db = record w.db { items = sync_rows x.fresh_id s w.now feed w.rows w.db.items };
      },
    )

abbrev pub section_ids : List Section → List Uuid
section_ids [] = []
section_ids (s ∷ ss) = s.item_ids ++ section_ids ss

abbrev pub is_new : List Section → Uuid → Bool
is_new ss i = not (any (λ j. j == i) (section_ids ss))

abbrev pub push_ids : List Section → List Uuid → Option (List Section)
push_ids [] ids = none
push_ids (s ∷ ss) [] = none
push_ids (s ∷ ss) (i ∷ is) = some (record s { item_ids = s.item_ids ++ i ∷ is } ∷ ss)

-- `null` when there is nothing to add, or no section to add it to.
unfoldable pub merge_new_items_into_layout :
    Option (List Section) → List Uuid → Option (List Section)
merge_new_items_into_layout none active = none
merge_new_items_into_layout (some ss) active = push_ids ss (where_is (is_new ss) active)

abbrev pub item_ids_of : List Item → List Uuid
item_ids_of [] = []
item_ids_of (r ∷ rs) = r.id ∷ item_ids_of rs

abbrev pub active_ids : Uuid → Db → List Uuid
active_ids s db = item_ids_of (where_is (λ r. (r.studio_id == s) && r.is_active) db.items)

abbrev pub or_kept : Option (List Section) → Option (List Section) → Option (List Section)
or_kept none old = old
or_kept (some new) old = some new

abbrev pub write_layouts : Uuid → Option (List Section) → Option (List Section) → Db → Db
write_layouts s layout draft db = record db {
  shops =
      update (λ p. p.studio_id == s)
        (λ p. record p {
          layout = or_kept layout p.layout;
          draft_layout = or_kept draft p.draft_layout;
        })
        db.shops;
}

abbrev pub update_layouts : Uuid → Option (List Section) → Option (List Section) → M Bool
update_layouts s layout draft w =
    if is_some layout || is_some draft
    then (ok true, record w { db = write_layouts s layout draft w.db })
    else (ok false, w)

abbrev pub update_shop : Uuid → Option Shop → M Bool
update_shop s none w = (ok false, w)
update_shop s (some p) w =
    let active = active_ids s w.db in
    update_layouts s (merge_new_items_into_layout p.layout active)
      (merge_new_items_into_layout p.draft_layout active) w

abbrev pub find_shop : Uuid → Db → Option Shop
find_shop s db = find (λ p. p.studio_id == s) db.shops

pub record SyncResult : Type 0 where
  pub upserted : ℕ
  pub deactivated : ℕ
  pub shop_updated : Bool

abbrev pub is_pull : IntegrationMode → Bool
is_pull IntegrationMode.api_pull = true
is_pull _ = false

abbrev pub fetch_remote_items : External → Option Text → M (List RemoteItem)
fetch_remote_items x none = throw no_api_base_url
fetch_remote_items x (some []) = throw no_api_base_url
fetch_remote_items x (some (c ∷ cs)) = or_throw fetch_failed (x.feed (c ∷ cs))

-- The guards that the two jobs share, and the feed.
abbrev pub remote_items_of : External → Option Studio → M (List RemoteItem)
remote_items_of x none = throw studio_not_found
remote_items_of x (some s) =
    if is_pull s.integration_mode then fetch_remote_items x s.api_base_url else throw not_pull_mode

unfoldable pub catalogue_sync_processor : External → Uuid → M SyncResult
catalogue_sync_processor x s = do
  studio ← gets (λ w. find_studio s w.db)
  feed ← remote_items_of x studio
  counts ← upsert_catalogue_items x s feed
  shop ← gets (λ w. find_shop s w.db)
  updated ← update_shop s shop
  pure (record { upserted = counts.0; deactivated = counts.1; shop_updated = updated })

abbrev pub with_stock : RemoteItem → ℕ → Item → Item
with_stock i now r = record r { stock = i.stock; synced_at = some now }

-- The loop of the stock job, with the number of rows it wrote.
unfoldable pub stock_rows : Uuid → ℕ → List RemoteItem → List Item → ℕ × List Item
stock_rows s now [] items = (0, items)
stock_rows s now (i ∷ is) items =
    let rest = stock_rows s now is (update (is_item s i.external_id) (with_stock i now) items) in
    (count (is_item s i.external_id) items + rest.0, rest.1)

abbrev pub write_stock : Uuid → List RemoteItem → M ℕ
write_stock s feed w =
    let (n, items) = stock_rows s w.now feed w.db.items in
    (ok n, record w { db = record w.db { items = items } })

unfoldable pub stock_sync_processor : External → Uuid → M ℕ
stock_sync_processor x s = do
  studio ← gets (λ w. find_studio s w.db)
  feed ← remote_items_of x studio
  write_stock s feed
