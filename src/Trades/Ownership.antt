-- ===== src/Trades/Ownership.antt =====
-- packages/shared/src/p2p/ownership.ts, and `createListing` of apps/web/lib/p2p-queries.ts.
use xgamefi.Prelude.{
  ℕ, ℤ, pos, ⊤, Bool, ◌&&◌, Option, none, some, List, [], ◌∷◌, ◌++◌, Text, ◌==◌, ltb, if◌then◌else◌,
  find, update, any,
}
use xgamefi.Schema.{Uuid, Currency, Item, Studio, Ownership, Listing, ListingStatus}
use xgamefi.World.{
  Db, External, item_not_found, no_api_base_url, fetch_failed, not_owner, ok, err, M, pure, throw,
  modify, ◌>>=◌, ◌>>◌, next_id, throw_if,
}
use xgamefi.Orders.{find_studio}

abbrev pub is_row : Uuid → Uuid → Ownership → Bool
is_row player item o = (o.player_id == player) && (o.item_id == item)

-- `upsert` on the unique pair of player and item.
unfoldable pub upsert_ownership :
    Uuid → Uuid → Ownership → (Ownership → Ownership) → List Ownership → List Ownership
upsert_ownership player item fresh f rows =
    if any (is_row player item) rows then update (is_row player item) f rows else rows ++ fresh ∷ []

abbrev pub api_base_of : Option Studio → Option Text
api_base_of none = none
api_base_of (some s) = s.api_base_url

abbrev pub owned : Uuid → Uuid → Uuid → ℕ → Ownership
owned studio player item quantity = record {
  player_id = player;
  item_id = item;
  studio_id = studio;
  quantity = pos quantity;
  locked_for_listing_id = none;
}

-- The game's answer is written over the row; the lock stays as it is.
abbrev pub write_quantity : Uuid → Uuid → Uuid → ℕ → Db → Db
write_quantity studio player item quantity db = record db {
  ownerships =
      upsert_ownership player item (owned studio player item quantity)
        (λ o. record o { quantity = pos quantity; studio_id = studio }) db.ownerships;
}

abbrev pub store_quantity : Uuid → Uuid → Uuid → Option ℕ → M ℕ
store_quantity studio player item none w = (err fetch_failed, w)
store_quantity studio player item (some q) w =
    (ok q, record w { db = write_quantity studio player item q w.db })

abbrev pub refresh_from : External → Uuid → Uuid → Uuid → Option Text → M ℕ
refresh_from x studio player item none = throw no_api_base_url
refresh_from x studio player item (some base) =
    store_quantity studio player item (x.inventory base player item)

unfoldable pub refresh_ownership : External → Uuid → Uuid → Uuid → M ℕ
refresh_ownership x studio player item w =
    refresh_from x studio player item (api_base_of (find_studio studio w.db)) w

unfoldable pub assert_owns_item : External → Uuid → Uuid → Uuid → M ⊤
unfolding refresh_ownership
assert_owns_item x studio player item = do
  quantity ← refresh_ownership x studio player item
  throw_if (ltb quantity 1) not_owner

abbrev pub find_item : Uuid → Db → Option Item
find_item i db = find (λ t. t.id == i) db.items

abbrev pub new_listing : Uuid → Item → Uuid → ℤ → Currency → Listing
new_listing i item seller price currency = record {
  id = i;
  studio_id = item.studio_id;
  item_id = item.id;
  seller_player_id = seller;
  price = price;
  currency = currency;
  status = ListingStatus.active;
  locked_at = none;
}

abbrev pub locked_fresh : Uuid → Item → Uuid → Ownership
locked_fresh i item seller = record {
  player_id = seller;
  item_id = item.id;
  studio_id = item.studio_id;
  quantity = pos 0;
  locked_for_listing_id = some i;
}

abbrev pub write_listing : Listing → Db → Db
write_listing l db = record db { listings = db.listings ++ l ∷ [] }

abbrev pub lock_seller : Uuid → Item → Uuid → Db → Db
lock_seller i item seller db = record db {
  ownerships =
      upsert_ownership seller item.id (locked_fresh i item seller)
        (λ o. record o { locked_for_listing_id = some i }) db.ownerships;
}

abbrev pub list_item : External → Uuid → ℤ → Currency → Option Item → M Listing
list_item x seller price currency none = throw item_not_found
list_item x seller price currency (some item) = do
  assert_owns_item x item.studio_id seller item.id
  i ← next_id x
  let l = new_listing i item seller price currency
  modify (write_listing l)
  modify (lock_seller i item seller)
  pure l

unfoldable pub create_listing : External → Uuid → Uuid → ℤ → Currency → M Listing
unfolding assert_owns_item
create_listing x seller item price currency w =
    list_item x seller price currency (find_item item w.db) w
