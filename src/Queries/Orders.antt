-- ===== src/Queries/Orders.antt =====
-- The orders of a studio by cursor, and the orders and listings that are read by page number.
use xgamefi.Prelude.{
  ℕ, Bool, true, false, ◌&&◌, Option, none, some, List, Text, length, find, where_is, or_else, ◌==◌,
}
use xgamefi.Schema.{
  Uuid, Address, Order, Listing, ListingStatus, PaymentStatus, DeliveryStatus, Player, Item,
}
use xgamefi.World.{Db}
use xgamefi.Queries.Paging.{Page, page_after, all_pages, numbered_page}
use xgamefi.Queries.Newest.{newest_first}

abbrev pub same_payment : PaymentStatus → PaymentStatus → Bool
same_payment PaymentStatus.pending PaymentStatus.pending = true
same_payment PaymentStatus.paid PaymentStatus.paid = true
same_payment PaymentStatus.failed PaymentStatus.failed = true
same_payment PaymentStatus.refunded PaymentStatus.refunded = true
same_payment _ _ = false

abbrev pub same_delivery : DeliveryStatus → DeliveryStatus → Bool
same_delivery DeliveryStatus.pending DeliveryStatus.pending = true
same_delivery DeliveryStatus.delivered DeliveryStatus.delivered = true
same_delivery DeliveryStatus.failed DeliveryStatus.failed = true
same_delivery _ _ = false

abbrev pub same_listing : ListingStatus → ListingStatus → Bool
same_listing ListingStatus.active ListingStatus.active = true
same_listing ListingStatus.locked ListingStatus.locked = true
same_listing ListingStatus.sold ListingStatus.sold = true
same_listing ListingStatus.cancelled ListingStatus.cancelled = true
same_listing _ _ = false

-- A filter that was not given lets everything pass.
abbrev pub passes : {S : Type 0} → (S → S → Bool) → Option S → S → Bool
passes same none s = true
passes same (some t) s = same s t

pub record ListStudioOrdersInput : Type 0 where
  pub studio_id : Uuid
  pub payment_status : Option PaymentStatus
  pub delivery_status : Option DeliveryStatus
  pub cursor : Option Uuid
  pub limit : Option ℕ

-- An order with the wallet of its player and the name of its item.
pub record StudioOrderListItem : Type 0 where
  pub order : Order
  pub player_wallet : Option Address
  pub item_name : Option Text

abbrev pub wallet_of : Option Player → Option Address
wallet_of none = none
wallet_of (some p) = some p.wallet_address

abbrev pub name_of : Option Item → Option Text
name_of none = none
name_of (some i) = some i.name

abbrev pub list_item : Db → Order → StudioOrderListItem
list_item db o = record {
  order = o;
  player_wallet = wallet_of (find (λ p. p.id == o.player_id) db.players);
  item_name = name_of (find (λ i. i.id == o.item_id) db.items);
}

abbrev pub is_listed : ListStudioOrdersInput → Order → Bool
is_listed input o =
    (o.studio_id == input.studio_id)
    && passes same_payment input.payment_status o.payment_status
    && passes same_delivery input.delivery_status o.delivery_status

-- `created` and `listed` are the column `createdAt` of the orders and of the listings.
module _ (created : Order → ℕ) where
  abbrev pub studio_orders : ListStudioOrdersInput → Db → List Order
  studio_orders input db = newest_first created (where_is (is_listed input) db.orders)

  unfoldable pub list_studio_orders : ListStudioOrdersInput → Db → Page StudioOrderListItem
  list_studio_orders input db =
      page_after (λ o. o.id) (list_item db) (or_else input.limit 50) input.cursor
        (studio_orders input db)

  -- Reading on from the first page by the cursors that the pages name.
  abbrev pub read_on : ListStudioOrdersInput → Db → ℕ → Option (List StudioOrderListItem)
  read_on input db fuel =
      all_pages (λ c. list_studio_orders (record input { cursor = c }) db) fuel none

pub record Numbered (A : Type 0) : Type 0 where
  pub rows : List A
  pub total : ℕ
  pub page : ℕ
  pub page_size : ℕ

abbrev pub numbered : {A : Type 0} → ℕ → ℕ → List A → Numbered A
numbered page page_size rows = record {
  rows = numbered_page page page_size rows;
  total = length rows;
  page = page;
  page_size = page_size;
}

-- `getPlayerShopOrders` once the shop is found, and `getStudioP2PListings`.
unfoldable pub get_player_shop_orders : (Order → ℕ) → Uuid → Uuid → ℕ → ℕ → Db → Numbered Order
get_player_shop_orders created studio_id player_id page page_size db = numbered page page_size (
    newest_first created
      (where_is (λ o. (o.player_id == player_id) && (o.studio_id == studio_id)) db.orders))

unfoldable pub get_studio_p2p_listings :
    (Listing → ℕ) → Uuid → Option ListingStatus → ℕ → ℕ → Db → Numbered Listing
get_studio_p2p_listings listed studio_id status page page_size db = numbered page page_size (
    newest_first listed (
      where_is (λ l. (l.studio_id == studio_id) && passes same_listing status l.status)
        db.listings))
