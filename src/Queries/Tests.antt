-- ===== src/Queries/Tests.antt =====
-- The orders of the sample studio, one to a page.
use xgamefi.Prelude.{ℕ, List, ◌≡◌, refl, arith, suc, none, some, [], ◌∷◌, length, count, where_is}
use xgamefi.Schema.{Order, PaymentStatus}
use xgamefi.World.{Db}
use xgamefi.Queries.Paging.{page_after, last_key}
use xgamefi.Queries.Cursor.{HasKeys}
use xgamefi.Queries.Orders.{
  ListStudioOrdersInput, list_studio_orders, read_on, get_player_shop_orders,
  get_studio_p2p_listings,
}
use xgamefi.Queries.Newest.{newest_first, insert_newest}
use xgamefi.Queries.Read.{IsRead, read_on-IsRead}
use xgamefi.Samples.{db, order, listing}

abbrev two_orders : Db
two_orders = record db { orders = order ∷ record order { id = 22 } ∷ [] }

abbrev input : ListStudioOrdersInput
input = record {
  studio_id = 1;
  payment_status = some PaymentStatus.pending;
  delivery_status = none;
  cursor = none;
  limit = some 1;
}

-- The time of creation, as the sample ids count up.
abbrev created : Order → ℕ
created o = o.id

two-HasKeys : HasKeys (λ o. o.id) two_orders.orders
unfolding count
two-HasKeys k = ground arith

read_on-IsRead_example :
    (os : List Order) × IsRead created input two_orders
      (read_on created input two_orders (suc (length two_orders.orders)))
      os
read_on-IsRead_example =
    read_on-IsRead created input two_orders (omega arith) two-HasKeys two-HasKeys

last_of_page : (list_studio_orders created input two_orders).next_cursor ≡ some 22
unfolding list_studio_orders page_after last_key where_is newest_first insert_newest
last_of_page = refl

second_page : (get_player_shop_orders created 1 order.player_id 2 1 two_orders).rows ≡ order ∷ []
unfolding get_player_shop_orders where_is newest_first insert_newest
second_page = refl

all_listings : (get_studio_p2p_listings (λ l. l.id) 1 none 1 20 two_orders).rows ≡ listing ∷ []
unfolding get_studio_p2p_listings where_is newest_first insert_newest
all_listings = refl
