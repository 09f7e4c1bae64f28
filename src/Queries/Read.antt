-- ===== src/Queries/Read.antt =====
-- What a client has read that follows the cursors of `listStudioOrders` to the last page.
use xgamefi.Prelude.{
  ℕ, suc, ◌<◌, ◌≡◌, refl, arith, Bool, true, ◌&&◌, Option, none, some, List, map, length, where_is,
  or_else, ◌==◌, ==_iff, All, Has, ⊤, subst,
}
use xgamefi.Schema.{Order, PaymentStatus, DeliveryStatus}
use xgamefi.World.{Db}
use xgamefi.Queries.Cursor.{HasKeys, all_pages_lem}
use xgamefi.Queries.Newest.{
  IsNewestFirst, newest_first-All, newest_first-Has, newest_first-count, newest_first-length,
  newest_first-IsNewestFirst, where_is-All, where_is-Has, where_is-count, where_is-length,
}
use xgamefi.Queries.Orders.{
  ListStudioOrdersInput, StudioOrderListItem, same_payment, same_delivery, passes, list_item,
  is_listed, studio_orders, list_studio_orders, read_on,
}

-- A status that was not asked for, or the one that was.
abbrev pub Is : {S : Type 0} → Option S → S → Type 0
Is none s = ⊤
Is (some t) s = s ≡ t

-- The order is one of the studio, with the statuses that were asked for.
pub record IsAsked (input : ListStudioOrdersInput) (o : Order) : Type 0 where
  pub studio : o.studio_id ≡ input.studio_id
  pub payment : Is input.payment_status o.payment_status
  pub delivery : Is input.delivery_status o.delivery_status

-- What was read, of the orders `os`.
pub record IsRead (created : Order → ℕ) (input : ListStudioOrdersInput) (db : Db)
    (answer : Option (List StudioOrderListItem)) (os : List Order) : Type 0 where
  pub rows : answer ≡ some (map (list_item db) os)
  pub asked : All (IsAsked input) os
  pub complete : (o : Order) → Has (λ a. a ≡ o) db.orders → IsAsked input o → Has (λ a. a ≡ o) os
  pub no_repeats : HasKeys (λ o. o.id) os
  pub newest : IsNewestFirst created os

same_payment_equal : (s t : PaymentStatus) → same_payment s t ≡ true → s ≡ t
same_payment_equal PaymentStatus.pending PaymentStatus.pending e = refl
same_payment_equal PaymentStatus.paid PaymentStatus.paid e = refl
same_payment_equal PaymentStatus.failed PaymentStatus.failed e = refl
same_payment_equal PaymentStatus.refunded PaymentStatus.refunded e = refl
same_payment_equal _ _ e = cc

same_payment_refl : (s : PaymentStatus) → same_payment s s ≡ true
same_payment_refl PaymentStatus.pending = refl
same_payment_refl PaymentStatus.paid = refl
same_payment_refl PaymentStatus.failed = refl
same_payment_refl PaymentStatus.refunded = refl

same_delivery_equal : (s t : DeliveryStatus) → same_delivery s t ≡ true → s ≡ t
same_delivery_equal DeliveryStatus.pending DeliveryStatus.pending e = refl
same_delivery_equal DeliveryStatus.delivered DeliveryStatus.delivered e = refl
same_delivery_equal DeliveryStatus.failed DeliveryStatus.failed e = refl
same_delivery_equal _ _ e = cc

same_delivery_refl : (s : DeliveryStatus) → same_delivery s s ≡ true
same_delivery_refl DeliveryStatus.pending = refl
same_delivery_refl DeliveryStatus.delivered = refl
same_delivery_refl DeliveryStatus.failed = refl

module _ {S : Type 0} (same : S → S → Bool) (equal : (s t : S) → same s t ≡ true → s ≡ t)
    (same_refl : (s : S) → same s s ≡ true) where
  passes-Is : (given : Option S) (s : S) → passes same given s ≡ true → Is given s
  passes-Is none s e = tt
  passes-Is (some t) s e = equal s t e

  Is-passes : (given : Option S) (s : S) → Is given s → passes same given s ≡ true
  Is-passes none s h = refl
  Is-passes (some t) s h = subst (λ u. same s u ≡ true) h (same_refl s)

all_true : (a b c : Bool) → (a && b && c) ≡ true → (a ≡ true) × (b ≡ true) × (c ≡ true)
all_true a b c e = (ground arith, ground arith, ground arith)

module _ (input : ListStudioOrdersInput) (o : Order) where
  is_listed-IsAsked : is_listed input o ≡ true → IsAsked input o
  is_listed-IsAsked e =
      let (s, p, d) =
        all_true (o.studio_id == input.studio_id)
          (passes same_payment input.payment_status o.payment_status)
          (passes same_delivery input.delivery_status o.delivery_status) e in
      record {
        studio = (==_iff o.studio_id input.studio_id).0 s;
        payment =
            passes-Is same_payment same_payment_equal same_payment_refl input.payment_status
              o.payment_status p;
        delivery =
            passes-Is same_delivery same_delivery_equal same_delivery_refl input.delivery_status
              o.delivery_status d;
      }

  IsAsked-is_listed : IsAsked input o → is_listed input o ≡ true
  IsAsked-is_listed h =
      rw
        (
          (==_iff o.studio_id input.studio_id).1 h.studio,
          Is-passes same_payment same_payment_equal same_payment_refl input.payment_status
              o.payment_status h.payment,
          Is-passes same_delivery same_delivery_equal same_delivery_refl input.delivery_status
              o.delivery_status h.delivery,
        )
        refl

module _ (created : Order → ℕ) (input : ListStudioOrdersInput) (db : Db)
    (pos : 0 < or_else input.limit 50) (keys : HasKeys (λ o. o.id) db.orders)
    (times : HasKeys created db.orders) where
  studio_orders-HasKeys : HasKeys (λ o. o.id) (studio_orders created input db)
  studio_orders-HasKeys k = omega (
    arith,
    keys k,
    newest_first-count created (λ o. o.id == k) (where_is (is_listed input) db.orders),
    where_is-count (is_listed input) (λ o. o.id == k) db.orders,
  )

  -- Where no two orders have the same id, no two were created at the same time, and the limit is at
  -- least one, a client that reads on by the cursors comes to the last page, within one request
  -- more than there are orders, and has then read items of orders `os` each of which is an order
  -- of the studio with the statuses that were asked for, among them every such order of the table,
  -- each once, and each created before those in front of it.
  pub read_on-IsRead :
      (os : List Order) × IsRead created input db
        (read_on created input db (suc (length db.orders)))
        os
  unfolding list_studio_orders
  read_on-IsRead = (
    studio_orders created input db,
    record {
      rows =
          all_pages_lem (λ o. o.id) (list_item db) (suc (length db.orders)) (or_else input.limit 50)
            (studio_orders created input db) pos studio_orders-HasKeys
            (omega (
              arith,
              newest_first-length created (where_is (is_listed input) db.orders),
              where_is-length (is_listed input) db.orders,
            ));
      asked =
          newest_first-All created (IsAsked input) (where_is (is_listed input) db.orders)
            (where_is-All (is_listed input) (IsAsked input) db.orders (is_listed-IsAsked input));
      complete = λ o here h.
          newest_first-Has created (λ a. a ≡ o) (where_is (is_listed input) db.orders)
            (where_is-Has (is_listed input) o db.orders here (IsAsked-is_listed input o h));
      no_repeats = studio_orders-HasKeys;
      newest = newest_first-IsNewestFirst created (where_is (is_listed input) db.orders) λ k.
          omega (arith, times k, where_is-count (is_listed input) (λ o. created o == k) db.orders);
    },
  )
