-- ===== src/Trades/Custody.antt =====
-- Where the item and the money of a trade go.
use xgamefi.Prelude.{
  ℤ, pos, negsuc, sym, ap, subst, ◌∙◌, count-update, ◌≤◌, ◌≡◌, ◌+ℤ◌, ◌-ℤ◌, arith, int_laws, inl,
  inr, refl, Bool, true, none, some, List, [], ◌∷◌, ◌++◌, Bool-cases, ◌&&◌, update, count, any, has,
}
use xgamefi.Schema.{Uuid, Trade, Listing, Ownership}
use xgamefi.Trades.Ownership.{is_row, upsert_ownership}
use mathlib.Core.Path.{subst₂}
use xgamefi.World.{World, External, Result, ok, err}
use xgamefi.Jobs.Refund.{find_trade}
use xgamefi.Trades.Quote.{find_listing}
use xgamefi.Trades.Settlement.{
  take_from_seller, give_to_buyer, TransferResult, completed, transfer_failed,
  transfer_item_and_payout,
}
use xgamefi.Trades.Transfer.{
  IsTransfer, nothing, sent_only, untold, Transfers, transfer_item_and_payout-Transfers,
}

-- All copies of all items.
abbrev pub total : List Ownership → ℤ
total [] = pos 0
total (o ∷ os) = o.quantity +ℤ total os

module _ (p : Ownership → Bool) (f : Ownership → Ownership) (d : ℤ) where
  -- An update that adds `d` to the quantity of one row at most adds it to the total.
  total-update_none : (os : List Ownership) → count p os ≡ 0 → total (update p f os) ≡ total os
  unfolding update count
  total-update_none [] z = refl
  total-update_none (o ∷ os) z = elim (Bool-cases (p o)) [
    | inl y ↦ absurd (omega (arith, rw y at z))
    | inr n ↦ rw (n, total-update_none os (rw n at z))
  ]

  total-update_one :
      (os : List Ownership)
      → ((o : Ownership) → (f o).quantity ≡ o.quantity +ℤ d)
      → count p os ≡ 1
      → total (update p f os) ≡ total os +ℤ d
  unfolding update count
  total-update_one [] h z = absurd (omega arith)
  total-update_one (o ∷ os) h z = elim (Bool-cases (p o)) [
    | inl y ↦ rw (y, h o, total-update_none os (omega (arith, rw y at z))) (omega int_laws)
    | inr n ↦ rw (n, total-update_one os h (rw n at z)) (omega int_laws)
  ]

total-append_one :
    (os : List Ownership) (o : Ownership) → total (os ++ o ∷ []) ≡ total os +ℤ o.quantity
total-append_one [] o = omega int_laws
total-append_one (x ∷ os) o = rw (total-append_one os o) (omega int_laws)

any-count : (p : Ownership → Bool) (os : List Ownership) → any p os ≡ true → 1 ≤ count p os
unfolding count
any-count p [] h = cc
any-count p (o ∷ os) h = ground (arith, any-count p os)

upsert_ownership-total :
    (player item : Uuid) (fresh : Ownership) (f : Ownership → Ownership) (d : ℤ)
    (os : List Ownership)
    → fresh.quantity ≡ d
    → ((o : Ownership) → (f o).quantity ≡ o.quantity +ℤ d)
    → count (is_row player item) os ≤ 1
    → total (upsert_ownership player item fresh f os) ≡ total os +ℤ d
unfolding upsert_ownership
upsert_ownership-total player item fresh f d os q h l =
    elim (Bool-cases (any (is_row player item) os)) [
      | inl there ↦ rw there (
          total-update_one (is_row player item) f d os h
            (omega (arith, any-count (is_row player item) os there)))
      | inr new ↦ rw (new, total-append_one os fresh, q) refl
    ]

-- The row of the seller that is locked for the trade's listing.
abbrev pub is_locked_row : Trade → Listing → Ownership → Bool
is_locked_row t l o =
    is_row t.seller_player_id l.item_id o && has o.locked_for_listing_id t.listing_id

-- The two writes of a closing trade keep the number of copies, if the seller has one locked row
-- for the listing and the buyer one row of the item at most.
pub give_to_buyer-take_from_seller-total :
    (t : Trade) (l : Listing) (os : List Ownership)
    → count (is_locked_row t l) os ≡ 1
    → count (is_row t.buyer_player_id l.item_id) os ≤ 1
    → total (give_to_buyer t l (take_from_seller t l os)) ≡ total os
unfolding give_to_buyer take_from_seller
give_to_buyer-take_from_seller-total t l os one few =
    let taken = λ (o : Ownership). record o {
      quantity = o.quantity -ℤ pos 1;
      locked_for_listing_id = none;
    } in
    let given = λ (o : Ownership). record o { quantity = o.quantity +ℤ pos 1 } in
    let rest = update (is_locked_row t l) taken os in
    let a = total-update_one (is_locked_row t l) taken (negsuc 0) os (λ o. omega int_laws) one in
    let c =
      count-update (is_row t.buyer_player_id l.item_id) (is_locked_row t l) taken os (λ o. refl) in
    let b =
      upsert_ownership-total t.buyer_player_id l.item_id
        (record {
          player_id = t.buyer_player_id;
          item_id = l.item_id;
          studio_id = l.studio_id;
          quantity = pos 1;
          locked_for_listing_id = none;
        })
        given (pos 1) rest refl (λ o. refl) (rw c few) in
    rw (b, a) (omega int_laws)

-- A completed trade creates and destroys no copy of an item, if the seller has one locked row for
-- the listing and the buyer one row of the item at most.
pub transfer_item_and_payout-total :
    (x : External) (i : Uuid) (w : World) (t : Trade) (l : Listing)
    → find_trade i w.db ≡ some t
    → find_listing t.listing_id w.db ≡ some l
    → count (is_locked_row t l) w.db.ownerships ≡ 1
    → count (is_row t.buyer_player_id l.item_id) w.db.ownerships ≤ 1
    → total (transfer_item_and_payout x i w).1.db.ownerships ≡ total w.db.ownerships
transfer_item_and_payout-total x i w t l ft fl one few =
    conserved (transfer_item_and_payout x i w) (transfer_item_and_payout-Transfers x i w)
  where
    moved : (w' : World) → IsTransfer x i w w' → total w'.db.ownerships ≡ total w.db.ownerships
    moved w' e =
        let os = w.db.ownerships in
        let same_t : t ≡ e.trade = cc (sym ft ∙ e.trade_found) in
        let at_t : find_listing t.listing_id w.db ≡ some e.listing =
          subst (λ r. find_listing r.listing_id w.db ≡ some e.listing) (sym same_t)
            e.listing_found in
        let same_l : l ≡ e.listing = cc (sym fl ∙ at_t) in
        rw e.moved (
          give_to_buyer-take_from_seller-total e.trade e.listing os
            (subst₂ (λ a b. count (is_locked_row a b) os ≡ 1) same_t same_l one)
            (subst₂ (λ a b. count (is_row a.buyer_player_id b.item_id) os ≤ 1) same_t same_l few))

    conserved :
        (q : Result TransferResult × World)
        → Transfers x i w q
        → total q.1.db.ownerships ≡ total w.db.ownerships
    conserved (ok completed, w') (e, queued) = moved w' e
    conserved (ok transfer_failed, w') e = ap (λ v. total v.db.ownerships) e
    conserved (err f, w') (nothing e) = ap (λ v. total v.db.ownerships) e
    conserved (err f, w') (sent_only e) = ap (λ v. total v.db.ownerships) e.sent
    conserved (err f, w') (untold e kept) = moved w' e
