-- ===== src/Checkout/Usage.antt =====
-- The usage counts of promotions against the orders that use them.
use xgamefi.Prelude.{
  ℕ, ◌+◌, ◌≤◌, ◌≡◌, ◌≢◌, ◌⊎◌, inl, inr, refl, arith, int_laws, ap, sym, ◌∙◌, ℤ, pos, negsuc, ◌+ℤ◌,
  ◌-ℤ◌, Bool, true, Option, none, some, List, [], ◌∷◌, has, if◌then◌else◌, any, find, update,
  remove, count, count-update, Bool-cases, ◌==◌, ==_iff, ⊤,
}
use xgamefi.Schema.{Uuid, Promotion, Order}
use xgamefi.World.{World, Db, Result, ok, err, Failure, row_not_found}
use xgamefi.Orders.{find_order}
use xgamefi.Checkout.{with_usage, add_usage, delete_order, drop_order}

-- The usage count of the promotion `k`, and the number of orders that use it.
abbrev pub usage : Uuid → List Promotion → ℤ
usage k [] = pos 0
usage k (p ∷ ps) = (if p.id == k then p.usage_count else pos 0) +ℤ usage k ps

abbrev pub uses : Uuid → List Order → ℕ
uses k os = count (λ o. has o.promotion_id k) os

-- What an order that uses the promotion `i`, if any, changes in the usage count of `k`.
abbrev pub shift : ℤ → Option Uuid → Uuid → ℤ
shift d none k = pos 0
shift d (some i) k = if i == k then d else pos 0

-- One promotion at most has an id, and one order at most.
pub record IsTidy (db : Db) : Type 0 where
  pub promotion_ids : (i : Uuid) → count (λ p. p.id == i) db.promotions ≤ 1
  pub order_ids : (i : Uuid) → count (λ o. o.id == i) db.orders ≤ 1

abbrev pub used_more : ℤ → Promotion → Promotion
used_more d p = record p { usage_count = p.usage_count +ℤ d }

module _ (k i : Uuid) (d : ℤ) where
  usage-update_none :
      (ps : List Promotion)
      → count (λ p. p.id == i) ps ≡ 0
      → usage k (update (λ p. p.id == i) (used_more d) ps) ≡ usage k ps
  unfolding update count
  usage-update_none [] z = refl
  usage-update_none (p ∷ ps) z = elim (Bool-cases (p.id == i)) [
    | inl y ↦ absurd (omega (arith, rw y at z))
    | inr n ↦ rw (n, usage-update_none ps (rw n at z))
  ]

  added_usage :
      (p : Promotion)
      → p.id ≡ i
      → (if p.id == k then p.usage_count +ℤ d else pos 0)
        ≡ (if p.id == k then p.usage_count else pos 0) +ℤ shift d (some i) k
  unfolding ◌+ℤ◌
  added_usage p e = elim (Bool-cases (i == k)) [
    | inl y ↦ rw e (rw y refl)
    | inr n ↦ rw e (rw n refl)
  ]

  usage-update_one :
      (ps : List Promotion)
      → count (λ p. p.id == i) ps ≡ 1
      → usage k (update (λ p. p.id == i) (used_more d) ps) ≡ usage k ps +ℤ shift d (some i) k
  unfolding update count
  usage-update_one [] z = absurd (omega arith)
  usage-update_one (p ∷ ps) z = elim (Bool-cases (p.id == i)) [
    | inl y ↦
        rw (y, usage-update_none ps (omega (arith, rw y at z)), added_usage p ((==_iff p.id i).0 y))
          (omega int_laws)
    | inr n ↦ rw (n, usage-update_one ps (rw n at z)) (omega int_laws)
  ]

any-count : {A : Type 0} (p : A → Bool) (xs : List A) → any p xs ≡ true → 1 ≤ count p xs
unfolding count
any-count p [] h = cc
any-count p (x ∷ xs) h = ground (arith, any-count p xs)

-- An increment that is carried out.
pub add_usage-usage :
    (k : Uuid) (d : ℤ) (i : Option Uuid) (w : World)
    → ((j : Uuid) → count (λ p. p.id == j) w.db.promotions ≤ 1)
    → (add_usage d i w ≡ (err row_not_found, w))
      ⊎ ((w' : World) × (add_usage d i w ≡ (ok tt, w'))
          × (w'.db.orders ≡ w.db.orders)
          × (usage k w'.db.promotions ≡ usage k w.db.promotions +ℤ shift d i k)
          × ((j : Uuid)
              → count (λ p. p.id == j) w'.db.promotions ≡ count (λ p. p.id == j) w.db.promotions))
unfolding add_usage
add_usage-usage k d none w tidy = inr (w, refl, refl, omega int_laws, λ j. refl)
add_usage-usage k d (some i) w tidy = elim (Bool-cases (any (λ p. p.id == i) w.db.promotions)) [
  | inr gone ↦ inl (rw gone)
  | inl there ↦ inr (
    with_usage d i w,
    rw there refl,
    refl,
    usage-update_one k i d w.db.promotions
        (omega (arith, tidy i, any-count (λ p. p.id == i) w.db.promotions there)),
    λ j. count-update (λ p. p.id == j) (λ p. p.id == i) (used_more d) w.db.promotions (λ p. refl),
  )
]

remove-none :
    (i : Uuid) (os : List Order) → count (λ o. o.id == i) os ≡ 0 → remove (λ o. o.id == i) os ≡ os
unfolding remove count
remove-none i [] z = refl
remove-none i (o ∷ os) z = elim (Bool-cases (o.id == i)) [
  | inl y ↦ absurd (omega (arith, rw y at z))
  | inr n ↦ rw (n, remove-none i os (rw n at z))
]

abbrev pub one_use : Option Uuid → Uuid → ℕ
one_use p k = if has p k then 1 else 0

-- The order that goes takes its own use along.
uses-remove :
    (k i : Uuid) (o : Order) (os : List Order)
    → count (λ r. r.id == i) os ≤ 1
    → find (λ r. r.id == i) os ≡ some o
    → uses k os ≡ uses k (remove (λ r. r.id == i) os) + one_use o.promotion_id k
unfolding remove count find
uses-remove k i o [] l f = cc
uses-remove k i o (r ∷ os) l f = elim (Bool-cases (r.id == i)) [
  | inl y ↦
      let same : r ≡ o = cc (rw y at f) in
      let gone = remove-none i os (omega (arith, rw y at l)) in
      rw (y, gone, sym same) (ground arith)
  | inr n ↦ let rest = uses-remove k i o os (rw n at l) (rw n at f) in rw n (ground (arith, rest))
]

count-remove_le :
    (j i : Uuid) (os : List Order)
    → count (λ o. o.id == j) (remove (λ o. o.id == i) os) ≤ count (λ o. o.id == j) os
unfolding remove count
count-remove_le j i [] = omega arith
count-remove_le j i (o ∷ os) = ground (arith, count-remove_le j i os)

find-remove_ne :
    (j i : Uuid) (os : List Order)
    → j ≢ i
    → find (λ o. o.id == j) (remove (λ o. o.id == i) os) ≡ find (λ o. o.id == j) os
unfolding remove find
find-remove_ne j i [] ne = refl
find-remove_ne j i (o ∷ os) ne = ground (arith, find-remove_ne j i os ne)

shift_back : (p : Option Uuid) (k : Uuid) → shift (negsuc 0) p k ≡ pos 0 -ℤ pos (one_use p k)
unfolding ◌-ℤ◌
shift_back none k = refl
shift_back (some i) k = elim (Bool-cases (i == k)) [ inl y ↦ rw y refl | inr n ↦ rw n refl ]

pub shift_one : (p : Option Uuid) (k : Uuid) → shift (pos 1) p k ≡ pos (one_use p k)
shift_one none k = refl
shift_one (some i) k = elim (Bool-cases (i == k)) [ inl y ↦ rw y refl | inr n ↦ rw n refl ]

pub pos-add : (m n : ℕ) → pos (m + n) ≡ pos m +ℤ pos n
pos-add m n = omega int_laws

-- The usage count of `k` less the orders that use it.
abbrev pub balance : Uuid → Db → ℤ
balance k db = usage k db.promotions -ℤ pos (uses k db.orders)

-- What a call that ends well leaves of `w`: the balance.
abbrev pub Balances : {A : Type 0} → Uuid → World → Result A × World → Type 0
Balances k w (ok a, w') = balance k w'.db ≡ balance k w.db
Balances k w (err e, w') = ⊤

-- An order is dropped with its use, and the other orders are still found.
pub drop_order-balance :
    (k : Uuid) (o : Order) (w : World)
    → IsTidy w.db
    → find_order o.id w.db ≡ some o
    → ((f : Failure) × (drop_order o w ≡ (err f, w)))
      ⊎ ((w' : World) × (drop_order o w ≡ (ok tt, w'))
          × (balance k w'.db ≡ balance k w.db)
          × IsTidy w'.db
          × ((j : Uuid) → j ≢ o.id → find_order j w'.db ≡ find_order j w.db))
unfolding drop_order
drop_order-balance k o w tidy f =
    elim (add_usage-usage k (negsuc 0) o.promotion_id w tidy.promotion_ids) [
      | inl e ↦ inl (row_not_found, rw e)
      | inr (v, e, orders, used, ids) ↦
          let left = remove (λ r. r.id == o.id) w.db.orders in
          let same : remove (λ r. r.id == o.id) v.db.orders ≡ left =
            ap (remove (λ r. r.id == o.id)) orders in
          let back = shift_back o.promotion_id k in
          let one = uses-remove k o.id o w.db.orders (tidy.order_ids o.id) f in
          let split : pos (uses k w.db.orders)
              ≡ pos (uses k left) +ℤ pos (one_use o.promotion_id k) =
            ap pos one ∙ pos-add (uses k left) (one_use o.promotion_id k) in
          inr (
            record v { db = delete_order o.id v.db },
            rw e refl,
            rw (same, used, split, back) (omega int_laws),
            record {
              promotion_ids = λ i. rw (ids i) (tidy.promotion_ids i);
              order_ids = λ i.
                  rw same (omega (arith, count-remove_le i o.id w.db.orders, tidy.order_ids i));
            },
            λ j ne. rw same (find-remove_ne j o.id w.db.orders ne),
          )
    ]
