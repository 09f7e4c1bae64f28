-- ===== src/Checkout/Dropping.antt =====
-- The loop that drops pending orders, each with its use of a promotion.
use xgamefi.Prelude.{
  ◌≤◌, ◌≡◌, ◌≢◌, inl, inr, refl, arith, ◌∙◌, Bool, some, List, [], ◌∷◌, All, find, count, where_is,
  Bool-cases, ◌==◌, ==_iff, ==_refl,
}
use xgamefi.Schema.{Uuid, Order}
use xgamefi.World.{World, Db, Result, ok, err}
use xgamefi.Orders.{find_order}
use xgamefi.Checkout.{drop_orders}
use xgamefi.Checkout.Usage.{balance, Balances, IsTidy, drop_order-balance}

-- Orders to drop: each is found by its id, and no two have the same.
abbrev pub IsFound : Db → Order → Type 0
IsFound db o = find_order o.id db ≡ some o

All-map :
    {A : Type 0} (P Q : A → Type 0) (xs : List A) → ((x : A) → P x → Q x) → All P xs → All Q xs
All-map P Q [] h a = tt
All-map P Q (x ∷ xs) h (p, a) = (h x p, All-map P Q xs h a)

-- Rows with an id of their own.
All-ne : (i : Uuid) (os : List Order) → count (λ o. o.id == i) os ≡ 0 → All (λ o. o.id ≢ i) os
unfolding count
All-ne i [] z = tt
All-ne i (o ∷ os) z = elim (Bool-cases (o.id == i)) [
  | inl y ↦ absurd (omega (arith, rw y at z))
  | inr n ↦ (λ e. cc ((==_iff o.id i).1 e), All-ne i os (rw n at z))
]

All-both :
    {A : Type 0} (P Q : A → Type 0) (xs : List A) → All P xs → All Q xs → All (λ x. P x × Q x) xs
All-both P Q [] a b = tt
All-both P Q (x ∷ xs) (p, a) (q, b) = ((p, q), All-both P Q xs a b)

count-head :
    (o : Order) (os : List Order)
    → count (λ p. p.id == o.id) (o ∷ os) ≤ 1
    → count (λ p. p.id == o.id) os ≡ 0
unfolding count
count-head o os l = omega (arith, rw (==_refl o.id) at l)

pub count-tail :
    (p : Order → Bool) (o : Order) (os : List Order) → count p (o ∷ os) ≤ 1 → count p os ≤ 1
unfolding count
count-tail p o os l = ground arith

pub through :
    {A : Type 0} (k : Uuid) (w w' : World) (q : Result A × World)
    → balance k w'.db ≡ balance k w.db
    → Balances k w' q
    → Balances k w q
through k w w' (ok a, v) kept b = b ∙ kept
through k w w' (err f, v) kept b = tt

pub drop_orders-balance :
    (k : Uuid) (os : List Order) (w : World)
    → IsTidy w.db
    → All (IsFound w.db) os
    → ((i : Uuid) → count (λ o. o.id == i) os ≤ 1)
    → Balances k w (drop_orders os w)
unfolding drop_orders
drop_orders-balance k [] w tidy found apart = refl
drop_orders-balance k (o ∷ os) w tidy (f, found) apart = elim (drop_order-balance k o w tidy f) [
  | inl (failure, e) ↦ rw e tt
  | inr (w', e, kept, tidy', others) ↦
      let rest : All (λ p. p.id ≢ o.id) os = All-ne o.id os (count-head o os (apart o.id)) in
      let still : All (IsFound w'.db) os =
        All-map (λ p. IsFound w.db p × (p.id ≢ o.id)) (IsFound w'.db) os
          (λ p h. others p.id h.1 ∙ h.0)
          (All-both (IsFound w.db) (λ p. p.id ≢ o.id) os found rest) in
      rw e (
        through k w w' (drop_orders os w') kept (
          drop_orders-balance k os w' tidy' still
            (λ i. count-tail (λ p. p.id == i) o os (apart i))))
]

count-find :
    (os : List Order) (i : Uuid) (o : Order)
    → find (λ p. p.id == i) os ≡ some o
    → 1 ≤ count (λ p. p.id == i) os
unfolding find count
count-find [] i o f = cc
count-find (p ∷ os) i o f = ground (arith, count-find os i o)

pub count-where_is : (p q : Order → Bool) (os : List Order) → count p (where_is q os) ≤ count p os
unfolding where_is count
count-where_is p q [] = omega arith
count-where_is p q (o ∷ os) = ground (arith, count-where_is p q os)

abbrev pub FoundIn : List Order → Order → Type 0
FoundIn os o = find (λ p. p.id == o.id) os ≡ some o

pub found_later :
    (r o : Order) (os : List Order)
    → ((i : Uuid) → count (λ p. p.id == i) (r ∷ os) ≤ 1)
    → FoundIn os o
    → FoundIn (r ∷ os) o
unfolding find count
found_later r o os apart f = elim (Bool-cases (r.id == o.id)) [
  | inl y ↦ absurd (omega (arith, rw y at (apart o.id), count-find os o.id o f))
  | inr n ↦ rw n f
]

pub found_here : (o : Order) (os : List Order) → FoundIn (o ∷ os) o
unfolding find
found_here o os = rw (==_refl o.id) refl

pub where_is-FoundIn :
    (q : Order → Bool) (os : List Order)
    → ((i : Uuid) → count (λ p. p.id == i) os ≤ 1)
    → All (FoundIn os) (where_is q os)
unfolding where_is
where_is-FoundIn q [] apart = tt
where_is-FoundIn q (o ∷ os) apart =
    let rest =
      All-map (FoundIn os) (FoundIn (o ∷ os)) (where_is q os) (λ p f. found_later o p os apart f)
        (where_is-FoundIn q os (λ i. count-tail (λ p. p.id == i) o os (apart i))) in
    elim (Bool-cases (q o)) [ inl y ↦ rw y (found_here o os, rest) | inr n ↦ rw n rest ]
