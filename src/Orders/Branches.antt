-- ===== src/Orders/Branches.antt =====
-- The other ways in which `verifyAndAdvanceOrder` ends: nothing is written, a second call, and an
-- order that was refunded.
use xgamefi.Prelude.{
  ℕ, ℤ, ⊤, subst, ◌⊎◌, ==_refl, not, ◌≡◌, refl, ap, false, inl, inr, Option, none, some, Bool-cases,
  ◌==◌,
}
use xgamefi.Schema.{Uuid, TxHash, refunded, Order, Referral}
use xgamefi.World.{World, External, Result, ok, err, transaction}
use xgamefi.Stellar.{Verify, accepted, rejected}
use xgamefi.Orders.{
  paid, already, declined, AdvanceResult, verify_and_advance_order, is_paid, find_order,
  find_by_hash, used_by_other, qualify_referral, qualify_first, prior_paid, pending_referral,
  record_sale, advance_verified, advance_found, verify_order, advance_order, mark_paid,
}
use xgamefi.Orders.FollowUp.{
  IsFollowed, followed, followed-IsFollowed, ended, ended_paid, ended_already,
}
use xgamefi.Orders.Advance.{sold, advance_order-IsSale}

first_time-ok :
    (o : Order) (r : Option Referral) (w : World)
    → (q : Option Uuid) × ((qualify_first o r w).0 ≡ ok q)
first_time-ok o none w = (none, refl)
first_time-ok o (some r) w = (_, refl)

-- `qualify_referral` does not throw.
pub qualify_referral-ok :
    (o : Order) (w : World) → (r : Option Uuid) × ((qualify_referral o w).0 ≡ ok r)
unfolding qualify_referral
qualify_referral-ok o w = elim (Bool-cases (prior_paid o w.db == 0)) [
  | inl first ↦ rw first (first_time-ok o (pending_referral o w.db) w)
  | inr later ↦ rw later (none, refl)
]

-- A sale is recorded, or it is declined and nothing is written.
record_sale_outcome :
    (x : External) (o : Order) (h : TxHash) (w : World)
    → ((r : Option Uuid) × ((record_sale x o h w).0 ≡ ok (paid o.id r)))
      ⊎ ((record_sale x o h w).1 ≡ w)
unfolding record_sale
record_sale_outcome x o h w = elim (Bool-cases (used_by_other (find_by_hash h w.db) o.id)) [
  | inl used ↦ inr (rw used)
  | inr unused ↦ let (r, e) = qualify_referral-ok o (sold x o h w) in inl (r, rw (unused, e))
]

verified_outcome :
    (x : External) (o : Order) (h : TxHash) (v : Result Verify) (w : World)
    → ((r : Option Uuid) × ((advance_verified x o h v w).0 ≡ ok (paid o.id r)))
      ⊎ ((advance_verified x o h v w).1 ≡ w)
verified_outcome x o h (ok (accepted t a)) w = record_sale_outcome x o h w
verified_outcome x o h (ok (rejected reason)) w = inr refl
verified_outcome x o h (err e) w = inr refl

found_outcome :
    (x : External) (o : Option Order) (h : TxHash) (w : World)
    → ((j : Uuid) × (r : Option Uuid) × ((advance_found x h o w).0 ≡ ok (paid j r)))
      ⊎ ((advance_found x h o w).1 ≡ w)
found_outcome x none h w = inr refl
found_outcome x (some o) h w = elim (Bool-cases (is_paid o.payment_status)) [
  | inl done ↦ inr (rw done)
  | inr open_order ↦ elim (verified_outcome x o h (verify_order x o h) w) [
    | inl (r, e) ↦ inl (o.id, r, rw open_order e)
    | inr e ↦ inr (rw open_order e)
  ]
]

-- The transaction makes an order paid, or it has changed nothing.
pub advance_order_outcome :
    (x : External) (i : Uuid) (h : TxHash) (w : World)
    → ((j : Uuid) × (r : Option Uuid) × ((advance_order x i h w).0 ≡ ok (paid j r)))
      ⊎ ((advance_order x i h w).1 ≡ w)
unfolding advance_order
advance_order_outcome x i h w = found_outcome x (find_order i w.db) h w

-- What a transaction leaves that has not made an order paid.
abbrev Leaves : World → Result AdvanceResult × World → Type 0
Leaves w (ok (paid j r), w') = ⊤
Leaves w (_, w') = w' ≡ w

leaves :
    (w : World) (q : Result AdvanceResult × World)
    → ((j : Uuid) × (r : Option Uuid) × (q.0 ≡ ok (paid j r))) ⊎ (q.1 ≡ w)
    → Leaves w q
leaves w (ok (paid j r), w') o = tt
leaves w (ok (already j), w') (inl (i, r, e)) = cc
leaves w (ok (already j), w') (inr e) = e
leaves w (ok (declined reason), w') (inl (i, r, e)) = cc
leaves w (ok (declined reason), w') (inr e) = e
leaves w (err f, w') (inl (i, r, e)) = cc
leaves w (err f, w') (inr e) = e

-- How a call of `verifyAndAdvanceOrder` from `w` ends, by what its transaction came to.
abbrev pub Ends : World → Result AdvanceResult × World → Result AdvanceResult × World → Type 0
Ends w (ok (paid j r), w') q = (q.0 ≡ ok (paid j r)) × IsFollowed j r w' q.1
Ends w (ok (already j), w') q = (q.0 ≡ ok (already j)) × IsFollowed j none w q.1
Ends w (ok (declined reason), w') q = q ≡ (ok (declined reason), w)
Ends w (err f, w') q = q ≡ (err f, w)

ended-Ends : (w : World) (t : Result AdvanceResult × World) → Leaves w t → Ends w t (ended w t)
unfolding transaction
ended-Ends w (ok (paid j r), w') l =
    rw (ended_paid w (ok (paid j r)) w' refl) (refl, followed-IsFollowed j r w')
ended-Ends w (ok (already j), w') l =
    rw (ended_already w (ok (already j)) w' refl) (
      refl,
      subst (λ v. IsFollowed j none v (followed j none w')) l (followed-IsFollowed j none w'),
    )
ended-Ends w (ok (declined reason), w') l = ap (λ v. (ok (declined reason), v)) l
ended-Ends w (err f, w') l =
    ap {A = World} {B = Result AdvanceResult × World} (λ v. (err f, record v { db = w.db })) l

-- Every end of a call whose jobs the queues take. Where its transaction makes the order paid, it
-- answers so, and the jobs that are due and the event follow what the transaction wrote. Where the
-- order was paid already, it answers so, the database and the payments are as before, and the jobs
-- that are still due are queued, and the event published, again. Where the transaction declines or
-- throws, the call ends alike, and the database, the queues, the payments and the events are as
-- before.
pub verify_and_advance_order-Ends :
    (x : External) (i : Uuid) (h : TxHash) (w : World)
    → Ends w (advance_order x i h w) (verify_and_advance_order x i h w)
unfolding verify_and_advance_order
verify_and_advance_order-Ends x i h w =
    ended-Ends w (advance_order x i h w)
      (leaves w (advance_order x i h w) (advance_order_outcome x i h w))

again :
    (x : External) (i : Uuid) (g h : TxHash) (now : ℕ) (o : Order) (w' : World)
    → o.id ≡ i
    → find_order i w'.db ≡ some (mark_paid h now o)
    → advance_found x g (find_order i w'.db) w' ≡ (ok (already i), w')
again x i g h now o w' same written = rw written (ap (λ k. (ok (already k), w')) same)

-- Once the database transaction has made an order paid, every later one for it, with whatever
-- payment, finds that it is paid already, and changes nothing.
pub advance_order_again :
    (x : External) (i : Uuid) (h g : TxHash) (w : World) (j : Uuid) (r : Option Uuid)
    → (advance_order x i h w).0 ≡ ok (paid j r)
    → let w' = (advance_order x i h w).1 in advance_order x i g w' ≡ (ok (already i), w')
advance_order_again x i h g w j r e =
    let (o, found, same, j_eq, sale) = advance_order-IsSale x i h w j r e in
    let w' = (advance_order x i h w).1 in
    let written : find_order i w'.db ≡ some (mark_paid h w.now o) =
      subst (λ k. find_order k w'.db ≡ some (mark_paid h w.now o)) same sale.written in
    unfold advance_order in again x i g h w.now o w' same written

-- A refunded order that carries a transaction is made paid a second time by that transaction, as long
-- as its payment is accepted.
pub refunded_order_advances :
    (x : External) (i : Uuid) (h t : TxHash) (a : ℤ) (w : World) (o : Order)
    → find_order i w.db ≡ some o
    → o.payment_status ≡ refunded
    → find_by_hash h w.db ≡ some o
    → verify_order x o h ≡ ok (accepted t a)
    → (r : Option Uuid) × ((advance_order x i h w).0 ≡ ok (paid o.id r))
unfolding advance_order record_sale
refunded_order_advances x i h t a w o found status carried verified =
    let (r, e) = qualify_referral-ok o (sold x o h w) in
    let unpaid : is_paid o.payment_status ≡ false = ap is_paid status in
    let unused : used_by_other (find_by_hash h w.db) o.id ≡ false =
      rw carried (ap not (==_refl o.id)) in
    (r, rw (found, unpaid, verified, unused, e))
