-- ===== src/Orders/Advance.antt =====
-- What `verifyAndAdvanceOrder` does to the order, the ledger and the database, on every branch.
use xgamefi.Prelude.{
  ◌≡◌, ◌≢◌, inl, inr, refl, arith, ◌-ℤ◌, false, Option, none, some, [], ◌∷◌, ◌++◌, Bool-cases, ◌==◌,
  ==_iff, ◌∙◌, sym, subst, update, find-update_self, find-update_ne, find-accepts,
}
use xgamefi.Schema.{Uuid, TxHash, Order, Referral}
use xgamefi.World.{World, External, pure, proceed, Result, ok, err}
use xgamefi.Stellar.{asset_of, Verify, accepted, rejected}
use xgamefi.Stellar.Verification.{IsPaid, verify_payment-IsPaid}
use xgamefi.Orders.{
  paid, is_paid, update_order, find_order, find_by_hash, used_by_other, sale_entry, mark_paid,
  qualify_referral, qualify_first, pending_referral, prior_paid, record_sale, advance_verified,
  advance_found, verify_order, advance_order,
}

-- The order `o` became paid by the transaction `h`, and `w'` is what that left.
pub record IsSale (x : External) (w w' : World) (o : Order) (h : TxHash) : Type 0 where
  pub unpaid : is_paid o.payment_status ≡ false
  pub evidence :
      IsPaid x h (asset_of x o.currency) (o.gross_amount -ℤ o.discount_amount) (x.uuid_text o.id)
  pub unused : used_by_other (find_by_hash h w.db) o.id ≡ false
  pub written : find_order o.id w'.db ≡ some (mark_paid h w.now o)
  pub others : (j : Uuid) → j ≢ o.id → find_order j w'.db ≡ find_order j w.db
  pub rows : w'.db.orders ≡ update (λ r. r.id == o.id) (mark_paid h w.now) w.db.orders
  pub booked : w'.db.ledger ≡ w.db.ledger ++ sale_entry x o h ∷ []
  pub nothing_sent : w'.sent ≡ w.sent

qualify_first-orders :
    (o : Order) (r : Option Referral) (w : World)
    → let w' = (qualify_first o r w).1 in
      (w'.db.orders ≡ w.db.orders) × (w'.db.ledger ≡ w.db.ledger) × (w'.sent ≡ w.sent)
qualify_first-orders o none w = (refl, refl, refl)
qualify_first-orders o (some r) w = (refl, refl, refl)

pub qualify_referral-orders :
    (o : Order) (w : World)
    → let w' = (qualify_referral o w).1 in
      (w'.db.orders ≡ w.db.orders) × (w'.db.ledger ≡ w.db.ledger) × (w'.sent ≡ w.sent)
unfolding qualify_referral
qualify_referral-orders o w = elim (Bool-cases (prior_paid o w.db == 0)) [
  | inl first ↦ rw first (qualify_first-orders o (pending_referral o w.db) w)
  | inr later ↦ rw later (refl, refl, refl)
]

-- The world between the two writes of the sale and the referral.
abbrev pub sold : External → Order → TxHash → World → World
sold x o h w = record w {
  db = record (update_order o.id (mark_paid h w.now) w.db) {
    ledger = w.db.ledger ++ sale_entry x o h ∷ [];
  };
}

-- What the writes leave, the referral aside.
abbrev pub IsWritten : External → Order → TxHash → World → World → Type 0
IsWritten x o h w w' =
    (find_order o.id w'.db ≡ some (mark_paid h w.now o))
    × ((j : Uuid) → j ≢ o.id → find_order j w'.db ≡ find_order j w.db)
    × (w'.db.ledger ≡ w.db.ledger ++ sale_entry x o h ∷ [])
    × (w'.sent ≡ w.sent)
    × (w'.db.orders ≡ update (λ r. r.id == o.id) (mark_paid h w.now) w.db.orders)

sold-IsWritten :
    (x : External) (o : Order) (h : TxHash) (w : World)
    → find_order o.id w.db ≡ some o
    → IsWritten x o h w (sold x o h w)
sold-IsWritten x o h w f = (
  find-update_self (λ r. r.id) (mark_paid h w.now) (λ r. refl) o.id w.db.orders o f,
  λ j ne. find-update_ne (λ r. r.id) (mark_paid h w.now) (λ r. refl) j o.id w.db.orders ne,
  refl,
  refl,
  refl,
)

qualified-IsWritten :
    (x : External) (o : Order) (h : TxHash) (w : World)
    → find_order o.id w.db ≡ some o
    → IsWritten x o h w (qualify_referral o (sold x o h w)).1
qualified-IsWritten x o h w f =
    let (orders, ledger, sent) = qualify_referral-orders o (sold x o h w) in
    let (written, others, booked, kept, rows) = sold-IsWritten x o h w f in
    (
      rw orders written,
      λ j ne. rw orders (others j ne),
      rw ledger booked,
      rw sent kept,
      rw orders rows,
    )

sale_end :
    (x : External) (o : Order) (h : TxHash) (w : World) (q : Result (Option Uuid) × World)
    {i : Uuid} {r : Option Uuid}
    → IsWritten x o h w q.1
    → let e = proceed q.0 (λ referral. pure (paid o.id referral)) q.1 in
      e.0 ≡ ok (paid i r) → (i ≡ o.id) × IsWritten x o h w e.1
sale_end x o h w (ok a, w') written e = (ground arith, written)
sale_end x o h w (err f, w') written e = cc

pub record_sale_paid :
    (x : External) (o : Order) (h : TxHash) (w : World) {i : Uuid} {r : Option Uuid}
    → find_order o.id w.db ≡ some o
    → (record_sale x o h w).0 ≡ ok (paid i r)
    → (used_by_other (find_by_hash h w.db) o.id ≡ false)
      × ((i ≡ o.id) × IsWritten x o h w (record_sale x o h w).1)
unfolding record_sale
record_sale_paid x o h w f e = elim (Bool-cases (used_by_other (find_by_hash h w.db) o.id)) [
  | inl used ↦ cc (rw used at e)
  | inr unused ↦ (
    unused,
    rw unused (
        sale_end x o h w (qualify_referral o (sold x o h w)) (qualified-IsWritten x o h w f)
          (rw unused at e)),
  )
]

-- The id under which a row is found is the row's.
find_order-id : (i : Uuid) (w : World) (o : Order) → find_order i w.db ≡ some o → o.id ≡ i
find_order-id i w o f = (==_iff o.id i).0 (find-accepts (λ r. r.id == i) w.db.orders o f)

verified-IsSale :
    (x : External) (o : Order) (h : TxHash) (w : World) (v : Result Verify) {j : Uuid}
    {r : Option Uuid}
    → find_order o.id w.db ≡ some o
    → is_paid o.payment_status ≡ false
    → verify_order x o h ≡ v
    → (advance_verified x o h v w).0 ≡ ok (paid j r)
    → (j ≡ o.id) × IsSale x w (advance_verified x o h v w).1 o h
verified-IsSale x o h w (ok (accepted t a)) f u ve e =
    let (unused, sale) = record_sale_paid x o h w f e in
    let (j_eq, done) = sale in
    let (written, others, booked, sent, rows) = done in
    (
      j_eq,
      record {
        unpaid = u;
        evidence =
            verify_payment-IsPaid x h (asset_of x o.currency) (o.gross_amount -ℤ o.discount_amount)
              (x.uuid_text o.id) t a ve;
        unused = unused;
        written = written;
        others = others;
        rows = rows;
        booked = booked;
        nothing_sent = sent;
      },
    )
verified-IsSale x o h w (ok (rejected reason)) f u ve e = cc
verified-IsSale x o h w (err failure) f u ve e = cc

found-IsSale :
    (x : External) (i : Uuid) (h : TxHash) (w : World) (found : Option Order) {j : Uuid}
    {r : Option Uuid}
    → find_order i w.db ≡ found
    → (advance_found x h found w).0 ≡ ok (paid j r)
    → (o : Order) × (found ≡ some o)
      × (o.id ≡ i)
      × (j ≡ i)
      × IsSale x w (advance_found x h found w).1 o h
found-IsSale x i h w none f e = cc
found-IsSale x i h w (some o) f e = elim (Bool-cases (is_paid o.payment_status)) [
  | inl done ↦ cc (rw done at e)
  | inr open_order ↦
      let same = find_order-id i w o f in
      let (j_eq, sale) =
        verified-IsSale x o h w (verify_order x o h)
          (subst (λ k. find_order k w.db ≡ some o) (sym same) f) open_order refl
          (rw open_order at e) in
      (o, refl, same, j_eq ∙ same, rw open_order sale)
]

-- An order becomes paid only if it was there and not yet paid, Horizon shows a successful payment
-- of at least its amount less its discount to the receiving account, in its asset, with its id for
-- a memo, and no other order was found with that transaction. Then the order is paid by that
-- transaction, no other order has changed, the ledger has one more entry, the sale, and nothing
-- has been sent.
pub advance_order-IsSale :
    (x : External) (i : Uuid) (h : TxHash) (w : World) (j : Uuid) (r : Option Uuid)
    → (advance_order x i h w).0 ≡ ok (paid j r)
    → (o : Order) × (find_order i w.db ≡ some o)
      × (o.id ≡ i)
      × (j ≡ i)
      × IsSale x w (advance_order x i h w).1 o h
unfolding advance_order
advance_order-IsSale x i h w j r e = found-IsSale x i h w (find_order i w.db) refl e
