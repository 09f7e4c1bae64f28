-- ===== src/Watcher/Settled.antt =====
-- Which orders a run of apps/worker/src/jobs/stellar-watcher.ts changes, and how.
use xgamefi.Prelude.{
  ℕ, ◌≡◌, ◌⊎◌, inl, inr, refl, ap, sym, subst, ◌∙◌, Bool-cases, true, Option, none, some, List, [],
  ◌∷◌, ◌++◌, All, Has, where_is, ==_cases,
}
use xgamefi.Schema.{Uuid, TxHash, Order, PaymentStatus}
use xgamefi.World.{World, Db, External, Lookup, found, missing, broken, HorizonTx, PaymentRecord}
use xgamefi.Stellar.{truncate_text_memo}
use xgamefi.Orders.{find_order, mark_paid, advance_order, verify_and_advance_order}
use xgamefi.Orders.Advance.{advance_order-IsSale}
use xgamefi.Orders.Branches.{advance_order_outcome}
use xgamefi.Orders.FollowUp.{verify_and_advance_order-db}
use xgamefi.Watcher.{
  Match, match_and_advance_payments, fetch_all, watched, pending_orders, ids_of, is_order_pending,
  advance_all, watch_records, or_stored, stellar_watcher_processor,
}
use xgamefi.Watcher.Matches.{IsMatch, match_and_advance_payments-IsMatch}

-- The order `j` is as it was, or it is paid by the transaction `h`.
abbrev MadePaid : Uuid → TxHash → Db → Type 0
MadePaid j h db = (o : Order) × (now : ℕ) × (find_order j db ≡ some (mark_paid h now o))

abbrev Moves : Uuid → Uuid → TxHash → Db → Db → Type 0
Moves i j h d d' = (find_order j d' ≡ find_order j d) ⊎ ((i ≡ j) × MadePaid j h d')

advance_order-Moves :
    (x : External) (i j : Uuid) (h : TxHash) (w : World)
    → Moves i j h w.db (advance_order x i h w).1.db
advance_order-Moves x i j h w = elim (advance_order_outcome x i h w) [
  | inr same ↦ inl (ap (λ v. find_order j v.db) same)
  | inl (k, r, e) ↦
      let (o, at_i, same, k_eq, sale) = advance_order-IsSale x i h w k r e in
      elim (==_cases j o.id) [
        | inr other ↦ inl (sale.others j other)
        | inl here ↦
            let w' = (advance_order x i h w).1 in
            inr (
              sym same ∙ sym here,
              (
                o,
                w.now,
                subst (λ k. find_order k w'.db ≡ some (mark_paid h w.now o)) (sym here)
                    sale.written,
              ),
            )
      ]
]

call-Moves :
    (x : External) (i j : Uuid) (h : TxHash) (w : World)
    → Moves i j h w.db (verify_and_advance_order x i h w).1.db
call-Moves x i j h w =
    verify_and_advance_order-db (Moves i j h w.db) x i h w (inl refl)
      (advance_order-Moves x i j h w)

-- After the loop over the matches.
advance_all-Moves :
    (x : External) (j : Uuid) (ms : List Match) (w : World)
    → let d' = (advance_all x ms w).1.db in
      (find_order j d' ≡ find_order j w.db)
      ⊎ ((m : Match) × Has (λ n. n ≡ m) ms × (m.id ≡ j) × MadePaid j m.tx_hash d')
unfolding advance_all
advance_all-Moves x j [] w = inl refl
advance_all-Moves x j (m ∷ ms) w =
    let v = (verify_and_advance_order x m.id m.tx_hash w).1 in
    elim (advance_all-Moves x j ms v) [
      | inr (n, there, same, paid) ↦ inr (n, inr there, same, paid)
      | inl kept ↦ elim (call-Moves x m.id j m.tx_hash w) [
        | inl before ↦ inl (kept ∙ before)
        | inr (same, (o, now, e)) ↦ inr (m, inl refl, same, (o, now, kept ∙ e))
      ]
    ]

All-Has : {A : Type 0} (P : A → Type 0) (xs : List A) (a : A) → All P xs → Has (λ x. x ≡ a) xs → P a
All-Has P [] a h there = absurd there
All-Has P (x ∷ xs) a (p, h) (inl e) = subst P e p
All-Has P (x ∷ xs) a (p, h) (inr there) = All-Has P xs a h there

-- The order was there and pending.
abbrev pub WasPending : Uuid → World → Type 0
WasPending j w = Has (λ o. (o.id ≡ j) × (o.payment_status ≡ PaymentStatus.pending)) w.db.orders

is_pending-pending : (s : PaymentStatus) → is_order_pending s ≡ true → s ≡ PaymentStatus.pending
is_pending-pending PaymentStatus.pending e = refl
is_pending-pending _ e = cc

pending-Has :
    (j : Uuid) (os : List Order)
    → Has (λ i. i ≡ j) (ids_of (where_is (λ o. is_order_pending o.payment_status) os))
    → Has (λ o. (o.id ≡ j) × (o.payment_status ≡ PaymentStatus.pending)) os
unfolding where_is
pending-Has j [] h = absurd h
pending-Has j (o ∷ os) h = elim (Bool-cases (is_order_pending o.payment_status)) [
  | inr n ↦ inr (pending-Has j os (rw n at h))
  | inl y ↦
      let here : Has (λ i. i ≡ j)
          (o.id ∷ ids_of (where_is (λ r. is_order_pending r.payment_status) os)) =
        rw y at h in
      elim here [
        | inl e ↦ inl (e, is_pending-pending o.payment_status y)
        | inr there ↦ inr (pending-Has j os there)
      ]
]

-- One of the records is of a transaction that Horizon gives, whose memo is the id of the order, cut
-- to size, and whose hash is `h`.
abbrev pub Names : External → Uuid → TxHash → PaymentRecord → Type 0
Names x j h r =
    (tx : HorizonTx) × (x.transaction r.transaction_hash ≡ found tx)
    × (tx.memo ≡ some (truncate_text_memo (x.uuid_text j)))
    × (tx.hash ≡ h)

-- A payment that the watcher keeps is of a record whose transaction was fetched.
fetch_all-Has :
    (x : External) (j : Uuid) (h : TxHash) (rs : List PaymentRecord)
    → Has
        (λ p. (p.memo ≡ some (truncate_text_memo (x.uuid_text j))) × (p.tx_hash ≡ some h))
        (fetch_all x rs)
    → Has (Names x j h) rs
fetch_all-Has x j h [] there = absurd there
fetch_all-Has x j h (r ∷ rs) there =
    one (fetch_all-Has x j h rs) (x.transaction r.transaction_hash) refl there
  where
    one :
        (Has
            (λ p. (p.memo ≡ some (truncate_text_memo (x.uuid_text j))) × (p.tx_hash ≡ some h))
            (fetch_all x rs)
          → Has (Names x j h) rs)
        → (answer : Lookup HorizonTx) → x.transaction r.transaction_hash ≡ answer
        → Has
            (λ p. (p.memo ≡ some (truncate_text_memo (x.uuid_text j))) × (p.tx_hash ≡ some h))
            (watched answer ++ fetch_all x rs)
        → Has (Names x j h) (r ∷ rs)
    one later (found tx) e (inl (memo, hash)) = inl (tx, e, memo, cc)
    one later (found tx) e (inr rest) = inr (later rest)
    one later missing e rest = inr (later rest)
    one later broken e rest = inr (later rest)

-- The order `j` was settled by the answer of Horizon: it was pending, one of the records is of a
-- transaction with its cut id for a memo, and it is paid by that transaction.
abbrev pub Settled : External → Uuid → List PaymentRecord → World → World → Type 0
Settled x j rs w w' =
    WasPending j w
    × (h : TxHash) × Has (Names x j h) rs
    × (o : Order) × (now : ℕ) × (find_order j w'.db ≡ some (mark_paid h now o))

records-Settled :
    (x : External) (j : Uuid) (stored : Option ℕ) (rs : List PaymentRecord) (w : World)
    → let w' = (watch_records x stored (some rs) w).1 in
      (find_order j w'.db ≡ find_order j w.db) ⊎ Settled x j rs w w'
records-Settled x j stored rs w =
    let ids = pending_orders w in
    let ps = fetch_all x rs in
    let ms = match_and_advance_payments x ids ps in
    elim (advance_all-Moves x j ms w) [
      | inl same ↦ inl same
      | inr (m, there, same, (o, now, e)) ↦
          let (listed, named) =
            All-Has (IsMatch x ids ps) ms m (match_and_advance_payments-IsMatch x ids ps) there in
          inr (
            pending-Has j w.db.orders (subst (λ k. Has (λ i. i ≡ k) ids) same listed),
            m.tx_hash,
            fetch_all-Has x j m.tx_hash rs (
                subst
                  (λ k.
                    Has
                      (λ p.
                        (p.memo ≡ some (truncate_text_memo (x.uuid_text k)))
                        × (p.tx_hash ≡ some m.tx_hash))
                      ps)
                  same named),
            o,
            now,
            e,
          )
    ]

-- A run of the watcher leaves an order as it was, or Horizon has answered with records, the order was
-- pending, one of the records is of a transaction whose memo is the order's id, cut to size, and the
-- order is paid by that transaction.
pub stellar_watcher_processor-Settled :
    (x : External) (cursor stored : Option ℕ) (w : World) (j : Uuid)
    → let w' = (stellar_watcher_processor x cursor stored w).1 in
      (find_order j w'.db ≡ find_order j w.db)
      ⊎ ((rs : List PaymentRecord) × (x.payments_after (or_stored cursor stored) ≡ some rs)
          × Settled x j rs w w')
unfolding stellar_watcher_processor
stellar_watcher_processor-Settled x cursor stored w j =
    answered (x.payments_after (or_stored cursor stored)) refl
  where
    answered :
        (answer : Option (List PaymentRecord))
        → x.payments_after (or_stored cursor stored) ≡ answer
        → let w' = (watch_records x stored answer w).1 in
          (find_order j w'.db ≡ find_order j w.db)
          ⊎ ((rs : List PaymentRecord) × (x.payments_after (or_stored cursor stored) ≡ some rs)
              × Settled x j rs w w')
    answered none e = inl refl
    answered (some rs) e = elim (records-Settled x j stored rs w) [
      | inl same ↦ inl same
      | inr s ↦ inr (rs, e, s)
    ]
