-- ===== src/Orders/Replay.antt =====
-- A transaction pays for one order at most: the invariant that the replay check keeps.
use xgamefi.Prelude.{
  ℕ, ◌+◌, ◌≤◌, ◌≡◌, refl, arith, false, not, ◌&&◌, inl, inr, List, [], ◌∷◌, ◌==◌, has, find, update,
  count, Bool-cases, sym, subst, ==_iff,
}
use xgamefi.Schema.{Uuid, TxHash, Order}
use xgamefi.World.{World, External}
use xgamefi.Orders.{used_by_other, mark_paid, advance_order}
use xgamefi.Orders.Advance.{advance_order-IsSale}
use xgamefi.Orders.Branches.{advance_order_outcome}

module _ (k : Uuid) (h : TxHash) (now : ℕ) where
  -- The orders that carry `h` are, after the update, the orders `k` and those that had it before.
  count-mark_self :
      (os : List Order)
      → count (λ o. has o.stellar_tx_hash h) (update (λ o. o.id == k) (mark_paid h now) os)
        ≡ count (λ o. has o.stellar_tx_hash h && not (o.id == k)) os + count (λ o. o.id == k) os
  unfolding count update
  count-mark_self [] = omega arith
  count-mark_self (o ∷ os) = ground (arith, count-mark_self os)

  -- No other hash is carried more often.
  count-mark_ne :
      (g : TxHash) (os : List Order)
      → (g == h) ≡ false
      → count (λ o. has o.stellar_tx_hash g) (update (λ o. o.id == k) (mark_paid h now) os)
        ≤ count (λ o. has o.stellar_tx_hash g) os
  unfolding count update
  count-mark_ne g [] ne = omega arith
  count-mark_ne g (o ∷ os) ne = ground (arith, count-mark_ne g os ne)

  count-mark_id :
      (j : Uuid) (os : List Order)
      → count (λ o. o.id == j) (update (λ o. o.id == k) (mark_paid h now) os)
        ≡ count (λ o. o.id == j) os
  unfolding count update
  count-mark_id j [] = refl
  count-mark_id j (o ∷ os) = ground (arith, count-mark_id j os)

module _ (h : TxHash) (k : Uuid) where
  count-others_zero :
      (os : List Order)
      → count (λ o. has o.stellar_tx_hash h) os ≡ 0
      → count (λ o. has o.stellar_tx_hash h && not (o.id == k)) os ≡ 0
  unfolding count
  count-others_zero [] z = refl
  count-others_zero (o ∷ os) z = ground (arith, count-others_zero os)

  -- If the first order with `h` is `k` or there is none, and one order at most has `h`, then no
  -- order but `k` has it.
  count-others :
      (os : List Order)
      → used_by_other (find (λ o. has o.stellar_tx_hash h) os) k ≡ false
      → count (λ o. has o.stellar_tx_hash h) os ≤ 1
      → count (λ o. has o.stellar_tx_hash h && not (o.id == k)) os ≡ 0
  unfolding count find
  count-others [] u l = refl
  count-others (o ∷ os) u l = ground (arith, count-others os, count-others_zero os)

-- One order at most has an id, and one at most has a transaction hash.
pub record IsReplayFree (os : List Order) : Type 0 where
  pub ids : (i : Uuid) → count (λ o. o.id == i) os ≤ 1
  pub hashes : (h : TxHash) → count (λ o. has o.stellar_tx_hash h) os ≤ 1

mark-IsReplayFree :
    (os : List Order) (k : Uuid) (h : TxHash) (now : ℕ)
    → used_by_other (find (λ o. has o.stellar_tx_hash h) os) k ≡ false
    → IsReplayFree os
    → IsReplayFree (update (λ o. o.id == k) (mark_paid h now) os)
mark-IsReplayFree os k h now unused free = record {
  ids = λ i. omega (arith, count-mark_id k h now i os, free.ids i);
  hashes = λ g. elim (Bool-cases (g == h)) [
    | inl same ↦
        subst
          (λ t.
            count (λ o. has o.stellar_tx_hash t) (update (λ o. o.id == k) (mark_paid h now) os) ≤ 1)
          (sym ((==_iff g h).0 same))
          (omega (
            arith,
            count-mark_self k h now os,
            count-others h k os unused (free.hashes h),
            free.ids k,
          ))
    | inr ne ↦ omega (arith, count-mark_ne k h now g os ne, free.hashes g)
  ];
}

-- Whatever the call and however it ends: if one order at most has an id, and one at most a
-- transaction hash, that is so afterwards.
pub advance_order-IsReplayFree :
    (x : External) (i : Uuid) (h : TxHash) (w : World)
    → IsReplayFree w.db.orders
    → IsReplayFree (advance_order x i h w).1.db.orders
advance_order-IsReplayFree x i h w free = elim (advance_order_outcome x i h w) [
  | inl (j, r, e) ↦
      let (o, found, same, j_eq, sale) = advance_order-IsSale x i h w j r e in
      rw sale.rows (mark-IsReplayFree w.db.orders o.id h w.now sale.unused free)
  | inr kept ↦ rw kept free
]
