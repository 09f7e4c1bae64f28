-- ===== src/Trades/Escrow.antt =====
-- The escrow payment of a trade.
use xgamefi.Prelude.{
  ◌≡◌, inl, inr, refl, true, false, Option, none, some, [], ◌∷◌, ◌++◌, Bool-cases, ◌==◌, update,
  find-update_row, find-accepts, ==_iff,
}
use xgamefi.Schema.{Uuid, TxHash, Trade}
use xgamefi.World.{World, External, p2p_transfer, Result, ok, err, transaction}
use xgamefi.Stellar.{asset_of, Verify, accepted, rejected}
use xgamefi.Stellar.Verification.{IsPaid, verify_payment-IsPaid}
use xgamefi.Jobs.Refund.{find_trade}
use xgamefi.Trades.Settlement.{
  EscrowResult, paid, already, declined, is_pending, find_escrow, escrow_used, escrow_entry,
  mark_escrow, record_escrow, escrow_verified, verify_trade, advance_found,
  verify_and_advance_p2p_trade,
}

-- The trade `i` went into escrow by the transaction `h`.
pub record IsEscrow (x : External) (i : Uuid) (h : TxHash) (w w' : World) : Type 0 where
  pub trade : Trade
  pub found : find_trade i w.db ≡ some trade
  pub pending : is_pending trade.status ≡ true
  pub evidence : IsPaid x h (asset_of x trade.currency) trade.price (x.uuid_text trade.id)
  pub unused : escrow_used (find_escrow h w.db) trade.id ≡ false
  pub marked : find_trade i w'.db ≡ some (mark_escrow h trade)
  pub rows : w'.db.trades ≡ update (λ t. t.id == trade.id) (mark_escrow h) w.db.trades
  pub booked : w'.db.ledger ≡ w.db.ledger ++ escrow_entry x trade h ∷ []
  pub queued : w'.jobs ≡ w.jobs ++ p2p_transfer trade.id ∷ []

-- How a call may end: with a trade in escrow, or with nothing changed.
abbrev pub Escrows : External → Uuid → TxHash → World → Result EscrowResult × World → Type 0
Escrows x i h w (ok paid, w') = IsEscrow x i h w w'
Escrows x i h w (ok already, w') = w' ≡ w
Escrows x i h w (ok (declined reason), w') = w' ≡ w
Escrows x i h w (err e, w') = w' ≡ w

verified-Escrows :
    (x : External) (i : Uuid) (t : Trade) (h : TxHash) (v : Result Verify) (w : World)
    → find_trade i w.db ≡ some t
    → is_pending t.status ≡ true
    → verify_trade x t h ≡ v
    → Escrows x i h w (escrow_verified x t h v w)
unfolding record_escrow
verified-Escrows x i t h (ok (rejected reason)) w f p e = refl
verified-Escrows x i t h (err failure) w f p e = refl
verified-Escrows x i t h (ok (accepted g a)) w f p e =
    elim (Bool-cases (escrow_used (find_escrow h w.db) t.id)) [
      | inl used ↦ rw used refl
      | inr unused ↦ rw unused (record {
        trade = t;
        found = f;
        pending = p;
        evidence =
            verify_payment-IsPaid x h (asset_of x t.currency) t.price (x.uuid_text t.id) g a e;
        unused = unused;
        marked =
            find-update_row (λ r. r.id) (mark_escrow h) (λ r. refl) i w.db.trades t
              ((==_iff t.id i).0 (find-accepts (λ r. r.id == i) w.db.trades t f)) f;
        rows = refl;
        booked = refl;
        queued = refl;
      })
    ]

found-Escrows :
    (x : External) (i : Uuid) (h : TxHash) (t : Option Trade) (w : World)
    → find_trade i w.db ≡ t
    → Escrows x i h w (advance_found x h t w)
found-Escrows x i h none w f = refl
found-Escrows x i h (some t) w f = elim (Bool-cases (is_pending t.status)) [
  | inl p ↦ rw p (verified-Escrows x i t h (verify_trade x t h) w f p refl)
  | inr done ↦ rw done refl
]

rolled-Escrows :
    (x : External) (i : Uuid) (h : TxHash) (w : World) (q : Result EscrowResult × World)
    → Escrows x i h w q
    → Escrows x i h w (transaction (λ _. q) w)
unfolding transaction
rolled-Escrows x i h w (ok paid, w') e = e
rolled-Escrows x i h w (ok already, w') e = e
rolled-Escrows x i h w (ok (declined reason), w') e = e
rolled-Escrows x i h w (err f, w') e = rw e

-- A trade goes into escrow only from `ESCROW_PENDING`, on a successful payment of at least its
-- price to the receiving account, in its asset, with its id for a memo, by a transaction that no
-- other trade was found with. Then it is paid by that transaction, the ledger has the escrow
-- payment, and the transfer is queued. A call that ends otherwise has changed nothing.
pub verify_and_advance_p2p_trade-Escrows :
    (x : External) (i : Uuid) (h : TxHash) (w : World)
    → Escrows x i h w (verify_and_advance_p2p_trade x i h w)
unfolding verify_and_advance_p2p_trade
verify_and_advance_p2p_trade-Escrows x i h w =
    rolled-Escrows x i h w (advance_found x h (find_trade i w.db) w)
      (found-Escrows x i h (find_trade i w.db) w refl)
