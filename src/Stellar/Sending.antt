-- ===== src/Stellar/Sending.antt =====
-- The two ends of a payment that the platform sends.
use xgamefi.Prelude.{◌≡◌, ◌⊎◌, inl, inr, [], ◌∷◌, ◌++◌, Option-cases}
use xgamefi.Schema.{TxHash}
use xgamefi.World.{World, External, Payment, ok, err, submit_failed}
use xgamefi.Stellar.{send_payment, with_memo_cut}

-- The world after a payment.
abbrev pub with_sent : Payment → World → World
with_sent p w = record w { sent = w.sent ++ with_memo_cut p ∷ [] }

-- A payment is sent, and nothing else changes, or it fails, and nothing changes.
pub send_payment_outcome :
    (x : External) (p : Payment) (w : World)
    → ((h : TxHash) × (send_payment x p w ≡ (ok h, with_sent p w)))
      ⊎ (send_payment x p w ≡ (err submit_failed, w))
unfolding send_payment
send_payment_outcome x p w = elim (Option-cases (x.submit w.sent (with_memo_cut p))) [
  | inl e ↦ inr (rw e)
  | inr (h, e) ↦ inl (h, rw e)
]
