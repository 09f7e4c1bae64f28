-- ===== src/Orders.antt =====
-- packages/shared/src/settlement.ts: `verifyAndAdvanceOrder`.
pub mod Advance
pub mod Branches
pub mod FollowUp
pub mod Replay
mod Tests
use xgamefi.Prelude.{
  ℕ, ◌+◌, ℤ, ◌-ℤ◌, ⊤, Bool, true, false, not, ◌&&◌, ◌||◌, Option, none, some, List, [], ◌∷◌, ◌++◌,
  Text, ltb, ◌==◌, if◌then◌else◌, has, is_some, find, update, count,
}
use xgamefi.Schema.{
  Uuid, TxHash, PaymentStatus, Order, Referral, ReferralStatus, LedgerEntry, sale_in,
  LedgerEntryType, payout_out, Studio, Delivery,
}
use xgamefi.World.{
  Db, Job, payment_event, payout, webhook, referral_reward, mock_delivery, World, External, Failure,
  order_not_found, Result, ok, err, M, pure, gets, throw, ◌>>=◌, ◌>>◌, modify, add_ledger, enqueue,
  enqueue_if, publish, transaction,
}
use xgamefi.Stellar.{asset_of, Verify, accepted, rejected, Reason, tx_hash_used, verify_payment}
use xgamefi.Webhooks.Url.{is_mock_game_webhook}

pub data AdvanceResult : Type 0 where
  paid : Uuid → Option Uuid → AdvanceResult
  already : Uuid → AdvanceResult
  declined : Reason → AdvanceResult

abbrev pub is_paid : PaymentStatus → Bool
is_paid PaymentStatus.paid = true
is_paid _ = false

abbrev pub find_order : Uuid → Db → Option Order
find_order i db = find (λ o. o.id == i) db.orders

abbrev pub update_order : Uuid → (Order → Order) → Db → Db
update_order i f db = record db { orders = update (λ o. o.id == i) f db.orders }

-- The order that already carries a transaction hash.
abbrev pub find_by_hash : TxHash → Db → Option Order
find_by_hash h db = find (λ o. has o.stellar_tx_hash h) db.orders

abbrev pub used_by_other : Option Order → Uuid → Bool
used_by_other none i = false
used_by_other (some o) i = not (o.id == i)

abbrev pub is_pending_referral : ReferralStatus → Bool
is_pending_referral ReferralStatus.pending = true
is_pending_referral _ = false

abbrev pub prior_paid : Order → Db → ℕ
prior_paid o db =
    count (λ p. (p.player_id == o.player_id) && is_paid p.payment_status && not (p.id == o.id))
      db.orders

abbrev pub pending_referral : Order → Db → Option Referral
pending_referral o db =
    find (λ r. has r.referee_player_id o.player_id && is_pending_referral r.status) db.referrals

-- `updateMany` on the referral's id while it is still pending.
abbrev pub qualify : Order → ℕ → Referral → Db → Db
qualify o now r db = record db {
  referrals =
      update (λ s. (s.id == r.id) && is_pending_referral s.status)
        (λ s. record s {
          status = ReferralStatus.qualified;
          qualifying_order_id = some o.id;
          qualified_at = some now;
          studio_id = some o.studio_id;
        })
        db.referrals;
}

abbrev pub qualify_first : Order → Option Referral → M (Option Uuid)
qualify_first o none w = (ok none, w)
qualify_first o (some r) w =
    let flipped = count (λ s. (s.id == r.id) && is_pending_referral s.status) w.db.referrals in
    (ok (if flipped == 1 then some r.id else none), record w { db = qualify o w.now r w.db })

-- The referral counts on the invitee's first paid order only.
unfoldable pub qualify_referral : Order → M (Option Uuid)
qualify_referral o w =
    if prior_paid o w.db == 0 then qualify_first o (pending_referral o w.db) w else (ok none, w)

abbrev pub sale_entry : External → Order → TxHash → LedgerEntry
sale_entry x o h = record {
  kind = sale_in;
  order_id = some o.id;
  trade_id = none;
  referral_id = none;
  stellar_tx_hash = h;
  source_address = none;
  dest_address = x.receiving_account;
  amount = o.gross_amount;
  asset = asset_of x o.currency;
}

abbrev pub mark_paid : TxHash → ℕ → Order → Order
mark_paid h now o = record o {
  payment_status = PaymentStatus.paid;
  stellar_tx_hash = some h;
  paid_at = some now;
}

-- After the payment is accepted: the replay check, the writes, and the referral.
unfoldable pub record_sale : External → Order → TxHash → M AdvanceResult
record_sale x o h = do
  existing ← gets (λ w. find_by_hash h w.db)
  if used_by_other existing o.id then pure (declined tx_hash_used) else do
    now ← gets (λ w. w.now)
    modify (update_order o.id (mark_paid h now))
    add_ledger (sale_entry x o h)
    referral ← qualify_referral o
    pure (paid o.id referral)

abbrev pub advance_verified : External → Order → TxHash → Result Verify → M AdvanceResult
advance_verified x o h (ok (accepted _ _)) = record_sale x o h
advance_verified x o h (ok (rejected reason)) = pure (declined reason)
advance_verified x o h (err e) = throw e

-- The payment that an order asks for: its amount less the discount, with its id for a memo.
abbrev pub verify_order : External → Order → TxHash → Result Verify
verify_order x o h =
    verify_payment x (some h) (asset_of x o.currency) (o.gross_amount -ℤ o.discount_amount)
      (x.uuid_text o.id)

abbrev pub advance_found : External → TxHash → Option Order → M AdvanceResult
advance_found x h none = throw order_not_found
advance_found x h (some o) =
    if is_paid o.payment_status
    then pure (already o.id)
    else advance_verified x o h (verify_order x o h)

-- The body of the database transaction.
unfoldable pub advance_order : External → Uuid → TxHash → M AdvanceResult
advance_order x i h w = advance_found x h (find_order i w.db) w

abbrev pub is_payout : LedgerEntryType → Bool
is_payout payout_out = true
is_payout _ = false

-- Whether the ledger has the payout of an order, and whether a delivery of it was ever tried.
abbrev pub payout_exists : Uuid → Db → Bool
payout_exists i db = ltb 0 (count (λ e. has e.order_id i && is_payout e.kind) db.ledger)

abbrev pub delivery_exists : Uuid → Db → Bool
delivery_exists i db = ltb 0 (count (λ d. has d.order_id i) db.deliveries)

abbrev pub find_studio : Uuid → Db → Option Studio
find_studio i db = find (λ s. s.id == i) db.studios

-- `studio?.webhookUrl`
abbrev pub webhook_url_of : Option Studio → Option Text
webhook_url_of none = none
webhook_url_of (some s) = s.webhook_url

abbrev pub mock_url : Option Text → Bool
mock_url none = false
mock_url (some url) = is_mock_game_webhook url

abbrev pub delivers_to_mock : Option Order → Db → Bool
delivers_to_mock none db = false
delivers_to_mock (some o) db = mock_url (webhook_url_of (find_studio o.studio_id db))

abbrev pub enqueue_referral : Option Uuid → M ⊤
enqueue_referral none = pure tt
enqueue_referral (some r) = enqueue (referral_reward r)

-- What follows the transaction: the jobs whose records are missing, and the event.
unfoldable pub follow_up : Uuid → Option Uuid → M ⊤
follow_up i referral = do
  paid_out ← gets (λ w. payout_exists i w.db)
  delivered ← gets (λ w. delivery_exists i w.db)
  enqueue_if (not paid_out) (payout i)
  enqueue_if (not delivered) (webhook i)
  enqueue_referral referral
  mock ← gets (λ w. delivers_to_mock (find_order i w.db) w.db)
  enqueue_if mock (mock_delivery i)
  publish (payment_event i PaymentStatus.paid)

abbrev pub after_advance : AdvanceResult → M ⊤
after_advance (paid i referral) = follow_up i referral
after_advance (already i) = follow_up i none
after_advance (declined reason) = pure tt

unfoldable pub verify_and_advance_order : External → Uuid → TxHash → M AdvanceResult
unfolding transaction
verify_and_advance_order x i h = do
  result ← transaction (advance_order x i h)
  after_advance result
  pure result
