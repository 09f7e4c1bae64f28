-- ===== src/Stellar.antt =====
-- packages/shared/src/stellar.ts: the memo, the check of a payment on chain, and the payment that
-- the platform sends. A transaction is built and signed by the Stellar SDK and submitted to
-- Horizon, which is `External.submit`: the hash, or `none` when loading the account or the
-- submission throws.
pub mod Memo
pub mod Verification
pub mod Sending
mod Tests
use Prim.Native.Nat.{bit_and}
use xgamefi.Prelude.{
  ℕ, zero, suc, ℤ, ltb_ℤ, Bool, true, false, not, ◌&&◌, Option, none, some, List, [], ◌∷◌, ◌++◌,
  Text, length, take, leb, ◌==◌, if◌then◌else◌, text_eq,
}
use xgamefi.Schema.{TxHash, Address, Currency, xlm, usdt, Asset, native, issued}
use xgamefi.World.{
  External, Lookup, found, missing, broken, HorizonTx, Operation, payment, other, Payment, World,
  Failure, horizon_failed, submit_failed, Result, ok, err, M,
}

abbrev pub memo_max_bytes : ℕ
memo_max_bytes = 28

-- `buf[end]`
abbrev pub byte_at : Text → ℕ → ℕ
byte_at [] i = 0
byte_at (b ∷ bs) zero = b
byte_at (b ∷ bs) (suc i) = byte_at bs i

-- A continuation byte of UTF-8: `(b & 0xc0) === 0x80`.
unfoldable pub is_continuation : ℕ → Bool
is_continuation b = bit_and b 0xc0 == 0x80

-- The `while` loop: back to the start of the character that the limit falls in.
unfoldable pub cut_point : Text → ℕ → ℕ
cut_point buf zero = zero
cut_point buf (suc e) =
    let rest = cut_point buf e in if is_continuation (byte_at buf (suc e)) then rest else suc e

unfoldable pub truncate_text_memo : Text → Text
truncate_text_memo buf =
    if leb (length buf) memo_max_bytes then buf else take (cut_point buf memo_max_bytes) buf

-- The asset of a currency: `tradeAsset`, and the same conditional in the other files.
abbrev pub asset_of : External → Currency → Asset
asset_of x xlm = native
asset_of x usdt = issued x.usd_asset_code x.usd_asset_issuer

-- `assetMatches(expected, op)`
unfoldable pub asset_matches : Asset → Asset → Bool
asset_matches native native = true
asset_matches native (issued code issuer) = false
asset_matches (issued code issuer) native = false
asset_matches (issued code issuer) (issued code' issuer') = text_eq code' code && issuer' == issuer

pub data Reason : Type 0 where
  missing_tx_hash not_found not_successful memo_mismatch no_matching_payment below_minimum : Reason
  tx_hash_used : Reason

pub data Verify : Type 0 where
  accepted : TxHash → ℤ → Verify
  rejected : Reason → Verify

abbrev pub same_memo : Option Text → Text → Bool
same_memo none memo = false
same_memo (some m) memo = text_eq m memo

-- The first payment of the transaction to the destination in the asset, by its amount.
unfoldable pub matching_payment : Address → Asset → List Operation → Option ℤ
matching_payment dest asset [] = none
matching_payment dest asset (other ∷ ops) = matching_payment dest asset ops
matching_payment dest asset (payment to a amount ∷ ops) =
    if to == dest && asset_matches asset a then some amount else matching_payment dest asset ops

abbrev pub check_amount : TxHash → ℤ → Option ℤ → Verify
check_amount hash min_amount none = rejected no_matching_payment
check_amount hash min_amount (some amount) =
    if ltb_ℤ amount min_amount then rejected below_minimum else accepted hash amount

abbrev pub check_operations : TxHash → Address → Asset → ℤ → Lookup (List Operation) → Result Verify
check_operations hash dest asset min_amount missing = err horizon_failed
check_operations hash dest asset min_amount broken = err horizon_failed
check_operations hash dest asset min_amount (found ops) =
    ok (check_amount hash min_amount (matching_payment dest asset ops))

abbrev pub check_transaction :
    External → TxHash → Address → Asset → ℤ → Text → Lookup HorizonTx → Result Verify
check_transaction x hash dest asset min_amount memo missing = ok (rejected not_found)
check_transaction x hash dest asset min_amount memo broken = err horizon_failed
check_transaction x hash dest asset min_amount memo (found tx) =
    if not tx.successful
    then ok (rejected not_successful)
    else if not (same_memo tx.memo (truncate_text_memo memo))
    then ok (rejected memo_mismatch)
    else check_operations tx.hash dest asset min_amount (x.operations hash)

-- `verifyPayment`, whose destination is always the receiving account.
unfoldable pub verify_payment : External → Option TxHash → Asset → ℤ → Text → Result Verify
verify_payment x none asset min_amount memo = ok (rejected missing_tx_hash)
verify_payment x (some hash) asset min_amount memo =
    check_transaction x hash x.receiving_account asset min_amount memo (x.transaction hash)

abbrev pub record_sent : Payment → Option TxHash → World → Result TxHash × World
record_sent p none w = (err submit_failed, w)
record_sent p (some hash) w = (ok hash, record w { sent = w.sent ++ p ∷ [] })

abbrev pub truncated : Option Text → Option Text
truncated none = none
truncated (some m) = some (truncate_text_memo m)

-- The payment as the network gets it, with its memo cut to size.
abbrev pub with_memo_cut : Payment → Payment
with_memo_cut p = record p { memo = truncated p.memo }

-- `sendPayment`: what is sent is kept, whatever the caller does after.
unfoldable pub send_payment : External → Payment → M TxHash
send_payment x p w = record_sent (with_memo_cut p) (x.submit w.sent (with_memo_cut p)) w
