-- ===== src/Stellar/Verification.antt =====
-- What an accepted payment shows.
use xgamefi.Prelude.{
  ◌≡◌, refl, arith, ℤ, ◌≤ℤ◌, true, Option, none, some, List, [], ◌∷◌, Text, Has, text_eq_sound,
  Bool-cases, Option-cases, ap, inl, inr, ◌==◌, ◌&&◌,
}
use xgamefi.Schema.{TxHash, Address, Asset, native, issued}
use xgamefi.World.{
  External, Lookup, found, missing, broken, HorizonTx, Operation, payment, other, ok,
}
use xgamefi.Stellar.{
  truncate_text_memo, asset_matches, matching_payment, accepted, check_operations,
  check_transaction, verify_payment, same_memo,
}

pub asset_matches-eq : (expected a : Asset) → asset_matches expected a ≡ true → expected ≡ a
unfolding asset_matches
asset_matches-eq native native h = refl
asset_matches-eq native (issued code issuer) h = ground arith
asset_matches-eq (issued code issuer) native h = ground arith
asset_matches-eq (issued code issuer) (issued code' issuer') h =
    ground (arith, text_eq_sound code' code)

-- The operation pays that amount of the asset to the destination.
abbrev pub Pays : Address → Asset → ℤ → Operation → Type 0
Pays dest asset amount op = op ≡ payment dest asset amount

pub matching_payment-Pays :
    (dest : Address) (asset : Asset) (ops : List Operation) (amount : ℤ)
    → matching_payment dest asset ops ≡ some amount
    → Has (Pays dest asset amount) ops
unfolding matching_payment
matching_payment-Pays dest asset [] amount h = cc
matching_payment-Pays dest asset (other ∷ ops) amount h =
    inr (matching_payment-Pays dest asset ops amount h)
matching_payment-Pays dest asset (payment to a v ∷ ops) amount h =
    elim (Bool-cases ((to == dest) && asset_matches asset a)) [
      | inl both ↦ inl (ground (arith, asset_matches-eq asset a))
      | inr other_one ↦ inr (matching_payment-Pays dest asset ops amount (ground arith))
    ]

-- The evidence on chain for a payment of at least `min_amount`.
pub record IsPaid (x : External) (hash : TxHash) (asset : Asset) (min_amount : ℤ) (memo : Text)
    : Type 0 where
  pub tx : HorizonTx
  pub ops : List Operation
  pub amount : ℤ
  pub fetched : x.transaction hash ≡ found tx
  pub successful : tx.successful ≡ true
  pub memo_carried : tx.memo ≡ some (truncate_text_memo memo)
  pub listed : x.operations hash ≡ found ops
  pub pays : Has (Pays x.receiving_account asset amount) ops
  pub enough : min_amount ≤ℤ amount

same_memo-eq : (m : Option Text) (t : Text) → same_memo m t ≡ true → m ≡ some t
same_memo-eq none t h = cc
same_memo-eq (some m) t h = ap some (text_eq_sound m t h)

check_operations-accepted :
    (hash : TxHash) (dest : Address) (asset : Asset) (min_amount : ℤ) (r : Lookup (List Operation))
    (h : TxHash) (a : ℤ)
    → check_operations hash dest asset min_amount r ≡ ok (accepted h a)
    → (ops : List Operation) × (r ≡ found ops) × Has (Pays dest asset a) ops × (min_amount ≤ℤ a)
check_operations-accepted hash dest asset min_amount missing h a e = cc
check_operations-accepted hash dest asset min_amount broken h a e = cc
check_operations-accepted hash dest asset min_amount (found ops) h a e =
    elim (Option-cases (matching_payment dest asset ops)) [
      | inl nothing ↦ ground arith
      | inr (v, m) ↦
          (ops, refl, matching_payment-Pays dest asset ops a (ground arith), ground arith)
    ]

check_transaction-accepted :
    (x : External) (hash : TxHash) (asset : Asset) (min_amount : ℤ) (memo : Text)
    (r : Lookup HorizonTx) (h : TxHash) (a : ℤ)
    → x.transaction hash ≡ r
    → check_transaction x hash x.receiving_account asset min_amount memo r ≡ ok (accepted h a)
    → IsPaid x hash asset min_amount memo
check_transaction-accepted x hash asset min_amount memo missing h a f e = cc
check_transaction-accepted x hash asset min_amount memo broken h a f e = cc
check_transaction-accepted x hash asset min_amount memo (found tx) h a f e =
    let (ops, listed, pays, enough) =
      check_operations-accepted tx.hash x.receiving_account asset min_amount (x.operations hash) h a
        (ground arith) in
    record {
      tx = tx;
      ops = ops;
      amount = a;
      fetched = f;
      successful = ground arith;
      memo_carried = same_memo-eq tx.memo (truncate_text_memo memo) (ground arith);
      listed = listed;
      pays = pays;
      enough = enough;
    }

-- A payment is accepted only if Horizon has its transaction, that succeeded and carries the
-- (truncated) memo, and one of its operations pays the receiving account, in the asset, at least
-- the amount that is asked.
pub verify_payment-IsPaid :
    (x : External) (hash : TxHash) (asset : Asset) (min_amount : ℤ) (memo : Text) (h : TxHash)
    (a : ℤ)
    → verify_payment x (some hash) asset min_amount memo ≡ ok (accepted h a)
    → IsPaid x hash asset min_amount memo
unfolding verify_payment
verify_payment-IsPaid x hash asset min_amount memo h a e =
    check_transaction-accepted x hash asset min_amount memo (x.transaction hash) h a refl e
