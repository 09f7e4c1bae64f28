-- ===== src/Watcher/Matches.antt =====
-- Which orders the watcher tries to settle with which payments.
use xgamefi.Prelude.{
  ℕ, ◌≡◌, inl, inr, refl, ap, arith, Bool, true, Option, none, some, List, [], ◌∷◌, ◌++◌, Text, All,
  Has, Option-cases, find_last, text_eq, text_eq_sound, text_eq_refl, find_last-accepts, sym, ◌∙◌,
}
use xgamefi.Schema.{Uuid, TxHash}
use xgamefi.World.{External}
use xgamefi.Stellar.{truncate_text_memo}
use xgamefi.Watcher.{Watched, Match, pending_id, match_hash, match_one, match_and_advance_payments}

-- The match is of one of the orders and one of the payments: the payment has a memo, which is the
-- order's id cut to size, and it is the match's transaction.
abbrev pub IsMatch : External → List Uuid → List Watched → Match → Type 0
IsMatch x ids ps m =
    Has (λ i. i ≡ m.id) ids
    × Has
        (λ (p : Watched).
          (p.memo ≡ some (truncate_text_memo (x.uuid_text m.id))) × (p.tx_hash ≡ some m.tx_hash))
        ps

find_last-Has :
    {A : Type 0} (p : A → Bool) (xs : List A) (a : A)
    → find_last p xs ≡ some a
    → Has (λ x. x ≡ a) xs
unfolding find_last
find_last-Has p [] a h = cc
find_last-Has p (x ∷ xs) a h = elim (Option-cases (find_last p xs)) [
  | inr (b, e) ↦ inr (find_last-Has p xs a (cc (rw e at h)))
  | inl e ↦ inl (ground arith)
]

-- A row that passes is enough for the search to find one.
find_last-some :
    {A : Type 0} (p : A → Bool) (xs : List A) (a : A)
    → Has (λ x. x ≡ a) xs
    → p a ≡ true
    → (b : A) × (find_last p xs ≡ some b)
unfolding find_last
find_last-some p [] a h t = absurd h
find_last-some p (x ∷ xs) a (inr h) t = let (b, e) = find_last-some p xs a h t in (b, rw e)
find_last-some p (x ∷ xs) a (inl e) t = elim (Option-cases (find_last p xs)) [
  | inr (b, f) ↦ (b, rw f)
  | inl f ↦ (x, rw f (rw (ap p e ∙ t)))
]

module _ (x : External) (ids : List Uuid) where
  abbrev Of : Option Text → Option TxHash → Match → Type 0
  Of memo h m =
      Has (λ i. i ≡ m.id) ids
      × (memo ≡ some (truncate_text_memo (x.uuid_text m.id)))
      × (h ≡ some m.tx_hash)

  hash-Of :
      (memo : Text) (i : Option Uuid) (h : Option TxHash)
      → pending_id x ids memo ≡ i
      → All (Of (some memo) h) (match_hash i h)
  hash-Of memo none h e = tt
  hash-Of memo (some i) none e = tt
  hash-Of memo (some i) (some h) e =
      let test = λ (j : Uuid). text_eq (truncate_text_memo (x.uuid_text j)) memo in
      (
        (
          find_last-Has test ids i e,
          ap some (sym (text_eq_sound _ memo (find_last-accepts test ids i e))),
          refl,
        ),
        tt,
      )

  one-Of : (memo : Option Text) (h : Option TxHash) → All (Of memo h) (match_one x ids memo h)
  one-Of none h = tt
  one-Of (some []) h = tt
  one-Of (some (c ∷ cs)) h = hash-Of (c ∷ cs) (pending_id x ids (c ∷ cs)) h refl

  head-IsMatch :
      (p : Watched) (ps : List Watched) (ms : List Match)
      → All (Of p.memo p.tx_hash) ms
      → All (IsMatch x ids (p ∷ ps)) ms
  head-IsMatch p ps [] a = tt
  head-IsMatch p ps (m ∷ ms) ((i, memo, h), a) = ((i, inl (memo, h)), head-IsMatch p ps ms a)

  tail-IsMatch :
      (p : Watched) (ps : List Watched) (ms : List Match)
      → All (IsMatch x ids ps) ms
      → All (IsMatch x ids (p ∷ ps)) ms
  tail-IsMatch p ps [] a = tt
  tail-IsMatch p ps (m ∷ ms) ((i, h), a) = ((i, inr h), tail-IsMatch p ps ms a)

All-append : {A : Type 0} (P : A → Type 0) (xs ys : List A) → All P xs → All P ys → All P (xs ++ ys)
All-append P [] ys a b = b
All-append P (x ∷ xs) ys (h, a) b = (h, All-append P xs ys a b)

Has-append_right : {A : Type 0} (P : A → Type 0) (xs ys : List A) → Has P ys → Has P (xs ++ ys)
Has-append_right P [] ys h = h
Has-append_right P (x ∷ xs) ys h = inr (Has-append_right P xs ys h)

Has-append_here : {A : Type 0} (P : A → Type 0) (xs ys : List A) → Has P xs → Has P (xs ++ ys)
Has-append_here P [] ys h = absurd h
Has-append_here P (x ∷ xs) ys (inl h) = inl h
Has-append_here P (x ∷ xs) ys (inr h) = inr (Has-append_here P xs ys h)

-- Every match is of one of the given orders and one of the given payments, whose memo is the
-- order's id cut to size and whose transaction is the match's.
pub match_and_advance_payments-IsMatch :
    (x : External) (ids : List Uuid) (ps : List Watched)
    → All (IsMatch x ids ps) (match_and_advance_payments x ids ps)
unfolding match_and_advance_payments
match_and_advance_payments-IsMatch x ids [] = tt
match_and_advance_payments-IsMatch x ids (p ∷ ps) =
    All-append (IsMatch x ids (p ∷ ps)) (match_one x ids p.memo p.tx_hash)
      (match_and_advance_payments x ids ps)
      (head-IsMatch x ids p ps _ (one-Of x ids p.memo p.tx_hash))
      (tail-IsMatch x ids p ps _ (match_and_advance_payments-IsMatch x ids ps))

-- The match is by that transaction, and its order's id has that text when it is cut to size.
abbrev pub Settles : External → Text → TxHash → Match → Type 0
Settles x memo h m = (m.tx_hash ≡ h) × (truncate_text_memo (x.uuid_text m.id) ≡ memo)

one_matches :
    (x : External) (ids : List Uuid) (i : Uuid) (c : ℕ) (cs : Text) (h : TxHash)
    → Has (λ j. j ≡ i) ids
    → truncate_text_memo (x.uuid_text i) ≡ c ∷ cs
    → Has (Settles x (c ∷ cs) h) (match_one x ids (some (c ∷ cs)) (some h))
one_matches x ids i c cs h there e =
    let test = λ (j : Uuid). text_eq (truncate_text_memo (x.uuid_text j)) (c ∷ cs) in
    let (b, f) = find_last-some test ids i there (rw e (text_eq_refl (c ∷ cs))) in
    rw f (inl (refl, text_eq_sound _ (c ∷ cs) (find_last-accepts test ids b f)))

-- No payment is missed: if a payment's memo is the cut id of one of the orders, and is not empty,
-- then there is a match by that payment's transaction, of an order whose cut id is that memo.
pub match_and_advance_payments_complete :
    (x : External) (ids : List Uuid) (ps : List Watched) (i : Uuid) (c : ℕ) (cs : Text) (h : TxHash)
    → Has (λ j. j ≡ i) ids
    → truncate_text_memo (x.uuid_text i) ≡ c ∷ cs
    → Has (λ p. p ≡ record { memo = some (c ∷ cs); tx_hash = some h }) ps
    → Has (Settles x (c ∷ cs) h) (match_and_advance_payments x ids ps)
unfolding match_and_advance_payments
match_and_advance_payments_complete x ids [] i c cs h there e paid = absurd paid
match_and_advance_payments_complete x ids (p ∷ ps) i c cs h there e (inl same) = rw same (
    Has-append_here (Settles x (c ∷ cs) h) (match_one x ids (some (c ∷ cs)) (some h)) _
      (one_matches x ids i c cs h there e))
match_and_advance_payments_complete x ids (p ∷ ps) i c cs h there e (inr paid) =
    Has-append_right (Settles x (c ∷ cs) h) (match_one x ids p.memo p.tx_hash) _
      (match_and_advance_payments_complete x ids ps i c cs h there e paid)
