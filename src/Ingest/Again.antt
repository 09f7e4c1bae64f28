-- ===== src/Ingest/Again.antt =====
-- A push that is repeated under its idempotency key.
use xgamefi.Prelude.{
  ℕ, ◌≡◌, refl, ap, inl, inr, not, Bool-cases, Option, none, some, List, ◌∷◌, Text, text_eq,
  text_eq_refl,
}
use xgamefi.World.{World, External, RemoteItem, Result, ok, err}
use xgamefi.Signatures.{Hmac}
use xgamefi.Idempotency.{IdempotencyKey, find_key, find-append_none}
use xgamefi.Catalogue.{upsert_catalogue_items}
use xgamefi.Ingest.{
  ApiKey, Headers, State, Auth, authentic, unauthentic, items_replied, authenticate_ingest,
  response_row, stored, once, parsed, posted, post_items,
}

module _ (h : Hmac) (sha256 : Text → Text) (tolerance : ℕ)
    (read_items : Text → Option (List RemoteItem)) (x : External) (c : ℕ) (cs : Text) where
  -- The response `r` is stored for the key.
  abbrev IsStored : State → ℕ × ℕ → Type 0
  IsStored s r =
      (row : IdempotencyKey (ℕ × ℕ)) × (find_key (c ∷ cs) s.responses ≡ some row)
      × (row.response_snapshot ≡ r)

  stored-IsStored :
      (raw_body : Text) (s : State) (r : ℕ × ℕ) (q : Result (ℕ × ℕ) × World)
      → find_key (c ∷ cs) s.responses ≡ none
      → let e = stored h sha256 tolerance read_items x (some (c ∷ cs)) raw_body s q in
        e.0 ≡ items_replied r → IsStored e.1 r
  stored-IsStored raw_body s r (err e, w) f p = cc
  stored-IsStored raw_body s r (ok a, w) f p = elim (Bool-cases (not (x.writes w))) [
    | inl lost ↦ cc (rw lost at p)
    | inr written ↦ rw written (
      response_row h sha256 tolerance read_items x (c ∷ cs) raw_body a,
      find-append_none (λ b. text_eq b.key (c ∷ cs)) s.responses _ f (text_eq_refl (c ∷ cs)),
      cc (rw written at p),
    )
  ]

  once-IsStored :
      (k : ApiKey) (feed : List RemoteItem) (raw_body : Text) (s : State) (r : ℕ × ℕ)
      (row : Option (IdempotencyKey (ℕ × ℕ)))
      → find_key (c ∷ cs) s.responses ≡ row
      → let q = once h sha256 tolerance read_items x k feed (some (c ∷ cs)) raw_body s row in
        q.0 ≡ items_replied r → IsStored q.1 r
  once-IsStored k feed raw_body s r none f e =
      stored-IsStored raw_body s r (upsert_catalogue_items x k.studio_id feed s.world) f e
  once-IsStored k feed raw_body s r (some row) f e = (row, f, cc)

  parsed-IsStored :
      (k : ApiKey) (raw_body : Text) (s : State) (r : ℕ × ℕ) (feed : Option (List RemoteItem))
      → let q = parsed h sha256 tolerance read_items x k (some (c ∷ cs)) raw_body s feed in
        q.0 ≡ items_replied r → IsStored q.1 r
  parsed-IsStored k raw_body s r none e = cc
  parsed-IsStored k raw_body s r (some feed) e =
      once-IsStored k feed raw_body s r (find_key (c ∷ cs) s.responses) refl e

  posted-IsStored :
      (headers : Headers) (raw_body : Text) (s : State) (r : ℕ × ℕ) (a : Auth)
      → headers.idempotency_key ≡ some (c ∷ cs)
      → (posted h sha256 tolerance read_items x headers raw_body s a).0 ≡ items_replied r
      → IsStored (posted h sha256 tolerance read_items x headers raw_body s a).1 r
  posted-IsStored headers raw_body s r (unauthentic e) given p = cc
  posted-IsStored headers raw_body s r (authentic k) given p =
      rw given (parsed-IsStored k raw_body s r (read_items raw_body) (rw given at p))

  -- A stored response answers every authentic push under its key.
  stored_answers :
      (headers : Headers) (raw_body : Text) (s : State) (r : ℕ × ℕ) (k : ApiKey)
      (feed : List RemoteItem)
      → headers.idempotency_key ≡ some (c ∷ cs)
      → IsStored s r
      → authenticate_ingest h sha256 tolerance headers raw_body s ≡ authentic k
      → read_items raw_body ≡ some feed
      → post_items h sha256 tolerance read_items x headers raw_body s ≡ (items_replied r, s)
  unfolding post_items
  stored_answers headers raw_body s r k feed given (row, found, same) auth p =
      rw (auth, p, given, found) (ap (λ a. (items_replied a, s)) same)

  -- Once a push with an idempotency key is answered, every authentic push with that key and a body of
  -- the right form, of whatever studio and with whatever items, gets the same answer and changes
  -- nothing.
  pub post_items_again :
      (headers later : Headers) (raw_body later_body : Text) (s : State) (r : ℕ × ℕ) (k : ApiKey)
      (feed : List RemoteItem)
      → headers.idempotency_key ≡ some (c ∷ cs)
      → later.idempotency_key ≡ some (c ∷ cs)
      → let q = post_items h sha256 tolerance read_items x headers raw_body s in
        q.0 ≡ items_replied r
        → authenticate_ingest h sha256 tolerance later later_body q.1 ≡ authentic k
        → read_items later_body ≡ some feed
        → post_items h sha256 tolerance read_items x later later_body q.1 ≡ (items_replied r, q.1)
  post_items_again headers later raw_body later_body s r k feed given given' e auth p =
      let q = post_items h sha256 tolerance read_items x headers raw_body s in
      let kept : IsStored q.1 r =
        unfold post_items in
        posted-IsStored headers raw_body s r
          (authenticate_ingest h sha256 tolerance headers raw_body s) given e in
      stored_answers later later_body q.1 r k feed given' kept auth p
