-- ===== src/Ingest/Keys.antt =====
-- The life of a key: it is accepted once issued, and not after it is revoked.
use xgamefi.Prelude.{
  ℕ, ◌≡◌, ◌≢◌, inl, inr, refl, ap, arith, true, Bool-cases, ◌&&◌, Option, none, some, List, [], ◌∷◌,
  ◌++◌, Text, codes, length, find, update, text_eq, text_eq_refl, ◌==◌, ==_refl,
}
use xgamefi.Schema.{Uuid}
use xgamefi.Access.Guards.{Accounts, Subject, Principal, Access, granted, refused, require_studio}
use xgamefi.Routes.StudioPatch.{replied}
use xgamefi.Signatures.{Hmac, from_hex}
use xgamefi.Ingest.{
  ApiKey, Headers, State, authentic, generate_api_key, verify_api_key, revoke, revoke_found,
  revoke_by, revoke_api_key, is_live, authenticate_ingest,
}
use xgamefi.Ingest.Pushed.{authenticate_ingest-IsAuthentic}

-- A generated key is verified by its hash.
verify_api_key-generate_api_key :
    (h : Hmac) (sha256 : Text → Text) (random : Text)
    → let g = generate_api_key h sha256 random in verify_api_key h sha256 g.raw g.hashed_key ≡ true
unfolding verify_api_key generate_api_key
verify_api_key-generate_api_key h sha256 random =
    let bytes = from_hex (sha256 (codes "xgk_" ++ random)) in
    rw (==_refl (length bytes), text_eq_refl bytes)

-- A live row is not one that was revoked.
find-revoked :
    (hash : Text) (key_id : Uuid) (now : ℕ) (rows : List ApiKey) (k : ApiKey)
    → find (is_live hash) (update (λ r. r.id == key_id) (revoke now) rows) ≡ some k
    → k.id ≢ key_id
unfolding find update
find-revoked hash key_id now [] k e = cc
find-revoked hash key_id now (r ∷ rows) k e = elim (Bool-cases (r.id == key_id)) [
  | inl y ↦ elim (Bool-cases (text_eq r.hashed_key hash)) [
    | inl t ↦ find-revoked hash key_id now rows k (rw (y, t) at e)
    | inr n ↦ find-revoked hash key_id now rows k (rw (y, n) at e)
  ]
  | inr n ↦ elim (Bool-cases (is_live hash r)) [
    | inl live ↦
        let is_new : r ≡ k = cc (rw (n, live) at e) in
        λ same. absurd (ground (arith, ap (λ a. a.id) is_new))
    | inr dead ↦ find-revoked hash key_id now rows k (rw (n, dead) at e)
  ]
]

revoked_rows :
    (a : Accounts) (session : Option Subject) (i key_id : Uuid) (s : State) (k : ApiKey)
    → (revoke_api_key a session i key_id s).0 ≡ replied k
    → (revoke_api_key a session i key_id s).1.api_keys
      ≡ update (λ r. r.id == key_id) (revoke s.world.now) s.api_keys
unfolding revoke_api_key
revoked_rows a session i key_id s k e = by (require_studio a session i) e
  where
    found :
        (row : Option ApiKey)
        → (revoke_found key_id row s).0 ≡ replied k
        → (revoke_found key_id row s).1.api_keys
          ≡ update (λ r. r.id == key_id) (revoke s.world.now) s.api_keys
    found none f = cc
    found (some r) f = refl

    by :
        (q : Access Principal)
        → (revoke_by i key_id q s).0 ≡ replied k
        → (revoke_by i key_id q s).1.api_keys
          ≡ update (λ r. r.id == key_id) (revoke s.world.now) s.api_keys
    by (refused n code) f = cc
    by (granted p) f = found (find (λ r. r.id == key_id && r.studio_id == i) s.api_keys) f

-- After a revocation that was answered with the row, no request is authentic by that key, whatever
-- its headers and its body.
pub revoke_api_key-refused :
    (h : Hmac) (sha256 : Text → Text) (tolerance : ℕ) (a : Accounts) (session : Option Subject)
    (i key_id : Uuid) (s : State) (k j : ApiKey) (headers : Headers) (raw_body : Text)
    → (revoke_api_key a session i key_id s).0 ≡ replied k
    → authenticate_ingest h sha256 tolerance headers raw_body
        (revoke_api_key a session i key_id s).1
      ≡ authentic j
    → j.id ≢ key_id
revoke_api_key-refused h sha256 tolerance a session i key_id s k j headers raw_body e auth =
    let s' = (revoke_api_key a session i key_id s).1 in
    let q = authenticate_ingest-IsAuthentic h sha256 tolerance headers raw_body s' j auth in
    find-revoked (sha256 q.key) key_id s.world.now s.api_keys j
      (rw (revoked_rows a session i key_id s k e) at q.found)
