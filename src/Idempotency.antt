-- ===== src/Idempotency.antt =====
-- packages/shared/src/idempotency.ts: `withIdempotency`, which runs a request once for a key and
-- answers a repetition with the stored response. The request itself is a parameter, a step on a
-- state of its own that gives a response or throws. The lock of the source expires after thirty
-- seconds; here a request ends before that.
mod Tests
use xgamefi.Prelude.{
  ◌≡◌, ◌≢◌, ◌⊎◌, inl, inr, refl, arith, ap, Bool, true, false, not, Option, none, some, List, [],
  ◌∷◌, ◌++◌, Text, codes, find, text_eq, text_eq_refl, text_eq_sound, Bool-cases, Option-cases,
  if◌then◌else◌,
}

-- The two commands of Redis that the lock uses, and what they promise: `SET … NX` succeeds just
-- when the key is not held, and a key that was deleted is not held.
pub record Locks (R : Type 0) : Type 0 where
  pub set_nx : Text → R → Bool × R
  pub del : Text → R → R
  pub held : Text → R → Bool
  pub set_nx-held : (k : Text) (r : R) → (set_nx k r).0 ≡ not (held k r)
  pub del-held : (k : Text) (r : R) → held k (del k r) ≡ false

pub record RequestArgs : Type 0 where
  pub key : Text
  pub scope : Text
  pub request_hash : Text

pub record IdempotencyKey (T : Type 0) : Type 0 where
  pub key : Text
  pub scope : Text
  pub request_hash : Text
  pub response_snapshot : T

-- The state: Redis, the table, and the state of the request.
pub record Store (R T S : Type 0) : Type 0 where
  pub redis : R
  pub rows : List (IdempotencyKey T)
  pub state : S

pub data Outcome (T : Type 0) : Type 0 where
  returned : T → Outcome T
  in_progress : Outcome T
  key_conflict : Outcome T
  request_failed : Outcome T

abbrev pub lock_key : RequestArgs → Text
lock_key a = codes "idempotency-lock:" ++ a.scope ++ codes ":" ++ a.key

abbrev pub find_key : {T : Type 0} → Text → List (IdempotencyKey T) → Option (IdempotencyKey T)
find_key k rows = find (λ r. text_eq r.key k) rows

module _ {R T S : Type 0} where
  -- After the request: its response is stored, unless it threw.
  abbrev pub store_response : RequestArgs → Store R T S → Option T × S → Outcome T × Store R T S
  store_response a s (none, state) = (request_failed, record s { state = state })
  store_response a s (some t, state) = (
    returned t,
    record s {
      state = state;
      rows =
          s.rows
          ++ record {
            key = a.key;
            scope = a.scope;
            request_hash = a.request_hash;
            response_snapshot = t;
          }
            ∷ [];
    },
  )

  -- The body of the `try`.
  abbrev pub answer :
      RequestArgs
      → (S → Option T × S)
      → Option (IdempotencyKey T)
      → Store R T S
      → Outcome T × Store R T S
  answer a fn none s = store_response a s (fn s.state)
  answer a fn (some row) s =
      if text_eq row.request_hash a.request_hash
      then (returned row.response_snapshot, s)
      else (key_conflict, s)

  -- The `finally`.
  abbrev pub release : Locks R → RequestArgs → Outcome T × Store R T S → Outcome T × Store R T S
  release l a (o, s) = (o, record s { redis = l.del (lock_key a) s.redis })

  abbrev pub with_lock :
      Locks R → RequestArgs → (S → Option T × S) → Bool × R → Store R T S → Outcome T × Store R T S
  with_lock l a fn (false, r) s = (in_progress, record s { redis = r })
  with_lock l a fn (true, r) s =
      release l a (answer a fn (find_key a.key s.rows) (record s { redis = r }))

  unfoldable pub with_idempotency :
      Locks R → RequestArgs → (S → Option T × S) → Store R T S → Outcome T × Store R T S
  with_idempotency l a fn s = with_lock l a fn (l.set_nx (lock_key a) s.redis) s

  -- What a stored key leaves to a later call: the row that is found has the hash and the response.
  abbrev pub IsStored : RequestArgs → T → Store R T S → Type 0
  IsStored a t s =
      (row : IdempotencyKey T) × (find_key a.key s.rows ≡ some row)
      × (text_eq row.request_hash a.request_hash ≡ true)
      × (row.response_snapshot ≡ t)

pub find-append_none :
    {A : Type 0} (p : A → Bool) (xs : List A) (a : A)
    → find p xs ≡ none
    → p a ≡ true
    → find p (xs ++ a ∷ []) ≡ some a
unfolding find
find-append_none p [] a h pa = rw pa
find-append_none p (x ∷ xs) a h pa = ground (arith, find-append_none p xs a)

module _ {R T S : Type 0} (l : Locks R) (a : RequestArgs) where
  store_response-IsStored :
      (q : Option T × S) (s : Store R T S) (t : T)
      → find_key a.key s.rows ≡ none
      → (store_response a s q).0 ≡ returned t
      → IsStored a t (store_response a s q).1
  store_response-IsStored (none, state) s t f e = cc
  store_response-IsStored (some u, state) s t f e = (
    _,
    find-append_none (λ r. text_eq r.key a.key) s.rows _ f (text_eq_refl a.key),
    text_eq_refl a.request_hash,
    cc,
  )

  answer-IsStored :
      (fn : S → Option T × S) (row : Option (IdempotencyKey T)) (s : Store R T S) (t : T)
      → find_key a.key s.rows ≡ row
      → (answer a fn row s).0 ≡ returned t
      → IsStored a t (answer a fn row s).1
  answer-IsStored fn none s t f e = store_response-IsStored (fn s.state) s t f e
  answer-IsStored fn (some row) s t f e =
      elim (Bool-cases (text_eq row.request_hash a.request_hash)) [
        | inl same ↦ rw same (row, f, same, cc (rw same at e))
        | inr differs ↦ cc (rw differs at e)
      ]

  locked-IsStored :
      (fn : S → Option T × S) (g : Bool × R) (s : Store R T S) (t : T)
      → (with_lock l a fn g s).0 ≡ returned t
      → IsStored a t (with_lock l a fn g s).1
        × (l.held (lock_key a) (with_lock l a fn g s).1.redis ≡ false)
  locked-IsStored fn (false, r) s t e = cc
  locked-IsStored fn (true, r) s t e = (
    answer-IsStored fn (find_key a.key s.rows) (record s { redis = r }) t refl e,
    l.del-held (lock_key a) _,
  )

  -- A call whose lock is free and whose key is stored.
  replayed :
      (fn : S → Option T × S) (b : RequestArgs) (g : Bool × R) (s : Store R T S)
      (row : IdempotencyKey T)
      → g.0 ≡ true
      → find_key b.key s.rows ≡ some row
      → ((with_lock l b fn g s).0 ≡ (
          if text_eq row.request_hash b.request_hash
          then returned row.response_snapshot
          else key_conflict))
        × ((with_lock l b fn g s).1.rows ≡ s.rows)
        × ((with_lock l b fn g s).1.state ≡ s.state)
  replayed fn b (false, r) s row free f = cc
  replayed fn b (true, r) s row free f =
      elim (Bool-cases (text_eq row.request_hash b.request_hash)) [
        | inl same ↦ rw f (rw same (refl, refl, refl))
        | inr differs ↦ rw f (rw differs (refl, refl, refl))
      ]

  -- Once a request has answered, a call with the same key and the same request hash gives the same
  -- answer, and one with another hash is a conflict: neither runs a request, whatever it is, and
  -- the table stays as it is.
  pub with_idempotency_again :
      (fn again : S → Option T × S) (s : Store R T S) (t : T) (other : Text)
      → (with_idempotency l a fn s).0 ≡ returned t
      → text_eq a.request_hash other ≡ false
      → let s' = (with_idempotency l a fn s).1 in
        let same = with_idempotency l a again s' in
        let differs = with_idempotency l (record a { request_hash = other }) again s' in
        ((same.0 ≡ returned t) × (same.1.rows ≡ s'.rows) × (same.1.state ≡ s'.state))
        × ((differs.0 ≡ key_conflict) × (differs.1.rows ≡ s'.rows) × (differs.1.state ≡ s'.state))
  unfolding with_idempotency
  with_idempotency_again fn again s t other e ne =
      let s' = (with_lock l a fn (l.set_nx (lock_key a) s.redis) s).1 in
      let (stored, free) = locked-IsStored fn (l.set_nx (lock_key a) s.redis) s t e in
      let (row, found, hash, response) = stored in
      let open_lock : (l.set_nx (lock_key a) s'.redis).0 ≡ true =
        rw (l.set_nx-held (lock_key a) s'.redis, free) in
      let b = record a { request_hash = other } in
      let g = l.set_nx (lock_key a) s'.redis in
      let (x, xr, xs) = replayed again a g s' row open_lock found in
      let (y, yr, ys) = replayed again b g s' row open_lock found in
      let apart : text_eq row.request_hash other ≡ false =
        rw (text_eq_sound row.request_hash a.request_hash hash) ne in
      ((rw x (rw (hash, response)), xr, xs), (rw y (rw apart), yr, ys))
