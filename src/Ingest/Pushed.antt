-- ===== src/Ingest/Pushed.antt =====
-- What a push has shown and done when it is answered, and what a repetition of it does.
use xgamefi.Prelude.{
  ℕ, ◌≡◌, ◌⊎◌, inl, inr, refl, ap, arith, true, Bool-cases, Option-cases, ◌&&◌, Option, none, some,
  List, ◌∷◌, ◌++◌, Text, length, not, find, find-accepts, text_eq,
}
use xgamefi.World.{World, External, RemoteItem, Result, ok, err}
use xgamefi.Promotions.{truthy}
use xgamefi.Signatures.{Hmac, verify_hmac}
use xgamefi.Idempotency.{IdempotencyKey}
use xgamefi.Catalogue.{upsert_catalogue_items}
use xgamefi.Catalogue.Synced.{IsSynced, Syncs, upsert_catalogue_items-Syncs}
use xgamefi.Ingest.{
  ApiKey, Headers, State, Auth, authentic, unauthentic, PushReply, items_replied, unauthorized,
  invalid_payload, push_failed, is_live, signed_by, authenticate_ingest, stored, with_response,
  once, known, parsed, posted, post_items,
}

module _ (h : Hmac) (sha256 : Text → Text) (tolerance : ℕ) where
  -- The request carries a key of the studio that is not revoked, and a signature by that key of its
  -- timestamp and body, whose time lies within the tolerance of the clock.
  pub record IsAuthentic (headers : Headers) (raw_body : Text) (s : State) (k : ApiKey)
      : Type 0 where
    pub key : Text
    pub signature : Text
    pub timestamp : Text
    pub key_given : headers.key ≡ some key
    pub signature_given : headers.signature ≡ some signature
    pub timestamp_given : headers.timestamp ≡ some timestamp
    pub found : find (is_live (sha256 key)) s.api_keys ≡ some k
    pub hashed : text_eq k.hashed_key (sha256 key) ≡ true
    pub live : k.revoked_at ≡ none
    pub signed :
        verify_hmac h key signature (timestamp ++ b'.' ∷ raw_body) tolerance s.world.now ≡ true

  abbrev Given : Option Text → Type 0
  Given o = (t : Text) × (o ≡ some t)

  truthy-Given : (o : Option Text) → truthy o ≡ true → Given o
  truthy-Given none e = cc
  truthy-Given (some t) e = (t, refl)

  live_lem :
      (hash : Text) (k : ApiKey)
      → is_live hash k ≡ true
      → (text_eq k.hashed_key hash ≡ true) × (k.revoked_at ≡ none)
  live_lem hash k e = elim (Bool-cases (text_eq k.hashed_key hash)) [
    | inr n ↦ cc (rw n at e)
    | inl y ↦ elim (Option-cases k.revoked_at) [
      | inl never ↦ (y, never)
      | inr (t, at) ↦ cc (rw (y, at) at e)
    ]
  ]

  signed-IsAuthentic :
      (headers : Headers) (raw_body : Text) (s : State) (k : ApiKey)
      (key signature timestamp : Text) (row : Option ApiKey)
      → headers.key ≡ some key
      → headers.signature ≡ some signature
      → headers.timestamp ≡ some timestamp
      → find (is_live (sha256 key)) s.api_keys ≡ row
      → signed_by h sha256 tolerance key signature (timestamp ++ b'.' ∷ raw_body) s.world.now row
        ≡ authentic k
      → IsAuthentic headers raw_body s k
  signed-IsAuthentic headers raw_body s k key signature timestamp none gk gs gt f e = cc
  signed-IsAuthentic headers raw_body s k key signature timestamp (some r) gk gs gt f e =
      let text = timestamp ++ b'.' ∷ raw_body in
      elim (Bool-cases (verify_hmac h key signature text tolerance s.world.now)) [
        | inr n ↦ cc (rw n at e)
        | inl y ↦
            let same : r ≡ k = cc (rw y at e) in
            let found : find (is_live (sha256 key)) s.api_keys ≡ some k = rw f (ap some same) in
            let (hashed, live) =
              live_lem (sha256 key) k (find-accepts (is_live (sha256 key)) s.api_keys k found) in
            record {
              key = key;
              signature = signature;
              timestamp = timestamp;
              key_given = gk;
              signature_given = gs;
              timestamp_given = gt;
              found = found;
              hashed = hashed;
              live = live;
              signed = y;
            }
      ]

  pub authenticate_ingest-IsAuthentic :
      (headers : Headers) (raw_body : Text) (s : State) (k : ApiKey)
      → authenticate_ingest h sha256 tolerance headers raw_body s ≡ authentic k
      → IsAuthentic headers raw_body s k
  unfolding authenticate_ingest
  authenticate_ingest-IsAuthentic headers raw_body s k e =
      elim (Bool-cases
        (truthy headers.key && truthy headers.signature && truthy headers.timestamp)) [
          | inr n ↦ cc (rw n at e)
          | inl y ↦
              let (key, gk) = truthy-Given headers.key (ground arith) in
              let (signature, gs) = truthy-Given headers.signature (ground arith) in
              let (timestamp, gt) = truthy-Given headers.timestamp (ground arith) in
              signed-IsAuthentic headers raw_body s k key signature timestamp
                (find (is_live (sha256 key)) s.api_keys) gk gs gt refl
                (rw (gk, gs, gt) at (rw y at e))
        ]

  module _ (read_items : Text → Option (List RemoteItem)) (x : External) where
    -- The stored response that a push is answered with.
    abbrev recalled : Option Text → List (IdempotencyKey (ℕ × ℕ)) → Option (IdempotencyKey (ℕ × ℕ))
    recalled = known h sha256 tolerance read_items x

    -- The items of the key's studio are synchronized with the body, of which the first count of an
    -- answer is the length, the rest of the database and the keys are as before, and `responses` is
    -- what the table of responses holds.
    pub record IsPushed (k : ApiKey) (feed : List RemoteItem)
        (responses : List (IdempotencyKey (ℕ × ℕ))) (s s' : State) : Type 0 where
      pub synced : IsSynced k.studio_id s.world.now feed s.world.db.items s'.world.db.items
      pub only_items : s'.world.db ≡ record s.world.db { items = s'.world.db.items }
      pub keys_kept : s'.api_keys ≡ s.api_keys
      pub kept : s'.responses ≡ responses

    -- The push was answered before.
    abbrev pub IsRepeated : Headers → ℕ × ℕ → State → State → Type 0
    IsRepeated headers r s s' =
        (row : IdempotencyKey (ℕ × ℕ)) × (recalled headers.idempotency_key s.responses ≡ some row)
        × (row.response_snapshot ≡ r)
        × (s' ≡ s)

    -- The push is authentic, and its body is that catalogue.
    abbrev pub IsAccepted : Headers → Text → State → ApiKey → List RemoteItem → Type 0
    IsAccepted headers raw_body s k feed =
        IsAuthentic headers raw_body s k × (read_items raw_body ≡ some feed)

    -- How a push may end, from `s` to `s'`.
    abbrev pub Pushes : Headers → Text → State → PushReply × State → Type 0
    Pushes headers raw_body s (items_replied r, s') =
        (k : ApiKey) × (feed : List RemoteItem) × IsAccepted headers raw_body s k feed
        × (IsRepeated headers r s s'
            ⊎ (IsPushed k feed
                  (with_response h sha256 tolerance read_items x headers.idempotency_key raw_body r
                    s.responses)
                  s s'
                × (r.0 ≡ length feed)))
    Pushes headers raw_body s (unauthorized, s') = s' ≡ s
    Pushes headers raw_body s (invalid_payload, s') = s' ≡ s
    Pushes headers raw_body s (push_failed e, s') =
        (k : ApiKey) × (feed : List RemoteItem) × IsAccepted headers raw_body s k feed
        × ((s' ≡ s) ⊎ IsPushed k feed s.responses s s')

    stored-Pushes :
        (headers : Headers) (raw_body : Text) (s : State) (k : ApiKey) (feed : List RemoteItem)
        (q : Result (ℕ × ℕ) × World)
        → IsAccepted headers raw_body s k feed
        → Syncs k.studio_id feed s.world q
        → Pushes headers raw_body s
            (stored h sha256 tolerance read_items x headers.idempotency_key raw_body s q)
    stored-Pushes headers raw_body s k feed (err e, w) a q =
        (k, feed, a, inl (ap (λ v. record s { world = v }) q))
    stored-Pushes headers raw_body s k feed (ok r, w) a (synced, counted, only_items) =
        elim (Bool-cases (truthy headers.idempotency_key && not (x.writes w))) [
          | inl lost ↦ rw lost (
            k,
            feed,
            a,
            inr (record {
              synced = synced;
              only_items = only_items;
              keys_kept = refl;
              kept = refl;
            }),
          )
          | inr written ↦ rw written (
            k,
            feed,
            a,
            inr (
              record { synced = synced; only_items = only_items; keys_kept = refl; kept = refl },
              counted,
            ),
          )
        ]

    once-Pushes :
        (headers : Headers) (raw_body : Text) (s : State) (k : ApiKey) (feed : List RemoteItem)
        (row : Option (IdempotencyKey (ℕ × ℕ)))
        → IsAccepted headers raw_body s k feed
        → recalled headers.idempotency_key s.responses ≡ row
        → Pushes headers raw_body s
            (once h sha256 tolerance read_items x k feed headers.idempotency_key raw_body s row)
    once-Pushes headers raw_body s k feed (some row) a f = (k, feed, a, inl (row, f, refl, refl))
    once-Pushes headers raw_body s k feed none a f =
        stored-Pushes headers raw_body s k feed (upsert_catalogue_items x k.studio_id feed s.world)
          a (upsert_catalogue_items-Syncs x k.studio_id feed s.world)

    parsed-Pushes :
        (headers : Headers) (raw_body : Text) (s : State) (k : ApiKey)
        (feed : Option (List RemoteItem))
        → IsAuthentic headers raw_body s k
        → read_items raw_body ≡ feed
        → Pushes headers raw_body s
            (parsed h sha256 tolerance read_items x k headers.idempotency_key raw_body s feed)
    parsed-Pushes headers raw_body s k none a p = refl
    parsed-Pushes headers raw_body s k (some feed) a p =
        let row = recalled headers.idempotency_key s.responses in
        once-Pushes headers raw_body s k feed row (a, p) refl

    posted-Pushes :
        (headers : Headers) (raw_body : Text) (s : State) (a : Auth)
        → authenticate_ingest h sha256 tolerance headers raw_body s ≡ a
        → Pushes headers raw_body s (posted h sha256 tolerance read_items x headers raw_body s a)
    posted-Pushes headers raw_body s (unauthentic e) p = refl
    posted-Pushes headers raw_body s (authentic k) p =
        parsed-Pushes headers raw_body s k (read_items raw_body)
          (authenticate_ingest-IsAuthentic headers raw_body s k p) refl

    -- A push is answered with its counts only if it carries a key that is issued and not revoked and
    -- a signature by that key of its timestamp and body, in time, and if the body has the form of a
    -- catalogue. Then the answer is one stored for its idempotency key and nothing has changed, or
    -- the items of the key's studio are synchronized with the body: the last entry of the body with
    -- an external id has its name, price, currency and stock in an active item, no active item is
    -- missing from the body, and no other studio's item, no other table and no key has changed, and
    -- the answer is stored where there is an idempotency key. A push that is refused has changed
    -- nothing. One that fails behind those checks has changed nothing, or has synchronized the items
    -- and not stored its answer.
    pub post_items-Pushes :
        (headers : Headers) (raw_body : Text) (s : State)
        → Pushes headers raw_body s (post_items h sha256 tolerance read_items x headers raw_body s)
    unfolding post_items
    post_items-Pushes headers raw_body s =
        posted-Pushes headers raw_body s (authenticate_ingest h sha256 tolerance headers raw_body s)
          refl
