-- ===== src/Ingest.antt =====
-- The catalogue that a studio's server pushes: packages/shared/src/apikey.ts,
-- apps/web/lib/ingest-auth.ts, apps/web/app/api/v1/ingest/items/route.ts, and the issue and the
-- revocation of keys under apps/web/app/api/v1/studios/[id]/api-keys. The audit log is not part of
-- the state, and a `DELETE` answers with the row. SHA-256, random bytes, and what JSON and the
-- schema make of a body are parameters.
pub mod Pushed
pub mod Keys
pub mod Again
mod Tests
use xgamefi.Prelude.{
  ℕ, Bool, true, false, not, ◌&&◌, Option, none, some, List, [], ◌∷◌, ◌++◌, Text, codes, take, find,
  update, text_eq, is_some, or_else, ◌==◌, if◌then◌else◌,
}
use xgamefi.Schema.{Uuid}
use xgamefi.World.{World, External, RemoteItem, Result, ok, err, Failure, write_failed}
use xgamefi.Promotions.{truthy}
use xgamefi.Access.Guards.{Accounts, Subject, Principal, Access, granted, refused, require_studio}
use xgamefi.Routes.StudioPatch.{Reply, replied, failed}
use xgamefi.Signatures.{Hmac, verify_hmac, from_hex, same_bytes}
use xgamefi.Idempotency.{IdempotencyKey, find_key}
use xgamefi.Catalogue.{upsert_catalogue_items}

pub record ApiKey : Type 0 where
  pub id : Uuid
  pub studio_id : Uuid
  pub key_prefix : Text
  pub hashed_key : Text
  pub scopes : List Text
  pub revoked_at : Option ℕ

pub record Headers : Type 0 where
  pub key : Option Text
  pub signature : Option Text
  pub timestamp : Option Text
  pub idempotency_key : Option Text

pub record State : Type 0 where
  pub world : World
  pub api_keys : List ApiKey
  pub responses : List (IdempotencyKey (ℕ × ℕ))

pub data AuthError : Type 0 where
  missing_headers invalid_key invalid_signature : AuthError

pub data Auth : Type 0 where
  authentic : ApiKey → Auth
  unauthentic : AuthError → Auth

pub data PushReply : Type 0 where
  items_replied : ℕ × ℕ → PushReply
  unauthorized invalid_payload : PushReply
  push_failed : Failure → PushReply

pub record GeneratedKey : Type 0 where
  pub raw : Text
  pub prefix : Text
  pub hashed_key : Text

abbrev pub api_key_prefix : Text → Text
api_key_prefix raw = take 12 raw

-- The key of the schema and not revoked.
abbrev pub is_live : Text → ApiKey → Bool
is_live hash k = text_eq k.hashed_key hash && not (is_some k.revoked_at)

module _ (h : Hmac) (sha256 : Text → Text) where
  -- `random` is `randomBytes(32).toString("base64url")`.
  unfoldable pub generate_api_key : Text → GeneratedKey
  generate_api_key random =
      let raw = codes "xgk_" ++ random in
      record { raw = raw; prefix = api_key_prefix raw; hashed_key = sha256 raw }

  unfoldable pub verify_api_key : Text → Text → Bool
  verify_api_key raw hashed_key = same_bytes h (from_hex (sha256 raw)) (from_hex hashed_key)

  -- The raw secret and its hash.
  unfoldable pub generate_webhook_secret : Text → Text × Text
  generate_webhook_secret random = let raw = codes "whsec_" ++ random in (raw, sha256 raw)

  -- `POST` of api-keys, which shows the raw key once.
  abbrev pub issue_by :
      Text → List Text → Uuid → Uuid → Access Principal → State → Reply (ApiKey × Text) × State
  issue_by random scopes id i (refused n code) s = (failed n, s)
  issue_by random scopes id i (granted p) s =
      let generated = generate_api_key random in
      let row : ApiKey = record {
        id = id;
        studio_id = i;
        key_prefix = generated.prefix;
        hashed_key = generated.hashed_key;
        scopes = scopes;
        revoked_at = none;
      } in
      (replied (row, generated.raw), record s { api_keys = s.api_keys ++ row ∷ [] })

  unfoldable pub issue_api_key :
      Accounts
      → Option Subject
      → Text
      → List Text
      → Uuid
      → Uuid
      → State
      → Reply (ApiKey × Text) × State
  issue_api_key a session random scopes id i s =
      issue_by random scopes id i (require_studio a session i) s

abbrev pub revoke : ℕ → ApiKey → ApiKey
revoke now k = record k { revoked_at = some now }

abbrev pub revoke_found : Uuid → Option ApiKey → State → Reply ApiKey × State
revoke_found key_id none s = (failed 404, s)
revoke_found key_id (some k) s = (
  replied (revoke s.world.now k),
  record s { api_keys = update (λ r. r.id == key_id) (revoke s.world.now) s.api_keys },
)

abbrev pub revoke_by : Uuid → Uuid → Access Principal → State → Reply ApiKey × State
revoke_by i key_id (refused n code) s = (failed n, s)
revoke_by i key_id (granted p) s =
    revoke_found key_id (find (λ r. r.id == key_id && r.studio_id == i) s.api_keys) s

-- `DELETE` of api-keys/[keyId].
unfoldable pub revoke_api_key :
    Accounts → Option Subject → Uuid → Uuid → State → Reply ApiKey × State
revoke_api_key a session i key_id s = revoke_by i key_id (require_studio a session i) s

module _ (h : Hmac) (sha256 : Text → Text) (tolerance : ℕ) where
  abbrev pub signed_by : Text → Text → Text → ℕ → Option ApiKey → Auth
  signed_by key signature text now none = unauthentic invalid_key
  signed_by key signature text now (some k) =
      if verify_hmac h key signature text tolerance now
      then authentic k
      else unauthentic invalid_signature

  unfoldable pub authenticate_ingest : Headers → Text → State → Auth
  authenticate_ingest headers raw_body s =
      let presented_key = or_else headers.key [] in
      let text = or_else headers.timestamp [] ++ b'.' ∷ raw_body in
      if not (truthy headers.key && truthy headers.signature && truthy headers.timestamp)
      then unauthentic missing_headers
      else signed_by presented_key (or_else headers.signature []) text s.world.now
          (find (is_live (sha256 presented_key)) s.api_keys)

  module _ (read_items : Text → Option (List RemoteItem)) (x : External) where
    abbrev pub response_row : Text → Text → ℕ × ℕ → IdempotencyKey (ℕ × ℕ)
    response_row key raw_body r = record {
      key = key;
      scope = codes "ingest:items";
      request_hash = sha256 raw_body;
      response_snapshot = r;
    }

    abbrev pub with_response :
        Option Text → Text → ℕ × ℕ → List (IdempotencyKey (ℕ × ℕ)) → List (IdempotencyKey (ℕ × ℕ))
    with_response idem_key raw_body r rows =
        if truthy idem_key then rows ++ response_row (or_else idem_key []) raw_body r ∷ [] else rows

    abbrev pub stored : Option Text → Text → State → Result (ℕ × ℕ) × World → PushReply × State
    stored idem_key raw_body s (ok r, w) =
        if truthy idem_key && not (x.writes w)
        then (push_failed write_failed, record s { world = w })
        else (
          items_replied r,
          record s { world = w; responses = with_response idem_key raw_body r s.responses },
        )
    stored idem_key raw_body s (err e, w) = (push_failed e, record s { world = w })

    abbrev pub once :
        ApiKey
        → List RemoteItem
        → Option Text
        → Text
        → State
        → Option (IdempotencyKey (ℕ × ℕ))
        → PushReply × State
    once k feed idem_key raw_body s (some row) = (items_replied row.response_snapshot, s)
    once k feed idem_key raw_body s none =
        stored idem_key raw_body s (upsert_catalogue_items x k.studio_id feed s.world)

    abbrev pub known : Option Text → List (IdempotencyKey (ℕ × ℕ)) → Option (IdempotencyKey (ℕ × ℕ))
    known idem_key rows = if truthy idem_key then find_key (or_else idem_key []) rows else none

    abbrev pub parsed :
        ApiKey → Option Text → Text → State → Option (List RemoteItem) → PushReply × State
    parsed k idem_key raw_body s none = (invalid_payload, s)
    parsed k idem_key raw_body s (some feed) =
        once k feed idem_key raw_body s (known idem_key s.responses)

    abbrev pub posted : Headers → Text → State → Auth → PushReply × State
    posted headers raw_body s (unauthentic e) = (unauthorized, s)
    posted headers raw_body s (authentic k) =
        parsed k headers.idempotency_key raw_body s (read_items raw_body)

    -- `POST` of ingest/items.
    unfoldable pub post_items : Headers → Text → State → PushReply × State
    post_items headers raw_body s =
        posted headers raw_body s (authenticate_ingest headers raw_body s)
