-- ===== src/Ingest/Tests.antt =====
-- A studio's owner issues a key, the studio's server pushes a catalogue with it, and the owner
-- revokes it.
use xgamefi.Prelude.{
  ◌≡◌, refl, some, Option, List, [], ◌∷◌, ◌++◌, Text, codes, text_eq, find, count, update, number,
  span, strip_prefix, all_are, decimal,
}
use xgamefi.World.{RemoteItem}
use xgamefi.Access.Guards.{user_subject, require_studio, get_principal, scope_to_studio}
use xgamefi.Access.Samples.{accounts}
use xgamefi.Signatures.{
  sign_webhook, verify_hmac, compute, match_header, trim_start, trim_end, from_hex,
}
use xgamefi.Signatures.Samples.{sums}
use xgamefi.Catalogue.{upsert_catalogue_items, upsert_rows, upsert_row, sync_rows, fits}
use xgamefi.Ingest.{
  Headers, State, items_replied, unauthorized, generate_api_key, issue_api_key, revoke_api_key,
  authenticate_ingest, post_items,
}
use xgamefi.Ingest.Pushed.{Pushes, post_items-Pushes}
use xgamefi.Samples.{world, external, shield}

abbrev sha256 : Text → Text
sha256 t = codes "#" ++ t

abbrev read_items : Text → Option (List RemoteItem)
read_items t = some (shield ∷ [])

abbrev empty : State
empty = record { world = world; api_keys = []; responses = [] }

abbrev issued : State
issued =
    (issue_api_key sums sha256 accounts (some (user_subject 5)) (codes "abc") (codes "ingest" ∷ [])
      91 1 empty).1

abbrev body : Text
body = codes "[shield]"

abbrev raw_key : Text
raw_key = codes "xgk_abc"

abbrev headers : Headers
headers = record {
  key = some raw_key;
  signature = some (sign_webhook sums raw_key 1 (codes "1." ++ body));
  timestamp = some (codes "1");
  idempotency_key = some (codes "first");
}

abbrev pushed : State
pushed = (post_items sums sha256 300 read_items external headers body issued).1

push_run :
    (post_items sums sha256 300 read_items external headers body issued).0 ≡ items_replied (1, 1)
unfolding issue_api_key generate_api_key require_studio get_principal scope_to_studio post_items
    authenticate_ingest verify_hmac sign_webhook compute match_header trim_start trim_end from_hex
    decimal number span strip_prefix all_are text_eq find upsert_catalogue_items upsert_rows
    upsert_row sync_rows fits update count
push_run = refl

revoked_run :
    (post_items sums sha256 300 read_items external headers body
      (revoke_api_key accounts (some (user_subject 5)) 1 91 issued).1).0
    ≡ unauthorized
unfolding issue_api_key revoke_api_key generate_api_key require_studio get_principal scope_to_studio
    post_items authenticate_ingest sign_webhook text_eq find update
revoked_run = refl

post_items-Pushes_example :
    Pushes sums sha256 300 read_items external headers body issued
      (post_items sums sha256 300 read_items external headers body issued)
post_items-Pushes_example =
    post_items-Pushes sums sha256 300 read_items external headers body issued
