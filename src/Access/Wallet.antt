-- ===== src/Access/Wallet.antt =====
-- packages/shared/src/auth/wallet.ts and the routes of the wallet login, apps/web/app/api/v1/auth/
-- wallet: a nonce is issued for an address, and a signature of its message, once, opens a session.
-- Keys, signatures, hashes and base64 are given; a call that throws gives `none`.
pub mod Once
use xgamefi.Prelude.{
  ℕ, zero, suc, ◌+◌, ◌*◌, ◌≡◌, Bool, true, false, ◌&&◌, not, Option, none, some, List, [], ◌∷◌,
  ◌++◌, Text, codes, ltb, ◌==◌, find, find_last, update, count, is_some, any, if◌then◌else◌,
}
use xgamefi.Schema.{Uuid, Address, Player}
use xgamefi.Access.Guards.{Subject, player_subject}
use xgamefi.Access.Sessions.{KeyValues, Sessions, create_session}

pub record Challenge : Type 0 where
  pub id : Uuid
  pub wallet_address : Address
  pub nonce : Text
  pub expires_at : ℕ
  pub used_at : Option ℕ

-- `Keypair`, `createHash`, `Buffer.from(…, "base64")` and the text of an address.
pub record Keys (K : Type 0) : Type 0 where
  pub address_text : Address → Text
  pub from_public_key : Text → Option K
  pub verify : K → Text → Text → Option Bool
  pub sha256 : Text → Text
  pub from_base64 : Text → Text

abbrev pub challenge_ttl_ms : ℕ
challenge_ttl_ms = 5 * 60 * 1000

abbrev pub newline : Text
newline = 10 ∷ []

module _ {K : Type 0} (k : Keys K) where
  unfoldable pub challenge_message : Address → Text → Text
  challenge_message a nonce =
      codes "xGameFi login"
      ++ newline
      ++ codes "address: "
      ++ k.address_text a
      ++ newline
      ++ codes "nonce: "
      ++ nonce

  abbrev pub sep53_hash : Text → Text
  sep53_hash message = k.sha256 (codes "Stellar Signed Message:" ++ newline ++ message)

  -- The hash of the message first, then the message itself; a throw counts as a refusal.
  abbrev pub raw_signature : Option Bool → Option Bool → Bool
  raw_signature none raw = false
  raw_signature (some true) raw = true
  raw_signature (some false) none = false
  raw_signature (some false) (some b) = b

  abbrev pub signed_with : Option K → Text → Text → Bool
  signed_with none message signature = false
  signed_with (some key) message signature =
      raw_signature (k.verify key (sep53_hash message) signature) (k.verify key message signature)

  unfoldable pub verify_wallet_signature : Address → Text → Text → Bool
  verify_wallet_signature a nonce signature =
      signed_with (k.from_public_key (k.address_text a)) (challenge_message a nonce)
        (k.from_base64 signature)

-- The handler of `auth/wallet/challenge` after its checks; `id` is the key of the new row.
unfoldable pub issue_challenge : Uuid → Text → Address → ℕ → List Challenge → List Challenge
issue_challenge id nonce a now rows =
    rows
    ++ record {
      id = id;
      wallet_address = a;
      nonce = nonce;
      expires_at = now + challenge_ttl_ms;
      used_at = none;
    }
      ∷ []

abbrev pub open_for : Address → ℕ → Challenge → Bool
open_for a now r = (r.wallet_address == a) && not (is_some r.used_at) && ltb now r.expires_at

abbrev pub unused : Uuid → Challenge → Bool
unused id r = (r.id == id) && not (is_some r.used_at)

unfoldable pub find_challenge : Address → ℕ → List Challenge → Option Challenge
find_challenge a now rows = find_last (open_for a now) rows

-- The claim of a challenge, one statement of the database: how many rows it changed.
unfoldable pub claim : Uuid → ℕ → List Challenge → ℕ × List Challenge
claim id now rows =
    (count (unused id) rows, update (unused id) (λ r. record r { used_at = some now }) rows)

-- `upsert` by the address.
abbrev pub upserted : Uuid → Address → Option Player → List Player → Player × List Player
upserted id a none players =
    let p : Player = record { id = id; wallet_address = a } in (p, players ++ p ∷ [])
upserted id a (some p) players = (p, players)

abbrev pub upsert_player : Uuid → Address → List Player → Player × List Player
upsert_player id a players = upserted id a (find (λ p. p.wallet_address == a) players) players

pub record Login (R : Type 0) : Type 0 where
  pub challenges : List Challenge
  pub players : List Player
  pub sessions : Sessions R

-- The request, and what its calls draw: the time, a key for a new player, a session id.
pub record VerifyRequest : Type 0 where
  pub wallet_address : Address
  pub signature : Text
  pub user_agent : Text
  pub ip : Text
  pub now : ℕ
  pub player_id : Uuid
  pub session_id : Text

pub data Response : Type 0 where
  logged_in : Uuid → Address → Response
  invalid_signature : Response

module _ {R K : Type 0} (c : KeyValues R Subject) (hash_token : Text → Text) (k : Keys K) where
  abbrev pub open_session : VerifyRequest → Player × List Player → Login R → Response × Login R
  open_session q (p, players) s = (
    logged_in p.id p.wallet_address,
    record s {
      players = players;
      sessions =
          create_session c hash_token q.session_id (player_subject p.id) q.user_agent q.ip q.now
            s.sessions;
    },
  )

  abbrev pub claimed : VerifyRequest → ℕ × List Challenge → Login R → Response × Login R
  claimed q (zero, rows) s = (invalid_signature, record s { challenges = rows })
  claimed q (suc n, rows) s =
      open_session q (upsert_player q.player_id q.wallet_address s.players)
        (record s { challenges = rows })

  abbrev pub challenged : VerifyRequest → Option Challenge → Login R → Response × Login R
  challenged q none s = (invalid_signature, s)
  challenged q (some r) s =
      if verify_wallet_signature k q.wallet_address r.nonce q.signature
      then claimed q (claim r.id q.now s.challenges) s
      else (invalid_signature, s)

  -- The handler of `auth/wallet/verify` after its checks, when nothing runs between its calls.
  unfoldable pub wallet_verify : VerifyRequest → Login R → Response × Login R
  wallet_verify q s = challenged q (find_challenge q.wallet_address q.now s.challenges) s
