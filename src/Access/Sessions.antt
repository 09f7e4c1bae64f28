-- ===== src/Access/Sessions.antt =====
-- apps/web/lib/auth/session.ts: sessions in Redis, with a row each in the database. The id of a
-- session is random and its hash is SHA-256: both are given. The subject is kept as JSON.
pub mod Backed
pub mod Revoked
use xgamefi.Prelude.{
  ℕ, ◌+◌, ◌*◌, ◌≡◌, ◌≢◌, Bool, ◌&&◌, not, Option, none, some, List, [], ◌∷◌, ◌++◌, Text, codes,
  text_eq, is_some, update,
}
use xgamefi.Access.Guards.{Subject}

-- The commands of Redis that keep a value under a key, and what they promise. A key that lapses is
-- gone, as if it was deleted.
pub record KeyValues (R T : Type 0) : Type 0 where
  pub set : Text → T → ℕ → R → R
  pub get : Text → R → Option T
  pub expire : Text → ℕ → R → R
  pub del : Text → R → R
  pub get-set : (k : Text) (v : T) (ttl : ℕ) (r : R) → get k (set k v ttl r) ≡ some v
  pub get-set_ne : (j k : Text) (v : T) (ttl : ℕ) (r : R) → j ≢ k → get j (set k v ttl r) ≡ get j r
  pub get-expire : (j k : Text) (ttl : ℕ) (r : R) → get j (expire k ttl r) ≡ get j r
  pub get-del : (k : Text) (r : R) → get k (del k r) ≡ none
  pub get-del_ne : (j k : Text) (r : R) → j ≢ k → get j (del k r) ≡ get j r

pub record SessionRow : Type 0 where
  pub token_hash : Text
  pub subject : Subject
  pub user_agent : Text
  pub ip : Text
  pub expires_at : ℕ
  pub revoked_at : Option ℕ

pub record Sessions (R : Type 0) : Type 0 where
  pub redis : R
  pub rows : List SessionRow

abbrev pub idle_ttl_sec : ℕ
idle_ttl_sec = 1800

abbrev pub session_key : Text → Text
session_key hash = codes "sess:" ++ hash

abbrev pub unrevoked : Text → SessionRow → Bool
unrevoked hash r = text_eq r.token_hash hash && not (is_some r.revoked_at)

-- What may happen to the sessions: a call of one of the three, or a key that lapses.
pub data Event : Type 0 where
  created : Text → Subject → Text → Text → ℕ → Event
  read : Text → ℕ → Event
  revoked : Text → ℕ → Event
  lapsed : Text → Event

module _ {R : Type 0} (c : KeyValues R Subject) (hash_token : Text → Text) where
  unfoldable pub create_session : Text → Subject → Text → Text → ℕ → Sessions R → Sessions R
  create_session session_id subject user_agent ip now s =
      let hash = hash_token session_id in
      record {
        redis = c.set (session_key hash) subject idle_ttl_sec s.redis;
        rows =
            s.rows
            ++ record {
              token_hash = hash;
              subject = subject;
              user_agent = user_agent;
              ip = ip;
              expires_at = now + idle_ttl_sec * 1000;
              revoked_at = none;
            }
              ∷ [];
      }

  -- The sliding refresh of a session that is there.
  abbrev pub refreshed : Text → ℕ → Option Subject → Sessions R → Option Subject × Sessions R
  refreshed hash now none s = (none, s)
  refreshed hash now (some subject) s = (
    some subject,
    record {
      redis = c.expire (session_key hash) idle_ttl_sec s.redis;
      rows =
          update (unrevoked hash) (λ r. record r { expires_at = now + idle_ttl_sec * 1000 }) s.rows;
    },
  )

  unfoldable pub read_session : Text → ℕ → Sessions R → Option Subject × Sessions R
  read_session session_id now s =
      let hash = hash_token session_id in refreshed hash now (c.get (session_key hash) s.redis) s

  unfoldable pub revoke_session : Text → ℕ → Sessions R → Sessions R
  revoke_session session_id now s =
      let hash = hash_token session_id in
      record {
        redis = c.del (session_key hash) s.redis;
        rows = update (unrevoked hash) (λ r. record r { revoked_at = some now }) s.rows;
      }

  unfoldable pub happen : Event → Sessions R → Sessions R
  happen (created session_id subject user_agent ip now) s =
      create_session session_id subject user_agent ip now s
  happen (read session_id now) s = (read_session session_id now s).1
  happen (revoked session_id now) s = revoke_session session_id now s
  happen (lapsed key) s = record s { redis = c.del key s.redis }

  unfoldable pub run : List Event → Sessions R → Sessions R
  run [] s = s
  run (e ∷ es) s = run es (happen e s)
