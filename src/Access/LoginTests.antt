-- ===== src/Access/LoginTests.antt =====
-- Sessions and the wallet login, with a function for Redis and keys that sign by prefixing.
use xgamefi.Prelude.{
  ◌+◌, ◌≤◌, ◌≡◌, refl, none, some, List, [], ◌∷◌, ◌++◌, Text, codes, text_eq, decimal, count, find,
  find_last, update,
}
use xgamefi.Access.Samples.{Values, values, hash}
use xgamefi.Access.Guards.{user_subject, player_subject}
use xgamefi.Access.Sessions.{
  Sessions, Event, created, read, revoked, lapsed, session_key, create_session, read_session,
  revoke_session, happen, run,
}
use xgamefi.Access.Sessions.Backed.{IsBacked, run-IsBacked}
use xgamefi.Access.Sessions.Revoked.{read_session-revoked}
use xgamefi.Access.Wallet.{
  Challenge, Keys, Login, VerifyRequest, logged_in, challenge_message, verify_wallet_signature,
  find_challenge, claim, issue_challenge, wallet_verify, unused,
}
use xgamefi.Access.Wallet.Once.{
  Turn, verifies, issues, logins, logins-le, IsProved, wallet_verify-IsProved,
}

abbrev no_sessions : Sessions Values
no_sessions = record { redis = λ k. none; rows = [] }

abbrev two_sessions : List Event
two_sessions =
    created (codes "a") (user_subject 5) (codes "cli") (codes "10.0.0.1") 1000
    ∷ created (codes "b") (player_subject 41) (codes "web") (codes "10.0.0.2") 2000
    ∷ read (codes "a") 3000
    ∷ revoked (codes "b") 4000
    ∷ []

run-IsBacked_example : IsBacked values (run values hash two_sessions no_sessions)
run-IsBacked_example = run-IsBacked values hash two_sessions no_sessions λ h subject e. cc

still_read :
    (read_session values hash (codes "a") 5000 (run values hash two_sessions no_sessions)).0
    ≡ some (user_subject 5)
unfolding read_session run happen create_session revoke_session text_eq
still_read = refl

read_session-revoked_example :
    (read_session values hash (codes "b") 5000 (
      run values hash
        (read (codes "b") 4500 ∷ lapsed (session_key (hash (codes "a"))) ∷ [])
        (revoke_session values hash (codes "b") 4000 (run values hash two_sessions no_sessions)))).0
    ≡ none
read_session-revoked_example =
    read_session-revoked values hash (codes "b") 4000 5000
      (read (codes "b") 4500 ∷ lapsed (session_key (hash (codes "a"))) ∷ [])
      (run values hash two_sessions no_sessions) (tt, (tt, tt))

-- A key is the text of its address, and a signature is the key before the message.
abbrev prefixing : Keys Text
prefixing = record {
  address_text = λ a. codes "G" ++ decimal a;
  from_public_key = λ t. some t;
  verify = λ key message signature. some (text_eq signature (key ++ message));
  sha256 = λ t. codes "#" ++ t;
  from_base64 = λ t. t;
}

abbrev login : Login Values
login = record {
  challenges =
      issue_challenge 1 (codes "nonce1") 4141 1000 (issue_challenge 2 (codes "nonce2") 7 500 []);
  players = record { id = 41; wallet_address = 4141 } ∷ [];
  sessions = no_sessions;
}

abbrev request : VerifyRequest
request = record {
  wallet_address = 4141;
  signature = codes "G4141" ++ challenge_message prefixing 4141 (codes "nonce1");
  user_agent = codes "web";
  ip = codes "10.0.0.2";
  now = 200000;
  player_id = 99;
  session_id = codes "s";
}

logs_in : (wallet_verify values hash prefixing request login).0 ≡ logged_in 41 4141
unfolding wallet_verify verify_wallet_signature challenge_message find_challenge claim
    issue_challenge text_eq decimal find find_last count
logs_in = refl

wallet_verify-IsProved_example :
    IsProved prefixing request login (wallet_verify values hash prefixing request login).1 4141
wallet_verify-IsProved_example =
    wallet_verify-IsProved values hash prefixing request login 41 4141 logs_in

-- Two requests that read the same challenge before either claims it.
abbrev read_challenge : Challenge
read_challenge = record {
  id = 1;
  wallet_address = 4141;
  nonce = codes "nonce1";
  expires_at = 301000;
  used_at = none;
}

abbrev race : List Turn
race = verifies request read_challenge ∷ verifies request read_challenge ∷ []

logins-le_example :
    logins values hash prefixing 1 race login
    ≤ count (unused 1) login.challenges + count (issues 1) race
logins-le_example = logins-le values hash prefixing 1 race login

one_wins : logins values hash prefixing 1 race login ≡ 1
unfolding claim issue_challenge verify_wallet_signature challenge_message create_session text_eq
    decimal find count update
one_wins = refl
