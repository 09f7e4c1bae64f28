-- ===== src/Routes/Login.antt =====
-- `POST` of apps/web/app/api/v1/auth/login/route.ts, with the check of the origin in
-- packages/shared/src/auth/csrf.ts and apps/web/lib/auth/csrf.ts. The password hash and the origin
-- of a URL are given, the body is parsed, and the audit log is not part of the state.
use xgamefi.Prelude.{
  ℕ, ◌≤◌, ◌≡◌, inl, inr, refl, ap, ◌∙◌, arith, Bool, true, false, ◌&&◌, ◌||◌, Bool-cases, Option,
  none, some, List, Text, codes, find, text_eq, if◌then◌else◌,
}
use xgamefi.Schema.{Uuid}
use xgamefi.Access.Guards.{User, Subject, user_subject}
use xgamefi.Access.RateLimit.{
  Counters, Limited, rate_limit, register_login_failure, clear_login_failures, login_backoff_active,
  login_fail_key, backoff_pos,
}
use xgamefi.Access.Sessions.{KeyValues, Sessions, session_key, create_session, idle_ttl_sec}

-- `new URL(…).origin` of both, where both parse.
abbrev pub same_origin : Option Text → Option Text → Bool
same_origin none b = false
same_origin (some a) none = false
same_origin (some a) (some b) = text_eq a b

pub record Account : Type 0 where
  pub user : User
  pub username : Text
  pub password_hash : Text

pub record LoginRequest : Type 0 where
  pub origin : Option Text
  pub referer : Option Text
  pub ip : Text
  pub body : Option (Text × Text)
  pub user_agent : Text
  pub now : ℕ
  pub session_id : Text

pub record Logins (R S : Type 0) : Type 0 where
  pub counters : R
  pub sessions : Sessions S
  pub accounts : List Account

pub data LoginReply : Type 0 where
  logged_in : Uuid → LoginReply
  failed : ℕ → LoginReply

module _ {R S : Type 0} (c : Counters R) (v : KeyValues S Subject) (hash_token : Text → Text)
    (verify_password : Text → Text → Bool) (origin_of : Text → Option Text)
    (app_base_url : Text) where
  abbrev pub is_same_origin : Option Text → Bool
  is_same_origin none = false
  is_same_origin (some url) = same_origin (origin_of url) (origin_of app_base_url)

  abbrev pub csrf_passes : LoginRequest → Bool
  csrf_passes q = is_same_origin q.origin || is_same_origin q.referer

  abbrev pub credentials : Option Account → Text → Bool
  credentials none password = false
  credentials (some a) password = a.user.is_active && verify_password a.password_hash password

  abbrev pub account_of : Text → Logins R S → Option Account
  account_of username s = find (λ a. text_eq a.username username) s.accounts

  abbrev pub refuse : Text → Logins R S → LoginReply × Logins R S
  refuse username s =
      (failed 401, record s { counters = (register_login_failure c username s.counters).1 })

  abbrev pub admit :
      LoginRequest → Text → Text → Option Account → Logins R S → LoginReply × Logins R S
  admit q username password none s = refuse username s
  admit q username password (some a) s =
      if credentials (some a) password
      then (
        logged_in a.user.id,
        record s {
          counters = clear_login_failures c username s.counters;
          sessions =
              create_session v hash_token q.session_id (user_subject a.user.id) q.user_agent q.ip
                q.now s.sessions;
        },
      )
      else refuse username s

  abbrev pub login_body : LoginRequest → Option (Text × Text) → Logins R S → LoginReply × Logins R S
  login_body q none s = (failed 400, s)
  login_body q (some (username, password)) s =
      if login_backoff_active c username s.counters
      then (failed 429, s)
      else admit q username password (account_of username s) s

  abbrev pub limited : LoginRequest → Logins R S → Limited × R → LoginReply × Logins R S
  limited q s (l, r) =
      let s' : Logins R S = record s { counters = r } in
      if l.allowed then login_body q q.body s' else (failed 429, s')

  unfoldable pub login : LoginRequest → Logins R S → LoginReply × Logins R S
  login q s =
      if csrf_passes q
      then limited q s (rate_limit c (codes "auth:login") q.ip 10 60 s.counters)
      else (failed 403, s)

  -- What a login has checked, and what it leaves.
  pub record IsLogin (q : LoginRequest) (i : Uuid) (s s' : Logins R S) : Type 0 where
    pub same_site : csrf_passes q ≡ true
    pub in_limit : (rate_limit c (codes "auth:login") q.ip 10 60 s.counters).0.allowed ≡ true
    pub username : Text
    pub password : Text
    pub sent : q.body ≡ some (username, password)
    pub account : Account
    pub found : account_of username s ≡ some account
    pub active : account.user.is_active ≡ true
    pub verified : verify_password account.password_hash password ≡ true
    pub identity : account.user.id ≡ i
    pub not_held :
        c.get (login_fail_key username) (rate_limit c (codes "auth:login") q.ip 10 60 s.counters).1
        ≤ 3
    pub cleared : c.get (login_fail_key username) s'.counters ≡ 0
    pub session :
        v.get (session_key (hash_token q.session_id)) s'.sessions.redis ≡ some (user_subject i)

  few_failures :
      (username : Text) (r : R)
      → login_backoff_active c username r ≡ false
      → c.get (login_fail_key username) r ≤ 3
  unfolding login_backoff_active
  few_failures username r h =
      let positive = backoff_pos c (c.get (login_fail_key username) r) in ground (arith, positive)

  cleared_count :
      (username : Text) (r : R)
      → c.get (login_fail_key username) (clear_login_failures c username r) ≡ 0
  unfolding clear_login_failures
  cleared_count username r = c.get-del (login_fail_key username) r

  opened_session :
      (q : LoginRequest) (i j : Uuid) (s : Sessions S)
      → i ≡ j
      → v.get
          (session_key (hash_token q.session_id))
          (create_session v hash_token q.session_id
            (user_subject i)
            q.user_agent
            q.ip
            q.now
            s).redis
        ≡ some (user_subject j)
  unfolding create_session
  opened_session q i j s same =
      v.get-set (session_key (hash_token q.session_id)) (user_subject i) idle_ttl_sec s.redis
      ∙ ap (λ k. some (user_subject k)) same

  admit-IsLogin :
      (q : LoginRequest) (i : Uuid) (s : Logins R S) (username password : Text)
      → csrf_passes q ≡ true
      → (rate_limit c (codes "auth:login") q.ip 10 60 s.counters).0.allowed ≡ true
      → q.body ≡ some (username, password)
      → let r = (rate_limit c (codes "auth:login") q.ip 10 60 s.counters).1 in
        let s' : Logins R S = record s { counters = r } in
        login_backoff_active c username r ≡ false
        → (o : Option Account) → account_of username s ≡ o
        → (admit q username password o s').0 ≡ logged_in i
        → IsLogin q i s (admit q username password o s').1
  admit-IsLogin q i s username password o_k l sent held none f e = cc
  admit-IsLogin q i s username password o_k l sent held (some a) f e =
      elim (Bool-cases (credentials (some a) password)) [
        | inr n ↦ cc (rw n at e)
        | inl y ↦
            let same : a.user.id ≡ i = cc (rw y at e) in
            rw y record {
              same_site = o_k;
              username = username;
              password = password;
              sent = sent;
              account = a;
              found = f;
              active = ground arith;
              verified = ground arith;
              identity = same;
              not_held = few_failures username _ held;
              in_limit = l;
              cleared = cleared_count username _;
              session = opened_session q a.user.id i s.sessions same;
            }
      ]

  body-IsLogin :
      (q : LoginRequest) (i : Uuid) (s : Logins R S) (b : Option (Text × Text))
      → csrf_passes q ≡ true
      → (rate_limit c (codes "auth:login") q.ip 10 60 s.counters).0.allowed ≡ true
      → q.body ≡ b
      → let s' : Logins R S = record s {
        counters = (rate_limit c (codes "auth:login") q.ip 10 60 s.counters).1;
      } in
        (login_body q b s').0 ≡ logged_in i → IsLogin q i s (login_body q b s').1
  body-IsLogin q i s none o_k l sent e = cc
  body-IsLogin q i s (some (username, password)) o_k l sent e =
      let r = (rate_limit c (codes "auth:login") q.ip 10 60 s.counters).1 in
      elim (Bool-cases (login_backoff_active c username r)) [
        | inl y ↦ cc (rw y at e)
        | inr n ↦ rw n (
            admit-IsLogin q i s username password o_k l sent n (account_of username s) refl
              (rw n at e))
      ]

  -- A login that succeeds came from the site itself, within the limit, for a user who is active
  -- and whose password fits, after at most three failures that still count; it leaves no failure
  -- counted for the name, and its session is the user's.
  pub login-IsLogin :
      (q : LoginRequest) (i : Uuid) (s : Logins R S)
      → (login q s).0 ≡ logged_in i
      → IsLogin q i s (login q s).1
  unfolding login
  login-IsLogin q i s e = elim (Bool-cases (csrf_passes q)) [
    | inr n ↦ cc (rw n at e)
    | inl y ↦
        let l = (rate_limit c (codes "auth:login") q.ip 10 60 s.counters).0 in
        elim (Bool-cases l.allowed) [
          | inr n ↦ cc (rw (y, n) at e)
          | inl a ↦ rw (y, a) (body-IsLogin q i s q.body y a refl (rw (y, a) at e))
        ]
  ]
