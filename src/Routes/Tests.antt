-- ===== src/Routes/Tests.antt =====
-- A patch by a studio's owner, and a login.
use xgamefi.Prelude.{
  ◌≡◌, refl, none, some, Option, List, [], ◌∷◌, ◌++◌, Text, codes, text_eq, find, count, to_lower,
}
use xgamefi.Access.Guards.{user_subject, require_studio, get_principal, scope_to_studio}
use xgamefi.Access.RateLimit.{rate_limit, login_backoff_active, backoff_delay_sec}
use xgamefi.Access.Samples.{Values, values, hash, counters, owner, accounts}
use xgamefi.Ssrf.{IpKind, not_ip}
use xgamefi.Ssrf.PublicUrl.{Url}
use xgamefi.Routes.StudioPatch.{
  StudioPatch, absent, null, given, replied, failed, apply_patch, patch_studio, IsPatched,
  patch_studio-IsPatched,
}
use xgamefi.Routes.Login.{LoginRequest, Logins, logged_in, login, IsLogin, login-IsLogin}
use xgamefi.Samples.{db, studio}

abbrev no_ip : Text → IpKind
no_ip s = not_ip

abbrev no_url : Text → Option Url
no_url s = none

abbrev no_host : Text → Option (List Text)
no_host s = none

abbrev wallet_patch : StudioPatch
wallet_patch = record {
  payout_wallet_address = given 77;
  platform_fee_bps = none;
  referral_reward_amount = null;
  referral_reward_currency = absent;
  integration_mode = absent;
  api_base_url = null;
  status = none;
}

wallet_patched :
    (patch_studio no_ip no_url no_host accounts (some (user_subject 5)) 1 wallet_patch db).0
    ≡ replied (apply_patch wallet_patch studio)
unfolding patch_studio require_studio get_principal scope_to_studio find
wallet_patched = refl

patch_studio-IsPatched_example :
    IsPatched no_ip no_url no_host accounts
      (some (user_subject 5))
      1
      wallet_patch
      db
      (apply_patch wallet_patch studio)
      (patch_studio no_ip no_url no_host accounts (some (user_subject 5)) 1 wallet_patch db).1
patch_studio-IsPatched_example =
    patch_studio-IsPatched no_ip no_url no_host accounts (some (user_subject 5)) 1 wallet_patch db
      (apply_patch wallet_patch studio) wallet_patched

fee_refused :
    (patch_studio no_ip no_url no_host accounts
      (some (user_subject 5))
      1
      (record wallet_patch { platform_fee_bps = some 0 })
      db).0
    ≡ failed 403
unfolding patch_studio require_studio get_principal scope_to_studio find
fee_refused = refl

abbrev site : Text
site = codes "https://xgamefi.example"

abbrev request : LoginRequest
request = record {
  origin = none;
  referer = some site;
  ip = codes "10.0.0.1";
  body = some (codes "Ann", codes "secret");
  user_agent = codes "cli";
  now = 1000;
  session_id = codes "s";
}

abbrev logins : Logins (List Text) Values
logins = record {
  counters = codes "login:fail:ann" ∷ [];
  sessions = record { redis = λ k. none; rows = [] };
  accounts = record { user = owner; username = codes "Ann"; password_hash = codes "#secret" } ∷ [];
}

abbrev hashed : Text → Text → Text
hashed h password = codes "#" ++ password

logs_in :
    (login counters values hash
      (λ h p. text_eq h (codes "#" ++ p))
      (λ u. some u)
      site
      request
      logins).0
    ≡ logged_in 5
unfolding login rate_limit login_backoff_active backoff_delay_sec text_eq find count to_lower
logs_in = refl

login-IsLogin_example :
    IsLogin counters values hash
      (λ h p. text_eq h (codes "#" ++ p))
      (λ u. some u)
      site
      request
      5
      logins
      (login counters values hash
        (λ h p. text_eq h (codes "#" ++ p))
        (λ u. some u)
        site
        request
        logins).1
login-IsLogin_example =
    login-IsLogin counters values hash (λ h p. text_eq h (codes "#" ++ p)) (λ u. some u) site
      request 5 logins logs_in
