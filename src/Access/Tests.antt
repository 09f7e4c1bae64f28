-- ===== src/Access/Tests.antt =====
-- The guards and limits on small inputs, with a list of keys for the counters: one entry a count.
use xgamefi.Prelude.{◌≡◌, refl, some, find}
use xgamefi.Access.RateLimit.{}
use xgamefi.Access.Samples.{accounts}
use xgamefi.Access.Guards.{
  studio_owner, user_subject, user_principal, granted, require_studio, get_principal,
  scope_to_studio,
}

owner_run :
    require_studio accounts (some (user_subject 5)) 1
    ≡ granted (user_principal 5 studio_owner (some 1))
unfolding require_studio get_principal scope_to_studio find
owner_run = refl
