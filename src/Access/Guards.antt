-- ===== src/Access/Guards.antt =====
-- apps/web/lib/auth/guards.ts: who is asking, and whether they may act for a studio. The session
-- of a request is what the session store gives for its cookie.
use xgamefi.Prelude.{
  ℕ, ◌≡◌, ◌≢◌, ◌⊎◌, ap, sym, subst, ◌||◌, inl, inr, refl, arith, Bool, true, false, ◌&&◌, Option,
  none, some, List, ◌==◌, has, find, any, if◌then◌else◌, Bool-cases, find-accepts, ==_iff, ⊤,
}
use xgamefi.Schema.{Uuid, Address, Player}

pub data Role : Type 0 where
  admin studio_owner studio_member : Role

pub record User : Type 0 where
  pub id : Uuid
  pub role : Role
  pub studio_id : Option Uuid
  pub is_active : Bool

pub data Subject : Type 0 where
  user_subject player_subject : Uuid → Subject

pub data Principal : Type 0 where
  user_principal : Uuid → Role → Option Uuid → Principal
  player_principal : Uuid → Address → Principal

pub record Accounts : Type 0 where
  pub users : List User
  pub players : List Player

pub data AuthCode : Type 0 where
  unauthenticated forbidden : AuthCode

pub data Access (A : Type 0) : Type 0 where
  granted : A → Access A
  refused : ℕ → AuthCode → Access A

abbrev pub is_active_user : Uuid → User → Bool
is_active_user i u = (u.id == i) && u.is_active

abbrev pub user_as_principal : Option User → Option Principal
user_as_principal none = none
user_as_principal (some u) = some (user_principal u.id u.role u.studio_id)

abbrev pub player_as_principal : Option Player → Option Principal
player_as_principal none = none
player_as_principal (some p) = some (player_principal p.id p.wallet_address)

-- `getPrincipal` for the session that was read.
unfoldable pub get_principal : Accounts → Option Subject → Option Principal
get_principal a none = none
get_principal a (some (user_subject i)) = user_as_principal (find (is_active_user i) a.users)
get_principal a (some (player_subject i)) = player_as_principal (find (λ p. p.id == i) a.players)

abbrev pub or_refuse : Option Principal → Access Principal
or_refuse none = refused 401 unauthenticated
or_refuse (some p) = granted p

abbrev pub require_principal : Accounts → Option Subject → Access Principal
require_principal a s = or_refuse (get_principal a s)

abbrev pub same_role : Role → Role → Bool
same_role admin admin = true
same_role studio_owner studio_owner = true
same_role studio_member studio_member = true
same_role _ _ = false

abbrev pub has_role : List Role → Principal → Bool
has_role roles (user_principal i r s) = any (same_role r) roles
has_role roles (player_principal i a) = false

abbrev pub role_granted : List Role → Access Principal → Access Principal
role_granted roles (refused n code) = refused n code
role_granted roles (granted p) = if has_role roles p then granted p else refused 403 forbidden

unfoldable pub require_role : Accounts → Option Subject → List Role → Access Principal
require_role a s roles = role_granted roles (require_principal a s)

abbrev pub is_admin : Role → Bool
is_admin admin = true
is_admin _ = false

abbrev pub in_scope : Principal → Uuid → Bool
in_scope (user_principal i r s) studio = is_admin r || has s studio
in_scope (player_principal i a) studio = false

unfoldable pub scope_to_studio : Principal → Uuid → Access ⊤
scope_to_studio p studio = if in_scope p studio then granted tt else refused 403 forbidden

abbrev pub after_scope : Principal → Access ⊤ → Access Principal
after_scope p (granted t) = granted p
after_scope p (refused n code) = refused n code

abbrev pub scoped : Uuid → Access Principal → Access Principal
scoped studio (refused n code) = refused n code
scoped studio (granted p) = after_scope p (scope_to_studio p studio)

unfoldable pub require_studio : Accounts → Option Subject → Uuid → Access Principal
require_studio a s studio = scoped studio (require_principal a s)

-- The session is of a user who is active, and who is an admin or belongs to the studio.
pub record IsMember (a : Accounts) (s : Option Subject) (studio : Uuid) (p : Principal)
    : Type 0 where
  pub user : User
  pub session : s ≡ some (user_subject user.id)
  pub active : user.is_active ≡ true
  pub registered : find (is_active_user user.id) a.users ≡ some user
  pub principal : p ≡ user_principal user.id user.role user.studio_id
  pub entitled : (is_admin user.role ≡ true) ⊎ (user.studio_id ≡ some studio)

scoped-eq :
    (studio : Uuid) (q p : Principal)
    → scoped studio (granted q) ≡ granted p
    → (q ≡ p) × (in_scope q studio ≡ true)
unfolding scope_to_studio
scoped-eq studio q p e = elim (Bool-cases (in_scope q studio)) [
  | inl y ↦ (cc (rw y at e), y)
  | inr n ↦ cc (rw n at e)
]

entitled_by :
    (r : Role) (s : Option Uuid) (studio : Uuid)
    → is_admin r || has s studio ≡ true
    → (is_admin r ≡ true) ⊎ (s ≡ some studio)
entitled_by admin s studio h = inl refl
entitled_by studio_owner none studio h = cc
entitled_by studio_owner (some t) studio h = inr (ap some ((==_iff t studio).0 h))
entitled_by studio_member none studio h = cc
entitled_by studio_member (some t) studio h = inr (ap some ((==_iff t studio).0 h))

user-IsMember :
    (a : Accounts) (i studio : Uuid) (u : Option User) (p : Principal)
    → find (is_active_user i) a.users ≡ u
    → scoped studio (or_refuse (user_as_principal u)) ≡ granted p
    → IsMember a (some (user_subject i)) studio p
user-IsMember a i studio none p f e = cc
user-IsMember a i studio (some u) p f e =
    let (same, scope) = scoped-eq studio (user_principal u.id u.role u.studio_id) p e in
    let accepted : is_active_user i u ≡ true = find-accepts (is_active_user i) a.users u f in
    let id_eq : u.id ≡ i = ground arith in
    record {
      user = u;
      session = ap (λ j. some (user_subject j)) (sym id_eq);
      active = ground arith;
      registered = subst (λ j. find (is_active_user j) a.users ≡ some u) (sym id_eq) f;
      principal = sym same;
      entitled = entitled_by u.role u.studio_id studio scope;
    }

player_refused :
    (studio : Uuid) (q : Option Player) (p : Principal)
    → scoped studio (or_refuse (player_as_principal q)) ≢ granted p
unfolding scope_to_studio
player_refused studio none p e = cc
player_refused studio (some q) p e = cc

-- A request is let through to a studio only with the session of an active user, who is an admin or
-- belongs to that studio; no session, a player's session, and a user of another studio are refused.
pub require_studio-IsMember :
    (a : Accounts) (s : Option Subject) (studio : Uuid) (p : Principal)
    → require_studio a s studio ≡ granted p
    → IsMember a s studio p
unfolding require_studio get_principal
require_studio-IsMember a none studio p e = cc
require_studio-IsMember a (some (player_subject i)) studio p e =
    absurd (player_refused studio (find (λ q. q.id == i) a.players) p e)
require_studio-IsMember a (some (user_subject i)) studio p e =
    user-IsMember a i studio (find (is_active_user i) a.users) p refl e
