-- ===== src/Routes/StudioPatch.antt =====
-- `PATCH` of apps/web/app/api/v1/studios/[id]/route.ts on the columns that the code computes with;
-- a name, a description, a logo and a brand are only shown. The audit log is not part of the state.
use xgamefi.Prelude.{
  ℕ, ℤ, ◌≡◌, ◌≢◌, ◌⊎◌, inl, inr, refl, ap, sym, subst, ◌∙◌, arith, Bool, true, false, not, ◌&&◌,
  ◌||◌, Bool-cases, Option, none, some, List, Text, find-update_self, find-update_ne, update,
  is_some, ◌==◌, if◌then◌else◌,
}
use xgamefi.Schema.{Uuid, Address, Currency, Studio, StudioStatus, IntegrationMode}
use xgamefi.World.{Db}
use xgamefi.Orders.{find_studio}
use xgamefi.Access.Guards.{
  Accounts, Subject, Principal, user_principal, player_principal, Access, granted, refused,
  require_studio, is_admin, IsMember, require_studio-IsMember,
}
use xgamefi.Ssrf.{IpKind}
use xgamefi.Ssrf.PublicUrl.{
  Url, Checked, allowed, rejected, assert_public_url, IsPublic, assert_public_url-IsPublic,
}

-- A key of the body: missing, null, or with a value.
pub data Change (A : Type 0) : Type 0 where
  absent null : Change A
  given : A → Change A

pub record StudioPatch : Type 0 where
  pub payout_wallet_address : Change Address
  pub platform_fee_bps : Option ℕ
  pub referral_reward_amount : Change ℤ
  pub referral_reward_currency : Change Currency
  pub integration_mode : Change IntegrationMode
  pub api_base_url : Change Text
  pub status : Option StudioStatus

pub data Reply (A : Type 0) : Type 0 where
  replied : A → Reply A
  failed : ℕ → Reply A

-- Null is cleaned to undefined, which leaves the column.
abbrev pub cleaned : {A : Type 0} → Change A → Option A → Option A
cleaned absent old = old
cleaned null old = old
cleaned (given a) old = some a

-- For the referral reward, null is written.
abbrev pub kept_null : {A : Type 0} → Change A → Option A → Option A
kept_null absent old = old
kept_null null old = none
kept_null (given a) old = some a

abbrev pub over : {A : Type 0} → Option A → A → A
over none old = old
over (some a) old = a

abbrev pub mode_over : Change IntegrationMode → IntegrationMode → IntegrationMode
mode_over (given m) old = m
mode_over _ old = old

abbrev pub apply_patch : StudioPatch → Studio → Studio
apply_patch p s = record s {
  payout_wallet_address = cleaned p.payout_wallet_address s.payout_wallet_address;
  platform_fee_bps = over p.platform_fee_bps s.platform_fee_bps;
  referral_reward_amount = kept_null p.referral_reward_amount s.referral_reward_amount;
  referral_reward_currency = kept_null p.referral_reward_currency s.referral_reward_currency;
  integration_mode = mode_over p.integration_mode s.integration_mode;
  api_base_url = cleaned p.api_base_url s.api_base_url;
  status = over p.status s.status;
}

abbrev pub is_admin_user : Principal → Bool
is_admin_user (user_principal i r s) = is_admin r
is_admin_user (player_principal i a) = false

abbrev pub changes_terms : StudioPatch → Bool
changes_terms p = is_some p.platform_fee_bps || is_some p.status

module _ (is_ip : Text → IpKind) (parse_url : Text → Option Url)
    (resolve : Text → Option (List Text)) where
  abbrev pub is_allowed : {A : Type 0} → Checked A → Bool
  is_allowed (allowed a) = true
  is_allowed (rejected e) = false

  -- `if (patch.apiBaseUrl)`, then the guard.
  abbrev pub url_refused : Change Text → Bool
  url_refused (given url) = not (is_allowed (assert_public_url is_ip parse_url resolve url))
  url_refused _ = false

  abbrev pub patch_found : Uuid → StudioPatch → Option Studio → Db → Reply Studio × Db
  patch_found i p none db = (failed 404, db)
  patch_found i p (some s) db = if url_refused p.api_base_url then (failed 400, db) else (
    replied (apply_patch p s),
    record db { studios = update (λ r. r.id == i) (apply_patch p) db.studios },
  )

  abbrev pub patch_by : Uuid → StudioPatch → Access Principal → Db → Reply Studio × Db
  patch_by i p (refused n code) db = (failed n, db)
  patch_by i p (granted q) db =
      if changes_terms p && not (is_admin_user q)
      then (failed 403, db)
      else patch_found i p (find_studio i db) db

  unfoldable pub patch_studio :
      Accounts → Option Subject → Uuid → StudioPatch → Db → Reply Studio × Db
  patch_studio a session i p db = patch_by i p (require_studio a session i) db

  -- What a patch that was answered with the new row has done.
  pub record IsPatched (a : Accounts) (session : Option Subject) (i : Uuid) (p : StudioPatch)
      (db : Db) (s : Studio) (db' : Db) : Type 0 where
    pub principal : Principal
    pub member : IsMember a session i principal
    pub old : Studio
    pub found : find_studio i db ≡ some old
    pub written : find_studio i db' ≡ some s
    pub patched : s ≡ apply_patch p old
    pub others : (j : Uuid) → j ≢ i → find_studio j db' ≡ find_studio j db
    pub terms :
        (is_admin_user principal ≡ true)
        ⊎ ((s.platform_fee_bps ≡ old.platform_fee_bps) × (s.status ≡ old.status))
    pub guarded :
        (url : Text)
        → p.api_base_url ≡ given url
        → (u : Url) × IsPublic is_ip parse_url resolve url u

  terms_kept :
      (p : StudioPatch) (old : Studio)
      → changes_terms p ≡ false
      → ((apply_patch p old).platform_fee_bps ≡ old.platform_fee_bps)
        × ((apply_patch p old).status ≡ old.status)
  terms_kept p old h = ground arith

  allowed_url :
      (c : Checked (Url × Text)) (url : Text)
      → assert_public_url is_ip parse_url resolve url ≡ c
      → not (is_allowed c) ≡ false
      → (u : Url) × IsPublic is_ip parse_url resolve url u
  allowed_url (allowed (u, ip)) url e h =
      (u, assert_public_url-IsPublic is_ip parse_url resolve url u ip e)
  allowed_url (rejected failure) url e h = cc

  guarded_url :
      (c : Change Text)
      → url_refused c ≡ false
      → (url : Text) → c ≡ given url
      → (u : Url) × IsPublic is_ip parse_url resolve url u
  guarded_url c h url e =
      allowed_url (assert_public_url is_ip parse_url resolve url) url refl
        (subst (λ d. url_refused d ≡ false) e h)

  found-IsPatched :
      (a : Accounts) (session : Option Subject) (i : Uuid) (p : StudioPatch) (q : Principal)
      (db : Db) (o : Option Studio) (s : Studio)
      → IsMember a session i q
      → changes_terms p && not (is_admin_user q) ≡ false
      → find_studio i db ≡ o
      → (patch_found i p o db).0 ≡ replied s
      → IsPatched a session i p db s (patch_found i p o db).1
  found-IsPatched a session i p q db none s m t f e = cc
  found-IsPatched a session i p q db (some old) s m t f e =
      elim (Bool-cases (url_refused p.api_base_url)) [
        | inl u ↦ cc (rw u at e)
        | inr u ↦
            let row : s ≡ apply_patch p old = cc (rw u at e) in
            rw u record {
              principal = q;
              member = m;
              old = old;
              found = f;
              written =
                  find-update_self (λ r. r.id) (apply_patch p) (λ r. refl) i db.studios old f
                  ∙ ap some (sym row);
              patched = row;
              others =
                  λ j n. find-update_ne (λ r. r.id) (apply_patch p) (λ r. refl) j i db.studios n;
              terms = elim (Bool-cases (is_admin_user q)) [
                | inl y ↦ inl y
                | inr n ↦ inr (rw row (terms_kept p old (ground arith)))
              ];
              guarded = guarded_url p.api_base_url u;
            }
      ]

  patch_by-IsPatched :
      (a : Accounts) (session : Option Subject) (i : Uuid) (p : StudioPatch) (db : Db) (s : Studio)
      (r : Access Principal)
      → require_studio a session i ≡ r
      → (patch_by i p r db).0 ≡ replied s
      → IsPatched a session i p db s (patch_by i p r db).1
  patch_by-IsPatched a session i p db s (refused n code) g e = cc
  patch_by-IsPatched a session i p db s (granted q) g e =
      elim (Bool-cases (changes_terms p && not (is_admin_user q))) [
        | inl t ↦ cc (rw t at e)
        | inr t ↦ rw t (
            found-IsPatched a session i p q db (find_studio i db) s
              (require_studio-IsMember a session i q g) t refl (rw t at e))
      ]

  -- A patch of a studio that is answered with the row was asked for by an active user who is an
  -- admin or belongs to the studio; the row is the old one with the changes of the body, no other
  -- studio has changed, fee and status have changed only if the user is an admin, and a new address
  -- of the studio's server has passed the check of public URLs.
  pub patch_studio-IsPatched :
      (a : Accounts) (session : Option Subject) (i : Uuid) (p : StudioPatch) (db : Db) (s : Studio)
      → (patch_studio a session i p db).0 ≡ replied s
      → IsPatched a session i p db s (patch_studio a session i p db).1
  unfolding patch_studio
  patch_studio-IsPatched a session i p db s e =
      patch_by-IsPatched a session i p db s (require_studio a session i) refl e
