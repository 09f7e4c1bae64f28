-- ===== src/Referrals.antt =====
-- The codes by which players invite players: apps/web/app/api/v1/referrals, its bind and its me. A
-- referral of the database is its code with the row of Schema, and of a player only who referred it
-- is kept. Random bytes, the text of an id and what the schema makes of a body are parameters.
pub mod Linked
mod Tests
use xgamefi.Prelude.{
  ℕ, zero, suc, ℤ, pos, ◌+◌, ◌+ℤ◌, ◌%◌, Bool, true, false, not, ◌&&◌, Option, none, some, List, [],
  ◌∷◌, ◌++◌, Text, codes, map, take, any, find, where_is, update, count, text_eq, is_some, or_else,
  length, ◌==◌, if◌then◌else◌,
}
use xgamefi.Schema.{Uuid, Currency, Referral, ReferralStatus}
use xgamefi.Promotions.{truthy}
use xgamefi.Access.Guards.{
  Accounts, Subject, Principal, user_principal, player_principal, Access, granted, refused,
  require_principal,
}
use xgamefi.Access.RateLimit.{Counters, Limited, rate_limit}
use xgamefi.Routes.StudioPatch.{Reply, replied, failed}

pub record CodedReferral : Type 0 where
  pub code : Text
  pub row : Referral

pub record Referee : Type 0 where
  pub id : Uuid
  pub referred_by_player_id : Option Uuid

pub record Book (R : Type 0) : Type 0 where
  pub counters : R
  pub players : List Referee
  pub referrals : List CodedReferral

pub record Performance : Type 0 where
  pub code : Text
  pub total : ℕ
  pub qualified : ℕ
  pub rewarded : ℕ
  pub total_reward_amount : ℤ
  pub reward_currency : Option Currency

abbrev pub alphabet : Text
alphabet = codes "ABCDEFGHIJKLMNOPQRSTUVWXYZ0123456789"

abbrev pub char_at : Text → ℕ → ℕ
char_at [] n = 0
char_at (c ∷ s) zero = c
char_at (c ∷ s) (suc n) = char_at s n

-- `bytes` are the eight random bytes.
abbrev pub gen_code : List ℕ → Text
gen_code bytes = map (λ b. char_at alphabet (b % 36)) bytes

abbrev pub pending_row : Uuid → Uuid → Option Uuid → Referral
pending_row id referrer referee = record {
  id = id;
  referrer_player_id = referrer;
  studio_id = none;
  referee_player_id = referee;
  status = ReferralStatus.pending;
  qualifying_order_id = none;
  reward_amount = none;
  reward_currency = none;
  reward_tx_hash = none;
  qualified_at = none;
  rewarded_at = none;
}

-- The code is unique in the table.
abbrev pub is_taken : Text → List CodedReferral → Bool
is_taken code rows = any (λ r. text_eq r.code code) rows

abbrev pub is_own : Uuid → CodedReferral → Bool
is_own p r = (r.row.referrer_player_id == p) && not (is_some r.row.referee_player_id)

abbrev pub is_invitee : Uuid → CodedReferral → Bool
is_invitee p r = (r.row.referrer_player_id == p) && is_some r.row.referee_player_id

abbrev pub is_offer : Text → CodedReferral → Bool
is_offer code r = text_eq r.code code && not (is_some r.row.referee_player_id)

abbrev pub has_qualified : ReferralStatus → Bool
has_qualified ReferralStatus.qualified = true
has_qualified _ = false

abbrev pub has_rewarded : ReferralStatus → Bool
has_rewarded ReferralStatus.rewarded = true
has_rewarded _ = false

abbrev pub total_reward : ℤ → List CodedReferral → ℤ
total_reward sum [] = sum
total_reward sum (r ∷ rs) = total_reward (sum +ℤ or_else r.row.reward_amount (pos 0)) rs

abbrev pub last_currency : Option Currency → List CodedReferral → Option Currency
last_currency c [] = c
last_currency c (r ∷ rs) =
    last_currency (if is_some r.row.reward_currency then r.row.reward_currency else c) rs

abbrev pub code_of : Option CodedReferral → Text
code_of none = []
code_of (some r) = r.code

-- The answer of referrals/me.
unfoldable pub referral_performance : Uuid → List CodedReferral → Performance
referral_performance p rows =
    let invitees = where_is (is_invitee p) rows in
    record {
      code = code_of (find (is_own p) rows);
      total = length invitees;
      qualified = count (λ r. has_qualified r.row.status) invitees;
      rewarded = count (λ r. has_rewarded r.row.status) invitees;
      total_reward_amount = total_reward (pos 0) invitees;
      reward_currency = last_currency none invitees;
    }

abbrev pub add_referral : {R : Type 0} → CodedReferral → Book R → Book R
add_referral r s = record s { referrals = s.referrals ++ r ∷ [] }

abbrev pub referred_by : Option Referee → Option Uuid
referred_by none = none
referred_by (some p) = p.referred_by_player_id

-- The code of the body, or else of the cookie.
abbrev pub chosen : Option Text → Option Text → Option Text
chosen body cookie = if truthy body then body else cookie

module _ {R : Type 0} (c : Counters R) (id_text : Uuid → Text) where
  -- Up to `n` attempts, each with its own bytes.
  unfoldable pub try_codes : (ℕ → List ℕ) → Uuid → Uuid → ℕ → Book R → Reply Text × Book R
  try_codes random id p zero s = (failed 500, s)
  try_codes random id p (suc n) s =
      let rest = try_codes random id p n s in
      let code = gen_code (random n) in
      if is_taken code s.referrals
      then rest
      else (replied code, add_referral (record { code = code; row = pending_row id p none }) s)

  abbrev pub own_or_new :
      (ℕ → List ℕ) → Uuid → Uuid → Option CodedReferral → Book R → Reply Text × Book R
  own_or_new random id p (some r) s = (replied r.code, s)
  own_or_new random id p none s = try_codes random id p 5 s

  abbrev pub within :
      {A : Type 0} → (Book R → Reply A × Book R) → Book R → Limited × R → Reply A × Book R
  within k s (l, r) =
      let s' : Book R = record s { counters = r } in if l.allowed then k s' else (failed 429, s')

  -- The handlers do not catch what `requirePrincipal` throws, and the server answers 500.
  abbrev pub for_player :
      {A : Type 0}
      → Text
      → (Uuid → Book R → Reply A × Book R)
      → Access Principal
      → Book R
      → Reply A × Book R
  for_player scope k (refused n code) s = (failed 500, s)
  for_player scope k (granted (user_principal i r st)) s = (failed 403, s)
  for_player scope k (granted (player_principal i a)) s =
      within (k i) s (rate_limit c scope (id_text i) 30 60 s.counters)

  -- `POST` of referrals.
  unfoldable pub create_code :
      Accounts → Option Subject → (ℕ → List ℕ) → Uuid → Book R → Reply Text × Book R
  create_code a session random id s =
      for_player (codes "ref:gen") (λ p b. own_or_new random id p (find (is_own p) b.referrals) b)
        (require_principal a session) s

  abbrev pub bound_code : Text → Uuid → Text
  bound_code code p = code ++ codes "-" ++ take 8 (id_text p)

  -- The transaction: an update of a missing player and a code that is taken throw.
  abbrev pub link : Uuid → CodedReferral → Uuid → Book R → Reply Bool × Book R
  link id offer p s =
      if not (any (λ r. r.id == p) s.players)
      then (failed 500, s)
      else if is_taken (bound_code offer.code p) s.referrals
      then (failed 500, s)
      else (
        replied false,
        record s {
          players =
              update (λ r. r.id == p)
                (λ r. record r { referred_by_player_id = some offer.row.referrer_player_id })
                s.players;
          referrals =
              s.referrals
              ++ record {
                code = bound_code offer.code p;
                row = pending_row id offer.row.referrer_player_id (some p);
              }
                ∷ [];
        },
      )

  abbrev pub bind_offer : Uuid → Uuid → Option CodedReferral → Book R → Reply Bool × Book R
  bind_offer id p none s = (failed 404, s)
  bind_offer id p (some offer) s =
      if offer.row.referrer_player_id == p
      then (failed 409, s)
      else if is_some (referred_by (find (λ r. r.id == p) s.players))
      then (replied true, s)
      else link id offer p s

  abbrev pub bind_with : Option Text → Uuid → Uuid → Book R → Reply Bool × Book R
  bind_with code id p s =
      if not (truthy code)
      then (failed 400, s)
      else bind_offer id p (find (is_offer (or_else code [])) s.referrals) s

  -- `POST` of referrals/bind, which answers whether the player was bound before.
  unfoldable pub bind_referral :
      Accounts → Option Subject → Option Text → Option Text → Uuid → Book R → Reply Bool × Book R
  bind_referral a session body cookie id s =
      for_player (codes "ref:bind") (bind_with (chosen body cookie) id)
        (require_principal a session) s
