-- ===== src/Referrals/Linked.antt =====
-- The invariant of invitations: a referral with a referee is what the referee's row names.
use xgamefi.Prelude.{
  ℕ, zero, suc, ◌≡◌, ◌≢◌, inl, inr, refl, ap, ◌∙◌, subst, arith, true, false, not, Bool-cases,
  Option, none, some, List, [], ◌∷◌, ◌++◌, Text, codes, any, find, find-update_self, find-update_ne,
  update, is_some, or_else, ◌==◌, ==_iff, ==_cases, All,
}
use xgamefi.Schema.{Uuid}
use xgamefi.Promotions.{truthy}
use xgamefi.Access.Guards.{
  Accounts, Subject, Principal, user_principal, player_principal, Access, granted, refused,
  require_principal,
}
use xgamefi.Access.RateLimit.{Counters, Limited, rate_limit}
use xgamefi.Routes.StudioPatch.{Reply}
use xgamefi.Referrals.{
  CodedReferral, Referee, Book, pending_row, is_taken, is_own, is_offer, try_codes, own_or_new,
  within, for_player, create_code, referred_by, bound_code, link, bind_offer, chosen, bind_with,
  bind_referral, gen_code,
}

abbrev pub find_referee : Uuid → List Referee → Option Referee
find_referee p players = find (λ r. r.id == p) players

-- Whom a referral refers is not the referrer, and is bound to the referrer.
abbrev pub IsLinked : List Referee → CodedReferral → Type 0
IsLinked players r =
    (p : Uuid)
    → r.row.referee_player_id ≡ some p
    → (r.row.referrer_player_id ≢ p)
      × (referred_by (find_referee p players) ≡ some r.row.referrer_player_id)

abbrev pub AllLinked : {R : Type 0} → Book R → Type 0
AllLinked s = All (IsLinked s.players) s.referrals

All-append_one :
    {A : Type 0} (P : A → Type 0) (xs : List A) (a : A) → All P xs → P a → All P (xs ++ a ∷ [])
All-append_one P [] a h pa = (pa, tt)
All-append_one P (x ∷ xs) a (px, h) pa = (px, All-append_one P xs a h pa)

All-map :
    {A : Type 0} (P Q : A → Type 0) (xs : List A) → ((a : A) → P a → Q a) → All P xs → All Q xs
All-map P Q [] f h = tt
All-map P Q (x ∷ xs) f (px, h) = (f x px, All-map P Q xs f h)

abbrev bound_to : Uuid → Referee → Referee
bound_to referrer r = record r { referred_by_player_id = some referrer }

-- A binding of a player who was not bound keeps every link.
update-IsLinked :
    (p referrer : Uuid) (players : List Referee) (r : CodedReferral)
    → referred_by (find_referee p players) ≡ none
    → IsLinked players r
    → IsLinked (update (λ a. a.id == p) (bound_to referrer) players) r
update-IsLinked p referrer players r free h q e = elim (==_cases q p) [
  | inl same ↦
      let (other, bound) = h q e in
      absurd (cc (bound, ap (λ k. referred_by (find_referee k players)) same, free))
  | inr differs ↦
      let (other, bound) = h q e in
      (
        other,
        ap referred_by
              (find-update_ne (λ a. a.id) (bound_to referrer) (λ a. refl) q p players differs)
            ∙ bound,
      )
]

any-found :
    (p : Uuid) (players : List Referee)
    → any (λ r. r.id == p) players ≡ true
    → (r : Referee) × (find_referee p players ≡ some r)
unfolding find
any-found p [] e = cc
any-found p (r ∷ rs) e = elim (Bool-cases (r.id == p)) [
  | inl y ↦ (r, rw y refl)
  | inr n ↦ rw n (any-found p rs (rw n at e))
]

not_some : (o : Option Uuid) → is_some o ≡ false → o ≡ none
not_some none e = refl
not_some (some i) e = cc

module _ {R : Type 0} (c : Counters R) (id_text : Uuid → Text) where
  link-AllLinked :
      (id p : Uuid) (offer : CodedReferral) (s : Book R)
      → offer.row.referrer_player_id ≢ p
      → referred_by (find_referee p s.players) ≡ none
      → AllLinked s
      → AllLinked (link c id_text id offer p s).1
  link-AllLinked id p offer s other free inv = elim (Bool-cases (any (λ r. r.id == p) s.players)) [
    | inr missing ↦ rw missing inv
    | inl there ↦ elim (Bool-cases (is_taken (bound_code c id_text offer.code p) s.referrals)) [
      | inl taken ↦ rw (there, taken) inv
      | inr unused ↦
          let referrer = offer.row.referrer_player_id in
          let players = update (λ a. a.id == p) (bound_to referrer) s.players in
          let (a, found) = any-found p s.players there in
          let bound : referred_by (find_referee p players) ≡ some referrer =
            ap referred_by
              (find-update_self (λ r. r.id) (bound_to referrer) (λ r. refl) p s.players a found) in
          rw (there, unused)
            (All-append_one (IsLinked players) s.referrals _
              (All-map (IsLinked s.players) (IsLinked players) s.referrals
                (λ r h. update-IsLinked p referrer s.players r free h) inv)
              (λ q e.
                let same : p ≡ q = cc e in
                subst (λ k. (referrer ≢ k) × (referred_by (find_referee k players) ≡ some referrer))
                  same (other, bound)))
    ]
  ]

  bind_with-AllLinked :
      (code : Option Text) (id p : Uuid) (s : Book R)
      → AllLinked s
      → AllLinked (bind_with c id_text code id p s).1
  bind_with-AllLinked code id p s inv = elim (Bool-cases (not (truthy code))) [
    | inl no_code ↦ rw no_code inv
    | inr given ↦ rw given (offered (find (is_offer (or_else code [])) s.referrals))
  ]
    where
      offered : (o : Option CodedReferral) → AllLinked (bind_offer c id_text id p o s).1
      offered none = inv
      offered (some offer) = elim (==_cases offer.row.referrer_player_id p) [
        | inl self ↦
            let same : (offer.row.referrer_player_id == p) ≡ true =
              (==_iff offer.row.referrer_player_id p).1 self in
            rw same inv
        | inr other ↦
            let differs : (offer.row.referrer_player_id == p) ≡ false = ground arith in
            elim (Bool-cases (is_some (referred_by (find_referee p s.players)))) [
              | inl bound ↦ rw (differs, bound) inv
              | inr free ↦
                  rw (differs, free)
                    (link-AllLinked id p offer s other
                      (not_some (referred_by (find_referee p s.players)) free) inv)
            ]
      ]

  try_codes-AllLinked :
      (random : ℕ → List ℕ) (id p : Uuid) (n : ℕ) (s : Book R)
      → AllLinked s
      → AllLinked (try_codes c id_text random id p n s).1
  unfolding try_codes
  try_codes-AllLinked random id p zero s inv = inv
  try_codes-AllLinked random id p (suc n) s inv =
      elim (Bool-cases (is_taken (gen_code (random n)) s.referrals)) [
        | inl taken ↦ rw taken (try_codes-AllLinked random id p n s inv)
        | inr unused ↦ rw unused (
            All-append_one (IsLinked s.players) s.referrals
              (record { code = gen_code (random n); row = pending_row id p none }) inv (λ q e. cc))
      ]

  own_or_new-AllLinked :
      (random : ℕ → List ℕ) (id p : Uuid) (own : Option CodedReferral) (s : Book R)
      → AllLinked s
      → AllLinked (own_or_new c id_text random id p own s).1
  own_or_new-AllLinked random id p none s inv = try_codes-AllLinked random id p 5 s inv
  own_or_new-AllLinked random id p (some r) s inv = inv

  for_player-AllLinked :
      {A : Type 0} (scope : Text) (k : Uuid → Book R → Reply A × Book R) (q : Access Principal)
      (s : Book R)
      → ((p : Uuid) (b : Book R) → AllLinked b → AllLinked (k p b).1)
      → AllLinked s
      → AllLinked (for_player c id_text scope k q s).1
  for_player-AllLinked scope k (refused n code) s keeps inv = inv
  for_player-AllLinked scope k (granted (user_principal i r st)) s keeps inv = inv
  for_player-AllLinked scope k (granted (player_principal i a)) s keeps inv =
      limited i (rate_limit c scope (id_text i) 30 60 s.counters)
    where
      limited : (i : Uuid) (q : Limited × R) → AllLinked (within c id_text (k i) s q).1
      limited i (l, r) = elim (Bool-cases l.allowed) [
        | inl y ↦ rw y (keeps i (record s { counters = r }) inv)
        | inr n ↦ rw n inv
      ]

  -- One request of the two routes that write.
  pub data Step : Book R → Book R → Type 0 where
    creates :
        (a : Accounts) (session : Option Subject) (random : ℕ → List ℕ) (id : Uuid) (s : Book R)
        → Step s (create_code c id_text a session random id s).1
    binds :
        (a : Accounts) (session : Option Subject) (body cookie : Option Text) (id : Uuid)
        (s : Book R)
        → Step s (bind_referral c id_text a session body cookie id s).1

  pub data Steps : Book R → Book R → Type 0 where
    here : {s : Book R} → Steps s s
    next : {s s' s'' : Book R} → Step s s' → Steps s' s'' → Steps s s''

  Step-AllLinked : {s s' : Book R} → Step s s' → AllLinked s → AllLinked s'
  unfolding create_code bind_referral
  Step-AllLinked (creates a session random id s) inv =
      for_player-AllLinked (codes "ref:gen")
        (λ p b. own_or_new c id_text random id p (find (is_own p) b.referrals) b)
        (require_principal a session) s
        (λ p b h. own_or_new-AllLinked random id p (find (is_own p) b.referrals) b h) inv
  Step-AllLinked (binds a session body cookie id s) inv =
      for_player-AllLinked (codes "ref:bind") (bind_with c id_text (chosen body cookie) id)
        (require_principal a session) s (λ p b h. bind_with-AllLinked (chosen body cookie) id p b h)
        inv

  -- Through any sequence of requests for a code and bindings, by whatever sessions, with whatever
  -- codes and bytes: nobody is referred by themselves, and whoever a referral refers is bound to its
  -- referrer, if that holds at the start.
  pub Steps-AllLinked : {s s' : Book R} → Steps s s' → AllLinked s → AllLinked s'
  Steps-AllLinked here inv = inv
  Steps-AllLinked (next s rest) inv = Steps-AllLinked rest (Step-AllLinked s inv)
