-- ===== src/Access/Sessions/Backed.antt =====
-- Redis and the table of sessions over any sequence of calls.
use xgamefi.Prelude.{
  ◌⊎◌, ℕ, ◌+◌, ◌*◌, ◌≡◌, ◌≢◌, refl, sym, ◌∙◌, subst, inl, inr, Bool, false, Option, none, some,
  List, [], ◌∷◌, ◌++◌, Text, text_eq, text_eq_sound, text_eq_refl, update, Has, Bool-cases,
  if◌then◌else◌,
}
use xgamefi.Access.Guards.{Subject}
use xgamefi.Access.Sessions.{
  KeyValues, SessionRow, Sessions, idle_ttl_sec, session_key, unrevoked, create_session, refreshed,
  read_session, revoke_session, Event, created, read, revoked, lapsed, happen, run,
}

-- A row of the session that was not revoked, of the subject.
abbrev pub BackedBy : Text → Subject → SessionRow → Type 0
BackedBy hash subject r = (r.token_hash ≡ hash) × (r.subject ≡ subject) × (r.revoked_at ≡ none)

-- Whatever subject Redis gives for a session has such a row.
abbrev pub IsBacked : {R : Type 0} → KeyValues R Subject → Sessions R → Type 0
IsBacked c s =
    (hash : Text) (subject : Subject)
    → c.get (session_key hash) s.redis ≡ some subject
    → Has (BackedBy hash subject) s.rows

pub session_key-ne : (g h : Text) → g ≢ h → session_key g ≢ session_key h
session_key-ne g h n e = n (cc e)

pub text_cases : (g h : Text) → (g ≡ h) ⊎ (g ≢ h)
text_cases g h = elim (Bool-cases (text_eq g h)) [
  | inl e ↦ inl (text_eq_sound g h e)
  | inr e ↦ inr λ same. cc (subst (λ x. text_eq g x ≡ false) (sym same) e, text_eq_refl g)
]

module _ (P : SessionRow → Type 0) where
  append_right : (xs ys : List SessionRow) → Has P ys → Has P (xs ++ ys)
  append_right [] ys h = h
  append_right (x ∷ xs) ys h = inr (append_right xs ys h)

  append_left : (xs ys : List SessionRow) → Has P xs → Has P (xs ++ ys)
  append_left [] ys h = absurd h
  append_left (x ∷ xs) ys (inl p) = inl p
  append_left (x ∷ xs) ys (inr h) = inr (append_left xs ys h)

  Has-update :
      (p : SessionRow → Bool) (f : SessionRow → SessionRow) (xs : List SessionRow)
      → ((r : SessionRow) → P r → P (if p r then f r else r))
      → Has P xs
      → Has P (update p f xs)
  unfolding update
  Has-update p f [] keeps h = absurd h
  Has-update p f (x ∷ xs) keeps (inl h) = inl (keeps x h)
  Has-update p f (x ∷ xs) keeps (inr h) = inr (Has-update p f xs keeps h)

refresh_keeps :
    (g h : Text) (subject : Subject) (t : ℕ) (r : SessionRow)
    → BackedBy g subject r
    → BackedBy g subject (if unrevoked h r then record r { expires_at = t } else r)
refresh_keeps g h subject t r b = elim (Bool-cases (unrevoked h r)) [
  | inl u ↦ rw u b
  | inr u ↦ rw u b
]

revoke_keeps :
    (g h : Text) (subject : Subject) (t : ℕ) (r : SessionRow)
    → g ≢ h
    → BackedBy g subject r
    → BackedBy g subject (if unrevoked h r then record r { revoked_at = some t } else r)
revoke_keeps g h subject t r n (e, f, v) = elim (Bool-cases (text_eq r.token_hash h)) [
  | inl u ↦ absurd (n (sym e ∙ text_eq_sound r.token_hash h u))
  | inr u ↦ rw u (e, f, v)
]

module _ {R : Type 0} (c : KeyValues R Subject) (hash_token : Text → Text) where
  create-IsBacked :
      (id : Text) (subject : Subject) (agent ip : Text) (now : ℕ) (s : Sessions R)
      → IsBacked c s
      → IsBacked c (create_session c hash_token id subject agent ip now s)
  unfolding create_session
  create-IsBacked id subject agent ip now s b g owner e =
      let h = hash_token id in
      elim (text_cases g h) [
        | inl same ↦
            let r = c.set (session_key h) subject idle_ttl_sec s.redis in
            let given : some subject ≡ some owner =
              sym (c.get-set (session_key h) subject idle_ttl_sec s.redis)
              ∙ subst (λ k. c.get (session_key k) r ≡ some owner) same e in
            append_right (BackedBy g owner) s.rows _ (inl (sym same, cc given, refl))
        | inr other ↦ append_left (BackedBy g owner) s.rows _ (
            b g owner (
              sym (
                c.get-set_ne (session_key g) (session_key h) subject idle_ttl_sec s.redis
                  (session_key-ne g h other))
              ∙ e))
      ]

  revoke-IsBacked :
      (id : Text) (now : ℕ) (s : Sessions R)
      → IsBacked c s
      → IsBacked c (revoke_session c hash_token id now s)
  unfolding revoke_session
  revoke-IsBacked id now s b g owner e =
      let h = hash_token id in
      elim (text_cases g h) [
        | inl same ↦ cc (
          subst (λ k. c.get (session_key k) (c.del (session_key h) s.redis) ≡ some owner) same e,
          c.get-del (session_key h) s.redis,
        )
        | inr other ↦
            Has-update (BackedBy g owner) (unrevoked h) _ s.rows
              (λ r p. revoke_keeps g h owner now r other p)
              (b g owner (
                sym
                  (c.get-del_ne (session_key g) (session_key h) s.redis (session_key-ne g h other))
                ∙ e))
      ]

  refreshed-IsBacked :
      (h : Text) (now : ℕ) (o : Option Subject) (s : Sessions R)
      → IsBacked c s
      → IsBacked c (refreshed c hash_token h now o s).1
  refreshed-IsBacked h now none s b = b
  refreshed-IsBacked h now (some subject) s b = λ g owner e.
      Has-update (BackedBy g owner) (unrevoked h) _ s.rows
        (λ r p. refresh_keeps g h owner (now + idle_ttl_sec * 1000) r p)
        (b g owner (sym (c.get-expire (session_key g) (session_key h) idle_ttl_sec s.redis) ∙ e))

  lapse-IsBacked :
      (key : Text) (s : Sessions R)
      → IsBacked c s
      → IsBacked c (record s { redis = c.del key s.redis })
  lapse-IsBacked key s b g owner e = elim (text_cases (session_key g) key) [
    | inl same ↦
        cc (subst (λ k. c.get k (c.del key s.redis) ≡ some owner) same e, c.get-del key s.redis)
    | inr other ↦ b g owner (sym (c.get-del_ne (session_key g) key s.redis other) ∙ e)
  ]

  happen-IsBacked :
      (e : Event) (s : Sessions R) → IsBacked c s → IsBacked c (happen c hash_token e s)
  unfolding happen read_session
  happen-IsBacked (created id subject agent ip now) s b =
      create-IsBacked id subject agent ip now s b
  happen-IsBacked (read id now) s b =
      refreshed-IsBacked (hash_token id) now (c.get (session_key (hash_token id)) s.redis) s b
  happen-IsBacked (revoked id now) s b = revoke-IsBacked id now s b
  happen-IsBacked (lapsed key) s b = lapse-IsBacked key s b

  -- After any calls, from a state in which it holds, each session that Redis gives has a row for
  -- the same subject that was not revoked.
  pub run-IsBacked :
      (es : List Event) (s : Sessions R) → IsBacked c s → IsBacked c (run c hash_token es s)
  unfolding run
  run-IsBacked [] s b = b
  run-IsBacked (e ∷ es) s b = run-IsBacked es (happen c hash_token e s) (happen-IsBacked e s b)
