-- ===== src/Access/Sessions/Revoked.antt =====
-- What becomes of a session that was revoked.
use xgamefi.Prelude.{
  ℕ, ◌≡◌, ◌≢◌, refl, sym, ◌∙◌, subst, inl, inr, Option, none, some, List, [], ◌∷◌, Text, All,
}
use xgamefi.Access.Guards.{Subject}
use xgamefi.Access.Sessions.{
  KeyValues, Sessions, idle_ttl_sec, session_key, create_session, refreshed, read_session,
  revoke_session, Event, created, read, revoked, lapsed, happen, run,
}
use xgamefi.Access.Sessions.Backed.{session_key-ne, text_cases}

module _ {R : Type 0} (c : KeyValues R Subject) (hash_token : Text → Text) where
  -- The event does not create a session with that hash.
  abbrev pub IsOther : Text → Event → Type 0
  IsOther h (created id subject agent ip now) = h ≢ hash_token id
  IsOther h (read id now) = Unit {0}
  IsOther h (revoked id now) = Unit {0}
  IsOther h (lapsed key) = Unit {0}

  abbrev Gone : Text → Sessions R → Type 0
  Gone h s = c.get (session_key h) s.redis ≡ none

  refreshed-Gone :
      (g h : Text) (now : ℕ) (o : Option Subject) (s : Sessions R)
      → Gone g s
      → Gone g (refreshed c hash_token h now o s).1
  refreshed-Gone g h now none s b = b
  refreshed-Gone g h now (some subject) s b =
      c.get-expire (session_key g) (session_key h) idle_ttl_sec s.redis ∙ b

  deleted-Gone :
      (g key : Text) (s : Sessions R) → Gone g s → c.get (session_key g) (c.del key s.redis) ≡ none
  deleted-Gone g key s b = elim (text_cases (session_key g) key) [
    | inl same ↦ subst (λ k. c.get k (c.del key s.redis) ≡ none) (sym same) (c.get-del key s.redis)
    | inr other ↦ c.get-del_ne (session_key g) key s.redis other ∙ b
  ]

  happen-Gone :
      (g : Text) (e : Event) (s : Sessions R)
      → IsOther g e
      → Gone g s
      → Gone g (happen c hash_token e s)
  unfolding happen create_session read_session revoke_session
  happen-Gone g (created id subject agent ip now) s o b =
      c.get-set_ne (session_key g) (session_key (hash_token id)) subject idle_ttl_sec s.redis
        (session_key-ne g (hash_token id) o)
      ∙ b
  happen-Gone g (read id now) s o b =
      refreshed-Gone g (hash_token id) now (c.get (session_key (hash_token id)) s.redis) s b
  happen-Gone g (revoked id now) s o b = deleted-Gone g (session_key (hash_token id)) s b
  happen-Gone g (lapsed key) s o b = deleted-Gone g key s b

  run-Gone :
      (g : Text) (es : List Event) (s : Sessions R)
      → All (IsOther g) es
      → Gone g s
      → Gone g (run c hash_token es s)
  unfolding run
  run-Gone g [] s o b = b
  run-Gone g (e ∷ es) s (o, os) b =
      run-Gone g es (happen c hash_token e s) os (happen-Gone g e s o b)

  -- A session that was revoked is not read again, whatever calls come between that create no
  -- session whose id has the same hash.
  pub read_session-revoked :
      (session_id : Text) (revoked_at read_at : ℕ) (es : List Event) (s : Sessions R)
      → All (IsOther (hash_token session_id)) es
      → (read_session c hash_token session_id read_at
          (run c hash_token es (revoke_session c hash_token session_id revoked_at s))).0
        ≡ none
  unfolding read_session revoke_session
  read_session-revoked session_id revoked_at read_at es s o =
      let h = hash_token session_id in
      let s' = run c hash_token es (revoke_session c hash_token session_id revoked_at s) in
      rw
        (run-Gone h es (revoke_session c hash_token session_id revoked_at s) o
          (c.get-del (session_key h) s.redis))
        refl
