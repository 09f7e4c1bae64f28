-- ===== src/Access/Wallet/Once.antt =====
-- A challenge lets at most one request in, however the calls of the requests are interleaved, and
-- only one that proves the address.
use xgamefi.Prelude.{
  ℕ, zero, suc, ◌+◌, ◌≤◌, ◌≡◌, refl, ap, ◌∙◌, subst, arith, inl, inr, Bool, true, false, ◌&&◌,
  Option, none, some, List, [], ◌∷◌, Text, ◌==◌, ==_iff, find, find-accepts, find_last-accepts,
  update, count, count-append, if◌then◌else◌, Bool-cases,
}
use xgamefi.Schema.{Uuid, Address, Player}
use xgamefi.Access.Guards.{Subject}
use xgamefi.Access.Sessions.{KeyValues}
use xgamefi.Access.Wallet.{
  Challenge, Keys, open_for, unused, find_challenge, claim, issue_challenge, upserted, Login,
  VerifyRequest, Response, logged_in, invalid_signature, challenge_ttl_ms, verify_wallet_signature,
  challenged, claimed, wallet_verify,
}

-- A turn: a request for a challenge, or the part of a login behind its reading of a challenge. Between
-- the two calls of one login, the turns of others may come: the challenge was read at any time before.
pub data Turn : Type 0 where
  issued : Uuid → Text → Address → ℕ → Turn
  verifies : VerifyRequest → Challenge → Turn

abbrev pub is_login : Response → Bool
is_login (logged_in id a) = true
is_login invalid_signature = false

abbrev pub issues : Uuid → Turn → Bool
issues id (issued j nonce a now) = j == id
issues id (verifies q r) = false

count-claimed :
    (id : Uuid) (now : ℕ) (rows : List Challenge)
    → count (unused id) (update (unused id) (λ r. record r { used_at = some now }) rows) ≡ 0
unfolding count update
count-claimed id now [] = refl
count-claimed id now (r ∷ rows) = ground (arith, count-claimed id now rows)

count-claimed_le :
    (id j : Uuid) (now : ℕ) (rows : List Challenge)
    → count (unused id) (update (unused j) (λ r. record r { used_at = some now }) rows)
      ≤ count (unused id) rows
unfolding count update
count-claimed_le id j now [] = omega arith
count-claimed_le id j now (r ∷ rows) = ground (arith, count-claimed_le id j now rows)

module _ {R K : Type 0} (c : KeyValues R Subject) (hash_token : Text → Text) (k : Keys K) where
  abbrev pub after_turn : Turn → Login R → Login R
  after_turn (issued id nonce a now) s = record s {
    challenges = issue_challenge id nonce a now s.challenges;
  }
  after_turn (verifies q r) s = (challenged c hash_token k q (some r) s).1

  -- The turn is answered with a login, by that challenge.
  abbrev pub lets_in : Uuid → Turn → Login R → Bool
  lets_in id (issued j nonce a now) s = false
  lets_in id (verifies q r) s = (r.id == id) && is_login (challenged c hash_token k q (some r) s).0

  abbrev pub logins : Uuid → List Turn → Login R → ℕ
  logins id [] s = 0
  logins id (e ∷ es) s =
      let rest = logins id es (after_turn e s) in if lets_in id e s then suc rest else rest

  -- The handler behind the claim: it logs in only where the claim changed a row.
  claimed_open :
      (id : Uuid) (q : VerifyRequest) (same : Bool) (n m : ℕ) (rows : List Challenge) (s : Login R)
      → (if same then n else 0) + count (unused id) rows ≤ m
      → (if same && is_login (claimed c hash_token k q (n, rows) s).0 then 1 else 0)
          + count (unused id) (claimed c hash_token k q (n, rows) s).1.challenges
        ≤ m
  claimed_open id q false zero m rows s h = h
  claimed_open id q false (suc n) m rows s h = h
  claimed_open id q true zero m rows s h = h
  claimed_open id q true (suc n) m rows s h = omega (arith, h)

  -- What the claim of a challenge takes from the open rows of one.
  claim_open :
      (id j : Uuid) (now : ℕ) (rows : List Challenge)
      → (if j == id then (claim j now rows).0 else 0) + count (unused id) (claim j now rows).1
        ≤ count (unused id) rows
  unfolding claim
  claim_open id j now rows = elim (Bool-cases (j == id)) [
    | inl e ↦
        let same : j ≡ id = (==_iff j id).0 e in
        let spent : count (unused id) (claim j now rows).1 ≡ 0 =
          subst (λ i. count (unused i) (claim j now rows).1 ≡ 0) same (count-claimed j now rows) in
        let here : count (unused j) rows ≡ count (unused id) rows =
          ap (λ i. count (unused i) rows) same in
        rw e (omega (arith, spent, here))
    | inr n ↦ rw n (omega (arith, count-claimed_le id j now rows))
  ]

  -- The same for whether the signature fits.
  signed_open :
      (id : Uuid) (q : VerifyRequest) (r : Challenge) (s : Login R) (fits : Bool)
      → let e =
          if fits
          then claimed c hash_token k q (claim r.id q.now s.challenges) s
          else (invalid_signature, s) in
        (if (r.id == id) && is_login e.0 then 1 else 0) + count (unused id) e.1.challenges
        ≤ count (unused id) s.challenges
  signed_open id q r s true =
      let rows = s.challenges in
      unfold claim in
      claimed_open id q (r.id == id) (claim r.id q.now rows).0 (count (unused id) rows)
        (claim r.id q.now rows).1 s (claim_open id r.id q.now rows)
  signed_open id q r s false = elim (Bool-cases (r.id == id)) [
    | inl e ↦ rw e (omega arith)
    | inr n ↦ rw n (omega arith)
  ]

  open_after :
      (id : Uuid) (e : Turn) (s : Login R)
      → (if lets_in id e s then 1 else 0) + count (unused id) (after_turn e s).challenges
        ≤ (if issues id e then 1 else 0) + count (unused id) s.challenges
  unfolding issue_challenge count
  open_after id (issued j nonce a now) s =
      let row : Challenge = record {
        id = j;
        wallet_address = a;
        nonce = nonce;
        expires_at = now + challenge_ttl_ms;
        used_at = none;
      } in
      rw (count-append (unused id) s.challenges (row ∷ [])) (ground arith)
  open_after id (verifies q r) s =
      let fits = verify_wallet_signature k q.wallet_address r.nonce q.signature in
      subst
        (λ m.
          (if lets_in id (verifies q r) s then 1 else 0)
            + count (unused id) (after_turn (verifies q r) s).challenges
          ≤ m)
        (omega arith) (signed_open id q r s fits)

  -- In any order of the requests, each login having read its challenge at whatever time before it
  -- claims it: the logins by one challenge are at most as many as the rows of it that were open at the
  -- start and that were issued since.
  pub logins-le :
      (id : Uuid) (es : List Turn) (s : Login R)
      → logins id es s ≤ count (unused id) s.challenges + count (issues id) es
  unfolding count
  logins-le id [] s = omega arith
  logins-le id (e ∷ es) s = ground (arith, open_after id e s, logins-le id es (after_turn e s))

-- The challenge that a login used: it was the newest open one of the address, the signature fits
-- its nonce, and it is open no more.
pub record IsProved {R K : Type 0} (k : Keys K) (q : VerifyRequest) (s s' : Login R) (a : Address)
    : Type 0 where
  pub challenge : Challenge
  pub newest : find_challenge q.wallet_address q.now s.challenges ≡ some challenge
  pub is_open : open_for q.wallet_address q.now challenge ≡ true
  pub signed : verify_wallet_signature k q.wallet_address challenge.nonce q.signature ≡ true
  pub spent : count (unused challenge.id) s'.challenges ≡ 0
  pub address : a ≡ q.wallet_address

upserted-address :
    (id : Uuid) (a : Address) (o : Option Player) (players : List Player)
    → find (λ p. p.wallet_address == a) players ≡ o
    → (upserted id a o players).0.wallet_address ≡ a
upserted-address id a none players e = refl
upserted-address id a (some p) players e =
    (==_iff p.wallet_address a).0 (find-accepts (λ p. p.wallet_address == a) players p e)

module _ {R K : Type 0} (c : KeyValues R Subject) (hash_token : Text → Text) (k : Keys K) where
  claimed-spent :
      (q : VerifyRequest) (n : ℕ) (rows : List Challenge) (s : Login R) (id : Uuid) (a : Address)
      → (claimed c hash_token k q (n, rows) s).0 ≡ logged_in id a
      → ((claimed c hash_token k q (n, rows) s).1.challenges ≡ rows) × (a ≡ q.wallet_address)
  claimed-spent q zero rows s id a e = cc
  claimed-spent q (suc n) rows s id a e =
      (refl, cc (e, upserted-address q.player_id q.wallet_address _ s.players refl))

  challenged-IsProved :
      (q : VerifyRequest) (s : Login R) (o : Option Challenge) (id : Uuid) (a : Address)
      → find_challenge q.wallet_address q.now s.challenges ≡ o
      → (challenged c hash_token k q o s).0 ≡ logged_in id a
      → IsProved k q s (challenged c hash_token k q o s).1 a
  unfolding find_challenge claim
  challenged-IsProved q s none id a f e = cc
  challenged-IsProved q s (some r) id a f e =
      elim (Bool-cases (verify_wallet_signature k q.wallet_address r.nonce q.signature)) [
        | inl v ↦
            let rows = (claim r.id q.now s.challenges).1 in
            let (kept, same) =
              claimed-spent q (claim r.id q.now s.challenges).0 rows s id a (rw v at e) in
            rw v record {
              challenge = r;
              newest = f;
              is_open = find_last-accepts (open_for q.wallet_address q.now) s.challenges r f;
              signed = v;
              spent = ap (count (unused r.id)) kept ∙ count-claimed r.id q.now s.challenges;
              address = same;
            }
        | inr v ↦ cc (rw v at e)
      ]

  -- A login answers with the address of the request, and only if the newest open challenge of the
  -- address, unused and not expired, has a nonce whose message the signature fits; the login
  -- leaves that challenge used.
  pub wallet_verify-IsProved :
      (q : VerifyRequest) (s : Login R) (id : Uuid) (a : Address)
      → (wallet_verify c hash_token k q s).0 ≡ logged_in id a
      → IsProved k q s (wallet_verify c hash_token k q s).1 a
  unfolding wallet_verify
  wallet_verify-IsProved q s id a e =
      challenged-IsProved q s (find_challenge q.wallet_address q.now s.challenges) id a refl e
