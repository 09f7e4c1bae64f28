-- ===== src/Access/RateLimit.antt =====
-- apps/web/lib/auth/ratelimit.ts and packages/shared/src/auth/ratelimit-keys.ts: counters in Redis.
use xgamefi.Prelude.{
  ℕ, zero, suc, ◌+◌, ◌-◌, ◌^◌, ◌<◌, ◌≡◌, inl, inr, refl, arith, min, Bool, ◌++◌, Text, codes, ltb,
  leb, ◌==◌, to_lower, if◌then◌else◌, Bool-cases,
}

-- The commands of Redis on counters, and what they promise within one window: `INCR` adds one to a
-- key, which counts as zero while it is missing, and returns the sum, `EXPIRE` keeps the count,
-- `GET` reads it, and `DEL` sets it back.
pub record Counters (R : Type 0) : Type 0 where
  pub incr : Text → R → ℕ × R
  pub expire : Text → ℕ → R → R
  pub get : Text → R → ℕ
  pub del : Text → R → R
  pub incr-get : (k : Text) (r : R) → (incr k r).0 ≡ get k r + 1
  pub get-incr : (k : Text) (r : R) → get k (incr k r).1 ≡ get k r + 1
  pub get-expire : (k : Text) (s : ℕ) (r : R) → get k (expire k s r) ≡ get k r
  pub get-del : (k : Text) (r : R) → get k (del k r) ≡ 0

abbrev pub rl_key : Text → Text → Text
rl_key scope identifier = codes "rl:" ++ scope ++ codes ":" ++ identifier

abbrev pub login_fail_key : Text → Text
login_fail_key username = codes "login:fail:" ++ to_lower username

unfoldable pub backoff_delay_sec : ℕ → ℕ
backoff_delay_sec failures = if leb failures 3 then 0 else min (2 ^ (failures - 3)) 900

pub record Limited : Type 0 where
  pub allowed : Bool
  pub remaining : ℕ

module _ {R : Type 0} (c : Counters R) where
  abbrev pub first_expires : Text → ℕ → ℕ × R → R
  first_expires key window (n, r) = if n == 1 then c.expire key window r else r

  unfoldable pub rate_limit : Text → Text → ℕ → ℕ → R → Limited × R
  rate_limit scope identifier limit window r =
      let (n, r') = c.incr (rl_key scope identifier) r in
      (
        record { allowed = leb n limit; remaining = limit - n },
        first_expires (rl_key scope identifier) window (n, r'),
      )

  abbrev pub fail_window : ℕ → ℕ
  fail_window n = if ltb 3600 (backoff_delay_sec n) then backoff_delay_sec n else 3600

  unfoldable pub register_login_failure : Text → R → ℕ × R
  register_login_failure username r =
      let (n, r') = c.incr (login_fail_key username) r in
      (n, c.expire (login_fail_key username) (if n == 1 then 3600 else fail_window n) r')

  unfoldable pub clear_login_failures : Text → R → R
  clear_login_failures username r = c.del (login_fail_key username) r

  unfoldable pub login_backoff_active : Text → R → Bool
  login_backoff_active username r = ltb 0 (backoff_delay_sec (c.get (login_fail_key username) r))

  -- How many of `n` calls in a row are allowed, and what `n` failed logins leave.
  abbrev pub allowed_of : Text → Text → ℕ → ℕ → ℕ → R → ℕ
  allowed_of scope identifier limit window zero r = 0
  allowed_of scope identifier limit window (suc n) r =
      let (l, r') = rate_limit scope identifier limit window r in
      let rest = allowed_of scope identifier limit window n r' in
      if l.allowed then suc rest else rest

  abbrev pub failures : Text → ℕ → R → R
  failures username zero r = r
  failures username (suc n) r = failures username n (register_login_failure username r).1

  expires-get :
      (key : Text) (window : ℕ) (q : ℕ × R) → c.get key (first_expires key window q) ≡ c.get key q.1
  expires-get key window (n, r) = elim (Bool-cases (n == 1)) [
    | inl e ↦ rw e (c.get-expire key window r)
    | inr e ↦ rw e refl
  ]

  rate_limit_lem :
      (scope identifier : Text) (limit window : ℕ) (r : R)
      → let q = rate_limit scope identifier limit window r in
        let key = rl_key scope identifier in
        (q.0.allowed ≡ leb (c.get key r + 1) limit) × (c.get key q.1 ≡ c.get key r + 1)
  unfolding rate_limit
  rate_limit_lem scope identifier limit window r =
      let key = rl_key scope identifier in
      (rw (c.incr-get key r) refl, rw (expires-get key window (c.incr key r)) (c.get-incr key r))

  allowed_of-min :
      (scope identifier : Text) (limit window n : ℕ) (r : R)
      → let v = c.get (rl_key scope identifier) r in
        allowed_of scope identifier limit window n r + min v limit ≡ min (v + n) limit
  allowed_of-min scope identifier limit window zero r = omega arith
  allowed_of-min scope identifier limit window (suc n) r =
      let (allowed, counted) = rate_limit_lem scope identifier limit window r in
      let rest =
        allowed_of-min scope identifier limit window n
          (rate_limit scope identifier limit window r).1 in
      ground (arith, allowed, counted, rest)

  -- Of `n` calls in one window, starting with no count, exactly the first `limit` are allowed.
  pub rate_limit_allows :
      (scope identifier : Text) (limit window n : ℕ) (r : R)
      → c.get (rl_key scope identifier) r ≡ 0
      → allowed_of scope identifier limit window n r ≡ min n limit
  rate_limit_allows scope identifier limit window n r fresh =
      omega (arith, fresh, allowed_of-min scope identifier limit window n r)

  failures-get :
      (username : Text) (n : ℕ) (r : R)
      → c.get (login_fail_key username) (failures username n r)
        ≡ c.get (login_fail_key username) r + n
  unfolding register_login_failure
  failures-get username zero r = omega arith
  failures-get username (suc n) r =
      let key = login_fail_key username in
      let q = c.incr key r in
      let s = if q.0 == 1 then 3600 else fail_window q.0 in
      omega (
        arith,
        failures-get username n (register_login_failure username r).1,
        c.get-expire key s q.1,
        c.get-incr key r,
      )

  power_pos : (k : ℕ) → 0 < 2 ^ k
  power_pos zero = omega arith
  power_pos (suc k) = omega (arith, power_pos k)

  pub backoff_pos : (n : ℕ) → ltb 0 (backoff_delay_sec n) ≡ ltb 3 n
  unfolding backoff_delay_sec
  backoff_pos n = ground (arith, power_pos (n - 3))

  -- After `n` failed logins of a user whose failures were cleared, further logins are held back
  -- exactly when there were more than three.
  pub login_backoff_after :
      (username : Text) (n : ℕ) (r : R)
      → login_backoff_active username (failures username n (clear_login_failures username r))
        ≡ ltb 3 n
  unfolding login_backoff_active clear_login_failures
  login_backoff_after username n r =
      let key = login_fail_key username in
      let total : c.get key (failures username n (c.del key r)) ≡ n =
        omega (arith, failures-get username n (c.del key r), c.get-del key r) in
      rw total (backoff_pos n)
