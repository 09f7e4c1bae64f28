-- ===== src/Access/Samples.antt =====
-- A function for the values in Redis, a list of keys for its counters, one entry a count, and a
-- studio's owner.
use xgamefi.Prelude.{
  ℕ, ◌+◌, ◌≡◌, ◌≢◌, refl, inl, inr, arith, true, Option, none, some, List, [], ◌∷◌, ◌++◌, Text,
  codes, text_eq, text_eq_sound, text_eq_refl, if◌then◌else◌, Bool-cases, count, remove,
}
use xgamefi.Access.Guards.{Subject, Accounts, User, studio_owner}
use xgamefi.Access.Sessions.{KeyValues}
use xgamefi.Access.RateLimit.{Counters}

abbrev pub Values : Type 0
Values = Text → Option Subject

abbrev pub put : Text → Option Subject → Values → Values
put k v r j = if text_eq j k then v else r j

pub put_same : (k : Text) (v : Option Subject) (r : Values) → put k v r k ≡ v
put_same k v r = rw (text_eq_refl k) refl

pub put_other : (j k : Text) (v : Option Subject) (r : Values) → j ≢ k → put k v r j ≡ r j
put_other j k v r n = elim (Bool-cases (text_eq j k)) [
  | inl e ↦ absurd (n (text_eq_sound j k e))
  | inr e ↦ rw e refl
]

abbrev pub values : KeyValues Values Subject
values = record {
  set = λ k v ttl r. put k (some v) r;
  get = λ k r. r k;
  expire = λ k ttl r. r;
  del = λ k r. put k none r;
  get-set = λ k v ttl r. put_same k (some v) r;
  get-set_ne = λ j k v ttl r n. put_other j k (some v) r n;
  get-expire = λ j k ttl r. refl;
  get-del = λ k r. put_same k none r;
  get-del_ne = λ j k r n. put_other j k none r n;
}

abbrev pub hash : Text → Text
hash s = codes "h" ++ s

abbrev pub counted : Text → List Text → ℕ
counted k r = count (text_eq k) r

pub counted_more : (k : Text) (r : List Text) → counted k (k ∷ r) ≡ counted k r + 1
unfolding count
counted_more k r = rw (text_eq_refl k) (omega arith)

pub counted_none : (k : Text) (r : List Text) → counted k (remove (text_eq k) r) ≡ 0
unfolding count remove
counted_none k [] = refl
counted_none k (j ∷ r) = ground (arith, counted_none k r)

abbrev pub counters : Counters (List Text)
counters = record {
  incr = λ k r. (counted k r + 1, k ∷ r);
  expire = λ k s r. r;
  get = counted;
  del = λ k r. remove (text_eq k) r;
  incr-get = λ k r. refl;
  get-incr = counted_more;
  get-expire = λ k s r. refl;
  get-del = counted_none;
}

abbrev pub owner : User
owner = record { id = 5; role = studio_owner; studio_id = some 1; is_active = true }

abbrev pub accounts : Accounts
accounts = record { users = owner ∷ []; players = [] }
