-- ===== src/Idempotency/Tests.antt =====
-- A request that is repeated, with a list of the held keys for Redis.
use xgamefi.Prelude.{
  ℕ, ◌+◌, ◌≡◌, refl, arith, Bool, true, false, not, Option, some, List, [], ◌∷◌, Text, codes, any,
  remove, find, text_eq, if◌then◌else◌, Bool-cases, inl, inr,
}
use xgamefi.Idempotency.{
  Locks, RequestArgs, Store, returned, key_conflict, with_idempotency, with_idempotency_again,
}

abbrev set_key : Text → List Text → Bool × List Text
set_key k r = if any (text_eq k) r then (false, r) else (true, k ∷ r)

set_key-held : (k : Text) (r : List Text) → (set_key k r).0 ≡ not (any (text_eq k) r)
set_key-held k r = elim (Bool-cases (any (text_eq k) r)) [ inl e ↦ rw e refl | inr e ↦ rw e refl ]

remove-held : (k : Text) (r : List Text) → any (text_eq k) (remove (text_eq k) r) ≡ false
unfolding remove
remove-held k [] = refl
remove-held k (j ∷ r) = ground (arith, remove-held k r)

abbrev held_keys : Locks (List Text)
held_keys = record {
  set_nx = set_key;
  del = λ k r. remove (text_eq k) r;
  held = λ k r. any (text_eq k) r;
  set_nx-held = set_key-held;
  del-held = remove-held;
}

abbrev args : RequestArgs
args = record { key = codes "k1"; scope = codes "quote"; request_hash = codes "aa" }

abbrev start : Store (List Text) ℕ ℕ
start = record { redis = []; rows = []; state = 4 }

-- The request counts its runs.
abbrev counted : ℕ → Option ℕ × ℕ
counted n = (some n, n + 1)

first_run : (with_idempotency held_keys args counted start).0 ≡ returned 4
unfolding with_idempotency find
first_run = refl

hashes_differ : text_eq args.request_hash (codes "bb") ≡ false
unfolding text_eq
hashes_differ = refl

abbrev after_first : Store (List Text) ℕ ℕ
after_first = (with_idempotency held_keys args counted start).1

abbrev other_args : RequestArgs
other_args = record args { request_hash = codes "bb" }

with_idempotency_again_example :
    (((with_idempotency held_keys args counted after_first).0 ≡ returned 4)
      × ((with_idempotency held_keys args counted after_first).1.rows ≡ after_first.rows)
      × ((with_idempotency held_keys args counted after_first).1.state ≡ after_first.state))
    × (((with_idempotency held_keys other_args counted after_first).0 ≡ key_conflict)
        × ((with_idempotency held_keys other_args counted after_first).1.rows ≡ after_first.rows)
        × ((with_idempotency held_keys other_args counted after_first).1.state ≡ after_first.state))
with_idempotency_again_example =
    with_idempotency_again held_keys args counted counted start 4 (codes "bb") first_run
      hashes_differ
