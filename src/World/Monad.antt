-- ===== src/World/Monad.antt =====
-- Calls that read and write the world, and may throw.
use xgamefi.Prelude.{ℕ, ◌+◌, ◌≡◌, refl, ⊤, Bool, Option, none, some, [], ◌∷◌, ◌++◌, if◌then◌else◌}
use xgamefi.Schema.{Uuid, LedgerEntry}
use xgamefi.World.State.{World, Db, Job, Event, External}

pub data HttpCode : Type 0 where
  item_missing studio_missing studio_inactive item_unavailable : HttpCode
  insufficient_stock invalid_promotion_code : HttpCode

-- One constructor for each `throw` of the source. `http` is `HttpError` with its status.
pub data Failure : Type 0 where
  order_not_found trade_not_found listing_not_found item_not_found studio_not_found : Failure
  not_paid no_payout_wallet no_buyer_wallet no_seller_wallet : Failure
  no_api_base_url no_webhook_url not_pull_mode no_entity : Failure
  horizon_failed submit_failed fetch_failed row_not_found write_failed queue_failed : Failure
  out_of_range : Failure
  listing_unavailable own_listing not_owner : Failure
  webhook_failed : Option ℕ → ℕ → Failure
  http : ℕ → HttpCode → Failure

pub data Result (A : Type 0) : Type 0 where
  ok : A → Result A
  err : Failure → Result A

abbrev pub M : Type 0 → Type 0
M A = World → Result A × World

module _ {A : Type 0} where
  abbrev pub pure : A → M A
  pure a w = (ok a, w)

  abbrev pub throw : Failure → M A
  throw e w = (err e, w)

  abbrev pub gets : (World → A) → M A
  gets f w = (ok (f w), w)

  abbrev pub lift : Result A → M A
  lift r w = (r, w)

  -- `if (!row) throw …`
  abbrev pub or_throw : Failure → Option A → M A
  or_throw e none = throw e
  or_throw e (some a) = pure a

abbrev pub proceed : {A B : Type 0} → Result A → (A → M B) → M B
proceed (ok a) f w = f a w
proceed (err e) f w = (err e, w)

infixl 5 ◌>>=◌ ◌>>◌
abbrev pub ◌>>=◌ : {A B : Type 0} → M A → (A → M B) → M B
◌>>=◌ m f w = let (r, w') = m w in proceed r f w'

abbrev pub ◌>>◌ : {A B : Type 0} → M A → M B → M B
m >> k = m >>= λ _. k

abbrev pub throw_if : Bool → Failure → M ⊤
throw_if c e w = (if c then err e else ok tt, w)

abbrev pub modify : (Db → Db) → M ⊤
modify f w = (ok tt, record w { db = f w.db })

abbrev pub enqueue : Job → M ⊤
enqueue j w = (ok tt, record w { jobs = w.jobs ++ j ∷ [] })

abbrev pub enqueue_if : Bool → Job → M ⊤
enqueue_if c j w = (ok tt, record w { jobs = if c then w.jobs ++ j ∷ [] else w.jobs })

-- A statement or a transaction of the database that may throw, and has then written nothing.
abbrev pub write : External → M ⊤ → M ⊤
write x m w = if x.writes w then m w else (err write_failed, w)

-- An `add` to a queue that may throw.
abbrev pub add_job : External → Job → M ⊤
add_job x j w = if x.queues w then enqueue j w else (err queue_failed, w)

-- A publish that fails is caught and logged, so it changes nothing else.
abbrev pub publish : Event → M ⊤
publish e w = (ok tt, record w { events = w.events ++ e ∷ [] })

-- The id of the next row.
abbrev pub next_id : External → M Uuid
next_id x w = (ok (x.fresh_id w.rows), record w { rows = w.rows + 1 })

abbrev roll_back : {A : Type 0} → Db → Result A × World → Result A × World
roll_back db (ok a, w) = (ok a, w)
roll_back db (err e, w) = (err e, record w { db = db })

unfoldable pub transaction : {A : Type 0} → M A → M A
transaction m w = roll_back w.db (m w)

abbrev pub add_ledger : LedgerEntry → M ⊤
add_ledger e = modify λ db. record db { ledger = db.ledger ++ e ∷ [] }

-- A call that goes on ended well, and the rest started from the world that it left.
pub proceed-ok :
    {A B : Type 0} (r : Result A) (f : A → M B) (w : World) {b : B}
    → (proceed r f w).0 ≡ ok b
    → (a : A) × (r ≡ ok a) × ((f a w).0 ≡ ok b)
proceed-ok (ok a) f w h = (a, refl, h)
proceed-ok (err e) f w h = cc
