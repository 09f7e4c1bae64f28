-- ===== src/Orders/FollowUp.antt =====
-- The jobs and the event that follow an advanced order.
use xgamefi.Prelude.{
  ◌≡◌, refl, ap, ◌∙◌, Bool, true, false, not, Option, none, some, List, [], ◌∷◌, ◌++◌, Has,
  if◌then◌else◌, subst, ltb, count, has, ◌&&◌, ◌↔◌, inl, inr, ==_iff, ==_refl, Bool-cases, arith,
  sym, Has-append_left, Has-append_self,
}
use mathlib.Core.List.{append-nil, append_assoc}
use xgamefi.Schema.{LedgerEntry, LedgerEntryType, Uuid, TxHash, PaymentStatus, Order}
use xgamefi.World.{
  World, Db, External, Job, payout, webhook, referral_reward, mock_delivery, payment_event, Result,
  ok, err, pure, transaction, ◌>>=◌, ◌>>◌,
}
use xgamefi.Orders.{
  is_payout, payout_exists, delivery_exists, follow_up, delivers_to_mock, find_order, after_advance,
  AdvanceResult, paid, already, declined, advance_order, verify_and_advance_order,
}

abbrev pub Queued : Job → World → Type 0
Queued j w = Has (λ k. k ≡ j) w.jobs

-- The jobs that are due for the order `i`: its payout and its webhook where the database has no
-- record of them, the reward of a referral that qualified, and the delivery to a mock game.
abbrev pub job_if : Bool → Job → List Job
job_if c j = if c then j ∷ [] else []

abbrev pub reward_of : Option Uuid → List Job
reward_of none = []
reward_of (some r) = referral_reward r ∷ []

abbrev pub due : Uuid → Option Uuid → World → List Job
due i referral w =
    (if payout_exists i w.db then [] else payout i ∷ [])
    ++ ((if delivery_exists i w.db then [] else webhook i ∷ [])
        ++ (reward_of referral
            ++ (if delivers_to_mock (find_order i w.db) w.db then mock_delivery i ∷ [] else [])))

-- The entry books the payout of the order `i`.
abbrev pub IsPayoutOf : Uuid → LedgerEntry → Type 0
IsPayoutOf i e = (e.order_id ≡ some i) × (e.kind ≡ LedgerEntryType.payout_out)

-- What follows the transaction for the order `i`, from `w` to `w'`.
pub record IsFollowed (i : Uuid) (referral : Option Uuid) (w w' : World) : Type 0 where
  pub db_kept : w'.db ≡ w.db
  pub sent_kept : w'.sent ≡ w.sent
  pub jobs : w'.jobs ≡ w.jobs ++ due i referral w
  pub payout_record : (payout_exists i w.db ≡ true) ↔ Has (IsPayoutOf i) w.db.ledger
  pub webhook_record :
      (delivery_exists i w.db ≡ true) ↔ Has (λ d. d.order_id ≡ some i) w.db.deliveries
  pub jobs_kept : (j : Job) → Queued j w → Queued j w'
  pub payout_queued : payout_exists i w.db ≡ false → Queued (payout i) w'
  pub webhook_queued : delivery_exists i w.db ≡ false → Queued (webhook i) w'
  pub reward_queued : (r : Uuid) → referral ≡ some r → Queued (referral_reward r) w'
  pub told : w'.events ≡ w.events ++ payment_event i PaymentStatus.paid ∷ []

-- The queue after one conditional `add`.
abbrev added : Bool → Job → List Job → List Job
added c j js = if c then js ++ j ∷ [] else js

added_self : (c : Bool) (j : Job) (js : List Job) → c ≡ true → Has (λ k. k ≡ j) (added c j js)
added_self c j js h = rw h (Has-append_self j js)

added_keeps :
    (c : Bool) (j l : Job) (js : List Job) → Has (λ k. k ≡ l) js → Has (λ k. k ≡ l) (added c j js)
added_keeps true j l js h = Has-append_left l js (j ∷ []) h
added_keeps false j l js h = h

abbrev rewarded : Option Uuid → List Job → List Job
rewarded none js = js
rewarded (some r) js = js ++ referral_reward r ∷ []

rewarded_keeps :
    (o : Option Uuid) (l : Job) (js : List Job)
    → Has (λ k. k ≡ l) js
    → Has (λ k. k ≡ l) (rewarded o js)
rewarded_keeps none l js h = h
rewarded_keeps (some r) l js h = Has-append_left l js (referral_reward r ∷ []) h

-- The queue after the follow-up.
abbrev queue_after : Uuid → Option Uuid → World → List Job
queue_after i o w = added (delivers_to_mock (find_order i w.db) w.db) (mock_delivery i) (
    rewarded o (
      added (not (delivery_exists i w.db)) (webhook i)
        (added (not (payout_exists i w.db)) (payout i) w.jobs)))

abbrev pub followed : Uuid → Option Uuid → World → World
followed i o w = record w {
  jobs = queue_after i o w;
  events = w.events ++ payment_event i PaymentStatus.paid ∷ [];
}

pub follow_up_lem :
    (i : Uuid) (o : Option Uuid) (w : World) → follow_up i o w ≡ (ok tt, followed i o w)
unfolding follow_up
follow_up_lem i none w = refl
follow_up_lem i (some r) w = refl

added-job_if : (c : Bool) (j : Job) (js : List Job) → added c j js ≡ js ++ job_if c j
added-job_if true j js = refl
added-job_if false j js = sym (append-nil js)

job_if_missing : (c : Bool) (j : Job) → job_if (not c) j ≡ (if c then [] else j ∷ [])
job_if_missing true j = refl
job_if_missing false j = refl

rewarded_once : (o : Option Uuid) (js : List Job) → rewarded o js ≡ js ++ reward_of o
rewarded_once none js = sym (append-nil js)
rewarded_once (some r) js = refl

queue_after_lem : (i : Uuid) (o : Option Uuid) (w : World) → queue_after i o w ≡ w.jobs ++ due i o w
queue_after_lem i o w =
    let mock = delivers_to_mock (find_order i w.db) w.db in
    let p = not (payout_exists i w.db) in
    let d = not (delivery_exists i w.db) in
    let paid_out = job_if p (payout i) in
    let told = job_if d (webhook i) in
    let first : added p (payout i) w.jobs ≡ w.jobs ++ paid_out = added-job_if p (payout i) w.jobs in
    let second : added d (webhook i) (added p (payout i) w.jobs) ≡ (w.jobs ++ paid_out) ++ told =
      added-job_if d (webhook i) _ ∙ ap (λ js. js ++ told) first in
    let third = rewarded_once o _ ∙ ap (λ js. js ++ reward_of o) second in
    let fourth =
      added-job_if mock (mock_delivery i) _
      ∙ ap (λ js. js ++ job_if mock (mock_delivery i)) third in
    fourth
    ∙ append_assoc ((w.jobs ++ paid_out) ++ told) (reward_of o) (job_if mock (mock_delivery i))
    ∙ append_assoc (w.jobs ++ paid_out) told _
    ∙ append_assoc w.jobs paid_out _
    ∙ ap (λ a. w.jobs ++ (a ++ (told ++ (reward_of o ++ job_if mock (mock_delivery i)))))
        (job_if_missing (payout_exists i w.db) (payout i))
    ∙ ap
        (λ b.
          w.jobs
          ++ ((if payout_exists i w.db then [] else payout i ∷ [])
              ++ (b ++ (reward_of o ++ job_if mock (mock_delivery i)))))
        (job_if_missing (delivery_exists i w.db) (webhook i))

module _ {A : Type 0} (p : A → Bool) (P : A → Type 0) where
  counted-Has : ((a : A) → p a ≡ true → P a) → (xs : List A) → ltb 0 (count p xs) ≡ true → Has P xs
  unfolding count
  counted-Has to [] e = ground (arith, e)
  counted-Has to (x ∷ xs) e = elim (Bool-cases (p x)) [
    | inl y ↦ inl (to x y)
    | inr n ↦ inr (counted-Has to xs (rw n at e))
  ]

  Has-counted : ((a : A) → P a → p a ≡ true) → (xs : List A) → Has P xs → ltb 0 (count p xs) ≡ true
  unfolding count
  Has-counted from [] h = absurd h
  Has-counted from (x ∷ xs) (inl h) = rw (from x h) (ground arith)
  Has-counted from (x ∷ xs) (inr h) = ground (arith, Has-counted from xs h)

  counted_iff :
      ((a : A) → p a ≡ true → P a)
      → ((a : A) → P a → p a ≡ true)
      → (xs : List A) → (ltb 0 (count p xs) ≡ true) ↔ Has P xs
  counted_iff to from xs = (counted-Has to xs, Has-counted from xs)

has-some : (o : Option Uuid) (i : Uuid) → has o i ≡ true → o ≡ some i
has-some none i e = cc
has-some (some j) i e = ap some ((==_iff j i).0 e)

some-has : (o : Option Uuid) (i : Uuid) → o ≡ some i → has o i ≡ true
some-has o i e = rw e (==_refl i)

payout_kind : (k : LedgerEntryType) → is_payout k ≡ true → k ≡ LedgerEntryType.payout_out
payout_kind LedgerEntryType.payout_out e = refl
payout_kind _ e = cc

true-IsPayoutOf :
    (i : Uuid) (e : LedgerEntry) → (has e.order_id i && is_payout e.kind) ≡ true → IsPayoutOf i e
true-IsPayoutOf i e h =
    (has-some e.order_id i (ground (arith, h)), payout_kind e.kind (ground (arith, h)))

IsPayoutOf-true :
    (i : Uuid) (e : LedgerEntry) → IsPayoutOf i e → (has e.order_id i && is_payout e.kind) ≡ true
IsPayoutOf-true i e (mine, booked) = rw (some-has e.order_id i mine, booked) refl

pub followed-IsFollowed :
    (i : Uuid) (o : Option Uuid) (w : World) → IsFollowed i o w (followed i o w)
followed-IsFollowed i o w =
    let mock = delivers_to_mock (find_order i w.db) w.db in
    let p = not (payout_exists i w.db) in
    let d = not (delivery_exists i w.db) in
    record {
      db_kept = refl;
      sent_kept = refl;
      jobs = queue_after_lem i o w;
      payout_record =
          counted_iff (λ e. has e.order_id i && is_payout e.kind) (IsPayoutOf i)
            (λ e. true-IsPayoutOf i e) (λ e. IsPayoutOf-true i e) w.db.ledger;
      webhook_record =
          counted_iff (λ d. has d.order_id i) (λ d. d.order_id ≡ some i)
            (λ d. has-some d.order_id i) (λ d. some-has d.order_id i) w.db.deliveries;
      jobs_kept = λ j h. added_keeps mock (mock_delivery i) j _ (
          rewarded_keeps o j _
            (added_keeps d (webhook i) j _ (added_keeps p (payout i) j w.jobs h)));
      payout_queued = λ h. added_keeps mock (mock_delivery i) (payout i) _ (
          rewarded_keeps o (payout i) _
            (added_keeps d (webhook i) (payout i) _ (added_self p (payout i) w.jobs (ap not h))));
      webhook_queued = λ h. added_keeps mock (mock_delivery i) (webhook i) _ (
          rewarded_keeps o (webhook i) _
            (added_self d (webhook i) (added p (payout i) w.jobs) (ap not h)));
      reward_queued =
          λ r h. added_keeps mock (mock_delivery i) (referral_reward r) _ (reward o r _ h);
      told = refl;
    }
  where
    reward :
        (o : Option Uuid) (r : Uuid) (js : List Job)
        → o ≡ some r
        → Has (λ k. k ≡ referral_reward r) (rewarded o js)
    reward none r js h = cc
    reward (some s) r js h =
        subst (λ t. Has (λ k. k ≡ referral_reward r) (rewarded t js)) (sym h)
          (Has-append_self (referral_reward r) js)

abbrev pub ended : World → Result AdvanceResult × World → Result AdvanceResult × World
ended w q = (transaction (λ _. q) >>= λ result. after_advance result >> pure result) w

pub ended_paid :
    (w : World) (a : Result AdvanceResult) (w' : World) {j : Uuid} {r : Option Uuid}
    → a ≡ ok (paid j r)
    → ended w (a, w') ≡ (ok (paid j r), followed j r w')
unfolding transaction
ended_paid w a w' {j} {r} e = rw e (rw (follow_up_lem j r w'))

pub ended_already :
    (w : World) (a : Result AdvanceResult) (w' : World) {j : Uuid}
    → a ≡ ok (already j)
    → ended w (a, w') ≡ (ok (already j), followed j none w')
unfolding transaction
ended_already w a w' {j} e = rw e (rw (follow_up_lem j none w'))

-- A call for an order that is paid already queues again what has no record yet.
pub verify_and_advance_order_already :
    (x : External) (i : Uuid) (h : TxHash) (w : World) (j : Uuid)
    → (advance_order x i h w).0 ≡ ok (already j)
    → ((verify_and_advance_order x i h w).0 ≡ ok (already j))
      × IsFollowed j none (advance_order x i h w).1 (verify_and_advance_order x i h w).1
unfolding verify_and_advance_order
verify_and_advance_order_already x i h w j e =
    let w' = (advance_order x i h w).1 in
    rw (ended_already w (advance_order x i h w).0 w' e) (refl, followed-IsFollowed j none w')

ended-db :
    (P : Db → Type 0) (w : World) (q : Result AdvanceResult × World)
    → P w.db
    → P q.1.db
    → P (ended w q).1.db
unfolding transaction
ended-db P w (ok (paid j r), w') before after = rw (follow_up_lem j r w') after
ended-db P w (ok (already j), w') before after = rw (follow_up_lem j none w') after
ended-db P w (ok (declined reason), w') before after = after
ended-db P w (err f, w') before after = before

-- What holds of the database before a call and after its transaction holds of it at its end.
pub verify_and_advance_order-db :
    (P : Db → Type 0) (x : External) (i : Uuid) (h : TxHash) (w : World)
    → P w.db
    → P (advance_order x i h w).1.db
    → P (verify_and_advance_order x i h w).1.db
unfolding verify_and_advance_order
verify_and_advance_order-db P x i h w before after =
    ended-db P w (advance_order x i h w) before after

-- The same for the orders alone.
pub verify_and_advance_order-orders :
    (P : List Order → Type 0) (x : External) (i : Uuid) (h : TxHash) (w : World)
    → P w.db.orders
    → P (advance_order x i h w).1.db.orders
    → P (verify_and_advance_order x i h w).1.db.orders
verify_and_advance_order-orders P = verify_and_advance_order-db λ d. P d.orders
