-- ===== src/Metrics/Totals.antt =====
-- The figures of the studios against those of the platform.
use xgamefi.Prelude.{
  ℕ, ℤ, pos, ◌+ℤ◌, ◌+◌, ◌*◌, ◌/◌, ◌≤◌, ◌<◌, ◌≡◌, refl, ◌∙◌, sym, arith, int_laws, inl, inr, true,
  false, ◌&&◌, List, [], ◌∷◌, count, where_is, ltb, ◌==◌, if◌then◌else◌, Bool-cases, All,
}
use native.Mathlib.Nat.{div-lt_iff_lt-mul}
use xgamefi.Schema.{Uuid, Order, Delivery}
use xgamefi.World.{Db}
use xgamefi.Orders.{is_paid}
use xgamefi.Metrics.{
  sum_of, compute_platform_metrics, compute_studio_metrics, is_delivered, is_failed,
}

zero-add_ℤ : (a : ℤ) → pos 0 +ℤ a ≡ a
zero-add_ℤ a = omega int_laws

swap_add : (a b c d : ℤ) → (a +ℤ b) +ℤ (c +ℤ d) ≡ (a +ℤ c) +ℤ (b +ℤ d)
swap_add a b c d = omega int_laws

-- The amount, if the order is of the studio.
abbrev share : Uuid → ℤ → Uuid → ℤ
share k v s = if k == s then v else pos 0

share_none :
    (k : Uuid) (v : ℤ) (studios : List Uuid)
    → count (λ s. k == s) studios ≡ 0
    → sum_of (share k v) studios ≡ pos 0
unfolding sum_of count
share_none k v [] h = refl
share_none k v (s ∷ studios) h = elim (Bool-cases (k == s)) [
  | inl e ↦ absurd (ground arith)
  | inr e ↦ rw e (rw (share_none k v studios (ground arith)) (zero-add_ℤ (pos 0)))
]

share_once :
    (k : Uuid) (v : ℤ) (studios : List Uuid)
    → count (λ s. k == s) studios ≡ 1
    → sum_of (share k v) studios ≡ v
unfolding sum_of count
share_once k v [] h = ground arith
share_once k v (s ∷ studios) h = elim (Bool-cases (k == s)) [
  | inl e ↦ rw e (rw (share_none k v studios (ground arith)) (omega int_laws))
  | inr e ↦ rw e (rw (share_once k v studios (ground arith)) (zero-add_ℤ v))
]

module _ {A : Type 0} where
  sum_of-add :
      (f g : A → ℤ) (xs : List A) → sum_of (λ x. f x +ℤ g x) xs ≡ sum_of f xs +ℤ sum_of g xs
  unfolding sum_of
  sum_of-add f g [] = omega int_laws
  sum_of-add f g (x ∷ xs) =
      rw (sum_of-add f g xs) (swap_add (f x) (g x) (sum_of f xs) (sum_of g xs))

  sum_of-congr : (f g : A → ℤ) (xs : List A) → ((x : A) → f x ≡ g x) → sum_of f xs ≡ sum_of g xs
  unfolding sum_of
  sum_of-congr f g [] h = refl
  sum_of-congr f g (x ∷ xs) h = rw (h x, sum_of-congr f g xs h) refl

  sum_of_zero : (xs : List A) → sum_of (λ x. pos 0) xs ≡ pos 0
  unfolding sum_of
  sum_of_zero [] = refl
  sum_of_zero (x ∷ xs) = rw (sum_of_zero xs) (zero-add_ℤ (pos 0))

module _ (amount : Order → ℤ) (studios : List Uuid) where
  abbrev of_studio : List Order → Uuid → ℤ
  of_studio os s = sum_of amount (where_is (λ o. (o.studio_id == s) && is_paid o.payment_status) os)

  of_studio_paid :
      (o : Order) (os : List Order) (s : Uuid)
      → is_paid o.payment_status ≡ true
      → of_studio (o ∷ os) s ≡ share o.studio_id (amount o) s +ℤ of_studio os s
  unfolding sum_of where_is
  of_studio_paid o os s p = elim (Bool-cases (o.studio_id == s)) [
    | inl e ↦ rw (e, p) refl
    | inr e ↦ rw e (sym (zero-add_ℤ (of_studio os s)))
  ]

  of_studio_unpaid :
      (o : Order) (os : List Order) (s : Uuid)
      → is_paid o.payment_status ≡ false
      → of_studio (o ∷ os) s ≡ of_studio os s
  unfolding where_is
  of_studio_unpaid o os s p = elim (Bool-cases (o.studio_id == s)) [
    | inl e ↦ rw (e, p) refl
    | inr e ↦ rw e refl
  ]

  studios_total :
      (os : List Order)
      → All (λ o. count (λ s. o.studio_id == s) studios ≡ 1) os
      → sum_of (of_studio os) studios ≡ sum_of amount (where_is (λ o. is_paid o.payment_status) os)
  unfolding where_is
  studios_total [] h =
      sum_of-congr (of_studio []) (λ s. pos 0) studios (λ s. unfold sum_of in refl)
      ∙ sum_of_zero studios
      ∙ (unfold sum_of in refl)
  studios_total (o ∷ os) (once, h) = elim (Bool-cases (is_paid o.payment_status)) [
    | inl p ↦
        let shares = share_once o.studio_id (amount o) studios once in
        sum_of-congr (of_studio (o ∷ os)) (λ s. share o.studio_id (amount o) s +ℤ of_studio os s)
          studios (λ s. of_studio_paid o os s p)
        ∙ sum_of-add (share o.studio_id (amount o)) (of_studio os) studios
        ∙ rw (shares, studios_total os h) (rw p (unfold sum_of in refl))
    | inr p ↦
        sum_of-congr (of_studio (o ∷ os)) (of_studio os) studios (λ s. of_studio_unpaid o os s p)
        ∙ studios_total os h
        ∙ rw p refl
  ]

-- Over a list of studios in which the studio of every order occurs exactly once, the sales and the
-- fees of the studios add up to those of the platform.
pub compute_platform_metrics-sum_of :
    (studios : List Uuid) (db : Db)
    → All (λ o. count (λ s. o.studio_id == s) studios ≡ 1) db.orders
    → (sum_of (λ s. (compute_studio_metrics s db).gmv) studios ≡ (compute_platform_metrics db).gmv)
      × (sum_of (λ s. (compute_studio_metrics s db).fees_collected) studios
          ≡ (compute_platform_metrics db).fees_collected)
unfolding compute_platform_metrics compute_studio_metrics
compute_platform_metrics-sum_of studios db h = (
  studios_total (λ o. o.gross_amount) studios db.orders h,
  studios_total (λ o. o.platform_fee_amount) studios db.orders h,
)

health_counts :
    (studio_id : Uuid) (rows : List Delivery)
    → count (λ d. (d.studio_id == studio_id) && is_delivered d.status) rows
        + count (λ d. (d.studio_id == studio_id) && is_failed d.status) rows
      ≤ count (λ d. d.studio_id == studio_id) rows
unfolding count
health_counts studio_id [] = omega arith
health_counts studio_id (d ∷ rows) = ground (arith, health_counts studio_id rows)

rate_bound : (d t : ℕ) → d ≤ t → 0 < t → (200 * d + t) / (2 * t) ≤ 100
rate_bound d t h p =
    let below : (200 * d + t) / (2 * t) < 101 = (div-lt_iff_lt-mul (omega arith)).1 (omega arith) in
    omega arith

-- Of the deliveries of a studio those that were delivered and those that failed are no more than
-- all of them, and the rate of success is a percentage.
pub compute_studio_metrics_health :
    (studio_id : Uuid) (db : Db)
    → let h = (compute_studio_metrics studio_id db).webhook_health in
      (h.delivered + h.failed ≤ h.total) × (h.success_rate ≤ 100)
unfolding compute_studio_metrics
compute_studio_metrics_health studio_id db =
    let counts = health_counts studio_id db.deliveries in
    let total = count (λ d. d.studio_id == studio_id) db.deliveries in
    (
      counts,
      elim (Bool-cases (ltb 0 total)) [
        | inl y ↦ rw y (rate_bound _ total (omega (arith, counts)) (ground arith))
        | inr n ↦ rw n (omega arith)
      ],
    )
