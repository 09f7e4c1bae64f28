-- ===== src/Metrics/Tests.antt =====
-- The figures of a shop with one paid order.
use xgamefi.Prelude.{◌≡◌, refl, [], ◌∷◌, count, where_is, ◌+ℤ◌}
use xgamefi.World.{Db}
use xgamefi.Metrics.{sum_of, compute_platform_metrics, compute_studio_metrics}
use xgamefi.Metrics.Totals.{compute_platform_metrics-sum_of}
use xgamefi.Samples.{db, paid_order}

abbrev sold : Db
sold = record db { orders = paid_order ∷ [] }

compute_platform_metrics-sum_of_example :
    (sum_of (λ s. (compute_studio_metrics s sold).gmv) (1 ∷ 2 ∷ [])
      ≡ (compute_platform_metrics sold).gmv)
    × (sum_of (λ s. (compute_studio_metrics s sold).fees_collected) (1 ∷ 2 ∷ [])
        ≡ (compute_platform_metrics sold).fees_collected)
compute_platform_metrics-sum_of_example =
    compute_platform_metrics-sum_of (1 ∷ 2 ∷ []) sold ((unfold count in refl), tt)

gmv_of_one : (compute_platform_metrics sold).gmv ≡ paid_order.gross_amount
unfolding compute_platform_metrics sum_of where_is ◌+ℤ◌
gmv_of_one = refl
