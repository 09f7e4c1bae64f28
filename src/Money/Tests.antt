-- ===== src/Money/Tests.antt =====
-- money.ts at concrete amounts.
use xgamefi.Prelude.{◌≡◌, refl, pos, ◌-ℤ◌}
use xgamefi.Money.{fee_amount, net_amount}

fee_example : fee_amount (pos 12345678) 250 ≡ pos 308641
unfolding fee_amount
fee_example = refl

net_example : net_amount (pos 12345678) 250 ≡ pos 12037037
unfolding net_amount fee_amount ◌-ℤ◌
net_example = refl
