-- ===== src/Money.antt =====
-- packages/shared/src/money.ts: the platform's fee and the seller's net, on whole stroops.
-- BigNumber multiplies exactly and divides to twenty decimals, and a fee has eleven at most
-- before it is rounded, so the arithmetic is that of integers. A stored amount has seven decimals
-- at most: it is a whole number of stroops, and its decimal text (`toFixed(7)`) stands for the
-- same number.
pub mod Fees
mod Tests
use xgamefi.Prelude.{ℕ, zero, suc, ◌*◌, ◌/◌, ℤ, pos, negsuc, sub_ℕ, ◌-ℤ◌}

-- `multipliedBy` by a count.
abbrev pub scale : ℤ → ℕ → ℤ
scale (pos n) k = pos (n * k)
scale (negsuc n) k = sub_ℕ 0 (suc n * k)

-- Division with `ROUND_DOWN`, which is towards zero.
abbrev pub trunc_div : ℤ → ℕ → ℤ
trunc_div (pos n) k = pos (n / k)
trunc_div (negsuc n) k = sub_ℕ 0 (suc n / k)

unfoldable pub fee_amount : ℤ → ℕ → ℤ
fee_amount gross bps = trunc_div (scale gross bps) 10000

unfoldable pub net_amount : ℤ → ℕ → ℤ
net_amount gross bps = gross -ℤ fee_amount gross bps
