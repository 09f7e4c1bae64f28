-- ===== src/Money/Fees.antt =====
-- What money.ts promises: nothing is lost between fee and net, and the fee is the share rounded
-- down to the stroop.
use xgamefi.Prelude.{ℕ, ◌+◌, ◌*◌, ◌/◌, ◌≤◌, ◌<◌, ◌≡◌, arith, ℤ, pos, ◌+ℤ◌, ◌-ℤ◌, ◌≤ℤ◌, int_laws}
use xgamefi.Money.{fee_amount, net_amount}

-- For every amount, also a negative one, and every rate, fee and net add up to the amount.
pub fee_amount-net_amount :
    (gross : ℤ) (bps : ℕ) → fee_amount gross bps +ℤ net_amount gross bps ≡ gross
unfolding net_amount
fee_amount-net_amount gross bps = omega int_laws

mul_mono : (g b : ℕ) → b ≤ 10000 → g * b ≤ g * 10000
mul_mono g b h = grind arith

-- For an amount of zero or more and a rate of at most 10000 basis points, the fee and the net lie
-- between zero and the amount, and the fee is the exact share less a part of one stroop.
pub fee_amount_bounds :
    (g bps : ℕ)
    → bps ≤ 10000
    → (pos 0 ≤ℤ fee_amount (pos g) bps)
      × (fee_amount (pos g) bps ≤ℤ pos g)
      × (pos 0 ≤ℤ net_amount (pos g) bps)
      × (net_amount (pos g) bps ≤ℤ pos g)
      × ((f : ℕ) × (fee_amount (pos g) bps ≡ pos f)
          × (f * 10000 ≤ g * bps)
          × (g * bps < (f + 1) * 10000))
unfolding fee_amount net_amount ◌-ℤ◌
fee_amount_bounds g bps h =
    let m = mul_mono g bps h in
    (
      omega arith,
      omega arith,
      ground arith,
      ground arith,
      (g * bps / 10000, ground arith, omega arith, omega arith),
    )

-- A higher amount never costs a lower fee.
pub fee_amount_mono : (g h bps : ℕ) → g ≤ h → fee_amount (pos g) bps ≤ℤ fee_amount (pos h) bps
unfolding fee_amount
fee_amount_mono g h bps le = let m : g * bps ≤ h * bps = grind arith in omega arith
