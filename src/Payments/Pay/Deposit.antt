-- ===== src/Payments/Pay/Deposit.antt =====
-- The deposit share (apps/api/src/payments/deposit.ts).
use sambung.Common.{◌+◌, ◌-◌, subst, ℕ, ◌*◌, ◌≤◌, ◌<◌, ◌≡◌, arith}
use sambung.Payments.{deposit_amount_idr}

scale : (t a k : ℕ) → t * a ≤ t * (a + k)
scale t a k = omega arith

share_bound : (t a : ℕ) → a ≤ 100 → t * a ≤ t * 100
share_bound t a h = subst (λ n. t * a ≤ t * n) (rest a h) (scale t a (100 - a))
  where
    rest : (a : ℕ) → a ≤ 100 → a + (100 - a) ≡ 100
    rest a h = omega arith

-- For a percentage of at most 100, the deposit is at most the total, is the exact share rounded
-- down to a rupiah, and is the total at 100.
pub deposit_amount_idr_bounds :
    (total_price_idr pct : ℕ)
    → pct ≤ 100
    → (deposit_amount_idr total_price_idr pct ≤ total_price_idr)
      × (deposit_amount_idr total_price_idr pct * 100 ≤ total_price_idr * pct)
      × (total_price_idr * pct < deposit_amount_idr total_price_idr pct * 100 + 100)
      × (deposit_amount_idr total_price_idr 100 ≡ total_price_idr)
unfolding deposit_amount_idr
deposit_amount_idr_bounds total_price_idr pct h =
    (omega (arith, share_bound total_price_idr pct h), omega arith, omega arith, omega arith)
