-- ===== src/Billing/Money/Rounding.antt =====
-- Rounding half to even, and percentages of an amount.
use propnest_api.Base.{ℕ, ◌+◌, ◌*◌, ◌%◌, ◌≤◌, ◌<◌, ◌≡◌, ◌↔◌, ◌⊎◌, arith}
use propnest_api.Billing.Money.{percent_of}

-- A fee of p percent (in hundredths) is the exact product rounded to a cent: it is off by at most
-- half a cent, and where it is off by exactly half a cent it is even.
pub percent_of_nearest :
    (amount p : ℕ)
    → (2 * (amount * p) ≤ 2 * (percent_of amount p * 10000) + 10000)
      × (2 * (percent_of amount p * 10000) ≤ 2 * (amount * p) + 10000)
      × ((percent_of amount p % 2 ≡ 0)
          ⊎ (2 * (amount * p) < 2 * (percent_of amount p * 10000) + 10000)
            × (2 * (percent_of amount p * 10000) < 2 * (amount * p) + 10000))
unfolding percent_of
percent_of_nearest amount p = (ground arith, ground arith, ground arith)

-- A percentage of at most 100 is never more than the amount.
pub percent_of_le : (amount p : ℕ) → p ≤ 10000 → percent_of amount p ≤ amount
unfolding percent_of
percent_of_le amount p h =
    let bound : amount * p ≤ amount * 10000 = grind arith in ground (arith, bound)

-- The fee is nothing exactly if the product is at most half a cent.
pub percent_of_zero : (amount p : ℕ) → (percent_of amount p ≡ 0) ↔ (amount * p ≤ 5000)
unfolding percent_of
percent_of_zero amount p = ground arith
