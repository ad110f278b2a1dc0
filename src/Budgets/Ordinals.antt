-- ===== src/Budgets/Ordinals.antt =====
-- The order of the ordinals, from the lengths of the years and months.
use nbe_financial_advisor_ba.Prelude.{ℕ, ◌+◌, ◌-◌, ◌*◌, ◌≤◌, ◌≡◌, arith}
use nbe_financial_advisor_ba.Budgets.Calendar.{is_leap, month_days, days_before, year_days, ordinal}

pub year_days-bounds : (y : ℕ) → 1 ≤ y → (365 * y ≤ year_days y + 365) × (year_days y ≤ 366 * y)
unfolding year_days
year_days-bounds y positive = ground arith

-- The last day of a month is followed by the first of the next.
pub month_end :
    (y m : ℕ) → 2 ≤ m → m ≤ 12 → ordinal y (m - 1) (month_days y (m - 1)) + 1 ≡ ordinal y m 1
unfolding ordinal month_days days_before
month_end y m low high = ground arith

pub year_days-rises : (y : ℕ) → year_days (y - 4) ≤ year_days y
unfolding year_days
year_days-rises y = omega arith

pub days_before-bounds : (m : ℕ) → (days_before m ≤ 334)
unfolding days_before
days_before-bounds m = ground arith

pub quarter_before : (m : ℕ) → m ≤ 12 → (days_before (m - 3) ≤ days_before m)
unfolding days_before
quarter_before m high = ground arith

pub month_days-bounds : (y m : ℕ) → (28 ≤ month_days y m) × (month_days y m ≤ 31)
unfolding month_days
month_days-bounds y m = ground arith

-- A day in or after the month, and how far into the year it is.
pub ordinal-bounds :
    (y m d : ℕ)
    → (year_days y + days_before m + d ≤ ordinal y m d)
      × (ordinal y m d ≤ year_days y + days_before m + 1 + d)
unfolding ordinal
ordinal-bounds y m d = ground arith

pub ordinal-day : (y m d : ℕ) → ordinal y m 1 + d ≡ ordinal y m d + 1
unfolding ordinal
ordinal-day y m d = omega arith

pub ordinal-first : (y : ℕ) → ordinal y 1 1 ≡ year_days y + 1
unfolding ordinal days_before
ordinal-first y = ground arith

pub year_days-before : (y : ℕ) → 2 ≤ y → year_days (y - 1) + 365 ≤ year_days y
unfolding year_days
year_days-before y low = omega (arith, low)

pub december : (y : ℕ) → 2 ≤ y → ordinal (y - 1) 12 (month_days (y - 1) 12) + 1 ≡ ordinal y 1 1
unfolding ordinal month_days days_before year_days is_leap
december y low = ground arith

-- The first of the month three months before.
pub ordinal-quarter : (y m d : ℕ) → 4 ≤ m → m ≤ 12 → 1 ≤ d → ordinal y (m - 3) 1 ≤ ordinal y m d
unfolding ordinal
ordinal-quarter y m d low high positive = ground (arith, quarter_before m high)
