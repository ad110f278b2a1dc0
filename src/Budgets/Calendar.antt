-- ===== src/Budgets/Calendar.antt =====
-- Python's `date`, as its year, month and day: `date.toordinal`, and `calendar.monthrange`.
use nbe_financial_advisor_ba.Prelude.{
  ℕ, ◌+◌, ◌-◌, ◌*◌, ◌/◌, ◌%◌, Bool, not, ◌&&◌, ◌||◌, ltb, leb, ◌==◌, if◌then◌else◌,
}

pub record Date : Type 0 where
  pub year : ℕ
  pub month : ℕ
  pub day : ℕ

unfoldable pub is_leap : ℕ → Bool
is_leap year = (year % 4 == 0) && (not (year % 100 == 0) || (year % 400 == 0))

-- `calendar.monthrange(year, month)[1]`
unfoldable pub month_days : (year month : ℕ) → ℕ
month_days year month =
    if month == 2
    then (if is_leap year then 29 else 28)
    else if (month == 4) || (month == 6) || (month == 9) || (month == 11)
    then 30
    else 31

-- The days of the year before the month, in a year that is no leap year.
unfoldable pub days_before : (month : ℕ) → ℕ
days_before month =
    if leb month 1
    then 0
    else if month == 2
    then 31
    else if month == 3
    then 59
    else if month == 4
    then 90
    else if month == 5
    then 120
    else if month == 6
    then 151
    else if month == 7
    then 181
    else if month == 8
    then 212
    else if month == 9
    then 243
    else if month == 10
    then 273
    else if month == 11
    then 304
    else 334

-- The days of all years before this one.
unfoldable pub year_days : (year : ℕ) → ℕ
year_days year = let y = year - 1 in 365 * y + y / 4 - y / 100 + y / 400

-- `date(year, month, day).toordinal()`
unfoldable pub ordinal : (year month day : ℕ) → ℕ
ordinal year month day =
    year_days year + days_before month + (if ltb 2 month && is_leap year then 1 else 0) + day

-- A month of the year, and a day of the month.
abbrev pub is_date : Date → Bool
is_date d = leb 1 d.month && leb d.month 12 && leb 1 d.day && leb d.day (month_days d.year d.month)
