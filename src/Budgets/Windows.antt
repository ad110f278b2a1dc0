-- ===== src/Budgets/Windows.antt =====
-- `_resolve_window` and `_window_totals` of core/views/budgets.py. A date of a window is its ordinal.
-- `last_3_months` counts the month below zero and wraps it in a loop, here on fuel. The years are
-- numbers from 5 on: Python has no date before year 1.
use nbe_financial_advisor_ba.Prelude.{
  ℕ, zero, suc, ◌+◌, ◌-◌, Bool, true, false, Option, none, some, List, ◌&&◌, leb, ◌==◌,
  if◌then◌else◌,
}
use nbe_financial_advisor_ba.Prelude.Int.{ℤ, pos, negsuc, ◌+ℤ◌, ◌-ℤ◌}
use nbe_financial_advisor_ba.Bank.Model.{Transaction, is_credit}
use nbe_financial_advisor_ba.Budgets.Calendar.{Date, ordinal, month_days}
use nbe_financial_advisor_ba.Budgets.Goals.{is_spending, sum_where}

pub data Period : Type 0 where
  this_month last_month last_3_months this_year last_5_years : Period

pub record Window : Type 0 where
  pub start : ℕ
  pub end : ℕ
  pub prev_start : ℕ
  pub prev_end : ℕ

abbrev pub is_positive : ℤ → Bool
is_positive (pos n) = leb 1 n
is_positive (negsuc n) = false

-- `while month <= 0: month += 12; year -= 1`
unfoldable pub wrap_month : (fuel : ℕ) (year month : ℤ) → Option (ℤ × ℤ)
wrap_month zero year month = if is_positive month then some (year, month) else none
wrap_month (suc fuel) year month =
    let rest = wrap_month fuel (year -ℤ pos 1) (month +ℤ pos 12) in
    if is_positive month then some (year, month) else rest

abbrev pub to_nat : ℤ → ℕ
to_nat (pos n) = n
to_nat (negsuc n) = 0

unfoldable pub first_of : Option (ℤ × ℤ) → Option ℕ
first_of none = none
first_of (some (year, month)) = some (ordinal (to_nat year) (to_nat month) 1)

unfoldable pub today_of : Date → ℕ
today_of today = ordinal today.year today.month today.day

unfoldable pub starting_at : (end : ℕ) → Option ℕ → Option (ℕ × ℕ)
starting_at end none = none
starting_at end (some start) = some (start, end)

-- The month before, in the branch of `last_month`.
unfoldable pub month_before : (year month : ℕ) → ℕ × ℕ
month_before year month = if month == 1 then (year - 1, 12) else (year, month - 1)

-- The first and the last day, in the branch of the period.
unfoldable pub span : Period → (today : Date) → Option (ℕ × ℕ)
span last_month today =
    let (year, month) = month_before today.year today.month in
    some (ordinal year month 1, ordinal year month (month_days year month))
span last_3_months today =
    starting_at (today_of today)
      (first_of (wrap_month 1 (pos today.year) (pos today.month -ℤ pos 3)))
span this_year today = some (ordinal today.year 1 1, today_of today)
span last_5_years today = some (ordinal (today.year - 4) 1 1, today_of today)
span this_month today = some (ordinal today.year today.month 1, today_of today)

-- The window, and the preceding one of the same length in days.
unfoldable pub with_preceding : Option (ℕ × ℕ) → Option Window
with_preceding none = none
with_preceding (some (start, end)) =
    let length_days = end + 1 - start in
    let prev_end = start - 1 in
    some (record {
      start = start;
      end = end;
      prev_start = prev_end - (length_days - 1);
      prev_end = prev_end;
    })

-- `_resolve_window`
unfoldable pub resolve_window : Period → (today : Date) → Option Window
resolve_window period today = with_preceding (span period today)

-- A row of the user within the dates, of the account if one is named.
abbrev pub is_of_account : Option ℕ → Transaction → Bool
is_of_account none t = true
is_of_account (some account) t = t.account == account

abbrev pub is_in_window : (user start end : ℕ) → Option ℕ → Transaction → Bool
is_in_window user start end account t =
    (t.user == user)
    && leb start t.transaction_date
    && leb t.transaction_date end
    && is_of_account account t

-- `_window_totals`
unfoldable pub window_totals : (user start end : ℕ) → Option ℕ → List Transaction → ℤ × ℤ
window_totals user start end account ts = (
  sum_where (λ t. is_in_window user start end account t && is_spending t) ts,
  sum_where (λ t. is_in_window user start end account t && is_credit t) ts,
)
