-- ===== src/Budgets/Preceding.antt =====
-- The windows of the dashboard: where they lie.
use nbe_financial_advisor_ba.Prelude.{
  ℕ, ◌+◌, ◌-◌, ◌*◌, ◌≤◌, ◌≡◌, refl, true, Option, some, ◌==◌, leb, inl, inr, arith, ==_iff, sym, ap,
  ◌∙◌, Bool-cases,
}
use nbe_financial_advisor_ba.Prelude.Int.{pos, ◌-ℤ◌}
use nbe_financial_advisor_ba.Budgets.Calendar.{Date, is_date, month_days, ordinal}
use nbe_financial_advisor_ba.Budgets.Windows.{
  Period, this_month, last_month, last_3_months, this_year, last_5_years, Window, wrap_month,
  first_of, today_of, starting_at, month_before, span, with_preceding, resolve_window,
}
use nbe_financial_advisor_ba.Budgets.Rounds.{quarter_month}
use nbe_financial_advisor_ba.Budgets.Ordinals.{
  year_days-rises, year_days-before, year_days-bounds, month_end, days_before-bounds,
  month_days-bounds, ordinal-bounds, ordinal-day, ordinal-first, december, ordinal-quarter,
}

-- A span of days that ends by today and can be repeated before its start.
abbrev IsPast : (today : ℕ) → Option (ℕ × ℕ) → Type 0
IsPast today o =
    (start : ℕ) × (end : ℕ) × (o ≡ some (start, end))
    × (start ≤ end)
    × (end ≤ today)
    × (end + 2 ≤ 2 * start)

module _ (y m d : ℕ) (year : 20 ≤ y) (low : 1 ≤ m) (high : m ≤ 12) (day : 1 ≤ d)
    (month_end' : d ≤ 31) where
  this_year-IsPast : IsPast (ordinal y m d) (some (ordinal y 1 1, ordinal y m d))
  this_year-IsPast = (
    ordinal y 1 1,
    ordinal y m d,
    refl,
    omega (arith, ordinal-first y, ordinal-bounds y m d),
    omega arith,
    omega (arith, ordinal-first y, ordinal-bounds y m d, days_before-bounds m, year_days-bounds y),
  )

  this_month-IsPast : IsPast (ordinal y m d) (some (ordinal y m 1, ordinal y m d))
  this_month-IsPast = (
    ordinal y m 1,
    ordinal y m d,
    refl,
    omega (arith, ordinal-day y m d),
    omega arith,
    omega (arith, ordinal-day y m d, ordinal-bounds y m 1, year_days-bounds y),
  )

  last_5_years-IsPast : IsPast (ordinal y m d) (some (ordinal (y - 4) 1 1, ordinal y m d))
  last_5_years-IsPast = (
    ordinal (y - 4) 1 1,
    ordinal y m d,
    refl,
    omega (arith, ordinal-first (y - 4), ordinal-bounds y m d, year_days-rises y),
    omega arith,
    omega (
      arith,
      ordinal-first (y - 4),
      ordinal-bounds y m d,
      days_before-bounds m,
      year_days-bounds y,
      year_days-bounds (y - 4),
    ),
  )

  -- The days of a whole month, next to the month of `today`.
  whole-IsPast :
      (y' m' : ℕ)
      → y ≤ y' + 1
      → ordinal y' m' (month_days y' m') + 1 ≡ ordinal y m 1
      → IsPast (ordinal y m d) (some (ordinal y' m' 1, ordinal y' m' (month_days y' m')))
  whole-IsPast y' m' recent next = (
    ordinal y' m' 1,
    ordinal y' m' (month_days y' m'),
    refl,
    omega (arith, ordinal-day y' m' (month_days y' m'), month_days-bounds y' m'),
    omega (arith, next, ordinal-day y m d),
    omega (
      arith,
      ordinal-day y' m' (month_days y' m'),
      month_days-bounds y' m',
      ordinal-bounds y' m' 1,
      year_days-bounds y',
    ),
  )

  quarter-IsPast :
      (y' m' : ℕ)
      → y ≤ y' + 1
      → ordinal y' m' 1 ≤ ordinal y m d
      → IsPast (ordinal y m d) (some (ordinal y' m' 1, ordinal y m d))
  quarter-IsPast y' m' recent before = (
    ordinal y' m' 1,
    ordinal y m d,
    refl,
    before,
    omega arith,
    omega (
      arith,
      ordinal-bounds y' m' 1,
      ordinal-bounds y m d,
      days_before-bounds m,
      year_days-bounds y,
      year_days-bounds y',
    ),
  )

last_month_first :
    (y m : ℕ)
    → 20 ≤ y
    → 1 ≤ m
    → m ≤ 12
    → (let (y', m') = month_before y m in
        (y ≤ y' + 1) × (ordinal y' m' (month_days y' m') + 1 ≡ ordinal y m 1))
unfolding month_before
last_month_first y m year low high = elim (Bool-cases (m == 1)) [
  | inl january ↦ rw january (
    omega (arith, year),
    december y (omega (arith, year)) ∙ ap (λ n. ordinal y n 1) (sym ((==_iff m 1).0 january)),
  )
  | inr later ↦ rw later (omega arith, month_end y m (ground (arith, later, low)) high)
]

date-bounds :
    (today : Date)
    → is_date today ≡ true
    → (1 ≤ today.month) × (today.month ≤ 12) × (1 ≤ today.day) × (today.day ≤ 31)
date-bounds today valid = ground (arith, valid, month_days-bounds today.year today.month)

quarter_first :
    (y m d : ℕ)
    → 20 ≤ y
    → 1 ≤ m
    → m ≤ 12
    → 1 ≤ d
    → d ≤ 31
    → IsPast
        (ordinal y m d)
        (starting_at (ordinal y m d) (first_of (wrap_month 1 (pos y) (pos m -ℤ pos 3))))
unfolding starting_at first_of
quarter_first y m d year low high first last = elim (Bool-cases (leb 4 m)) [
  | inl same_year ↦
      rw (quarter_month y m (omega (arith, year)) low, same_year)
        (quarter-IsPast y m d year low high first last y (m - 3) (omega arith)
          (ordinal-quarter y m d (ground (arith, same_year)) high first))
  | inr year_before ↦
      rw (quarter_month y m (omega (arith, year)) low, year_before)
        (quarter-IsPast y m d year low high first last (y - 1) (m + 9) (omega (arith, year)) (
          omega (
            arith,
            ordinal-bounds (y - 1) (m + 9) 1,
            days_before-bounds (m + 9),
            ordinal-bounds y m d,
            year_days-before y (omega (arith, year)),
          )))
]

span-IsPast :
    (period : Period) (today : Date)
    → is_date today ≡ true
    → 20 ≤ today.year
    → IsPast (today_of today) (span period today)
unfolding span today_of
span-IsPast this_month today valid recent =
    let (low, high, first, last) = date-bounds today valid in
    this_month-IsPast today.year today.month today.day recent low high first last
span-IsPast last_month today valid recent =
    let (low, high, first, last) = date-bounds today valid in
    let (near, next) = last_month_first today.year today.month recent low high in
    let (y', m') = month_before today.year today.month in
    whole-IsPast today.year today.month today.day recent low high first last y' m' near next
span-IsPast last_3_months today valid recent =
    let (low, high, first, last) = date-bounds today valid in
    quarter_first today.year today.month today.day recent low high first last
span-IsPast this_year today valid recent =
    let (low, high, first, last) = date-bounds today valid in
    this_year-IsPast today.year today.month today.day recent low high first last
span-IsPast last_5_years today valid recent =
    let (low, high, first, last) = date-bounds today valid in
    last_5_years-IsPast today.year today.month today.day recent low high first last

-- On any date from the year 20 on, every period has a window of past days up to today at the latest, and
-- the window that it is compared with ends the day before it and is as many days long.
pub resolve_window_precedes :
    (period : Period) (today : Date)
    → is_date today ≡ true
    → 20 ≤ today.year
    → (w : Window) × (resolve_window period today ≡ some w)
      × (w.start ≤ w.end)
      × (w.end ≤ today_of today)
      × (w.prev_end + 1 ≡ w.start)
      × (w.end + w.prev_start ≡ w.start + w.prev_end)
unfolding resolve_window with_preceding
resolve_window_precedes period today valid recent =
    let (start, end, spans, ordered, past, room) = span-IsPast period today valid recent in
    (
      record {
        start = start;
        end = end;
        prev_start = start - 1 - (end + 1 - start - 1);
        prev_end = start - 1;
      },
      rw spans refl,
      ordered,
      past,
      omega (arith, ordered, room),
      omega (arith, ordered, room),
    )
