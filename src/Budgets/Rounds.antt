-- ===== src/Budgets/Rounds.antt =====
-- The loop of `_resolve_window` that wraps a month.
use nbe_financial_advisor_ba.Prelude.{
  ℕ, zero, suc, ◌+◌, ◌-◌, ◌*◌, ◌≤◌, ◌≡◌, refl, Bool, true, false, some, ◌&&◌, leb, if◌then◌else◌,
  inl, inr, arith, Bool-cases,
}
use nbe_financial_advisor_ba.Prelude.Int.{ℤ, pos, negsuc, ◌+ℤ◌, ◌-ℤ◌}
use nbe_financial_advisor_ba.Budgets.Windows.{is_positive, wrap_month}

abbrev pub is_month : ℤ → Bool
is_month (pos n) = leb 1 n && leb n 12
is_month (negsuc n) = false

abbrev pub at_most_twelve : ℤ → Bool
at_most_twelve (pos n) = leb n 12
at_most_twelve (negsuc n) = true

reached : (month : ℤ) → is_positive (month +ℤ pos (12 * 0)) ≡ true → is_positive month ≡ true
unfolding ◌+ℤ◌
reached month near = ground arith

in_year :
    (month : ℤ) → at_most_twelve month ≡ true → is_positive month ≡ true → is_month month ≡ true
in_year (pos n) high positive = ground arith
in_year (negsuc n) high positive = absurd (ground arith)

a_round :
    (fuel : ℕ) (month : ℤ)
    → is_positive month ≡ false
    → is_positive (month +ℤ pos (12 * suc fuel)) ≡ true
    → (at_most_twelve (month +ℤ pos 12) ≡ true)
      × (is_positive (month +ℤ pos 12 +ℤ pos (12 * fuel)) ≡ true)
unfolding ◌+ℤ◌
a_round fuel month below near = ground arith

-- A month up to `12 * fuel` below one is a month of the year after at most `fuel` rounds of the loop.
pub wrap_month_ends :
    (fuel : ℕ) (year month : ℤ)
    → at_most_twelve month ≡ true
    → is_positive (month +ℤ pos (12 * fuel)) ≡ true
    → (y : ℤ) × (m : ℤ) × (wrap_month fuel year month ≡ some (y, m)) × (is_month m ≡ true)
unfolding wrap_month
wrap_month_ends zero year month high near =
    let positive = reached month near in
    (year, month, rw positive refl, ground (arith, in_year month high positive))
wrap_month_ends (suc fuel) year month high near = elim (Bool-cases (is_positive month)) [
  | inl positive ↦ (year, month, rw positive refl, in_year month high positive)
  | inr below ↦
      let (raised_high, raised_near) = a_round fuel month below near in
      let (y, m, ended, good) =
        wrap_month_ends fuel (year -ℤ pos 1) (month +ℤ pos 12) raised_high raised_near in
      (y, m, rw below ended, good)
]

-- The month three months before, in the same year or the one before.
pub quarter_month :
    (y m : ℕ)
    → 1 ≤ y
    → 1 ≤ m
    → wrap_month 1 (pos y) (pos m -ℤ pos 3)
      ≡ (if leb 4 m then some (pos y, pos (m - 3)) else some (pos (y - 1), pos (m + 9)))
unfolding wrap_month ◌+ℤ◌ ◌-ℤ◌
quarter_month y m year month = ground arith
