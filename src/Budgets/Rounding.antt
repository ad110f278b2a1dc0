-- ===== src/Budgets/Rounding.antt =====
-- The amounts of a plan and the income they are shares of.
use nbe_financial_advisor_ba.Prelude.{
  ℕ, ◌+◌, ◌*◌, ◌≤◌, ◌≡◌, refl, Bool, true, false, List, [], ◌∷◌, map, ◌&&◌, length, arith,
}
use nbe_financial_advisor_ba.Prelude.Int.{ℤ, pos, negsuc, ◌+ℤ◌}
use nbe_financial_advisor_ba.Budgets.Model.{
  Allocation, Item, half_even, amount_of, total_percentage,
}
use nbe_financial_advisor_ba.Budgets.Plan.{new_allocation}

abbrev pub is_nonnegative : ℤ → Bool
is_nonnegative (pos n) = true
is_nonnegative (negsuc n) = false

-- No item takes a negative share.
abbrev pub all_nonnegative : List Item → Bool
all_nonnegative [] = true
all_nonnegative (i ∷ is) = is_nonnegative i.allocated_percentage && all_nonnegative is

abbrev pub total_amount : List Allocation → ℤ
total_amount [] = pos 0
total_amount (a ∷ rest) = a.allocated_amount +ℤ total_amount rest

pub +ℤ-pos : (m n : ℕ) → pos m +ℤ pos n ≡ pos (m + n)
unfolding ◌+ℤ◌
+ℤ-pos m n = ground arith

half_even-near :
    (n : ℕ)
    → (20000 * half_even n 10000 ≤ 2 * n + 10000) × (2 * n ≤ 20000 * half_even n 10000 + 10000)
unfolding half_even
half_even-near n = ground arith

-- What the items take of the income `a`, and how far the rounding moves it.
abbrev IsSplit : ℕ → List Item → Type 0
IsSplit a is =
    (p : ℕ) × (t : ℕ) × (total_percentage is ≡ pos p)
    × (total_amount (map (new_allocation (pos a)) is) ≡ pos t)
    × (20000 * t ≤ 2 * (a * p) + 10000 * length is)
    × (2 * (a * p) ≤ 20000 * t + 10000 * length is)

add-IsSplit :
    (a b : ℕ) (i : Item) (is : List Item)
    → i.allocated_percentage ≡ pos b
    → IsSplit a is
    → IsSplit a (i ∷ is)
unfolding total_percentage new_allocation amount_of
add-IsSplit a b i is share (p, t, percentages, amounts, above, below) = (
  b + p,
  half_even (a * b) 10000 + t,
  rw (share, percentages) (+ℤ-pos b p),
  rw (share, amounts) (+ℤ-pos (half_even (a * b) 10000) t),
  omega (arith, half_even-near (a * b), above, below),
  omega (arith, half_even-near (a * b), above, below),
)

nonnegative-pos : (z : ℤ) → is_nonnegative z ≡ true → (n : ℕ) × (z ≡ pos n)
nonnegative-pos (pos n) sign = (n, refl)
nonnegative-pos (negsuc n) sign = absurd (ground arith)

pub split : (a : ℕ) (is : List Item) → all_nonnegative is ≡ true → IsSplit a is
unfolding total_percentage
split a [] shares = (0, 0, refl, refl, omega arith, omega arith)
split a (i ∷ is) shares =
    let (b, share) = nonnegative-pos i.allocated_percentage (ground (arith, shares)) in
    add-IsSplit a b i is share (split a is (ground (arith, shares)))
