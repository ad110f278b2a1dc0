-- ===== src/Investments/Decimal.antt =====
-- Python's `Decimal` under its default context: 28 digits, half to even. A number is counted in units
-- of its last place, so that trailing zeros play no part.
use nbe_financial_advisor_ba.Prelude.{
  ℕ, zero, suc, ◌+◌, ◌*◌, ◌/◌, ◌%◌, ◌≤◌, ◌<◌, ◌≡◌, refl, true, inl, inr, ltb, leb, if◌then◌else◌,
  arith, Bool-cases,
}
use nbe_financial_advisor_ba.Budgets.Model.{half_even}
use native.Mathlib.Nat.{
  div-add-mod, le-div_iff_mul-le, div-lt_iff_lt-mul, mul-le-mul_left, mul-le-mul_right,
}

unfoldable pub pow10 : ℕ → ℕ
pow10 zero = 1
pow10 (suc n) = 10 * pow10 n

-- The digits beyond the 28th.
unfoldable pub excess : (fuel n : ℕ) → ℕ
excess zero n = 0
excess (suc fuel) n = let rest = excess fuel (n / 10) in if ltb n (pow10 28) then 0 else suc rest

-- The result of a sum or product whose exact value is `n`.
unfoldable pub rounded : ℕ → ℕ
rounded n = let k = excess 40 n in half_even n (pow10 k) * pow10 k

-- The places after which a quotient below 10 ^ 28 has 28 digits.
unfoldable pub places : (fuel n d : ℕ) → ℕ
places zero n d = 0
places (suc fuel) n d =
    let rest = places fuel (n * 10) d in if leb (pow10 27) (n / d) then 0 else suc rest

-- `n / d`, halves up: `quantize(..., rounding=ROUND_HALF_UP)`
unfoldable pub half_up : (n d : ℕ) → ℕ
half_up n d = (2 * n + d) / (2 * d)

-- `(n / d).quantize(unit, rounding=ROUND_HALF_UP)`
unfoldable pub quotient_half_up : (n d : ℕ) → ℕ
quotient_half_up n d = let s = places 60 n d in half_up (half_even (n * pow10 s) d) (pow10 s)

pow10-pos : (k : ℕ) → 0 < pow10 k
unfolding pow10
pow10-pos zero = omega arith
pow10-pos (suc k) = omega (arith, pow10-pos k)

quotient-le-half_even : (n d : ℕ) → n / d ≤ half_even n d
unfolding half_even
quotient-le-half_even n d = ground arith

half_even-le-suc : (n d : ℕ) → half_even n d ≤ n / d + 1
unfolding half_even
half_even-le-suc n d = ground arith

half_even-exact : (n d : ℕ) → 0 < d → n % d ≡ 0 → half_even n d ≡ n / d
unfolding half_even
half_even-exact n d positive whole = ground (arith, positive, whole)

half_even-ge : (a n d : ℕ) → 0 < d → a * d ≤ n → a ≤ half_even n d
half_even-ge a n d positive below =
    omega (arith, (le-div_iff_mul-le positive).1 below, quotient-le-half_even n d)

half_even-le : (a n d : ℕ) → 0 < d → n ≤ a * d → half_even n d ≤ a
half_even-le a n d positive above = elim (Bool-cases (leb a (n / d))) [
  | inl reaches ↦
      let least : a ≤ n / d = ground (arith, reaches) in
      let less : n / d < a + 1 = (div-lt_iff_lt-mul positive).1 (omega (arith, positive, above)) in
      let whole : n % d ≡ 0 = omega (arith, div-add-mod n d, mul-le-mul_left d least, above) in
      omega (arith, half_even-exact n d positive whole, less)
  | inr below ↦
      let less : n / d < a = ground (arith, below) in omega (arith, half_even-le-suc n d, less)
]

half_up-ge : (a n d : ℕ) → 0 < d → a * d ≤ n → a ≤ half_up n d
unfolding half_up
half_up-ge a n d positive below =
    (le-div_iff_mul-le (omega (arith, positive))).1 (omega (arith, below))

half_up-le : (a n d : ℕ) → 0 < d → n ≤ a * d → half_up n d ≤ a
unfolding half_up
half_up-le a n d positive above =
    let less : (2 * n + d) / (2 * d) < a + 1 =
      (div-lt_iff_lt-mul (omega (arith, positive))).1 (omega (arith, positive, above)) in
    omega (arith, less)

-- A bound that is a whole number of units stays one.
pub quotient_half_up-ge : (a n d : ℕ) → 0 < d → a * d ≤ n → a ≤ quotient_half_up n d
unfolding quotient_half_up
quotient_half_up-ge a n d positive below =
    let k = pow10 (places 60 n d) in
    let scaled : a * d * k ≤ n * k = mul-le-mul_right k below in
    half_up-ge a (half_even (n * k) d) k (pow10-pos (places 60 n d))
      (half_even-ge (a * k) (n * k) d positive (omega (arith, scaled)))

pub quotient_half_up-le : (a n d : ℕ) → 0 < d → n ≤ a * d → quotient_half_up n d ≤ a
unfolding quotient_half_up
quotient_half_up-le a n d positive above =
    let k = pow10 (places 60 n d) in
    let scaled : n * k ≤ a * d * k = mul-le-mul_right k above in
    half_up-le a (half_even (n * k) d) k (pow10-pos (places 60 n d))
      (half_even-le (a * k) (n * k) d positive (omega (arith, scaled)))

excess-zero : (fuel n : ℕ) → n < pow10 28 → excess fuel n ≡ 0
unfolding excess
excess-zero zero n small = refl
excess-zero (suc fuel) n small =
    let fits : ltb n (pow10 28) ≡ true = ground (arith, small) in rw (fits) refl

half_even-one : (n : ℕ) → half_even n 1 ≡ n
unfolding half_even
half_even-one n = ground arith

half_even-pow10-zero : (n : ℕ) → half_even n (pow10 0) * pow10 0 ≡ n
unfolding pow10
half_even-pow10-zero n = omega (arith, half_even-one n)

-- Below 28 digits nothing is rounded.
pub rounded-exact : (n : ℕ) → n < pow10 28 → rounded n ≡ n
unfolding rounded
rounded-exact n small = rw (excess-zero 40 n small) (half_even-pow10-zero n)
