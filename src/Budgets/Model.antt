-- ===== src/Budgets/Model.antt =====
-- The rows of core/models/budgets and the amounts of a plan. Percentages are in hundredths of a
-- percent and money in hundredths; both may be negative.
use nbe_financial_advisor_ba.Prelude.{
  ℕ, suc, ◌+◌, ◌*◌, ◌/◌, ◌%◌, Bool, true, false, Option, List, [], ◌∷◌, ◌&&◌, ◌-◌, ◌||◌, ltb, ◌==◌,
  if◌then◌else◌,
}
use nbe_financial_advisor_ba.Prelude.Text.{Text, text_eq}
use nbe_financial_advisor_ba.Prelude.Int.{ℤ, pos, negsuc, ◌+ℤ◌, int_eq}
use nbe_financial_advisor_ba.Categories.Model.{Category, expense}

pub record Allocation : Type 0 where
  pub category : Text
  pub allocated_percentage : ℤ
  pub allocated_amount : ℤ
  pub currency : Text

-- A plan with its allocations.
pub record Budget : Type 0 where
  pub id : ℕ
  pub user : ℕ
  pub name : Text
  pub selected_template_key : Option Text
  pub allocations : List Allocation

pub data ChangedVia : Type 0 where
  dashboard chat onboarding : ChangedVia

-- One row of `_snapshot`: the two decimals are stored as floats there.
pub record Previous : Type 0 where
  pub category : Text
  pub allocated_percentage : ℤ
  pub allocated_amount : ℤ

pub record History : Type 0 where
  pub budget : ℕ
  pub previous_values : List Previous
  pub changed_via : ChangedVia

pub record Tables : Type 0 where
  pub budgets : List Budget
  pub history : List History
  pub notices : List (ℕ × ChangedVia)

-- One item of a request.
pub record Item : Type 0 where
  pub category : Text
  pub allocated_percentage : ℤ

-- `n / d` rounded to the nearest integer, and to the even one of two: `quantize` of a decimal.
unfoldable pub half_even : (n d : ℕ) → ℕ
half_even n d =
    let q = n / d in
    let r = n % d in if ltb (2 * r) d then q else if ltb d (2 * r) then q + 1 else q + q % 2

abbrev pub minus_of : ℕ → ℤ
minus_of n = if n == 0 then pos 0 else negsuc (n - 1)

-- `(monthly_income * percentage / Decimal("100")).quantize(Decimal("0.01"))`
unfoldable pub amount_of : (monthly_income percentage : ℤ) → ℤ
amount_of (pos a) (pos b) = pos (half_even (a * b) 10000)
amount_of (pos a) (negsuc b) = minus_of (half_even (a * suc b) 10000)
amount_of (negsuc a) (pos b) = minus_of (half_even (suc a * b) 10000)
amount_of (negsuc a) (negsuc b) = pos (half_even (suc a * suc b) 10000)

unfoldable pub total_percentage : List Item → ℤ
total_percentage [] = pos 0
total_percentage (i ∷ is) = i.allocated_percentage +ℤ total_percentage is

-- The category is one of the expense categories.
unfoldable pub is_expense : List Category → Text → Bool
is_expense [] name = false
is_expense (c ∷ cs) name =
    (text_eq c.category_type expense && text_eq c.name name) || is_expense cs name

unfoldable pub all_expenses : List Category → List Item → Bool
all_expenses categories [] = true
all_expenses categories (i ∷ is) = is_expense categories i.category && all_expenses categories is

-- The items are valid: known expense categories, and `_validate_allocations_sum_100`.
unfoldable pub validate_allocations : List Category → List Item → Bool
validate_allocations categories is =
    all_expenses categories is && int_eq (total_percentage is) (pos 10000)

unfoldable pub snapshot : List Allocation → List Previous
snapshot [] = []
snapshot (a ∷ rest) =
    record {
      category = a.category;
      allocated_percentage = a.allocated_percentage;
      allocated_amount = a.allocated_amount;
    }
    ∷ snapshot rest
