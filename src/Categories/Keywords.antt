-- ===== src/Categories/Keywords.antt =====
-- core/models/categories/merchant_keywords.py: the category guess for a bare merchant name.
use nbe_financial_advisor_ba.Prelude.{
  Bool, true, false, Option, none, some, List, [], ◌∷◌, ◌&&◌, ◌||◌, ◌==◌, if◌then◌else◌,
}
use nbe_financial_advisor_ba.Prelude.Text.{Text, codes, is_blank}
use nbe_financial_advisor_ba.Categories.Model.{lower, is_income}

-- `_EXPENSE_KEYWORD_CATEGORIES`
abbrev pub expense_keyword_categories : List (Text × Text)
expense_keyword_categories =
    (codes "carrefour", codes "groceries")
    ∷ (codes "spinneys", codes "groceries")
    ∷ (codes "kazyon", codes "groceries")
    ∷ (codes "grocery", codes "groceries")
    ∷ (codes "groceries", codes "groceries")
    ∷ (codes "supermarket", codes "groceries")
    ∷ (codes "talabat", codes "dining")
    ∷ (codes "mcdonald", codes "dining")
    ∷ (codes "kfc", codes "dining")
    ∷ (codes "starbucks", codes "dining")
    ∷ (codes "costa", codes "dining")
    ∷ (codes "cafe", codes "dining")
    ∷ (codes "coffee", codes "dining")
    ∷ (codes "restaurant", codes "dining")
    ∷ (codes "uber", codes "transportation")
    ∷ (codes "careem", codes "transportation")
    ∷ (codes "swvl", codes "transportation")
    ∷ (codes "metro", codes "transportation")
    ∷ (codes "taxi", codes "transportation")
    ∷ (codes "fuel", codes "transportation")
    ∷ (codes "petrol", codes "transportation")
    ∷ (codes "vodafone", codes "utilities")
    ∷ (codes "orange eg", codes "utilities")
    ∷ (codes "etisalat", codes "utilities")
    ∷ (codes "electricity", codes "utilities")
    ∷ (codes "water bill", codes "utilities")
    ∷ (codes "internet", codes "utilities")
    ∷ (codes "rent", codes "rent")
    ∷ (codes "amazon", codes "shopping")
    ∷ (codes "noon", codes "shopping")
    ∷ (codes "jumia", codes "shopping")
    ∷ (codes "mall", codes "shopping")
    ∷ (codes "netflix", codes "entertainment")
    ∷ (codes "spotify", codes "entertainment")
    ∷ (codes "cinema", codes "entertainment")
    ∷ (codes "gym", codes "entertainment")
    ∷ []

-- `_INCOME_KEYWORD_CATEGORIES`
abbrev pub income_keyword_categories : List (Text × Text)
income_keyword_categories =
    (codes "salary", codes "salary")
    ∷ (codes "payroll", codes "salary")
    ∷ (codes "transfer", codes "transfer")
    ∷ (codes "refund", codes "transfer")
    ∷ []

starts_with : Text → Text → Bool
starts_with [] t = true
starts_with (a ∷ s) [] = false
starts_with (a ∷ s) (b ∷ t) = (a == b) && starts_with s t

-- `keyword in text`
unfoldable pub contains : Text → Text → Bool
unfolding starts_with
contains keyword [] = is_blank keyword
contains keyword (c ∷ t) = starts_with keyword (c ∷ t) || contains keyword t

-- The loop over the keywords: the first match wins.
unfoldable pub first_match : Text → List (Text × Text) → Option Text
first_match lowered [] = none
first_match lowered ((keyword, category) ∷ rest) =
    if contains keyword lowered then some category else first_match lowered rest

unfoldable pub or_name : Text → Option Text → Option Text
or_name merchant_raw none = some merchant_raw
or_name merchant_raw (some category) = some category

module _ (unicode_lower : Text → Text) where
  abbrev pub keywords : Option Text → List (Text × Text)
  keywords transaction_type =
      if is_income unicode_lower transaction_type
      then income_keyword_categories
      else expense_keyword_categories

  -- The keyword that `guess_category_from_merchant` finds.
  unfoldable pub keyword_match : Text → Option Text → Option Text
  keyword_match merchant_raw transaction_type =
      first_match (lower unicode_lower merchant_raw) (keywords transaction_type)

  unfoldable pub guess_category_from_merchant : Option Text → Option Text → Option Text
  unfolding or_name
  guess_category_from_merchant none transaction_type = none
  guess_category_from_merchant (some merchant_raw) transaction_type =
      if is_blank merchant_raw
      then none
      else or_name merchant_raw (keyword_match merchant_raw transaction_type)
