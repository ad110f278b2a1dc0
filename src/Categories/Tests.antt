-- ===== src/Categories/Tests.antt =====
-- Runs on concrete merchants. No text here needs `str.lower` outside ASCII.
use nbe_financial_advisor_ba.Prelude.{◌≡◌, refl, inl, true, false, Option, none, some, is_some}
use nbe_financial_advisor_ba.Prelude.Text.{Text, codes, text_eq, strip, lstrip, is_space}
use nbe_financial_advisor_ba.Categories.Model.{
  Category, category_seed_data, lower, is_income, direction, get_alias, filter_name,
  filter_fallback, match_name, resolve_category, match_alias, or_alias, or_fallback,
}
use nbe_financial_advisor_ba.Categories.Keywords.{
  contains, first_match, keyword_match, guess_category_from_merchant, or_name,
}
use nbe_financial_advisor_ba.Categories.Direction.{sided, guess-direction_iff}

abbrev unchanged : Text → Text
unchanged s = s

abbrev credit : Option Text
credit = some (codes " Credit")

abbrev food : Option Category
food = match_name unchanged category_seed_data (codes "food")

-- A refund by a merchant called "Uber" is filed as income.
uber_credit :
    guess_category_from_merchant unchanged (some (codes "UBER Egypt")) credit
    ≡ some (codes "UBER Egypt")
unfolding guess_category_from_merchant or_name keyword_match first_match contains is_income lower
    strip lstrip is_space text_eq
uber_credit = refl

uber_debit :
    guess_category_from_merchant unchanged (some (codes "UBER Egypt")) none
    ≡ some (codes "transportation")
unfolding guess_category_from_merchant or_name keyword_match first_match contains is_income lower
    strip lstrip is_space text_eq
uber_debit = refl

-- A credit from a merchant called "Groceries" is filed as an expense.
groceries_credit :
    sided (direction unchanged credit) (
      resolve_category unchanged category_seed_data
        (guess_category_from_merchant unchanged (some (codes "Groceries")) credit)
        credit)
    ≡ false
unfolding resolve_category match_name or_fallback or_alias match_alias filter_name filter_fallback
    get_alias category_seed_data guess_category_from_merchant or_name keyword_match first_match
    contains is_income lower strip lstrip is_space text_eq
groceries_credit = refl

payroll_matched : is_some (keyword_match unchanged (codes "ACME Payroll") credit) ≡ true
unfolding keyword_match first_match contains is_income lower strip lstrip is_space text_eq
payroll_matched = refl

guess-direction_iff_example :
    sided (direction unchanged credit) (
      resolve_category unchanged category_seed_data
        (guess_category_from_merchant unchanged (some (codes "ACME Payroll")) credit)
        credit)
    ≡ true
guess-direction_iff_example =
    (guess-direction_iff unchanged (codes "ACME Payroll") credit refl).1 (inl payroll_matched)

abbrev rent_row : Category
rent_row = record {
  name = codes "housing";
  label = codes "Housing";
  category_type = codes "expense";
  is_fallback = false;
}

rent_resolved :
    resolve_category unchanged category_seed_data (some (codes " Rent")) credit ≡ some rent_row
unfolding resolve_category match_name or_fallback or_alias match_alias filter_name filter_fallback
    get_alias category_seed_data is_income lower strip lstrip is_space text_eq
rent_resolved = refl
