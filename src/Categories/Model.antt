-- ===== src/Categories/Model.antt =====
-- core/models/categories/category.py, core/models/categories/resolution.py and the seed of
-- core/migrations/0011_category.py. `str.lower` is written out on ASCII text; on other text it is a
-- parameter. The table is the list of its rows by primary key, the order of `.first()`.
use nbe_financial_advisor_ba.Prelude.{
  ℕ, ◌+◌, Bool, true, false, Option, none, some, List, [], ◌∷◌, map, ◌&&◌, ltb, leb, if◌then◌else◌,
}
use nbe_financial_advisor_ba.Prelude.Text.{Text, codes, text_eq, strip}

pub record Category : Type 0 where
  pub name : Text
  pub label : Text
  pub category_type : Text
  pub is_fallback : Bool

abbrev pub expense : Text
expense = codes "expense"

abbrev pub income : Text
income = codes "income"

row : Text → Text → Text → Bool → Category
row name label category_type is_fallback = record {
  name = name;
  label = label;
  category_type = category_type;
  is_fallback = is_fallback;
}

-- `CATEGORY_SEED_DATA`
unfoldable pub category_seed_data : List Category
unfolding row
category_seed_data =
    row (codes "housing") (codes "Housing") expense false
    ∷ row (codes "food") (codes "Food") expense false
    ∷ row (codes "transport") (codes "Transport") expense false
    ∷ row (codes "savings") (codes "Savings") expense false
    ∷ row (codes "lifestyle") (codes "Lifestyle") expense false
    ∷ row (codes "other") (codes "Other") expense true
    ∷ row (codes "salary") (codes "Salary") income false
    ∷ row (codes "transfers_in") (codes "Transfers In") income false
    ∷ row (codes "other_income") (codes "Other Income") income true
    ∷ []

-- `_CATEGORY_ALIASES`
abbrev pub category_aliases : List (Text × Text)
category_aliases =
    (codes "groceries", codes "food")
    ∷ (codes "dining", codes "food")
    ∷ (codes "restaurants", codes "food")
    ∷ (codes "transportation", codes "transport")
    ∷ (codes "utilities", codes "housing")
    ∷ (codes "bills", codes "housing")
    ∷ (codes "rent", codes "housing")
    ∷ (codes "shopping", codes "lifestyle")
    ∷ (codes "entertainment", codes "lifestyle")
    ∷ (codes "health", codes "other")
    ∷ (codes "income", codes "other_income")
    ∷ (codes "transfer", codes "transfers_in")
    ∷ []

-- `aliases.get(key)`
unfoldable pub get_alias : Text → List (Text × Text) → Option Text
get_alias key [] = none
get_alias key ((k, v) ∷ rest) = if text_eq k key then some v else get_alias key rest

-- `Category.objects.filter(name=key).first()`
unfoldable pub filter_name : Text → List Category → Option Category
filter_name key [] = none
filter_name key (c ∷ cs) = if text_eq c.name key then some c else filter_name key cs

-- `Category.objects.filter(is_fallback=True, category_type=t).first()`
unfoldable pub filter_fallback : Text → List Category → Option Category
filter_fallback t [] = none
filter_fallback t (c ∷ cs) =
    if c.is_fallback && text_eq c.category_type t then some c else filter_fallback t cs

abbrev pub is_ascii : Text → Bool
is_ascii [] = true
is_ascii (c ∷ s) = ltb c 128 && is_ascii s

abbrev pub ascii_lower : ℕ → ℕ
ascii_lower c = if leb 65 c && leb c 90 then c + 32 else c

-- `s or ""`
abbrev pub or_empty : Option Text → Text
or_empty none = []
or_empty (some s) = s

module _ (unicode_lower : Text → Text) where
  -- `s.lower()`
  unfoldable pub lower : Text → Text
  lower s = if is_ascii s then map ascii_lower s else unicode_lower s

  -- `(transaction_type or "").strip().lower() == "credit"`
  unfoldable pub is_income : Option Text → Bool
  is_income transaction_type = text_eq (lower (strip (or_empty transaction_type))) (codes "credit")

  abbrev pub direction : Option Text → Text
  direction transaction_type = if is_income transaction_type then income else expense

  module _ (categories : List Category) where
    unfoldable pub match_alias : Option Text → Option Category
    match_alias none = none
    match_alias (some alias) = filter_name alias categories

    unfoldable pub or_alias : Text → Option Category → Option Category
    unfolding match_alias
    or_alias key (some c) = some c
    or_alias key none = match_alias (get_alias key category_aliases)

    -- The rows that `resolve_category` tries before the fallback.
    unfoldable pub match_name : Text → Option Category
    unfolding or_alias
    match_name key = or_alias key (filter_name key categories)

    unfoldable pub or_fallback : Option Text → Option Category → Option Category
    or_fallback transaction_type (some c) = some c
    or_fallback transaction_type none = filter_fallback (direction transaction_type) categories

    unfoldable pub resolve_category : Option Text → Option Text → Option Category
    unfolding or_fallback
    resolve_category none transaction_type = none
    resolve_category (some raw) transaction_type =
        or_fallback transaction_type (match_name (lower (strip raw)))
