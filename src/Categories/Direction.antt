-- ===== src/Categories/Direction.antt =====
-- On which side of the ledger a synced transaction is filed, and that resolving is stable. Both are
-- about the seeded table.
use nbe_financial_advisor_ba.Prelude.{
  ◌≡◌, refl, ◌↔◌, ◌⊎◌, inl, inr, Bool, true, false, Option, none, some, List, [], ◌∷◌, ◌&&◌, arith,
  is_some, Option-cases, if◌then◌else◌,
}
use nbe_financial_advisor_ba.Prelude.Text.{Text, text_eq, is_blank, strip, lstrip, is_space}
use nbe_financial_advisor_ba.Categories.Model.{
  Category, expense, income, category_seed_data, lower, is_income, direction, get_alias,
  filter_name, filter_fallback, match_name, resolve_category, match_alias, or_alias, or_fallback,
}
use nbe_financial_advisor_ba.Categories.Keywords.{
  first_match, keyword_match, guess_category_from_merchant, or_name, expense_keyword_categories,
  income_keyword_categories,
}

-- The row is there and is of the type.
abbrev pub sided : Text → Option Category → Bool
sided t none = false
sided t (some c) = text_eq c.category_type t

-- No row, or one of the type.
abbrev pub sided_or_none : Text → Option Category → Bool
sided_or_none t none = true
sided_or_none t (some c) = text_eq c.category_type t

abbrev all {ℓ} : {A : Type ℓ} → (A → Bool) → List A → Bool
all p [] = true
all p (x ∷ xs) = p x && all p xs

first_match-all :
    (p : Text → Bool) (lowered : Text) (table : List (Text × Text)) (category : Text)
    → all (λ e. p e.1) table ≡ true
    → first_match lowered table ≡ some category
    → p category ≡ true
unfolding first_match
first_match-all p lowered [] category every found = ground arith
first_match-all p lowered ((keyword, c) ∷ rest) category every found =
    grind (arith, first_match-all p lowered rest category)

sided-sided_or_none :
    (t : Text) (match : Option Category) → sided t match ≡ true → sided_or_none t match ≡ true
sided-sided_or_none t none h = ground arith
sided-sided_or_none t (some c) h = h

module _ (unicode_lower : Text → Text) where
  -- The row that a guess names, whatever the direction.
  abbrev named : Text → Option Category
  named raw = match_name unicode_lower category_seed_data (lower unicode_lower (strip raw))

  expense_labels : all (λ e. sided expense (named e.1)) expense_keyword_categories ≡ true
  unfolding match_name or_alias match_alias lower strip lstrip is_space filter_name get_alias
      category_seed_data text_eq
  expense_labels = refl

  income_labels : all (λ e. sided income (named e.1)) income_keyword_categories ≡ true
  unfolding match_name or_alias match_alias lower strip lstrip is_space filter_name get_alias
      category_seed_data text_eq
  income_labels = refl

  labels-sided :
      (credit : Bool) (lowered category : Text)
      → (let table : List (Text × Text) =
            if credit then income_keyword_categories else expense_keyword_categories in
          first_match lowered table ≡ some category)
      → sided (if credit then income else expense) (named category) ≡ true
  labels-sided true lowered category =
      first_match-all (λ label. sided income (named label)) lowered income_keyword_categories
        category income_labels
  labels-sided false lowered category =
      first_match-all (λ label. sided expense (named label)) lowered expense_keyword_categories
        category expense_labels

  keyword_match-sided :
      (merchant_raw : Text) (transaction_type : Option Text) (category : Text)
      → keyword_match unicode_lower merchant_raw transaction_type ≡ some category
      → sided (direction unicode_lower transaction_type) (named category) ≡ true
  unfolding keyword_match
  keyword_match-sided merchant_raw transaction_type category =
      labels-sided (is_income unicode_lower transaction_type) (lower unicode_lower merchant_raw)
        category

  fallback-sided :
      (credit : Bool)
      → (let side : Text = if credit then income else expense in
          sided side (filter_fallback side category_seed_data) ≡ true)
  unfolding filter_fallback category_seed_data text_eq
  fallback-sided true = refl
  fallback-sided false = refl

  resolved-sided :
      (transaction_type : Option Text) (match : Option Category)
      → (let side : Text = direction unicode_lower transaction_type in
          sided side (or_fallback unicode_lower category_seed_data transaction_type match)
          ≡ sided_or_none side match)
  unfolding or_fallback
  resolved-sided transaction_type none = fallback-sided (is_income unicode_lower transaction_type)
  resolved-sided transaction_type (some c) = refl

  -- For the seeded categories and a merchant with a name: the category that a synced transaction gets
  -- is of the direction of the transaction exactly when a keyword of that direction occurs in the
  -- name, or the name is not itself that of a category or alias of the other direction.
  pub guess-direction_iff :
      (merchant_raw : Text) (transaction_type : Option Text)
      → is_blank merchant_raw ≡ false
      → (sided (direction unicode_lower transaction_type) (
            resolve_category unicode_lower category_seed_data
              (guess_category_from_merchant unicode_lower (some merchant_raw) transaction_type)
              transaction_type)
          ≡ true)
        ↔ ((is_some (keyword_match unicode_lower merchant_raw transaction_type) ≡ true)
            ⊎ (sided_or_none (direction unicode_lower transaction_type) (named merchant_raw)
                ≡ true))
  unfolding guess_category_from_merchant or_name resolve_category
  guess-direction_iff merchant_raw transaction_type nonblank =
      elim (Option-cases (keyword_match unicode_lower merchant_raw transaction_type)) [
        | inl none_found ↦
            rw (nonblank, none_found, resolved-sided transaction_type (named merchant_raw))
              (inr, λ h. elim h [ inl e ↦ absurd (ground arith) | inr e ↦ e ])
        | inr (category, found) ↦
            rw (nonblank, found, resolved-sided transaction_type (named category))
              (
                λ _. inl refl,
                λ _.
                    sided-sided_or_none (direction unicode_lower transaction_type) (named category)
                      (keyword_match-sided merchant_raw transaction_type category found),
              )
      ]
