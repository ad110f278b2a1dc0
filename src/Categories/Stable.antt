-- ===== src/Categories/Stable.antt =====
-- Resolving the names of the seeded categories.
use mathlib.Core.Path.{subst}
use nbe_financial_advisor_ba.Prelude.{
  ◌≡◌, refl, Bool, true, false, Option, none, some, List, [], ◌∷◌, All, if◌then◌else◌, ◌&&◌,
}
use nbe_financial_advisor_ba.Prelude.Text.{Text, text_eq, strip, lstrip, is_space}
use nbe_financial_advisor_ba.Categories.Model.{
  Category, category_seed_data, lower, direction, get_alias, category_aliases, filter_name,
  filter_fallback, match_name, resolve_category, match_alias, or_alias, or_fallback,
}

-- The row that a lookup gives, if any, has the property.
abbrev Found : (Category → Type 0) → Option Category → Type 0
Found P none = Unit
Found P (some c) = P c

module _ (P : Category → Type 0) where
  chosen :
      (b : Bool) (c : Category) (o : Option Category)
      → P c
      → Found P o
      → Found P (if b then some c else o)
  chosen true c o p q = p
  chosen false c o p q = q

  filter_name-Found : (key : Text) (cs : List Category) → All P cs → Found P (filter_name key cs)
  unfolding filter_name
  filter_name-Found key [] every = tt
  filter_name-Found key (c ∷ cs) (first, every) =
      chosen (text_eq c.name key) c (filter_name key cs) first (filter_name-Found key cs every)

  filter_fallback-Found :
      (t : Text) (cs : List Category) → All P cs → Found P (filter_fallback t cs)
  unfolding filter_fallback
  filter_fallback-Found t [] every = tt
  filter_fallback-Found t (c ∷ cs) (first, every) =
      chosen (c.is_fallback && text_eq c.category_type t) c (filter_fallback t cs) first
        (filter_fallback-Found t cs every)

  module _ (unicode_lower : Text → Text) (every : All P category_seed_data) where
    match_alias-Found :
        (alias : Option Text) → Found P (match_alias unicode_lower category_seed_data alias)
    unfolding match_alias
    match_alias-Found none = tt
    match_alias-Found (some alias) = filter_name-Found alias category_seed_data every

    or_alias-Found :
        (key : Text) (match : Option Category)
        → Found P match
        → Found P (or_alias unicode_lower category_seed_data key match)
    unfolding or_alias
    or_alias-Found key none found = match_alias-Found (get_alias key category_aliases)
    or_alias-Found key (some c) found = found

    or_fallback-Found :
        (transaction_type : Option Text) (match : Option Category)
        → Found P match
        → Found P (or_fallback unicode_lower category_seed_data transaction_type match)
    unfolding or_fallback
    or_fallback-Found transaction_type none found =
        filter_fallback-Found (direction unicode_lower transaction_type) category_seed_data every
    or_fallback-Found transaction_type (some c) found = found

    resolve_category-Found :
        (raw : Text) (transaction_type : Option Text)
        → Found P (resolve_category unicode_lower category_seed_data (some raw) transaction_type)
    unfolding resolve_category match_name
    resolve_category-Found raw transaction_type =
        let key : Text = lower unicode_lower (strip raw) in
        or_fallback-Found transaction_type (match_name unicode_lower category_seed_data key) (
          or_alias-Found key (filter_name key category_seed_data)
            (filter_name-Found key category_seed_data every))

module _ (unicode_lower : Text → Text) where
  abbrev IsStable : Category → Type 0
  IsStable c =
      (transaction_type : Option Text)
      → resolve_category unicode_lower category_seed_data (some c.name) transaction_type ≡ some c

  seed-IsStable : All IsStable category_seed_data
  unfolding resolve_category match_name or_fallback or_alias lower strip lstrip is_space filter_name
      category_seed_data text_eq
  seed-IsStable = (
    λ _. refl,
    (
      λ _. refl,
      (λ _. refl, (λ _. refl, (λ _. refl, (λ _. refl, (λ _. refl, (λ _. refl, (λ _. refl, tt))))))),
    ),
  )

  -- For the seeded categories: the name of the category that a text resolves to resolves to that
  -- category again, whatever the direction asked for.
  pub resolve_category-stable :
      (raw : Text) (transaction_type other_type : Option Text) (c : Category)
      → resolve_category unicode_lower category_seed_data (some raw) transaction_type ≡ some c
      → resolve_category unicode_lower category_seed_data (some c.name) other_type ≡ some c
  resolve_category-stable raw transaction_type other_type c resolved =
      subst (Found IsStable) resolved
        (resolve_category-Found IsStable unicode_lower seed-IsStable raw transaction_type)
        other_type
