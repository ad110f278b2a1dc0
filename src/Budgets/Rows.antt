-- ===== src/Budgets/Rows.antt =====
-- The loop of `_apply_allocations`: the rows it leaves, and when it stops at the unique constraint.
use mathlib.Core.List.{append-nil, append_assoc}
use nbe_financial_advisor_ba.Prelude.{
  ◌≡◌, refl, sym, ap, ◌∙◌, inl, inr, Bool, true, false, not, List, [], ◌∷◌, ◌++◌, map, ◌&&◌, ◌||◌,
  arith, Bool-cases,
}
use nbe_financial_advisor_ba.Prelude.Text.{Text, text_eq, text_eq_iff}
use nbe_financial_advisor_ba.Prelude.Int.{ℤ}
use nbe_financial_advisor_ba.Budgets.Model.{Allocation, Item}
use nbe_financial_advisor_ba.Budgets.Plan.{
  Outcome, returned, aborted, has_category, new_allocation, apply_allocations,
}

abbrev pub contains : Text → List Text → Bool
contains name [] = false
contains name (n ∷ ns) = text_eq n name || contains name ns

-- No text twice.
abbrev pub is_distinct : List Text → Bool
is_distinct [] = true
is_distinct (n ∷ ns) = not (contains n ns) && is_distinct ns

abbrev pub names : List Allocation → List Text
names [] = []
names (a ∷ rest) = a.category ∷ names rest

abbrev pub categories_of : List Item → List Text
categories_of [] = []
categories_of (i ∷ is) = i.category ∷ categories_of is

-- What `_apply_allocations` answers for a list of categories without a repeat, and with one.
abbrev pub outcome_of : Bool → Outcome
outcome_of true = returned
outcome_of false = aborted

has_category-contains :
    (n : Text) (rows : List Allocation) → has_category n rows ≡ contains n (names rows)
has_category-contains n [] = refl
has_category-contains n (a ∷ rows) = rw (has_category-contains n rows) refl

text_eq-sym : (s t : Text) → text_eq s t ≡ text_eq t s
unfolding text_eq
text_eq-sym [] [] = refl
text_eq-sym [] (b ∷ t) = refl
text_eq-sym (a ∷ s) [] = refl
text_eq-sym (a ∷ s) (b ∷ t) = ground (arith, text_eq-sym s t)

contains-end :
    (n m : Text) (ns : List Text) → contains n (ns ++ (m ∷ [])) ≡ (text_eq m n || contains n ns)
contains-end n m [] = refl
contains-end n m (k ∷ ns) = ground (arith, contains-end n m ns)

is_distinct-end :
    (m : Text) (ns : List Text)
    → is_distinct (ns ++ (m ∷ [])) ≡ (not (contains m ns) && is_distinct ns)
is_distinct-end m [] = refl
is_distinct-end m (k ∷ ns) =
    ground (arith, is_distinct-end m ns, contains-end k m ns, text_eq-sym m k)

contains-middle : (m : Text) (ns ms : List Text) → contains m (ns ++ (m ∷ ms)) ≡ true
contains-middle m [] ms = ground (arith, text_eq_iff m m)
contains-middle m (k ∷ ns) ms = ground (arith, contains-middle m ns ms)

-- A text that stands before itself is a repeat.
is_distinct-repeat :
    (m : Text) (ns ms : List Text) → contains m ns ≡ true → is_distinct (ns ++ (m ∷ ms)) ≡ false
is_distinct-repeat m [] ms found = absurd (ground arith)
is_distinct-repeat m (k ∷ ns) ms found = elim (Bool-cases (text_eq k m)) [
  | inl same ↦
      let k_m = (text_eq_iff k m).0 same in
      rw (ap (λ t. contains t (ns ++ (m ∷ ms))) k_m, contains-middle m ns ms) refl
  | inr other ↦ ground (arith, other, found, is_distinct-repeat m ns ms)
]

names-append : (rows more : List Allocation) → names (rows ++ more) ≡ names rows ++ names more
names-append [] more = refl
names-append (a ∷ rows) more = ap (λ rest. a.category ∷ rest) (names-append rows more)

pub names-map-new_allocation :
    (income : ℤ) (is : List Item) → names (map (new_allocation income) is) ≡ categories_of is
unfolding new_allocation
names-map-new_allocation income [] = refl
names-map-new_allocation income (i ∷ is) =
    ap (λ rest. i.category ∷ rest) (names-map-new_allocation income is)

added-distinct :
    (income : ℤ) (i : Item) (rows : List Allocation)
    → has_category i.category rows ≡ false
    → is_distinct (names rows) ≡ true
    → is_distinct (names (rows ++ (new_allocation income i ∷ []))) ≡ true
unfolding new_allocation
added-distinct income i rows free distinct =
    rw (names-append rows (new_allocation income i ∷ []), is_distinct-end i.category (names rows))
      (ground (arith, has_category-contains i.category rows, free, distinct))

module _ (income : ℤ) where
  added-names :
      (i : Item) (rows : List Allocation) (ns : List Text)
      → names (rows ++ (new_allocation income i ∷ [])) ++ ns ≡ names rows ++ (i.category ∷ ns)
  unfolding new_allocation
  added-names i rows ns =
      ap (λ ms. ms ++ ns) (names-append rows (new_allocation income i ∷ []))
      ∙ append_assoc (names rows) (i.category ∷ []) ns

  -- The loop that ends has added every item, in order.
  pub apply_allocations-returned :
      (is : List Item) (rows : List Allocation)
      → (apply_allocations income is rows).0 ≡ returned
      → (apply_allocations income is rows).1 ≡ rows ++ map (new_allocation income) is
  unfolding apply_allocations
  apply_allocations-returned [] rows ended = sym (append-nil rows)
  apply_allocations-returned (i ∷ is) rows ended =
      elim (Bool-cases (has_category i.category rows)) [
        | inl taken ↦ absurd (ground (arith, taken, ended))
        | inr free ↦
            let rows' = rows ++ (new_allocation income i ∷ []) in
            rw free (
              apply_allocations-returned is rows' (ground (arith, free, ended))
              ∙ append_assoc rows (new_allocation income i ∷ []) (map (new_allocation income) is))
      ]

  -- The rows stay free of repeats, whether the loop ends or not.
  pub apply_allocations-distinct :
      (is : List Item) (rows : List Allocation)
      → is_distinct (names rows) ≡ true
      → is_distinct (names (apply_allocations income is rows).1) ≡ true
  unfolding apply_allocations
  apply_allocations-distinct [] rows distinct = distinct
  apply_allocations-distinct (i ∷ is) rows distinct =
      elim (Bool-cases (has_category i.category rows)) [
        | inl taken ↦ rw taken distinct
        | inr free ↦
            rw free (apply_allocations-distinct is _ (added-distinct income i rows free distinct))
      ]

  -- The loop ends exactly when the items repeat no category of the rows or of each other.
  pub apply_allocations-outcome :
      (is : List Item) (rows : List Allocation)
      → is_distinct (names rows) ≡ true
      → (apply_allocations income is rows).0
        ≡ outcome_of (is_distinct (names rows ++ categories_of is))
  unfolding apply_allocations
  apply_allocations-outcome [] rows distinct = rw (append-nil (names rows), distinct) refl
  apply_allocations-outcome (i ∷ is) rows distinct =
      elim (Bool-cases (has_category i.category rows)) [
        | inl taken ↦
            rw
              (
                taken,
                is_distinct-repeat i.category (names rows) (categories_of is)
                    (ground (arith, has_category-contains i.category rows, taken)),
              )
              refl
        | inr free ↦
            let rows' = rows ++ (new_allocation income i ∷ []) in
            rw free (
              apply_allocations-outcome is rows' (added-distinct income i rows free distinct)
              ∙ ap (λ ns. outcome_of (is_distinct ns)) (added-names i rows (categories_of is)))
      ]
