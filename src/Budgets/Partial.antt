-- ===== src/Budgets/Partial.antt =====
-- What a request for a plan leaves when it ends with an exception, and what holds however it ends.
use nbe_financial_advisor_ba.Prelude.{
  ℕ, ◌≡◌, refl, ap, ◌∙◌, ◌↔◌, ◌⊎◌, inl, inr, Bool, true, false, not, Option, none, some, List, [],
  ◌∷◌, ◌++◌, ◌&&◌, ◌||◌, ◌==◌, is_some, arith, Bool-cases, Option-cases,
}
use nbe_financial_advisor_ba.Prelude.Int.{ℤ}
use nbe_financial_advisor_ba.Categories.Model.{Category}
use nbe_financial_advisor_ba.Budgets.Model.{
  Budget, ChangedVia, dashboard, History, Tables, Item, validate_allocations, snapshot,
}
use nbe_financial_advisor_ba.Budgets.Plan.{
  Reply, conflict, invalid, raised, saved, budget_of, store, or_zero, CreateRequest, UpdateRequest,
  or_else, reply_of, create_plan, post_budget, replace_allocations, notify, update_plan, on_budget,
  patch_budget, is_valid_update,
}
use nbe_financial_advisor_ba.Budgets.Rows.{
  is_distinct, names, categories_of, outcome_of, apply_allocations-distinct,
  apply_allocations-outcome,
}
use nbe_financial_advisor_ba.Budgets.Saved.{Request, create, update, serve}

has_user : ℕ → List Budget → Bool
has_user user [] = false
has_user user (b ∷ bs) = (b.user == user) || has_user user bs

-- No user has two plans, and no plan has two rows of one category.
unfoldable pub is_sound : List Budget → Bool
unfolding has_user
is_sound [] = true
is_sound (b ∷ bs) = not (has_user b.user bs) && is_distinct (names b.allocations) && is_sound bs

has_user-budget_of : (user : ℕ) (bs : List Budget) → has_user user bs ≡ is_some (budget_of user bs)
unfolding has_user budget_of
has_user-budget_of user [] = refl
has_user-budget_of user (b ∷ bs) = ground (arith, has_user-budget_of user bs)

has_user-store :
    (user : ℕ) (b : Budget) (bs : List Budget) → has_user user (store b bs) ≡ has_user user bs
unfolding has_user store
has_user-store user b [] = refl
has_user-store user b (c ∷ bs) = ground (arith, has_user-store user b bs)

is_sound-store :
    (b : Budget) (bs : List Budget)
    → is_distinct (names b.allocations) ≡ true
    → is_sound bs ≡ true
    → is_sound (store b bs) ≡ true
unfolding is_sound store
is_sound-store b [] distinct sound = refl
is_sound-store b (c ∷ bs) distinct sound =
    grind (arith, is_sound-store b bs, has_user-store b.user b bs, has_user-store c.user b bs)

budget_of-distinct :
    (user : ℕ) (bs : List Budget) (b : Budget)
    → is_sound bs ≡ true
    → budget_of user bs ≡ some b
    → is_distinct (names b.allocations) ≡ true
unfolding is_sound budget_of
budget_of-distinct user [] b sound found = absurd (ground arith)
budget_of-distinct user (c ∷ bs) b sound found = grind (arith, budget_of-distinct user bs b)

module _ (categories : List Category) (monthly_income : Option ℤ) where
  replace-distinct :
      (given : Option (List Item)) (b : Budget)
      → is_distinct (names b.allocations) ≡ true
      → is_distinct
          (names (replace_allocations categories (or_zero monthly_income) given b.allocations).1)
        ≡ true
  unfolding replace_allocations
  replace-distinct none b distinct = distinct
  replace-distinct (some is) b distinct =
      apply_allocations-distinct (or_zero monthly_income) is [] refl

  post_sound :
      (fresh user : ℕ) (r : CreateRequest) (db : Tables)
      → is_sound db.budgets ≡ true
      → is_sound (post_budget categories fresh user monthly_income r db).1.budgets ≡ true
  unfolding post_budget create_plan is_sound
  post_sound fresh user r db sound = elim (Bool-cases (is_some (budget_of user db.budgets))) [
    | inl taken ↦ rw taken sound
    | inr free ↦ elim (Bool-cases (validate_allocations categories r.allocations)) [
      | inr wrong ↦ rw (free, wrong) sound
      | inl valid ↦
          rw
            (
              free,
              valid,
              has_user-budget_of user db.budgets,
              free,
              apply_allocations-distinct (or_zero monthly_income) r.allocations [] refl,
            )
            sound
    ]
  ]

  patch_sound :
      (user : ℕ) (r : UpdateRequest) (db : Tables)
      → is_sound db.budgets ≡ true
      → is_sound (patch_budget categories user monthly_income r db).1.budgets ≡ true
  unfolding patch_budget on_budget update_plan
  patch_sound user r db sound = elim (Option-cases (budget_of user db.budgets)) [
    | inl missing ↦ rw missing sound
    | inr (b, found) ↦ elim (Bool-cases (is_valid_update categories r.allocations)) [
      | inr wrong ↦ rw (found, wrong) sound
      | inl valid ↦
          rw (found, valid)
            (is_sound-store _ db.budgets
              (replace-distinct r.allocations b (budget_of-distinct user db.budgets b sound found))
              sound)
    ]
  ]

-- However a request for a plan ends, an exception included, a table in which no user has two plans and
-- no plan two rows of one category stays one.
pub serve-is_sound :
    (categories : List Category) (monthly_income : Option ℤ) (request : Request) (user : ℕ)
    (db : Tables)
    → is_sound db.budgets ≡ true
    → is_sound (serve categories user monthly_income request db).1.budgets ≡ true
serve-is_sound categories monthly_income (create fresh r) user db sound =
    post_sound categories monthly_income fresh user r db sound
serve-is_sound categories monthly_income (update r) user db sound =
    patch_sound categories monthly_income user r db sound

abbrev pub is_saved : Reply → Bool
is_saved (saved b) = true
is_saved _ = false

-- The allocations of a request, if it has any, name a category twice.
abbrev pub repeats : Option (List Item) → Bool
repeats none = false
repeats (some is) = not (is_distinct (categories_of is))

twice : (d : Bool) → d ≡ not (not d)
twice true = refl
twice false = refl

raised_iff : (d : Bool) (b : Budget) → (reply_of (outcome_of d) b ≡ raised) ↔ (d ≡ false)
raised_iff true b = ground arith
raised_iff false b = ground arith

-- For a user without a plan, a creation with valid allocations ends with an exception exactly when a
-- category is repeated in them, and either way every later creation is refused as a conflict.
pub post_budget_repeated :
    (categories : List Category) (monthly_income : Option ℤ) (fresh user : ℕ) (r : CreateRequest)
    (db : Tables) (fresh' : ℕ) (r' : CreateRequest)
    → budget_of user db.budgets ≡ none
    → validate_allocations categories r.allocations ≡ true
    → (let (reply, db') = post_budget categories fresh user monthly_income r db in
        ((reply ≡ raised) ↔ (is_distinct (categories_of r.allocations) ≡ false))
        × ((post_budget categories fresh' user monthly_income r' db').0 ≡ conflict))
unfolding post_budget create_plan budget_of
post_budget_repeated categories monthly_income fresh user r db fresh' r' free valid =
    rw (free, valid)
      (
        rw (apply_allocations-outcome (or_zero monthly_income) r.allocations [] refl)
            (raised_iff (is_distinct (categories_of r.allocations)) _),
        ground arith,
      )

replace-outcome :
    (categories : List Category) (monthly_income : Option ℤ) (given : Option (List Item))
    (b : Budget)
    → (replace_allocations categories (or_zero monthly_income) given b.allocations).0
      ≡ outcome_of (not (repeats given))
unfolding replace_allocations
replace-outcome categories monthly_income none b = refl
replace-outcome categories monthly_income (some is) b =
    apply_allocations-outcome (or_zero monthly_income) is [] refl
    ∙ ap outcome_of (twice (is_distinct (categories_of is)))

-- How an update that is not refused ends, by whether it repeats a category.
settled :
    (categories : List Category) (repeated : Bool) (b : Budget) (n : ℕ × ChangedVia)
    (notices : List (ℕ × ChangedVia))
    → (let outcome = outcome_of (not repeated) in
        ((reply_of outcome b ≡ raised)
          × (repeated ≡ true)
          × (notify categories outcome n notices ≡ notices))
        ⊎ ((is_saved (reply_of outcome b) ≡ true)
            × (repeated ≡ false)
            × (notify categories outcome n notices ≡ notices ++ (n ∷ []))))
settled categories true b n notices = inl (refl, refl, refl)
settled categories false b n notices = inr (refl, refl, refl)

-- An update of a user's plan is refused for its allocations with nothing changed, or it puts the
-- allocations that the plan had before in front of the history. It ends with an exception then,
-- exactly when the request repeats a category, and the user is sent a notice exactly when it does not.
pub patch_budget_records :
    (categories : List Category) (monthly_income : Option ℤ) (user : ℕ) (r : UpdateRequest)
    (b : Budget) (db : Tables)
    → budget_of user db.budgets ≡ some b
    → (let (reply, db') = patch_budget categories user monthly_income r db in
        let via = or_else r.changed_via dashboard in
        let entry : History = record {
          budget = b.id;
          previous_values = snapshot b.allocations;
          changed_via = via;
        } in
        ((reply ≡ invalid) × (db' ≡ db))
        ⊎ ((db'.history ≡ entry ∷ db.history)
            × (((reply ≡ raised) × (repeats r.allocations ≡ true) × (db'.notices ≡ db.notices))
                ⊎ ((is_saved reply ≡ true)
                    × (repeats r.allocations ≡ false)
                    × (db'.notices ≡ db.notices ++ ((b.user, via) ∷ []))))))
unfolding patch_budget on_budget update_plan
patch_budget_records categories monthly_income user r b db found =
    elim (Bool-cases (is_valid_update categories r.allocations)) [
      | inr wrong ↦ rw (found, wrong) (inl (refl, refl))
      | inl valid ↦
          rw (found, valid)
            (inr (
              refl,
              rw (replace-outcome categories monthly_income r.allocations b)
                  (settled categories (repeats r.allocations) _ _ db.notices),
            ))
    ]
