-- ===== src/Budgets/Saved.antt =====
-- The plans that `BudgetView.post` and `BudgetView.patch` leave, one request at a time.
use mathlib.Core.Path.{subst}
use nbe_financial_advisor_ba.Prelude.{
  ℕ, ◌+◌, ◌*◌, ◌≤◌, ◌≡◌, refl, sym, ap, ◌∙◌, inl, inr, Bool, true, false, Option, some, List, [],
  ◌∷◌, map, is_some, length, arith, Bool-cases, Option-cases,
}
use nbe_financial_advisor_ba.Prelude.Int.{ℤ, pos, int_eq_iff}
use nbe_financial_advisor_ba.Categories.Model.{Category}
use nbe_financial_advisor_ba.Budgets.Model.{
  Allocation, Budget, Tables, Item, total_percentage, all_expenses, validate_allocations,
}
use nbe_financial_advisor_ba.Budgets.Plan.{
  Reply, saved, Outcome, returned, aborted, budget_of, store, new_allocation, apply_allocations,
  or_zero, CreateRequest, UpdateRequest, or_else, or_my_plan, reply_of, create_plan, post_budget,
  replace_allocations, update_plan, on_budget, patch_budget,
}
use nbe_financial_advisor_ba.Budgets.Rows.{
  is_distinct, categories_of, outcome_of, apply_allocations-returned, apply_allocations-outcome,
}
use nbe_financial_advisor_ba.Budgets.Rounding.{all_nonnegative, total_amount, split}

-- A request for the plan: a creation, with the id of the new row, or an update.
pub data Request : Type 0 where
  create : ℕ → CreateRequest → Request
  update : UpdateRequest → Request

-- The allocations that a request names.
abbrev pub items_of : Request → Option (List Item)
items_of (create fresh r) = some r.allocations
items_of (update r) = r.allocations

abbrev pub serve :
    List Category → (user : ℕ) (monthly_income : Option ℤ) → Request → Tables → Reply × Tables
serve categories user monthly_income (create fresh r) db =
    post_budget categories fresh user monthly_income r db
serve categories user monthly_income (update r) db =
    patch_budget categories user monthly_income r db

-- The rows are those of the items, which are valid and do not repeat a category.
abbrev pub IsPlanned : List Category → Option ℤ → List Item → List Allocation → Type 0
IsPlanned categories monthly_income is rows =
    (rows ≡ map (new_allocation (or_zero monthly_income)) is)
    × (total_percentage is ≡ pos 10000)
    × (all_expenses categories is ≡ true)
    × (is_distinct (categories_of is) ≡ true)

some_eq : (js is : List Item) → some js ≡ some is → js ≡ is
some_eq js is same = grind (arith, same)

pos_eq : (m n : ℕ) → pos m ≡ pos n → m ≡ n
pos_eq m n same = grind (arith, same)

saved_eq : (b c : Budget) → saved b ≡ saved c → b ≡ c
saved_eq b c same = grind (arith, same)

saved-returned : (o : Outcome) (b c : Budget) → reply_of o b ≡ saved c → (o ≡ returned) × (b ≡ c)
saved-returned returned b c same = (refl, saved_eq b c same)
saved-returned aborted b c same = absurd (ground arith)

completed : (distinct : Bool) → outcome_of distinct ≡ returned → distinct ≡ true
completed true ended = refl
completed false ended = absurd (ground arith)

pub budget_of-user :
    (user : ℕ) (bs : List Budget) (b : Budget) → budget_of user bs ≡ some b → b.user ≡ user
unfolding budget_of
budget_of-user user [] b found = absurd (ground arith)
budget_of-user user (c ∷ bs) b found = grind (arith, budget_of-user user bs b)

pub budget_of-store :
    (user : ℕ) (bs : List Budget) (b b' : Budget)
    → budget_of user bs ≡ some b
    → b'.user ≡ user
    → budget_of user (store b' bs) ≡ some b'
unfolding budget_of store
budget_of-store user [] b b' found same = absurd (ground arith)
budget_of-store user (c ∷ bs) b b' found same = grind (arith, budget_of-store user bs b b')

module _ (categories : List Category) (monthly_income : Option ℤ) where
  apply-IsPlanned :
      (is : List Item)
      → validate_allocations categories is ≡ true
      → (apply_allocations (or_zero monthly_income) is []).0 ≡ returned
      → IsPlanned categories monthly_income is (apply_allocations (or_zero monthly_income) is []).1
  unfolding validate_allocations
  apply-IsPlanned is valid ended =
      let outcome = apply_allocations-outcome (or_zero monthly_income) is [] refl in
      (
        apply_allocations-returned (or_zero monthly_income) is [] ended,
        (int_eq_iff (total_percentage is) (pos 10000)).0 (ground (arith, valid)),
        ground (arith, valid),
        completed (is_distinct (categories_of is)) (sym outcome ∙ ended),
      )

  -- An answer `saved b` is the user's plan as stored, with the rows of the items.
  abbrev IsSaved : (user : ℕ) → List Item → Budget → Reply → List Budget → Type 0
  IsSaved user is b reply budgets =
      reply ≡ saved b
      → (budget_of user budgets ≡ some b) × IsPlanned categories monthly_income is b.allocations

  -- The plan that is written, `b'`, is the one that is answered.
  written-IsSaved :
      (user : ℕ) (is : List Item) (b' b : Budget) (budgets : List Budget)
      → validate_allocations categories is ≡ true
      → b'.allocations ≡ (apply_allocations (or_zero monthly_income) is []).1
      → budget_of user budgets ≡ some b'
      → IsSaved user is b (reply_of (apply_allocations (or_zero monthly_income) is []).0 b') budgets
  written-IsSaved user is b' b budgets valid rows found done =
      let (ended, same) = saved-returned _ b' b done in
      subst
        (λ c.
          (budget_of user budgets ≡ some c) × IsPlanned categories monthly_income is c.allocations)
        same
        (
          found,
          subst (λ rs. IsPlanned categories monthly_income is rs) (sym rows)
              (apply-IsPlanned is valid ended),
        )

  abbrev created : (fresh user : ℕ) → CreateRequest → Budget
  created fresh user r = record {
    id = fresh;
    user = user;
    name = or_my_plan r.name;
    selected_template_key = r.selected_template_key;
    allocations = (apply_allocations (or_zero monthly_income) r.allocations []).1;
  }

  abbrev updated : UpdateRequest → List Item → Budget → Budget
  updated r is b = record b {
    name = or_else r.name b.name;
    selected_template_key = or_else r.selected_template_key b.selected_template_key;
    allocations = (apply_allocations (or_zero monthly_income) is []).1;
  }

  post-IsSaved :
      (fresh user : ℕ) (r : CreateRequest) (db : Tables) (b : Budget)
      → IsSaved user r.allocations b
          (post_budget categories fresh user monthly_income r db).0
          (post_budget categories fresh user monthly_income r db).1.budgets
  unfolding post_budget create_plan budget_of
  post-IsSaved fresh user r db b = elim (Bool-cases (is_some (budget_of user db.budgets))) [
    | inl taken ↦ rw taken (λ done. absurd (ground (arith, done)))
    | inr free ↦ elim (Bool-cases (validate_allocations categories r.allocations)) [
      | inr wrong ↦ rw (free, wrong) (λ done. absurd (ground (arith, done)))
      | inl valid ↦
          rw (free, valid)
            (written-IsSaved user r.allocations (created fresh user r) b
              (created fresh user r ∷ db.budgets) valid refl (ground arith))
    ]
  ]

  patch-IsSaved :
      (user : ℕ) (r : UpdateRequest) (is : List Item) (db : Tables) (b : Budget)
      → r.allocations ≡ some is
      → IsSaved user is b
          (patch_budget categories user monthly_income r db).0
          (patch_budget categories user monthly_income r db).1.budgets
  unfolding patch_budget on_budget update_plan replace_allocations
  patch-IsSaved user r is db b given = elim (Option-cases (budget_of user db.budgets)) [
    | inl missing ↦ rw missing (λ done. absurd (ground (arith, done)))
    | inr (c, found) ↦ elim (Bool-cases (validate_allocations categories is)) [
      | inr wrong ↦ rw (found, given, wrong) (λ done. absurd (ground (arith, done)))
      | inl valid ↦
          rw (found, given, valid)
            (written-IsSaved user is (updated r is c) b (store (updated r is c) db.budgets) valid
              refl
              (budget_of-store user db.budgets c (updated r is c) found
                (budget_of-user user db.budgets c found)))
    ]
  ]

  serve-IsSaved :
      (request : Request) (user : ℕ) (is : List Item) (db : Tables) (b : Budget)
      → items_of request ≡ some is
      → IsSaved user is b
          (serve categories user monthly_income request db).0
          (serve categories user monthly_income request db).1.budgets
  serve-IsSaved (create fresh r) user is db b given =
      subst
        (λ js.
          IsSaved user js b (post_budget categories fresh user monthly_income r db).0
            (post_budget categories fresh user monthly_income r db).1.budgets)
        (some_eq _ _ given) (post-IsSaved fresh user r db b)
  serve-IsSaved (update r) user is db b given = patch-IsSaved user r is db b given

-- A request that names allocations and is answered with a plan leaves exactly that plan for the user. Its
-- rows are those of the request in order, each with its percentage of the income, and the request
-- named expense categories, none twice, with percentages that sum to 100.
pub serve_saves :
    (categories : List Category) (monthly_income : Option ℤ) (request : Request) (user : ℕ)
    (is : List Item) (db : Tables) (b : Budget)
    → items_of request ≡ some is
    → (serve categories user monthly_income request db).0 ≡ saved b
    → (budget_of user (serve categories user monthly_income request db).1.budgets ≡ some b)
      × IsPlanned categories monthly_income is b.allocations
serve_saves categories monthly_income request user is db b given done =
    serve-IsSaved categories monthly_income request user is db b given done

-- With a known income that is not negative and no negative percentage, the amounts of a saved plan sum
-- to the income up to half a hundredth for each row.
pub serve_splits :
    (categories : List Category) (a : ℕ) (request : Request) (user : ℕ) (is : List Item)
    (db : Tables) (b : Budget)
    → items_of request ≡ some is
    → all_nonnegative is ≡ true
    → (serve categories user (some (pos a)) request db).0 ≡ saved b
    → (t : ℕ) × (total_amount b.allocations ≡ pos t)
      × (2 * t ≤ 2 * a + length is)
      × (2 * a ≤ 2 * t + length is)
serve_splits categories a request user is db b given shares done =
    let (_, (rows, percentages, _, _)) =
      serve_saves categories (some (pos a)) request user is db b given done in
    let (p, t, total, amounts, above, below) = split a is shares in
    let hundred : p ≡ 10000 = pos_eq p 10000 (sym total ∙ percentages) in
    (
      t,
      ap total_amount rows ∙ amounts,
      omega (arith, ap (λ q. a * q) hundred, above),
      omega (arith, ap (λ q. a * q) hundred, below),
    )
