-- ===== src/Budgets/Plan.antt =====
-- `BudgetView.post` and `BudgetView.patch` of core/views/budgets.py. Nothing makes a request one
-- transaction, so what is written before an exception stays. `raised` is the IntegrityError of the
-- unique constraint on budget and category.
use nbe_financial_advisor_ba.Prelude.{
  ℕ, Bool, true, false, not, Option, none, some, List, [], ◌∷◌, ◌++◌, ◌||◌, ◌==◌, is_some,
  if◌then◌else◌,
}
use nbe_financial_advisor_ba.Prelude.Text.{Text, codes, text_eq}
use nbe_financial_advisor_ba.Prelude.Int.{ℤ, pos}
use nbe_financial_advisor_ba.Categories.Model.{Category}
use nbe_financial_advisor_ba.Budgets.Model.{
  Allocation, Budget, ChangedVia, dashboard, History, Tables, Item, amount_of, validate_allocations,
  snapshot,
}

pub data Reply : Type 0 where
  conflict not_found invalid raised : Reply
  saved : Budget → Reply

pub data Outcome : Type 0 where
  returned aborted : Outcome

-- `Budget.objects.filter(user=request.user).first()`
unfoldable pub budget_of : (user : ℕ) → List Budget → Option Budget
budget_of user [] = none
budget_of user (b ∷ bs) = if b.user == user then some b else budget_of user bs

-- Writes the row of the user's plan.
unfoldable pub store : Budget → List Budget → List Budget
store b [] = []
store b (c ∷ cs) = let rest = store b cs in (if c.user == b.user then b else c) ∷ rest

abbrev pub has_category : Text → List Allocation → Bool
has_category name [] = false
has_category name (a ∷ rest) = text_eq a.category name || has_category name rest

unfoldable pub new_allocation : (monthly_income : ℤ) → Item → Allocation
new_allocation monthly_income i = record {
  category = i.category;
  allocated_percentage = i.allocated_percentage;
  allocated_amount = amount_of monthly_income i.allocated_percentage;
  currency = codes "EGP";
}

-- `_apply_allocations`, on the rows of the plan
unfoldable pub apply_allocations :
    (monthly_income : ℤ) → List Item → List Allocation → Outcome × List Allocation
apply_allocations monthly_income [] rows = (returned, rows)
apply_allocations monthly_income (i ∷ is) rows =
    if has_category i.category rows
    then (aborted, rows)
    else apply_allocations monthly_income is (rows ++ (new_allocation monthly_income i ∷ []))

-- `request.user.monthly_income or Decimal("0")`
abbrev pub or_zero : Option ℤ → ℤ
or_zero none = pos 0
or_zero (some n) = n

-- `data.get("name") or "My Plan"`
abbrev pub or_my_plan : Option Text → Text
or_my_plan none = codes "My Plan"
or_my_plan (some []) = codes "My Plan"
or_my_plan (some (c ∷ s)) = c ∷ s

pub record CreateRequest : Type 0 where
  pub name : Option Text
  pub selected_template_key : Option Text
  pub allocations : List Item

-- `selected_template_key` may be left out, null, or given.
pub record UpdateRequest : Type 0 where
  pub name : Option Text
  pub selected_template_key : Option (Option Text)
  pub allocations : Option (List Item)
  pub changed_via : Option ChangedVia

abbrev pub or_else {ℓ} : {A : Type ℓ} → Option A → A → A
or_else none a = a
or_else (some b) a = b

abbrev pub reply_of : Outcome → Budget → Reply
reply_of returned b = saved b
reply_of aborted b = raised

module _ (categories : List Category) where
  -- The row, and its allocations.
  unfoldable pub create_plan :
      (fresh user : ℕ) (monthly_income : Option ℤ) → CreateRequest → Tables → Reply × Tables
  create_plan fresh user monthly_income r db =
      let (outcome, rows) = apply_allocations (or_zero monthly_income) r.allocations [] in
      let b : Budget = record {
        id = fresh;
        user = user;
        name = or_my_plan r.name;
        selected_template_key = r.selected_template_key;
        allocations = rows;
      } in
      (reply_of outcome b, record db { budgets = b ∷ db.budgets })

  -- `BudgetView.post`
  unfoldable pub post_budget :
      (fresh user : ℕ) (monthly_income : Option ℤ) → CreateRequest → Tables → Reply × Tables
  post_budget fresh user monthly_income r db =
      if is_some (budget_of user db.budgets)
      then (conflict, db)
      else if not (validate_allocations categories r.allocations)
      then (invalid, db)
      else create_plan fresh user monthly_income r db

  -- The allocations after the update, if the request has any.
  unfoldable pub replace_allocations :
      (monthly_income : ℤ) → Option (List Item) → List Allocation → Outcome × List Allocation
  replace_allocations monthly_income none rows = (returned, rows)
  replace_allocations monthly_income (some is) rows = apply_allocations monthly_income is []

  abbrev pub is_valid_update : Option (List Item) → Bool
  is_valid_update none = true
  is_valid_update (some is) = validate_allocations categories is

  -- The notice that the plan was changed, if the view gets there.
  abbrev pub notify : Outcome → ℕ × ChangedVia → List (ℕ × ChangedVia) → List (ℕ × ChangedVia)
  notify returned n notices = notices ++ (n ∷ [])
  notify aborted n notices = notices

  -- From the snapshot on.
  unfoldable pub update_plan :
      (monthly_income : Option ℤ) → UpdateRequest → Budget → Tables → Reply × Tables
  update_plan monthly_income r b db =
      let changed_via = or_else r.changed_via dashboard in
      let (outcome, rows) =
        replace_allocations (or_zero monthly_income) r.allocations b.allocations in
      let b' : Budget = record b {
        name = or_else r.name b.name;
        selected_template_key = or_else r.selected_template_key b.selected_template_key;
        allocations = rows;
      } in
      let entry : History = record {
        budget = b.id;
        previous_values = snapshot b.allocations;
        changed_via = changed_via;
      } in
      (
        reply_of outcome b',
        record db {
          budgets = store b' db.budgets;
          history = entry ∷ db.history;
          notices = notify outcome (b.user, changed_via) db.notices;
        },
      )

  unfoldable pub on_budget :
      (monthly_income : Option ℤ) → UpdateRequest → Option Budget → Tables → Reply × Tables
  on_budget monthly_income r none db = (not_found, db)
  on_budget monthly_income r (some b) db =
      if not (is_valid_update r.allocations)
      then (invalid, db)
      else update_plan monthly_income r b db

  -- `BudgetView.patch`
  unfoldable pub patch_budget :
      (user : ℕ) (monthly_income : Option ℤ) → UpdateRequest → Tables → Reply × Tables
  patch_budget user monthly_income r db = on_budget monthly_income r (budget_of user db.budgets) db
