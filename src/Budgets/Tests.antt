-- ===== src/Budgets/Tests.antt =====
-- Runs on concrete plans, goals and dates.
use nbe_financial_advisor_ba.Prelude.{
  ℕ, ◌+◌, ◌*◌, ◌≤◌, ◌≡◌, refl, ◌↔◌, true, false, none, some, List, [], ◌∷◌, map, length, arith,
}
use nbe_financial_advisor_ba.Prelude.Text.{Text, codes, text_eq}
use nbe_financial_advisor_ba.Prelude.Int.{pos, ◌+ℤ◌, ◌-ℤ◌, int_eq}
use nbe_financial_advisor_ba.Categories.Model.{Category, expense}
use nbe_financial_advisor_ba.Budgets.Model.{
  Budget, chat, Tables, Item, half_even, amount_of, total_percentage, is_expense, all_expenses,
  validate_allocations,
}
use nbe_financial_advisor_ba.Budgets.Plan.{
  conflict, raised, saved, budget_of, store, new_allocation, apply_allocations, CreateRequest,
  UpdateRequest, create_plan, post_budget, replace_allocations, update_plan, on_budget,
  patch_budget,
}
use nbe_financial_advisor_ba.Budgets.Rows.{is_distinct, categories_of}
use nbe_financial_advisor_ba.Budgets.Rounding.{total_amount}
use nbe_financial_advisor_ba.Budgets.Saved.{
  create, update, serve, IsPlanned, serve_saves, serve_splits,
}
use nbe_financial_advisor_ba.Budgets.Partial.{is_sound, serve-is_sound, post_budget_repeated}
use nbe_financial_advisor_ba.Budgets.Calendar.{
  Date, ordinal, month_days, is_leap, days_before, year_days,
}
use nbe_financial_advisor_ba.Budgets.Goals.{
  Goal, GoalInput, goal_of, months_elapsed, months_remaining,
}
use nbe_financial_advisor_ba.Budgets.Upsert.{Call, put, post, delete, run, IsSame, run_keeps_start}
use nbe_financial_advisor_ba.Budgets.Windows.{
  last_month, last_3_months, Window, resolve_window, today_of, span, month_before,
}
use nbe_financial_advisor_ba.Budgets.Preceding.{resolve_window_precedes}

abbrev category : Text → Category
category name = record { name = name; label = name; category_type = expense; is_fallback = false }

abbrev food : Text
food = codes "food"

abbrev rent : Text
rent = codes "rent"

abbrev categories : List Category
categories = category food ∷ category rent ∷ []

abbrev item : Text → ℕ → Item
item name percentage = record { category = name; allocated_percentage = pos percentage }

-- A third and two thirds.
abbrev thirds : List Item
thirds = item food 3333 ∷ item rent 6667 ∷ []

-- One category twice: they sum to 100 all the same.
abbrev halves : List Item
halves = item food 5000 ∷ item food 5000 ∷ []

abbrev creation : List Item → CreateRequest
creation items = record { name = none; selected_template_key = none; allocations = items }

abbrev replacement : List Item → UpdateRequest
replacement items = record {
  name = none;
  selected_template_key = none;
  allocations = some items;
  changed_via = some chat;
}

abbrev no_plans : Tables
no_plans = record { budgets = []; history = []; notices = [] }

-- The plan of thirds, of an income of 100.01.
abbrev plan : Budget
plan = record {
  id = 7;
  user = 1;
  name = codes "My Plan";
  selected_template_key = none;
  allocations = map (new_allocation (pos 10001)) thirds;
}

abbrev one_plan : Tables
one_plan = record { budgets = plan ∷ []; history = []; notices = [] }

created : (post_budget categories 7 1 (some (pos 10001)) (creation thirds) no_plans).0 ≡ saved plan
unfolding post_budget create_plan budget_of apply_allocations new_allocation validate_allocations
    all_expenses is_expense total_percentage text_eq int_eq amount_of half_even ◌+ℤ◌
created = refl

serve_saves_example :
    (budget_of 1
        (serve categories 1 (some (pos 10001)) (create 7 (creation thirds)) no_plans).1.budgets
      ≡ some plan)
    × IsPlanned categories (some (pos 10001)) thirds plan.allocations
serve_saves_example =
    serve_saves categories (some (pos 10001)) (create 7 (creation thirds)) 1 thirds no_plans plan
      refl created

serve_splits_example :
    (t : ℕ) × (total_amount plan.allocations ≡ pos t)
    × (2 * t ≤ 2 * 10001 + length thirds)
    × (2 * 10001 ≤ 2 * t + length thirds)
serve_splits_example =
    serve_splits categories 10001 (create 7 (creation thirds)) 1 thirds no_plans plan refl refl
      created

one_plan_sound : is_sound one_plan.budgets ≡ true
unfolding is_sound new_allocation text_eq
one_plan_sound = refl

serve-is_sound_example :
    is_sound
      (serve categories 1 (some (pos 10001)) (update (replacement halves)) one_plan).1.budgets
    ≡ true
serve-is_sound_example =
    serve-is_sound categories (some (pos 10001)) (update (replacement halves)) 1 one_plan
      one_plan_sound

halves_valid : validate_allocations categories halves ≡ true
unfolding validate_allocations all_expenses is_expense total_percentage text_eq int_eq ◌+ℤ◌
halves_valid = refl

no_plan : budget_of 1 no_plans.budgets ≡ none
unfolding budget_of
no_plan = refl

post_budget_repeated_example :
    (let (reply, db') = post_budget categories 7 1 (some (pos 10001)) (creation halves) no_plans in
      ((reply ≡ raised) ↔ (is_distinct (categories_of halves) ≡ false))
      × ((post_budget categories 8 1 (some (pos 10001)) (creation thirds) db').0 ≡ conflict))
post_budget_repeated_example =
    post_budget_repeated categories (some (pos 10001)) 7 1 (creation halves) no_plans 8
      (creation thirds) no_plan halves_valid

its_plan : budget_of 1 one_plan.budgets ≡ some plan
unfolding budget_of
its_plan = refl

-- The update that repeats a category leaves the plan with half of the income.
half_a_plan :
    (patch_budget categories 1 (some (pos 10001)) (replacement halves) one_plan).1.budgets
    ≡ record plan { allocations = new_allocation (pos 10001) (item food 5000) ∷ [] } ∷ []
unfolding patch_budget on_budget update_plan replace_allocations store budget_of apply_allocations
    new_allocation validate_allocations all_expenses is_expense total_percentage text_eq int_eq ◌+ℤ◌
    amount_of half_even
half_a_plan = refl

abbrev day : ℕ → ℕ → ℕ → Date
day y m d = record { year = y; month = m; day = d }

abbrev goal_input : ℕ → GoalInput
goal_input months = record {
  name = codes "house";
  target_amount = pos 5000000;
  target_months = pos months;
}

abbrev goal : Goal
goal = record {
  id = 3;
  user = 1;
  name = codes "car";
  target_amount = pos 100000;
  timeline_months = pos 12;
  created_at = day 2025 11 20;
}

its_goal : goal_of 1 (goal ∷ []) ≡ some goal
unfolding goal_of
its_goal = refl

abbrev calls : List (ℕ × Call)
calls =
    (1, put 4 (day 2026 2 1) (some (goal_input 24)))
    ∷ (2, post 5 (day 2026 2 2) (goal_input 6))
    ∷ (2, delete)
    ∷ []

run_keeps_start_example : IsSame 1 goal (run calls (goal ∷ []))
run_keeps_start_example = run_keeps_start 1 goal calls (goal ∷ []) its_goal refl

-- Three of twelve months have begun on 1 February.
left : months_remaining (some goal) (day 2026 2 1) ≡ some 9
unfolding months_remaining months_elapsed ◌-ℤ◌
left = refl

resolve_window_precedes_example :
    (w : Window) × (resolve_window last_3_months (day 2026 1 15) ≡ some w)
    × (w.start ≤ w.end)
    × (w.end ≤ today_of (day 2026 1 15))
    × (w.prev_end + 1 ≡ w.start)
    × (w.end + w.prev_start ≡ w.start + w.prev_end)
unfolding month_days
resolve_window_precedes_example =
    resolve_window_precedes last_3_months (day 2026 1 15) refl (omega arith)

-- The window of the last month ends before today.
december_window : span last_month (day 2026 1 15) ≡ some (ordinal 2025 12 1, ordinal 2025 12 31)
unfolding span month_before month_days
december_window = refl

-- `toordinal` around leap days, and rounding of halves to the even neighbour.
ordinals :
    (ordinal 2026 1 15 ≡ 739631)
    × (ordinal 2024 2 29 ≡ 738945)
    × (ordinal 2000 12 31 ≡ 730485)
    × (ordinal 1900 3 1 ≡ 693655)
unfolding ordinal year_days days_before is_leap
ordinals = (refl, refl, refl, refl)

roundings : (half_even 25 10 ≡ 2) × (half_even 35 10 ≡ 4) × (half_even 26 10 ≡ 3)
unfolding half_even
roundings = (refl, refl, refl)
