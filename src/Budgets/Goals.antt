-- ===== src/Budgets/Goals.antt =====
-- The savings goal of core/views/budgets.py: `GoalView`, `DashboardGoalView`, and the figures of a
-- goal. Bodies are as parsed by the serializers, whose own test is `min_value=1` on the months.
-- The percentages are floats and are not modelled.
use nbe_financial_advisor_ba.Prelude.{
  ℕ, ◌+◌, ◌*◌, Bool, true, false, not, Option, none, some, List, [], ◌∷◌, ◌&&◌, ◌||◌, leb, ◌==◌,
  is_some, if◌then◌else◌,
}
use nbe_financial_advisor_ba.Prelude.Text.{Text, codes}
use nbe_financial_advisor_ba.Prelude.Int.{ℤ, pos, negsuc, ◌+ℤ◌, ◌-ℤ◌}
use nbe_financial_advisor_ba.Bank.Model.{Transaction, option_text_eq, is_credit}
use nbe_financial_advisor_ba.Budgets.Calendar.{Date}

pub record Goal : Type 0 where
  pub id : ℕ
  pub user : ℕ
  pub name : Text
  pub target_amount : ℤ
  pub timeline_months : ℤ
  pub created_at : Date

-- `GoalInputSerializer`
pub record GoalInput : Type 0 where
  pub name : Text
  pub target_amount : ℤ
  pub target_months : ℤ

-- `GoalUpdateSerializer`
pub record GoalUpdate : Type 0 where
  pub name : Option Text
  pub target_amount : Option ℤ
  pub target_months : Option ℤ

-- `shown status goal` is the response with `_goal_progress(goal)`.
pub data Reply : Type 0 where
  conflict not_found invalid deleted : Reply
  shown : (status : ℕ) → Goal → Reply

abbrev pub at_least_one : ℤ → Bool
at_least_one (pos n) = leb 1 n
at_least_one (negsuc n) = false

abbrev pub or_old {ℓ} : {A : Type ℓ} → Option A → A → A
or_old none a = a
or_old (some b) a = b

abbrev pub is_valid_months : Option ℤ → Bool
is_valid_months none = true
is_valid_months (some n) = at_least_one n

-- `Goal.objects.filter(user=request.user).first()`
unfoldable pub goal_of : (user : ℕ) → List Goal → Option Goal
goal_of user [] = none
goal_of user (g ∷ gs) = if g.user == user then some g else goal_of user gs

unfoldable pub save_goal : Goal → List Goal → List Goal
save_goal g [] = []
save_goal g (h ∷ gs) = let rest = save_goal g gs in (if h.user == g.user then g else h) ∷ rest

unfoldable pub delete_goal : (user : ℕ) → List Goal → List Goal
delete_goal user [] = []
delete_goal user (g ∷ gs) =
    let rest = delete_goal user gs in if g.user == user then rest else g ∷ rest

abbrev pub new_goal : (fresh user : ℕ) (today : Date) → GoalInput → Goal
new_goal fresh user today data' = record {
  id = fresh;
  user = user;
  name = data'.name;
  target_amount = data'.target_amount;
  timeline_months = data'.target_months;
  created_at = today;
}

abbrev pub changed : GoalUpdate → Goal → Goal
changed data' g = record g {
  name = or_old data'.name g.name;
  target_amount = or_old data'.target_amount g.target_amount;
  timeline_months = or_old data'.target_months g.timeline_months;
}

-- `GoalView.post`
unfoldable pub post_goal :
    (fresh user : ℕ) (today : Date) → GoalInput → List Goal → Reply × List Goal
post_goal fresh user today data' gs =
    if is_some (goal_of user gs)
    then (conflict, gs)
    else if not (at_least_one data'.target_months)
    then (invalid, gs)
    else let g = new_goal fresh user today data' in (shown 201 g, g ∷ gs)

unfoldable pub change_goal : GoalUpdate → Option Goal → List Goal → Reply × List Goal
change_goal data' none gs = (not_found, gs)
change_goal data' (some g) gs =
    if not (is_valid_months data'.target_months)
    then (invalid, gs)
    else let g' = changed data' g in (shown 200 g', save_goal g' gs)

-- `GoalView.patch`
unfoldable pub patch_goal : (user : ℕ) → GoalUpdate → List Goal → Reply × List Goal
patch_goal user data' gs = change_goal data' (goal_of user gs) gs

-- `GoalView.delete`
unfoldable pub remove_goal : (user : ℕ) → List Goal → Reply × List Goal
remove_goal user gs =
    if is_some (goal_of user gs) then (deleted, delete_goal user gs) else (not_found, gs)

-- `Goal.objects.update_or_create(user=request.user, defaults=...)`
unfoldable pub update_or_create :
    (fresh user : ℕ) (today : Date) → GoalInput → Option Goal → List Goal → Goal × List Goal
update_or_create fresh user today data' none gs =
    let g = new_goal fresh user today data' in (g, g ∷ gs)
update_or_create fresh user today data' (some g) gs =
    let g' : Goal = record g {
      name = data'.name;
      target_amount = data'.target_amount;
      timeline_months = data'.target_months;
    } in
    (g', save_goal g' gs)

-- `DashboardGoalView.patch`; `none` is a request without a goal.
unfoldable pub put_goal :
    (fresh user : ℕ) (today : Date) → Option GoalInput → List Goal → Reply × List Goal
put_goal fresh user today none gs = (invalid, gs)
put_goal fresh user today (some data') gs =
    if not (at_least_one data'.target_months)
    then (invalid, gs)
    else let (g, gs') = update_or_create fresh user today data' (goal_of user gs) gs in
      (shown 200 g, gs')

-- `_months_elapsed`: the twelves are taken together on each side of the difference.
unfoldable pub months_elapsed : (start_date end_date : Date) → ℤ
months_elapsed start_date end_date =
    pos (12 * end_date.year + end_date.month) -ℤ pos (12 * start_date.year + start_date.month)

-- `max(0, n)`
abbrev pub or_none_left : ℤ → ℕ
or_none_left (pos n) = n
or_none_left (negsuc n) = 0

-- `_months_remaining`
unfoldable pub months_remaining : Option Goal → (today : Date) → Option ℕ
months_remaining none today = none
months_remaining (some goal) today =
    some (or_none_left (goal.timeline_months -ℤ months_elapsed goal.created_at today))

abbrev pub is_spending : Transaction → Bool
is_spending t =
    option_text_eq t.transaction_type (some (codes "debit"))
    || option_text_eq t.transaction_type (some (codes "fee"))

-- `txns.filter(...).aggregate(t=Sum("amount"))["t"] or Decimal("0")`
unfoldable pub sum_where : (Transaction → Bool) → List Transaction → ℤ
sum_where test [] = pos 0
sum_where test (t ∷ ts) = let rest = sum_where test ts in if test t then t.amount +ℤ rest else rest

abbrev pub is_since : (user since : ℕ) → Transaction → Bool
is_since user since t = (t.user == user) && leb since t.transaction_date

-- `_saved_so_far`
unfoldable pub saved_so_far : (user since : ℕ) → List Transaction → ℕ
saved_so_far user since ts = or_none_left (
    sum_where (λ t. is_since user since t && is_credit t) ts
    -ℤ sum_where (λ t. is_since user since t && is_spending t) ts)
