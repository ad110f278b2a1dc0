-- ===== src/Budgets/Upsert.antt =====
-- The savings goal under the calls of all users: the upsert of the dashboard, and what no call changes.
use nbe_financial_advisor_ba.Prelude.{
  ℕ, ◌≡◌, refl, sym, ap, ◌∙◌, inl, inr, Bool, false, Option, none, some, List, [], ◌∷◌, ◌||◌, ◌==◌,
  is_some, ==_iff, if◌then◌else◌, arith, Bool-cases, Option-cases,
}
use nbe_financial_advisor_ba.Budgets.Calendar.{Date}
use nbe_financial_advisor_ba.Budgets.Goals.{
  Goal, GoalInput, GoalUpdate, Reply, shown, at_least_one, is_valid_months, goal_of, save_goal,
  delete_goal, new_goal, changed, post_goal, change_goal, patch_goal, remove_goal, update_or_create,
  put_goal,
}

-- The update that sets every field.
abbrev pub whole : GoalInput → GoalUpdate
whole data' = record {
  name = some data'.name;
  target_amount = some data'.target_amount;
  target_months = some data'.target_months;
}

-- The response without its status code, which is 201 for a creation.
abbrev pub without_status : Reply → Reply
without_status (shown status g) = shown 0 g
without_status reply = reply

abbrev pub same_but_status : Reply × List Goal → Reply × List Goal
same_but_status (reply, gs) = (without_status reply, gs)

-- The upsert of the dashboard answers and writes what `GoalView.patch` with all three fields does for a
-- user with a goal, and what `GoalView.post` does for one without, but for the status code.
pub put_goal_upsert :
    (fresh user : ℕ) (today : Date) (data' : GoalInput) (gs : List Goal)
    → same_but_status (put_goal fresh user today (some data') gs)
      ≡ same_but_status (
          if is_some (goal_of user gs)
          then patch_goal user (whole data') gs
          else post_goal fresh user today data' gs)
unfolding put_goal patch_goal post_goal change_goal update_or_create
put_goal_upsert fresh user today data' gs = elim (Option-cases (goal_of user gs)) [
  | inl missing ↦ elim (Bool-cases (at_least_one data'.target_months)) [
    | inl good ↦ rw (missing, good) refl
    | inr bad ↦ rw (missing, bad) refl
  ]
  | inr (g, found) ↦ elim (Bool-cases (at_least_one data'.target_months)) [
    | inl good ↦ rw (found, good) refl
    | inr bad ↦ rw (found, bad) refl
  ]
]

-- One call of one user.
pub data Call : Type 0 where
  post : (fresh : ℕ) (today : Date) → GoalInput → Call
  patch : GoalUpdate → Call
  put : (fresh : ℕ) (today : Date) → Option GoalInput → Call
  delete : Call

abbrev pub answer : (user : ℕ) → Call → List Goal → Reply × List Goal
answer user (post fresh today data') gs = post_goal fresh user today data' gs
answer user (patch data') gs = patch_goal user data' gs
answer user (put fresh today data') gs = put_goal fresh user today data' gs
answer user delete gs = remove_goal user gs

-- The table after the calls, each with its user.
abbrev pub run : List (ℕ × Call) → List Goal → List Goal
run [] gs = gs
run ((user, call) ∷ calls) gs = run calls (answer user call gs).1

-- The user deletes the goal.
abbrev pub is_delete : ℕ → ℕ × Call → Bool
is_delete user (u, delete) = u == user
is_delete user (u, _) = false

abbrev pub has_delete : ℕ → List (ℕ × Call) → Bool
has_delete user [] = false
has_delete user (c ∷ calls) = is_delete user c || has_delete user calls

-- The user's goal is the one that was created, under the same id and with the same start.
abbrev pub IsSame : ℕ → Goal → List Goal → Type 0
IsSame user g gs =
    (g' : Goal) × (goal_of user gs ≡ some g') × (g'.id ≡ g.id) × (g'.created_at ≡ g.created_at)

some_eq : (g h : Goal) → some g ≡ some h → g ≡ h
some_eq g h same = grind (arith, same)

goal_of-user : (user : ℕ) (gs : List Goal) (g : Goal) → goal_of user gs ≡ some g → g.user ≡ user
unfolding goal_of
goal_of-user user [] g found = absurd (ground arith)
goal_of-user user (h ∷ gs) g found = grind (arith, goal_of-user user gs g)

goal_of-save_goal :
    (user : ℕ) (g : Goal) (gs : List Goal)
    → goal_of user (save_goal g gs) ≡ (
        if g.user == user
        then (if is_some (goal_of user gs) then some g else none)
        else goal_of user gs)
unfolding goal_of save_goal
goal_of-save_goal user g [] = ground arith
goal_of-save_goal user g (h ∷ gs) = ground (arith, goal_of-save_goal user g gs)

goal_of-delete_goal :
    (user u : ℕ) (gs : List Goal)
    → goal_of user (delete_goal u gs) ≡ (if u == user then none else goal_of user gs)
unfolding goal_of delete_goal
goal_of-delete_goal user u [] = ground arith
goal_of-delete_goal user u (h ∷ gs) = ground (arith, goal_of-delete_goal user u gs)

module _ (user : ℕ) (g : Goal) where
  added-IsSame :
      (u : ℕ) (n : Goal) (gs : List Goal)
      → n.user ≡ u
      → goal_of u gs ≡ none
      → IsSame user g gs
      → IsSame user g (n ∷ gs)
  unfolding goal_of
  added-IsSame u n gs owner missing (g', found, id_g, start_g) =
      (g', ground (arith, owner, missing, found), id_g, start_g)

  saved-IsSame :
      (u : ℕ) (h h' : Goal) (gs : List Goal)
      → goal_of u gs ≡ some h
      → h'.user ≡ h.user
      → h'.id ≡ h.id
      → h'.created_at ≡ h.created_at
      → IsSame user g gs
      → IsSame user g (save_goal h' gs)
  saved-IsSame u h h' gs owned same_user same_id same_start (g', found, id_g, start_g) =
      elim (Bool-cases (h'.user == user)) [
        | inl mine ↦
            let owner : u ≡ user =
              sym (goal_of-user u gs h owned) ∙ sym same_user ∙ (==_iff h'.user user).0 mine in
            let at_user : goal_of user gs ≡ some h = ap (λ v. goal_of v gs) (sym owner) ∙ owned in
            let same : h ≡ g' = some_eq h g' (sym at_user ∙ found) in
            (
              h',
              rw (goal_of-save_goal user h' gs, mine, at_user) refl,
              same_id ∙ ap (λ k. k.id) same ∙ id_g,
              same_start ∙ ap (λ k. k.created_at) same ∙ start_g,
            )
        | inr other ↦ (g', rw (goal_of-save_goal user h' gs, other) found, id_g, start_g)
      ]

  put-IsSame :
      (u fresh : ℕ) (today : Date) (data' : GoalInput) (o : Option Goal) (gs : List Goal)
      → goal_of u gs ≡ o
      → IsSame user g gs
      → IsSame user g (update_or_create fresh u today data' o gs).1
  unfolding update_or_create
  put-IsSame u fresh today data' none gs owned same =
      added-IsSame u (new_goal fresh u today data') gs refl owned same
  put-IsSame u fresh today data' (some h) gs owned same =
      saved-IsSame u h _ gs owned refl refl refl same

  change-IsSame :
      (u : ℕ) (data' : GoalUpdate) (o : Option Goal) (gs : List Goal)
      → goal_of u gs ≡ o
      → IsSame user g gs
      → IsSame user g (change_goal data' o gs).1
  unfolding change_goal
  change-IsSame u data' none gs owned same = same
  change-IsSame u data' (some h) gs owned same =
      elim (Bool-cases (is_valid_months data'.target_months)) [
        | inl good ↦ rw good (saved-IsSame u h (changed data' h) gs owned refl refl refl same)
        | inr bad ↦ rw bad same
      ]

  remove-IsSame :
      (u : ℕ) (gs : List Goal)
      → (u == user) ≡ false
      → IsSame user g gs
      → IsSame user g (remove_goal u gs).1
  unfolding remove_goal
  remove-IsSame u gs other (g', found, id_g, start_g) = elim (Bool-cases (is_some (goal_of u gs))) [
    | inl there ↦ rw there (g', rw (goal_of-delete_goal user u gs, other) found, id_g, start_g)
    | inr missing ↦ rw missing (g', found, id_g, start_g)
  ]

  answer-IsSame :
      (u : ℕ) (call : Call) (gs : List Goal)
      → is_delete user (u, call) ≡ false
      → IsSame user g gs
      → IsSame user g (answer u call gs).1
  unfolding post_goal patch_goal put_goal
  answer-IsSame u (post fresh today data') gs kept same = elim (Option-cases (goal_of u gs)) [
    | inr (h, taken) ↦ rw taken same
    | inl missing ↦ elim (Bool-cases (at_least_one data'.target_months)) [
      | inl good ↦
          rw (missing, good) (added-IsSame u (new_goal fresh u today data') gs refl missing same)
      | inr bad ↦ rw (missing, bad) same
    ]
  ]
  answer-IsSame u (patch data') gs kept same = change-IsSame u data' (goal_of u gs) gs refl same
  answer-IsSame u (put fresh today none) gs kept same = same
  answer-IsSame u (put fresh today (some data')) gs kept same =
      elim (Bool-cases (at_least_one data'.target_months)) [
        | inl good ↦ rw good (put-IsSame u fresh today data' (goal_of u gs) gs refl same)
        | inr bad ↦ rw bad same
      ]
  answer-IsSame u delete gs kept same = remove-IsSame u gs kept same

-- As long as a user does not delete the goal, no sequence of calls, of any users, replaces it or moves
-- the date that its progress is counted from.
pub run_keeps_start :
    (user : ℕ) (g : Goal) (calls : List (ℕ × Call)) (gs : List Goal)
    → goal_of user gs ≡ some g
    → has_delete user calls ≡ false
    → IsSame user g (run calls gs)
run_keeps_start user g calls gs found kept = go calls gs kept (g, found, refl, refl)
  where
    go :
        (calls : List (ℕ × Call)) (gs : List Goal)
        → has_delete user calls ≡ false
        → IsSame user g gs
        → IsSame user g (run calls gs)
    go [] gs kept same = same
    go ((u, call) ∷ calls) gs kept same =
        go calls _ (ground (arith, kept))
          (answer-IsSame user g u call gs (ground (arith, kept)) same)
