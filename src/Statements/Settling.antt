-- ===== src/Statements/Settling.antt =====
-- The task with all its retries: it settles the statement and announces that once.
use nbe_financial_advisor_ba.Prelude.{
  ℕ, zero, suc, ◌-◌, ◌*◌, ◌≤◌, ◌<◌, ◌≡◌, ◌≢◌, ap, false, Option, none, some, arith, ◌⊎◌, inl, inr,
  ◌↔◌,
}
use nbe_financial_advisor_ba.Statements.Model.{Status, Db, rank}
use nbe_financial_advisor_ba.Statements.Pipeline.{
  Celery, Round, Exit, finished, retry, raises, retry_refused, out_of_fuel, max_poll_attempts,
  process_statement_pipeline, already_processing, validate_advance, advance_statement_to,
}
use nbe_financial_advisor_ba.Statements.Task.{
  IsConsistent, HasArrived, HasFailed, IsWaiting, TaskEnded, pipeline-TaskEnded,
}

-- What Celery does with the end of a run: only a retry is followed by another.
unfoldable pub reschedule : Exit → Db → (ℕ → ℕ → Db → Exit × Db) → Exit × Db
reschedule (retry job_id attempt) db next = next job_id attempt db
reschedule exit db next = (exit, db)

-- The runs of the task: `self.retry` enqueues the next with the job and the next attempt. `answers n`
-- is what the AI service answers in the run that follows `n` retries.
unfoldable pub run_task :
    (fuel : ℕ)
    → Celery
    → (answers : ℕ → ℕ → Round) (retries : ℕ) (target : Status) → (job_id : Option ℕ) (attempt : ℕ)
    → Db
    → Exit × Db
run_task zero celery answers retries target job_id attempt db = (out_of_fuel, db)
run_task (suc fuel) celery answers retries target job_id attempt db =
    let (exit, db') =
      process_statement_pipeline celery (answers retries) retries target job_id attempt db in
    reschedule exit db' (λ next_job next_attempt next.
      run_task fuel celery answers (suc retries) target (some next_job) next_attempt next)

-- No retry is left: the statement is at its target, or released with a failure.
abbrev pub IsSettled : Status → Db → Type 0
IsSettled target db = HasArrived target db ⊎ HasFailed target db

module _ (celery : Celery) (answers : ℕ → ℕ → Round) (target : Status)
    (reachable : rank target ≤ 2) where
  abbrev pub budget : Db → ℕ → ℕ
  budget db attempt = (rank target - rank db.statement.status) * 240 - attempt

  reschedule-IsSettled :
      (start : Db) (attempt : ℕ) (exit : Exit) (db : Db) (next : ℕ → ℕ → Db → Exit × Db)
      → TaskEnded target start attempt exit db
      → ((job_id next_attempt : ℕ)
          → IsWaiting target start attempt next_attempt db
          → IsSettled target (next job_id next_attempt db).1)
      → IsSettled target (reschedule exit db next).1
  unfolding reschedule
  reschedule-IsSettled start attempt (retry job_id next_attempt) db next h rest =
      rest job_id next_attempt h
  reschedule-IsSettled start attempt finished db next h rest = h
  reschedule-IsSettled start attempt (raises e) db next h rest = inr h
  reschedule-IsSettled start attempt (retry_refused e) db next h rest = inr h
  reschedule-IsSettled start attempt out_of_fuel db next h rest = absurd h

  -- A waiting statement has used up a part of the budget.
  pub budget_falls :
      (start : Db) (attempt next_attempt : ℕ) (db : Db)
      → attempt ≤ max_poll_attempts
      → IsWaiting target start attempt next_attempt db
      → budget db next_attempt < budget start attempt
  budget_falls start attempt next_attempt db a (below, _, _, n, inl (same, one)) =
      omega (arith, ap rank same)
  budget_falls start attempt next_attempt db a (below, _, _, n, inr (more, one)) = omega arith

  run_task-IsSettled :
      (fuel retries : ℕ) (job_id : Option ℕ) (attempt : ℕ) (db : Db)
      → budget db attempt < fuel
      → attempt ≤ max_poll_attempts
      → rank db.statement.status < rank target
      → IsConsistent db
      → IsSettled target (run_task fuel celery answers retries target job_id attempt db).1
  unfolding run_task
  run_task-IsSettled zero retries job_id attempt db enough a below c = absurd (omega arith)
  run_task-IsSettled (suc fuel) retries job_id attempt db enough a below c =
      let (exit, db') =
        process_statement_pipeline celery (answers retries) retries target job_id attempt db in
      reschedule-IsSettled db attempt exit db' _
        (pipeline-TaskEnded celery (answers retries) retries target job_id attempt db reachable
          below c)
        λ next_job next_attempt w.
          run_task-IsSettled fuel (suc retries) (some next_job) next_attempt db'
            (omega (arith, budget_falls db attempt next_attempt db' a w)) w.3 w.0 w.2

  -- Within 481 runs of the task a statement that was handed to it is settled: it is at the target
  -- without a failure, or released before the target with the failure of the phase it stands
  -- before. This holds whatever the AI service answers and whenever Celery refuses a retry.
  pub run_task_settles :
      (db : Db)
      → rank db.statement.status < rank target
      → IsConsistent db
      → IsSettled target (run_task 481 celery answers 0 target none 0 db).1
  run_task_settles db below c =
      run_task-IsSettled 481 0 none 0 db (omega arith) (omega arith) below c

-- A request to advance is accepted exactly when nothing is running on the statement and the target
-- lies ahead of its status; then it marks the statement, and any further request is refused.
pub advance_guards :
    (target : Status) (db : Db)
    → let (refusal, db') = advance_statement_to target db in
      ((refusal ≡ none)
        ↔ ((db.statement.is_processing ≡ false) × (rank db.statement.status < rank target)))
      × (refusal ≡ none
          → (target' : Status) → (advance_statement_to target' db').0 ≡ some already_processing)
      × (refusal ≢ none → db' ≡ db)
unfolding advance_statement_to validate_advance
advance_guards target db =
    ((λ h. ground arith, λ h. ground arith), λ h target'. ground arith, λ h. ground arith)
