-- ===== src/Statements/RetryLimit.antt =====
-- Celery counts the retries of a task over both of its phases, and the pipeline counts the polls of
-- each phase from 0.
use nbe_financial_advisor_ba.Prelude.{ℕ, ◌≤◌, ◌<◌, ◌≡◌, false, some, arith, leb}
use nbe_financial_advisor_ba.Statements.Model.{extracted, normalized, Db, exception}
use nbe_financial_advisor_ba.Statements.Pipeline.{
  Celery, Round, retry_refused, pending, max_poll_attempts, process_statement_pipeline, loop,
  resume, round, on_submission, on_poll, keep_polling, close,
}

-- Suppose that Celery refuses a retry once 240 have been made. Then a normalization job that is still
-- pending after 240 retries in all is given up, though the poll budget of its own phase is not used
-- up: the refusal becomes the failure reason, the statement is released, and no event is published.
pub shared_retry_limit :
    (celery : Celery) (answers : ℕ → Round) (retries job_id attempt : ℕ) (db : Db)
    → ((r : ℕ) → celery.refuses max_poll_attempts r ≡ leb max_poll_attempts r)
    → db.statement.status ≡ extracted
    → (answers 0).poll ≡ pending
    → max_poll_attempts ≤ retries
    → attempt < max_poll_attempts
    → let (exit, db') =
        process_statement_pipeline celery answers retries normalized (some job_id) attempt db in
      (exit ≡ retry_refused celery.refusal)
      × (db'.statement.failure_reason ≡ some (exception celery.refusal))
      × (db'.statement.is_processing ≡ false)
      × (db'.events ≡ db.events)
unfolding process_statement_pipeline loop resume round on_submission on_poll keep_polling close
shared_retry_limit celery answers retries job_id attempt db rule status waiting many few =
    ground (arith, rule retries)
