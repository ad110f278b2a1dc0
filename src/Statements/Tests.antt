-- ===== src/Statements/Tests.antt =====
-- The theorems on the statement pipeline at concrete inputs.
use nbe_financial_advisor_ba.Prelude.{
  ℕ, zero, suc, ◌≡◌, refl, true, false, none, some, [], arith, leb, inl,
}
use nbe_financial_advisor_ba.Prelude.Text.{codes}
use nbe_financial_advisor_ba.Statements.Model.{
  uploaded, extracted, normalized, Statement, Db, exception,
}
use nbe_financial_advisor_ba.Statements.Phases.{ocr}
use nbe_financial_advisor_ba.Statements.Pipeline.{
  Celery, Round, retry_refused, job, succeeded, pending, process_statement_pipeline,
}
use nbe_financial_advisor_ba.Statements.Task.{TaskEnded, pipeline-TaskEnded}
use nbe_financial_advisor_ba.Statements.Settling.{run_task, IsSettled, run_task_settles}
use nbe_financial_advisor_ba.Statements.Announcing.{AnnouncedOnce, run_task_announces}
use nbe_financial_advisor_ba.Statements.RetryLimit.{shared_retry_limit}

abbrev celery : Celery
celery = record { refuses = λ limit retries. leb limit retries; refusal = codes "Can't retry" }

abbrev statement : Statement
statement = record {
  account = none;
  status = uploaded;
  failure_reason = none;
  failed_phase = none;
  is_processing = true;
  start_transaction_date = none;
  last_transaction_date = none;
}

abbrev db : Db
db = record {
  statement = statement;
  ocr_results = [];
  normalized_records = [];
  accounts = [];
  notices = [];
  events = [];
}

abbrev ocr_round : Round
ocr_round = record {
  submission = job 1;
  poll = succeeded (
      ocr (record {
        seaweed_file_id = codes "p/";
        ocr_engine = codes "mineru";
        confidence_score = 97;
      }));
  fresh = 5;
}

abbrev waiting_round : Round
waiting_round = record { submission = job 2; poll = pending; fresh = 6 }

-- The first job succeeds at once, the second never ends.
answers : ℕ → Round
answers zero = ocr_round
answers (suc n) = waiting_round

abbrev runs : ℕ → ℕ → Round
runs zero = answers
runs (suc n) = λ _. waiting_round

pipeline-TaskEnded_example :
    let (exit, db') = process_statement_pipeline celery answers 0 normalized none 0 db in
    TaskEnded normalized db 0 exit db'
pipeline-TaskEnded_example =
    pipeline-TaskEnded celery answers 0 normalized none 0 db (omega arith) (omega arith) (inl refl)

run_task_settles_example : IsSettled normalized (run_task 481 celery runs 0 normalized none 0 db).1
run_task_settles_example =
    run_task_settles celery runs normalized (omega arith) db (omega arith) (inl refl)

run_task_announces_example :
    let (exit, db') = run_task 481 celery runs 0 normalized none 0 db in AnnouncedOnce db exit db'
run_task_announces_example =
    run_task_announces celery runs normalized (omega arith) db (omega arith) (inl refl)

abbrev idle : Db
idle = record db { statement = record statement { is_processing = false } }

abbrev second_phase : Db
second_phase = record db { statement = record statement { status = extracted } }

shared_retry_limit_example :
    let (exit, db') =
      process_statement_pipeline celery
        (λ _. waiting_round)
        240
        normalized
        (some 2)
        1
        second_phase in
    (exit ≡ retry_refused (codes "Can't retry"))
    × (db'.statement.failure_reason ≡ some (exception (codes "Can't retry")))
    × (db'.statement.is_processing ≡ false)
    × (db'.events ≡ [])
shared_retry_limit_example =
    shared_retry_limit celery (λ _. waiting_round) 240 2 1 second_phase (λ r. refl) refl refl
      (omega arith) (omega arith)
