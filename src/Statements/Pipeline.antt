-- ===== src/Statements/Pipeline.antt =====
-- process_statement_pipeline and validate_advance of core/tasks/statements.py, and
-- advance_statement_to of core/views/statements.py.
use nbe_financial_advisor_ba.Prelude.{
  ℕ, zero, suc, ◌+◌, Bool, true, false, Option, none, some, [], ◌∷◌, ◌++◌, leb, ltb, if◌then◌else◌,
}
use nbe_financial_advisor_ba.Prelude.Text.{Text, is_blank}
use nbe_financial_advisor_ba.Statements.Model.{
  Status, approved, Phase, Reason, exception, job_error, job_failed, timed_out, Statement,
  StatusEvent, Db, rank, phase_for_status,
}
use nbe_financial_advisor_ba.Statements.Phases.{
  JobResult, Finalized, saved, raised, finalize, fail_phase,
}

abbrev pub max_poll_attempts : ℕ
max_poll_attempts = 240

-- What the AI service answers: to the submission of a job, and to a poll of one. `submit_raises` and
-- `poll_raises` are exceptions of the client; the other two with a text are answers that lack a key
-- that the task reads.
pub data Submission : Type 0 where
  job : (job_id : ℕ) → Submission
  submit_raises : Text → Submission
  no_job_id : Text → Submission

pub data Poll : Type 0 where
  succeeded : JobResult → Poll
  failed : (error : Option Text) → Poll
  pending : Poll
  poll_raises : Text → Poll
  malformed_status : Text → Poll

-- One round of the loop: the answers, and the id of the account that the round may create.
pub record Round : Type 0 where
  pub submission : Submission
  pub poll : Poll
  pub fresh : ℕ

-- How a run of the task ends: normally, by `self.retry`, with an exception, or with the exception by
-- which `self.retry` refuses.
pub data Exit : Type 0 where
  finished : Exit
  retry : (job_id poll_attempt : ℕ) → Exit
  raises : Text → Exit
  retry_refused : Text → Exit
  out_of_fuel : Exit

-- `status.get("error") or "AI service job failed"`
error_reason : Option Text → Reason
error_reason none = job_failed
error_reason (some e) = if is_blank e then job_failed else job_error e

-- Celery's refusal of a retry, as an exception with its text.
pub record Celery : Type 0 where
  pub refuses : (max_retries retries : ℕ) → Bool
  pub refusal : Text

-- `queued` or `running`
unfoldable pub keep_polling : Celery → (retries job_id poll_attempt : ℕ) → Phase → Db → Exit × Db
keep_polling celery retries job_id poll_attempt phase db =
    if leb max_poll_attempts poll_attempt
    then (finished, fail_phase phase (timed_out job_id) db)
    else if celery.refuses max_poll_attempts retries
    then (retry_refused celery.refusal, db)
    else (retry job_id (poll_attempt + 1), db)

-- What follows a poll: an exit, or (`none`) another round.
unfoldable pub after_finalize : Finalized → Option Exit × Db
after_finalize (saved db) = (none, db)
after_finalize (raised e db) = (some (raises e), db)

unfoldable pub on_poll :
    Celery → (retries job_id poll_attempt : ℕ) → Phase → (fresh : ℕ) → Poll → Db → Option Exit × Db
unfolding error_reason
on_poll celery retries job_id poll_attempt phase fresh (succeeded r) db =
    after_finalize (finalize phase r fresh db)
on_poll celery retries job_id poll_attempt phase fresh (failed e) db =
    (some finished, fail_phase phase (error_reason e) db)
on_poll celery retries job_id poll_attempt phase fresh (poll_raises e) db =
    (some finished, fail_phase phase (exception e) db)
on_poll celery retries job_id poll_attempt phase fresh (malformed_status e) db =
    (some (raises e), db)
on_poll celery retries job_id poll_attempt phase fresh pending db =
    let (exit, db') = keep_polling celery retries job_id poll_attempt phase db in (some exit, db')

-- The body of the loop once the phase is known. A job that is already submitted is not submitted
-- again.
unfoldable pub on_submission :
    Celery → (retries poll_attempt : ℕ) → Phase → Round → Submission → Db → Option Exit × Db
on_submission celery retries poll_attempt phase r (job job_id) db =
    on_poll celery retries job_id poll_attempt phase r.fresh r.poll db
on_submission celery retries poll_attempt phase r (submit_raises e) db =
    (some finished, fail_phase phase (exception e) db)
on_submission celery retries poll_attempt phase r (no_job_id e) db = (some (raises e), db)

submitted : Option ℕ → Submission → Submission
submitted none s = s
submitted (some job_id) s = job job_id

abbrev pub mark_processing : Db → Db
mark_processing db = record db { statement = record db.statement { is_processing = true } }

unfoldable pub round :
    Celery
    → (retries : ℕ) (job_id : Option ℕ) (poll_attempt : ℕ) → Option Phase
    → Round
    → Db
    → Option Exit × Db
unfolding submitted
round celery retries job_id poll_attempt none r db = (some finished, db)
round celery retries job_id poll_attempt (some phase) r db =
    on_submission celery retries poll_attempt phase r (submitted job_id r.submission)
      (mark_processing db)

-- After a round: the exit, or the rest of the loop from the rows that the round left.
unfoldable pub resume : Option Exit → Db → (Db → Exit × Db) → Exit × Db
resume (some e) db rest = (e, db)
resume none db rest = rest db

-- The `while` loop; `n` counts its rounds.
unfoldable pub loop :
    (fuel : ℕ)
    → Celery
    → (answers : ℕ → Round) (n retries : ℕ) (target : Status)
    → (job_id : Option ℕ) (poll_attempt : ℕ) → Db
    → Exit × Db
loop zero celery answers n retries target job_id poll_attempt db = (out_of_fuel, db)
loop (suc fuel) celery answers n retries target job_id poll_attempt db =
    elim (ltb (rank db.statement.status) (rank target)) [
      | false ↦ (finished, db)
      | true ↦
          let (exit, db') =
            round celery retries job_id poll_attempt (phase_for_status db.statement.status)
              (answers n) db in
          resume exit db' (λ next. loop fuel celery answers (suc n) retries target none 0 next)
    ]

-- `statement.failed_phase or _PHASE_FOR_STATUS.get(statement.status)`
or_phase : Option Phase → Option Phase → Option Phase
or_phase (some p) q = some p
or_phase none q = q

-- The handler of any other exception.
record_exception : Text → Db → Db
unfolding or_phase
record_exception e db =
    let s = db.statement in
    let s' : Statement = record s {
      is_processing = false;
      failure_reason = some (exception e);
      failed_phase = or_phase s.failed_phase (phase_for_status s.status);
    } in
    record db { statement = s' }

abbrev pub event_of : Statement → StatusEvent
event_of s = record {
  status = s.status;
  is_processing = s.is_processing;
  failure_reason = s.failure_reason;
  failed_phase = s.failed_phase;
}

-- `publish_user_event(…, "statement_status", …)`
publish : Db → Db
publish db = record db { events = db.events ++ event_of db.statement ∷ [] }

-- The `except` clauses and the `finally` block. `retry_pending` is set before `self.retry` is called,
-- so nothing is published where that call refuses.
unfoldable pub close : Exit → Db → Db
unfolding record_exception publish
close (retry job_id poll_attempt) db = db
close (raises e) db = publish (record_exception e db)
close (retry_refused e) db = record_exception e db
close finished db = publish db
close out_of_fuel db = db

-- Three phases at most lie between two statuses, and the last round finds the loop's test false.
abbrev pub loop_fuel : ℕ
loop_fuel = 4

-- One run of the Celery task.
unfoldable pub process_statement_pipeline :
    Celery
    → (answers : ℕ → Round) (retries : ℕ) (target : Status) (job_id : Option ℕ) → (poll_attempt : ℕ)
    → Db
    → Exit × Db
process_statement_pipeline celery answers retries target job_id poll_attempt db =
    let (exit, db') = loop loop_fuel celery answers 0 retries target job_id poll_attempt db in
    (exit, close exit db')

pub data Refusal : Type 0 where
  already_approved already_processing invalid_status_transition : Refusal

-- `validate_advance`: the refusal, if any.
unfoldable pub validate_advance : Statement → (target : Status) → Option Refusal
validate_advance s target = elim s.status [
  | approved ↦ some already_approved
  | status ↦
      if s.is_processing
      then some already_processing
      else if leb (rank target) (rank status)
      then some invalid_status_transition
      else none
]

-- `advance_statement_to`: a refusal, or the row with the task enqueued.
unfoldable pub advance_statement_to : (target : Status) → Db → Option Refusal × Db
advance_statement_to target db = elim (validate_advance db.statement target) [
  | some refusal ↦ (some refusal, db)
  | none ↦ (none, mark_processing db)
]
